-- ===== src/Erc/Ledger.antt =====
-- src/ipc_lib.rs: how the writes of a batch change the token balances.
use bitcoin_ipc.Prelude.{
  ℕ, ◌-◌, ◌≤◌, ◌≡◌, refl, ◌∙◌, ◌&&◌, List, [], ◌∷◌, arith, ◌==◌, if◌then◌else◌,
}
use bitcoin_ipc.Types.{SubnetId, EthAddress}
use bitcoin_ipc.Subnet.{SubnetState}
use bitcoin_ipc.Records.{
  Stamp, RootnetMessage, erc_registration, IpcErcTokenRegistration, IpcCrossSubnetErcTransfer,
}
use bitcoin_ipc.Db.{Db, get_token_balance, set_token_balance, add_rootnet_msg}
use bitcoin_ipc.Erc.{u256_max, saturating_add}
use bitcoin_ipc.Erc.Apply.{
  BlockStamp, send, announce_to, announce, apply_registration, credited, move_tokens,
}

module _ (home : SubnetId) (token : EthAddress) (holder : SubnetId) where
  pub get-set_token_balance :
      (db : Db) (home' : SubnetId) (token' : EthAddress) (holder' : SubnetId) (v : ℕ)
      → get_token_balance (set_token_balance db home' token' holder' v) home token holder ≡ (
          if home' == home && token' == token && holder' == holder
          then v
          else get_token_balance db home token holder)
  unfolding get_token_balance set_token_balance
  get-set_token_balance db home' token' holder' v = ground arith

  pub get_token_balance-send :
      (db : Db) (id : SubnetId) (message : Stamp → RootnetMessage) (b : BlockStamp)
      → get_token_balance (send db id message b) home token holder
        ≡ get_token_balance db home token holder
  unfolding get_token_balance send add_rootnet_msg
  get_token_balance-send db id message b = refl

  get_token_balance-announce_to :
      (source : SubnetId) (b : BlockStamp) (etr : IpcErcTokenRegistration) (s : SubnetState)
      (db : Db)
      → get_token_balance (announce_to source b etr s db) home token holder
        ≡ get_token_balance db home token holder
  unfolding announce_to
  get_token_balance-announce_to source b etr s db =
      ground (arith, get_token_balance-send db s.id (erc_registration source etr) b)

  pub get_token_balance-announce :
      (source : SubnetId) (b : BlockStamp) (etr : IpcErcTokenRegistration)
      (subnets : List SubnetState) (db : Db)
      → get_token_balance (announce source b etr subnets db) home token holder
        ≡ get_token_balance db home token holder
  unfolding announce
  get_token_balance-announce source b etr [] db = refl
  get_token_balance-announce source b etr (s ∷ subnets) db =
      get_token_balance-announce source b etr subnets (announce_to source b etr s db)
      ∙ get_token_balance-announce_to source b etr s db

  -- Only the home subnet's own balance of the token changes, to the initial supply.
  pub get-apply_registration :
      (source : SubnetId) (b : BlockStamp) (subnets : List SubnetState)
      (etr : IpcErcTokenRegistration) (db : Db)
      → get_token_balance (apply_registration source b subnets etr db) home token holder ≡ (
          if source == home && etr.home_token_address == token && source == holder
          then etr.initial_supply
          else get_token_balance db home token holder)
  unfolding apply_registration
  get-apply_registration source b subnets etr db =
      get_token_balance-announce source b etr subnets _
      ∙ get-set_token_balance db source etr.home_token_address source etr.initial_supply

-- A mint of the same amount keeps the order of two balances, and stays a `U256`.
pub saturating_add_mono :
    (a b c : ℕ)
    → a ≤ b
    → (saturating_add a c ≤ saturating_add b c) × (saturating_add a c ≤ u256_max)
unfolding saturating_add
saturating_add_mono a b c h = omega arith

pub le-saturating_add : (a b c : ℕ) → a ≤ b → a ≤ u256_max → a ≤ saturating_add b c
unfolding saturating_add
le-saturating_add a b c h k = omega arith

pub le-credited : (a b c : ℕ) → a ≤ b → a ≤ u256_max → a ≤ credited b c
unfolding credited
le-credited a b c h k = ground arith

-- A transfer credits the destination, after it has debited the source.
pub get-move_tokens :
    (source : SubnetId) (etx : IpcCrossSubnetErcTransfer) (db : Db) (home : SubnetId)
    (token : EthAddress) (holder : SubnetId)
    → get_token_balance (move_tokens source etx db) home token holder ≡ (
        if etx.home_subnet_id == home && etx.home_token_address == token
        then (let old = get_token_balance db home token holder in
            let kept = if source == holder then old - etx.amount else old in
            if etx.destination_subnet_id == holder then credited kept etx.amount else kept)
        else get_token_balance db home token holder)
unfolding move_tokens
get-move_tokens source etx db home token holder = simp get-set_token_balance (ground arith)
