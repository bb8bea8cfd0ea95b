-- ===== src/Erc/Supply.antt =====
-- src/ipc_lib.rs: the sum of the balances of a token over the subnets, and what transfers do to it.
use bitcoin_ipc.Prelude.{
  ℕ, ◌+◌, ◌-◌, ◌≤◌, ◌≡◌, refl, ◌∙◌, false, ◌&&◌, List, [], ◌∷◌, arith, sum, count, le-sum,
  sum-update_once, sum-congr, All, ◌==◌, Bool-cases, inl, inr,
}
use bitcoin_ipc.Result.{ok, >>=-eq-ok}
use bitcoin_ipc.Types.{SubnetId, EthAddress}
use bitcoin_ipc.Records.{IpcCrossSubnetErcTransfer, erc_transfer}
use bitcoin_ipc.Db.{Db, get_token_balance, set_token_balance}
use bitcoin_ipc.Erc.{u256_max}
use bitcoin_ipc.Erc.Apply.{BlockStamp, send, move_tokens, apply_transfer, apply_transfers, credited}
use bitcoin_ipc.Erc.Ledger.{get-set_token_balance, get_token_balance-send}

-- The tokens that a list of subnets holds between them.
unfoldable pub supply : List SubnetId → Db → SubnetId → EthAddress → ℕ
supply holders db home token = sum (λ holder. get_token_balance db home token holder) holders

credited_fits : (a b : ℕ) → a + b ≤ u256_max → credited a b ≡ a + b
unfolding credited
credited_fits a b h = ground arith

module _ (holders : List SubnetId) where
  supply-set :
      (db : Db) (home : SubnetId) (token : EthAddress) (holder : SubnetId) (v : ℕ)
      → count holder holders ≡ 1
      → supply holders (set_token_balance db home token holder v) home token
          + get_token_balance db home token holder
        ≡ supply holders db home token + v
  unfolding supply
  supply-set db home token holder v once =
      sum-update_once (λ j. get_token_balance db home token j)
        (λ j. get_token_balance (set_token_balance db home token holder v) home token j) holder v
        holders (λ j. ground (arith, get-set_token_balance home token j db home token holder v))
        once

  -- Another token's balances are not summed.
  supply-set_ne :
      (db : Db) (home home' : SubnetId) (token token' : EthAddress) (holder : SubnetId) (v : ℕ)
      → (home' == home && token' == token) ≡ false
      → supply holders (set_token_balance db home' token' holder v) home token
        ≡ supply holders db home token
  unfolding supply
  supply-set_ne db home home' token token' holder v ne =
      sum-congr _ _ holders
        (λ j. ground (arith, get-set_token_balance home token j db home' token' holder v))

  supply-send :
      (db : Db) (id : SubnetId) (etx : IpcCrossSubnetErcTransfer) (b : BlockStamp) (home : SubnetId)
      (token : EthAddress)
      → supply holders (send db id (erc_transfer etx) b) home token ≡ supply holders db home token
  unfolding supply
  supply-send db id etx b home token =
      sum-congr _ _ holders (λ j. get_token_balance-send home token j db id (erc_transfer etx) b)

  le-supply :
      (db : Db) (home : SubnetId) (token : EthAddress) (holder : SubnetId)
      → count holder holders ≡ 1
      → get_token_balance db home token holder ≤ supply holders db home token
  unfolding supply
  le-supply db home token holder once =
      le-sum (λ j. get_token_balance db home token j) holder holders once

  module _ (source : SubnetId) (once : count source holders ≡ 1) where
    -- The token that is moved: what the source loses the destination gains.
    supply-move_self :
        (etx : IpcCrossSubnetErcTransfer) (db : Db)
        → count etx.destination_subnet_id holders ≡ 1
        → etx.amount ≤ get_token_balance db etx.home_subnet_id etx.home_token_address source
        → supply holders db etx.home_subnet_id etx.home_token_address ≤ u256_max
        → supply holders (move_tokens source etx db) etx.home_subnet_id etx.home_token_address
          ≡ supply holders db etx.home_subnet_id etx.home_token_address
    unfolding move_tokens
    supply-move_self etx db once' enough fits =
        let home = etx.home_subnet_id in
        let token = etx.home_token_address in
        let dest = etx.destination_subnet_id in
        let old = get_token_balance db home token source in
        let debited = set_token_balance db home token source (old - etx.amount) in
        let kept = get_token_balance debited home token dest in
        omega (
          arith,
          supply-set db home token source (old - etx.amount) once,
          le-supply debited home token dest once',
          credited_fits kept etx.amount,
          supply-set debited home token dest (credited kept etx.amount) once',
        )

    supply-move_ne :
        (etx : IpcCrossSubnetErcTransfer) (db : Db) (home : SubnetId) (token : EthAddress)
        → (etx.home_subnet_id == home && etx.home_token_address == token) ≡ false
        → supply holders (move_tokens source etx db) home token ≡ supply holders db home token
    unfolding move_tokens
    supply-move_ne etx db home token ne =
        supply-set_ne _ home etx.home_subnet_id token etx.home_token_address
          etx.destination_subnet_id _ ne
        ∙ supply-set_ne db home etx.home_subnet_id token etx.home_token_address source _ ne

    -- `home` and `token` name any token, moved or not.
    supply-apply_transfer :
        (b : BlockStamp) (etx : IpcCrossSubnetErcTransfer) (db db' : Db) (home : SubnetId)
        (token : EthAddress)
        → count etx.destination_subnet_id holders ≡ 1
        → supply holders db etx.home_subnet_id etx.home_token_address ≤ u256_max
        → apply_transfer source b etx db ≡ ok db'
        → supply holders db' home token ≡ supply holders db home token
    unfolding apply_transfer
    supply-apply_transfer b etx db db' home token once' fits e =
        elim (Bool-cases (etx.home_subnet_id == home && etx.home_token_address == token)) [
          | inr ne ↦ ground (
            arith,
            supply-send (move_tokens source etx db) etx.destination_subnet_id etx b home token,
            supply-move_ne etx db home token ne,
          )
          | inl same ↦ ground (
            arith,
            supply-send (move_tokens source etx db) etx.destination_subnet_id etx b home token,
            supply-move_self etx db once',
          )
        ]

    -- The transfers of a batch leave every token's supply as it was: `home` and `token` name any
    -- token, `holders` lists the source and every destination once, and no supply exceeds a
    -- `U256` beforehand, so that no credit is clamped.
    pub supply-apply_transfers :
        (b : BlockStamp) (etxs : List IpcCrossSubnetErcTransfer) (db db' : Db)
        → All
            (λ (etx : IpcCrossSubnetErcTransfer). count etx.destination_subnet_id holders ≡ 1)
            etxs
        → ((home : SubnetId) (token : EthAddress) → supply holders db home token ≤ u256_max)
        → apply_transfers source b etxs db ≡ ok db'
        → (home : SubnetId) (token : EthAddress)
        → supply holders db' home token ≡ supply holders db home token
    unfolding apply_transfers
    supply-apply_transfers b [] db db' dests fits e home token =
        let same : db ≡ db' = cc in rw (← same) refl
    supply-apply_transfers b (etx ∷ rest) db db' dests fits e home token =
        let (db₁, first, others) = >>=-eq-ok (apply_transfer source b etx db) _ e in
        let step = λ (h : SubnetId) (t : EthAddress).
          supply-apply_transfer b etx db db₁ h t dests.0
            (fits etx.home_subnet_id etx.home_token_address) first in
        supply-apply_transfers b rest db₁ db' dests.1 (λ h t. rw (step h t) (fits h t)) others home
          token
        ∙ step home token
