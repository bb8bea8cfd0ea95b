-- ===== src/Erc/Apply.antt =====
-- src/ipc_lib.rs: the part of `IpcBatchTransferMsg::save_to_db` that writes the ERC operations of a
-- batch to the database, in the order of the check.
use bitcoin_ipc.Prelude.{ℕ, ◌+◌, ◌-◌, List, [], ◌∷◌, ltb, leb, ◌==◌, if◌then◌else◌}
use bitcoin_ipc.Result.{Result, ok, ◌>>=◌, ◌>>◌, fail_if, burn_underflow, transfer_underflow}
use bitcoin_ipc.Types.{SubnetId, Txid, BlockHash}
use bitcoin_ipc.Subnet.{SubnetState}
use bitcoin_ipc.Records.{
  is_negative, unsigned_abs, Stamp, RootnetMessage, erc_transfer, erc_registration,
  IpcErcTokenRegistration, IpcErcSupplyAdjustment, IpcCrossSubnetErcTransfer,
}
use bitcoin_ipc.Db.{
  Db, get_token_balance, set_token_balance, get_next_rootnet_msg_nonce, add_rootnet_msg,
  get_all_subnets,
}
use bitcoin_ipc.Erc.{u256_max, saturating_add}

-- What the block and the transaction add to each message of a batch.
pub record BlockStamp : Type 0 where
  pub block_height : ℕ
  pub block_hash : BlockHash
  pub txid : Txid

unfoldable pub with_nonce : BlockStamp → ℕ → Stamp
with_nonce b nonce = record {
  block_height = b.block_height;
  block_hash = b.block_hash;
  nonce = nonce;
  txid = b.txid;
}

-- Appends a message for a subnet under its next nonce.
unfoldable pub send : Db → SubnetId → (Stamp → RootnetMessage) → BlockStamp → Db
unfolding with_nonce
send db id message b =
    add_rootnet_msg db id (message (with_nonce b (get_next_rootnet_msg_nonce db id)))

-- `checked_add`, clamped to the maximum.
unfoldable pub credited : ℕ → ℕ → ℕ
credited balance amount = if leb (balance + amount) u256_max then balance + amount else u256_max

module _ (source : SubnetId) (b : BlockStamp) where
  unfoldable pub announce_to : IpcErcTokenRegistration → SubnetState → Db → Db
  announce_to etr s db = if s.id == source then db else send db s.id (erc_registration source etr) b

  unfoldable pub announce : IpcErcTokenRegistration → List SubnetState → Db → Db
  announce etr [] db = db
  announce etr (s ∷ subnets) db = announce etr subnets (announce_to etr s db)

  unfoldable pub apply_registration : List SubnetState → IpcErcTokenRegistration → Db → Db
  apply_registration subnets etr db =
      announce etr subnets
        (set_token_balance db source etr.home_token_address source etr.initial_supply)

  unfoldable pub apply_registrations : List SubnetState → List IpcErcTokenRegistration → Db → Db
  apply_registrations subnets [] db = db
  apply_registrations subnets (etr ∷ rest) db =
      apply_registrations subnets rest (apply_registration subnets etr db)

module _ (source : SubnetId) where
  unfoldable pub apply_mint : IpcErcSupplyAdjustment → Db → Db
  apply_mint ems db =
      if is_negative ems.delta
      then db
      else set_token_balance db source ems.home_token_address source (
          saturating_add (get_token_balance db source ems.home_token_address source)
            (unsigned_abs ems.delta))

  unfoldable pub apply_mints : List IpcErcSupplyAdjustment → Db → Db
  apply_mints [] db = db
  apply_mints (ems ∷ rest) db = apply_mints rest (apply_mint ems db)

  unfoldable pub apply_burn : IpcErcSupplyAdjustment → Db → Result Db
  apply_burn ems db =
      if is_negative ems.delta
      then (do
        let balance = get_token_balance db source ems.home_token_address source
        fail_if (ltb balance (unsigned_abs ems.delta)) burn_underflow
        ok (
            set_token_balance db source ems.home_token_address source
              (balance - unsigned_abs ems.delta)))
      else ok db

  unfoldable pub apply_burns : List IpcErcSupplyAdjustment → Db → Result Db
  apply_burns [] db = ok db
  apply_burns (ems ∷ rest) db = do db' ← apply_burn ems db; apply_burns rest db'

  -- The two writes of a transfer: the source is debited before the destination is read.
  unfoldable pub move_tokens : IpcCrossSubnetErcTransfer → Db → Db
  move_tokens etx db =
      let home = etx.home_subnet_id in
      let token = etx.home_token_address in
      let debited =
        set_token_balance db home token source
          (get_token_balance db home token source - etx.amount) in
      set_token_balance debited home token etx.destination_subnet_id
        (credited (get_token_balance debited home token etx.destination_subnet_id) etx.amount)

module _ (source : SubnetId) (b : BlockStamp) where
  unfoldable pub apply_transfer : IpcCrossSubnetErcTransfer → Db → Result Db
  apply_transfer etx db = if etx.amount == 0 then ok db else (do
    let balance = get_token_balance db etx.home_subnet_id etx.home_token_address source
    fail_if (ltb balance etx.amount) transfer_underflow
    ok (send (move_tokens source etx db) etx.destination_subnet_id (erc_transfer etx) b))

  unfoldable pub apply_transfers : List IpcCrossSubnetErcTransfer → Db → Result Db
  apply_transfers [] db = ok db
  apply_transfers (etx ∷ rest) db = do db' ← apply_transfer etx db; apply_transfers rest db'

  unfoldable pub apply_erc_batch :
      List IpcErcTokenRegistration
      → List IpcErcSupplyAdjustment
      → List IpcCrossSubnetErcTransfer
      → Db
      → Result Db
  apply_erc_batch registrations adjustments transfers db = do
    let registered = apply_registrations source b (get_all_subnets db) registrations db
    burnt ← apply_burns source adjustments (apply_mints source adjustments registered)
    apply_transfers transfers burnt
