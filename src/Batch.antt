-- ===== src/Batch.antt =====
-- src/ipc_lib.rs: `IpcBatchTransferMsg::save_to_db`, which records the batch on the checkpoint of its
-- subnet, sends the transfers on, and applies the ERC operations.
pub mod Saved
pub mod Checkpoints
pub mod Nonces
pub mod Valid
use bitcoin_ipc.Prelude.{ℕ, ◌+◌, Option, none, some, List, [], ◌∷◌}
use bitcoin_ipc.Result.{
  Result, ok, err, ◌>>=◌, ok_or, subnet_not_found, no_checkpoints, checkpoint_missing,
}
use bitcoin_ipc.Types.{SubnetId, EthAddress, Txid, BlockHash, Amount}
use bitcoin_ipc.Records.{
  SubnetCheckpoint, IpcErcTokenRegistration, IpcErcSupplyAdjustment, IpcCrossSubnetErcTransfer,
  IpcCrossSubnetTransfer, fund_subnet,
}
use bitcoin_ipc.Db.{Db, get_subnet_state, get_checkpoint, save_checkpoint}
use bitcoin_ipc.Erc.{validate_erc_batch_data}
use bitcoin_ipc.Erc.Apply.{BlockStamp, send, apply_erc_batch}

pub record IpcBatchTransferMsg : Type 0 where
  pub subnet_id : SubnetId
  pub checkpoint_txid : Txid
  pub checkpoint_vout : ℕ
  pub transfers : List IpcCrossSubnetTransfer
  pub token_registrations : List IpcErcTokenRegistration
  pub token_supply_adjustments : List IpcErcSupplyAdjustment
  pub token_transfers : List IpcCrossSubnetErcTransfer

unfoldable pub send_transfer : BlockStamp → IpcCrossSubnetTransfer → Db → Db
send_transfer b t db =
    send db t.destination_subnet_id
      (fund_subnet (record {
        subnet_id = t.destination_subnet_id;
        amount = t.amount;
        address = t.subnet_user_address;
      }))
      b

unfoldable pub send_transfers : BlockStamp → List IpcCrossSubnetTransfer → Db → Db
send_transfers b [] db = db
send_transfers b (t ∷ transfers) db = send_transfers b transfers (send_transfer b t db)

abbrev pub with_batch : SubnetCheckpoint → BlockStamp → SubnetCheckpoint
with_batch c b = record c {
  batch_transfer_txid = some b.txid;
  batch_transfer_block_height = some b.block_height;
}

-- The checkpoint that is read has the last number; the number that it is saved under is one more.
unfoldable pub save_batch : IpcBatchTransferMsg → Db → BlockStamp → Result (SubnetCheckpoint × Db)
save_batch m db b = do
  s ← ok_or (get_subnet_state db m.subnet_id) subnet_not_found
  number ← ok_or s.last_checkpoint_number no_checkpoints
  checkpoint ← ok_or (get_checkpoint db m.subnet_id number) checkpoint_missing
  fb ←
      validate_erc_batch_data db m.subnet_id m.token_registrations m.token_supply_adjustments
        m.token_transfers
  let saved = save_checkpoint db m.subnet_id (with_batch checkpoint b) (number + 1)
  db' ←
      apply_erc_batch m.subnet_id b m.token_registrations m.token_supply_adjustments
        m.token_transfers (send_transfers b m.transfers saved)
  ok (with_batch checkpoint b, db')
