-- ===== src/Msg/Checkpoint.antt =====
-- src/ipc_lib.rs: `IpcCheckpointSubnetMsg::save_to_db`, which records a checkpoint, rotates the
-- committee and confirms stake changes.
pub mod Described
pub mod Recorded
pub mod Rotation
use bitcoin_ipc.Prelude.{
  ℕ, ◌+◌, Bool, true, false, ◌||◌, Option, none, some, List, ltb, ◌==◌, if◌then◌else◌,
}
use bitcoin_ipc.Result.{
  Result, ok, err, ◌>>=◌, ◌>>◌, fail_if, ok_or, subnet_not_found, configuration_number_too_low,
  stake_change_missing,
}
use bitcoin_ipc.Types.{SubnetId, Txid, BlockHash, Address}
use bitcoin_ipc.Committee.{SubnetCommittee}
use bitcoin_ipc.Subnet.{SubnetState, killed_at, rotate_to_committee}
use bitcoin_ipc.Records.{
  SubnetCheckpoint, StakeChangeRequest, IpcWithdrawal, IpcUnstake, IpcCrossSubnetTransfer,
  IpcErcTokenRegistration, IpcErcSupplyAdjustment, IpcCrossSubnetErcTransfer,
}
use bitcoin_ipc.Db.{Db, get_subnet_state, save_subnet_state, save_checkpoint, save_committee}
use bitcoin_ipc.Db.StakeChanges.{get_stake_change, confirm_stake_changes}

pub record IpcCheckpointSubnetMsg : Type 0 where
  pub subnet_id : SubnetId
  pub checkpoint_hash : BlockHash
  pub checkpoint_height : ℕ
  pub next_committee_configuration_number : ℕ
  pub withdrawals : List IpcWithdrawal
  pub transfers : List IpcCrossSubnetTransfer
  pub token_registrations : List IpcErcTokenRegistration
  pub token_supply_adjustments : List IpcErcSupplyAdjustment
  pub token_transfers : List IpcCrossSubnetErcTransfer
  pub unstakes : List IpcUnstake
  pub change_address : Option Address
  pub is_kill_checkpoint : Bool

-- `last_checkpoint_number.map_or(0, |n| n + 1)`
unfoldable pub next_checkpoint_number : Option ℕ → ℕ
next_checkpoint_number none = 0
next_checkpoint_number (some n) = n + 1

-- The stake change to rotate to, if the checkpoint names another configuration.
unfoldable pub selected_change :
    IpcCheckpointSubnetMsg → Db → SubnetState → Result (Option StakeChangeRequest)
selected_change m db s =
    let number = m.next_committee_configuration_number in
    let current = s.committee.configuration_number in
    if number == 0 || number == current then ok none else (do
      fail_if (ltb number current) configuration_number_too_low
      change ← ok_or (get_stake_change db m.subnet_id number) stake_change_missing
      ok (some change))

-- The next committee number and configuration number.
unfoldable pub next_numbers : SubnetState → Option StakeChangeRequest → ℕ × ℕ
next_numbers s none = (s.committee_number, s.committee.configuration_number)
next_numbers s (some change) = (s.committee_number + 1, change.configuration_number)

unfoldable pub new_checkpoint :
    IpcCheckpointSubnetMsg → SubnetState → Option StakeChangeRequest → ℕ → Txid → SubnetCheckpoint
unfolding next_numbers next_checkpoint_number
new_checkpoint m s change height txid = record {
  checkpoint_number = next_checkpoint_number s.last_checkpoint_number;
  checkpoint_hash = m.checkpoint_hash;
  checkpoint_height = m.checkpoint_height;
  block_height = height;
  txid = txid;
  batch_transfer_txid = none;
  batch_transfer_block_height = none;
  signed_committee_number = s.committee_number;
  next_committee_number = (next_numbers s change).0;
  next_configuration_number = (next_numbers s change).1;
  is_kill_checkpoint = m.is_kill_checkpoint;
}

abbrev pub rotate_for : Option StakeChangeRequest → SubnetState → SubnetState
rotate_for none s = s
rotate_for (some change) s = rotate_to_committee s change.committee_after_change

unfoldable pub checkpointed_state :
    IpcCheckpointSubnetMsg → SubnetState → Option StakeChangeRequest → ℕ → SubnetState
checkpointed_state m s change height =
    let numbered = record s {
      last_checkpoint_number = some (next_checkpoint_number s.last_checkpoint_number);
    } in
    let rotated = rotate_for change numbered in
    if m.is_kill_checkpoint then record rotated { killed = killed_at height } else rotated

-- The writes that only a rotation makes.
unfoldable pub save_rotation :
    IpcCheckpointSubnetMsg → Db → ℕ → Option StakeChangeRequest → ℕ → BlockHash → Db
save_rotation m db number none height hash = db
save_rotation m db number (some change) height hash =
    let db = save_committee db m.subnet_id number change.committee_after_change in
    (confirm_stake_changes db m.subnet_id m.next_committee_configuration_number height hash).0

unfoldable pub save_checkpoint_msg :
    IpcCheckpointSubnetMsg → Db → ℕ → BlockHash → Txid → Result (SubnetCheckpoint × Db)
save_checkpoint_msg m db height hash txid = do
  s ← ok_or (get_subnet_state db m.subnet_id) subnet_not_found
  change ← selected_change m db s
  let checkpoint = new_checkpoint m s change height txid
  let db = save_subnet_state db m.subnet_id (checkpointed_state m s change height)
  let db = save_checkpoint db m.subnet_id checkpoint checkpoint.checkpoint_number
  ok (checkpoint, save_rotation m db (next_numbers s change).0 change height hash)
