-- ===== src/Checkpoint/Read.antt =====
-- src/ipc_lib.rs: `from_checkpoint_tx`, which reads a checkpoint message from the outputs of its
-- transaction, and `validate_for_checkpoint`, which compares a batch with them.
use bitcoin_ipc.Prelude.{
  ℕ, zero, suc, ◌+◌, ◌-◌, ◌==◌, ltb, leb, not, Option, none, some, List, [], ◌∷◌, length, find?,
  if◌then◌else◌,
}
use bitcoin_ipc.Result.{
  Result, ok, err, ◌>>=◌, ◌>>◌, ok_or, fail_if, panic, subnet_not_found, not_op_return,
  not_enough_outputs, unparsed_address, no_outputs, checkpoint_txid_mismatch, missing_output,
  transfer_count_mismatch,
}
use bitcoin_ipc.Types.{Address, Txid, TxOut, Script, op_return, pay_to}
use bitcoin_ipc.Records.{IpcWithdrawal, IpcUnstake}
use bitcoin_ipc.Committee.{SubnetValidator}
use bitcoin_ipc.Db.{Db, get_subnet_state}
use bitcoin_ipc.Msg.Checkpoint.{IpcCheckpointSubnetMsg}
use bitcoin_ipc.Batch.{IpcBatchTransferMsg}
use bitcoin_ipc.Checkpoint.Metadata.{Metadata, parse_metadata, extract_markers}

-- `Address::from_script`
abbrev pub address_of : Script → Option Address
address_of (op_return bytes) = none
address_of (pay_to address) = some address

-- `tx.output[i]`
unfoldable pub output_at : ℕ → List TxOut → Result TxOut
output_at i [] = err panic
output_at zero (out ∷ outs) = ok out
output_at (suc i) (out ∷ outs) = output_at i outs

-- From output `at` on, `count` withdrawals.
unfoldable pub read_withdrawals : List TxOut → ℕ → ℕ → Result (List IpcWithdrawal)
unfolding output_at
read_withdrawals outs at zero = ok []
read_withdrawals outs at (suc count) = do
  txout ← output_at at outs
  address ← ok_or (address_of txout.script_pubkey) unparsed_address
  rest ← read_withdrawals outs (at + 1) count
  ok (record { amount = txout.value; address = address } ∷ rest)

-- An unstake is kept if its address is the backup address of a validator.
abbrev pub with_unstake :
    TxOut → Address → Option SubnetValidator → List IpcUnstake → List IpcUnstake
with_unstake txout address none rest = rest
with_unstake txout address (some v) rest =
    record { amount = txout.value; address = address; pubkey = v.pubkey } ∷ rest

unfoldable pub read_unstakes : List SubnetValidator → List TxOut → ℕ → ℕ → Result (List IpcUnstake)
unfolding output_at
read_unstakes validators outs at zero = ok []
read_unstakes validators outs at (suc count) = do
  txout ← output_at at outs
  address ← ok_or (address_of txout.script_pubkey) unparsed_address
  rest ← read_unstakes validators outs (at + 1) count
  ok (
      with_unstake txout address
        (find? (λ (v : SubnetValidator). v.backup_address == address) validators) rest)

-- The transfers are only looked at.
unfoldable pub check_transfer_outputs : List TxOut → ℕ → ℕ → Result (Unit {0})
unfolding output_at
check_transfer_outputs outs at zero = ok tt
check_transfer_outputs outs at (suc count) = do
  txout ← output_at at outs
  address ← ok_or (address_of txout.script_pubkey) unparsed_address
  check_transfer_outputs outs (at + 1) count

unfoldable pub expected_outputs : Metadata → ℕ
expected_outputs d =
    1
    + d.withdrawals_count
    + d.unstakes_count
    + (if ltb 0 d.batch_transfers_count then 1 else 0)
    + d.batch_transfers_count

unfoldable pub read_change : List TxOut → ℕ → Result (Option Address)
unfolding output_at
read_change outs expected =
    if ltb expected (length outs)
    then (do
      change_output ← output_at (length outs - 1) outs
      address ← ok_or (address_of change_output.script_pubkey) unparsed_address
      ok (some address))
    else ok none

-- The part after the metadata.
unfoldable pub read_outputs : Db → List TxOut → Metadata → Result IpcCheckpointSubnetMsg
unfolding expected_outputs read_withdrawals read_unstakes check_transfer_outputs read_change
read_outputs db outs d = do
  fail_if (ltb (length outs) (expected_outputs d)) not_enough_outputs
  subnet ← ok_or (get_subnet_state db d.subnet_id) subnet_not_found
  withdrawals ← read_withdrawals outs 1 d.withdrawals_count
  unstakes ←
      read_unstakes subnet.committee.validators outs (1 + d.withdrawals_count) d.unstakes_count
  check_transfer_outputs outs (1 + d.withdrawals_count + d.unstakes_count + 1)
      d.batch_transfers_count
  change_address ← read_change outs (expected_outputs d)
  ok (record {
    subnet_id = d.subnet_id;
    checkpoint_hash = d.checkpoint_hash;
    checkpoint_height = d.checkpoint_height;
    next_committee_configuration_number = d.next_committee_configuration_number;
    withdrawals = withdrawals;
    transfers = [];
    token_registrations = [];
    token_supply_adjustments = [];
    token_transfers = [];
    unstakes = unstakes;
    change_address = change_address;
    is_kill_checkpoint = d.kill_checkpoint;
  })

-- `pushed` is the first data that a script pushes.
unfoldable pub from_checkpoint_tx :
    (Script → Option (List ℕ)) → Db → List TxOut → Result IpcCheckpointSubnetMsg
unfolding read_outputs
from_checkpoint_tx pushed db [] = err no_outputs
from_checkpoint_tx pushed db (first ∷ outs) = do
  bytes ← ok_or (pushed first.script_pubkey) not_op_return
  d ← parse_metadata bytes
  read_outputs db (first ∷ outs) d

abbrev first_output : List TxOut → Option TxOut
first_output [] = none
first_output (out ∷ outs) = some out

-- `txid` is the one computed from the checkpoint transaction.
unfoldable pub validate_for_checkpoint :
    (Script → Option (List ℕ)) → IpcBatchTransferMsg → Txid → List TxOut → Result (Unit {0})
validate_for_checkpoint pushed m txid outs = do
  fail_if (not (txid == m.checkpoint_txid)) checkpoint_txid_mismatch
  fail_if (leb (length outs) m.checkpoint_vout) missing_output
  metadata_tx_out ← ok_or (first_output outs) missing_output
  bytes ← ok_or (pushed metadata_tx_out.script_pubkey) not_op_return
  markers ← extract_markers bytes
  fail_if (not (length m.transfers == markers.1)) transfer_count_mismatch
  ok tt
