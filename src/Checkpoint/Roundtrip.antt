-- ===== src/Checkpoint/Roundtrip.antt =====
-- src/ipc_lib.rs: a checkpoint message read back from the outputs that it was written to.
use bitcoin_ipc.Prelude.{
  ℕ, ◌+◌, ◌^◌, ◌<◌, ◌≤◌, ◌≡◌, refl, ap, sym, ◌∙◌, false, Option, some, List, [], ◌∷◌, ◌++◌, map,
  length, length-append, All, arith, if◌then◌else◌, ltb, min,
}
use bitcoin_ipc.Result.{ok, >>=-elim, ok-injective}
use bitcoin_ipc.Types.{Address, Amount, TxOut, Script, op_return}
use bitcoin_ipc.Subnet.{SubnetState}
use bitcoin_ipc.Db.{Db, get_subnet_state}
use bitcoin_ipc.Msg.Checkpoint.{IpcCheckpointSubnetMsg}
use bitcoin_ipc.Checkpoint.Metadata.{op_return_data}
use bitcoin_ipc.Checkpoint.Parsed.{metadata_of, parse_metadata-op_return_data}
use bitcoin_ipc.Checkpoint.Wire.{has_transfers}
use bitcoin_ipc.Checkpoint.Outputs.{
  Builder, make_metadata_tx_out, withdrawal_outs, unstake_outs, batch_outs, checkpoint_outs,
}
use bitcoin_ipc.Checkpoint.Read.{
  check_transfer_outputs, expected_outputs, read_change, read_outputs, from_checkpoint_tx,
}
use bitcoin_ipc.Checkpoint.Paid.{
  withdrawal_out, unstake_out, withdrawal_outs-eq-map, unstake_outs-eq-map,
}
use bitcoin_ipc.Checkpoint.Committed.{length-map}
use mathlib.Core.List.{append_assoc}
use bitcoin_ipc.Checkpoint.Reads.{
  IsRegistered, read_withdrawals-written, read_unstakes-written, change_outs, change_address_of,
  nothing, read_change-written,
}

no_data :
    (m : IpcCheckpointSubnetMsg)
    → has_transfers m ≡ false
    → (m.transfers ≡ [])
      × (m.token_registrations ≡ [])
      × (m.token_supply_adjustments ≡ [])
      × (m.token_transfers ≡ [])
unfolding has_transfers
no_data m h = ground (
  arith,
  nothing m.transfers,
  nothing m.token_registrations,
  nothing m.token_supply_adjustments,
  nothing m.token_transfers,
)

plain_outs :
    (b : Builder) (m : IpcCheckpointSubnetMsg) (address : Address) {outs : List TxOut}
    → has_transfers m ≡ false
    → checkpoint_outs b m address ≡ ok outs
    → outs
      ≡ make_metadata_tx_out b m ∷ (map withdrawal_out m.withdrawals ++ map unstake_out m.unstakes)
unfolding checkpoint_outs
plain_outs b m address none_given e = >>=-elim (withdrawal_outs b m.withdrawals) _ e λ ws hw e₁.
    >>=-elim (if has_transfers m then batch_outs b m address else ok []) _ e₁ λ batch hb e₂.
      >>=-elim (unstake_outs b m.unstakes) _ e₂ λ us hu e₃.
        let empty = ok-injective (rw none_given at hb) in
        cc (
          ok-injective e₃,
          empty,
          withdrawal_outs-eq-map b m.withdrawals hw,
          unstake_outs-eq-map b m.unstakes hu,
        )

abbrev laid : Builder → IpcCheckpointSubnetMsg → Option (Amount × Address) → List TxOut
laid b m change =
    make_metadata_tx_out b m
    ∷ (map withdrawal_out m.withdrawals ++ (map unstake_out m.unstakes ++ change_outs change))

pub expected_plain :
    (m : IpcCheckpointSubnetMsg)
    → min (length m.transfers) 255 ≡ 0
    → expected_outputs (metadata_of m) ≡ 1 + length m.withdrawals + length m.unstakes
unfolding expected_outputs
expected_plain m e = rw e (omega arith)

pub fits : (n k : ℕ) → k ≤ n → ltb n k ≡ false
fits n k h = ground arith

-- The message as it is read: the lists that are not read are empty.
abbrev pub as_read : IpcCheckpointSubnetMsg → Option Address → IpcCheckpointSubnetMsg
as_read m change = record m {
  transfers = [];
  token_registrations = [];
  token_supply_adjustments = [];
  token_transfers = [];
  change_address = change;
}

read_outputs-laid :
    (db : Db) (b : Builder) (m : IpcCheckpointSubnetMsg) (change : Option (Amount × Address))
    (s : SubnetState)
    → min (length m.transfers) 255 ≡ 0
    → get_subnet_state db m.subnet_id ≡ some s
    → All (IsRegistered s.committee.validators) m.unstakes
    → read_outputs db (laid b m change) (metadata_of m) ≡ ok (as_read m (change_address_of change))
unfolding read_outputs check_transfer_outputs
read_outputs-laid db b m change s e found registered =
    let front = make_metadata_tx_out b m ∷ map withdrawal_out m.withdrawals in
    let split =
      append_assoc (map withdrawal_out m.withdrawals) (map unstake_out m.unstakes)
        (change_outs change) in
    let ws =
      read_withdrawals-written m.withdrawals 1 (make_metadata_tx_out b m ∷ [])
        (map unstake_out m.unstakes ++ change_outs change) (omega arith) in
    let us =
      read_unstakes-written s.committee.validators m.unstakes (1 + length m.withdrawals) front
        (change_outs change) registered (omega (arith, length-map withdrawal_out m.withdrawals)) in
    let whole : laid b m change ≡ (front ++ map unstake_out m.unstakes) ++ change_outs change =
      ap (λ l. make_metadata_tx_out b m ∷ l) (sym split) in
    let sized : expected_outputs (metadata_of m) ≡ length (front ++ map unstake_out m.unstakes) =
      omega (
        arith,
        expected_plain m e,
        length-append front (map unstake_out m.unstakes),
        length-map withdrawal_out m.withdrawals,
        length-map unstake_out m.unstakes,
      ) in
    let changed : read_change (laid b m change) (expected_outputs (metadata_of m))
        ≡ ok (change_address_of change) =
      ap (λ l. read_change l (expected_outputs (metadata_of m))) whole
      ∙ read_change-written change (front ++ map unstake_out m.unstakes) _ sized in
    let enough : ltb (length (laid b m change)) (expected_outputs (metadata_of m)) ≡ false =
      fits _ _ (
        omega (
          arith,
          sized,
          ap (length {0}) whole,
          length-append (front ++ map unstake_out m.unstakes) (change_outs change),
        )) in
    rw (enough, found, ws, us, changed, e) refl

-- A checkpoint without transfers and ERC data is read back from its outputs and an optional change
-- output: `from_checkpoint_tx` gives the message itself, with the address of the change. Ids,
-- hashes and numbers have their widths, there are at most 255 withdrawals and 255 unstakes, the
-- subnet is stored, every unstake goes to the backup address of a validator of its key, and the
-- data of an OP_RETURN script is what it was made for.
pub from_checkpoint_tx-checkpoint_outs :
    (pushed : Script → Option (List ℕ)) (db : Db) (b : Builder) (m : IpcCheckpointSubnetMsg)
    (address : Address) (outs : List TxOut) (change : Option (Amount × Address)) (s : SubnetState)
    → pushed (op_return (op_return_data m)) ≡ some (op_return_data m)
    → m.subnet_id < 256 ^ 20
    → m.checkpoint_hash < 256 ^ 32
    → m.checkpoint_height < 256 ^ 8
    → m.next_committee_configuration_number < 256 ^ 8
    → length m.withdrawals ≤ 255
    → length m.unstakes ≤ 255
    → has_transfers m ≡ false
    → get_subnet_state db m.subnet_id ≡ some s
    → All (IsRegistered s.committee.validators) m.unstakes
    → checkpoint_outs b m address ≡ ok outs
    → from_checkpoint_tx pushed db (outs ++ change_outs change)
      ≡ ok (record m { change_address = change_address_of change })
unfolding from_checkpoint_tx make_metadata_tx_out
from_checkpoint_tx-checkpoint_outs pushed db b m address outs change s data_pushed hs hh ht hn hw hu
      empty found registered c =
    let (t, r, a, x) = no_data m empty in
    let none_sent : min (length m.transfers) 255 ≡ 0 = omega (arith, ap (length {0}) t) in
    let parsed = (parse_metadata-op_return_data m hs hh ht hn hw hu).0 in
    let read = read_outputs-laid db b m change s none_sent found registered in
    let same : as_read m (change_address_of change)
        ≡ record m { change_address = change_address_of change } =
      cc (t, r, a, x) in
    let split =
      append_assoc (map withdrawal_out m.withdrawals) (map unstake_out m.unstakes)
        (change_outs change) in
    let from_laid : from_checkpoint_tx pushed db (laid b m change)
        ≡ ok (as_read m (change_address_of change)) =
      rw (data_pushed, parsed) read in
    ap (λ l. from_checkpoint_tx pushed db (l ++ change_outs change))
      (plain_outs b m address empty c)
    ∙ ap (λ l. from_checkpoint_tx pushed db (make_metadata_tx_out b m ∷ l)) split
    ∙ from_laid
    ∙ ap (λ r. ok r) same
