-- ===== src/Checkpoint/Valid.antt =====
-- src/ipc_lib.rs: `IpcCheckpointSubnetMsg::validate`.
use bitcoin_ipc.Prelude.{
  ◌==◌, ltb, Bool, true, false, not, ◌&&◌, Option, none, some, List, [], ◌∷◌, any, length,
  if◌then◌else◌,
}
use bitcoin_ipc.Result.{
  Result, ok, ◌>>◌, fail_if, checkpoint_height_zero, too_many_unstakes, too_many_withdrawals,
  too_many_destinations, amount_zero, wrong_network, change_address_set,
}
use bitcoin_ipc.Types.{SubnetId, Address}
use bitcoin_ipc.Records.{IpcWithdrawal, IpcUnstake, IpcCrossSubnetTransfer}
use bitcoin_ipc.Msg.Checkpoint.{IpcCheckpointSubnetMsg}

unfoldable pub check_unstakes : (Address → Bool) → List IpcUnstake → Result (Unit {0})
check_unstakes is_valid_for_network [] = ok tt
check_unstakes is_valid_for_network (u ∷ unstakes) = do
  fail_if (u.amount == 0) amount_zero
  fail_if (not (is_valid_for_network u.address)) wrong_network
  check_unstakes is_valid_for_network unstakes

unfoldable pub check_withdrawals : (Address → Bool) → List IpcWithdrawal → Result (Unit {0})
check_withdrawals is_valid_for_network [] = ok tt
check_withdrawals is_valid_for_network (w ∷ withdrawals) = do
  fail_if (w.amount == 0) amount_zero
  fail_if (not (is_valid_for_network w.address)) wrong_network
  check_withdrawals is_valid_for_network withdrawals

unfoldable pub check_amounts : List IpcCrossSubnetTransfer → Result (Unit {0})
check_amounts [] = ok tt
check_amounts (t ∷ transfers) = do fail_if (t.amount == 0) amount_zero; check_amounts transfers

-- The `BTreeSet` of the destinations.
unfoldable pub distinct_destinations : List IpcCrossSubnetTransfer → List SubnetId
distinct_destinations [] = []
distinct_destinations (t ∷ transfers) =
    let rest = distinct_destinations transfers in
    if any (λ id. id == t.destination_subnet_id) rest then rest else t.destination_subnet_id ∷ rest

abbrev pub is_some {ℓ} : {A : Type ℓ} → Option A → Bool
is_some none = false
is_some (some a) = true

abbrev pub is_foreign : (Address → Bool) → Option Address → Bool
is_foreign is_valid_for_network none = false
is_foreign is_valid_for_network (some address) = not (is_valid_for_network address)

unfoldable pub validate_checkpoint : (Address → Bool) → IpcCheckpointSubnetMsg → Result (Unit {0})
unfolding check_unstakes check_withdrawals check_amounts distinct_destinations
validate_checkpoint is_valid_for_network m = do
  fail_if (m.checkpoint_height == 0) checkpoint_height_zero
  fail_if (ltb 255 (length m.unstakes)) too_many_unstakes
  check_unstakes is_valid_for_network m.unstakes
  fail_if (ltb 255 (length m.withdrawals)) too_many_withdrawals
  check_withdrawals is_valid_for_network m.withdrawals
  check_amounts m.transfers
  fail_if (ltb 255 (length (distinct_destinations m.transfers))) too_many_destinations
  fail_if (is_foreign is_valid_for_network m.change_address) wrong_network
  fail_if (m.is_kill_checkpoint && is_some m.change_address) change_address_set
  ok tt
