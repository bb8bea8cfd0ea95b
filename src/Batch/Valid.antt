-- ===== src/Batch/Valid.antt =====
-- src/ipc_lib.rs: `IpcBatchTransferMsg::validate`.
use Prim.Native.String.{String}
use bitcoin_ipc.Prelude.{◌==◌, Bool, true, false, ◌&&◌, List, [], ◌∷◌}
use bitcoin_ipc.Result.{
  Result, ok, ◌>>◌, fail_if, checkpoint_txid_zero, empty_batch, amount_zero, address_zero,
  empty_name,
}
use bitcoin_ipc.Records.{IpcCrossSubnetTransfer, IpcErcTokenRegistration, IpcCrossSubnetErcTransfer}
use bitcoin_ipc.Batch.{IpcBatchTransferMsg}

unfoldable pub check_native : List IpcCrossSubnetTransfer → Result (Unit {0})
check_native [] = ok tt
check_native (t ∷ transfers) = do
  fail_if (t.amount == 0) amount_zero
  fail_if (t.subnet_user_address == 0) address_zero
  check_native transfers

abbrev pub is_empty_text : String → Bool
is_empty_text String.[] = true
is_empty_text (String.◌∷◌ c s) = false

unfoldable pub check_etrs : List IpcErcTokenRegistration → Result (Unit {0})
check_etrs [] = ok tt
check_etrs (etr ∷ token_registrations) = do
  fail_if (etr.home_token_address == 0) address_zero
  fail_if (is_empty_text etr.name) empty_name
  fail_if (is_empty_text etr.symbol) empty_name
  check_etrs token_registrations

unfoldable pub check_etxs : List IpcCrossSubnetErcTransfer → Result (Unit {0})
check_etxs [] = ok tt
check_etxs (etx ∷ token_transfers) = do
  fail_if (etx.home_token_address == 0) address_zero
  fail_if (etx.recipient == 0) address_zero
  fail_if (etx.amount == 0) amount_zero
  check_etxs token_transfers

abbrev pub nothing_in {ℓ} : {A : Type ℓ} → List A → Bool
nothing_in [] = true
nothing_in (a ∷ rest) = false

unfoldable pub validate_batch : IpcBatchTransferMsg → Result (Unit {0})
unfolding check_native check_etrs check_etxs
validate_batch m = do
  fail_if (m.checkpoint_txid == 0) checkpoint_txid_zero
  fail_if
      (nothing_in m.transfers
        && nothing_in m.token_registrations
        && nothing_in m.token_supply_adjustments
        && nothing_in m.token_transfers)
      empty_batch
  check_native m.transfers
  check_etrs m.token_registrations
  check_etxs m.token_transfers
