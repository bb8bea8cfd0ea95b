-- ===== src/Tests/Batches.antt =====
-- Tests and examples on a batch from its checkpoint to its readers, and on the checks of single
-- messages.
use bitcoin_ipc.Prelude.{◌≡◌, refl, true, [], ◌∷◌, ◌++◌, All, arith}
use bitcoin_ipc.Result.{ok, err, amount_zero}
use bitcoin_ipc.Table.{get}
use bitcoin_ipc.Db.{get_subnet_state}
use bitcoin_ipc.Batch.{IpcBatchTransferMsg}
use bitcoin_ipc.Batch.Valid.{check_native, check_etrs, check_etxs, validate_batch}
use bitcoin_ipc.Msg.Stake.{IpcStakeCollateralMsg}
use bitcoin_ipc.Msg.Validate.{validate_stake_msg}
use bitcoin_ipc.Checkpoint.Wire.{
  wire_data, make_batched_transfer_data, transfer_tag, has_transfers, from_tx,
}
use bitcoin_ipc.Checkpoint.Wire.Delivered.{IsAddressed}
use bitcoin_ipc.Checkpoint.Read.{validate_for_checkpoint}
use bitcoin_ipc.Checkpoint.Accepted.{from_tx_accepted}
use bitcoin_ipc.Tests.Messages.{db, native, batched, codec, pushed, paying, metadata_out}
use mathlib.Core.List.Permᴰ

no_amount : check_native (native 5 ∷ native 0 ∷ []) ≡ err amount_zero
unfolding check_native
no_amount = refl

abbrev zero_stake : IpcStakeCollateralMsg
zero_stake = record { subnet_id = 7; amount = 0; pubkey = 1 }

no_stake : validate_stake_msg zero_stake ≡ err amount_zero
unfolding validate_stake_msg
no_stake = refl

batched-IsAddressed : All (IsAddressed db) batched.transfers
unfolding get_subnet_state get
batched-IsAddressed = (
  record { subnet = _; found = refl; multisig = refl },
  (record { subnet = _; found = refl; multisig = refl }, tt),
)

batched-made : make_batched_transfer_data (codec batched) batched ≡ ok (transfer_tag ++ 1 ∷ [])
unfolding make_batched_transfer_data codec
batched-made = refl

batched-has_transfers : has_transfers batched ≡ true
unfolding has_transfers
batched-has_transfers = refl

natives-checked : check_native batched.transfers ≡ ok tt
unfolding check_native
natives-checked = refl

etrs-checked : check_etrs batched.token_registrations ≡ ok tt
unfolding check_etrs
etrs-checked = refl

etxs-checked : check_etxs batched.token_transfers ≡ ok tt
unfolding check_etxs
etxs-checked = refl

from_tx_accepted_example :
    (b : IpcBatchTransferMsg) × (from_tx
        (codec batched)
        db
        (record { txid = 4; vout = 2; witness = (transfer_tag ++ 1 ∷ []) ∷ [] ∷ [] } ∷ [])
      ≡ ok b)
    × (validate_batch b ≡ ok tt)
    × (validate_for_checkpoint pushed b 4
          (metadata_out batched ∷ paying 300 61 ∷ paying 900 99 ∷ paying 11 844 ∷ [])
        ≡ ok tt)
unfolding codec
from_tx_accepted_example =
    from_tx_accepted (codec batched) db batched (transfer_tag ++ 1 ∷ []) (1 ∷ [])
      (wire_data batched) 4 2 [] pushed 400 (paying 300 61 ∷ paying 900 99 ∷ paying 11 844 ∷ [])
      batched-has_transfers batched-IsAddressed batched-made refl refl ∣ Permᴰ.refl _ ∣₁ refl refl
      ∣ Permᴰ.refl _ ∣₁ refl refl refl natives-checked etrs-checked etxs-checked (omega arith)
      (omega arith)
