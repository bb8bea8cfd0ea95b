-- ===== src/Monitor/Errors/Checkpoints.antt =====
-- src/ipc_lib.rs: the errors of the checks on checkpoints and batches.
use bitcoin_ipc.Prelude.{
  ℕ, ◌≡◌, refl, not, ◌&&◌, ltb, length, Bool, Option, List, [], ◌∷◌, ◌==◌, arith,
}
use bitcoin_ipc.Result.{
  Error, Result, ok, err, fail_if, amount_zero, wrong_network, address_zero, empty_name,
  checkpoint_height_zero, too_many_unstakes, too_many_withdrawals, too_many_destinations,
  change_address_set, checkpoint_txid_zero, empty_batch, ◌>>◌,
}
use bitcoin_ipc.Types.{Address, BlockHash, Txid, TxOut, Script}
use bitcoin_ipc.Records.{
  IpcUnstake, IpcWithdrawal, IpcCrossSubnetTransfer, IpcErcTokenRegistration,
  IpcCrossSubnetErcTransfer,
}
use bitcoin_ipc.Db.{Db}
use bitcoin_ipc.Msg.Checkpoint.{IpcCheckpointSubnetMsg, save_checkpoint_msg, selected_change}
use bitcoin_ipc.Batch.{IpcBatchTransferMsg}
use bitcoin_ipc.Batch.Valid.{
  validate_batch, check_native, check_etrs, check_etxs, is_empty_text, nothing_in,
}
use bitcoin_ipc.Checkpoint.Valid.{
  validate_checkpoint, check_unstakes, check_withdrawals, check_amounts,
}
use bitcoin_ipc.Checkpoint.Metadata.{extract_markers}
use bitcoin_ipc.Checkpoint.Read.{validate_for_checkpoint}
use bitcoin_ipc.Monitor.{is_ignorable}
use bitcoin_ipc.Monitor.Errors.{Ignorable, bind-errors, check-errors}

pub check_unstakes-Ignorable :
    (valid : Address → Bool) (us : List IpcUnstake) (e : Error)
    → check_unstakes valid us ≡ err e
    → Ignorable e
unfolding check_unstakes is_ignorable
check_unstakes-Ignorable valid [] e h = cc
check_unstakes-Ignorable valid (u ∷ us) e h =
    check-errors Ignorable (u.amount == 0) amount_zero _ e h refl λ _ h.
      check-errors Ignorable (not (valid u.address)) wrong_network _ e h refl
        λ _ h. check_unstakes-Ignorable valid us e h

pub check_withdrawals-Ignorable :
    (valid : Address → Bool) (ws : List IpcWithdrawal) (e : Error)
    → check_withdrawals valid ws ≡ err e
    → Ignorable e
unfolding check_withdrawals is_ignorable
check_withdrawals-Ignorable valid [] e h = cc
check_withdrawals-Ignorable valid (w ∷ ws) e h =
    check-errors Ignorable (w.amount == 0) amount_zero _ e h refl λ _ h.
      check-errors Ignorable (not (valid w.address)) wrong_network _ e h refl
        λ _ h. check_withdrawals-Ignorable valid ws e h

pub check_amounts-Ignorable :
    (ts : List IpcCrossSubnetTransfer) (e : Error) → check_amounts ts ≡ err e → Ignorable e
unfolding check_amounts is_ignorable
check_amounts-Ignorable [] e h = cc
check_amounts-Ignorable (t ∷ ts) e h =
    check-errors Ignorable (t.amount == 0) amount_zero _ e h refl
      λ _ h. check_amounts-Ignorable ts e h

-- The last checks of a checkpoint.
pub last_checks-Ignorable :
    (a b c : Bool) (e : Error)
    → ◌≡◌ {A = Result (Unit {0})}
        (fail_if a too_many_destinations
          >> (fail_if b wrong_network >> (fail_if c change_address_set >> ok tt)))
        (err e)
    → Ignorable e
unfolding is_ignorable
last_checks-Ignorable a b c e h = ground arith

pub validate_checkpoint-Ignorable :
    (valid : Address → Bool) (m : IpcCheckpointSubnetMsg) (e : Error)
    → validate_checkpoint valid m ≡ err e
    → Ignorable e
unfolding validate_checkpoint is_ignorable
validate_checkpoint-Ignorable valid m e h =
    check-errors Ignorable (m.checkpoint_height == 0) checkpoint_height_zero _ e h refl λ _ h.
      check-errors Ignorable (ltb 255 (length m.unstakes)) too_many_unstakes _ e h refl λ _ h.
        bind-errors Ignorable (check_unstakes valid m.unstakes) _ e h
          (check_unstakes-Ignorable valid m.unstakes e)
          λ _ _ h.
            check-errors Ignorable (ltb 255 (length m.withdrawals)) too_many_withdrawals _ e h refl
              λ _ h.
                bind-errors Ignorable (check_withdrawals valid m.withdrawals) _ e h
                  (check_withdrawals-Ignorable valid m.withdrawals e)
                  λ _ _ h.
                    bind-errors Ignorable (check_amounts m.transfers) _ e h
                      (check_amounts-Ignorable m.transfers e)
                      λ _ _ h. last_checks-Ignorable _ _ _ e h

pub save_checkpoint_msg-Ignorable :
    (m : IpcCheckpointSubnetMsg) (db : Db) (height : ℕ) (hash : BlockHash) (txid : Txid) (e : Error)
    → save_checkpoint_msg m db height hash txid ≡ err e
    → Ignorable e
unfolding save_checkpoint_msg selected_change is_ignorable
save_checkpoint_msg-Ignorable m db height hash txid e h = ground arith

pub check_native-Ignorable :
    (ts : List IpcCrossSubnetTransfer) (e : Error) → check_native ts ≡ err e → Ignorable e
unfolding check_native is_ignorable
check_native-Ignorable [] e h = cc
check_native-Ignorable (t ∷ ts) e h =
    check-errors Ignorable (t.amount == 0) amount_zero _ e h refl λ _ h.
      check-errors Ignorable (t.subnet_user_address == 0) address_zero _ e h refl
        λ _ h. check_native-Ignorable ts e h

pub check_etrs-Ignorable :
    (ts : List IpcErcTokenRegistration) (e : Error) → check_etrs ts ≡ err e → Ignorable e
unfolding check_etrs is_ignorable
check_etrs-Ignorable [] e h = cc
check_etrs-Ignorable (t ∷ ts) e h =
    check-errors Ignorable (t.home_token_address == 0) address_zero _ e h refl λ _ h.
      check-errors Ignorable (is_empty_text t.name) empty_name _ e h refl λ _ h.
        check-errors Ignorable (is_empty_text t.symbol) empty_name _ e h refl
          λ _ h. check_etrs-Ignorable ts e h

pub check_etxs-Ignorable :
    (ts : List IpcCrossSubnetErcTransfer) (e : Error) → check_etxs ts ≡ err e → Ignorable e
unfolding check_etxs is_ignorable
check_etxs-Ignorable [] e h = cc
check_etxs-Ignorable (t ∷ ts) e h =
    check-errors Ignorable (t.home_token_address == 0) address_zero _ e h refl λ _ h.
      check-errors Ignorable (t.recipient == 0) address_zero _ e h refl λ _ h.
        check-errors Ignorable (t.amount == 0) amount_zero _ e h refl
          λ _ h. check_etxs-Ignorable ts e h

pub validate_batch-Ignorable :
    (m : IpcBatchTransferMsg) (e : Error) → validate_batch m ≡ err e → Ignorable e
unfolding validate_batch is_ignorable
validate_batch-Ignorable m e h =
    check-errors Ignorable (m.checkpoint_txid == 0) checkpoint_txid_zero _ e h refl λ _ h.
      check-errors Ignorable
        (nothing_in m.transfers
          && nothing_in m.token_registrations
          && nothing_in m.token_supply_adjustments
          && nothing_in m.token_transfers)
        empty_batch _ e h refl
        λ _ h.
          bind-errors Ignorable (check_native m.transfers) _ e h
            (check_native-Ignorable m.transfers e)
            λ _ _ h.
              bind-errors Ignorable (check_etrs m.token_registrations) _ e h
                (check_etrs-Ignorable m.token_registrations e)
                λ _ _ h. check_etxs-Ignorable m.token_transfers e h

pub validate_for_checkpoint-Ignorable :
    (pushed : Script → Option (List ℕ)) (m : IpcBatchTransferMsg) (txid : Txid) (outs : List TxOut)
    (e : Error)
    → validate_for_checkpoint pushed m txid outs ≡ err e
    → Ignorable e
unfolding validate_for_checkpoint extract_markers is_ignorable
validate_for_checkpoint-Ignorable pushed m txid [] e h = ground arith
validate_for_checkpoint-Ignorable pushed m txid (out ∷ outs) e h = ground arith
