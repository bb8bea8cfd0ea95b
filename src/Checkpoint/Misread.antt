-- ===== src/Checkpoint/Misread.antt =====
-- src/ipc_lib.rs: a checkpoint with unstakes and a batch, written by `to_checkpoint_psbt` and read by
-- `from_checkpoint_tx`.
use bitcoin_ipc.Prelude.{
  ℕ, suc, ◌+◌, ◌≤◌, ◌==◌, ◌≡◌, refl, ap, subst, sym, ◌∙◌, true, false, Option, some, none, List, [],
  ◌∷◌, ◌++◌, map, length, length-append, find?, All, arith, ltb, min,
}
use bitcoin_ipc.Result.{ok}
use bitcoin_ipc.Types.{SubnetId, Address, Amount, TxOut, Script, op_return, pay_to}
use bitcoin_ipc.Records.{IpcUnstake}
use bitcoin_ipc.Committee.{SubnetValidator}
use bitcoin_ipc.Subnet.{SubnetState}
use bitcoin_ipc.Db.{Db, get_subnet_state}
use bitcoin_ipc.Msg.Checkpoint.{IpcCheckpointSubnetMsg}
use bitcoin_ipc.Checkpoint.Metadata.{op_return_data, parse_metadata}
use bitcoin_ipc.Checkpoint.Parsed.{metadata_of}
use bitcoin_ipc.Checkpoint.Wire.{has_transfers}
use bitcoin_ipc.Checkpoint.Outputs.{Builder, make_metadata_tx_out, checkpoint_outs}
use bitcoin_ipc.Checkpoint.Read.{
  read_unstakes, check_transfer_outputs, expected_outputs, read_change, read_outputs,
  from_checkpoint_tx,
}
use bitcoin_ipc.Checkpoint.Paid.{
  withdrawal_out, unstake_out, IsCommitted, IsBatch, checkpoint_outs-IsBatch,
}
use bitcoin_ipc.Checkpoint.Committed.{made-Opens, length-map, placed_batch}
use bitcoin_ipc.Checkpoint.Reads.{
  IsRegistered, next_out, at_here, past, read_withdrawals-written, read_unstakes-written,
  read_change-written, change_outs,
}
use bitcoin_ipc.Checkpoint.Roundtrip.{expected_plain, fits, as_read}
use mathlib.Core.List.{Perm, append_assoc, map-append}

-- The commit output is skipped, as that of no validator.
read_unstakes-commit :
    (validators : List SubnetValidator) (address value : ℕ) (us : List IpcUnstake) (n : ℕ)
    (front rest : List TxOut)
    → find? (λ (v : SubnetValidator). v.backup_address == address) validators ≡ none
    → All (IsRegistered validators) us
    → n ≡ length front
    → read_unstakes validators
        (front
          ++ (record { value = value; script_pubkey = pay_to address }
              ∷ (map unstake_out us ++ rest)))
        n
        (suc (length us))
      ≡ ok us
unfolding read_unstakes
read_unstakes-commit validators address value us n front rest h hs e =
    let commit : TxOut = record { value = value; script_pubkey = pay_to address } in
    let here = at_here n front commit (map unstake_out us ++ rest) e in
    let moved =
      ap (λ l. read_unstakes validators l (n + 1) (length us))
        (next_out front commit (map unstake_out us ++ rest)) in
    let more =
      read_unstakes-written validators us (n + 1) (front ++ commit ∷ []) rest hs
        (past n front commit e) in
    rw (here, moved ∙ more, h) refl

abbrev misread : IpcCheckpointSubnetMsg → List IpcUnstake → Address → IpcCheckpointSubnetMsg
misread m us last = record (as_read m (some last)) { unstakes = us }

abbrev laid :
    Builder → IpcCheckpointSubnetMsg → Amount → Address → List IpcUnstake → IpcUnstake → List TxOut
laid b m value address us u =
    make_metadata_tx_out b m
    ∷ (map withdrawal_out m.withdrawals
        ++ (record { value = value; script_pubkey = pay_to address }
            ∷ (map unstake_out us ++ change_outs (some (u.amount, u.address)))))

read_outputs-commit :
    (db : Db) (b : Builder) (m : IpcCheckpointSubnetMsg) (s : SubnetState) (value : Amount)
    (address : Address) (us : List IpcUnstake) (u : IpcUnstake)
    → min (length m.transfers) 255 ≡ 0
    → get_subnet_state db m.subnet_id ≡ some s
    → find? (λ (v : SubnetValidator). v.backup_address == address) s.committee.validators ≡ none
    → All (IsRegistered s.committee.validators) us
    → length m.unstakes ≡ suc (length us)
    → read_outputs db (laid b m value address us u) (metadata_of m) ≡ ok (misread m us u.address)
unfolding read_outputs check_transfer_outputs
read_outputs-commit db b m s value address us u e found stranger registered counted =
    let commit : TxOut = record { value = value; script_pubkey = pay_to address } in
    let last = change_outs (some (u.amount, u.address)) in
    let front = make_metadata_tx_out b m ∷ map withdrawal_out m.withdrawals in
    let ws =
      read_withdrawals-written m.withdrawals 1 (make_metadata_tx_out b m ∷ [])
        (commit ∷ (map unstake_out us ++ last)) (omega arith) in
    let left : read_unstakes s.committee.validators (laid b m value address us u)
          (1 + length m.withdrawals) (length m.unstakes)
        ≡ ok us =
      ap
        (λ n.
          read_unstakes s.committee.validators (laid b m value address us u)
            (1 + length m.withdrawals) n)
        counted
      ∙ read_unstakes-commit s.committee.validators address value us (1 + length m.withdrawals)
          front last stranger registered (omega (arith, length-map withdrawal_out m.withdrawals)) in
    let whole : laid b m value address us u ≡ (front ++ (commit ∷ map unstake_out us)) ++ last =
      ap (λ l. make_metadata_tx_out b m ∷ l)
        (sym
          (append_assoc (map withdrawal_out m.withdrawals) (commit ∷ map unstake_out us) last)) in
    let sized : expected_outputs (metadata_of m) ≡ length (front ++ (commit ∷ map unstake_out us)) =
      omega (
        arith,
        expected_plain m e,
        counted,
        length-append front (commit ∷ map unstake_out us),
        length-map withdrawal_out m.withdrawals,
        length-map unstake_out us,
      ) in
    let changed : read_change (laid b m value address us u) (expected_outputs (metadata_of m))
        ≡ ok (some u.address) =
      ap (λ l. read_change l (expected_outputs (metadata_of m))) whole
      ∙ read_change-written (some (u.amount, u.address)) (front ++ (commit ∷ map unstake_out us)) _
          sized in
    let enough : ltb (length (laid b m value address us u)) (expected_outputs (metadata_of m))
        ≡ false =
      fits _ _ (
        omega (
          arith,
          sized,
          ap (length {0}) whole,
          length-append (front ++ (commit ∷ map unstake_out us)) last,
        )) in
    rw (enough, found, ws, left, changed, e) refl

no_outs : (outs : List TxOut) → length outs ≤ 0 → outs ≡ []
no_outs [] h = refl
no_outs (out ∷ outs) h = absurd (omega arith)

-- A checkpoint that carries only ERC data beside its withdrawals and unstakes, written without a
-- change output, is read with its last unstake missing, and with the address of that unstake as the
-- change address. The metadata is read back; the subnet is stored; the other unstakes go to backup
-- addresses of validators with their keys, and no commit address is a backup address; iterating over
-- a map gives its entries in some order.
pub from_checkpoint_tx_loses_unstake :
    (pushed : Script → Option (List ℕ)) (db : Db) (b : Builder) (m : IpcCheckpointSubnetMsg)
    (address : Address) (outs : List TxOut) (s : SubnetState) (us : List IpcUnstake)
    (u : IpcUnstake)
    → ((totals : List (SubnetId × (Amount × Address))) → Perm (b.iter totals) totals)
    → pushed (op_return (op_return_data m)) ≡ some (op_return_data m)
    → parse_metadata (op_return_data m) ≡ ok (metadata_of m)
    → m.transfers ≡ []
    → has_transfers m ≡ true
    → m.unstakes ≡ us ++ u ∷ []
    → get_subnet_state db m.subnet_id ≡ some s
    → All (IsRegistered s.committee.validators) us
    → ((script : List ℕ)
        → find?
            (λ (v : SubnetValidator). v.backup_address == b.commit_address script)
            s.committee.validators
          ≡ none)
    → checkpoint_outs b m address ≡ ok outs
    → (r : IpcCheckpointSubnetMsg) × (from_checkpoint_tx pushed db outs ≡ ok r)
      × (r.unstakes ≡ us)
      × (r.change_address ≡ some u.address)
unfolding from_checkpoint_tx make_metadata_tx_out
from_checkpoint_tx_loses_unstake pushed db b m address outs s us u iter data_pushed parsed native
      some_data us_u found registered strangers c =
    let (batch, placed, is_batch) = checkpoint_outs-IsBatch b m address outs iter c in
    let committed : IsCommitted b m address batch =
      subst (λ t. IsBatch b m address t batch) some_data is_batch in
    let none_sent = ap (length {0}) native in
    let alone = no_outs committed.outs (omega (arith, committed.few, none_sent)) in
    let opens =
      made-Opens b m address (committed.commit, committed.witness, committed.reveal)
        committed.made in
    let to = b.commit_address opens.script in
    let commit_same : committed.commit
        ≡ record { value = committed.commit.value; script_pubkey = pay_to to } =
      cc (opens.address) in
    let counted : length m.unstakes ≡ suc (length us) =
      omega (arith, ap (length {0}) us_u, length-append us (u ∷ [])) in
    let same : outs ≡ laid b m committed.commit.value to us u =
      placed_batch b m placed committed.first
      ∙ cc (alone, commit_same, us_u, map-append unstake_out us (u ∷ [])) in
    (
      misread m us u.address,
      ap (λ l. from_checkpoint_tx pushed db l) same
          ∙ rw (data_pushed, parsed)
              (read_outputs-commit db b m s committed.commit.value to us u
                (omega (arith, none_sent)) found (strangers opens.script) registered counted),
      refl,
      refl,
    )
