-- ===== src/Checkpoint/Accepted.antt =====
-- src/ipc_lib.rs: a batch from the checkpoint that commits to it to the checks of its reader.
use bitcoin_ipc.Prelude.{
  ℕ, suc, ◌+◌, ◌≤◌, ◌==◌, leb, min, ◌≡◌, refl, ap, ◌∙◌, Bool, true, false, ◌||◌, Option, some, List,
  [], ◌∷◌, length, sum, All, sum-perm, length-perm, arith, if◌then◌else◌,
}
use bitcoin_ipc.Result.{ok, fail_if, fail_if-eq-ok, >>=-elim, amount_zero, address_zero}
use bitcoin_ipc.Types.{Amount, Txid, TxOut, Script, op_return}
use bitcoin_ipc.Records.{IpcCrossSubnetTransfer, IpcCrossSubnetErcTransfer}
use bitcoin_ipc.Db.{Db}
use bitcoin_ipc.Msg.Checkpoint.{IpcCheckpointSubnetMsg}
use bitcoin_ipc.Batch.{IpcBatchTransferMsg}
use bitcoin_ipc.Batch.Valid.{check_native, check_etrs, check_etxs, nothing_in, validate_batch}
use bitcoin_ipc.Checkpoint.Metadata.{op_return_data, extract_markers}
use bitcoin_ipc.Checkpoint.Wire.{
  Codec, BatchTransferWireData, wire_data, make_batched_transfer_data, has_transfers, is_empty,
  from_tx,
}
use bitcoin_ipc.Checkpoint.Wire.Delivered.{
  IsAddressed, is_empty-perm, some_left, from_tx-make_batched_transfer_data,
}
use bitcoin_ipc.Checkpoint.Read.{validate_for_checkpoint}
use mathlib.Core.List.{Perm}

-- A check of each item of a list passes exactly if no item is bad.
module _ {A : Type 0} (bad : A → Bool) where
  pub faults : List A → ℕ
  faults items = sum (λ a. if bad a then 1 else 0) items

  pub faults-perm : {xs ys : List A} → Perm xs ys → faults ys ≡ 0 → faults xs ≡ 0
  unfolding faults
  faults-perm p h = sum-perm (λ a. if bad a then 1 else 0) p ∙ h

abbrev bad_native : IpcCrossSubnetTransfer → Bool
bad_native t = t.amount == 0 || t.subnet_user_address == 0

abbrev bad_etx : IpcCrossSubnetErcTransfer → Bool
bad_etx etx = etx.home_token_address == 0 || etx.recipient == 0 || etx.amount == 0

zero_plus : {n : ℕ} → n ≡ 0 → 0 + n ≡ 0
zero_plus h = omega (arith, h)

check_native-faults :
    (transfers : List IpcCrossSubnetTransfer)
    → check_native transfers ≡ ok tt
    → faults bad_native transfers ≡ 0
unfolding check_native faults
check_native-faults [] e = refl
check_native-faults (t ∷ transfers) e =
    >>=-elim (fail_if (t.amount == 0) amount_zero) _ e λ t₀ h₀ e₁.
      >>=-elim (fail_if (t.subnet_user_address == 0) address_zero) _ e₁ λ t₁ h₁ e₂.
        rw (fail_if-eq-ok _ _ h₀, fail_if-eq-ok _ _ h₁)
          (zero_plus (check_native-faults transfers e₂))

none_bad : (c : Bool) (n : ℕ) → (if c then 1 else 0) + n ≡ 0 → (c ≡ false) × (n ≡ 0)
none_bad true n h = absurd (omega arith)
none_bad false n h = (refl, omega arith)

neither : (a b : Bool) → (a || b) ≡ false → (a ≡ false) × (b ≡ false)
neither true b h = absurd cc
neither false b h = (refl, h)

faults-check_native :
    (transfers : List IpcCrossSubnetTransfer)
    → faults bad_native transfers ≡ 0
    → check_native transfers ≡ ok tt
unfolding check_native faults
faults-check_native [] h = refl
faults-check_native (t ∷ transfers) h =
    let (good, rest) = none_bad (bad_native t) (faults bad_native transfers) h in
    let (a, u) = neither (t.amount == 0) (t.subnet_user_address == 0) good in
    rw (a, u) (faults-check_native transfers rest)

check_etxs-faults :
    (transfers : List IpcCrossSubnetErcTransfer)
    → check_etxs transfers ≡ ok tt
    → faults bad_etx transfers ≡ 0
unfolding check_etxs faults
check_etxs-faults [] e = refl
check_etxs-faults (t ∷ transfers) e =
    >>=-elim (fail_if (t.home_token_address == 0) address_zero) _ e λ t₀ h₀ e₁.
      >>=-elim (fail_if (t.recipient == 0) address_zero) _ e₁ λ t₁ h₁ e₂.
        >>=-elim (fail_if (t.amount == 0) amount_zero) _ e₂ λ t₂ h₂ e₃.
          rw (fail_if-eq-ok _ _ h₀, fail_if-eq-ok _ _ h₁, fail_if-eq-ok _ _ h₂)
            (zero_plus (check_etxs-faults transfers e₃))

faults-check_etxs :
    (transfers : List IpcCrossSubnetErcTransfer)
    → faults bad_etx transfers ≡ 0
    → check_etxs transfers ≡ ok tt
unfolding check_etxs faults
faults-check_etxs [] h = refl
faults-check_etxs (t ∷ transfers) h =
    let (good, rest) = none_bad (bad_etx t) (faults bad_etx transfers) h in
    let (front, amount) =
      neither (t.home_token_address == 0 || t.recipient == 0) (t.amount == 0) good in
    let (home, recipient) = neither (t.home_token_address == 0) (t.recipient == 0) front in
    rw (home, recipient, amount) (faults-check_etxs transfers rest)

nothing_in-is_empty {ℓ} : {A : Type ℓ} (xs : List A) → nothing_in xs ≡ is_empty xs
nothing_in-is_empty [] = refl
nothing_in-is_empty (x ∷ xs) = refl

-- A batch with the records of a checkpoint whose records pass the checks of a batch.
validate_batch-perm :
    (m : IpcCheckpointSubnetMsg) (b : IpcBatchTransferMsg) (txid : Txid)
    → has_transfers m ≡ true
    → (txid == 0) ≡ false
    → check_native m.transfers ≡ ok tt
    → check_etrs m.token_registrations ≡ ok tt
    → check_etxs m.token_transfers ≡ ok tt
    → b.checkpoint_txid ≡ txid
    → Perm b.transfers m.transfers
    → b.token_registrations ≡ m.token_registrations
    → b.token_supply_adjustments ≡ m.token_supply_adjustments
    → Perm b.token_transfers m.token_transfers
    → validate_batch b ≡ ok tt
unfolding validate_batch has_transfers
validate_batch-perm m b txid some_data present native etrs etxs id pt er es pe =
    let t = nothing_in-is_empty b.transfers ∙ is_empty-perm pt in
    let r = nothing_in-is_empty b.token_registrations ∙ ap is_empty er in
    let a = nothing_in-is_empty b.token_supply_adjustments ∙ ap is_empty es in
    let x = nothing_in-is_empty b.token_transfers ∙ is_empty-perm pe in
    let given = some_left _ _ _ _ some_data in
    let n =
      faults-check_native b.transfers
        (faults-perm bad_native pt (check_native-faults m.transfers native)) in
    let z =
      faults-check_etxs b.token_transfers
        (faults-perm bad_etx pe (check_etxs-faults m.token_transfers etxs)) in
    rw (id, present, t, r, a, x, given, n, er, etrs) z

-- A batch of at most 255 native transfers whose records are not zero is accepted by its readers:
-- `from_tx` reads it from its reveal transaction, and what it reads passes `validate`, and passes
-- `validate_for_checkpoint` with the checkpoint transaction, if that begins with the metadata and has
-- an output at the position that is spent. The batch is not empty and its native transfers name the
-- multisig addresses of known subnets; the checkpoint's txid is not zero; what `postcard` reads back
-- is what it wrote, up to the order of the entries of the maps; and the data pushed by a script is
-- what it was made for.
pub from_tx_accepted :
    (c : Codec) (db : Db) (m : IpcCheckpointSubnetMsg) (bytes binary : List ℕ)
    (w : BatchTransferWireData) (txid vout : ℕ) (control : List ℕ)
    (first_push : Script → Option (List ℕ)) (value : Amount) (outs : List TxOut)
    → has_transfers m ≡ true
    → All (IsAddressed db) m.transfers
    → make_batched_transfer_data c m ≡ ok bytes
    → c.to_stdvec (wire_data m) ≡ some binary
    → c.from_bytes binary ≡ some w
    → Perm w.transfers (wire_data m).transfers
    → w.token_registrations ≡ m.token_registrations
    → w.token_supply_adjustments ≡ m.token_supply_adjustments
    → Perm w.token_transfers (wire_data m).token_transfers
    → c.concatenate_op_push_data (c.push_data_script bytes) ≡ some bytes
    → first_push (op_return (op_return_data m)) ≡ some (op_return_data m)
    → (txid == 0) ≡ false
    → check_native m.transfers ≡ ok tt
    → check_etrs m.token_registrations ≡ ok tt
    → check_etxs m.token_transfers ≡ ok tt
    → length m.transfers ≤ 255
    → vout ≤ length outs
    → (b : IpcBatchTransferMsg) × (from_tx c db (
          record { txid = txid; vout = vout; witness = c.push_data_script bytes ∷ control ∷ [] }
          ∷ [])
        ≡ ok b)
      × (validate_batch b ≡ ok tt)
      × (validate_for_checkpoint first_push b txid
            (record { value = value; script_pubkey = op_return (op_return_data m) } ∷ outs)
          ≡ ok tt)
unfolding validate_for_checkpoint extract_markers op_return_data
from_tx_accepted c db m bytes binary w txid vout control first_push value outs some_data addressed
      made written read pt er es pe pushed metadata present native etrs etxs few inside =
    let (b, got, id, at, bt, br, bs, be) =
      from_tx-make_batched_transfer_data c db m bytes binary w txid vout control some_data addressed
        made written read pt er es pe pushed in
    (
      b,
      got,
      validate_batch-perm m b txid some_data present native etrs etxs id bt br bs be,
      rw
          (
            id,
            same_key txid,
            at,
            has_output vout (length outs) inside,
            metadata,
            same_count (length b.transfers) (length m.transfers) (length-perm bt) few,
          )
          refl,
    )
  where
    same_key : (n : ℕ) → (n == n) ≡ true
    same_key n = ground arith

    has_output : (i n : ℕ) → i ≤ n → leb (suc n) i ≡ false
    has_output i n h = ground arith

    same_count : (a n : ℕ) → a ≡ n → n ≤ 255 → (a == min n 255) ≡ true
    same_count a n e h = ground arith
