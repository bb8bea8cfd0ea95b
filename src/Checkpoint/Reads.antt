-- ===== src/Checkpoint/Reads.antt =====
-- src/ipc_lib.rs: the loops of `from_checkpoint_tx` on the outputs that `to_checkpoint_psbt` writes.
use bitcoin_ipc.Prelude.{
  ℕ, ◌+◌, ◌-◌, ◌==◌, ◌≡◌, refl, ap, sym, ◌∙◌, true, false, Option, some, none, List, [], ◌∷◌, ◌++◌,
  map, length, length-append, find?, All, arith, ltb,
}
use bitcoin_ipc.Result.{ok}
use bitcoin_ipc.Types.{Address, Amount, TxOut, pay_to}
use bitcoin_ipc.Records.{IpcWithdrawal, IpcUnstake}
use bitcoin_ipc.Committee.{SubnetValidator}
use bitcoin_ipc.Checkpoint.Wire.{is_empty}
use bitcoin_ipc.Checkpoint.Read.{output_at, read_withdrawals, read_unstakes, read_change}
use bitcoin_ipc.Checkpoint.Paid.{withdrawal_out, unstake_out}
use bitcoin_ipc.Checkpoint.Committed.{output_at-append}
use mathlib.Core.List.{append_assoc, append-nil}

-- The front part grows by one output.
pub next_out :
    (front : List TxOut) (out : TxOut) (rest : List TxOut)
    → front ++ (out ∷ rest) ≡ (front ++ out ∷ []) ++ rest
next_out front out rest = sym (append_assoc front (out ∷ []) rest)

pub at_here :
    (n : ℕ) (front : List TxOut) (out : TxOut) (rest : List TxOut)
    → n ≡ length front
    → output_at n (front ++ (out ∷ rest)) ≡ ok out
unfolding output_at
at_here n front out rest e = output_at-append n 0 front (out ∷ rest) (omega (arith, e))

pub past :
    (n : ℕ) (front : List TxOut) (out : TxOut)
    → n ≡ length front
    → n + 1 ≡ length (front ++ out ∷ [])
past n front out e = omega (arith, e, length-append front (out ∷ []))

pub read_withdrawals-written :
    (ws : List IpcWithdrawal) (n : ℕ) (front rest : List TxOut)
    → n ≡ length front
    → read_withdrawals (front ++ (map withdrawal_out ws ++ rest)) n (length ws) ≡ ok ws
unfolding read_withdrawals
read_withdrawals-written [] n front rest e = refl
read_withdrawals-written (w ∷ ws) n front rest e =
    let more =
      read_withdrawals-written ws (n + 1) (front ++ withdrawal_out w ∷ []) rest
        (past n front (withdrawal_out w) e) in
    let here = at_here n front (withdrawal_out w) (map withdrawal_out ws ++ rest) e in
    let moved =
      ap (λ l. read_withdrawals l (n + 1) (length ws))
        (next_out front (withdrawal_out w) (map withdrawal_out ws ++ rest)) in
    rw (here, moved ∙ more) refl

-- The address of an unstake is the backup address of a validator with its key.
pub record IsRegistered (validators : List SubnetValidator) (u : IpcUnstake) : Type 0 where
  pub validator : SubnetValidator
  pub found :
      find? (λ (v : SubnetValidator). v.backup_address == u.address) validators ≡ some validator
  pub key : validator.pubkey ≡ u.pubkey

pub read_unstakes-written :
    (validators : List SubnetValidator) (us : List IpcUnstake) (n : ℕ) (front rest : List TxOut)
    → All (IsRegistered validators) us
    → n ≡ length front
    → read_unstakes validators (front ++ (map unstake_out us ++ rest)) n (length us) ≡ ok us
unfolding read_unstakes
read_unstakes-written validators [] n front rest h e = refl
read_unstakes-written validators (u ∷ us) n front rest (h, hs) e =
    let more =
      read_unstakes-written validators us (n + 1) (front ++ unstake_out u ∷ []) rest hs
        (past n front (unstake_out u) e) in
    let here = at_here n front (unstake_out u) (map unstake_out us ++ rest) e in
    let moved =
      ap (λ l. read_unstakes validators l (n + 1) (length us))
        (next_out front (unstake_out u) (map unstake_out us ++ rest)) in
    rw (here, moved ∙ more, h.found, h.key) refl

-- The change output, if there is one.
abbrev pub change_outs : Option (Amount × Address) → List TxOut
change_outs none = []
change_outs (some (value, address)) = record { value = value; script_pubkey = pay_to address } ∷ []

abbrev pub change_address_of : Option (Amount × Address) → Option Address
change_address_of none = none
change_address_of (some (value, address)) = some address

pub ltb_same : (n k : ℕ) → n ≡ k → ltb n k ≡ false
ltb_same n k e = ground arith

pub ltb_next : (n k : ℕ) → n ≡ k → ltb n (k + 1) ≡ true
ltb_next n k e = ground arith

pub nothing {ℓ} : {A : Type ℓ} (xs : List A) → is_empty xs ≡ true → xs ≡ []
nothing [] h = refl
nothing (x ∷ xs) h = cc

pub read_change-written :
    (change : Option (Amount × Address)) (front : List TxOut) (n : ℕ)
    → n ≡ length front
    → read_change (front ++ change_outs change) n ≡ ok (change_address_of change)
unfolding read_change
read_change-written none front n e = rw (append-nil front, ltb_same n (length front) e) refl
read_change-written (some (value, address)) front n e =
    let out : TxOut = record { value = value; script_pubkey = pay_to address } in
    let long = length-append front (out ∷ []) in
    rw
      (long, ltb_next n (length front) e, at_here (length front + 1 - 1) front out [] (omega arith))
      refl
