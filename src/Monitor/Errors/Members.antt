-- ===== src/Monitor/Errors/Members.antt =====
-- src/db.rs, src/multisig.rs: the errors of a change of a committee, all of them aborts.
use bitcoin_ipc.Prelude.{
  ℕ, ◌≡◌, ◌≢◌, refl, ap, sym, ◌∙◌, inl, inr, Bool, true, false, Bool-cases, some, List, [], ◌∷◌,
  find?, ltb, ◌==◌, ==_iff, if◌then◌else◌, arith,
}
use bitcoin_ipc.Result.{Error, Result, ok, err, panic}
use bitcoin_ipc.Types.{Env, SubnetId, XOnlyPublicKey, Address, Amount}
use bitcoin_ipc.Multisig.{collateral_to_power}
use bitcoin_ipc.Multisig.Threshold.{collateral_to_power_lem}
use bitcoin_ipc.Committee.{
  SubnetValidator, SubnetCommittee, expect, multisig_address, to_committee, is_member, is_validator,
  add_validator, remove_validator, join_new_validator, modify_validator, remove_member,
}
use bitcoin_ipc.Msg.Stake.{find_validator}
use bitcoin_ipc.Monitor.Errors.{bind-errors}

abbrev pub IsPanic : Error → Type 0
IsPanic e = e ≡ panic

pub expect-panic : (r : Result Address) (e : Error) → expect r ≡ err e → e ≡ panic
expect-panic (ok a) e h = cc
expect-panic (err x) e h = cc

pub to_committee-panic :
    (env : Env) (vs : List SubnetValidator) (id : SubnetId) (n : ℕ) (e : Error)
    → to_committee env vs id n ≡ err e
    → e ≡ panic
unfolding to_committee multisig_address
to_committee-panic env vs id n e h =
    bind-errors IsPanic (multisig_address env id vs) _ e h (expect-panic _ e) λ a _ h. cc

-- A key that is new to the committee.
pub join_new_validator-panic :
    (env : Env) (c : SubnetCommittee) (id : SubnetId) (v : SubnetValidator) (e : Error)
    → is_validator c v.pubkey ≡ false
    → join_new_validator env c id v ≡ err e
    → e ≡ panic
unfolding join_new_validator add_validator is_validator
join_new_validator-panic env c id v e fresh h = to_committee-panic env _ id _ e (rw fresh at h)

pub modify_validator-panic :
    (env : Env) (c : SubnetCommittee) (id : SubnetId) (v : SubnetValidator) (e : Error)
    → is_member v.pubkey c.validators ≡ true
    → modify_validator env c id v ≡ err e
    → e ≡ panic
unfolding modify_validator
modify_validator-panic env c id v e known h = to_committee-panic env _ id _ e (rw known at h)

pub remove_member-panic :
    (env : Env) (c : SubnetCommittee) (id : SubnetId) (key : XOnlyPublicKey) (e : Error)
    → is_member key c.validators ≡ true
    → remove_member env c id key ≡ err e
    → e ≡ panic
unfolding remove_member remove_validator
remove_member-panic env c id key e known h = to_committee-panic env _ id _ e (rw known at h)

-- The validator that is found has the key, and its own key is in the committee.
some-injective : {v w : SubnetValidator} → some v ≡ some w → v ≡ w
some-injective h = cc

pub found_member :
    (key : XOnlyPublicKey) (vs : List SubnetValidator) (v : SubnetValidator)
    → find? (λ (w : SubnetValidator). w.pubkey == key) vs ≡ some v
    → (v.pubkey ≡ key) × (is_member key vs ≡ true)
unfolding is_member
found_member key [] v h = cc
found_member key (w ∷ vs) v h = elim (Bool-cases (w.pubkey == key)) [
  | inl here ↦
      let same : some w ≡ some v = rw here at h in
      let key_of = (==_iff w.pubkey key).0 here in
      (ap (λ (x : SubnetValidator). x.pubkey) (sym (some-injective same)) ∙ key_of, rw here refl)
  | inr other ↦ let (e, m) = found_member key vs v (rw other at h) in (e, rw (other, m) refl)
]

pub enough_collateral :
    (amount min_amount : Amount) (e : Error)
    → ltb amount min_amount ≡ false
    → collateral_to_power amount min_amount ≢ err e
enough_collateral amount min_amount e enough h =
    ground (arith, (collateral_to_power_lem amount min_amount).0)

pub if-errors {ℓ κ} :
    {A : Type ℓ} (P : Type κ) (b : Bool) {x y : Result A} {e : Error}
    → (if b then x else y) ≡ err e
    → (x ≡ err e → P)
    → (y ≡ err e → P)
    → P
if-errors P true h p q = p h
if-errors P false h p q = q h

pub found_validator :
    (key : XOnlyPublicKey) (c : SubnetCommittee) (v : SubnetValidator)
    → find_validator key c ≡ some v
    → is_member v.pubkey c.validators ≡ true
unfolding find_validator
found_validator key c v h = let (same, known) = found_member key c.validators v h in rw same known
