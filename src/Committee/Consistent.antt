-- ===== src/Committee/Consistent.antt =====
-- src/db.rs: how the threshold and the address of a committee go with its validators, under the
-- three changes of a committee.
use bitcoin_ipc.Prelude.{
  ℕ, ◌+◌, ◌≡◌, refl, true, false, ◌||◌, List, [], ◌∷◌, ◌++◌, arith, ◌==◌, Bool-cases, inl, inr,
}
use bitcoin_ipc.Result.{ok}
use bitcoin_ipc.Types.{Env, SubnetId, XOnlyPublicKey}
use bitcoin_ipc.Committee.{
  SubnetValidator, SubnetCommittee, threshold, multisig_address, is_member, add_validator,
  remove_key, remove_validator, replace_key, to_committee, join_new_validator, modify_validator,
  remove_member,
}

abbrev pub IsDistinct : List SubnetValidator → Type 0
IsDistinct [] = Unit
IsDistinct (v ∷ validators) = (is_member v.pubkey validators ≡ false) × IsDistinct validators

pub record IsConsistent (env : Env) (id : SubnetId) (c : SubnetCommittee) : Type 0 where
  pub distinct : IsDistinct c.validators
  pub quorum : c.threshold ≡ threshold c.validators
  pub addressed : multisig_address env id c.validators ≡ ok c.multisig_address

is_member-append :
    (key : XOnlyPublicKey) (vs : List SubnetValidator) (v : SubnetValidator)
    → is_member key (vs ++ v ∷ []) ≡ (is_member key vs || v.pubkey == key)
unfolding is_member
is_member-append key [] v = ground arith
is_member-append key (w ∷ vs) v = ground (arith, is_member-append key vs v)

append-IsDistinct :
    (vs : List SubnetValidator) (v : SubnetValidator)
    → IsDistinct vs
    → is_member v.pubkey vs ≡ false
    → IsDistinct (vs ++ v ∷ [])
unfolding is_member
append-IsDistinct [] v d new = (refl, tt)
append-IsDistinct (w ∷ vs) v d new =
    ground (arith, append-IsDistinct vs v d.1, is_member-append w.pubkey vs v)

is_member-replace_key :
    (key : XOnlyPublicKey) (v : SubnetValidator) (vs : List SubnetValidator)
    → is_member key (replace_key v vs) ≡ is_member key vs
unfolding is_member replace_key
is_member-replace_key key v [] = refl
is_member-replace_key key v (w ∷ vs) = ground (arith, is_member-replace_key key v vs)

replace_key-IsDistinct :
    (v : SubnetValidator) (vs : List SubnetValidator)
    → IsDistinct vs
    → IsDistinct (replace_key v vs)
unfolding replace_key
replace_key-IsDistinct v [] d = tt
replace_key-IsDistinct v (w ∷ vs) d =
    ground (arith, replace_key-IsDistinct v vs d.1, is_member-replace_key w.pubkey v vs)

is_member-remove_key :
    (key gone : XOnlyPublicKey) (vs : List SubnetValidator)
    → is_member key vs ≡ false
    → is_member key (remove_key gone vs) ≡ false
unfolding is_member remove_key
is_member-remove_key key gone [] h = refl
is_member-remove_key key gone (w ∷ vs) h = ground (arith, is_member-remove_key key gone vs)

remove_key-IsDistinct :
    (gone : XOnlyPublicKey) (vs : List SubnetValidator)
    → IsDistinct vs
    → IsDistinct (remove_key gone vs)
unfolding remove_key
remove_key-IsDistinct gone [] d = tt
remove_key-IsDistinct gone (w ∷ vs) d =
    ground (arith, remove_key-IsDistinct gone vs d.1, is_member-remove_key w.pubkey gone vs)

-- The removed key is gone, since it was listed once.
is_member-remove_key_self :
    (gone : XOnlyPublicKey) (vs : List SubnetValidator)
    → IsDistinct vs
    → is_member gone (remove_key gone vs) ≡ false
unfolding is_member remove_key
is_member-remove_key_self gone [] d = refl
is_member-remove_key_self gone (w ∷ vs) d = ground (arith, is_member-remove_key_self gone vs d.1)

module _ (env : Env) (id : SubnetId) where
  -- What `to_committee` makes of distinct validators.
  pub to_committee-eq-ok :
      (vs : List SubnetValidator) (number : ℕ) (c : SubnetCommittee)
      → to_committee env vs id number ≡ ok c
      → (c.configuration_number ≡ number)
        × (c.validators ≡ vs)
        × (c.threshold ≡ threshold vs)
        × (multisig_address env id vs ≡ ok c.multisig_address)
  unfolding to_committee
  to_committee-eq-ok vs number c e = ground arith

  to_committee-IsConsistent :
      (vs : List SubnetValidator) (number : ℕ) (c : SubnetCommittee)
      → IsDistinct vs
      → to_committee env vs id number ≡ ok c
      → IsConsistent env id c
  to_committee-IsConsistent vs number c d e =
      let (_, members, quorum, addressed) = to_committee-eq-ok vs number c e in
      record {
        distinct = rw members d;
        quorum = rw members quorum;
        addressed = rw members addressed;
      }

  -- A join that succeeds is of a new key; it puts the validator last, advances the configuration
  -- number by two, and keeps the committee consistent.
  pub join_new_validator-IsConsistent :
      (c c' : SubnetCommittee) (v : SubnetValidator)
      → IsConsistent env id c
      → join_new_validator env c id v ≡ ok c'
      → IsConsistent env id c'
        × (is_member v.pubkey c.validators ≡ false)
        × (c'.validators ≡ c.validators ++ v ∷ [])
        × (c'.configuration_number ≡ c.configuration_number + 2)
  unfolding join_new_validator add_validator
  join_new_validator-IsConsistent c c' v h e = elim (Bool-cases (is_member v.pubkey c.validators)) [
    | inl old ↦ absurd (ground arith)
    | inr new ↦
        let made : to_committee env (c.validators ++ v ∷ []) id (c.configuration_number + 2)
            ≡ ok c' =
          ground arith in
        let (number, members, _, _) = to_committee-eq-ok _ _ c' made in
        (
          to_committee-IsConsistent _ _ c' (append-IsDistinct c.validators v h.distinct new) made,
          new,
          members,
          number,
        )
  ]

  -- A modification that succeeds replaces the validator of its key, advances the configuration
  -- number by one, and keeps the committee consistent.
  pub modify_validator-IsConsistent :
      (c c' : SubnetCommittee) (v : SubnetValidator)
      → IsConsistent env id c
      → modify_validator env c id v ≡ ok c'
      → IsConsistent env id c'
        × (is_member v.pubkey c.validators ≡ true)
        × (c'.validators ≡ replace_key v c.validators)
        × (c'.configuration_number ≡ c.configuration_number + 1)
  unfolding modify_validator
  modify_validator-IsConsistent c c' v h e = elim (Bool-cases (is_member v.pubkey c.validators)) [
    | inr new ↦ absurd (ground arith)
    | inl old ↦
        let made : to_committee env (replace_key v c.validators) id (c.configuration_number + 1)
            ≡ ok c' =
          ground arith in
        let (number, members, _, _) = to_committee-eq-ok _ _ c' made in
        (
          to_committee-IsConsistent _ _ c' (replace_key-IsDistinct v c.validators h.distinct) made,
          old,
          members,
          number,
        )
  ]

  -- A removal that succeeds leaves no validator with the key, advances the configuration number
  -- by one, and keeps the committee consistent.
  pub remove_member-IsConsistent :
      (c c' : SubnetCommittee) (key : XOnlyPublicKey)
      → IsConsistent env id c
      → remove_member env c id key ≡ ok c'
      → IsConsistent env id c'
        × (is_member key c'.validators ≡ false)
        × (c'.validators ≡ remove_key key c.validators)
        × (c'.configuration_number ≡ c.configuration_number + 1)
  unfolding remove_member remove_validator
  remove_member-IsConsistent c c' key h e = elim (Bool-cases (is_member key c.validators)) [
    | inr unknown ↦ absurd (ground arith)
    | inl known ↦
        let made : to_committee env (remove_key key c.validators) id (c.configuration_number + 1)
            ≡ ok c' =
          ground arith in
        let (number, members, _, _) = to_committee-eq-ok _ _ c' made in
        (
          to_committee-IsConsistent _ _ c' (remove_key-IsDistinct key c.validators h.distinct) made,
          rw members (is_member-remove_key_self key c.validators h.distinct),
          members,
          number,
        )
  ]
