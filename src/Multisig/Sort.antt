-- ===== src/Multisig/Sort.antt =====
-- src/multisig.rs: `sort_committee_keys` and the order in which a committee lists its keys.
use mathlib.Core.HLevel.{hedberg}
use mathlib.Core.Logic.{∥∥₁_elim}
use mathlib.Core.List.{Mem, Perm, Permᴰ, mem-cons_self, mem-cons_of_mem}
use mathlib.Core.List.Perm
use native.Mathlib.Decide.{ℕ_discrete}
use bitcoin_ipc.Prelude.{ℕ, ◌≡◌, ◌≢◌, refl, ◌∙◌, List, [], ◌∷◌, arith, sum}
use bitcoin_ipc.Result.{Result}
use bitcoin_ipc.Types.{Env, SubnetId, Address, Power, WeightedKey}
use bitcoin_ipc.Multisig.{insert_key, sort_committee_keys, create_subnet_multisig_address}

-- Insertions of two keys that differ commute.
insert_key_comm :
    (j k : WeightedKey) (keys : List WeightedKey)
    → j.0 ≢ k.0
    → insert_key j (insert_key k keys) ≡ insert_key k (insert_key j keys)
unfolding insert_key
insert_key_comm j k [] h = ground arith
insert_key_comm j k (i ∷ keys) h = ground (arith, insert_key_comm j k keys h)

-- No key is listed with two powers.
pub record IsFunctional (keys : List WeightedKey) : Type 0 where
  pub one_power : (j k : WeightedKey) → Mem j keys → Mem k keys → j.0 ≡ k.0 → j ≡ k

IsFunctional-tail :
    {k : WeightedKey} {keys : List WeightedKey} → IsFunctional (k ∷ keys) → IsFunctional keys
IsFunctional-tail {k} h = record {
  one_power = λ i j mi mj e. h.one_power i j (mem-cons_of_mem k mi) (mem-cons_of_mem k mj) e;
}

IsFunctional-perm :
    {keys keys' : List WeightedKey} → Permᴰ keys keys' → IsFunctional keys → IsFunctional keys'
IsFunctional-perm p h = record {
  one_power = λ i j mi mj e.
      h.one_power i j (Perm.subset (Perm.symm ∣ p ∣₁) i mi) (Perm.subset (Perm.symm ∣ p ∣₁) j mj) e;
}

sort-swap :
    (j k : WeightedKey) (keys : List WeightedKey)
    → (j.0 ≡ k.0 → j ≡ k)
    → insert_key j (insert_key k keys) ≡ insert_key k (insert_key j keys)
sort-swap j k keys same = elim (ℕ_discrete j.0 k.0) [
  | yes e ↦ cc (same e)
  | no ne ↦ insert_key_comm j k keys ne
]

sort-permᴰ :
    {keys keys' : List WeightedKey}
    → Permᴰ keys keys'
    → IsFunctional keys
    → sort_committee_keys keys ≡ sort_committee_keys keys'
unfolding sort_committee_keys
sort-permᴰ Permᴰ.nil h = refl
sort-permᴰ (Permᴰ.cons {l₁ = ks} {l₂ = ls} e p) h = rw (e, sort-permᴰ p (IsFunctional-tail h))
sort-permᴰ (Permᴰ.swap {a = j} {b = k} {l = ks} e f) h =
    rw (← e, ← f)
      (sort-swap j k (sort_committee_keys ks)
        (h.one_power j k mem-cons_self (mem-cons_of_mem j mem-cons_self)))
sort-permᴰ (Permᴰ.trans p q) h = sort-permᴰ p h ∙ sort-permᴰ q (IsFunctional-perm p h)

abbrev power_sum : List WeightedKey → ℕ
power_sum keys = sum (λ (k : WeightedKey). k.1) keys

power_sum-permᴰ :
    {keys keys' : List WeightedKey} → Permᴰ keys keys' → power_sum keys ≡ power_sum keys'
power_sum-permᴰ Permᴰ.nil = refl
power_sum-permᴰ (Permᴰ.cons e p) = rw e (omega (arith, power_sum-permᴰ p))
power_sum-permᴰ (Permᴰ.swap e f) = rw (← e, ← f) (omega arith)
power_sum-permᴰ (Permᴰ.trans p q) = power_sum-permᴰ p ∙ power_sum-permᴰ q

Result-set : (r s : Result Address) → IsProp (r ≡ s)
Result-set = hedberg (hlevel ℕ_discrete)

-- The multisig address of a committee, or the refusal to make one, does not depend on the order
-- in which its weighted keys are listed, as long as no key is listed with two powers.
pub create_subnet_multisig_address-perm :
    (env : Env) (id : SubnetId) (threshold : Power) (keys keys' : List WeightedKey)
    → IsFunctional keys
    → Perm keys keys'
    → create_subnet_multisig_address env id keys threshold
      ≡ create_subnet_multisig_address env id keys' threshold
unfolding create_subnet_multisig_address
create_subnet_multisig_address-perm env id threshold keys keys' h p =
    ∥∥₁_elim p (Result-set _ _) (λ d. rw (sort-permᴰ d h, power_sum-permᴰ d))
