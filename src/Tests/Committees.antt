-- ===== src/Tests/Committees.antt =====
-- Tests and examples on the multisig and the committees.
use mathlib.Core.Logic.{∥∥₁_elim}
use mathlib.Core.HLevel.{hedberg}
use native.Mathlib.Decide.{ℕ_discrete}
use mathlib.Core.List.{Memᴰ}
use mathlib.Core.List.Perm
use mathlib.Core.List.Memᴰ
use bitcoin_ipc.Prelude.{
  ℕ, ◌+◌, ◌*◌, ◌^◌, ◌≤◌, ◌-◌, ◌≡◌, refl, ap, sym, ◌∙◌, ◌==◌, List, [], ◌∷◌, arith, if◌then◌else◌,
}
use bitcoin_ipc.Types.{WeightedKey}
use bitcoin_ipc.Multisig.{multisig_threshold, create_subnet_multisig_address}
use bitcoin_ipc.Multisig.Threshold.{multisig_threshold_wraps}
use bitcoin_ipc.Multisig.Sort.{IsFunctional, create_subnet_multisig_address-perm}
use bitcoin_ipc.Tests.Values.{env}

threshold_of_500 : multisig_threshold 500 ≡ 334
unfolding multisig_threshold
threshold_of_500 = refl

-- A total of 2^31 + 3 has the threshold of 3.
multisig_threshold_wraps_example :
    (multisig_threshold (2 ^ 31 + 3) ≡ multisig_threshold (2 ^ 31 + 3 - 2 ^ 31))
    × (3 * multisig_threshold (2 ^ 31 + 3) ≤ 2 ^ 31 + 3 + 1)
multisig_threshold_wraps_example = multisig_threshold_wraps (2 ^ 31 + 3) (omega arith) (omega arith)

abbrev keys : List WeightedKey
keys = (2, 200) ∷ (1, 300) ∷ []

abbrev swapped : List WeightedKey
swapped = (1, 300) ∷ (2, 200) ∷ []

abbrev power_of_key : ℕ → ℕ
power_of_key key = if key == 2 then 200 else 300

listed_power : (j : WeightedKey) → Memᴰ j keys → j ≡ (j.0, power_of_key j.0)
listed_power j (Memᴰ.head e) = rw e refl
listed_power j (Memᴰ.tail (Memᴰ.head e)) = rw e refl
listed_power j (Memᴰ.tail (Memᴰ.tail m)) = absurd (Memᴰ.not-nil m)

weighted_keys-set : (j k : WeightedKey) → IsProp (j ≡ k)
weighted_keys-set = hedberg (hlevel ℕ_discrete)

keys-IsFunctional : IsFunctional keys
keys-IsFunctional = record {
  one_power = λ j k mj mk e. ∥∥₁_elim mj (weighted_keys-set _ _) λ dj.
      ∥∥₁_elim mk (weighted_keys-set _ _)
        λ dk. listed_power j dj ∙ ap (λ n. (n, power_of_key n)) e ∙ sym (listed_power k dk);
}

create_subnet_multisig_address-perm_example :
    create_subnet_multisig_address env 7 keys 334 ≡ create_subnet_multisig_address env 7 swapped 334
create_subnet_multisig_address-perm_example =
    create_subnet_multisig_address-perm env 7 334 keys swapped keys-IsFunctional
      (Perm.swap (1, 300) (2, 200) [])
