-- ===== src/Committee/Panic.antt =====
-- src/db.rs: the `expect` of `multisig_address`.
use bitcoin_ipc.Prelude.{ℕ, ◌^◌, ◌<◌, ◌≡◌, ◌↔◌, refl, List, [], ◌∷◌, arith, sum}
use bitcoin_ipc.Result.{err, panic}
use bitcoin_ipc.Types.{Env, SubnetId, WeightedKey}
use bitcoin_ipc.Multisig.{multisig_threshold, check_total_weight, create_subnet_multisig_address}
use bitcoin_ipc.Committee.{
  SubnetValidator, SubnetCommittee, total_power, threshold, weighted_keys, multisig_address,
  to_committee, is_member, remove_key, remove_validator, remove_member,
}

-- The sum of the powers, before it is cut to 32 bits.
abbrev pub power_sum : List SubnetValidator → ℕ
power_sum vs = sum (λ (v : SubnetValidator). v.power) vs

sum-weighted_keys :
    (vs : List SubnetValidator) → sum (λ (k : WeightedKey). k.1) (weighted_keys vs) ≡ power_sum vs
unfolding weighted_keys
sum-weighted_keys [] = refl
sum-weighted_keys (v ∷ vs) = omega (arith, sum-weighted_keys vs)

-- An address is refused exactly when the validators have no power at all, as long as their total
-- is below 2^31: no script is made whose threshold the whole committee cannot reach.
pub multisig_address-panic :
    (env : Env) (id : SubnetId) (vs : List SubnetValidator)
    → power_sum vs < 2 ^ 31
    → (multisig_address env id vs ≡ err panic) ↔ (power_sum vs ≡ 0)
unfolding multisig_address create_subnet_multisig_address check_total_weight threshold total_power
    multisig_threshold
multisig_address-panic env id vs small =
    (λ e. ground (arith, sum-weighted_keys vs), λ e. ground (arith, sum-weighted_keys vs))

-- Taking out the only validator panics.
pub remove_member_last :
    (env : Env) (id : SubnetId) (c : SubnetCommittee) (v : SubnetValidator)
    → c.validators ≡ v ∷ []
    → remove_member env c id v.pubkey ≡ err panic
unfolding remove_member remove_validator is_member remove_key to_committee
remove_member_last env id c v only =
    let nobody = (multisig_address-panic env id [] (omega arith)).1 refl in rw only (ground arith)
