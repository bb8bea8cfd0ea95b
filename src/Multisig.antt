-- ===== src/Multisig.antt =====
-- src/multisig.rs: the threshold, the power of a collateral, the order of keys in the script, and
-- the multisig address of a committee.
pub mod Threshold
pub mod Sort
use bitcoin_ipc.Prelude.{
  ℕ, ◌+◌, ◌*◌, ◌/◌, ◌%◌, ◌-◌, ◌^◌, List, [], ◌∷◌, min, ltb, leb, sum, if◌then◌else◌,
}
use bitcoin_ipc.Result.{
  Result, ok, err, ◌>>◌, fail_if, insufficient_collateral, collateral_too_high,
  insufficient_total_power,
}
use bitcoin_ipc.Types.{Env, SubnetId, Address, Amount, Power, WeightedKey, u32_mod}

-- The one insertion of the stable sort by key.
unfoldable pub insert_key : WeightedKey → List WeightedKey → List WeightedKey
insert_key k [] = k ∷ []
insert_key k (j ∷ keys) = if leb k.0 j.0 then k ∷ j ∷ keys else j ∷ insert_key k keys

-- `sort_by` on the keys: it is stable, and a stable sort has one result.
unfoldable pub sort_committee_keys : List WeightedKey → List WeightedKey
unfolding insert_key
sort_committee_keys [] = []
sort_committee_keys (k ∷ keys) = insert_key k (sort_committee_keys keys)

-- `u32` arithmetic, which wraps in a release build.
unfoldable pub multisig_threshold : Power → Power
multisig_threshold total_power = total_power * 2 % u32_mod / 3 + 1

abbrev pub power_scale_factor : ℕ
power_scale_factor = 10_000

abbrev pub max_power : ℕ
max_power = u32_mod - 1

unfoldable pub collateral_to_power : Amount → Amount → Result Power
collateral_to_power amount min_amount =
    if ltb amount min_amount
    then err insufficient_collateral
    else let power : ℕ = min amount max_power / power_scale_factor in
      if ltb power u32_mod then ok power else err collateral_too_high

-- `create_multisig_script` refuses keys whose total is below the threshold.
unfoldable pub check_total_weight : List WeightedKey → Power → Result (Unit {0})
check_total_weight keys threshold =
    fail_if (ltb (sum (λ (k : WeightedKey). k.1) keys % u32_mod) threshold) insufficient_total_power

unfoldable pub create_subnet_multisig_address :
    Env → SubnetId → List WeightedKey → Power → Result Address
unfolding check_total_weight
create_subnet_multisig_address env id keys threshold =
    check_total_weight keys threshold
    >> ok (env.taproot_address id (sort_committee_keys keys) threshold)
