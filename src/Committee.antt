-- ===== src/Committee.antt =====
-- src/db.rs: `SubnetValidator`, the trait `SubnetValidators` on a list of them, and
-- `SubnetCommittee`. A method that mutates returns the new value; on an error the callers drop
-- what was mutated, so only the error comes back.
pub mod Consistent
pub mod Panic
pub mod Numbers
use bitcoin_ipc.Prelude.{ℕ, ◌+◌, ◌%◌, Bool, List, [], ◌∷◌, ◌++◌, map, any, sum, ◌==◌, if◌then◌else◌}
use bitcoin_ipc.Result.{Result, ok, err, ◌>>=◌, validator_exists, validator_missing, panic}
use bitcoin_ipc.Types.{
  Env, SubnetId, XOnlyPublicKey, Address, EthAddress, Txid, Amount, Power, WeightedKey, u32_mod,
}
use bitcoin_ipc.Multisig.{multisig_threshold, create_subnet_multisig_address}

pub record SubnetValidator : Type 0 where
  pub pubkey : XOnlyPublicKey
  pub subnet_address : EthAddress
  pub power : Power
  pub collateral : Amount
  pub backup_address : Address
  pub ip : ℕ
  pub join_txid : Txid

-- `self.iter().map(|v| v.power).sum()`, which wraps in a release build.
unfoldable pub total_power : List SubnetValidator → Power
total_power validators = sum (λ (v : SubnetValidator). v.power) validators % u32_mod

unfoldable pub threshold : List SubnetValidator → Power
unfolding total_power
threshold validators = multisig_threshold (total_power validators)

unfoldable pub weighted_keys : List SubnetValidator → List WeightedKey
weighted_keys [] = []
weighted_keys (v ∷ validators) = (v.pubkey, v.power) ∷ weighted_keys validators

abbrev pub expect {ℓ} : {A : Type ℓ} → Result A → Result A
expect (ok a) = ok a
expect (err e) = err panic

unfoldable pub multisig_address : Env → SubnetId → List SubnetValidator → Result Address
multisig_address env id validators =
    expect (create_subnet_multisig_address env id (weighted_keys validators) (threshold validators))

unfoldable pub is_member : XOnlyPublicKey → List SubnetValidator → Bool
is_member key validators = any (λ (v : SubnetValidator). v.pubkey == key) validators

unfoldable pub add_validator :
    List SubnetValidator → SubnetValidator → Result (List SubnetValidator)
add_validator validators v =
    if is_member v.pubkey validators then err validator_exists else ok (validators ++ v ∷ [])

-- `Vec::remove` at the first position with the key.
unfoldable pub remove_key : XOnlyPublicKey → List SubnetValidator → List SubnetValidator
remove_key key [] = []
remove_key key (v ∷ validators) =
    if v.pubkey == key then validators else v ∷ remove_key key validators

unfoldable pub remove_validator :
    List SubnetValidator → XOnlyPublicKey → Result (List SubnetValidator)
remove_validator validators key =
    if is_member key validators then ok (remove_key key validators) else err validator_missing

-- `validators[position] = v` at the first position with the key of `v`.
unfoldable pub replace_key : SubnetValidator → List SubnetValidator → List SubnetValidator
replace_key v [] = []
replace_key v (w ∷ validators) =
    if w.pubkey == v.pubkey then v ∷ validators else w ∷ replace_key v validators

pub record SubnetCommittee : Type 0 where
  pub configuration_number : ℕ
  pub threshold : Power
  pub validators : List SubnetValidator
  pub multisig_address : Address

-- `impl PartialEq`: by the address alone.
unfoldable pub same_committee : SubnetCommittee → SubnetCommittee → Bool
same_committee c d = c.multisig_address == d.multisig_address

unfoldable pub to_committee : Env → List SubnetValidator → SubnetId → ℕ → Result SubnetCommittee
to_committee env members id number = do
  address ← multisig_address env id members
  ok (record {
    configuration_number = number;
    threshold = threshold members;
    validators = members;
    multisig_address = address;
  })

unfoldable pub is_validator : SubnetCommittee → XOnlyPublicKey → Bool
unfolding is_member
is_validator c key = is_member key c.validators

-- Two stake changes: one for the public key, one for the deposit.
unfoldable pub join_new_validator :
    Env → SubnetCommittee → SubnetId → SubnetValidator → Result SubnetCommittee
join_new_validator env c id v = do
  members ← add_validator c.validators v
  to_committee env members id (c.configuration_number + 2)

unfoldable pub modify_validator :
    Env → SubnetCommittee → SubnetId → SubnetValidator → Result SubnetCommittee
modify_validator env c id v =
    if is_member v.pubkey c.validators
    then to_committee env (replace_key v c.validators) id (c.configuration_number + 1)
    else err validator_missing

unfoldable pub remove_member :
    Env → SubnetCommittee → SubnetId → XOnlyPublicKey → Result SubnetCommittee
remove_member env c id key = do
  members ← remove_validator c.validators key
  to_committee env members id (c.configuration_number + 1)
