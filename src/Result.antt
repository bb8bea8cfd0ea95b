-- ===== src/Result.antt =====
-- Fallible code: the error values of `IpcLibError`, `IpcValidateError`, `DbError` and
-- `MultisigError` (src/ipc_lib.rs, src/db.rs, src/multisig.rs). A constructor stands for one
-- message text of the source; `panic` stands for an `expect` or an arithmetic check that aborts.
use bitcoin_ipc.Prelude.{◌≡◌, refl, Bool, true, false, Option, none, some, if◌then◌else◌}

pub data Error : Type 0 where
  -- lookups of a message's subnet
  subnet_not_found subnet_id_mismatch subnet_killed : Error
  -- the fields of a message
  min_validators_zero whitelist_too_short check_period_zero validators_limit_too_low : Error
  min_fee_zero already_bootstrapped subnet_id_zero amount_zero bad_backup_address : Error
  -- stake and membership
  collateral_too_low not_whitelisted already_registered already_waiting : Error
  not_a_validator pubkey_required stake_diff_too_small : Error
  amount_exceeds_total amount_exceeds_collateral unstake_all_required : Error
  duplicate_kill_request : Error
  -- `DbError::InvalidChange`
  validator_exists validator_missing no_next_committee : Error
  -- `MultisigError`
  insufficient_collateral collateral_too_high insufficient_total_power : Error
  insufficient_funds insufficient_funds_for_fee no_utxos insufficient_outputs : Error
  -- checkpoints
  configuration_number_too_low stake_change_missing no_checkpoints checkpoint_missing : Error
  -- the ERC ledger
  registered_twice token_exists burn_exceeds_balance zero_amount insufficient_balance : Error
  burn_underflow transfer_underflow : Error
  data_length_mismatch invalid_tag not_op_return not_enough_outputs unparsed_address : Error
  multisig_address_missing fee_rate_overflow serialize_failed no_outputs : Error
  empty_witness unparsed_witness empty_batch wrong_inputs : Error
  checkpoint_txid_mismatch missing_output transfer_count_mismatch : Error
  too_many_unstakes too_many_withdrawals too_many_destinations wrong_network : Error
  change_address_set checkpoint_height_zero checkpoint_txid_zero address_zero empty_name : Error
  invalid_pubkey no_inputs signature_mismatch ipc_tx_invalid block_height_ahead_of_tip : Error
  deserialization_error unknown_tag bitcoin_rpc_error : Error
  -- compact amounts
  empty_compact_amount compact_amount_too_long compact_amount_mismatch i256_overflow : Error
  -- rewards
  invalid_config committee_missing : Error
  panic : Error

pub data Result {ℓ} (A : Type ℓ) : Type ℓ where
  ok : A → Result A
  err : Error → Result A

-- `?` on a result, with the rest of the body as `rest`.
infixl 5 ◌>>=◌
abbrev pub ◌>>=◌ {ℓ ℓ'} : {S : Type ℓ} {T : Type ℓ'} → Result S → (S → Result T) → Result T
err why >>= rest = err why
ok value >>= rest = rest value

-- `if b { return Err(e) }`
abbrev pub fail_if : Bool → Error → Result (Unit {0})
fail_if true e = err e
fail_if false e = ok tt

-- `ok_or(e)?`
abbrev pub ok_or {ℓ} : {A : Type ℓ} → Option A → Error → Result A
ok_or none e = err e
ok_or (some a) e = ok a

-- `check?;`
infixl 5 ◌>>◌
abbrev pub ◌>>◌ {ℓ} : {T : Type ℓ} → Result (Unit {0}) → Result T → Result T
check >> rest = check >>= λ _. rest

-- Inversion of a chain that succeeded.
pub >>=-eq-ok {ℓ ℓ'} :
    {S : Type ℓ} {T : Type ℓ'} (r : Result S) (rest : S → Result T) {t : T}
    → (r >>= rest) ≡ ok t
    → (value : S) × (r ≡ ok value) × (rest value ≡ ok t)
>>=-eq-ok (err why) rest h = cc
>>=-eq-ok (ok value) rest h = (value, refl, h)

-- The same with the rest of the chain as a continuation.
pub >>=-elim {ℓ κ μ} :
    {A : Type ℓ} {B : Type κ} (m : Result A) (f : A → Result B) {b : B} {P : Type μ}
    → (m >>= f) ≡ ok b
    → ((a : A) → m ≡ ok a → f a ≡ ok b → P)
    → P
>>=-elim (ok a) f h k = k a refl h
>>=-elim (err e) f h k = absurd cc

pub fail_if-eq-ok : (b : Bool) (e : Error) {u : Unit {0}} → fail_if b e ≡ ok u → b ≡ false
fail_if-eq-ok true e h = cc
fail_if-eq-ok false e h = refl

pub ok-injective {ℓ} : {A : Type ℓ} {a b : A} → ok a ≡ ok b → a ≡ b
ok-injective e = cc

pub ok_or-eq-some {ℓ} :
    {A : Type ℓ} (o : Option A) (x : Error) {a b : A} → ok_or o x ≡ ok a → o ≡ some b → a ≡ b
ok_or-eq-some none x e h = absurd cc
ok_or-eq-some (some c) x e h = cc

pub ok_or-eq-ok {ℓ} :
    {A : Type ℓ} (o : Option A) (x : Error) {a : A} → ok_or o x ≡ ok a → o ≡ some a
ok_or-eq-ok none x e = absurd cc
ok_or-eq-ok (some c) x e = cc

pub if-eq-ok {ℓ μ} :
    {A : Type ℓ} {P : Type μ} (b : Bool) {x y : Result A} {a : A}
    → (if b then x else y) ≡ ok a
    → (x ≡ ok a → P)
    → (y ≡ ok a → P)
    → P
if-eq-ok true e p q = p e
if-eq-ok false e p q = q e
