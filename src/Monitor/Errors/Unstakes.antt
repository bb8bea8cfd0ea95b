-- ===== src/Monitor/Errors/Unstakes.antt =====
-- src/ipc_lib.rs: the errors of `IpcUnstakeCollateralMsg::save_to_db`.
use bitcoin_ipc.Prelude.{
  ℕ, ◌≡◌, ◌≢◌, refl, inl, inr, Bool, true, not, ◌||◌, Bool-cases, Option, none, some, ltb, ◌==◌,
  arith,
}
use bitcoin_ipc.Result.{
  Error, ok, err, fail_if, panic, subnet_not_found, not_a_validator, pubkey_required,
  amount_exceeds_collateral, subnet_id_mismatch, subnet_killed, amount_exceeds_total,
  unstake_all_required,
}
use bitcoin_ipc.Types.{Env, SubnetId, XOnlyPublicKey, Amount, Power, Txid, BlockHash}
use bitcoin_ipc.Multisig.Threshold.{collateral_to_power_lem}
use bitcoin_ipc.Committee.{SubnetValidator, SubnetCommittee, is_member}
use bitcoin_ipc.Subnet.{
  SubnetState, SubnetGenesisInfo, latest_committee, total_collateral, is_killed_or_pending,
}
use bitcoin_ipc.Db.{Db, get_subnet_genesis_info, get_subnet_state}
use bitcoin_ipc.Msg.Stake.{find_validator}
use bitcoin_ipc.Msg.Unstake.{
  IpcUnstakeCollateralMsg, checked_sub, remaining_power, validator_key, validate_unstake,
  after_unstake, save_unstake,
}
use bitcoin_ipc.Monitor.{is_ignorable}
use bitcoin_ipc.Monitor.Errors.{
  Ignorable, NotFatal, Ignorable-NotFatal, bind-errors, check-errors, get-errors,
}
use bitcoin_ipc.Monitor.Errors.Members.{
  modify_validator-panic, remove_member-panic, if-errors, found_validator, found_member,
}

remaining_power_total :
    (amount min_amount : Amount) (e : Error) → remaining_power amount min_amount ≢ err e
unfolding remaining_power
remaining_power_total amount min_amount e h =
    let known = (collateral_to_power_lem amount min_amount).0 in
    elim (Bool-cases (ltb amount min_amount)) [
      | inl below ↦ not-err (rw (known, below) at h)
      | inr enough ↦ not-err (rw (known, enough) at h)
    ]
  where
    not-err : {p : Power × Bool} {x : Error} → ok p ≡ err x → ⊥
    not-err q = cc

validator_key-Ignorable :
    (key : Option XOnlyPublicKey) (c : SubnetCommittee) (e : Error)
    → validator_key key c ≡ err e
    → Ignorable e
unfolding validator_key is_ignorable
validator_key-Ignorable none c e h = ground arith
validator_key-Ignorable (some key) c e h = ground arith

last_check-Ignorable : (b : Bool) (e : Error) → fail_if b unstake_all_required ≡ err e → Ignorable e
unfolding is_ignorable
last_check-Ignorable b e h = ground arith

validate_unstake-Ignorable :
    (m : IpcUnstakeCollateralMsg) (g : SubnetGenesisInfo) (s : SubnetState) (e : Error)
    → validate_unstake m g s ≡ err e
    → Ignorable e
unfolding validate_unstake is_ignorable
validate_unstake-Ignorable m g s e h =
    check-errors Ignorable (not (s.id == m.subnet_id) || not (g.subnet_id == m.subnet_id))
      subnet_id_mismatch _ e h refl
      λ _ h. check-errors Ignorable (is_killed_or_pending s) subnet_killed _ e h refl λ _ h.
        bind-errors Ignorable (validator_key m.pubkey (latest_committee s)) _ e h
          (validator_key-Ignorable m.pubkey (latest_committee s) e)
          λ key _ h.
            check-errors Ignorable (ltb (total_collateral s) m.amount) amount_exceeds_total _ e h
              refl
              λ _ h.
                get-errors Ignorable (find_validator key (latest_committee s)) not_a_validator _ e h
                  refl
                  λ v _ h.
                    get-errors Ignorable (checked_sub v.collateral m.amount)
                      amount_exceeds_collateral _ e h refl
                      λ left _ h.
                        bind-errors Ignorable
                          (remaining_power left g.create_subnet_msg.min_validator_stake) _ e h
                          (λ h. absurd (remaining_power_total left _ e h))
                          λ rest _ h. last_check-Ignorable _ e h

found_key :
    (key : XOnlyPublicKey) (c : SubnetCommittee) (v : SubnetValidator)
    → find_validator key c ≡ some v
    → v.pubkey ≡ key
unfolding find_validator
found_key key c v h = (found_member key c.validators v h).0

after_unstake-panic :
    (env : Env) (id : SubnetId) (c : SubnetCommittee) (v : SubnetValidator) (key : XOnlyPublicKey)
    (rest : Power × Bool) (e : Error)
    → is_member v.pubkey c.validators ≡ true
    → v.pubkey ≡ key
    → after_unstake env id c v key rest ≡ err e
    → e ≡ panic
unfolding after_unstake
after_unstake-panic env id c v key rest e known same h =
    if-errors (e ≡ panic) (rest.0 == 0 || not rest.1) h
      (λ h. remove_member-panic env c id key e (rw same at known) h)
      (λ h. modify_validator-panic env c id v e known h)

pub save_unstake-NotFatal :
    (env : Env) (m : IpcUnstakeCollateralMsg) (db : Db) (height : ℕ) (hash : BlockHash)
    (txid : Txid) (e : Error)
    → save_unstake env m db height hash txid ≡ err e
    → NotFatal e
unfolding save_unstake is_ignorable
save_unstake-NotFatal env m db height hash txid e h =
    get-errors NotFatal (get_subnet_genesis_info db m.subnet_id) subnet_not_found _ e h (λ f. cc)
      λ g _ h.
        get-errors NotFatal (get_subnet_state db m.subnet_id) subnet_not_found _ e h (λ f. cc)
          λ s _ h.
            bind-errors NotFatal (validate_unstake m g s) _ e h
              (λ h. Ignorable-NotFatal e (validate_unstake-Ignorable m g s e h))
              λ _ _ h.
                get-errors NotFatal m.pubkey pubkey_required _ e h (λ f. cc)
                  λ key _ h.
                    get-errors NotFatal (find_validator key (latest_committee s)) not_a_validator _
                      e h (λ f. cc)
                      λ v hv h.
                        get-errors NotFatal (checked_sub v.collateral m.amount)
                          amount_exceeds_collateral _ e h (λ f. cc)
                          λ left _ h.
                            bind-errors NotFatal
                              (remaining_power left g.create_subnet_msg.min_validator_stake) _ e h
                              (λ h. absurd (remaining_power_total left _ e h))
                              λ rest _ h.
                                bind-errors NotFatal
                                  (after_unstake env m.subnet_id (latest_committee s)
                                    (record v { collateral = left; power = rest.0 }) key rest)
                                  _ e h
                                  (λ h _.
                                    after_unstake-panic env m.subnet_id (latest_committee s) _ key
                                      rest e (found_validator key (latest_committee s) v hv)
                                      (found_key key (latest_committee s) v hv) h)
                                  λ next _ h. cc
