-- ===== src/Monitor/Errors/Joins.antt =====
-- src/ipc_lib.rs: the errors of `IpcJoinSubnetMsg::save_to_db`.
use bitcoin_ipc.Prelude.{ℕ, ◌≡◌, refl, true, false, Option, none, some, [], ◌∷◌, ◌++◌, ltb, arith}
use bitcoin_ipc.Result.{
  Error, ok, err, panic, subnet_not_found, already_registered, already_waiting,
}
use bitcoin_ipc.Types.{Env, Txid, BlockHash}
use bitcoin_ipc.Multisig.{collateral_to_power}
use bitcoin_ipc.Committee.{SubnetValidator, to_committee, is_validator, join_new_validator}
use bitcoin_ipc.Subnet.{
  SubnetState, SubnetGenesisInfo, latest_committee, to_subnet, enough_to_bootstrap,
  genesis_committee_conf_num,
}
use bitcoin_ipc.Db.{Db, get_subnet_genesis_info, get_subnet_state}
use bitcoin_ipc.Msg.Join.{
  IpcJoinSubnetMsg, validate_join, validate_pre_bootstrap, validate_post_bootstrap,
  join_bootstrapped, join_genesis, join_subnet, save_join,
}
use bitcoin_ipc.Monitor.{is_ignorable}
use bitcoin_ipc.Monitor.Errors.{NotFatal, Ignorable-NotFatal, bind-errors, check-errors, get-errors}
use bitcoin_ipc.Monitor.Errors.Carried.{validate_join-Ignorable}
use bitcoin_ipc.Monitor.Errors.Members.{
  IsPanic, to_committee-panic, join_new_validator-panic, enough_collateral, if-errors,
}

validate_join-enough :
    (m : IpcJoinSubnetMsg) (g : SubnetGenesisInfo) (s : Option SubnetState)
    → validate_join m g s ≡ ok tt
    → ltb m.collateral g.create_subnet_msg.min_validator_stake ≡ false
unfolding validate_join validate_pre_bootstrap validate_post_bootstrap
validate_join-enough m g none h = ground arith
validate_join-enough m g (some s) h = ground arith

to_subnet-panic :
    (env : Env) (g : SubnetGenesisInfo) (e : Error) → to_subnet env g ≡ err e → e ≡ panic
unfolding to_subnet
to_subnet-panic env g e h =
    bind-errors IsPanic
      (to_committee env g.genesis_validators g.subnet_id genesis_committee_conf_num) _ e h
      (to_committee-panic env _ _ _ e) λ c _ h. cc

join_genesis-panic :
    (env : Env) (m : IpcJoinSubnetMsg) (db : Db) (g : SubnetGenesisInfo) (v : SubnetValidator)
    (height : ℕ) (e : Error)
    → join_genesis env m db g v height ≡ err e
    → e ≡ panic
unfolding join_genesis
join_genesis-panic env m db g v height e h =
    if-errors (e ≡ panic)
      (enough_to_bootstrap (record g { genesis_validators = g.genesis_validators ++ v ∷ [] })) h
      (λ h.
        bind-errors IsPanic
          (to_subnet env (record g {
            genesis_validators = g.genesis_validators ++ v ∷ [];
            bootstrapped = true;
            genesis_block_height = some height;
          }))
          _ e h (to_subnet-panic env _ e) λ s _ h. cc)
      (λ h. cc)

join_subnet-NotFatal :
    (env : Env) (m : IpcJoinSubnetMsg) (db : Db) (g : SubnetGenesisInfo) (s : Option SubnetState)
    (v : SubnetValidator) (height : ℕ) (hash : BlockHash) (txid : Txid) (e : Error)
    → v.pubkey ≡ m.pubkey
    → join_subnet env m db g s v height hash txid ≡ err e
    → NotFatal e
unfolding join_subnet join_bootstrapped join_genesis is_ignorable
join_subnet-NotFatal env m db g (some s) v height hash txid e same h =
    check-errors NotFatal (is_validator s.committee m.pubkey) already_registered _ e h (λ f. cc)
      λ _ h.
        check-errors NotFatal (is_validator (latest_committee s) m.pubkey) already_waiting _ e h
          (λ f. cc)
          λ fresh h.
            bind-errors NotFatal (join_new_validator env (latest_committee s) s.id v) _ e h
              (λ h _. join_new_validator-panic env (latest_committee s) s.id v e (rw same fresh) h)
              λ c _ h. cc
join_subnet-NotFatal env m db g none v height hash txid e same h =
    λ _. join_genesis-panic env m db g v height e h

pub save_join-NotFatal :
    (env : Env) (m : IpcJoinSubnetMsg) (db : Db) (height : ℕ) (hash : BlockHash) (txid : Txid)
    (e : Error)
    → save_join env m db height hash txid ≡ err e
    → NotFatal e
unfolding save_join is_ignorable
save_join-NotFatal env m db height hash txid e h =
    get-errors NotFatal (get_subnet_genesis_info db m.subnet_id) subnet_not_found _ e h (λ f. cc)
      λ g _ h.
        bind-errors NotFatal (validate_join m g (get_subnet_state db m.subnet_id)) _ e h
          (λ h.
            Ignorable-NotFatal e
              (validate_join-Ignorable m g (get_subnet_state db m.subnet_id) e h))
          λ _ valid h.
            bind-errors NotFatal
              (collateral_to_power m.collateral g.create_subnet_msg.min_validator_stake) _ e h
              (λ h. absurd (
                enough_collateral m.collateral g.create_subnet_msg.min_validator_stake e
                  (validate_join-enough m g (get_subnet_state db m.subnet_id) valid) h))
              λ power _ h.
                join_subnet-NotFatal env m db g (get_subnet_state db m.subnet_id) _ height hash txid
                  e refl h
