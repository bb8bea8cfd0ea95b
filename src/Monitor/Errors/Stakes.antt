-- ===== src/Monitor/Errors/Stakes.antt =====
-- src/ipc_lib.rs: the errors of `IpcStakeCollateralMsg::save_to_db`.
use bitcoin_ipc.Prelude.{ℕ, ◌+◌, ◌≤◌, ◌≡◌, some, arith}
use bitcoin_ipc.Result.{Error, err, subnet_not_found, not_a_validator}
use bitcoin_ipc.Types.{Env, SubnetId, XOnlyPublicKey, Txid, BlockHash}
use bitcoin_ipc.Multisig.{collateral_to_power}
use bitcoin_ipc.Committee.{SubnetValidator, modify_validator}
use bitcoin_ipc.Subnet.{SubnetState, SubnetGenesisInfo, latest_committee}
use bitcoin_ipc.Db.{Db, get_subnet_genesis_info, get_subnet_state}
use bitcoin_ipc.Msg.Stake.{IpcStakeCollateralMsg, validate_stake, find_validator, save_stake}
use bitcoin_ipc.Monitor.{is_ignorable}
use bitcoin_ipc.Monitor.Errors.{Ignorable, NotFatal, Ignorable-NotFatal, bind-errors, get-errors}
use bitcoin_ipc.Monitor.Errors.Members.{modify_validator-panic, enough_collateral, found_validator}

-- Every validator of a stored subnet has the least stake that its genesis asks for.
abbrev pub HasMinimum : Db → Type 0
HasMinimum db =
    (id : SubnetId) (g : SubnetGenesisInfo) (s : SubnetState) (key : XOnlyPublicKey)
    (v : SubnetValidator)
    → get_subnet_genesis_info db id ≡ some g
    → get_subnet_state db id ≡ some s
    → find_validator key (latest_committee s) ≡ some v
    → g.create_subnet_msg.min_validator_stake ≤ v.collateral

validate_stake-Ignorable :
    (env : Env) (m : IpcStakeCollateralMsg) (s : SubnetState) (e : Error)
    → validate_stake env m s ≡ err e
    → Ignorable e
unfolding validate_stake is_ignorable
validate_stake-Ignorable env m s e h = ground arith

pub save_stake-NotFatal :
    (env : Env) (m : IpcStakeCollateralMsg) (db : Db) (height : ℕ) (hash : BlockHash) (txid : Txid)
    (e : Error)
    → HasMinimum db
    → save_stake env m db height hash txid ≡ err e
    → NotFatal e
unfolding save_stake is_ignorable
save_stake-NotFatal env m db height hash txid e least h =
    get-errors NotFatal (get_subnet_genesis_info db m.subnet_id) subnet_not_found _ e h (λ f. cc)
      λ g hg h.
        get-errors NotFatal (get_subnet_state db m.subnet_id) subnet_not_found _ e h (λ f. cc)
          λ s hs h.
            bind-errors NotFatal (validate_stake env m s) _ e h
              (λ h. Ignorable-NotFatal e (validate_stake-Ignorable env m s e h))
              λ _ _ h.
                get-errors NotFatal (find_validator m.pubkey (latest_committee s)) not_a_validator _
                  e h (λ f. cc)
                  λ v hv h.
                    let kept = least m.subnet_id g s m.pubkey v hg hs hv in
                    bind-errors NotFatal
                      (collateral_to_power (m.amount + v.collateral)
                        g.create_subnet_msg.min_validator_stake)
                      _ e h (λ h. absurd (enough_collateral _ _ e (ground arith) h))
                      λ power _ h.
                        bind-errors NotFatal
                          (modify_validator env (latest_committee s) m.subnet_id
                            (record v { collateral = m.amount + v.collateral; power = power }))
                          _ e h
                          (λ h _.
                            modify_validator-panic env (latest_committee s) m.subnet_id _ e
                              (found_validator m.pubkey (latest_committee s) v hv) h)
                          λ next _ h. cc
