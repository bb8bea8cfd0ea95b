-- ===== src/Tests/Stakes.antt =====
-- Tests and examples on joins, stakes and withdrawals.
use bitcoin_ipc.Prelude.{arith, ◌≡◌, refl, none, some, [], ◌∷◌}
use bitcoin_ipc.Result.{ok, err, panic}
use bitcoin_ipc.Table.{get, empty-IsDense}
use bitcoin_ipc.Multisig.{
  collateral_to_power, multisig_threshold, create_subnet_multisig_address, check_total_weight,
  sort_committee_keys, insert_key,
}
use bitcoin_ipc.Committee.{
  SubnetCommittee, total_power, threshold, weighted_keys, multisig_address, is_member, is_validator,
  replace_key, to_committee, modify_validator,
}
use bitcoin_ipc.Subnet.{
  SubnetState, latest_committee, total_collateral, enough_to_bootstrap, is_killed_or_pending,
}
use bitcoin_ipc.Records.{deposit, withdraw, join}
use bitcoin_ipc.Db.{Db, get_subnet_genesis_info, get_subnet_state, save_subnet_state}
use bitcoin_ipc.Db.StakeChanges.{
  add_stake_change, get_last_stake_change_configuration_number,
  get_next_stake_change_configuration_number,
}
use bitcoin_ipc.Db.Numbering.{IsNumbered}
use bitcoin_ipc.Msg.Stake.{validate_stake, find_validator, stake_change, save_stake}
use bitcoin_ipc.Msg.Reachable.{NumberedFrom, Steps-NumberedFrom, step, done, stake}
use bitcoin_ipc.Msg.Unstake.{validator_key}
use bitcoin_ipc.Msg.Unstake.{participation, remaining_power, validate_unstake, save_unstake}
use bitcoin_ipc.Msg.Unstake.LastValidator.{save_unstake_last_validator}
use bitcoin_ipc.Msg.Join.{IpcJoinSubnetMsg, join_change, join_genesis}
use bitcoin_ipc.Msg.Join.Bootstrap.{IsBootstrapped, with_validator, join_genesis_bootstraps}
use bitcoin_ipc.Tests.Values.{
  env, alice, bob, carol, validator, alice_and_bob, only_alice, state, database, genesis,
}

-- Before any stake change.
start-IsNumbered : IsNumbered (database (state alice_and_bob none) []) 7 (state alice_and_bob none)
unfolding get_subnet_state get latest_committee
start-IsNumbered = record { stored = refl; dense = empty-IsDense 1 }

-- bob deposits as much again.
abbrev more_of_bob : SubnetCommittee
more_of_bob = record {
  configuration_number = 1;
  threshold = 467;
  validators = alice ∷ validator 2 400 4_000_000 ∷ [];
  multisig_address = 1177;
}

abbrev staked_db : Db
staked_db =
    add_stake_change
      (save_subnet_state (database (state alice_and_bob none) []) 7
        (record (state alice_and_bob none) { waiting_committee = some more_of_bob }))
      7 (stake_change (deposit 2_000_000) (validator 2 400 4_000_000) 2 more_of_bob 1 130 11 12)

stake_saved :
    save_stake env
      (record { subnet_id = 7; amount = 2_000_000; pubkey = 2 })
      (database (state alice_and_bob none) [])
      130
      11
      12
    ≡ ok staked_db
unfolding save_stake get_subnet_genesis_info get_subnet_state get validate_stake
    is_killed_or_pending is_validator is_member latest_committee find_validator collateral_to_power
    modify_validator replace_key to_committee multisig_address create_subnet_multisig_address
    check_total_weight sort_committee_keys insert_key threshold total_power weighted_keys
    multisig_threshold get_next_stake_change_configuration_number
    get_last_stake_change_configuration_number
stake_saved = refl

start-NumberedFrom : NumberedFrom 0 7 (database (state alice_and_bob none) [])
unfolding NumberedFrom
start-NumberedFrom = (state alice_and_bob none, start-IsNumbered, omega arith)

Steps-NumberedFrom_example : NumberedFrom 0 7 staked_db
Steps-NumberedFrom_example =
    Steps-NumberedFrom env 7 0
      (step
        (stake (record { subnet_id = 7; amount = 2_000_000; pubkey = 2 }) 130 11 12 refl
          stake_saved)
        done)
      start-NumberedFrom

-- bob withdraws half of his stake.
abbrev less_of_bob : SubnetCommittee
less_of_bob = record {
  configuration_number = 1;
  threshold = 267;
  validators = alice ∷ validator 2 100 1_000_000 ∷ [];
  multisig_address = 677;
}

abbrev unstaked_db : Db
unstaked_db =
    add_stake_change
      (save_subnet_state (database (state alice_and_bob none) []) 7
        (record (state alice_and_bob none) { waiting_committee = some less_of_bob }))
      7 (stake_change (withdraw 1_000_000) (validator 2 100 1_000_000) 2 less_of_bob 1 130 11 12)

-- alice, the only validator, withdraws all.
save_unstake_last_validator_example :
    save_unstake env
      (record { subnet_id = 7; amount = 3_000_000; pubkey = some 1 })
      (database (state only_alice none) [])
      130
      11
      12
    ≡ err panic
unfolding total_collateral validator_key remaining_power participation collateral_to_power
    validate_unstake get_subnet_genesis_info get_subnet_state get is_killed_or_pending is_validator
    is_member latest_committee find_validator
save_unstake_last_validator_example =
    save_unstake_last_validator env (record { subnet_id = 7; amount = 3_000_000; pubkey = some 1 })
      (database (state only_alice none) []) 130 11 12 (genesis (alice ∷ [])) (state only_alice none)
      alice refl refl refl refl refl refl

-- carol joins the running subnet.
abbrev with_carol : SubnetCommittee
with_carol = record {
  configuration_number = 2;
  threshold = 401;
  validators = alice ∷ bob ∷ carol ∷ [];
  multisig_address = 1014;
}

abbrev carol_joins : IpcJoinSubnetMsg
carol_joins = record {
  subnet_id = 7;
  collateral = 1_000_000;
  ip = 0;
  backup_address = 0;
  pubkey = 3;
}

abbrev joined_db : Db
joined_db =
    add_stake_change
      (add_stake_change
        (save_subnet_state (database (state alice_and_bob none) []) 7
          (record (state alice_and_bob none) { waiting_committee = some with_carol }))
        7 (join_change env carol_joins with_carol (join 3) 1 130 11 12))
      7 (join_change env carol_joins with_carol (deposit 1_000_000) 2 130 11 12)

-- bob is the second of the two validators that the subnet asks for.
join_genesis_bootstraps_example :
    (s : SubnetState) × (db' : Db) × (join_genesis env
        (record { subnet_id = 7; collateral = 2_000_000; ip = 0; backup_address = 0; pubkey = 2 })
        (database (state only_alice none) [])
        (genesis (alice ∷ []))
        bob
        130
      ≡ ok (some s, db'))
    × IsBootstrapped 7 (with_validator (genesis (alice ∷ [])) bob) 130 db' s
unfolding enough_to_bootstrap multisig_address create_subnet_multisig_address check_total_weight
    sort_committee_keys insert_key threshold total_power weighted_keys multisig_threshold
join_genesis_bootstraps_example =
    join_genesis_bootstraps env
      (record { subnet_id = 7; collateral = 2_000_000; ip = 0; backup_address = 0; pubkey = 2 })
      (database (state only_alice none) []) (genesis (alice ∷ [])) bob 130 844 refl refl
