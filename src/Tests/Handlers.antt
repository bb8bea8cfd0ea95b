-- ===== src/Tests/Handlers.antt =====
-- Tests and examples on the handlers of the messages.
use bitcoin_ipc.Prelude.{ℕ, ◌≡◌, refl, true, false, none, some, [], ◌∷◌, any, ◌==◌}
use bitcoin_ipc.Result.{ok}
use bitcoin_ipc.Table.{get}
use bitcoin_ipc.Multisig.{multisig_threshold}
use bitcoin_ipc.Committee.{
  SubnetValidator, SubnetCommittee, same_committee, total_power, is_member, is_validator,
}
use bitcoin_ipc.Subnet.{SubnetState, latest_committee, to_be_killed}
use bitcoin_ipc.Records.{SubnetCheckpoint, StakeChangeRequest, KillRequest, deposit}
use bitcoin_ipc.Db.{
  Db, get_subnet_genesis_info, get_subnet_state, save_subnet_state, save_checkpoint,
}
use bitcoin_ipc.Db.StakeChanges.{get_stake_change}
use bitcoin_ipc.Db.KillRequests.{add_kill_request, get_valid_kill_requests}
use bitcoin_ipc.Msg.Stake.{find_validator, stake_change}
use bitcoin_ipc.Msg.Kill.{
  validate_kill, kill_request, kill_request_power, mark_for_kill, majority_reached, save_kill,
}
use bitcoin_ipc.Msg.Kill.Requests.{valid_requests}
use bitcoin_ipc.Msg.Kill.Majority.{Outcome, save_kill-majority}
use bitcoin_ipc.Msg.Unstake.{validator_key}
use bitcoin_ipc.Msg.Checkpoint.{
  IpcCheckpointSubnetMsg, selected_change, new_checkpoint, next_checkpoint_number, next_numbers,
  checkpointed_state, save_rotation, save_checkpoint_msg,
}
use bitcoin_ipc.Msg.Checkpoint.Described.{IsRecordOf}
use bitcoin_ipc.Msg.Checkpoint.Recorded.{Recorded, save_checkpoint_msg-Recorded}
use bitcoin_ipc.Msg.Checkpoint.Rotation.{
  IsRotated, IsSkipped, save_checkpoint_msg_rotates, save_checkpoint_msg_skips,
}
use bitcoin_ipc.Tests.Values.{env, bob, alice_and_bob, only_alice, state, database}

-- alice has a majority of the power by herself.
abbrev killed_db : Db
killed_db =
    save_subnet_state
      (add_kill_request (database (state only_alice (some 0)) []) 7 (kill_request 1 130 11 12)) 7
      (record (state only_alice (some 0)) {
        killed = to_be_killed;
        marked_for_kill_checkpoint_number = some 0;
      })

save_kill-majority_example :
    (key : ℕ) × (v : SubnetValidator) × (some 1 ≡ some key)
    × (find_validator key (latest_committee (state only_alice (some 0))) ≡ some v)
    × (any
          (λ (r : KillRequest). r.validator_xpk == key)
          (valid_requests env 130 ((database (state only_alice (some 0)) []).kill_requests 7))
        ≡ false)
    × Outcome env
        (database (state only_alice (some 0)) [])
        7
        130
        (kill_request key 130 11 12)
        (state only_alice (some 0))
        killed_db
unfolding save_kill get_subnet_genesis_info get_subnet_state get validate_kill validator_key
    is_validator is_member latest_committee find_validator get_valid_kill_requests majority_reached
    multisig_threshold total_power kill_request_power mark_for_kill
save_kill-majority_example =
    save_kill-majority env (record { subnet_id = 7; pubkey = some 1 })
      (database (state only_alice (some 0)) []) killed_db 130 11 12 (state only_alice (some 0)) refl
      refl

-- The second checkpoint, which kills the subnet.
abbrev kill_checkpoint : IpcCheckpointSubnetMsg
kill_checkpoint = record {
  subnet_id = 7;
  checkpoint_hash = 9;
  checkpoint_height = 20;
  next_committee_configuration_number = 0;
  withdrawals = [];
  transfers = [];
  token_registrations = [];
  token_supply_adjustments = [];
  token_transfers = [];
  unstakes = [];
  change_address = none;
  is_kill_checkpoint = true;
}

abbrev second_checkpoint : SubnetCheckpoint
second_checkpoint = new_checkpoint kill_checkpoint (state only_alice (some 0)) none 130 12

abbrev second_db : Db
second_db =
    save_checkpoint
      (save_subnet_state (database (state only_alice (some 0)) []) 7
        (checkpointed_state kill_checkpoint (state only_alice (some 0)) none 130))
      7 second_checkpoint 1

save_checkpoint_msg-Recorded_example :
    IsRecordOf kill_checkpoint
      (database (state only_alice (some 0)) [])
      130
      12
      (state only_alice (some 0))
      second_checkpoint
    × Recorded kill_checkpoint 130 11 12
        (state only_alice (some 0))
        (database (state only_alice (some 0)) [])
        second_checkpoint
        second_db
unfolding save_checkpoint_msg get_subnet_state get selected_change new_checkpoint
    next_checkpoint_number save_rotation next_numbers
save_checkpoint_msg-Recorded_example =
    save_checkpoint_msg-Recorded kill_checkpoint (database (state only_alice (some 0)) []) second_db
      130 11 12 (state only_alice (some 0)) second_checkpoint refl refl

-- The first stake change of the subnet, after which the committee is `next`.
abbrev first_change : SubnetCommittee → StakeChangeRequest
first_change next = stake_change (deposit 2_000_000) bob 2 next 1 121 10 9

abbrev rotating_checkpoint : IpcCheckpointSubnetMsg
rotating_checkpoint = record {
  subnet_id = 7;
  checkpoint_hash = 9;
  checkpoint_height = 20;
  next_committee_configuration_number = 1;
  withdrawals = [];
  transfers = [];
  token_registrations = [];
  token_supply_adjustments = [];
  token_transfers = [];
  unstakes = [];
  change_address = none;
  is_kill_checkpoint = false;
}

abbrev rotating_db : SubnetCommittee → Db
rotating_db next = database (state only_alice (some 0)) ((1, first_change next) ∷ [])

save_checkpoint_msg_rotates_example :
    (c : SubnetCheckpoint) × (db' : Db) × (s' : SubnetState) × (save_checkpoint_msg
        rotating_checkpoint
        (rotating_db alice_and_bob)
        130
        11
        12
      ≡ ok (c, db'))
    × (get_subnet_state db' 7 ≡ some s')
    × IsRotated rotating_checkpoint (first_change alice_and_bob) c db' s'
unfolding get_subnet_state get selected_change get_stake_change same_committee stake_change
save_checkpoint_msg_rotates_example =
    save_checkpoint_msg_rotates rotating_checkpoint (rotating_db alice_and_bob) 130 11 12
      (state only_alice (some 0)) (first_change alice_and_bob) refl refl refl

-- The change left alice's power, and with it the address, as it was.
save_checkpoint_msg_skips_example :
    (c : SubnetCheckpoint) × (db' : Db) × (s' : SubnetState) × (save_checkpoint_msg
        rotating_checkpoint
        (rotating_db only_alice)
        130
        11
        12
      ≡ ok (c, db'))
    × (get_subnet_state db' 7 ≡ some s')
    × IsSkipped (state only_alice (some 0)) c s'
unfolding get_subnet_state get selected_change get_stake_change same_committee stake_change
save_checkpoint_msg_skips_example =
    save_checkpoint_msg_skips rotating_checkpoint (rotating_db only_alice) 130 11 12
      (state only_alice (some 0)) (first_change only_alice) refl refl refl
