-- ===== src/Tests/Rewards.antt =====
-- Tests and examples on the rewards of a snapshot.
use bitcoin_ipc.Prelude.{◌==◌, ◌≡◌, refl, some, none, [], ◌∷◌, sum, if◌then◌else◌}
use bitcoin_ipc.Result.{ok}
use bitcoin_ipc.Table.{get}
use bitcoin_ipc.Committee.{SubnetCommittee}
use bitcoin_ipc.Records.{SubnetCheckpoint, SubnetRewardInfo, SnapshotResult}
use bitcoin_ipc.Db.{Db, get_committee}
use bitcoin_ipc.Rewards.{RewardConfig, snapshot_boundaries_from_height}
use bitcoin_ipc.Rewards.Tracker.{
  Amounts, collaterals, get_or_init_reward_amounts, get_reward_candidate_info, amount_of, finalize,
}
use bitcoin_ipc.Rewards.Rotated.{
  collected, min_both, lower_rewards, update_after_checkpoint, update_after_checkpoint_lowers,
}
use bitcoin_ipc.Rewards.Totals.{
  rewarded, IsListedOnce, listed, candidate_rewards, finalize-rewarded,
}
use bitcoin_ipc.Tests.Values.{bob, alice_and_bob, checkpoint, state, database}

-- Snapshots of ten blocks from 100 on.
abbrev cfg : RewardConfig
cfg = record { activation_height = 100; snapshot_length = 10 }

-- Bob alone, with less collateral.
abbrev only_bob : SubnetCommittee
only_bob = record {
  configuration_number = 1;
  threshold = 100;
  validators = (record bob { collateral = 1_500_000 }) ∷ [];
  multisig_address = 5;
}

abbrev untouched : SubnetRewardInfo
untouched = record { most_recent_committee_number = 1; rewarded_amounts = none }

abbrev db : Db
db = record (database (state alice_and_bob (some 0)) []) {
  reward_candidates = λ snapshot.
      (7, untouched) ∷ (8, record untouched { rewarded_amounts = some ((2, 50) ∷ []) }) ∷ [];
  committees = λ id n. if n == 1 then some alice_and_bob else some only_bob;
}

abbrev rotation : SubnetCheckpoint
rotation = record checkpoint { next_committee_number = 2 }

boundaries : snapshot_boundaries_from_height cfg 123 ≡ some (2, 120, 129)
unfolding snapshot_boundaries_from_height
boundaries = refl

candidate : get_reward_candidate_info db 2 7 ≡ some untouched
unfolding get_reward_candidate_info get
candidate = refl

abbrev initial : Amounts
initial = (1, 3_000_000) ∷ (2, 2_000_000) ∷ []

initial-rewards : get_or_init_reward_amounts db 7 untouched ≡ ok initial
unfolding get_or_init_reward_amounts get_committee
initial-rewards = refl

stored : get_committee db 7 2 ≡ some only_bob
unfolding get_committee
stored = refl

lowers : lower_rewards (collaterals only_bob.validators) initial ≡ (2, 1_500_000) ∷ []
unfolding lower_rewards collaterals
lowers = refl

update_after_checkpoint_lowers_example :
    (db' : Db) × (new : Amounts) × (update_after_checkpoint cfg db 123 7 rotation ≡ ok db')
    × (get_reward_candidate_info db' 2 7
        ≡ some (record { most_recent_committee_number = 2; rewarded_amounts = some new }))
    × (collected 2 new
        ≡ min_both (collected 2 initial) (collected 2 (collaterals only_bob.validators)))
    × (get_reward_candidate_info db' 2 8 ≡ get_reward_candidate_info db 2 8)
update_after_checkpoint_lowers_example =
    update_after_checkpoint_lowers cfg db 123 7 rotation 2 120 129 untouched initial only_bob 2 8
      boundaries refl refl refl candidate refl initial-rewards stored refl

abbrev rewards : SnapshotResult
rewards = record {
  rewards_list = (1, 3_000_000) ∷ (2, 2_000_050) ∷ [];
  total_rewarded_collateral = 5_000_050;
}

abbrev finalized : Db
finalized = record db { reward_results = λ n. if n == 2 then some rewards else none }

finalizes : finalize 2 db ≡ ok finalized
unfolding finalize get_committee
finalizes = refl

finalize-rewarded_example :
    (result : SnapshotResult) × (finalized.reward_results 2 ≡ some result)
    × IsListedOnce result.rewards_list
    × (listed 2 result.rewards_list
        ≡ sum (λ c. rewarded 2 (candidate_rewards db c)) (db.reward_candidates 2))
    × (result.total_rewarded_collateral
        ≡ sum (λ c. amount_of (candidate_rewards db c)) (db.reward_candidates 2))
    × (finalized.reward_results 3 ≡ db.reward_results 3)
finalize-rewarded_example = finalize-rewarded 2 3 2 db finalized refl finalizes
