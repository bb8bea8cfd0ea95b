-- ===== src/Rewards/Tracker.antt =====
-- src/rewards.rs: the tables of `DatabaseRewardExtensions` and `RewardTracker`, which records the
-- candidates of a snapshot, lowers their rewards as committees rotate, and sums them up at its end.
use bitcoin_ipc.Prelude.{
  ℕ, ◌+◌, ◌==◌, ltb, leb, Bool, false, not, ◌&&◌, Option, none, some, List, [], ◌∷◌, sum,
  if◌then◌else◌,
}
use bitcoin_ipc.Result.{Result, ok, err, ◌>>=◌, committee_missing}
use bitcoin_ipc.Types.{SubnetId, XOnlyPublicKey, Amount}
use bitcoin_ipc.Table.{Table, get, put, delete}
use bitcoin_ipc.Committee.{SubnetValidator, SubnetCommittee}
use bitcoin_ipc.Subnet.{SubnetState, SubnetGenesisInfo, SubnetKillState, killed_at}
use bitcoin_ipc.Records.{SubnetRewardInfo, SnapshotResult}
use bitcoin_ipc.Db.{Db, get_all_subnets, get_subnet_genesis_info, get_committee}
use bitcoin_ipc.Rewards.{RewardConfig, snapshot_boundaries_from_height}

abbrev pub Amounts : Type 0
Amounts = List (XOnlyPublicKey × Amount)

abbrev killed_by : SubnetKillState → ℕ → Bool
killed_by (killed_at parent_height) height_to = leb parent_height height_to
killed_by _ height_to = false

abbrev before : Option ℕ → ℕ → Bool
before none height = false
before (some genesis_height) height = leb genesis_height height

abbrev is_active_since : Option SubnetGenesisInfo → ℕ → Bool
is_active_since none height_from = false
is_active_since (some genesis) height_from =
    leb genesis.create_msg_block_height height_from
    && before genesis.genesis_block_height height_from

unfoldable pub is_active : Db → ℕ → ℕ → SubnetState → Bool
is_active db height_from height_to s =
    is_active_since (get_subnet_genesis_info db s.id) height_from
    && not (killed_by s.killed height_to)

unfoldable pub active_of : Db → ℕ → ℕ → List SubnetState → List SubnetState
unfolding is_active
active_of db height_from height_to [] = []
active_of db height_from height_to (s ∷ subnets) =
    let rest = active_of db height_from height_to subnets in
    if is_active db height_from height_to s then s ∷ rest else rest

unfoldable pub get_all_active_subnets : Db → ℕ → ℕ → List SubnetState
unfolding active_of
get_all_active_subnets db height_from height_to =
    active_of db height_from height_to (get_all_subnets db)

unfoldable pub get_reward_candidate_info : Db → ℕ → SubnetId → Option SubnetRewardInfo
get_reward_candidate_info db snapshot id = get id (db.reward_candidates snapshot)

abbrev set_candidates : Db → ℕ → Table SubnetRewardInfo → Db
set_candidates db snapshot table = record db {
  reward_candidates = λ n. if n == snapshot then table else db.reward_candidates n;
}

unfoldable pub put_reward_candidate_info : Db → ℕ → SubnetId → SubnetRewardInfo → Db
put_reward_candidate_info db snapshot id candidate =
    set_candidates db snapshot (put id candidate (db.reward_candidates snapshot))

unfoldable pub delete_reward_candidate_info : Db → ℕ → SubnetId → Db
delete_reward_candidate_info db snapshot id =
    set_candidates db snapshot (delete id (db.reward_candidates snapshot))

unfoldable pub put_snapshot_result : Db → ℕ → SnapshotResult → Db
put_snapshot_result db snapshot result = record db {
  reward_results = λ n. if n == snapshot then some result else db.reward_results n;
}

-- The validators with some collateral.
unfoldable pub collaterals : List SubnetValidator → Amounts
collaterals [] = []
collaterals (v ∷ validators) =
    let rest = collaterals validators in
    if ltb 0 v.collateral then (v.pubkey, v.collateral) ∷ rest else rest

abbrev amounts_or : Option Amounts → Option SubnetCommittee → Result Amounts
amounts_or (some amounts) committee = ok amounts
amounts_or none none = err committee_missing
amounts_or none (some committee) = ok (collaterals committee.validators)

unfoldable pub get_or_init_reward_amounts : Db → SubnetId → SubnetRewardInfo → Result Amounts
unfolding collaterals
get_or_init_reward_amounts db id info =
    amounts_or info.rewarded_amounts (get_committee db id info.most_recent_committee_number)

-- `entry(pk).and_modify(|a| *a += amt).or_insert(amt)`
unfoldable pub add_reward : XOnlyPublicKey → Amount → Amounts → Amounts
add_reward key amount [] = (key, amount) ∷ []
add_reward key amount ((other, total) ∷ totals) =
    if other == key
    then (other, total + amount) ∷ totals
    else (other, total) ∷ add_reward key amount totals

unfoldable pub add_rewards : Amounts → Amounts → Amounts
unfolding add_reward
add_rewards [] totals = totals
add_rewards ((key, amount) ∷ rewards) totals = add_rewards rewards (add_reward key amount totals)

-- The loop over the candidates.
unfoldable pub sum_candidates : Db → List (SubnetId × SubnetRewardInfo) → Amounts → Result Amounts
unfolding get_or_init_reward_amounts add_rewards
sum_candidates db [] totals = ok totals
sum_candidates db ((id, info) ∷ candidates) totals = do
  rewards_in_subnet ← get_or_init_reward_amounts db id info
  sum_candidates db candidates (add_rewards rewards_in_subnet totals)

abbrev pub amount_of : Amounts → Amount
amount_of rewards = sum (λ (r : XOnlyPublicKey × Amount). r.1) rewards

unfoldable pub put_candidates : ℕ → List SubnetState → Db → Db
unfolding put_reward_candidate_info
put_candidates snapshot [] db = db
put_candidates snapshot (s ∷ subnets) db = put_candidates snapshot subnets (
    put_reward_candidate_info db snapshot s.id
      (record { most_recent_committee_number = s.committee_number; rewarded_amounts = none }))

-- At the end of a snapshot; `HashMap::into_iter` may list the totals in another order.
unfoldable pub finalize : ℕ → Db → Result Db
unfolding sum_candidates put_snapshot_result
finalize snapshot db = do
  rewards_list ← sum_candidates db (db.reward_candidates snapshot) []
  ok (
      put_snapshot_result db snapshot (record {
        rewards_list = rewards_list;
        total_rewarded_collateral = amount_of rewards_list;
      }))

abbrev pub in_snapshot : Db → ℕ → Option (ℕ × ℕ × ℕ) → Result Db
in_snapshot db block_height none = ok db
in_snapshot db block_height (some (snapshot, start_height, end_height)) =
    let started =
      if block_height == start_height
      then put_candidates snapshot (get_all_active_subnets db start_height end_height) db
      else db in
    if block_height == end_height then finalize snapshot started else ok started

unfoldable pub update_after_block : RewardConfig → Db → ℕ → Result Db
unfolding put_candidates finalize get_all_active_subnets
update_after_block cfg db block_height =
    in_snapshot db block_height (snapshot_boundaries_from_height cfg block_height)
