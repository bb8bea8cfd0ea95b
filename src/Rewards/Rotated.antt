-- ===== src/Rewards/Rotated.antt =====
-- src/rewards.rs: `RewardTracker::update_after_checkpoint`.
use bitcoin_ipc.Prelude.{
  ℕ, ◌==◌, ◌≡◌, refl, ap, sym, ◌∙◌, min, Bool, true, false, Option, none, some, [], ◌∷◌,
  if◌then◌else◌, arith, ==_iff,
}
use bitcoin_ipc.Result.{Result, ok, ◌>>=◌, ok_or, committee_missing}
use bitcoin_ipc.Types.{SubnetId, XOnlyPublicKey, Amount}
use bitcoin_ipc.Table.{get-put}
use bitcoin_ipc.Committee.{SubnetCommittee}
use bitcoin_ipc.Records.{SubnetCheckpoint, SubnetRewardInfo}
use bitcoin_ipc.Db.{Db, get_committee}
use bitcoin_ipc.Rewards.{RewardConfig, snapshot_boundaries_from_height}
use bitcoin_ipc.Rewards.Tracker.{
  Amounts, collaterals, get_or_init_reward_amounts, get_reward_candidate_info,
  put_reward_candidate_info, delete_reward_candidate_info,
}

abbrev or_if : Option Amount → Bool → Amount → Option Amount
or_if (some a) b c = some a
or_if none b c = if b then some c else none

-- Looking up in a `HashMap` collected from a list, where the last entry of a key wins.
unfoldable pub collected : XOnlyPublicKey → Amounts → Option Amount
collected key [] = none
collected key ((other, amount) ∷ rest) = or_if (collected key rest) (other == key) amount

abbrev lowered : XOnlyPublicKey → Amount → Option Amount → Amounts → Amounts
lowered key rewarded none rest = rest
lowered key rewarded (some new) rest = (key, min rewarded new) ∷ rest

-- The `filter_map` of the rewards.
unfoldable pub lower_rewards : Amounts → Amounts → Amounts
unfolding collected
lower_rewards new_committee_collaterals [] = []
lower_rewards new_committee_collaterals ((key, rewarded) ∷ rewards) =
    lowered key rewarded (collected key new_committee_collaterals)
      (lower_rewards new_committee_collaterals rewards)

unfoldable pub rotate_candidate :
    Db → ℕ → SubnetId → SubnetCheckpoint → SubnetRewardInfo → Result Db
unfolding lower_rewards
rotate_candidate db snapshot id checkpoint info = do
  rewards_in_subnet ← get_or_init_reward_amounts db id info
  new_committee ← ok_or (get_committee db id checkpoint.next_committee_number) committee_missing
  ok (
      put_reward_candidate_info db snapshot id (record {
        most_recent_committee_number = checkpoint.next_committee_number;
        rewarded_amounts =
            some (lower_rewards (collaterals new_committee.validators) rewards_in_subnet);
      }))

abbrev rotate_if_candidate :
    Db → ℕ → SubnetId → SubnetCheckpoint → Option SubnetRewardInfo → Result Db
rotate_if_candidate db snapshot id checkpoint none = ok db
rotate_if_candidate db snapshot id checkpoint (some info) =
    if checkpoint.next_committee_number == info.most_recent_committee_number
    then ok db
    else rotate_candidate db snapshot id checkpoint info

unfoldable pub checkpoint_in_snapshot :
    Db → ℕ → SubnetId → SubnetCheckpoint → Option (ℕ × ℕ × ℕ) → Result Db
unfolding rotate_candidate
checkpoint_in_snapshot db block_height id checkpoint none = ok db
checkpoint_in_snapshot db block_height id checkpoint (some (snapshot, start_height, end_height)) =
    if block_height == start_height
    then ok db
    else if checkpoint.is_kill_checkpoint
    then ok (delete_reward_candidate_info db snapshot id)
    else if checkpoint.signed_committee_number == checkpoint.next_committee_number
    then ok db
    else rotate_if_candidate db snapshot id checkpoint (get_reward_candidate_info db snapshot id)

unfoldable pub update_after_checkpoint :
    RewardConfig → Db → ℕ → SubnetId → SubnetCheckpoint → Result Db
unfolding checkpoint_in_snapshot
update_after_checkpoint cfg db block_height id checkpoint =
    checkpoint_in_snapshot db block_height id checkpoint
      (snapshot_boundaries_from_height cfg block_height)

-- The smaller of two amounts, if there are both.
abbrev pub min_both : Option Amount → Option Amount → Option Amount
min_both (some a) (some b) = some (min a b)
min_both _ _ = none

min_both-none : (x : Option Amount) → min_both x none ≡ none
min_both-none none = refl
min_both-none (some a) = refl

or_if-false : (x : Option Amount) (c : Amount) → or_if x false c ≡ x
or_if-false none c = refl
or_if-false (some a) c = refl

or_if-min_both :
    (x : Option Amount) (r b : Amount)
    → or_if (min_both x (some b)) true (min r b) ≡ min_both (or_if x true r) (some b)
or_if-min_both none r b = refl
or_if-min_both (some a) r b = refl

collected-lowered :
    (key other r : ℕ) (x y next : Option Amount) (rest : Amounts) (same : Bool)
    → (other == key) ≡ same
    → (same ≡ true → next ≡ y)
    → collected key rest ≡ min_both x y
    → collected key (lowered other r next rest) ≡ min_both (or_if x same r) y
unfolding collected
collected-lowered key other r x y none rest true e h ih =
    ih
    ∙ ap (min_both x) (sym (h refl))
    ∙ min_both-none x
    ∙ sym (min_both-none (or_if x true r))
    ∙ ap (min_both (or_if x true r)) (h refl)
collected-lowered key other r x y (some b) rest true e h ih =
    rw (e, ih, ← h refl) (or_if-min_both x r b)
collected-lowered key other r x y none rest false e h ih =
    ih ∙ ap (λ z. min_both z y) (sym (or_if-false x r))
collected-lowered key other r x y (some b) rest false e h ih =
    rw e (or_if-false (collected key rest) (min r b))
    ∙ ih
    ∙ ap (λ z. min_both z y) (sym (or_if-false x r))

collected-lower_rewards :
    (key : XOnlyPublicKey) (new old : Amounts)
    → collected key (lower_rewards new old) ≡ min_both (collected key old) (collected key new)
unfolding lower_rewards collected
collected-lower_rewards key new [] = refl
collected-lower_rewards key new ((other, r) ∷ old) =
    collected-lowered key other r (collected key old) (collected key new) (collected other new)
      (lower_rewards new old) (other == key) refl
      (λ e. ap (λ k. collected k new) ((==_iff other key).0 e))
      (collected-lower_rewards key new old)

-- A checkpoint within a snapshot, after its first block, that rotates to another committee lowers the
-- rewards of a candidate subnet: a validator keeps a reward if it had one and has collateral in the
-- new committee, the smaller of the two amounts. The candidate remembers the new committee, and other
-- candidates stay. The checkpoint does not kill the subnet, and both committees are stored.
pub update_after_checkpoint_lowers :
    (cfg : RewardConfig) (db : Db) (block_height : ℕ) (id : SubnetId)
    (checkpoint : SubnetCheckpoint) (snapshot start_height end_height : ℕ) (info : SubnetRewardInfo)
    (old : Amounts) (c : SubnetCommittee) (key : XOnlyPublicKey) (other : SubnetId)
    → snapshot_boundaries_from_height cfg block_height ≡ some (snapshot, start_height, end_height)
    → (block_height == start_height) ≡ false
    → checkpoint.is_kill_checkpoint ≡ false
    → (checkpoint.signed_committee_number == checkpoint.next_committee_number) ≡ false
    → get_reward_candidate_info db snapshot id ≡ some info
    → (checkpoint.next_committee_number == info.most_recent_committee_number) ≡ false
    → get_or_init_reward_amounts db id info ≡ ok old
    → get_committee db id checkpoint.next_committee_number ≡ some c
    → (id == other) ≡ false
    → (db' : Db) × (new : Amounts) × (update_after_checkpoint cfg db block_height id checkpoint
        ≡ ok db')
      × (get_reward_candidate_info db' snapshot id
          ≡ some (record {
            most_recent_committee_number = checkpoint.next_committee_number;
            rewarded_amounts = some new;
          }))
      × (collected key new
          ≡ min_both (collected key old) (collected key (collaterals c.validators)))
      × (get_reward_candidate_info db' snapshot other ≡ get_reward_candidate_info db snapshot other)
unfolding update_after_checkpoint get_reward_candidate_info put_reward_candidate_info
update_after_checkpoint_lowers cfg db block_height id checkpoint snapshot start_height end_height
      info old c key other bounds later alive rotated found fresh rewards stored ne =
    let new = lower_rewards (collaterals c.validators) old in
    let candidate : SubnetRewardInfo = record {
      most_recent_committee_number = checkpoint.next_committee_number;
      rewarded_amounts = some new;
    } in
    let table = db.reward_candidates snapshot in
    (
      put_reward_candidate_info db snapshot id candidate,
      new,
      rw (bounds, later, alive, rotated, found, fresh, rewards, stored) refl,
      rw (same_key snapshot) (get-put id id candidate table ∙ rw (same_key id) refl),
      collected-lower_rewards key (collaterals c.validators) old,
      rw (same_key snapshot) (get-put id other candidate table ∙ rw ne refl),
    )
  where
    same_key : (n : ℕ) → (n == n) ≡ true
    same_key n = ground arith
