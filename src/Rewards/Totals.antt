-- ===== src/Rewards/Totals.antt =====
-- src/rewards.rs: the result of a snapshot, and the rewards of its candidates.
use bitcoin_ipc.Prelude.{
  ℕ, ◌+◌, ◌==◌, ◌≡◌, refl, ap, sym, subst, ◌∙◌, true, false, none, some, List, [], ◌∷◌, sum, inl,
  inr, Bool-cases, if◌then◌else◌, arith,
}
use bitcoin_ipc.Result.{Result, ok, err, >>=-elim, ok-injective}
use bitcoin_ipc.Types.{SubnetId, XOnlyPublicKey, Amount}
use bitcoin_ipc.Records.{SubnetRewardInfo, SnapshotResult}
use bitcoin_ipc.Table.{get}
use bitcoin_ipc.Subnet.{unwrap_or}
use bitcoin_ipc.Db.{Db}
use bitcoin_ipc.Rewards.Tracker.{
  Amounts, get_or_init_reward_amounts, add_reward, add_rewards, sum_candidates, amount_of, finalize,
  put_snapshot_result,
}

-- What a validator gets over all the entries of a list.
abbrev pub rewarded : XOnlyPublicKey → Amounts → Amount
rewarded key rewards = sum (λ (r : XOnlyPublicKey × Amount). if r.0 == key then r.1 else 0) rewards

rewarded-add_reward :
    (key k : XOnlyPublicKey) (amount : Amount) (totals : Amounts)
    → rewarded key (add_reward k amount totals)
      ≡ rewarded key totals + (if k == key then amount else 0)
unfolding add_reward
rewarded-add_reward key k amount [] = omega arith
rewarded-add_reward key k amount ((other, total) ∷ totals) =
    ground (arith, rewarded-add_reward key k amount totals)

rewarded-add_rewards :
    (key : XOnlyPublicKey) (rewards totals : Amounts)
    → rewarded key (add_rewards rewards totals) ≡ rewarded key totals + rewarded key rewards
unfolding add_rewards
rewarded-add_rewards key [] totals = omega arith
rewarded-add_rewards key ((k, amount) ∷ rewards) totals = omega (
  arith,
  rewarded-add_rewards key rewards (add_reward k amount totals),
  rewarded-add_reward key k amount totals,
)

amount_of-add_reward :
    (k : XOnlyPublicKey) (amount : Amount) (totals : Amounts)
    → amount_of (add_reward k amount totals) ≡ amount_of totals + amount
unfolding add_reward
amount_of-add_reward k amount [] = omega arith
amount_of-add_reward k amount ((other, total) ∷ totals) =
    ground (arith, amount_of-add_reward k amount totals)

amount_of-add_rewards :
    (rewards totals : Amounts)
    → amount_of (add_rewards rewards totals) ≡ amount_of totals + amount_of rewards
unfolding add_rewards
amount_of-add_rewards [] totals = omega arith
amount_of-add_rewards ((k, amount) ∷ rewards) totals = omega (
  arith,
  amount_of-add_rewards rewards (add_reward k amount totals),
  amount_of-add_reward k amount totals,
)

abbrev amounts_of : Result Amounts → Amounts
amounts_of (ok rewards) = rewards
amounts_of (err why) = []

-- The rewards of a candidate, by themselves.
abbrev pub candidate_rewards : Db → SubnetId × SubnetRewardInfo → Amounts
candidate_rewards db (id, info) = amounts_of (get_or_init_reward_amounts db id info)

sum_candidates-rewarded :
    (db : Db) (key : XOnlyPublicKey) (candidates : List (SubnetId × SubnetRewardInfo))
    (totals : Amounts) {r : Amounts}
    → sum_candidates db candidates totals ≡ ok r
    → (rewarded key r
        ≡ rewarded key totals + sum (λ c. rewarded key (candidate_rewards db c)) candidates)
      × (amount_of r ≡ amount_of totals + sum (λ c. amount_of (candidate_rewards db c)) candidates)
unfolding sum_candidates
sum_candidates-rewarded db key [] totals e = (
  omega (arith, ap (rewarded key) (ok-injective e)),
  omega (arith, ap amount_of (ok-injective e)),
)
sum_candidates-rewarded db key ((id, info) ∷ candidates) totals e =
    >>=-elim (get_or_init_reward_amounts db id info) _ e λ rewards h e₁.
      let (each, all) = sum_candidates-rewarded db key candidates (add_rewards rewards totals) e₁ in
      let own = ap amounts_of h in
      (
        omega (arith, each, rewarded-add_rewards key rewards totals, ap (rewarded key) own),
        omega (arith, all, amount_of-add_rewards rewards totals, ap amount_of own),
      )

-- No key is listed twice.
abbrev pub IsListedOnce : Amounts → Type 0
IsListedOnce [] = Unit
IsListedOnce ((key, amount) ∷ rewards) = (get key rewards ≡ none) × IsListedOnce rewards

get-add_reward :
    (key k : XOnlyPublicKey) (amount : Amount) (totals : Amounts)
    → (k == key) ≡ false
    → get key (add_reward k amount totals) ≡ get key totals
unfolding add_reward get
get-add_reward key k amount [] ne = rw ne refl
get-add_reward key k amount ((other, total) ∷ totals) ne =
    ground (arith, get-add_reward key k amount totals ne)

add_reward-IsListedOnce :
    (k : XOnlyPublicKey) (amount : Amount) (totals : Amounts)
    → IsListedOnce totals
    → IsListedOnce (add_reward k amount totals)
unfolding add_reward get
add_reward-IsListedOnce k amount [] h = (refl, tt)
add_reward-IsListedOnce k amount ((other, total) ∷ totals) (fresh, h) =
    elim (Bool-cases (other == k)) [
      | inl e ↦ rw e (fresh, h)
      | inr e ↦ rw e (
        get-add_reward other k amount totals (ground arith) ∙ fresh,
        add_reward-IsListedOnce k amount totals h,
      )
    ]

add_rewards-IsListedOnce :
    (rewards totals : Amounts) → IsListedOnce totals → IsListedOnce (add_rewards rewards totals)
unfolding add_rewards
add_rewards-IsListedOnce [] totals h = h
add_rewards-IsListedOnce ((k, amount) ∷ rewards) totals h =
    add_rewards-IsListedOnce rewards (add_reward k amount totals)
      (add_reward-IsListedOnce k amount totals h)

sum_candidates-IsListedOnce :
    (db : Db) (candidates : List (SubnetId × SubnetRewardInfo)) (totals : Amounts) {r : Amounts}
    → IsListedOnce totals
    → sum_candidates db candidates totals ≡ ok r
    → IsListedOnce r
unfolding sum_candidates
sum_candidates-IsListedOnce db [] totals h e = subst IsListedOnce (ok-injective e) h
sum_candidates-IsListedOnce db ((id, info) ∷ candidates) totals h e =
    >>=-elim (get_or_init_reward_amounts db id info) _ e λ rewards found e₁.
      sum_candidates-IsListedOnce db candidates (add_rewards rewards totals)
        (add_rewards-IsListedOnce rewards totals h) e₁

-- What a key is listed with; a key that is not listed gets nothing.
abbrev pub listed : XOnlyPublicKey → Amounts → Amount
listed key rewards = unwrap_or (get key rewards) 0

rewarded-absent :
    (key : XOnlyPublicKey) (rewards : Amounts) → get key rewards ≡ none → rewarded key rewards ≡ 0
unfolding get
rewarded-absent key [] h = refl
rewarded-absent key ((k, amount) ∷ rewards) h = ground (arith, rewarded-absent key rewards)

listed-eq-rewarded :
    (key : XOnlyPublicKey) (rewards : Amounts)
    → IsListedOnce rewards
    → listed key rewards ≡ rewarded key rewards
unfolding get
listed-eq-rewarded key [] h = refl
listed-eq-rewarded key ((k, amount) ∷ rewards) (fresh, h) = elim (Bool-cases (k == key)) [
  | inl e ↦
      let same : k ≡ key = ground arith in
      let none_left = rewarded-absent key rewards (subst (λ j. get j rewards ≡ none) same fresh) in
      rw e (omega (arith, none_left))
  | inr e ↦ rw e (omega (arith, listed-eq-rewarded key rewards h))
]

-- The result that the end of a snapshot stores: no validator is listed twice, each is listed with
-- the sum of its rewards in all the candidate subnets, or not at all if that is zero, and the total
-- is the sum of all their rewards. The result of another snapshot stays.
pub finalize-rewarded :
    (snapshot other : ℕ) (key : XOnlyPublicKey) (db db' : Db)
    → (other == snapshot) ≡ false
    → finalize snapshot db ≡ ok db'
    → (result : SnapshotResult) × (db'.reward_results snapshot ≡ some result)
      × IsListedOnce result.rewards_list
      × (listed key result.rewards_list
          ≡ sum (λ c. rewarded key (candidate_rewards db c)) (db.reward_candidates snapshot))
      × (result.total_rewarded_collateral
          ≡ sum (λ c. amount_of (candidate_rewards db c)) (db.reward_candidates snapshot))
      × (db'.reward_results other ≡ db.reward_results other)
unfolding finalize put_snapshot_result
finalize-rewarded snapshot other key db db' ne e =
    >>=-elim (sum_candidates db (db.reward_candidates snapshot) []) _ e λ rewards h e₁.
      let result : SnapshotResult = record {
        rewards_list = rewards;
        total_rewarded_collateral = amount_of rewards;
      } in
      let same = ok-injective e₁ in
      let once = sum_candidates-IsListedOnce db (db.reward_candidates snapshot) [] tt h in
      (
        result,
        ap (λ (d : Db). d.reward_results snapshot) (sym same) ∙ rw (same_key snapshot) refl,
        once,
        listed-eq-rewarded key rewards once
            ∙ (sum_candidates-rewarded db key (db.reward_candidates snapshot) [] h).0
            ∙ from_zero _,
        (sum_candidates-rewarded db 0 (db.reward_candidates snapshot) [] h).1 ∙ from_zero _,
        ap (λ (d : Db). d.reward_results other) (sym same) ∙ rw ne refl,
      )
  where
    from_zero : (n : ℕ) → 0 + n ≡ n
    from_zero n = omega arith

    same_key : (n : ℕ) → (n == n) ≡ true
    same_key n = ground arith
