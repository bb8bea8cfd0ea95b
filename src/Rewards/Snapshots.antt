-- ===== src/Rewards/Snapshots.antt =====
-- src/rewards.rs: how the snapshots cover the blocks after the activation height.
use native.Mathlib.Nat.{div-mul-le_self, lt-div-mul-add, div-eq_of_lt-le}
use bitcoin_ipc.Prelude.{ℕ, ◌-◌, ◌/◌, ◌≤◌, ◌<◌, ◌≡◌, some, arith}
use bitcoin_ipc.Result.{ok}
use bitcoin_ipc.Rewards.{
  RewardConfig, validate_config, new_config, snapshot_boundaries, snapshot_boundaries_from_height,
}

length_positive :
    (activation length : ℕ) (cfg : RewardConfig)
    → new_config activation length ≡ ok cfg
    → 0 < cfg.snapshot_length
unfolding new_config validate_config
length_positive activation length cfg e = ground arith

module _ (activation length h : ℕ) (cfg : RewardConfig) where
  -- With a configuration that the constructor accepts, every height from the activation on lies in
  -- the snapshot that is computed for it, between the boundaries of that snapshot.
  pub snapshot_contains_height :
      new_config activation length ≡ ok cfg
      → cfg.activation_height ≤ h
      → (snapshot : ℕ) × (snapshot_boundaries_from_height cfg h
          ≡ some (
            snapshot,
            (snapshot_boundaries cfg snapshot).0,
            (snapshot_boundaries cfg snapshot).1,
          ))
        × ((snapshot_boundaries cfg snapshot).0 ≤ h)
        × (h ≤ (snapshot_boundaries cfg snapshot).1)
  unfolding snapshot_boundaries snapshot_boundaries_from_height
  snapshot_contains_height e after =
      let positive = length_positive activation length cfg e in
      let q = (h - cfg.activation_height) / cfg.snapshot_length in
      let below = div-mul-le_self (h - cfg.activation_height) cfg.snapshot_length in
      let above = lt-div-mul-add {a = h - cfg.activation_height} positive in
      (q, ground arith, omega (arith, below, above), omega (arith, below, above))

  -- No other snapshot has the height between its boundaries.
  pub snapshot_of_height_unique :
      (snapshot : ℕ)
      → new_config activation length ≡ ok cfg
      → (snapshot_boundaries cfg snapshot).0 ≤ h
      → h ≤ (snapshot_boundaries cfg snapshot).1
      → snapshot_boundaries_from_height cfg h
        ≡ some
            (snapshot, (snapshot_boundaries cfg snapshot).0, (snapshot_boundaries cfg snapshot).1)
  unfolding snapshot_boundaries snapshot_boundaries_from_height
  snapshot_of_height_unique snapshot e from to =
      let positive = length_positive activation length cfg e in
      let same : (h - cfg.activation_height) / cfg.snapshot_length ≡ snapshot =
        div-eq_of_lt-le cfg.snapshot_length (omega arith) (omega arith) in
      ground (arith, same)
