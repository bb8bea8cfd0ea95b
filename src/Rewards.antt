-- ===== src/Rewards.antt =====
-- src/rewards.rs: `RewardConfig`, which cuts the blocks after the activation height into snapshots.
-- The heights are read from the environment by `new_from_env`, which is not modelled.
pub mod Snapshots
pub mod Tracker
pub mod Rotated
pub mod Totals
use bitcoin_ipc.Prelude.{ℕ, ◌+◌, ◌-◌, ◌*◌, ◌/◌, Option, none, some, ltb, ◌==◌, if◌then◌else◌}
use bitcoin_ipc.Result.{Result, ok, ◌>>=◌, ◌>>◌, fail_if, invalid_config}

pub record RewardConfig : Type 0 where
  pub activation_height : ℕ
  pub snapshot_length : ℕ

unfoldable pub validate_config : RewardConfig → Result (Unit {0})
validate_config cfg = fail_if (cfg.snapshot_length == 0) invalid_config

unfoldable pub new_config : ℕ → ℕ → Result RewardConfig
unfolding validate_config
new_config activation_height snapshot_length =
    let cfg : RewardConfig = record {
      activation_height = activation_height;
      snapshot_length = snapshot_length;
    } in
    validate_config cfg >> ok cfg

-- The first and the last height of a snapshot.
unfoldable pub snapshot_boundaries : RewardConfig → ℕ → ℕ × ℕ
snapshot_boundaries cfg snapshot =
    let start_height = cfg.activation_height + snapshot * cfg.snapshot_length in
    (start_height, start_height + cfg.snapshot_length - 1)

-- The snapshot of a height, with its first and its last height.
unfoldable pub snapshot_boundaries_from_height : RewardConfig → ℕ → Option (ℕ × ℕ × ℕ)
snapshot_boundaries_from_height cfg h =
    if ltb h cfg.activation_height
    then none
    else let snapshot = (h - cfg.activation_height) / cfg.snapshot_length in
      let start_height = cfg.activation_height + snapshot * cfg.snapshot_length in
      some (snapshot, start_height, start_height + cfg.snapshot_length - 1)
