-- ===== src/Monitor/Sync.antt =====
-- src/bin/monitor.rs: `sync` and `listen`, which process the blocks that the chain has gained.
pub mod Follow
pub mod CaughtUp
pub mod Restart
use bitcoin_ipc.Prelude.{
  ℕ, zero, suc, ◌+◌, ◌-◌, ◌==◌, min, ltb, leb, Bool, true, false, Option, none, some, List, [], ◌∷◌,
  if◌then◌else◌,
}
use bitcoin_ipc.Result.{Error, Result, ok, err, ◌>>=◌, block_height_ahead_of_tip}
use bitcoin_ipc.Types.{BlockHash, Transaction, Address}
use bitcoin_ipc.Db.{Db, get_last_processed_block, set_last_processed_block}
use bitcoin_ipc.Rewards.{RewardConfig, snapshot_boundaries_from_height}
use bitcoin_ipc.Rewards.Tracker.{put_candidates, get_all_active_subnets, update_after_block}
use bitcoin_ipc.Monitor.{Config, Monitor, Outcome, Position, SideEffect, after, and_then, each}
use bitcoin_ipc.Monitor.SideEffects.{Wallet, process_side_effects}
use bitcoin_ipc.Monitor.Messages.{process_transaction}

pub record Block : Type 0 where
  pub hash : BlockHash
  pub time : ℕ
  pub txdata : List Transaction

-- The Bitcoin node, and the cancellation token, at the n-th question: the height of the chain, a
-- batch of blocks between two heights, one block, and whether a stop is requested.
pub record Node : Type 0 where
  pub get_block_count : ℕ → Result ℕ
  pub fetch_blocks_batched : ℕ → ℕ → ℕ → Result (List Block)
  pub get_block : ℕ → ℕ → Result Block
  pub is_cancelled : ℕ → Bool

pub data Network : Type 0 where
  bitcoin testnet testnet4 signet regtest : Network

-- A network that the match does not name has no confirmations.
unfoldable pub confirmations : Network → ℕ
confirmations bitcoin = 6
confirmations testnet = 6
confirmations testnet4 = 0
confirmations signet = 0
confirmations regtest = 0

-- `NETWORK`
abbrev pub network : Network
network = regtest

unfoldable pub get_latest_confirmed_height : Node → ℕ → Result ℕ
unfolding confirmations
get_latest_confirmed_height node asked = do
  latest ← node.get_block_count asked
  ok (if ltb latest (confirmations network) then 0 else latest - confirmations network)

unfoldable pub process_block_data : Config → ℕ → Block → Monitor → Outcome
unfolding each
process_block_data c height block =
    each (process_transaction c (record { height = height; hash = block.hash; time = block.time }))
      block.txdata

-- What the bookkeeping has written when it stops at an error: the candidates, at the start of a
-- snapshot.
abbrev pub started_at : Db → ℕ → Option (ℕ × ℕ × ℕ) → Db
started_at db height none = db
started_at db height (some (snapshot, start_height, end_height)) =
    if height == start_height
    then put_candidates snapshot (get_all_active_subnets db start_height end_height) db
    else db

unfoldable pub started : RewardConfig → Db → ℕ → Db
started cfg db height = started_at db height (snapshot_boundaries_from_height cfg height)

abbrev pub tracked : Result Db → Db → Db
tracked (ok db) otherwise = db
tracked (err e) otherwise = otherwise

-- An error of the bookkeeping is only logged.
unfoldable pub track_block : Option RewardConfig → Db → ℕ → Db
track_block none db height = db
track_block (some cfg) db height =
    tracked (update_after_block cfg db height) (started cfg db height)

-- A block, and what is written once it is processed.
unfoldable pub advance : Config → ℕ → Block → Monitor → Outcome
advance c height block mon = and_then (process_block_data c height block mon) λ mon. (
  record mon {
    current_height = height;
    db = track_block mon.reward_tracker (set_last_processed_block mon.db height) height;
  },
  ok tt,
)

-- The blocks of a window, from a height on.
unfoldable pub process_window : Config → ℕ → List Block → Monitor → Outcome
process_window c height [] mon = (mon, ok tt)
process_window c height (block ∷ blocks) mon =
    and_then (advance c height block mon) (process_window c (height + 1) blocks)

-- Where a loop stands: its state, the number of questions asked, and its result, if it has one.
pub record Run : Type 0 where
  pub monitor : Monitor
  pub asked : ℕ
  pub result : Option (Result Bool)

abbrev pub stop : Monitor → ℕ → Result Bool → Run
stop mon asked r = record { monitor = mon; asked = asked; result = some r }

-- The loop goes on, unless there was an error.
abbrev pub go_on : Outcome → ℕ → (Monitor → Run) → Run
go_on (mon, ok done) asked rest = rest mon
go_on (mon, err e) asked rest = stop mon asked (err e)

-- The next window, fetched and processed.
unfoldable pub sync_window : Config → Node → ℕ → ℕ → Monitor → Outcome
unfolding process_window after
sync_window c node latest asked mon =
    after mon
      (node.fetch_blocks_batched asked (mon.current_height + 1)
        (min (mon.current_height + c.sync_batch_size) latest))
      λ blocks. process_window c (mon.current_height + 1) blocks mon

-- `while self.current_height < latest_block_height`: `true` if it ends by its test.
unfoldable pub catch_up : Config → Node → ℕ → ℕ → ℕ → Monitor → Run
catch_up c node latest zero asked mon = record { monitor = mon; asked = asked; result = none }
catch_up c node latest (suc fuel) asked mon =
    if leb latest mon.current_height
    then stop mon asked (ok true)
    else if node.is_cancelled asked
    then stop mon (asked + 1) (ok false)
    else go_on (sync_window c node latest (asked + 1) mon) (asked + 2)
        (λ mon'. catch_up c node latest fuel (asked + 2) mon')

-- The outer loop goes on to its test if the inner one ended by its own.
abbrev pub caught_up : Run → (Monitor → ℕ → Run) → Run
caught_up run rest = elim run.result [
  | none ↦ run
  | some (err e) ↦ run
  | some (ok false) ↦ run
  | some (ok true) ↦ rest run.monitor run.asked
]

abbrev pub answered : {A : Type 0} → Monitor → ℕ → Result A → (A → Run) → Run
answered mon asked (err e) rest = stop mon asked (err e)
answered mon asked (ok a) rest = rest a

-- The tip is asked for again: the loop ends if it is reached.
unfoldable pub check_tip : Node → (Monitor → ℕ → Run) → Monitor → ℕ → Run
check_tip node again mon asked =
    answered mon (asked + 1) (get_latest_confirmed_height node asked) λ latest.
      if mon.current_height == latest then stop mon (asked + 1) (ok true) else again mon (asked + 1)

-- The loop of `sync`; the inner loop has a step of fuel for each block and one for its last test.
unfoldable pub sync_loop : Config → Node → ℕ → ℕ → Monitor → Run
sync_loop c node zero asked mon = record { monitor = mon; asked = asked; result = none }
sync_loop c node (suc fuel) asked mon =
    if node.is_cancelled asked
    then stop mon (asked + 1) (ok false)
    else answered mon (asked + 2) (get_latest_confirmed_height node (asked + 1)) λ latest.
      if ltb latest mon.current_height
      then stop mon (asked + 2) (err block_height_ahead_of_tip)
      else caught_up (catch_up c node latest (suc (latest - mon.current_height)) (asked + 2) mon)
          (check_tip node (λ mon' asked'. sync_loop c node fuel asked' mon'))

-- `sync` up to the side effects: it starts from the last processed block.
unfoldable pub sync_blocks : Config → Node → ℕ → ℕ → Monitor → Run
sync_blocks c node fuel asked mon =
    sync_loop c node fuel asked (record mon { current_height = get_last_processed_block mon.db })

-- The addresses that were collected, once the loop has ended by its test.
unfoldable pub import_collected : Wallet → Monitor → ℕ → Run
import_collected w mon asked =
    go_on (process_side_effects w mon) asked λ mon'. stop mon' asked (ok true)

unfoldable pub sync : Config → Node → Wallet → ℕ → ℕ → Monitor → Run
unfolding sync_blocks import_collected
sync c node w fuel asked mon = caught_up (sync_blocks c node fuel asked mon) (import_collected w)

-- `process_block`, and what `listen` writes after it.
unfoldable pub listen_block : Config → Node → ℕ → Monitor → Outcome
unfolding advance after
listen_block c node asked mon =
    after mon (node.get_block asked (mon.current_height + 1))
      λ block. advance c (mon.current_height + 1) block mon

-- The loop of `listen` over the blocks that are left below the tip.
unfoldable pub listen_blocks : Config → Node → ℕ → ℕ → Monitor → Outcome
unfolding listen_block
listen_blocks c node zero asked mon = (mon, ok tt)
listen_blocks c node (suc left) asked mon =
    and_then (listen_block c node asked mon) (listen_blocks c node left (asked + 1))

-- The blocks of one round of `listen`; an error of the block count is only logged.
unfoldable pub listen_new : Config → Node → ℕ → Monitor → Outcome
unfolding listen_blocks get_latest_confirmed_height
listen_new c node asked mon = elim (get_latest_confirmed_height node asked) [
  | err e ↦ (mon, ok tt)
  | ok block_count ↦ listen_blocks c node (block_count - mon.current_height) (asked + 1) mon
]

-- One round of `listen` that is not cancelled, up to its sleep.
unfoldable pub listen_round : Config → Node → Wallet → ℕ → Monitor → Outcome
unfolding listen_new
listen_round c node w asked mon = and_then (listen_new c node asked mon) (process_side_effects w)
