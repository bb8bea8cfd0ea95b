-- ===== src/Monitor/Sync/CaughtUp.antt =====
-- src/bin/monitor.rs: the inner loop of `sync` against the blocks processed one by one.
use bitcoin_ipc.Prelude.{
  ℕ, zero, suc, ◌+◌, ◌-◌, ◌<◌, ◌≤◌, ◌≡◌, refl, ap, subst, inl, inr, min, leb, ltb, ◌==◌, Bool, true,
  false, if◌then◌else◌, Bool-cases, Option, some, arith,
}
use bitcoin_ipc.Result.{Result, ok, err}
use bitcoin_ipc.Db.{get_last_processed_block}
use bitcoin_ipc.Monitor.{Config, Monitor, Outcome, and_then}
use bitcoin_ipc.Monitor.SideEffects.{Wallet, process_side_effects}
use bitcoin_ipc.Monitor.Sync.{
  Block, Node, Run, catch_up, sync_window, go_on, caught_up, sync, sync_blocks, sync_loop,
  import_collected, stop, check_tip, get_latest_confirmed_height,
}
use bitcoin_ipc.Monitor.Sync.Follow.{
  follow, blocks_from, follow-height, follow-add, process_window-follow,
}

-- The result of a loop that went through.
abbrev pub finished : Outcome → Option (Result Bool)
finished (mon, ok done) = some (ok true)
finished (mon, err e) = some (err e)

-- A run ends as an outcome does.
abbrev pub EndsAs : Run → Outcome → Type 0
EndsAs run outcome = (run.monitor ≡ outcome.0) × (run.result ≡ finished outcome)

go_on-EndsAs :
    (first : Outcome) (asked : ℕ) (rest : Monitor → Run) (g : Monitor → Outcome)
    → ((mid : Monitor) → first ≡ (mid, ok tt) → EndsAs (rest mid) (g mid))
    → EndsAs (go_on first asked rest) (and_then first g)
go_on-EndsAs (mid, ok done) asked rest g same = same mid refl
go_on-EndsAs (mid, err e) asked rest g same = (refl, refl)

caught_up-EndsAs :
    (run : Run) (outcome : Outcome) (rest : Monitor → ℕ → Run)
    → EndsAs run outcome
    → ((mon : Monitor) (asked : ℕ) → outcome ≡ (mon, ok tt) → EndsAs (rest mon asked) (mon, ok tt))
    → EndsAs (caught_up run rest) outcome
caught_up-EndsAs run (mon, ok done) rest h after' = rw (h.1, h.0) (after' mon run.asked refl)
caught_up-EndsAs run (mon, err e) rest h after' = rw h.1 (h.0, refl)

stopped-EndsAs :
    (outcome : Outcome) (asked : ℕ)
    → EndsAs (go_on outcome asked λ mon. stop mon asked (ok true)) outcome
stopped-EndsAs (mon, ok done) asked = (refl, refl)
stopped-EndsAs (mon, err e) asked = (refl, refl)

import_collected-EndsAs :
    (run : Run) (outcome : Outcome) (w : Wallet)
    → EndsAs run outcome
    → EndsAs (caught_up run (import_collected w)) (and_then outcome (process_side_effects w))
unfolding import_collected
import_collected-EndsAs run (mon, ok done) w h =
    rw (h.1, h.0) (stopped-EndsAs (process_side_effects w mon) run.asked)
import_collected-EndsAs run (mon, err e) w h = rw h.1 (h.0, refl)

follow_none : (c : Config) (chain : ℕ → Block) (mon : Monitor) → follow c chain 0 mon ≡ (mon, ok tt)
unfolding follow
follow_none c chain mon = refl

module _ (c : Config) (node : Node) (chain : ℕ → Block)
    (serves : (n a b : ℕ)
      → a ≤ b
      → node.fetch_blocks_batched n a b ≡ ok (blocks_from chain a (b + 1 - a))) where
  sync_window-follow :
      (latest asked w : ℕ) (mon : Monitor)
      → 0 < w
      → mon.current_height + w ≡ min (mon.current_height + c.sync_batch_size) latest
      → sync_window c node latest asked mon ≡ follow c chain w mon
  unfolding sync_window
  sync_window-follow latest asked w mon positive e =
      let count : mon.current_height + w + 1 - (mon.current_height + 1) ≡ w = omega arith in
      rw (← e, serves asked (mon.current_height + 1) (mon.current_height + w) (omega arith), count)
        (process_window-follow c chain w mon)

  -- The inner loop, with a step of fuel for each block and one more.
  pub catch_up-follow :
      (latest fuel asked : ℕ) (mon : Monitor)
      → 0 < c.sync_batch_size
      → ((n : ℕ) → node.is_cancelled n ≡ false)
      → latest - mon.current_height < fuel
      → mon.current_height ≤ latest
      → EndsAs
          (catch_up c node latest fuel asked mon)
          (follow c chain (latest - mon.current_height) mon)
  unfolding catch_up
  catch_up-follow latest zero asked mon batch never enough behind = absurd (omega arith)
  catch_up-follow latest (suc fuel) asked mon batch never enough behind =
      elim (Bool-cases (leb latest mon.current_height)) [
        | inl here ↦
            let none_left : latest - mon.current_height ≡ 0 = ground arith in
            rw (here, none_left, follow_none c chain mon) (refl, refl)
        | inr more ↦
            let w = min (mon.current_height + c.sync_batch_size) latest - mon.current_height in
            let ahead : mon.current_height < latest = ground arith in
            let positive : 0 < w = omega arith in
            let split : latest - mon.current_height ≡ w + (latest - (mon.current_height + w)) =
              omega arith in
            rw
              (
                more,
                never asked,
                sync_window-follow latest (asked + 1) w mon positive (omega arith),
                split,
                follow-add c chain w (latest - (mon.current_height + w)) mon,
              )
              (go_on-EndsAs (follow c chain w mon) (asked + 2)
                (λ mid. catch_up c node latest fuel (asked + 2) mid)
                (follow c chain (latest - (mon.current_height + w)))
                λ mid first.
                  let h = follow-height c chain w mon mid first in
                  subst
                    (λ k.
                      EndsAs (catch_up c node latest fuel (asked + 2) mid)
                        (follow c chain (latest - k) mid))
                    h
                    (catch_up-follow latest fuel (asked + 2) mid batch never (omega arith)
                      (omega arith)))
      ]

  latest_confirmed :
      (latest asked : ℕ)
      → ((n : ℕ) → node.get_block_count n ≡ ok latest)
      → get_latest_confirmed_height node asked ≡ ok latest
  unfolding get_latest_confirmed_height
  latest_confirmed latest asked counts = rw (counts asked) (
      let e : (if ltb latest 0 then 0 else latest - 0) ≡ latest = ground arith in
      ap (λ height. ok height) e)

  at_tip :
      (latest asked : ℕ) (mon : Monitor) (again : Monitor → ℕ → Run)
      → ((n : ℕ) → node.get_block_count n ≡ ok latest)
      → mon.current_height ≡ latest
      → EndsAs (check_tip node again mon asked) (mon, ok tt)
  unfolding check_tip
  at_tip latest asked mon again counts h =
      let same : (mon.current_height == latest) ≡ true = ground arith in
      rw (latest_confirmed latest asked counts, same) (refl, refl)

  sync_blocks-follow :
      (latest fuel asked : ℕ) (mon : Monitor)
      → 0 < c.sync_batch_size
      → ((n : ℕ) → node.is_cancelled n ≡ false)
      → ((n : ℕ) → node.get_block_count n ≡ ok latest)
      → get_last_processed_block mon.db ≤ latest
      → EndsAs (sync_blocks c node (suc fuel) asked mon) (
          follow c chain
            (latest - get_last_processed_block mon.db)
            (record mon { current_height = get_last_processed_block mon.db }))
  unfolding sync_blocks sync_loop
  sync_blocks-follow latest fuel asked mon batch never counts behind =
      let from = get_last_processed_block mon.db in
      let start = record mon { current_height = from } in
      let in_front : ltb latest from ≡ false = ground arith in
      rw (never asked, latest_confirmed latest (asked + 1) counts, in_front)
        (caught_up-EndsAs (catch_up c node latest (suc (latest - from)) (asked + 2) start)
          (follow c chain (latest - from) start)
          (check_tip node (λ mon' asked'. sync_loop c node fuel asked' mon'))
          (catch_up-follow latest (suc (latest - from)) (asked + 2) start batch never (omega arith)
            behind)
          λ mon' asked' done.
            let height = follow-height c chain (latest - from) start mon' done in
            at_tip latest asked' mon' (λ m a. sync_loop c node fuel a m) counts (omega arith))

  -- `sync` ends, in one round of its outer loop, having done what processing the blocks after the last
  -- processed one up to the tip one by one and then importing the collected addresses does, whatever
  -- the batch size: it returns `true` at the tip, or the error of the first block that fails or of the
  -- import, with the same state. The node serves the blocks of one chain whose height stays, nobody
  -- cancels, the batch size is not 0, and the tip is not behind the last processed block.
  pub sync-follow :
      (latest fuel asked : ℕ) (w : Wallet) (mon : Monitor)
      → 0 < c.sync_batch_size
      → ((n : ℕ) → node.is_cancelled n ≡ false)
      → ((n : ℕ) → node.get_block_count n ≡ ok latest)
      → get_last_processed_block mon.db ≤ latest
      → EndsAs (sync c node w (suc fuel) asked mon) (
          and_then
            (follow c chain
              (latest - get_last_processed_block mon.db)
              (record mon { current_height = get_last_processed_block mon.db }))
            (process_side_effects w))
  unfolding sync
  sync-follow latest fuel asked w mon batch never counts behind =
      import_collected-EndsAs (sync_blocks c node (suc fuel) asked mon)
        (follow c chain (latest - get_last_processed_block mon.db)
          (record mon { current_height = get_last_processed_block mon.db }))
        w (sync_blocks-follow latest fuel asked mon batch never counts behind)
