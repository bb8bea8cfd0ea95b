-- ===== src/Monitor/Sync/Restart.antt =====
-- src/bin/monitor.rs: what a restart finds in the database and goes on with, and `listen` against the blocks one by one.
use bitcoin_ipc.Prelude.{
  ℕ, zero, suc, ◌+◌, ◌≡◌, refl, ap, sym, subst, if-elim, ◌∙◌, ◌==◌, Option, none, some, List, [],
  ◌∷◌,
}
use bitcoin_ipc.Result.{Result, ok, err, >>=-elim, ok-injective, if-eq-ok}
use bitcoin_ipc.Subnet.{SubnetState, unwrap_or}
use bitcoin_ipc.Db.{Db, get_last_processed_block, set_last_processed_block}
use bitcoin_ipc.Rewards.{RewardConfig, snapshot_boundaries_from_height}
use bitcoin_ipc.Rewards.Tracker.{
  put_candidates, get_all_active_subnets, finalize, in_snapshot, sum_candidates, update_after_block,
}
use mathlib.Core.List.{append-nil}
use bitcoin_ipc.Monitor.{Config, Monitor, Outcome, SideEffect, and_then, new}
use bitcoin_ipc.Monitor.Collected.{
  Carries, after_earlier, outcome_after_earlier, done-Carries, and_then-Carries, each-Carries,
  process_transaction-Carries,
}
use bitcoin_ipc.Monitor.Sync.{
  Block, Node, started_at, started, tracked, track_block, process_block_data, advance,
  listen_blocks,
}
use bitcoin_ipc.Monitor.Sync.Follow.{follow, and_then-elim, and_then_cong, follow-add}

put_candidates-last :
    (snapshot : ℕ) (subnets : List SubnetState) (db : Db)
    → (put_candidates snapshot subnets db).last_processed_block ≡ db.last_processed_block
unfolding put_candidates
put_candidates-last snapshot [] db = refl
put_candidates-last snapshot (s ∷ subnets) db = put_candidates-last snapshot subnets _

finalize-last :
    (snapshot : ℕ) (db db' : Db)
    → finalize snapshot db ≡ ok db'
    → db'.last_processed_block ≡ db.last_processed_block
unfolding finalize
finalize-last snapshot db db' h =
    >>=-elim (sum_candidates db (db.reward_candidates snapshot) []) _ h
      λ rewards _ h. let e = ok-injective h in ap (λ (d : Db). d.last_processed_block) (sym e)

started_at-last :
    (db : Db) (height : ℕ) (boundaries : Option (ℕ × ℕ × ℕ))
    → (started_at db height boundaries).last_processed_block ≡ db.last_processed_block
started_at-last db height none = refl
started_at-last db height (some (snapshot, start, end)) =
    if-elim (λ (d : Db). d.last_processed_block ≡ db.last_processed_block) (height == start)
      (put_candidates-last snapshot (get_all_active_subnets db start end) db) refl

in_snapshot-last :
    (db db' : Db) (height : ℕ) (boundaries : Option (ℕ × ℕ × ℕ))
    → in_snapshot db height boundaries ≡ ok db'
    → db'.last_processed_block ≡ db.last_processed_block
in_snapshot-last db db' height none h =
    let e = ok-injective h in ap (λ (d : Db). d.last_processed_block) (sym e)
in_snapshot-last db db' height (some (snapshot, start, end)) h =
    let same = started_at-last db height (some (snapshot, start, end)) in
    if-eq-ok (height == end) h (λ h. finalize-last snapshot _ db' h ∙ same)
      (λ h. let e = ok-injective h in ap (λ (d : Db). d.last_processed_block) (sym e) ∙ same)

-- Whatever the bookkeeping returns.
either-last :
    (r : Result Db) (otherwise : Db) (l : Option ℕ)
    → ((db : Db) → r ≡ ok db → db.last_processed_block ≡ l)
    → otherwise.last_processed_block ≡ l
    → (tracked r otherwise).last_processed_block ≡ l
either-last (ok db) otherwise l h k = h db refl
either-last (err e) otherwise l h k = k

track_block-last :
    (tracker : Option RewardConfig) (db : Db) (height : ℕ)
    → (track_block tracker db height).last_processed_block ≡ db.last_processed_block
unfolding track_block started update_after_block
track_block-last none db height = refl
track_block-last (some cfg) db height =
    either-last (update_after_block cfg db height) (started cfg db height) db.last_processed_block
      (λ db' h. in_snapshot-last db db' height (snapshot_boundaries_from_height cfg height) h)
      (started_at-last db height (snapshot_boundaries_from_height cfg height))

-- A monitor whose database knows how far it is.
abbrev pub IsSaved : Monitor → Type 0
IsSaved mon = get_last_processed_block mon.db ≡ mon.current_height

advance-IsSaved :
    (c : Config) (height : ℕ) (block : Block) (mon mon' : Monitor)
    → advance c height block mon ≡ (mon', ok tt)
    → IsSaved mon'
unfolding advance get_last_processed_block set_last_processed_block
advance-IsSaved c height block mon mon' h =
    and_then-elim (process_block_data c height block mon) _ h λ mid _ h.
      let e = ap (λ (o : Outcome). o.0) h in
      subst IsSaved e (
        ap (λ l. unwrap_or l 0)
          (track_block-last mid.reward_tracker (set_last_processed_block mid.db height) height))

pub follow-IsSaved :
    (c : Config) (chain : ℕ → Block) (count : ℕ) (mon mon' : Monitor)
    → IsSaved mon
    → follow c chain count mon ≡ (mon', ok tt)
    → IsSaved mon'
unfolding follow
follow-IsSaved c chain zero mon mon' saved h = subst IsSaved (ap (λ (o : Outcome). o.0) h) saved
follow-IsSaved c chain (suc count) mon mon' saved h =
    and_then-elim (advance c (mon.current_height + 1) (chain (mon.current_height + 1)) mon) _ h
      λ mid first h. follow-IsSaved c chain count mid mon' (advance-IsSaved c _ _ mon mid first) h

module _ (earlier : List SideEffect) (tracker : Option RewardConfig) where
  advance-Carries :
      (c : Config) (height : ℕ) (block : Block) (mon : Monitor)
      → mon.reward_tracker ≡ tracker
      → Carries earlier tracker
          (advance c height block (after_earlier earlier mon))
          (advance c height block mon)
  unfolding advance process_block_data
  advance-Carries c height block mon h =
      and_then-Carries earlier tracker _ _ _ _
        (each-Carries earlier tracker _ block.txdata mon
          (process_transaction-Carries earlier tracker c
            (record { height = height; hash = block.hash; time = block.time }))
          h)
        λ mid same. done-Carries earlier tracker _ (ok tt) same

  follow-Carries :
      (c : Config) (chain : ℕ → Block) (count : ℕ) (mon : Monitor)
      → mon.reward_tracker ≡ tracker
      → Carries earlier tracker
          (follow c chain count (after_earlier earlier mon))
          (follow c chain count mon)
  unfolding follow
  follow-Carries c chain zero mon h = done-Carries earlier tracker mon (ok tt) h
  follow-Carries c chain (suc count) mon h =
      and_then-Carries earlier tracker _ _ _ _
        (advance-Carries c (mon.current_height + 1) (chain (mon.current_height + 1)) mon h)
        λ mid same. follow-Carries c chain count mid same

-- A new monitor over a database, at the height that `sync` starts it from: it has the settings of
-- the one before, and has collected nothing.
abbrev pub restarted : Db → Option RewardConfig → Monitor
restarted db tracker = record (new db tracker) { current_height = get_last_processed_block db }

resumed :
    (tracker : Option RewardConfig) (mid : Monitor)
    → IsSaved mid
    → mid.reward_tracker ≡ tracker
    → mid ≡ after_earlier mid.side_effects (restarted mid.db tracker)
resumed tracker mid saved same =
    ap (λ height. record mid { current_height = height }) (sym saved)
    ∙ ap (λ r. record mid { current_height = get_last_processed_block mid.db; reward_tracker = r })
        same
    ∙ ap (λ l. record (restarted mid.db tracker) { side_effects = l })
        (sym (append-nil mid.side_effects))

-- A monitor stops after some blocks, and a new one with the same settings, which has collected no
-- address, starts from the last processed block of its database. On the blocks that follow it ends
-- as the first would have ended, in the same database, at the same height and with the same result,
-- except that the addresses that the first had collected when it stopped are missing in front of
-- its own. The first starts with a database that agrees with its height.
pub follow-resume :
    (c : Config) (chain : ℕ → Block) (n m : ℕ) (mon mid : Monitor)
    → IsSaved mon
    → follow c chain n mon ≡ (mid, ok tt)
    → follow c chain (n + m) mon
      ≡ outcome_after_earlier mid.side_effects
          (follow c chain m (restarted mid.db mon.reward_tracker))
follow-resume c chain n m mon mid saved h =
    let kept : mid.reward_tracker ≡ mon.reward_tracker =
      subst (λ (o : Outcome). o.0.reward_tracker ≡ mon.reward_tracker) h
        (follow-Carries [] mon.reward_tracker c chain n mon refl).same_tracker in
    follow-add c chain n m mon
    ∙ ap (λ first. and_then first (follow c chain m)) h
    ∙ ap (follow c chain m)
        (resumed mon.reward_tracker mid (follow-IsSaved c chain n mon mid saved h) kept)
    ∙ (follow-Carries mid.side_effects mon.reward_tracker c chain m
        (restarted mid.db mon.reward_tracker) refl).carried

pub listen_blocks-follow :
    (c : Config) (node : Node) (chain : ℕ → Block) (left asked : ℕ) (mon : Monitor)
    → ((n height : ℕ) → node.get_block n height ≡ ok (chain height))
    → listen_blocks c node left asked mon ≡ follow c chain left mon
unfolding listen_blocks follow
listen_blocks-follow c node chain zero asked mon serves = refl
listen_blocks-follow c node chain (suc left) asked mon serves =
    rw (serves asked (mon.current_height + 1)) (
      and_then_cong (advance c (mon.current_height + 1) (chain (mon.current_height + 1)) mon)
        (listen_blocks c node left (asked + 1)) (follow c chain left)
        λ mid first. listen_blocks-follow c node chain left (asked + 1) mid serves)
