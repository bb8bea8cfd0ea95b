-- ===== src/Monitor/Collected.antt =====
-- src/bin/monitor.rs: the addresses that a monitor has collected before some blocks change nothing but
-- the list that it has after them.
use bitcoin_ipc.Prelude.{
  ◌==◌, ◌≡◌, refl, ap, sym, subst, Bool, true, false, Option, none, some, List, [], ◌∷◌, ◌++◌, ℕ,
  if◌then◌else◌,
}
use mathlib.Core.List.{append_assoc}
use bitcoin_ipc.Result.{Result, ok, err, ok_or, subnet_not_found}
use bitcoin_ipc.Types.{Transaction, TxIn, Address, SubnetId}
use bitcoin_ipc.Subnet.{SubnetState}
use bitcoin_ipc.Records.{SubnetCheckpoint}
use bitcoin_ipc.Rewards.{RewardConfig}
use bitcoin_ipc.Db.{Db, get_subnet_state, save_transaction}
use bitcoin_ipc.Msg.Create.{save_create}
use bitcoin_ipc.Monitor.{
  Config, Monitor, Outcome, Position, SideEffect, after, and_then, each, handled,
  handle_ipc_msg_error, import_watchonly_address, import_committee, committee_address, from_txid,
}
use bitcoin_ipc.Monitor.Messages.{
  save, import_bootstrapped, import_rotated, process_ipc_msg, process_found, witness_message,
  output_message, process_transaction,
}
use bitcoin_ipc.Transactions.Witness.{
  IpcMessage, create, join, prefund, fund, checkpoint, batch, stake, unstake, kill,
}

-- The monitor with some addresses that were collected before its own.
abbrev pub after_earlier : List SideEffect → Monitor → Monitor
after_earlier earlier mon = record mon { side_effects = earlier ++ mon.side_effects }

abbrev pub outcome_after_earlier : List SideEffect → Outcome → Outcome
outcome_after_earlier earlier (mon, r) = (after_earlier earlier mon, r)

module _ (earlier : List SideEffect) (tracker : Option RewardConfig) where
  -- Two outcomes that differ in the addresses collected before, and have the given tracker.
  pub record Carries (first second : Outcome) : Type 0 where
    pub carried : first ≡ outcome_after_earlier earlier second
    pub same_tracker : second.0.reward_tracker ≡ tracker

  pub done-Carries :
      (mon : Monitor) (r : Result (Unit {0}))
      → mon.reward_tracker ≡ tracker
      → Carries (after_earlier earlier mon, r) (mon, r)
  done-Carries mon r h = record { carried = refl; same_tracker = h }

  after-Carries {ℓ} :
      {A : Type ℓ} (mon : Monitor) (r : Result A) (f g : A → Outcome)
      → mon.reward_tracker ≡ tracker
      → ((a : A) → Carries (f a) (g a))
      → Carries (after (after_earlier earlier mon) r f) (after mon r g)
  unfolding after
  after-Carries mon (ok a) f g h k = k a
  after-Carries mon (err e) f g h k = done-Carries mon (err e) h

  pub and_then-Carries :
      (first second : Outcome) (f g : Monitor → Outcome)
      → Carries first second
      → ((mid : Monitor)
          → mid.reward_tracker ≡ tracker
          → Carries (f (after_earlier earlier mid)) (g mid))
      → Carries (and_then first f) (and_then second g)
  and_then-Carries first (mid, ok done) f g h k =
      subst (λ (o : Outcome). Carries (and_then o f) (g mid)) (sym h.carried) (k mid h.same_tracker)
  and_then-Carries first (mid, err e) f g h k =
      subst (λ (o : Outcome). Carries (and_then o f) (mid, err e)) (sym h.carried)
        (done-Carries mid (err e) h.same_tracker)

  pub each-Carries {ℓ} :
      {A : Type ℓ} (body : A → Monitor → Outcome) (as' : List A) (mon : Monitor)
      → ((a : A) (mid : Monitor)
          → mid.reward_tracker ≡ tracker
          → Carries (body a (after_earlier earlier mid)) (body a mid))
      → mon.reward_tracker ≡ tracker
      → Carries (each body as' (after_earlier earlier mon)) (each body as' mon)
  unfolding each
  each-Carries body [] mon k h = done-Carries mon (ok tt) h
  each-Carries body (a ∷ rest) mon k h =
      and_then-Carries (body a (after_earlier earlier mon)) (body a mon) (each body rest)
        (each body rest) (k a mon h) λ mid same. each-Carries body rest mid k same

  import_watchonly_address-Carries :
      (address : Address) (label : SubnetId × ℕ) (time : ℕ) (mon : Monitor)
      → mon.reward_tracker ≡ tracker
      → Carries
          (import_watchonly_address address label time (after_earlier earlier mon), ok tt)
          (import_watchonly_address address label time mon, ok tt)
  unfolding import_watchonly_address
  import_watchonly_address-Carries address label time mon h = record {
    carried =
        ap
          (λ (l : List SideEffect). let o : Outcome = (record mon { side_effects = l }, ok tt) in o)
          (append_assoc earlier mon.side_effects
            (record { address = address; label = label; timestamp = time } ∷ []));
    same_tracker = h;
  }

  import_committee-Carries :
      (c : Config) (s : SubnetState) (time : ℕ) (mon : Monitor)
      → mon.reward_tracker ≡ tracker
      → Carries
          (import_committee c s time (after_earlier earlier mon))
          (import_committee c s time mon)
  unfolding import_committee
  import_committee-Carries c s time mon h =
      after-Carries mon (committee_address c s) _ _ h
        λ address. import_watchonly_address-Carries address (s.id, s.committee_number) time mon h

  import_bootstrapped-Carries :
      (c : Config) (s : Option SubnetState) (time : ℕ) (mon : Monitor)
      → mon.reward_tracker ≡ tracker
      → Carries
          (import_bootstrapped c s time (after_earlier earlier mon))
          (import_bootstrapped c s time mon)
  unfolding import_bootstrapped
  import_bootstrapped-Carries c none time mon h = done-Carries mon (ok tt) h
  import_bootstrapped-Carries c (some s) time mon h = import_committee-Carries c s time mon h

  if-Carries :
      (b : Bool) {x y x' y' : Outcome}
      → Carries x x'
      → Carries y y'
      → Carries (if b then x else y) (if b then x' else y')
  if-Carries true h k = h
  if-Carries false h k = k

  import_rotated-Carries :
      (c : Config) (id : SubnetId) (saved : SubnetCheckpoint) (time : ℕ) (mon : Monitor)
      → mon.reward_tracker ≡ tracker
      → Carries
          (import_rotated c id saved time (after_earlier earlier mon))
          (import_rotated c id saved time mon)
  unfolding import_rotated
  import_rotated-Carries c id saved time mon h =
      if-Carries (saved.signed_committee_number == saved.next_committee_number)
        (done-Carries mon (ok tt) h)
        (after-Carries mon (ok_or (get_subnet_state mon.db id) subnet_not_found) _ _ h
          λ s. import_committee-Carries c s time mon h)

  save-Carries :
      (mon : Monitor) (r : Result Db)
      → mon.reward_tracker ≡ tracker
      → Carries (save (after_earlier earlier mon) r) (save mon r)
  unfolding save
  save-Carries mon r h =
      after-Carries mon r _ _ h λ db. done-Carries (record mon { db = db }) (ok tt) h

  process_ipc_msg-Carries :
      (c : Config) (at : Position) (tx : Transaction) (msg : IpcMessage) (mon : Monitor)
      → mon.reward_tracker ≡ tracker
      → Carries
          (process_ipc_msg c at tx msg (after_earlier earlier mon))
          (process_ipc_msg c at tx msg mon)
  unfolding process_ipc_msg
  process_ipc_msg-Carries c at tx (create m) mon h = after-Carries mon _ _ _ h λ _.
      let saved = save_create m mon.db at.height (from_txid tx.id) in
      after-Carries (record mon { db = saved.1 }) _ _ _ h
        λ address.
          import_watchonly_address-Carries address (saved.0.subnet_id, 0) at.time
            (record mon { db = saved.1 }) h
  process_ipc_msg-Carries c at tx (join m) mon h = after-Carries mon _ _ _ h λ output.
      after-Carries mon _ _ _ h λ g. after-Carries mon _ _ _ h λ _. after-Carries mon _ _ _ h λ _.
        after-Carries mon _ _ _ h λ (saved : Option SubnetState × Db).
          import_bootstrapped-Carries c saved.0 at.time (record mon { db = saved.1 }) h
  process_ipc_msg-Carries c at tx (prefund m) mon h =
      after-Carries mon _ _ _ h λ _. save-Carries mon _ h
  process_ipc_msg-Carries c at tx (fund m) mon h =
      after-Carries mon _ _ _ h λ _. save-Carries mon _ h
  process_ipc_msg-Carries c at tx (checkpoint m) mon h = after-Carries mon _ _ _ h λ _.
      after-Carries mon _ _ _ h λ (saved : SubnetCheckpoint × Db).
        let stored = record mon { db = save_transaction saved.1 tx } in
        and_then-Carries _ _ _ _ (import_rotated-Carries c m.subnet_id saved.0 at.time stored h)
          λ mid same. done-Carries _ (ok tt) same
  process_ipc_msg-Carries c at tx (batch m) mon h = after-Carries mon _ _ _ h λ _.
      after-Carries mon _ _ _ h λ _. after-Carries mon _ _ _ h λ _. after-Carries mon _ _ _ h λ _.
        after-Carries mon _ _ _ h λ _.
          after-Carries mon _ _ _ h
            λ (saved : SubnetCheckpoint × Db). done-Carries (record mon { db = saved.1 }) (ok tt) h
  process_ipc_msg-Carries c at tx (stake m) mon h =
      after-Carries mon _ _ _ h λ _. save-Carries mon _ h
  process_ipc_msg-Carries c at tx (unstake m) mon h =
      after-Carries mon _ _ _ h λ _. save-Carries mon _ h
  process_ipc_msg-Carries c at tx (kill m) mon h =
      after-Carries mon _ _ _ h λ _. save-Carries mon _ h

  handled-Carries :
      (first second : Outcome) → Carries first second → Carries (handled first) (handled second)
  handled-Carries first (mid, ok done) h =
      subst (λ (o : Outcome). Carries (handled o) (mid, ok tt)) (sym h.carried)
        (done-Carries mid (ok tt) h.same_tracker)
  handled-Carries first (mid, err e) h =
      subst (λ (o : Outcome). Carries (handled o) (mid, handle_ipc_msg_error e)) (sym h.carried)
        (done-Carries mid (handle_ipc_msg_error e) h.same_tracker)

  process_found-Carries :
      (c : Config) (at : Position) (tx : Transaction) (msg : Option IpcMessage) (mon : Monitor)
      → mon.reward_tracker ≡ tracker
      → Carries
          (process_found c at tx msg (after_earlier earlier mon))
          (process_found c at tx msg mon)
  unfolding process_found
  process_found-Carries c at tx none mon h = done-Carries mon (ok tt) h
  process_found-Carries c at tx (some msg) mon h =
      handled-Carries _ _ (process_ipc_msg-Carries c at tx msg mon h)

  pub process_transaction-Carries :
      (c : Config) (at : Position) (tx : Transaction) (mon : Monitor)
      → mon.reward_tracker ≡ tracker
      → Carries
          (process_transaction c at tx (after_earlier earlier mon))
          (process_transaction c at tx mon)
  unfolding process_transaction
  process_transaction-Carries c at tx mon h =
      and_then-Carries _ _ _ _
        (each-Carries _ tx.input mon
          (λ (input : TxIn) mid same.
            each-Carries _ input.witness mid
              (λ witness now k. process_found-Carries c at tx (witness_message c witness) now k)
              same)
          h)
        λ mid same. process_found-Carries c at tx (output_message c mid.db tx) mid same
