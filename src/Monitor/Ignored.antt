-- ===== src/Monitor/Ignored.antt =====
-- src/bin/monitor.rs: what an ignored message leaves behind.
use bitcoin_ipc.Prelude.{
  ℕ, ◌≡◌, refl, sym, ◌∙◌, true, false, Option, none, some, ◌==◌, if-elim, arith,
}
use bitcoin_ipc.Result.{
  Error, Result, ok, err, ok_or, ok_or-eq-ok, >>=-elim, panic, subnet_not_found,
}
use bitcoin_ipc.Types.{SubnetId, Transaction, Address, BlockHash, Txid}
use bitcoin_ipc.Committee.{expect}
use bitcoin_ipc.Subnet.{SubnetState, SubnetGenesisInfo}
use bitcoin_ipc.Records.{SubnetCheckpoint}
use bitcoin_ipc.Db.{Db, get_subnet_state, save_transaction}
use bitcoin_ipc.Msg.Checkpoint.{IpcCheckpointSubnetMsg, save_checkpoint_msg}
use bitcoin_ipc.Msg.Checkpoint.Recorded.{Recorded, save_checkpoint_msg-Recorded}
use bitcoin_ipc.Msg.Create.{save_create}
use bitcoin_ipc.Monitor.{
  Config, Monitor, Outcome, Position, after, and_then, is_ignorable, import_committee,
  committee_address, from_txid, whitelist_address,
}
use bitcoin_ipc.Monitor.Messages.{process_ipc_msg, import_rotated, import_bootstrapped, save}
use bitcoin_ipc.Transactions.Witness.{
  IpcMessage, create, join, prefund, fund, checkpoint, batch, stake, unstake, kill,
}

-- An outcome with an error that is ignored leaves the monitor as it was.
unfoldable pub Keeps : Monitor → Outcome → Type 0
Keeps mon (mon', ok done) = Unit {0}
Keeps mon (mon', err e) = is_ignorable e ≡ true → mon' ≡ mon

done-Keeps : (mon mon' : Monitor) → Keeps mon (mon', ok tt)
unfolding Keeps
done-Keeps mon mon' = tt

after-Keeps {ℓ} :
    {A : Type ℓ} (mon : Monitor) (r : Result A) (rest : A → Outcome)
    → ((a : A) → r ≡ ok a → Keeps mon (rest a))
    → Keeps mon (after mon r rest)
unfolding Keeps after
after-Keeps mon (ok a) rest k = k a refl
after-Keeps mon (err e) rest k = λ _. refl

not_ignorable : (e : Error) → e ≡ panic → is_ignorable e ≡ false
unfolding is_ignorable
not_ignorable e h = rw h refl

aborting-Keeps {ℓ} :
    {A : Type ℓ} (mon mon' : Monitor) (r : Result A) (rest : A → Outcome)
    → ((e : Error) → r ≡ err e → e ≡ panic)
    → ((a : A) → r ≡ ok a → Keeps mon (rest a))
    → Keeps mon (after mon' r rest)
unfolding Keeps after
aborting-Keeps mon mon' (ok a) rest aborts k = k a refl
aborting-Keeps mon mon' (err e) rest aborts k =
    λ h. absurd (clash (sym h ∙ not_ignorable e (aborts e refl)))
  where
    clash : true ≡ false → ⊥
    clash p = cc

expect-aborts : (r : Result Address) (e : Error) → expect r ≡ err e → e ≡ panic
expect-aborts (ok a) e h = cc
expect-aborts (err x) e h = cc

whitelist-aborts :
    (c : Config) (info : SubnetGenesisInfo) (e : Error)
    → whitelist_address c.env info ≡ err e
    → e ≡ panic
unfolding whitelist_address
whitelist-aborts c info e h = expect-aborts _ e h

committee-aborts :
    (c : Config) (s : SubnetState) (e : Error) → committee_address c s ≡ err e → e ≡ panic
unfolding committee_address
committee-aborts c s e h = ground arith

import_committee-Keeps :
    (c : Config) (s : SubnetState) (time : ℕ) (mon mon' : Monitor)
    → Keeps mon (import_committee c s time mon')
unfolding import_committee
import_committee-Keeps c s time mon mon' =
    aborting-Keeps mon mon' (committee_address c s) _ (committee-aborts c s)
      (λ a _. done-Keeps mon _)

import_bootstrapped-Keeps :
    (c : Config) (s : Option SubnetState) (time : ℕ) (mon mon' : Monitor)
    → Keeps mon (import_bootstrapped c s time mon')
unfolding import_bootstrapped Keeps
import_bootstrapped-Keeps c none time mon mon' = tt
import_bootstrapped-Keeps c (some s) time mon mon' = import_committee-Keeps c s time mon mon'

save-Keeps : (mon : Monitor) (r : Result Db) → Keeps mon (save mon r)
unfolding save
save-Keeps mon r = after-Keeps mon r _ (λ db _. done-Keeps mon _)

import_rotated-Keeps :
    (c : Config) (id : ℕ) (saved : SubnetCheckpoint) (time : ℕ) (mon mon' : Monitor)
    (s : SubnetState)
    → get_subnet_state mon'.db id ≡ some s
    → Keeps mon (import_rotated c id saved time mon')
unfolding import_rotated after
import_rotated-Keeps c id saved time mon mon' s h =
    if-elim (Keeps mon) (saved.signed_committee_number == saved.next_committee_number)
      (done-Keeps mon mon') (rw h (import_committee-Keeps c s time mon mon'))

and_then-Keeps :
    (mon : Monitor) (first : Outcome) (rest : Monitor → Outcome)
    → Keeps mon first
    → ((mid : Monitor) → Keeps mon (rest mid))
    → Keeps mon (and_then first rest)
unfolding Keeps
and_then-Keeps mon (mid, ok done) rest k later = later mid
and_then-Keeps mon (mid, err e) rest k later = k

-- A checkpoint is saved for a subnet that has a state, before and after.
pub get_subnet_state-save_transaction :
    (db : Db) (tx : Transaction) (id : SubnetId)
    → get_subnet_state (save_transaction db tx) id ≡ get_subnet_state db id
unfolding get_subnet_state save_transaction
get_subnet_state-save_transaction db tx id = refl

of_Recorded :
    (m : IpcCheckpointSubnetMsg) (height : ℕ) (hash : BlockHash) (txid : Txid) (s : SubnetState)
    (db db' : Db) (c : SubnetCheckpoint)
    → Recorded m height hash txid s db c db'
    → (s' : SubnetState) × (get_subnet_state db' m.subnet_id ≡ some s')
unfolding Recorded
of_Recorded m height hash txid s db db' c r = (r.0, r.1)

pub saved_subnet :
    (m : IpcCheckpointSubnetMsg) (db db' : Db) (height : ℕ) (hash : BlockHash) (txid : Txid)
    (c : SubnetCheckpoint)
    → save_checkpoint_msg m db height hash txid ≡ ok (c, db')
    → (s : SubnetState) × (get_subnet_state db' m.subnet_id ≡ some s)
unfolding save_checkpoint_msg
saved_subnet m db db' height hash txid c h =
    >>=-elim (ok_or (get_subnet_state db m.subnet_id) subnet_not_found) _ h λ s found _.
      let recorded =
        save_checkpoint_msg-Recorded m db db' height hash txid s c
          (ok_or-eq-ok (get_subnet_state db m.subnet_id) subnet_not_found found) h in
      of_Recorded m height hash txid s db db' c recorded.1

-- A message of any kind that ends with an ignorable error leaves the whole monitor as it was: the
-- database, the height, the addresses to import and the reward tracker.
pub process_ipc_msg-Keeps :
    (c : Config) (at : Position) (tx : Transaction) (msg : IpcMessage) (mon : Monitor)
    → Keeps mon (process_ipc_msg c at tx msg mon)
unfolding process_ipc_msg
process_ipc_msg-Keeps c at tx (create m) mon = after-Keeps mon _ _ λ _ _.
    aborting-Keeps mon _ _ _
      (whitelist-aborts c (save_create m mon.db at.height (from_txid tx.id)).0)
      (λ a _. done-Keeps mon _)
process_ipc_msg-Keeps c at tx (join m) mon = after-Keeps mon _ _ λ output _.
    after-Keeps mon _ _ λ g _. after-Keeps mon _ _ λ _ _. after-Keeps mon _ _ λ _ _.
      after-Keeps mon _ _
        λ (saved : Option SubnetState × Db) _. import_bootstrapped-Keeps c saved.0 at.time mon _
process_ipc_msg-Keeps c at tx (prefund m) mon = after-Keeps mon _ _ λ _ _. save-Keeps mon _
process_ipc_msg-Keeps c at tx (fund m) mon = after-Keeps mon _ _ λ _ _. save-Keeps mon _
process_ipc_msg-Keeps c at tx (checkpoint m) mon = after-Keeps mon _ _ λ _ _.
    after-Keeps mon _ _ λ (saved : SubnetCheckpoint × Db) h.
      let (s, found) = saved_subnet m mon.db saved.1 at.height at.hash tx.id saved.0 h in
      and_then-Keeps mon _ _
        (import_rotated-Keeps c m.subnet_id saved.0 at.time mon
          (record mon { db = save_transaction saved.1 tx }) s
          (get_subnet_state-save_transaction saved.1 tx m.subnet_id ∙ found))
        (λ mid. done-Keeps mon _)
process_ipc_msg-Keeps c at tx (batch m) mon = after-Keeps mon _ _ λ _ _.
    after-Keeps mon _ _ λ checkpoint_tx _. after-Keeps mon _ _ λ checkpoint_msg _.
      after-Keeps mon _ _
        λ _ _. after-Keeps mon _ _ λ _ _. after-Keeps mon _ _ λ saved _. done-Keeps mon _
process_ipc_msg-Keeps c at tx (stake m) mon = after-Keeps mon _ _ λ _ _. save-Keeps mon _
process_ipc_msg-Keeps c at tx (unstake m) mon = after-Keeps mon _ _ λ _ _. save-Keeps mon _
process_ipc_msg-Keeps c at tx (kill m) mon = after-Keeps mon _ _ λ _ _. save-Keeps mon _
