-- ===== src/Monitor/Errors/Survives.antt =====
-- src/bin/monitor.rs: the errors of the steps of `process_ipc_msg`.
use bitcoin_ipc.Prelude.{ℕ, ◌≡◌, refl, subst, if-elim, Option, none, some, ◌==◌, arith}
use bitcoin_ipc.Result.{Error, Result, ok, err, ok_or, subnet_not_found}
use bitcoin_ipc.Types.{SubnetId}
use bitcoin_ipc.Subnet.{SubnetState, SubnetGenesisInfo}
use bitcoin_ipc.Records.{SubnetCheckpoint}
use bitcoin_ipc.Db.{Db, get_subnet_state}
use bitcoin_ipc.Monitor.{
  Config, Monitor, Outcome, after, and_then, is_ignorable, import_committee, committee_address,
  whitelist_address,
}
use bitcoin_ipc.Monitor.Messages.{save, import_bootstrapped, import_rotated, as_tx_invalid}
use bitcoin_ipc.Monitor.Errors.{Ignorable, NotFatal, Ignorable-NotFatal, err-injective}
use bitcoin_ipc.Monitor.Errors.Members.{expect-panic}

-- The errors of an outcome are not fatal, but for an abort.
unfoldable pub Survives : Outcome → Type 0
Survives o = (e : Error) → o.1 ≡ err e → NotFatal e

pub after-Survives {ℓ} :
    {A : Type ℓ} (mon : Monitor) (r : Result A) (rest : A → Outcome)
    → ((e : Error) → r ≡ err e → NotFatal e)
    → ((a : A) → r ≡ ok a → Survives (rest a))
    → Survives (after mon r rest)
unfolding after Survives
after-Survives mon (ok a) rest p q = q a refl
after-Survives mon (err x) rest p q =
    λ e h. subst NotFatal (err-injective {A = Unit {0}} h) (p x refl)

pub ok-Survives : (mon : Monitor) → Survives (mon, ok tt)
unfolding Survives
ok-Survives mon e h = cc

pub and_then-Survives :
    (first : Outcome) (rest : Monitor → Outcome)
    → Survives first
    → ((mid : Monitor) → Survives (rest mid))
    → Survives (and_then first rest)
unfolding Survives
and_then-Survives (mid, ok done) rest p q = q mid
and_then-Survives (mid, err x) rest p q = p

pub save-Survives :
    (mon : Monitor) (r : Result Db) → ((e : Error) → r ≡ err e → NotFatal e) → Survives (save mon r)
unfolding save
save-Survives mon r p = after-Survives mon r _ p (λ db _. ok-Survives _)

-- Errors that are ignored.
pub passes {ℓ} :
    {A : Type ℓ} {r : Result A}
    → ((e : Error) → r ≡ err e → Ignorable e)
    → (e : Error) → r ≡ err e
    → NotFatal e
passes p e h = Ignorable-NotFatal e (p e h)

pub missing-Ignorable {ℓ} :
    {A : Type ℓ} (o : Option A) (x : Error)
    → Ignorable x
    → (e : Error) → ok_or o x ≡ err e
    → Ignorable e
missing-Ignorable {A} none x known e h = subst Ignorable (err-injective {A = A} h) known
missing-Ignorable (some a) x known e h = absurd cc

pub committee_address-NotFatal :
    (c : Config) (s : SubnetState) (e : Error) → committee_address c s ≡ err e → NotFatal e
unfolding committee_address
committee_address-NotFatal c s e h = ground arith

pub import_committee-Survives :
    (c : Config) (s : SubnetState) (time : ℕ) (mon : Monitor)
    → Survives (import_committee c s time mon)
unfolding import_committee
import_committee-Survives c s time mon =
    after-Survives mon (committee_address c s) _ (committee_address-NotFatal c s)
      (λ a _. ok-Survives _)

pub import_bootstrapped-Survives :
    (c : Config) (s : Option SubnetState) (time : ℕ) (mon : Monitor)
    → Survives (import_bootstrapped c s time mon)
unfolding import_bootstrapped
import_bootstrapped-Survives c none time mon = ok-Survives mon
import_bootstrapped-Survives c (some s) time mon = import_committee-Survives c s time mon

pub import_rotated-Survives :
    (c : Config) (id : SubnetId) (saved : SubnetCheckpoint) (time : ℕ) (mon : Monitor)
    → Survives (import_rotated c id saved time mon)
unfolding import_rotated is_ignorable
import_rotated-Survives c id saved time mon =
    if-elim Survives (saved.signed_committee_number == saved.next_committee_number)
      (ok-Survives mon)
      (after-Survives mon _ _
        (passes (missing-Ignorable (get_subnet_state mon.db id) subnet_not_found refl))
        (λ s _. import_committee-Survives c s time mon))

pub whitelist_address-NotFatal :
    (c : Config) (info : SubnetGenesisInfo) (e : Error)
    → whitelist_address c.env info ≡ err e
    → NotFatal e
unfolding whitelist_address
whitelist_address-NotFatal c info e h = λ _. expect-panic _ e h

pub as_tx_invalid-Ignorable {ℓ} :
    {A : Type ℓ} (r : Result A) (e : Error) → as_tx_invalid r ≡ err e → Ignorable e
unfolding is_ignorable
as_tx_invalid-Ignorable (ok a) e h = absurd cc
as_tx_invalid-Ignorable {A} (err x) e h = subst Ignorable (err-injective {A = A} h) refl
