-- ===== src/Monitor/Errors.antt =====
-- src/bin/monitor.rs: the errors of a chain of checks, and which of them the monitor goes on from.
pub mod Carried
pub mod Checkpoints
pub mod Ledger
pub mod Members
pub mod Joins
pub mod Stakes
pub mod Unstakes
pub mod Survives
pub mod Fatal
use bitcoin_ipc.Prelude.{
  ℕ, ◌≡◌, refl, ap, sym, subst, not, ◌&&◌, ltb, length, ◌∙◌, Bool, true, false, Option, none, some,
  List, [], ◌∷◌, ◌==◌, if◌then◌else◌, arith,
}
use bitcoin_ipc.Result.{
  Error, Result, ok, err, ok_or, panic, fail_if, amount_zero, wrong_network, unparsed_address,
  address_zero, empty_name, checkpoint_height_zero, too_many_unstakes, too_many_withdrawals,
  too_many_destinations, change_address_set, checkpoint_txid_zero, empty_batch, bad_backup_address,
  ◌>>=◌, ◌>>◌,
}
use bitcoin_ipc.Types.{Env, SubnetId, Address, BlockHash, Txid, TxOut, Script}
use bitcoin_ipc.Subnet.{SubnetState, SubnetGenesisInfo, IpcCreateSubnetMsg}
use bitcoin_ipc.Records.{
  IpcFundSubnetMsg, IpcUnstake, IpcWithdrawal, IpcCrossSubnetTransfer, IpcErcTokenRegistration,
  IpcErcSupplyAdjustment, IpcCrossSubnetErcTransfer,
}
use bitcoin_ipc.Db.{Db}
use bitcoin_ipc.Msg.Create.{IpcPrefundSubnetMsg, validate_create, save_prefund}
use bitcoin_ipc.Msg.Fund.{save_fund}
use bitcoin_ipc.Msg.Join.{
  IpcJoinSubnetMsg, validate_join, validate_pre_bootstrap, validate_post_bootstrap,
}
use bitcoin_ipc.Msg.Validate.{validate_join_msg}
use bitcoin_ipc.Msg.Kill.{IpcKillSubnetMsg, save_kill, validate_kill}
use bitcoin_ipc.Msg.Unstake.{IpcUnstakeCollateralMsg, validator_key}
use bitcoin_ipc.Msg.Checkpoint.{IpcCheckpointSubnetMsg, save_checkpoint_msg, selected_change}
use bitcoin_ipc.Batch.{IpcBatchTransferMsg, save_batch}
use bitcoin_ipc.Batch.Valid.{
  validate_batch, check_native, check_etrs, check_etxs, is_empty_text, nothing_in,
}
use bitcoin_ipc.Checkpoint.Valid.{
  validate_checkpoint, check_unstakes, check_withdrawals, check_amounts,
}
use bitcoin_ipc.Checkpoint.Metadata.{extract_markers}
use bitcoin_ipc.Checkpoint.Read.{validate_for_checkpoint}
use bitcoin_ipc.Monitor.{is_ignorable}

pub err-injective {ℓ} : {A : Type ℓ} {x y : Error} → ◌≡◌ {A = Result A} (err x) (err y) → x ≡ y
err-injective h = cc

err-cong {ℓ} : {A : Type ℓ} {x y : Error} → x ≡ y → ◌≡◌ {A = Result A} (err x) (err y)
err-cong h = cc

-- An error that the monitor goes on from.
abbrev pub Ignorable : Error → Type 0
Ignorable e = is_ignorable e ≡ true

-- An error of a chain is one of its first step, or of the rest.
pub bind-errors {ℓ κ} :
    {A : Type ℓ} {B : Type κ} (P : Error → Type 0) (m : Result A) (f : A → Result B) (e : Error)
    → (m >>= f) ≡ err e
    → (m ≡ err e → P e)
    → ((a : A) → m ≡ ok a → f a ≡ err e → P e)
    → P e
bind-errors P (ok a) f e h p q = q a refl h
bind-errors {B} P (err x) f e h p q = p (err-cong (err-injective {A = B} h))

pub check-errors {κ} :
    {B : Type κ} (P : Error → Type 0) (b : Bool) (x : Error) (f : Unit {0} → Result B) (e : Error)
    → (fail_if b x >>= f) ≡ err e
    → P x
    → (b ≡ false → f tt ≡ err e → P e)
    → P e
check-errors {B} P true x f e h p q = subst P (err-injective {A = B} h) p
check-errors P false x f e h p q = q refl h

pub get-errors {ℓ κ} :
    {A : Type ℓ} {B : Type κ} (P : Error → Type 0) (o : Option A) (x : Error) (f : A → Result B)
    (e : Error)
    → (ok_or o x >>= f) ≡ err e
    → P x
    → ((a : A) → o ≡ some a → f a ≡ err e → P e)
    → P e
get-errors {B} P none x f e h p q = subst P (err-injective {A = B} h) p
get-errors P (some a) x f e h p q = q a refl h

-- An error that does not stop the monitor, or an abort.
abbrev pub NotFatal : Error → Type 0
NotFatal e = is_ignorable e ≡ false → e ≡ panic

pub Ignorable-NotFatal : (e : Error) → Ignorable e → NotFatal e
Ignorable-NotFatal e h f = absurd (true_false (sym h ∙ f))
  where
    true_false : true ≡ false → ⊥
    true_false p = cc
