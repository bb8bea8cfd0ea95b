-- ===== src/Monitor/Errors/Fatal.antt =====
-- src/bin/monitor.rs: what a message can make `process_transaction` return.
use bitcoin_ipc.Prelude.{
  ◌≡◌, refl, ap, sym, ◌∙◌, ◌⊎◌, inl, inr, Bool-cases, Option, none, some, arith,
}
use bitcoin_ipc.Result.{Error, Result, ok, err, panic, ipc_tx_invalid, subnet_not_found}
use bitcoin_ipc.Types.{Transaction, TxOut}
use bitcoin_ipc.Subnet.{SubnetState}
use bitcoin_ipc.Records.{SubnetCheckpoint, IpcFundSubnetMsg}
use bitcoin_ipc.Db.{Db, save_transaction}
use bitcoin_ipc.Msg.Validate.{
  validate_prefund_msg, validate_fund_msg, validate_stake_msg, validate_unstake_msg,
  validate_kill_msg,
}
use bitcoin_ipc.Msg.Create.{IpcPrefundSubnetMsg, save_create}
use bitcoin_ipc.Msg.Stake.{IpcStakeCollateralMsg}
use bitcoin_ipc.Msg.Unstake.{IpcUnstakeCollateralMsg}
use bitcoin_ipc.Msg.Kill.{IpcKillSubnetMsg}
use bitcoin_ipc.Transactions.Witness.{
  IpcMessage, create, join, prefund, fund, checkpoint, batch, stake, unstake, kill,
}
use bitcoin_ipc.Monitor.{
  Config, Monitor, Outcome, Position, is_ignorable, handle_ipc_msg_error, handled, from_txid,
}
use bitcoin_ipc.Monitor.Messages.{process_ipc_msg, process_found}
use bitcoin_ipc.Monitor.Errors.{Ignorable, err-injective}
use bitcoin_ipc.Monitor.Errors.Carried.{
  validate_create-Ignorable, save_prefund-Ignorable, save_fund-Ignorable, validate_join-Ignorable,
  validate_join_msg-Ignorable, save_kill-Ignorable,
}
use bitcoin_ipc.Monitor.Errors.Checkpoints.{
  validate_checkpoint-Ignorable, save_checkpoint_msg-Ignorable, validate_batch-Ignorable,
  validate_for_checkpoint-Ignorable,
}
use bitcoin_ipc.Monitor.Errors.Ledger.{save_batch-Ignorable}
use bitcoin_ipc.Monitor.Errors.Joins.{save_join-NotFatal}
use bitcoin_ipc.Monitor.Errors.Stakes.{HasMinimum, save_stake-NotFatal}
use bitcoin_ipc.Monitor.Errors.Unstakes.{save_unstake-NotFatal}
use bitcoin_ipc.Monitor.Errors.Survives.{
  Survives, after-Survives, ok-Survives, and_then-Survives, save-Survives, passes,
  missing-Ignorable, import_bootstrapped-Survives, import_rotated-Survives,
  whitelist_address-NotFatal, as_tx_invalid-Ignorable,
}

validate_prefund-Ignorable :
    (m : IpcPrefundSubnetMsg) (e : Error) → validate_prefund_msg m ≡ err e → Ignorable e
unfolding validate_prefund_msg is_ignorable
validate_prefund-Ignorable m e h = ground arith

validate_fund-Ignorable :
    (m : IpcFundSubnetMsg) (e : Error) → validate_fund_msg m ≡ err e → Ignorable e
unfolding validate_fund_msg is_ignorable
validate_fund-Ignorable m e h = ground arith

validate_stake_msg-Ignorable :
    (m : IpcStakeCollateralMsg) (e : Error) → validate_stake_msg m ≡ err e → Ignorable e
unfolding validate_stake_msg is_ignorable
validate_stake_msg-Ignorable m e h = ground arith

validate_unstake_msg-Ignorable :
    (m : IpcUnstakeCollateralMsg) (e : Error) → validate_unstake_msg m ≡ err e → Ignorable e
unfolding validate_unstake_msg is_ignorable
validate_unstake_msg-Ignorable m e h = ground arith

validate_kill_msg-Ignorable :
    (m : IpcKillSubnetMsg) (e : Error) → validate_kill_msg m ≡ err e → Ignorable e
unfolding validate_kill_msg is_ignorable
validate_kill_msg-Ignorable m e h = ground arith

ipc_tx_invalid-Ignorable : Ignorable ipc_tx_invalid
unfolding is_ignorable
ipc_tx_invalid-Ignorable = refl

subnet_not_found-Ignorable : Ignorable subnet_not_found
unfolding is_ignorable
subnet_not_found-Ignorable = refl

pub process_ipc_msg-Survives :
    (c : Config) (at : Position) (tx : Transaction) (msg : IpcMessage) (mon : Monitor)
    → HasMinimum mon.db
    → Survives (process_ipc_msg c at tx msg mon)
unfolding process_ipc_msg
process_ipc_msg-Survives c at tx (create m) mon least =
    after-Survives mon _ _ (passes (validate_create-Ignorable m)) λ _ _.
      after-Survives _ _ _
        (whitelist_address-NotFatal c (save_create m mon.db at.height (from_txid tx.id)).0)
        (λ a _. ok-Survives _)
process_ipc_msg-Survives c at tx (join m) mon least =
    after-Survives mon _ _ (passes (missing-Ignorable _ ipc_tx_invalid ipc_tx_invalid-Ignorable))
      λ (output : TxOut) _.
        after-Survives mon _ _
          (passes (missing-Ignorable _ subnet_not_found subnet_not_found-Ignorable))
          λ g _. after-Survives mon _ _ (passes (validate_join-Ignorable _ g _)) λ _ _.
            after-Survives mon _ _ (passes (validate_join_msg-Ignorable _ _)) λ _ _.
              after-Survives mon _ _ (save_join-NotFatal c.env _ mon.db at.height at.hash tx.id)
                λ (saved : Option SubnetState × Db) _.
                  import_bootstrapped-Survives c saved.0 at.time _
process_ipc_msg-Survives c at tx (prefund m) mon least =
    after-Survives mon _ _ (passes (validate_prefund-Ignorable m))
      λ _ _. save-Survives mon _ (passes (save_prefund-Ignorable m mon.db at.height tx.id))
process_ipc_msg-Survives c at tx (fund m) mon least =
    after-Survives mon _ _ (passes (validate_fund-Ignorable m))
      λ _ _. save-Survives mon _ (passes (save_fund-Ignorable m mon.db at.height at.hash tx.id))
process_ipc_msg-Survives c at tx (checkpoint m) mon least =
    after-Survives mon _ _ (passes (validate_checkpoint-Ignorable c.is_valid_for_network m)) λ _ _.
      after-Survives mon _ _
        (passes (save_checkpoint_msg-Ignorable m mon.db at.height at.hash tx.id))
        λ (saved : SubnetCheckpoint × Db) _.
          and_then-Survives _ _
            (import_rotated-Survives c m.subnet_id saved.0 at.time
              (record mon { db = save_transaction saved.1 tx }))
            (λ mid. ok-Survives _)
process_ipc_msg-Survives c at tx (batch m) mon least =
    after-Survives mon _ _ (passes (validate_batch-Ignorable m)) λ _ _.
      after-Survives mon _ _ (passes (missing-Ignorable _ ipc_tx_invalid ipc_tx_invalid-Ignorable))
        λ checkpoint_tx _.
          after-Survives mon _ _ (passes (as_tx_invalid-Ignorable _)) λ checkpoint_msg _.
            after-Survives mon _ _
              (passes (validate_checkpoint-Ignorable c.is_valid_for_network checkpoint_msg))
              λ _ _.
                after-Survives mon _ _
                  (passes (validate_for_checkpoint-Ignorable c.crates.pushed m _ _))
                  λ _ _.
                    after-Survives mon _ _ (passes (save_batch-Ignorable _ mon.db _))
                      λ saved _. ok-Survives _
process_ipc_msg-Survives c at tx (stake m) mon least =
    after-Survives mon _ _ (passes (validate_stake_msg-Ignorable m)) λ _ _.
      save-Survives mon _ (λ e. save_stake-NotFatal c.env m mon.db at.height at.hash tx.id e least)
process_ipc_msg-Survives c at tx (unstake m) mon least =
    after-Survives mon _ _ (passes (validate_unstake_msg-Ignorable m))
      λ _ _. save-Survives mon _ (save_unstake-NotFatal c.env m mon.db at.height at.hash tx.id)
process_ipc_msg-Survives c at tx (kill m) mon least =
    after-Survives mon _ _ (passes (validate_kill_msg-Ignorable m)) λ _ _.
      save-Survives mon _ (passes (save_kill-Ignorable c.env m mon.db at.height at.hash tx.id))

handled-panic : (o : Outcome) (e : Error) → Survives o → (handled o).1 ≡ err e → e ≡ panic
unfolding handle_ipc_msg_error Survives
handled-panic (mon, ok done) e s h = cc
handled-panic (mon, err x) e s h = elim (Bool-cases (is_ignorable x)) [
  | inl skipped ↦ absurd (never (rw skipped at h))
  | inr fatal ↦ sym (err-injective {A = Unit {0}} (rw fatal at h)) ∙ s x refl fatal
]
  where
    never : {x : Error} → ◌≡◌ {A = Result (Unit {0})} (ok tt) (err x) → ⊥
    never p = cc

process_found-panic :
    (c : Config) (at : Position) (tx : Transaction) (found : Option IpcMessage) (mon : Monitor)
    (e : Error)
    → HasMinimum mon.db
    → (process_found c at tx found mon).1 ≡ err e
    → e ≡ panic
unfolding process_found
process_found-panic c at tx none mon e least h = cc
process_found-panic c at tx (some msg) mon e least h =
    handled-panic (process_ipc_msg c at tx msg mon) e
      (process_ipc_msg-Survives c at tx msg mon least) h

ends_as :
    (r : Result (Unit {0})) → ((e : Error) → r ≡ err e → e ≡ panic) → (r ≡ ok tt) ⊎ (r ≡ err panic)
ends_as (ok done) p = inl refl
ends_as (err e) p = inr (ap (λ x. err x) (p e refl))

-- What a message of any kind makes `process_transaction` return is a success or an abort, never another
-- error that would stop the monitor: every rejection is ignored. Every validator of a stored subnet
-- has at least the stake that the subnet's genesis asks for.
pub process_found_ends :
    (c : Config) (at : Position) (tx : Transaction) (found : Option IpcMessage) (mon : Monitor)
    → HasMinimum mon.db
    → ((process_found c at tx found mon).1 ≡ ok tt)
      ⊎ ((process_found c at tx found mon).1 ≡ err panic)
process_found_ends c at tx found mon least =
    ends_as (process_found c at tx found mon).1
      λ e h. process_found-panic c at tx found mon e least h
