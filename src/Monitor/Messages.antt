-- ===== src/Monitor/Messages.antt =====
-- src/bin/monitor.rs: `process_ipc_msg`, `process_transaction` and `process_block_data`.
use bitcoin_ipc.Prelude.{ℕ, ◌==◌, Option, none, some, List, [], ◌∷◌, if◌then◌else◌}
use bitcoin_ipc.Result.{Result, ok, err, ◌>>=◌, ok_or, ipc_tx_invalid, subnet_not_found}
use bitcoin_ipc.Types.{SubnetId, Transaction, TxIn, TxOut}
use bitcoin_ipc.Subnet.{SubnetState, IpcCreateSubnetMsg}
use bitcoin_ipc.Records.{SubnetCheckpoint}
use bitcoin_ipc.Db.{
  Db, get_subnet_genesis_info, get_subnet_state, get_transaction, save_transaction,
}
use bitcoin_ipc.Msg.Create.{validate_create, save_create, save_prefund}
use bitcoin_ipc.Msg.Join.{IpcJoinSubnetMsg, validate_join, save_join}
use bitcoin_ipc.Msg.Fund.{save_fund}
use bitcoin_ipc.Msg.Stake.{save_stake}
use bitcoin_ipc.Msg.Unstake.{save_unstake}
use bitcoin_ipc.Msg.Kill.{save_kill, or_else}
use bitcoin_ipc.Msg.Checkpoint.{IpcCheckpointSubnetMsg, save_checkpoint_msg}
use bitcoin_ipc.Msg.Validate.{
  validate_join_msg, validate_prefund_msg, validate_fund_msg, validate_stake_msg,
  validate_unstake_msg, validate_kill_msg,
}
use bitcoin_ipc.Batch.{IpcBatchTransferMsg, save_batch}
use bitcoin_ipc.Batch.Valid.{validate_batch}
use bitcoin_ipc.Checkpoint.Valid.{validate_checkpoint}
use bitcoin_ipc.Checkpoint.Read.{from_checkpoint_tx, validate_for_checkpoint}
use bitcoin_ipc.Checkpoint.Wire.{from_tx}
use bitcoin_ipc.Rewards.Rotated.{update_after_checkpoint}
use bitcoin_ipc.Rewards.{RewardConfig}
use bitcoin_ipc.Transactions.Fund.{prefund_from_tx, fund_from_tx}
use bitcoin_ipc.Transactions.Stake.{stake_from_tx}
use bitcoin_ipc.Transactions.Signed.{unstake_from_tx, kill_from_tx}
use bitcoin_ipc.Transactions.Witness.{
  IpcMessage, create, join, prefund, fund, checkpoint, batch, stake, unstake, kill, from_witness,
}
use bitcoin_ipc.Monitor.{
  Config, Monitor, Outcome, Position, after, and_then, each, from_txid, whitelist_address,
  import_watchonly_address, import_committee, handled,
}

abbrev first_output : List TxOut → Option TxOut
first_output [] = none
first_output (out ∷ outs) = some out

-- The database that a handler returns.
unfoldable pub save : Monitor → Result Db → Outcome
save mon saved = after mon saved λ db. (record mon { db = db }, ok tt)

unfoldable pub process_create :
    Config → Position → Transaction → IpcCreateSubnetMsg → Monitor → Outcome
process_create c at tx m mon = after mon (validate_create m) λ _.
    let saved = save_create m mon.db at.height (from_txid tx.id) in
    let mon' = record mon { db = saved.1 } in
    after mon' (whitelist_address c.env saved.0)
      λ address. (import_watchonly_address address (saved.0.subnet_id, 0) at.time mon', ok tt)

-- The address of a subnet that the join brought to life.
unfoldable pub import_bootstrapped : Config → Option SubnetState → ℕ → Monitor → Outcome
unfolding import_committee
import_bootstrapped c none time mon = (mon, ok tt)
import_bootstrapped c (some s) time mon = import_committee c s time mon

-- The collateral is the value of the first output.
unfoldable pub process_join : Config → Position → Transaction → IpcJoinSubnetMsg → Monitor → Outcome
process_join c at tx m mon = after mon (ok_or (first_output tx.output) ipc_tx_invalid) λ output.
    let m = record m { collateral = output.value } in
    after mon (ok_or (get_subnet_genesis_info mon.db m.subnet_id) subnet_not_found) λ g.
      after mon (validate_join m g (get_subnet_state mon.db m.subnet_id)) λ _.
        after mon (validate_join_msg c.is_valid_for_network m) λ _.
          after mon (save_join c.env m mon.db at.height at.hash tx.id)
            λ saved. import_bootstrapped c saved.0 at.time (record mon { db = saved.1 })

-- An error of the bookkeeping is only logged; it writes at its end.
unfoldable pub track_checkpoint : Option RewardConfig → Db → ℕ → SubnetId → SubnetCheckpoint → Db
track_checkpoint none db height id saved = db
track_checkpoint (some cfg) db height id saved =
    elim (update_after_checkpoint cfg db height id saved) [ ok db' ↦ db' | err e ↦ db ]

-- Import the address of the new committee, if it changed.
unfoldable pub import_rotated : Config → SubnetId → SubnetCheckpoint → ℕ → Monitor → Outcome
unfolding import_committee
import_rotated c id saved time mon =
    if saved.signed_committee_number == saved.next_committee_number
    then (mon, ok tt)
    else after mon (ok_or (get_subnet_state mon.db id) subnet_not_found)
        λ subnet. import_committee c subnet time mon

unfoldable pub process_checkpoint :
    Config → Position → Transaction → IpcCheckpointSubnetMsg → Monitor → Outcome
process_checkpoint c at tx m mon = after mon (validate_checkpoint c.is_valid_for_network m) λ _.
    after mon (save_checkpoint_msg m mon.db at.height at.hash tx.id) λ saved.
      and_then
        (import_rotated c m.subnet_id saved.0 at.time
          (record mon { db = save_transaction saved.1 tx }))
        λ mon. (
          record mon {
            db = track_checkpoint mon.reward_tracker mon.db at.height m.subnet_id saved.0;
          },
          ok tt,
        )

-- `map_err(IpcTxInvalid)`
abbrev pub as_tx_invalid {ℓ} : {A : Type ℓ} → Result A → Result A
as_tx_invalid (ok a) = ok a
as_tx_invalid (err e) = err ipc_tx_invalid

-- The batch goes to the subnet of its checkpoint.
unfoldable pub process_batch :
    Config → Position → Transaction → IpcBatchTransferMsg → Monitor → Outcome
process_batch c at tx m mon = after mon (validate_batch m) λ _.
    after mon (ok_or (get_transaction mon.db m.checkpoint_txid) ipc_tx_invalid) λ checkpoint_tx.
      after mon (as_tx_invalid (from_checkpoint_tx c.crates.pushed mon.db checkpoint_tx.output))
        λ checkpoint_msg. after mon (validate_checkpoint c.is_valid_for_network checkpoint_msg) λ _.
          after mon
            (validate_for_checkpoint c.crates.pushed m checkpoint_tx.id checkpoint_tx.output)
            λ _.
              after mon
                (save_batch (record m { subnet_id = checkpoint_msg.subnet_id }) mon.db
                  (record { block_height = at.height; block_hash = at.hash; txid = tx.id }))
                λ saved. (record mon { db = saved.1 }, ok tt)

unfoldable pub process_ipc_msg : Config → Position → Transaction → IpcMessage → Monitor → Outcome
unfolding process_create process_join process_checkpoint process_batch save
process_ipc_msg c at tx (create m) mon = process_create c at tx m mon
process_ipc_msg c at tx (join m) mon = process_join c at tx m mon
process_ipc_msg c at tx (prefund m) mon =
    after mon (validate_prefund_msg m) λ _. save mon (save_prefund m mon.db at.height tx.id)
process_ipc_msg c at tx (fund m) mon =
    after mon (validate_fund_msg m) λ _. save mon (save_fund m mon.db at.height at.hash tx.id)
process_ipc_msg c at tx (checkpoint m) mon = process_checkpoint c at tx m mon
process_ipc_msg c at tx (batch m) mon = process_batch c at tx m mon
process_ipc_msg c at tx (stake m) mon =
    after mon (validate_stake_msg m)
      λ _. save mon (save_stake c.env m mon.db at.height at.hash tx.id)
process_ipc_msg c at tx (unstake m) mon =
    after mon (validate_unstake_msg m)
      λ _. save mon (save_unstake c.env m mon.db at.height at.hash tx.id)
process_ipc_msg c at tx (kill m) mon =
    after mon (validate_kill_msg m) λ _. save mon (save_kill c.env m mon.db at.height at.hash tx.id)

-- A message that is found, and its error handled.
unfoldable pub process_found :
    Config → Position → Transaction → Option IpcMessage → Monitor → Outcome
process_found c at tx none mon = (mon, ok tt)
process_found c at tx (some msg) mon = handled (process_ipc_msg c at tx msg mon)

abbrev pub message_of {ℓ} : {A : Type ℓ} → (A → IpcMessage) → Result A → Option IpcMessage
message_of tag (ok m) = some (tag m)
message_of tag (err e) = none

-- The message of a witness element; an empty one is passed over.
unfoldable pub witness_message : Config → List ℕ → Option IpcMessage
witness_message c [] = none
witness_message c (b ∷ bytes) =
    message_of (λ m. m)
      (ok_or (c.codec.concatenate_op_push_data (b ∷ bytes)) ipc_tx_invalid
        >>= from_witness c.postcard)

-- The first message that the transaction is read as, of those not carried by a witness.
unfoldable pub output_message : Config → Db → Transaction → Option IpcMessage
output_message c db tx = or_else (message_of prefund (prefund_from_tx c.crates tx.output)) (
    or_else (message_of fund (fund_from_tx c.crates tx.output)) (
      or_else (message_of checkpoint (from_checkpoint_tx c.crates.pushed db tx.output)) (
        or_else (message_of batch (from_tx c.codec db tx.input)) (
          or_else (message_of stake (stake_from_tx c.crates db tx.output)) (
            or_else (message_of unstake (unstake_from_tx c.crates db tx.input tx.output))
              (message_of kill (kill_from_tx c.crates db tx.input tx.output)))))))

unfoldable pub process_transaction : Config → Position → Transaction → Monitor → Outcome
process_transaction c at tx mon =
    and_then
      (each
        (λ (input : TxIn).
          each (λ witness. process_found c at tx (witness_message c witness)) input.witness)
        tx.input mon)
      λ mon. process_found c at tx (output_message c mon.db tx) mon
