-- ===== src/Tests/Monitor.antt =====
-- src/bin/monitor.rs: runs of the monitor.
use bitcoin_ipc.Prelude.{
  ℕ, ◌+◌, ◌-◌, ◌≡◌, ◌⊎◌, ◌≤◌, subst, refl, true, false, some, none, [], ◌∷◌, arith, if◌then◌else◌,
  ◌==◌,
}
use bitcoin_ipc.Result.{ok, err, panic}
use bitcoin_ipc.Types.{Transaction}
use bitcoin_ipc.Subnet.{SubnetState, SubnetGenesisInfo, latest_committee, is_killed_or_pending}
use bitcoin_ipc.Committee.{SubnetValidator}
use bitcoin_ipc.Table.{get}
use bitcoin_ipc.Db.{
  set_last_processed_block, get_last_processed_block, get_subnet_state, get_subnet_genesis_info,
}
use bitcoin_ipc.Msg.Stake.{find_validator}
use bitcoin_ipc.Msg.Fund.{save_fund}
use bitcoin_ipc.Msg.Validate.{validate_fund_msg}
use bitcoin_ipc.Transactions.Fund.{prefund_from_tx, fund_from_tx, fund_to_tx}
use bitcoin_ipc.Transactions.Witness.{IpcMessage, stake}
use bitcoin_ipc.Monitor.{Config, Monitor, Position, and_then, after, handle_ipc_msg_error}
use bitcoin_ipc.Monitor.Messages.{
  process_ipc_msg, process_found, process_transaction, output_message, witness_message,
}
use bitcoin_ipc.Monitor.Collected.{outcome_after_earlier}
use bitcoin_ipc.Monitor.Ignored.{Keeps, process_ipc_msg-Keeps}
use bitcoin_ipc.Monitor.Errors.Stakes.{HasMinimum}
use bitcoin_ipc.Monitor.Errors.Fatal.{process_found_ends}
use bitcoin_ipc.Monitor.SideEffects.{Wallet, imported, process_side_effects}
use bitcoin_ipc.Monitor.Sync.{Block, Node, sync, advance, process_block_data, track_block}
use bitcoin_ipc.Monitor.Sync.Follow.{follow, blocks_from}
use bitcoin_ipc.Monitor.Sync.CaughtUp.{EndsAs, sync-follow}
use bitcoin_ipc.Monitor.Sync.Restart.{restarted, follow-resume}
use bitcoin_ipc.Tests.Values.{env, alice_and_bob, genesis, state}
use bitcoin_ipc.Tests.Messages.{plain, codec}
use bitcoin_ipc.Tests.Transactions.{crates, db, fund_outs, spent}

abbrev config : Config
config = record {
  env = env;
  crates = crates;
  postcard = record { create_from_bytes = λ bytes. none; join_from_bytes = λ bytes. none };
  codec = codec plain;
  is_valid_for_network = λ address. true;
  sync_batch_size = 2;
}

abbrev monitor : Monitor
monitor = record { db = db; current_height = 120; side_effects = []; reward_tracker = none }

abbrev position : Position
position = record { height = 121; hash = 8; time = 1_700_000_000 }

-- A transaction that funds subnet 7.
abbrev tx : Transaction
tx = record { id = 77; input = spent ∷ []; output = fund_outs }

-- Alice adds to her stake.
abbrev stake_msg : IpcMessage
stake_msg = stake (record { subnet_id = 7; amount = 1_000_000; pubkey = 1 })

-- A stake of a key that is no validator.
abbrev stranger : IpcMessage
stranger = stake (record { subnet_id = 7; amount = 1_000_000; pubkey = 9 })

abbrev empty_block : Block
empty_block = record { hash = 9; time = 1_700_000_600; txdata = [] }

-- The transaction is in block 121.
abbrev chain : ℕ → Block
chain height =
    if height == 121
    then record { hash = 8; time = 1_700_000_000; txdata = tx ∷ [] }
    else empty_block

abbrev node : Node
node = record {
  get_block_count = λ n. ok 125;
  fetch_blocks_batched = λ n a b. ok (blocks_from chain a (b + 1 - a));
  get_block = λ n height. ok (chain height);
  is_cancelled = λ n. false;
}

process_ipc_msg-Keeps_example : Keeps monitor (process_ipc_msg config position tx stranger monitor)
process_ipc_msg-Keeps_example = process_ipc_msg-Keeps config position tx stranger monitor

-- A wallet that knows no address yet and imports what it is given.
abbrev wallet : Wallet
wallet = record {
  is_address_imported = λ address. some false;
  import_address_batch = λ effects. imported;
}

sync-follow_example : EndsAs (sync config node wallet 1 0 monitor) (
    and_then
      (follow config chain 5 (record monitor { current_height = 120 }))
      (process_side_effects wallet))
unfolding get_last_processed_block
sync-follow_example =
    sync-follow config node chain (λ n a b h. refl) 125 0 0 wallet monitor (omega arith) (λ n. refl)
      (λ n. refl) (omega arith)

-- Alice and bob have more than 1,000,000 satoshis.
least_of :
    (key : ℕ) (v : SubnetValidator)
    → find_validator key alice_and_bob ≡ some v
    → 1_000_000 ≤ v.collateral
unfolding find_validator
least_of key v h = ground arith

stored_state :
    (id : ℕ) (s : SubnetState) → get_subnet_state db id ≡ some s → s ≡ state alice_and_bob none
unfolding get_subnet_state get
stored_state id s h = ground arith

has_minimum : HasMinimum db
unfolding get_subnet_genesis_info latest_committee
has_minimum id g s key v hg hs hv =
    let same : genesis alice_and_bob.validators ≡ g = cc in
    subst (λ (g : SubnetGenesisInfo). g.create_subnet_msg.min_validator_stake ≤ v.collateral) same
      (least_of key v
        (subst (λ s. find_validator key (latest_committee s) ≡ some v) (stored_state id s hs) hv))

process_found_ends_example :
    ((process_found config position tx (some stake_msg) monitor).1 ≡ ok tt)
    ⊎ ((process_found config position tx (some stake_msg) monitor).1 ≡ err panic)
process_found_ends_example =
    process_found_ends config position tx (some stake_msg) monitor has_minimum

-- A monitor that has an address to import.
abbrev waiting : Monitor
waiting = record monitor {
  side_effects = (record { address = 844; label = (7, 1); timestamp = 1_700_000_000 }) ∷ [];
}

-- Block 121, with the transaction, and two more after a stop.
follow-resume_example :
    follow config chain 3 waiting
    ≡ outcome_after_earlier waiting.side_effects
        (follow config chain 2 (restarted (follow config chain 1 waiting).0.db none))
unfolding get_last_processed_block follow advance process_block_data track_block get_subnet_state
    set_last_processed_block process_transaction process_found process_ipc_msg output_message
    witness_message prefund_from_tx fund_from_tx fund_to_tx validate_fund_msg save_fund after
    handle_ipc_msg_error get is_killed_or_pending
follow-resume_example =
    follow-resume config chain 1 2 waiting (follow config chain 1 waiting).0 refl refl
