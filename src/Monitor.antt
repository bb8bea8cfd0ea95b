-- ===== src/Monitor.antt =====
-- src/bin/monitor.rs: `Monitor`, which hands every message of a block to its handler.
pub mod Messages
pub mod Sync
pub mod SideEffects
pub mod Ignored
pub mod Collected
pub mod Errors
use bitcoin_ipc.Prelude.{
  ℕ, ◌+◌, ◌/◌, ◌^◌, ◌==◌, Bool, true, false, not, Option, none, some, List, [], ◌∷◌, ◌++◌, length,
  map, if◌then◌else◌,
}
use bitcoin_ipc.Result.{
  Error, Result, ok, err, ◌>>=◌, ok_or, fail_if, panic, ipc_tx_invalid, subnet_not_found,
  insufficient_collateral, collateral_too_high, insufficient_total_power, insufficient_funds,
  insufficient_funds_for_fee, no_utxos, insufficient_outputs, validator_exists, validator_missing,
  no_next_committee, bitcoin_rpc_error, block_height_ahead_of_tip,
}
use bitcoin_ipc.Types.{
  Env, SubnetId, Address, Txid, BlockHash, Transaction, TxIn, TxOut, XOnlyPublicKey, WeightedKey,
}
use bitcoin_ipc.Multisig.{create_subnet_multisig_address}
use bitcoin_ipc.Committee.{expect}
use bitcoin_ipc.Subnet.{SubnetState, SubnetGenesisInfo}
use bitcoin_ipc.Db.{Db, set_last_processed_block}
use bitcoin_ipc.Checkpoint.Wire.{Codec}
use bitcoin_ipc.Rewards.{RewardConfig}
use bitcoin_ipc.Transactions.{Crates}
use bitcoin_ipc.Transactions.Witness.{Postcard}

-- What the handlers take from outside, and the monitor's settings.
pub record Config : Type 0 where
  pub env : Env
  pub crates : Crates
  pub postcard : Postcard
  pub codec : Codec
  pub is_valid_for_network : Address → Bool
  pub sync_batch_size : ℕ

-- A label is the subnet and the number of its committee.
pub record SideEffect : Type 0 where
  pub address : Address
  pub label : SubnetId × ℕ
  pub timestamp : ℕ

pub record Monitor : Type 0 where
  pub db : Db
  pub current_height : ℕ
  pub side_effects : List SideEffect
  pub reward_tracker : Option RewardConfig

-- `Monitor::new`, and the tracker that `set_reward_tracker` may add.
abbrev pub new : Db → Option RewardConfig → Monitor
new db tracker = record { db = db; current_height = 0; side_effects = []; reward_tracker = tracker }

-- What a method leaves behind, and what it returns.
abbrev pub Outcome : Type 0
Outcome = Monitor × Result (Unit {0})

-- `result?`, and the rest of the method.
unfoldable pub after {ℓ} : {A : Type ℓ} → Monitor → Result A → (A → Outcome) → Outcome
after mon (err e) rest = (mon, err e)
after mon (ok a) rest = rest a

-- `self.method()?`, and the rest of the method.
abbrev pub and_then : Outcome → (Monitor → Outcome) → Outcome
and_then (mon, ok done) rest = rest mon
and_then (mon, err e) rest = (mon, err e)

-- A loop that a `?` may leave.
unfoldable pub each {ℓ} : {A : Type ℓ} → (A → Monitor → Outcome) → List A → Monitor → Outcome
each body [] mon = (mon, ok tt)
each body (a ∷ rest) mon = and_then (body a mon) (each body rest)

-- The height, hash and time of the block that is processed.
pub record Position : Type 0 where
  pub height : ℕ
  pub hash : BlockHash
  pub time : ℕ

unfoldable pub import_watchonly_address : Address → SubnetId × ℕ → ℕ → Monitor → Monitor
import_watchonly_address address label timestamp mon = record mon {
  side_effects =
      mon.side_effects ++ record { address = address; label = label; timestamp = timestamp } ∷ [];
}

-- `SubnetId::from_txid`: the first 20 of the 32 bytes.
unfoldable pub from_txid : Txid → SubnetId
from_txid txid = txid / 256 ^ 12

-- The address of the whitelist, whose keys weigh the same.
unfoldable pub whitelist_address : Env → SubnetGenesisInfo → Result Address
whitelist_address env info = expect (
    create_subnet_multisig_address env info.subnet_id
      (map (λ (key : XOnlyPublicKey). let k : WeightedKey = (key, 1) in k)
        info.create_subnet_msg.whitelist)
      info.create_subnet_msg.min_validators)

-- `committee_address_label`, whose address must be of the network.
unfoldable pub committee_address : Config → SubnetState → Result Address
committee_address c s =
    if c.is_valid_for_network s.committee.multisig_address
    then ok s.committee.multisig_address
    else err panic

unfoldable pub import_committee : Config → SubnetState → ℕ → Monitor → Outcome
unfolding committee_address import_watchonly_address
import_committee c s time mon =
    after mon (committee_address c s)
      λ address. (import_watchonly_address address (s.id, s.committee_number) time mon, ok tt)

-- The errors of `MultisigError`, `DbError` and the RPC client, and an abort, are fatal; the others
-- that a message causes are `IpcValidateError` or `IpcTxInvalid`.
unfoldable pub is_ignorable : Error → Bool
is_ignorable insufficient_collateral = false
is_ignorable collateral_too_high = false
is_ignorable insufficient_total_power = false
is_ignorable insufficient_funds = false
is_ignorable insufficient_funds_for_fee = false
is_ignorable no_utxos = false
is_ignorable insufficient_outputs = false
is_ignorable validator_exists = false
is_ignorable validator_missing = false
is_ignorable no_next_committee = false
is_ignorable bitcoin_rpc_error = false
is_ignorable block_height_ahead_of_tip = false
is_ignorable panic = false
is_ignorable _ = true

unfoldable pub handle_ipc_msg_error : Error → Result (Unit {0})
unfolding is_ignorable
handle_ipc_msg_error e = if is_ignorable e then ok tt else err e

abbrev pub handled : Outcome → Outcome
handled (mon, ok done) = (mon, ok tt)
handled (mon, err e) = (mon, handle_ipc_msg_error e)
