-- ===== src/Msg/Kill.antt =====
-- src/ipc_lib.rs: `IpcKillSubnetMsg`.
pub mod Requests
pub mod Majority
use bitcoin_ipc.Prelude.{
  ℕ, zero, ◌+◌, ◌%◌, Bool, not, ◌||◌, Option, none, some, List, [], ◌∷◌, ◌++◌, any, leb, ◌==◌,
  if◌then◌else◌,
}
use bitcoin_ipc.Result.{
  Result, ok, err, ◌>>=◌, ◌>>◌, fail_if, ok_or, subnet_not_found, subnet_id_mismatch,
  not_a_validator, pubkey_required, duplicate_kill_request,
}
use bitcoin_ipc.Types.{Env, SubnetId, XOnlyPublicKey, Txid, BlockHash, Power, u32_mod}
use bitcoin_ipc.Multisig.{multisig_threshold}
use bitcoin_ipc.Committee.{SubnetValidator, SubnetCommittee, is_validator, total_power}
use bitcoin_ipc.Subnet.{
  SubnetState, SubnetGenesisInfo, SubnetKillState, not_killed, to_be_killed, killed_at,
  latest_committee,
}
use bitcoin_ipc.Records.{KillRequest}
use bitcoin_ipc.Db.{Db, get_subnet_genesis_info, get_subnet_state, save_subnet_state}
use bitcoin_ipc.Db.KillRequests.{add_kill_request, get_valid_kill_requests}
use bitcoin_ipc.Msg.Stake.{find_validator}
use bitcoin_ipc.Msg.Unstake.{validator_key}

pub record IpcKillSubnetMsg : Type 0 where
  pub subnet_id : SubnetId
  pub pubkey : Option XOnlyPublicKey

unfoldable pub validate_kill :
    IpcKillSubnetMsg → SubnetGenesisInfo → SubnetState → Result XOnlyPublicKey
validate_kill m g s = do
  fail_if (not (s.id == m.subnet_id) || not (g.subnet_id == m.subnet_id)) subnet_id_mismatch
  validator_key m.pubkey (latest_committee s)

abbrev pub power_of : Option SubnetValidator → Power
power_of none = 0
power_of (some v) = v.power

-- The loop over the valid requests, in `u32` arithmetic that wraps in a release build; a request
-- of a key that is no longer in the committee counts for nothing.
unfoldable pub kill_request_power : SubnetCommittee → List KillRequest → Power → Power
kill_request_power c [] acc = acc
kill_request_power c (r ∷ requests) acc =
    kill_request_power c requests ((acc + power_of (find_validator r.validator_xpk c)) % u32_mod)

abbrev pub or_else {ℓ} : {A : Type ℓ} → Option A → Option A → Option A
or_else none d = d
or_else (some a) d = some a

-- The state that is saved once the majority is reached; nothing is saved for a killed subnet.
unfoldable pub mark_for_kill : SubnetState → SubnetKillState → Option SubnetState
mark_for_kill s not_killed = some (record s {
  killed = to_be_killed;
  marked_for_kill_checkpoint_number =
      or_else s.last_checkpoint_number s.marked_for_kill_checkpoint_number;
})
mark_for_kill s to_be_killed = none
mark_for_kill s (killed_at height) = none

abbrev pub save_marked : Db → SubnetId → Option SubnetState → Db
save_marked db id none = db
save_marked db id (some s) = save_subnet_state db id s

-- Whether the requests, the new one included, reach the threshold of the committee.
unfoldable pub majority_reached : SubnetCommittee → List KillRequest → Bool
majority_reached c requests =
    leb (multisig_threshold (total_power c.validators)) (kill_request_power c requests 0)

abbrev pub kill_request : XOnlyPublicKey → ℕ → BlockHash → Txid → KillRequest
kill_request key height hash txid = record {
  validator_xpk = key;
  block_height = height;
  block_hash = hash;
  txid = txid;
}

unfoldable pub save_kill : Env → IpcKillSubnetMsg → Db → ℕ → BlockHash → Txid → Result Db
save_kill env m db height hash txid = do
  g ← ok_or (get_subnet_genesis_info db m.subnet_id) subnet_not_found
  s ← ok_or (get_subnet_state db m.subnet_id) subnet_not_found
  key ← validate_kill m g s
  v ← ok_or (find_validator key (latest_committee s)) not_a_validator
  let valid = get_valid_kill_requests env db m.subnet_id height
  fail_if (any (λ (r : KillRequest). r.validator_xpk == key) valid) duplicate_kill_request
  let request = kill_request key height hash txid
  let db = add_kill_request db m.subnet_id request
  ok (
      if majority_reached (latest_committee s) (valid ++ request ∷ [])
      then save_marked db m.subnet_id (mark_for_kill s s.killed)
      else db)
