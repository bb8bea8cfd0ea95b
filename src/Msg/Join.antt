-- ===== src/Msg/Join.antt =====
-- src/ipc_lib.rs: `IpcJoinSubnetMsg`, before and after the subnet is bootstrapped.
pub mod Bootstrap
pub mod Numbered
use bitcoin_ipc.Prelude.{
  ℕ, ◌+◌, Bool, true, false, not, Option, none, some, List, [], ◌∷◌, ◌++◌, any, ltb, ◌==◌,
  if◌then◌else◌,
}
use bitcoin_ipc.Result.{
  Result, ok, err, ◌>>=◌, ◌>>◌, fail_if, ok_or, subnet_not_found, subnet_id_mismatch, subnet_killed,
  collateral_too_low, not_whitelisted, already_registered, already_waiting,
}
use bitcoin_ipc.Types.{Env, SubnetId, XOnlyPublicKey, Address, Txid, BlockHash, Amount}
use bitcoin_ipc.Multisig.{collateral_to_power}
use bitcoin_ipc.Committee.{
  SubnetValidator, SubnetCommittee, is_member, is_validator, join_new_validator,
}
use bitcoin_ipc.Subnet.{
  SubnetState, SubnetGenesisInfo, is_killed_or_pending, is_some_and, is_waiting_validator,
  latest_committee, enough_to_bootstrap, to_subnet,
}
use bitcoin_ipc.Records.{StakeChangeRequest, StakingChange, deposit, join}
use bitcoin_ipc.Db.{
  Db, get_subnet_genesis_info, save_subnet_genesis_info, get_subnet_state, save_subnet_state,
  save_committee,
}
use bitcoin_ipc.Db.StakeChanges.{get_next_stake_change_configuration_number, add_stake_change}

pub record IpcJoinSubnetMsg : Type 0 where
  pub subnet_id : SubnetId
  pub collateral : Amount
  pub ip : ℕ
  pub backup_address : Address
  pub pubkey : XOnlyPublicKey

unfoldable pub contains_key : XOnlyPublicKey → List XOnlyPublicKey → Bool
contains_key key keys = any (λ k. k == key) keys

unfoldable pub validate_pre_bootstrap : IpcJoinSubnetMsg → SubnetGenesisInfo → Result (Unit {0})
validate_pre_bootstrap m g = do
  fail_if (ltb m.collateral g.create_subnet_msg.min_validator_stake) collateral_too_low
  fail_if (not (contains_key m.pubkey g.create_subnet_msg.whitelist)) not_whitelisted
  fail_if (is_member m.pubkey g.genesis_validators) already_registered

unfoldable pub validate_post_bootstrap :
    IpcJoinSubnetMsg → SubnetGenesisInfo → SubnetState → Result (Unit {0})
validate_post_bootstrap m g s = do
  fail_if (is_killed_or_pending s) subnet_killed
  fail_if (ltb m.collateral g.create_subnet_msg.min_validator_stake) collateral_too_low
  fail_if (is_validator s.committee m.pubkey) already_registered
  fail_if (is_waiting_validator s m.pubkey) already_waiting

unfoldable pub validate_join :
    IpcJoinSubnetMsg → SubnetGenesisInfo → Option SubnetState → Result (Unit {0})
validate_join m g none = validate_pre_bootstrap m g
validate_join m g (some s) =
    fail_if (not (s.id == m.subnet_id)) subnet_id_mismatch >> validate_post_bootstrap m g s

-- The two stake changes of a join differ in their content and number.
unfoldable pub join_change :
    Env
    → IpcJoinSubnetMsg
    → SubnetCommittee
    → StakingChange
    → ℕ
    → ℕ
    → BlockHash
    → Txid
    → StakeChangeRequest
join_change env m next change number height hash txid = record {
  change = change;
  validator_xpk = m.pubkey;
  validator_subnet_address = env.eth_address m.pubkey;
  configuration_number = number;
  committee_after_change = next;
  block_height = height;
  block_hash = hash;
  checkpoint_block_height = none;
  checkpoint_block_hash = none;
  txid = txid;
}

unfoldable pub join_bootstrapped :
    Env
    → IpcJoinSubnetMsg
    → Db
    → SubnetState
    → SubnetValidator
    → ℕ
    → BlockHash
    → Txid
    → Result (Option SubnetState × Db)
join_bootstrapped env m db s v height hash txid = do
  fail_if (is_validator s.committee m.pubkey) already_registered
  fail_if (is_validator (latest_committee s) m.pubkey) already_waiting
  next ← join_new_validator env (latest_committee s) s.id v
  let number = get_next_stake_change_configuration_number db m.subnet_id
  let db = save_subnet_state db m.subnet_id (record s { waiting_committee = some next })
  let db =
      add_stake_change db m.subnet_id
        (join_change env m next (join m.pubkey) number height hash txid)
  ok (
    none,
    add_stake_change db m.subnet_id
        (join_change env m next (deposit m.collateral) (number + 1) height hash txid),
  )

-- The subnet comes to life once enough validators have joined.
unfoldable pub join_genesis :
    Env
    → IpcJoinSubnetMsg
    → Db
    → SubnetGenesisInfo
    → SubnetValidator
    → ℕ
    → Result (Option SubnetState × Db)
join_genesis env m db g v height =
    let joined : SubnetGenesisInfo = record g {
      genesis_validators = g.genesis_validators ++ v ∷ [];
    } in
    if enough_to_bootstrap joined
    then (do
      let info = record joined { bootstrapped = true; genesis_block_height = some height }
      s ← to_subnet env info
      let db = save_subnet_state db m.subnet_id s
      let db = save_subnet_genesis_info db m.subnet_id info
      ok (some s, save_committee db m.subnet_id s.committee_number s.committee))
    else ok (none, save_subnet_genesis_info db m.subnet_id joined)

unfoldable pub join_subnet :
    Env
    → IpcJoinSubnetMsg
    → Db
    → SubnetGenesisInfo
    → Option SubnetState
    → SubnetValidator
    → ℕ
    → BlockHash
    → Txid
    → Result (Option SubnetState × Db)
join_subnet env m db g (some s) v height hash txid = join_bootstrapped env m db s v height hash txid
join_subnet env m db g none v height hash txid = join_genesis env m db g v height

unfoldable pub save_join :
    Env → IpcJoinSubnetMsg → Db → ℕ → BlockHash → Txid → Result (Option SubnetState × Db)
save_join env m db height hash txid = do
  g ← ok_or (get_subnet_genesis_info db m.subnet_id) subnet_not_found
  validate_join m g (get_subnet_state db m.subnet_id)
  power ← collateral_to_power m.collateral g.create_subnet_msg.min_validator_stake
  let v : SubnetValidator = record {
    pubkey = m.pubkey;
    subnet_address = env.eth_address m.pubkey;
    power = power;
    collateral = m.collateral;
    backup_address = m.backup_address;
    ip = m.ip;
    join_txid = txid;
  }
  join_subnet env m db g (get_subnet_state db m.subnet_id) v height hash txid
