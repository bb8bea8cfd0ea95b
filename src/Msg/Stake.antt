-- ===== src/Msg/Stake.antt =====
-- src/ipc_lib.rs: `IpcStakeCollateralMsg`.
pub mod Numbered
use bitcoin_ipc.Prelude.{ℕ, ◌+◌, not, Option, none, some, List, find?, ◌==◌}
use bitcoin_ipc.Result.{
  Result, ok, err, ◌>>=◌, ◌>>◌, fail_if, ok_or, subnet_not_found, subnet_id_mismatch, subnet_killed,
  not_a_validator, stake_diff_too_small,
}
use bitcoin_ipc.Types.{Env, SubnetId, XOnlyPublicKey, Txid, BlockHash, Amount}
use bitcoin_ipc.Multisig.{collateral_to_power}
use bitcoin_ipc.Committee.{SubnetValidator, SubnetCommittee, is_validator, modify_validator}
use bitcoin_ipc.Subnet.{
  SubnetState, SubnetGenesisInfo, is_killed_or_pending, latest_committee, total_collateral,
}
use bitcoin_ipc.Records.{StakeChangeRequest, StakingChange, deposit}
use bitcoin_ipc.Db.{Db, get_subnet_genesis_info, get_subnet_state, save_subnet_state}
use bitcoin_ipc.Db.StakeChanges.{get_next_stake_change_configuration_number, add_stake_change}

pub record IpcStakeCollateralMsg : Type 0 where
  pub subnet_id : SubnetId
  pub amount : Amount
  pub pubkey : XOnlyPublicKey

unfoldable pub validate_stake : Env → IpcStakeCollateralMsg → SubnetState → Result (Unit {0})
validate_stake env m s = do
  fail_if (not (s.id == m.subnet_id)) subnet_id_mismatch
  fail_if (is_killed_or_pending s) subnet_killed
  fail_if (not (is_validator (latest_committee s) m.pubkey)) not_a_validator
  fail_if (env.stake_diff_small (total_collateral s) (total_collateral s + m.amount))
      stake_diff_too_small

-- `validators.iter().find(|v| v.pubkey == key)`
unfoldable pub find_validator : XOnlyPublicKey → SubnetCommittee → Option SubnetValidator
find_validator key c = find? (λ (v : SubnetValidator). v.pubkey == key) c.validators

-- The record of a change to one validator's stake.
unfoldable pub stake_change :
    StakingChange
    → SubnetValidator
    → XOnlyPublicKey
    → SubnetCommittee
    → ℕ
    → ℕ
    → BlockHash
    → Txid
    → StakeChangeRequest
stake_change change v key next number height hash txid = record {
  change = change;
  validator_xpk = key;
  validator_subnet_address = v.subnet_address;
  configuration_number = number;
  committee_after_change = next;
  block_height = height;
  block_hash = hash;
  checkpoint_block_height = none;
  checkpoint_block_hash = none;
  txid = txid;
}

unfoldable pub save_stake : Env → IpcStakeCollateralMsg → Db → ℕ → BlockHash → Txid → Result Db
save_stake env m db height hash txid = do
  g ← ok_or (get_subnet_genesis_info db m.subnet_id) subnet_not_found
  s ← ok_or (get_subnet_state db m.subnet_id) subnet_not_found
  validate_stake env m s
  v ← ok_or (find_validator m.pubkey (latest_committee s)) not_a_validator
  power ← collateral_to_power (m.amount + v.collateral) g.create_subnet_msg.min_validator_stake
  let v = record v { collateral = m.amount + v.collateral; power = power }
  next ← modify_validator env (latest_committee s) m.subnet_id v
  let number = get_next_stake_change_configuration_number db m.subnet_id
  let db = save_subnet_state db m.subnet_id (record s { waiting_committee = some next })
  ok (
      add_stake_change db m.subnet_id
        (stake_change (deposit m.amount) v m.pubkey next number height hash txid))
