-- ===== src/Msg/Create.antt =====
-- src/ipc_lib.rs: `IpcCreateSubnetMsg` and `IpcPrefundSubnetMsg`.
use bitcoin_ipc.Prelude.{ℕ, false, none, [], length, ltb, ◌==◌}
use bitcoin_ipc.Result.{
  Result, ok, ◌>>=◌, ◌>>◌, fail_if, ok_or, subnet_not_found, min_validators_zero,
  whitelist_too_short, check_period_zero, validators_limit_too_low, min_fee_zero,
  already_bootstrapped,
}
use bitcoin_ipc.Types.{SubnetId, EthAddress, Txid, Amount}
use bitcoin_ipc.Subnet.{IpcCreateSubnetMsg, SubnetGenesisInfo, add_genesis_balance_entry}
use bitcoin_ipc.Db.{Db, get_subnet_genesis_info, save_subnet_genesis_info}

unfoldable pub validate_create : IpcCreateSubnetMsg → Result (Unit {0})
validate_create m = do
  fail_if (m.min_validators == 0) min_validators_zero
  fail_if (ltb (length m.whitelist) m.min_validators) whitelist_too_short
  fail_if (m.bottomup_check_period == 0) check_period_zero
  fail_if (ltb m.active_validators_limit m.min_validators) validators_limit_too_low
  fail_if (m.min_cross_msg_fee == 0) min_fee_zero

-- `subnet_id` is the id that `SubnetId::from_txid` gives the transaction.
unfoldable pub save_create : IpcCreateSubnetMsg → Db → ℕ → SubnetId → SubnetGenesisInfo × Db
save_create m db height id =
    let info : SubnetGenesisInfo = record {
      subnet_id = id;
      create_subnet_msg = m;
      create_msg_block_height = height;
      bootstrapped = false;
      genesis_block_height = none;
      genesis_validators = [];
      genesis_balance_entries = [];
    } in
    (info, save_subnet_genesis_info db id info)

pub record IpcPrefundSubnetMsg : Type 0 where
  pub subnet_id : SubnetId
  pub amount : Amount
  pub address : EthAddress

unfoldable pub save_prefund : IpcPrefundSubnetMsg → Db → ℕ → Txid → Result Db
save_prefund m db height txid = do
  info ← ok_or (get_subnet_genesis_info db m.subnet_id) subnet_not_found
  fail_if info.bootstrapped already_bootstrapped
  ok (
      save_subnet_genesis_info db m.subnet_id
        (add_genesis_balance_entry info m.address m.amount txid height))
