-- ===== src/Msg/Validate.antt =====
-- src/ipc_lib.rs: `IpcValidate::validate` of the messages that a transaction carries, which looks only
-- at the message.
use bitcoin_ipc.Prelude.{◌==◌, Bool, not}
use bitcoin_ipc.Result.{Result, ok, ◌>>◌, fail_if, subnet_id_zero, amount_zero, bad_backup_address}
use bitcoin_ipc.Types.{Address}
use bitcoin_ipc.Records.{IpcFundSubnetMsg}
use bitcoin_ipc.Msg.Create.{IpcPrefundSubnetMsg}
use bitcoin_ipc.Msg.Join.{IpcJoinSubnetMsg}
use bitcoin_ipc.Msg.Stake.{IpcStakeCollateralMsg}
use bitcoin_ipc.Msg.Unstake.{IpcUnstakeCollateralMsg}
use bitcoin_ipc.Msg.Kill.{IpcKillSubnetMsg}

-- `SubnetId::default()` is all zeros.
unfoldable pub validate_join_msg : (Address → Bool) → IpcJoinSubnetMsg → Result (Unit {0})
validate_join_msg is_valid_for_network m = do
  fail_if (m.subnet_id == 0) subnet_id_zero
  fail_if (m.collateral == 0) amount_zero
  fail_if (not (is_valid_for_network m.backup_address)) bad_backup_address
  ok tt

unfoldable pub validate_prefund_msg : IpcPrefundSubnetMsg → Result (Unit {0})
validate_prefund_msg m = do fail_if (m.amount == 0) amount_zero; ok tt

unfoldable pub validate_fund_msg : IpcFundSubnetMsg → Result (Unit {0})
validate_fund_msg m = do fail_if (m.amount == 0) amount_zero; ok tt

unfoldable pub validate_stake_msg : IpcStakeCollateralMsg → Result (Unit {0})
validate_stake_msg m = do
  fail_if (m.subnet_id == 0) subnet_id_zero
  fail_if (m.amount == 0) amount_zero
  ok tt

unfoldable pub validate_unstake_msg : IpcUnstakeCollateralMsg → Result (Unit {0})
validate_unstake_msg m = do
  fail_if (m.subnet_id == 0) subnet_id_zero
  fail_if (m.amount == 0) amount_zero
  ok tt

unfoldable pub validate_kill_msg : IpcKillSubnetMsg → Result (Unit {0})
validate_kill_msg m = do fail_if (m.subnet_id == 0) subnet_id_zero; ok tt
