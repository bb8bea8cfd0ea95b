-- ===== src/Transactions/Witness.antt =====
-- src/ipc_lib.rs: `IpcMessage`, and `IpcMessage::from_witness` with `from_bytes` of the two messages
-- that a witness carries.
use bitcoin_ipc.Prelude.{ℕ, ltb, not, Option, List, length}
use bitcoin_ipc.Result.{
  Result, ok, err, ◌>>=◌, ◌>>◌, ok_or, fail_if, deserialization_error, unknown_tag,
}
use bitcoin_ipc.Bytes.{front, drop, same_bytes}
use bitcoin_ipc.Records.{IpcFundSubnetMsg}
use bitcoin_ipc.Subnet.{IpcCreateSubnetMsg}
use bitcoin_ipc.Msg.Create.{IpcPrefundSubnetMsg}
use bitcoin_ipc.Msg.Join.{IpcJoinSubnetMsg}
use bitcoin_ipc.Msg.Stake.{IpcStakeCollateralMsg}
use bitcoin_ipc.Msg.Unstake.{IpcUnstakeCollateralMsg}
use bitcoin_ipc.Msg.Kill.{IpcKillSubnetMsg}
use bitcoin_ipc.Msg.Checkpoint.{IpcCheckpointSubnetMsg}
use bitcoin_ipc.Batch.{IpcBatchTransferMsg}
use bitcoin_ipc.Transactions.{
  IpcTag, create_subnet, join_subnet, prefund_subnet, fund_subnet, checkpoint_subnet,
  batch_transfer, stake_collateral, unstake_collateral, kill_subnet, as_str, from_str,
  ipc_tag_length,
}

pub data IpcMessage : Type 0 where
  create : IpcCreateSubnetMsg → IpcMessage
  join : IpcJoinSubnetMsg → IpcMessage
  prefund : IpcPrefundSubnetMsg → IpcMessage
  fund : IpcFundSubnetMsg → IpcMessage
  checkpoint : IpcCheckpointSubnetMsg → IpcMessage
  batch : IpcBatchTransferMsg → IpcMessage
  stake : IpcStakeCollateralMsg → IpcMessage
  unstake : IpcUnstakeCollateralMsg → IpcMessage
  kill : IpcKillSubnetMsg → IpcMessage

-- `postcard` on the two messages; the collateral of a join is not part of its bytes.
pub record Postcard : Type 0 where
  pub create_from_bytes : List ℕ → Option IpcCreateSubnetMsg
  pub join_from_bytes : List ℕ → Option IpcJoinSubnetMsg

-- `from_bytes`: the tag again, and the rest.
unfoldable pub untagged : IpcTag → List ℕ → Result (List ℕ)
unfolding as_str front drop same_bytes
untagged tag bytes = do
  fail_if (not (same_bytes (front ipc_tag_length bytes) (as_str tag))) deserialization_error
  ok (drop ipc_tag_length bytes)

unfoldable pub create_from : Postcard → List ℕ → Result IpcMessage
unfolding untagged
create_from p w = do
  rest ← untagged create_subnet w
  m ← ok_or (p.create_from_bytes rest) deserialization_error
  ok (create m)

unfoldable pub join_from : Postcard → List ℕ → Result IpcMessage
unfolding untagged
join_from p w = do
  rest ← untagged join_subnet w
  m ← ok_or (p.join_from_bytes rest) deserialization_error
  ok (join m)

-- The other messages are read from outputs.
unfoldable pub from_tagged : Postcard → List ℕ → IpcTag → Result IpcMessage
unfolding create_from join_from
from_tagged p w create_subnet = create_from p w
from_tagged p w join_subnet = join_from p w
from_tagged p w prefund_subnet = err deserialization_error
from_tagged p w fund_subnet = err deserialization_error
from_tagged p w checkpoint_subnet = err deserialization_error
from_tagged p w batch_transfer = err deserialization_error
from_tagged p w stake_collateral = err deserialization_error
from_tagged p w unstake_collateral = err deserialization_error
from_tagged p w kill_subnet = err deserialization_error

-- Bytes that are not UTF-8 are no tag either way.
unfoldable pub from_witness : Postcard → List ℕ → Result IpcMessage
unfolding from_str from_tagged front
from_witness p w = do
  fail_if (ltb (length w) ipc_tag_length) deserialization_error
  tag ← ok_or (from_str (front ipc_tag_length w)) unknown_tag
  from_tagged p w tag
