-- ===== src/Msg/Fund.antt =====
-- src/ipc_lib.rs: `IpcFundSubnetMsg`.
use bitcoin_ipc.Prelude.{ℕ}
use bitcoin_ipc.Result.{Result, ok, ◌>>=◌, ◌>>◌, fail_if, ok_or, subnet_not_found, subnet_killed}
use bitcoin_ipc.Types.{Txid, BlockHash}
use bitcoin_ipc.Subnet.{is_killed_or_pending}
use bitcoin_ipc.Records.{IpcFundSubnetMsg, RootnetMessage, fund_subnet}
use bitcoin_ipc.Db.{Db, get_subnet_state, get_next_rootnet_msg_nonce, add_rootnet_msg}

unfoldable pub to_rootnet_message : IpcFundSubnetMsg → ℕ → ℕ → BlockHash → Txid → RootnetMessage
to_rootnet_message m nonce height hash txid =
    fund_subnet m (record { block_height = height; block_hash = hash; nonce = nonce; txid = txid })

unfoldable pub save_fund : IpcFundSubnetMsg → Db → ℕ → BlockHash → Txid → Result Db
save_fund m db height hash txid = do
  subnet ← ok_or (get_subnet_state db m.subnet_id) subnet_not_found
  fail_if (is_killed_or_pending subnet) subnet_killed
  let nonce = get_next_rootnet_msg_nonce db m.subnet_id
  ok (add_rootnet_msg db m.subnet_id (to_rootnet_message m nonce height hash txid))
