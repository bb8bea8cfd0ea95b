-- ===== src/Monitor/Errors/Carried.antt =====
-- src/ipc_lib.rs: the errors of the create, prefund, fund, join and kill messages.
use bitcoin_ipc.Prelude.{ℕ, ◌≡◌, Bool, Option, none, some, arith}
use bitcoin_ipc.Result.{Error, err}
use bitcoin_ipc.Types.{Env, Address, BlockHash, Txid}
use bitcoin_ipc.Subnet.{SubnetState, SubnetGenesisInfo, IpcCreateSubnetMsg}
use bitcoin_ipc.Records.{IpcFundSubnetMsg}
use bitcoin_ipc.Db.{Db}
use bitcoin_ipc.Msg.Create.{IpcPrefundSubnetMsg, validate_create, save_prefund}
use bitcoin_ipc.Msg.Fund.{save_fund}
use bitcoin_ipc.Msg.Join.{
  IpcJoinSubnetMsg, validate_join, validate_pre_bootstrap, validate_post_bootstrap,
}
use bitcoin_ipc.Msg.Validate.{validate_join_msg}
use bitcoin_ipc.Msg.Kill.{IpcKillSubnetMsg, save_kill, validate_kill}
use bitcoin_ipc.Msg.Unstake.{validator_key}
use bitcoin_ipc.Monitor.{is_ignorable}
use bitcoin_ipc.Monitor.Errors.{Ignorable}

pub validate_create-Ignorable :
    (m : IpcCreateSubnetMsg) (e : Error) → validate_create m ≡ err e → Ignorable e
unfolding validate_create is_ignorable
validate_create-Ignorable m e h = ground arith

pub save_prefund-Ignorable :
    (m : IpcPrefundSubnetMsg) (db : Db) (height : ℕ) (txid : Txid) (e : Error)
    → save_prefund m db height txid ≡ err e
    → Ignorable e
unfolding save_prefund is_ignorable
save_prefund-Ignorable m db height txid e h = ground arith

pub save_fund-Ignorable :
    (m : IpcFundSubnetMsg) (db : Db) (height : ℕ) (hash : BlockHash) (txid : Txid) (e : Error)
    → save_fund m db height hash txid ≡ err e
    → Ignorable e
unfolding save_fund is_ignorable
save_fund-Ignorable m db height hash txid e h = ground arith

pub validate_join-Ignorable :
    (m : IpcJoinSubnetMsg) (g : SubnetGenesisInfo) (s : Option SubnetState) (e : Error)
    → validate_join m g s ≡ err e
    → Ignorable e
unfolding validate_join validate_pre_bootstrap validate_post_bootstrap is_ignorable
validate_join-Ignorable m g none e h = ground arith
validate_join-Ignorable m g (some s) e h = ground arith

pub save_kill-Ignorable :
    (env : Env) (m : IpcKillSubnetMsg) (db : Db) (height : ℕ) (hash : BlockHash) (txid : Txid)
    (e : Error)
    → save_kill env m db height hash txid ≡ err e
    → Ignorable e
unfolding save_kill validate_kill validator_key is_ignorable
save_kill-Ignorable env m db height hash txid e h = ground arith

pub validate_join_msg-Ignorable :
    (valid : Address → Bool) (m : IpcJoinSubnetMsg) (e : Error)
    → validate_join_msg valid m ≡ err e
    → Ignorable e
unfolding validate_join_msg is_ignorable
validate_join_msg-Ignorable valid m e h = ground arith
