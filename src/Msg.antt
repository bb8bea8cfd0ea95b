-- ===== src/Msg.antt =====
-- src/ipc_lib.rs: the messages that change a subnet. Each child holds one message: its checks and
-- its `save_to_db`.
pub mod Create
pub mod Join
pub mod Fund
pub mod Stake
pub mod Unstake
pub mod Kill
pub mod Checkpoint
pub mod Validate
pub mod Frozen
pub mod Reachable
