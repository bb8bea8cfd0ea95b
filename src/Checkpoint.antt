-- ===== src/Checkpoint.antt =====
-- src/ipc_lib.rs: the checkpoint transaction of an `IpcCheckpointSubnetMsg`, how it is written and
-- how it is read back.
pub mod Metadata
pub mod Parsed
pub mod Wire
pub mod Outputs
pub mod Read
pub mod Paid
pub mod Committed
pub mod Reads
pub mod Roundtrip
pub mod Misread
pub mod Valid
pub mod Writable
pub mod Accepted
