-- ===== src/Tests.antt =====
-- Concrete runs of the model, and the theorems applied to them.
pub mod Values
pub mod Committees
pub mod Handlers
pub mod Stakes
pub mod Ledger
pub mod Stored
pub mod Coins
pub mod Messages
pub mod Batches
pub mod Rewards
pub mod Compact
pub mod Spending
pub mod Checkpoints
pub mod Transactions
pub mod Monitor
pub mod PushData
