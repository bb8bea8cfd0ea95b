-- ===== src/Lib.antt =====
-- bitcoin-ipc: subnets anchored on Bitcoin (src/ipc_lib.rs, src/db.rs, src/multisig.rs,
-- src/rewards.rs, src/bin/monitor.rs).
--
-- A monitor reads Bitcoin blocks in order and hands every message that it finds to the handler
-- `save_to_db` of the message, which checks the message against the database and writes what it
-- changes. A subnet is created, prefunded and joined; when enough validators have joined it gets
-- a state with a first committee. From then on joins, stakes and withdrawals change a waiting
-- committee and leave numbered stake changes; checkpoints, signed by the current committee, rotate
-- to the committee of a stake change; batches carry transfers between subnets, native and ERC;
-- kill requests end the subnet.
--
-- The files, and the code that each is about:
--   Prelude      Boolean tests, lists and sums over the native numbers
--   Result       `IpcLibError`, `IpcValidateError`, `DbError`, `MultisigError`, and the `?` operator
--   Types        the types of other crates, and the parameter `Env`
--   Multisig     src/multisig.rs: `multisig_threshold`, `collateral_to_power`,
--                `sort_committee_keys`, `create_subnet_multisig_address`
--   Committee    src/db.rs: `SubnetValidators`, `SubnetCommittee`; `remove_member` is
--                `SubnetCommittee::remove_validator`
--   Subnet       src/db.rs: `SubnetState`, `SubnetGenesisInfo`
--   Records      src/db.rs, src/ipc_lib.rs: the records that the tables hold
--   Table        one LMDB table
--   Db           src/db.rs: `HeedDb` as a record of tables, and the operations of `DatabaseCore`
--   Msg          src/ipc_lib.rs: `validate` and `save_to_db` of each message, in Msg/Create (with
--                prefund), Msg/Join, Msg/Fund, Msg/Stake, Msg/Unstake, Msg/Kill, Msg/Checkpoint;
--                `save_stake` is `IpcStakeCollateralMsg::save_to_db`, and so on; Msg/Validate has
--                `validate` of the messages that look only at themselves
--   Erc          src/ipc_lib.rs: `validate_erc_batch_data`, and in Erc/Apply the ERC part of
--                `IpcBatchTransferMsg::save_to_db`
--   Batch        src/ipc_lib.rs: `IpcBatchTransferMsg::save_to_db`, and in Batch/Valid its `validate`
--   Coins        src/multisig.rs: `select_coins`, `multisig_spend_max_witness_size`
--   Spending     src/multisig.rs: `construct_spend_unsigned_transaction`; src/ipc_lib.rs: the split of a
--                kill checkpoint's change in `to_checkpoint_psbt`
--   Checkpoint   src/ipc_lib.rs: the checkpoint transaction. Checkpoint/Metadata is the OP_RETURN data,
--                Checkpoint/Valid is `validate`, Checkpoint/Outputs `to_checkpoint_psbt` and
--                `make_reveal_batch_transfer_tx`, Checkpoint/Read `from_checkpoint_tx` and
--                `validate_for_checkpoint`, Checkpoint/Wire `make_batched_transfer_data` and `IpcBatchTransferMsg::from_tx`
--   Compact      src/ipc_lib.rs: `compact_amount`
--   Bytes        `to_le_bytes`, `to_be_bytes`, their inverses, and slices
--   Rewards      src/rewards.rs: `RewardConfig` and its snapshots; Rewards/Tracker and Rewards/Rotated are
--                `RewardTracker`
--   PushData     src/bitcoin_utils.rs: `make_push_data_script`, `concatenate_op_push_data`
--   Transactions src/ipc_lib.rs: `IpcTag`, and `to_tx` and `from_tx` of the messages that transactions
--                carry in their outputs, in Transactions/Fund (with prefund), Transactions/Stake and
--                Transactions/Signed (withdrawals and kill requests); Transactions/Witness reads the
--                messages that stand in a witness, and batches
--   Monitor      src/bin/monitor.rs: the state of the monitor and its errors; Monitor/Messages is
--                `process_ipc_msg`, `process_transaction` and `process_block`, Monitor/SideEffects
--                and Monitor/Collected the addresses to import, Monitor/Sync `sync` and `listen`
--   Tests        concrete runs
--
-- How the code is modelled. A handler takes the database and returns a new one or an error; the
-- source opens one write transaction per message and commits it last, so an error leaves the old
-- database. A log line is left out. `Error` has a constructor for each message text, and `panic`
-- for an `expect` that fails. Powers and thresholds are `u32` with the wrap-around of a release
-- build written out; `enough_to_bootstrap` keeps 16 bits, `should_kill` wraps at 64. Token amounts
-- are natural numbers clamped at 2^256 - 1 where the source clamps them. Satoshi amounts, heights,
-- nonces and configuration numbers are natural numbers with no bound, since none of them comes
-- near 2^64. Loops are over a list or a count, but for those of `sync`, which end when the
-- node says so: the outer one takes fuel, one step a round, and the inner one has a step for each
-- block below the tip, since a window has a block at least, and one to see the tip. The loop of
-- `make_push_data_script` has a step of fuel for each chunk that it makes and one for its last test.
--
-- What stands outside the repository is a parameter. The record `Env` has the taproot address of a
-- script, the address of a key on a subnet, the floating-point test on the size of a stake, and the
-- cargo feature `dev`. `Spend`, `Rates`, `Sizes` and `Builder` have what the bitcoin crate gives at a
-- fee rate: fees, weights, sizes and dust limits, and `Builder` the iteration order of a `HashMap`;
-- `Rates.share` is the floating-point share of an unstake. `Codec` has `postcard` and the script
-- of pushed data, which PushData models over the instructions of a script. An output script is its
-- OP_RETURN data or the address that it pays to; the 20 bytes of a subnet id and the 32 of a hash
-- are those of the number that stands for it. `Crates` has the scripts,
-- hashes and the check of a signature that the messages in outputs use, `Postcard` what the crate of
-- that name reads from a witness; `Config` has these and the settings of the monitor, `Node` the
-- answers of the Bitcoin node to the requests of the monitor, counted from 0, and `Wallet` its
-- answers to imports.
--
-- Not modelled: the funding of transactions and the commit and reveal transactions of
-- src/bitcoin_utils.rs, PSBTs, the JSON-RPC provider, the retry with backoff around `sync` and
-- `listen`, the RPC client, and the failures of LMDB.
pub mod Prelude
pub mod Result
pub mod Bytes
pub mod Types
pub mod PushData
pub mod Transactions
pub mod Multisig
pub mod Table
pub mod Committee
pub mod Subnet
pub mod Records
pub mod Db
pub mod Msg
pub mod Erc
pub mod Batch
pub mod Rewards
pub mod Checkpoint
pub mod Compact
pub mod Coins
pub mod Spending
pub mod Monitor
pub mod Tests
