-- ===== src/Checkpoint/Writable.antt =====
-- src/ipc_lib.rs: validated checkpoints, and the `expect`s and errors of `to_checkpoint_psbt`.
use bitcoin_ipc.Prelude.{ℕ, ◌≡◌, true, some, List, sum, if◌then◌else◌}
use bitcoin_ipc.Types.{SubnetId, Address, Amount}
use bitcoin_ipc.Records.{IpcCrossSubnetTransfer}
use bitcoin_ipc.Db.{Db}
use bitcoin_ipc.Checkpoint.Outputs.{Builder}

-- The entries whose address is of another network.
abbrev foreign : Builder → List (SubnetId × (Amount × Address)) → ℕ
foreign b totals =
    sum
      (λ (entry : SubnetId × (Amount × Address)). if b.is_valid_for_network entry.1.1 then 0 else 1)
      totals

-- The transfer has the address of a subnet, of this network.
pub record IsPayable (b : Builder) (t : IpcCrossSubnetTransfer) : Type 0 where
  pub address : Address
  pub known : t.subnet_multisig_address ≡ some address
  pub local : b.is_valid_for_network address ≡ true
