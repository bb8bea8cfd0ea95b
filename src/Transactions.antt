-- ===== src/Transactions.antt =====
-- src/ipc_lib.rs: the tags of the messages, and the first output of a message's transaction, whose
-- data starts with the tag.
pub mod Fund
pub mod Stake
pub mod Signed
pub mod Sent
pub mod Witness
pub mod Tags
pub mod Roundtrip
pub mod Signatures
pub mod Exclusive
use bitcoin_ipc.Prelude.{
  ℕ, ◌==◌, Bool, not, Option, none, some, List, [], ◌∷◌, length, if◌then◌else◌,
}
use bitcoin_ipc.Result.{
  Result, ok, err, ◌>>=◌, ◌>>◌, ok_or, fail_if, not_enough_outputs, not_op_return,
  data_length_mismatch, invalid_tag, unparsed_address, subnet_not_found,
}
use bitcoin_ipc.Types.{Address, Amount, TxOut, Script, op_return, pay_to, XOnlyPublicKey}
use bitcoin_ipc.Bytes.{front, same_bytes}
use bitcoin_ipc.Subnet.{SubnetState}
use bitcoin_ipc.Db.{Db, get_subnet_by_multisig_address}
use bitcoin_ipc.Checkpoint.Read.{address_of}

-- What the bitcoin and secp256k1 crates give: the first data that a script pushes, the numbers that
-- are keys, the least amount of an output at the fee rate, SHA-256, and the check of a Schnorr
-- signature on a digest.
pub record Crates : Type 0 where
  pub pushed : Script → Option (List ℕ)
  pub is_key : ℕ → Bool
  pub minimal_non_dust_custom : Script → Amount
  pub sha256 : List ℕ → ℕ
  pub verify_schnorr : List ℕ → ℕ → XOnlyPublicKey → Bool

-- `IPC_TAG_LENGTH`
abbrev pub ipc_tag_length : ℕ
ipc_tag_length = 6

pub data IpcTag : Type 0 where
  create_subnet join_subnet prefund_subnet fund_subnet checkpoint_subnet : IpcTag
  batch_transfer stake_collateral unstake_collateral kill_subnet : IpcTag

-- The bytes of "IPCCRT", "IPCJOI", "IPCPFD", "IPCFND", "IPCCPT", "IPCTFR", "IPCSTK", "IPCUST" and
-- "IPCKIL".
unfoldable pub as_str : IpcTag → List ℕ
as_str create_subnet = 73 ∷ 80 ∷ 67 ∷ 67 ∷ 82 ∷ 84 ∷ []
as_str join_subnet = 73 ∷ 80 ∷ 67 ∷ 74 ∷ 79 ∷ 73 ∷ []
as_str prefund_subnet = 73 ∷ 80 ∷ 67 ∷ 80 ∷ 70 ∷ 68 ∷ []
as_str fund_subnet = 73 ∷ 80 ∷ 67 ∷ 70 ∷ 78 ∷ 68 ∷ []
as_str checkpoint_subnet = 73 ∷ 80 ∷ 67 ∷ 67 ∷ 80 ∷ 84 ∷ []
as_str batch_transfer = 73 ∷ 80 ∷ 67 ∷ 84 ∷ 70 ∷ 82 ∷ []
as_str stake_collateral = 73 ∷ 80 ∷ 67 ∷ 83 ∷ 84 ∷ 75 ∷ []
as_str unstake_collateral = 73 ∷ 80 ∷ 67 ∷ 85 ∷ 83 ∷ 84 ∷ []
as_str kill_subnet = 73 ∷ 80 ∷ 67 ∷ 75 ∷ 73 ∷ 76 ∷ []

-- The arms of the match, in their order.
abbrev first_match : List IpcTag → List ℕ → Option IpcTag
first_match [] s = none
first_match (tag ∷ tags) s = if same_bytes s (as_str tag) then some tag else first_match tags s

unfoldable pub from_str : List ℕ → Option IpcTag
unfolding as_str same_bytes
from_str = first_match (
    create_subnet ∷ join_subnet ∷ prefund_subnet ∷ fund_subnet ∷ checkpoint_subnet ∷ batch_transfer
    ∷ stake_collateral ∷ unstake_collateral ∷ kill_subnet ∷ [])

-- `tx.output[0]` and `tx.output[1]`, where there are at least two.
unfoldable pub two_outputs : List TxOut → Result (TxOut × TxOut)
two_outputs (first ∷ second ∷ rest) = ok (first, second)
two_outputs _ = err not_enough_outputs

-- The checks that every message makes on its first output: its data, and the second output.
unfoldable pub tagged_data : Crates → IpcTag → ℕ → List TxOut → Result (List ℕ × TxOut)
unfolding two_outputs as_str front same_bytes
tagged_data x tag data_len outs = do
  two ← two_outputs outs
  bytes ← ok_or (x.pushed two.0.script_pubkey) not_op_return
  fail_if (not (length bytes == data_len)) data_length_mismatch
  fail_if (not (same_bytes (front ipc_tag_length bytes) (as_str tag))) invalid_tag
  ok (bytes, two.1)

-- The subnet whose committee the second output pays.
unfoldable pub paid_subnet : Db → TxOut → Result SubnetState
paid_subnet db txout = do
  multisig_address ← ok_or (address_of txout.script_pubkey) unparsed_address
  ok_or (get_subnet_by_multisig_address db multisig_address) subnet_not_found

-- `make_op_return_script` with its least value.
unfoldable pub data_tx_out : Crates → List ℕ → TxOut
data_tx_out x op_return_data = record {
  value = x.minimal_non_dust_custom (op_return op_return_data);
  script_pubkey = op_return op_return_data;
}
