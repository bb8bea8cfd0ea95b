-- ===== src/Checkpoint/Metadata.antt =====
-- src/ipc_lib.rs: the data of the first output of a checkpoint transaction, as
-- `make_metadata_tx_out` writes it and `from_checkpoint_tx` and
-- `extract_markers_from_metadata_tx_out` read it.
use bitcoin_ipc.Prelude.{ℕ, ◌+◌, Bool, not, List, [], ◌∷◌, ◌++◌, length, min, ◌==◌, if◌then◌else◌}
use bitcoin_ipc.Result.{Result, ok, ◌>>◌, fail_if, data_length_mismatch, invalid_tag}
use bitcoin_ipc.Types.{SubnetId, BlockHash}
use bitcoin_ipc.Bytes.{le_bytes, be_bytes, from_le_bytes, from_be_bytes, slice, drop, same_bytes}
use bitcoin_ipc.Msg.Checkpoint.{IpcCheckpointSubnetMsg}

-- `IPC_CHECKPOINT_TAG`, "IPCCPT".
abbrev pub checkpoint_tag : List ℕ
checkpoint_tag = 73 ∷ 80 ∷ 67 ∷ 67 ∷ 80 ∷ 84 ∷ []

abbrev pub txid_offset : ℕ
txid_offset = 6

abbrev pub hash_offset : ℕ
hash_offset = 26

abbrev pub height_offset : ℕ
height_offset = 58

abbrev pub markers_offset : ℕ
markers_offset = 66

abbrev pub committee_conf_offset : ℕ
committee_conf_offset = 69

abbrev pub killed_offset : ℕ
killed_offset = 77

abbrev pub data_len : ℕ
data_len = 78

-- The parts of `op_return_data`, in the order of their offsets. The 20 bytes of a subnet id and the
-- 32 of a hash are those of the number that stands for it.
unfoldable pub op_return_data : IpcCheckpointSubnetMsg → List ℕ
unfolding le_bytes be_bytes
op_return_data m =
    checkpoint_tag
    ++ be_bytes 20 m.subnet_id
    ++ be_bytes 32 m.checkpoint_hash
    ++ le_bytes 8 m.checkpoint_height
    ++ (min (length m.withdrawals) 255
        ∷ min (length m.transfers) 255
        ∷ min (length m.unstakes) 255
        ∷ [])
    ++ le_bytes 8 m.next_committee_configuration_number
    ++ ((if m.is_kill_checkpoint then 1 else 0) ∷ [])

abbrev first : List ℕ → ℕ
first [] = 0
first (b ∷ rest) = b

-- `data[i]` of data whose length is checked.
unfoldable pub byte_at : List ℕ → ℕ → ℕ
unfolding drop
byte_at bytes i = first (drop i bytes)

pub record Metadata : Type 0 where
  pub subnet_id : SubnetId
  pub checkpoint_hash : BlockHash
  pub checkpoint_height : ℕ
  pub withdrawals_count : ℕ
  pub batch_transfers_count : ℕ
  pub unstakes_count : ℕ
  pub next_committee_configuration_number : ℕ
  pub kill_checkpoint : Bool

unfoldable pub parse_metadata : List ℕ → Result Metadata
unfolding slice from_le_bytes from_be_bytes same_bytes byte_at
parse_metadata bytes = do
  fail_if (not (length bytes == data_len)) data_length_mismatch
  fail_if (not (same_bytes (slice 0 txid_offset bytes) checkpoint_tag)) invalid_tag
  ok (record {
    subnet_id = from_be_bytes (slice txid_offset hash_offset bytes);
    checkpoint_hash = from_be_bytes (slice hash_offset height_offset bytes);
    checkpoint_height = from_le_bytes (slice height_offset markers_offset bytes);
    withdrawals_count = byte_at bytes markers_offset;
    batch_transfers_count = byte_at bytes (markers_offset + 1);
    unstakes_count = byte_at bytes (markers_offset + 2);
    next_committee_configuration_number =
        from_le_bytes (slice committee_conf_offset killed_offset bytes);
    kill_checkpoint = not (byte_at bytes killed_offset == 0);
  })

-- The counts of withdrawals, transfers and unstakes, and the flag.
unfoldable pub extract_markers : List ℕ → Result (ℕ × ℕ × ℕ × Bool)
unfolding byte_at
extract_markers bytes = do
  fail_if (not (length bytes == data_len)) data_length_mismatch
  ok (
    byte_at bytes markers_offset,
    byte_at bytes (markers_offset + 1),
    byte_at bytes (markers_offset + 2),
    not (byte_at bytes killed_offset == 0),
  )
