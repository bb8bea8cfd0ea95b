-- ===== src/Checkpoint/Parsed.antt =====
-- src/ipc_lib.rs: the metadata of a checkpoint transaction, written and read.
use bitcoin_ipc.Prelude.{
  ℕ, ◌^◌, ◌<◌, ◌≤◌, ◌≡◌, refl, Bool, true, false, not, length, min, ◌==◌, if◌then◌else◌, arith,
}
use bitcoin_ipc.Result.{Result, ok}
use bitcoin_ipc.Bytes.{from_le_bytes-le_bytes, from_be_bytes-be_bytes}
use bitcoin_ipc.Msg.Checkpoint.{IpcCheckpointSubnetMsg}
use bitcoin_ipc.Checkpoint.Metadata.{Metadata, op_return_data, parse_metadata, extract_markers}

-- What a message is read back as.
abbrev pub metadata_of : IpcCheckpointSubnetMsg → Metadata
metadata_of m = record {
  subnet_id = m.subnet_id;
  checkpoint_hash = m.checkpoint_hash;
  checkpoint_height = m.checkpoint_height;
  withdrawals_count = length m.withdrawals;
  batch_transfers_count = min (length m.transfers) 255;
  unstakes_count = length m.unstakes;
  next_committee_configuration_number = m.next_committee_configuration_number;
  kill_checkpoint = m.is_kill_checkpoint;
}

abbrev killed_byte : Bool → ℕ
killed_byte b = if b then 1 else 0

killed_byte_lem : (b : Bool) → not (killed_byte b == 0) ≡ b
killed_byte_lem true = refl
killed_byte_lem false = refl

min_small : (n : ℕ) → n ≤ 255 → min n 255 ≡ n
min_small n h = omega arith

abbrev as_read :
    (id hash height withdrawals transfers unstakes number : ℕ) (killed : Bool) → Metadata
as_read id hash height withdrawals transfers unstakes number killed = record {
  subnet_id = id;
  checkpoint_hash = hash;
  checkpoint_height = height;
  withdrawals_count = withdrawals;
  batch_transfers_count = transfers;
  unstakes_count = unstakes;
  next_committee_configuration_number = number;
  kill_checkpoint = killed;
}

as_read_cong :
    {id id' hash hash' height height' withdrawals withdrawals' unstakes unstakes' number
      number' : ℕ}
    {killed killed' : Bool} (transfers : ℕ)
    → id ≡ id'
    → hash ≡ hash'
    → height ≡ height'
    → withdrawals ≡ withdrawals'
    → unstakes ≡ unstakes'
    → number ≡ number'
    → killed ≡ killed'
    → ok (as_read id hash height withdrawals transfers unstakes number killed)
      ≡ ok (as_read id' hash' height' withdrawals' transfers unstakes' number' killed')
as_read_cong transfers a b c d e f g = cc

markers_cong :
    {withdrawals withdrawals' unstakes unstakes' : ℕ} {killed killed' : Bool} (transfers : ℕ)
    → withdrawals ≡ withdrawals'
    → unstakes ≡ unstakes'
    → killed ≡ killed'
    → ◌≡◌ {A = Result (ℕ × ℕ × ℕ × Bool)}
        (ok (withdrawals, transfers, unstakes, killed))
        (ok (withdrawals', transfers, unstakes', killed'))
markers_cong transfers a b c = cc

-- The data that a checkpoint of at most 255 withdrawals and 255 unstakes writes is read back to its
-- fields by both readers, where ids, hashes and numbers have their widths; of the number of
-- transfers the readers get at most 255.
pub parse_metadata-op_return_data :
    (m : IpcCheckpointSubnetMsg)
    → m.subnet_id < 256 ^ 20
    → m.checkpoint_hash < 256 ^ 32
    → m.checkpoint_height < 256 ^ 8
    → m.next_committee_configuration_number < 256 ^ 8
    → length m.withdrawals ≤ 255
    → length m.unstakes ≤ 255
    → (parse_metadata (op_return_data m) ≡ ok (metadata_of m))
      × (extract_markers (op_return_data m)
          ≡ ok (
            length m.withdrawals,
            min (length m.transfers) 255,
            length m.unstakes,
            m.is_kill_checkpoint,
          ))
unfolding op_return_data parse_metadata extract_markers
parse_metadata-op_return_data m hs hh ht hn hw hu =
    let id = from_be_bytes-be_bytes 20 m.subnet_id hs in
    let hash = from_be_bytes-be_bytes 32 m.checkpoint_hash hh in
    let height = from_le_bytes-le_bytes 8 m.checkpoint_height ht in
    let number = from_le_bytes-le_bytes 8 m.next_committee_configuration_number hn in
    let killed = killed_byte_lem m.is_kill_checkpoint in
    let withdrawals = min_small (length m.withdrawals) hw in
    let unstakes = min_small (length m.unstakes) hu in
    (
      as_read_cong (min (length m.transfers) 255) id hash height withdrawals unstakes number killed,
      markers_cong (min (length m.transfers) 255) withdrawals unstakes killed,
    )
