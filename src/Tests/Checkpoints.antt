-- ===== src/Tests/Checkpoints.antt =====
-- Tests and examples on checkpoint transactions and the batches that they commit to.
use bitcoin_ipc.Prelude.{◌≡◌, refl, true, false, some, List, [], ◌∷◌, ◌++◌, All, arith}
use bitcoin_ipc.Result.{ok}
use bitcoin_ipc.Types.{TxOut}
use bitcoin_ipc.Table.{get}
use bitcoin_ipc.Db.{get_subnet_state}
use bitcoin_ipc.Msg.Checkpoint.{IpcCheckpointSubnetMsg}
use bitcoin_ipc.Batch.{IpcBatchTransferMsg}
use bitcoin_ipc.Checkpoint.Metadata.{op_return_data, parse_metadata, extract_markers}
use bitcoin_ipc.Checkpoint.Parsed.{metadata_of, parse_metadata-op_return_data}
use bitcoin_ipc.Checkpoint.Wire.{
  wire_data, make_batched_transfer_data, transfer_tag, has_transfers, from_tx,
}
use bitcoin_ipc.Checkpoint.Wire.Delivered.{IsAddressed, from_tx-make_batched_transfer_data}
use bitcoin_ipc.Checkpoint.Outputs.{
  RevealTx, make_metadata_tx_out, checkpoint_outs, make_reveal_batch_transfer_tx,
}
use bitcoin_ipc.Checkpoint.Read.{output_at, from_checkpoint_tx}
use bitcoin_ipc.Checkpoint.Paid.{withdrawal_out, IsBatch, checkpoint_outs-IsBatch}
use bitcoin_ipc.Checkpoint.Committed.{
  Opens, IsAstray, make_reveal_batch_transfer_tx-Opens, batch_transfer_commit_vout_misses,
}
use bitcoin_ipc.Checkpoint.Reads.{IsRegistered, change_outs}
use bitcoin_ipc.Checkpoint.Roundtrip.{from_checkpoint_tx-checkpoint_outs}
use bitcoin_ipc.Checkpoint.Misread.{from_checkpoint_tx_loses_unstake}
use bitcoin_ipc.Table.{get}
use bitcoin_ipc.Tests.Messages.{
  members, db, alice_leaves, bob_leaves, plain, sixty, batched, erc_only, codec, builder, in_order,
  pushed, paying, metadata_out,
}
use bitcoin_ipc.Tests.Values.{alice_and_bob, state}
use mathlib.Core.List.{Perm}
use mathlib.Core.List.Permᴰ
use mathlib.Core.List.{map}

parse_metadata-op_return_data_example :
    (parse_metadata (op_return_data plain) ≡ ok (metadata_of plain))
    × (extract_markers (op_return_data plain) ≡ ok (1, 0, 2, true))
parse_metadata-op_return_data_example =
    parse_metadata-op_return_data plain (omega arith) (omega arith) (omega arith) (omega arith)
      (omega arith) (omega arith)

batched-IsAddressed : All (IsAddressed db) batched.transfers
unfolding get_subnet_state get
batched-IsAddressed = (
  record { subnet = _; found = refl; multisig = refl },
  (record { subnet = _; found = refl; multisig = refl }, tt),
)

batched-made : make_batched_transfer_data (codec batched) batched ≡ ok (transfer_tag ++ 1 ∷ [])
unfolding make_batched_transfer_data codec
batched-made = refl

batched-has_transfers : has_transfers batched ≡ true
unfolding has_transfers
batched-has_transfers = refl

from_tx-make_batched_transfer_data_example :
    (b : IpcBatchTransferMsg) × (from_tx
        (codec batched)
        db
        (record { txid = 4; vout = 2; witness = (transfer_tag ++ 1 ∷ []) ∷ [] ∷ [] } ∷ [])
      ≡ ok b)
    × (b.checkpoint_txid ≡ 4)
    × (b.checkpoint_vout ≡ 2)
    × Perm b.transfers batched.transfers
    × (b.token_registrations ≡ [])
    × (b.token_supply_adjustments ≡ [])
    × Perm b.token_transfers (sixty ∷ [])
unfolding codec
from_tx-make_batched_transfer_data_example =
    from_tx-make_batched_transfer_data (codec batched) db batched (transfer_tag ++ 1 ∷ []) (1 ∷ [])
      (wire_data batched) 4 2 [] batched-has_transfers batched-IsAddressed batched-made refl refl
      ∣ Permᴰ.refl _ ∣₁ refl refl ∣ Permᴰ.refl _ ∣₁ refl

abbrev batched_outs : List TxOut
batched_outs = metadata_out batched ∷ paying 300 61 ∷ paying 900 99 ∷ paying 11 844 ∷ []

batched-outs : checkpoint_outs (builder batched) batched 844 ≡ ok batched_outs
unfolding checkpoint_outs has_transfers make_metadata_tx_out builder
batched-outs = refl

checkpoint_outs-IsBatch_example :
    (batch : List TxOut) × (batched_outs
      ≡ make_metadata_tx_out (builder batched) batched
        ∷ (map withdrawal_out batched.withdrawals ++ (batch ++ [])))
    × IsBatch (builder batched) batched 844 (has_transfers batched) batch
checkpoint_outs-IsBatch_example =
    checkpoint_outs-IsBatch (builder batched) batched 844 batched_outs (in_order batched)
      batched-outs

abbrev reveal : RevealTx
reveal = record {
  input = record { txid = 4; vout = 2; witness = (transfer_tag ++ 1 ∷ []) ∷ [] ∷ [] };
  output = paying 400 844;
}

batched-reveal : make_reveal_batch_transfer_tx (builder batched) batched 4 844 ≡ ok (some reveal)
unfolding make_reveal_batch_transfer_tx has_transfers builder
batched-reveal = refl

make_reveal_batch_transfer_tx-Opens_example :
    (commit : TxOut) × (reveal.input.txid ≡ 4)
    × (output_at 2 batched_outs ≡ ok commit)
    × Opens (builder batched) commit reveal.input.witness reveal.output
make_reveal_batch_transfer_tx-Opens_example =
    make_reveal_batch_transfer_tx-Opens (builder batched) batched 844 batched_outs 4 reveal
      (in_order batched) refl batched-outs batched-reveal

-- The commit output comes before the unstakes.
abbrev erc_outs : List TxOut
erc_outs =
    metadata_out erc_only ∷ paying 300 61 ∷ paying 900 99 ∷ paying 100 31 ∷ paying 200 32 ∷ []

erc-outs : checkpoint_outs (builder erc_only) erc_only 844 ≡ ok erc_outs
unfolding checkpoint_outs has_transfers make_metadata_tx_out builder
erc-outs = refl

erc-has_transfers : has_transfers erc_only ≡ true
unfolding has_transfers
erc-has_transfers = refl

batch_transfer_commit_vout_misses_example :
    (tx : RevealTx) × (make_reveal_batch_transfer_tx (builder erc_only) erc_only 9 844
      ≡ ok (some tx))
    × IsAstray (builder erc_only) erc_only 844 erc_outs 9 1 tx
batch_transfer_commit_vout_misses_example =
    batch_transfer_commit_vout_misses (builder erc_only) erc_only 844 erc_outs 9 alice_leaves
      (bob_leaves ∷ []) (in_order erc_only) erc-has_transfers refl erc-outs

abbrev plain_outs : List TxOut
plain_outs = metadata_out plain ∷ paying 300 61 ∷ paying 100 31 ∷ paying 200 32 ∷ []

plain-outs : checkpoint_outs (builder plain) plain 844 ≡ ok plain_outs
unfolding checkpoint_outs has_transfers make_metadata_tx_out builder
plain-outs = refl

plain-has_transfers : has_transfers plain ≡ false
unfolding has_transfers
plain-has_transfers = refl

found :
    get_subnet_state db 7 ≡ some (state (record alice_and_bob { validators = members }) (some 0))
unfolding get_subnet_state get
found = refl

alice-IsRegistered : IsRegistered members alice_leaves
alice-IsRegistered = record { validator = _; found = refl; key = refl }

from_checkpoint_tx-checkpoint_outs_example :
    from_checkpoint_tx pushed db (plain_outs ++ change_outs (some (500, 844)))
    ≡ ok (record plain { change_address = some 844 })
from_checkpoint_tx-checkpoint_outs_example =
    from_checkpoint_tx-checkpoint_outs pushed db (builder plain) plain 844 plain_outs
      (some (500, 844)) _ refl (omega arith) (omega arith) (omega arith) (omega arith) (omega arith)
      (omega arith) plain-has_transfers found
      (alice-IsRegistered, (record { validator = _; found = refl; key = refl }, tt)) plain-outs

from_checkpoint_tx_loses_unstake_example :
    (r : IpcCheckpointSubnetMsg) × (from_checkpoint_tx pushed db erc_outs ≡ ok r)
    × (r.unstakes ≡ alice_leaves ∷ [])
    × (r.change_address ≡ some 32)
unfolding builder
from_checkpoint_tx_loses_unstake_example =
    from_checkpoint_tx_loses_unstake pushed db (builder erc_only) erc_only 844 erc_outs _
      (alice_leaves ∷ []) bob_leaves (in_order erc_only) refl erc_parsed refl erc-has_transfers refl
      found (alice-IsRegistered, tt) (λ script. refl) erc-outs
  where
    erc_parsed : parse_metadata (op_return_data erc_only) ≡ ok (metadata_of erc_only)
    erc_parsed =
        (parse_metadata-op_return_data erc_only (omega arith) (omega arith) (omega arith)
          (omega arith) (omega arith) (omega arith)).0
