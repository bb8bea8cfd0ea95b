-- ===== src/Checkpoint/Outputs.antt =====
-- src/ipc_lib.rs: the outputs of a checkpoint transaction, as `to_checkpoint_psbt` makes them,
-- `update_subnets_for_transfer` before it and `make_reveal_batch_transfer_tx` after it.
use bitcoin_ipc.Prelude.{
  ℕ, ◌+◌, ◌==◌, leb, Bool, not, Option, none, some, List, [], ◌∷◌, ◌++◌, length, if◌then◌else◌,
}
use bitcoin_ipc.Result.{
  Result, ok, err, ◌>>=◌, ok_or, panic, subnet_not_found, multisig_address_missing,
  fee_rate_overflow,
}
use bitcoin_ipc.Types.{SubnetId, Address, Amount, Txid, TxIn, TxOut, Script, op_return, pay_to}
use bitcoin_ipc.Records.{IpcWithdrawal, IpcUnstake, IpcCrossSubnetTransfer}
use bitcoin_ipc.Db.{Db, get_subnet_state}
use bitcoin_ipc.Msg.Checkpoint.{IpcCheckpointSubnetMsg}
use bitcoin_ipc.Checkpoint.Metadata.{op_return_data}
use bitcoin_ipc.Checkpoint.Wire.{Codec, make_batched_transfer_data, has_transfers}

-- What the bitcoin crate gives at the fee rate: the least amounts of an output, the address of a
-- committed script, the weight of a reveal transaction and its fee; and the iteration order of a
-- `HashMap`.
pub record Builder : Type 0 where
  pub codec : Codec
  pub is_valid_for_network : Address → Bool
  pub minimal_non_dust : Script → Amount
  pub minimal_non_dust_custom : Script → Amount
  pub commit_address : List ℕ → Address
  pub control_block : List ℕ → List ℕ
  pub reveal_weight : List (List ℕ) → TxOut → ℕ
  pub fee_wu : ℕ → Option Amount
  pub iter : List (SubnetId × (Amount × Address)) → List (SubnetId × (Amount × Address))

abbrev pub max : Amount → Amount → Amount
max a b = if leb a b then b else a

unfoldable pub make_metadata_tx_out : Builder → IpcCheckpointSubnetMsg → TxOut
make_metadata_tx_out b m =
    let script = op_return (op_return_data m) in
    record {
      value = max (b.minimal_non_dust_custom script) (b.minimal_non_dust script);
      script_pubkey = script;
    }

-- `require_network(NETWORK).expect(..).script_pubkey()`
unfoldable pub checked_script : Builder → Address → Result Script
checked_script b address = if b.is_valid_for_network address then ok (pay_to address) else err panic

unfoldable pub withdrawal_outs : Builder → List IpcWithdrawal → Result (List TxOut)
unfolding checked_script
withdrawal_outs b [] = ok []
withdrawal_outs b (w ∷ withdrawals) = do
  script ← checked_script b w.address
  outs ← withdrawal_outs b withdrawals
  ok (record { value = w.amount; script_pubkey = script } ∷ outs)

unfoldable pub unstake_outs : Builder → List IpcUnstake → Result (List TxOut)
unfolding checked_script
unstake_outs b [] = ok []
unstake_outs b (u ∷ unstakes) = do
  script ← checked_script b u.address
  outs ← unstake_outs b unstakes
  ok (record { value = u.amount; script_pubkey = script } ∷ outs)

-- The commit output, the witness of the reveal transaction, and its output.
unfoldable pub make_batched_transfer :
    Builder → IpcCheckpointSubnetMsg → Address → Result (TxOut × List (List ℕ) × TxOut)
unfolding make_batched_transfer_data
make_batched_transfer b m return_address = do
  bytes ← make_batched_transfer_data b.codec m
  let commit_script = b.codec.push_data_script bytes
  let reveal_witness = commit_script ∷ b.control_block commit_script ∷ []
  let reveal_script = pay_to return_address
  let reveal_tx_out : TxOut = record {
    value = b.minimal_non_dust_custom reveal_script;
    script_pubkey = reveal_script;
  }
  reveal_tx_fee ← ok_or (b.fee_wu (b.reveal_weight reveal_witness reveal_tx_out)) fee_rate_overflow
  let script = pay_to (b.commit_address commit_script)
  ok (
    record {
      value =
          max (max (b.minimal_non_dust_custom script) (b.minimal_non_dust script))
            (reveal_tx_out.value + reveal_tx_fee);
      script_pubkey = script;
    },
    reveal_witness,
    reveal_tx_out,
  )

-- `entry(id).or_insert((Amount::ZERO, address)).0 += amount`
unfoldable pub add_total :
    SubnetId
    → Amount
    → Address
    → List (SubnetId × (Amount × Address))
    → List (SubnetId × (Amount × Address))
add_total id amount address [] = (id, (amount, address)) ∷ []
add_total id amount address ((other, (total, first)) ∷ totals) =
    if other == id
    then (other, (total + amount, first)) ∷ totals
    else (other, (total, first)) ∷ add_total id amount address totals

unfoldable pub transfers_by_subnet :
    List IpcCrossSubnetTransfer
    → List (SubnetId × (Amount × Address))
    → Result (List (SubnetId × (Amount × Address)))
unfolding add_total
transfers_by_subnet [] totals = ok totals
transfers_by_subnet (t ∷ transfers) totals = do
  address ← ok_or t.subnet_multisig_address multisig_address_missing
  transfers_by_subnet transfers (add_total t.destination_subnet_id t.amount address totals)

unfoldable pub transfer_outs : Builder → List (SubnetId × (Amount × Address)) → Result (List TxOut)
unfolding checked_script
transfer_outs b [] = ok []
transfer_outs b ((id, (total, address)) ∷ totals) = do
  script ← checked_script b address
  outs ← transfer_outs b totals
  ok (record { value = total; script_pubkey = script } ∷ outs)

unfoldable pub batch_outs : Builder → IpcCheckpointSubnetMsg → Address → Result (List TxOut)
unfolding make_batched_transfer transfers_by_subnet transfer_outs
batch_outs b m committee_address = do
  (commit, _, _) ← make_batched_transfer b m committee_address
  totals ← transfers_by_subnet m.transfers []
  outs ← transfer_outs b (b.iter totals)
  ok (commit ∷ outs)

-- `tx_outs`, in the order of the transaction; `committee_address` is that of the current committee.
unfoldable pub checkpoint_outs : Builder → IpcCheckpointSubnetMsg → Address → Result (List TxOut)
unfolding withdrawal_outs unstake_outs batch_outs
checkpoint_outs b m committee_address = do
  withdrawals ← withdrawal_outs b m.withdrawals
  batch ← (if has_transfers m then batch_outs b m committee_address else ok [])
  unstakes ← unstake_outs b m.unstakes
  ok (make_metadata_tx_out b m ∷ (withdrawals ++ (batch ++ unstakes)))

-- `update_subnets_for_transfer` on the transfers of the message.
unfoldable pub update_transfers :
    Db → List IpcCrossSubnetTransfer → Result (List IpcCrossSubnetTransfer)
update_transfers db [] = ok []
update_transfers db (t ∷ transfers) = do
  s ← ok_or (get_subnet_state db t.destination_subnet_id) subnet_not_found
  rest ← update_transfers db transfers
  ok (record t { subnet_multisig_address = some s.committee.multisig_address } ∷ rest)

unfoldable pub update_subnets_for_transfer :
    Db → IpcCheckpointSubnetMsg → Result IpcCheckpointSubnetMsg
unfolding update_transfers
update_subnets_for_transfer db m = do
  transfers ← update_transfers db m.transfers
  ok (record m { transfers = transfers })

-- The `vout` of `batch_transfer_commit_outpoint`.
unfoldable pub batch_transfer_commit_vout : IpcCheckpointSubnetMsg → Option ℕ
batch_transfer_commit_vout m =
    if has_transfers m then some (1 + length m.withdrawals + length m.unstakes) else none

pub record RevealTx : Type 0 where
  pub input : TxIn
  pub output : TxOut

unfoldable pub make_reveal_batch_transfer_tx :
    Builder → IpcCheckpointSubnetMsg → Txid → Address → Result (Option RevealTx)
unfolding batch_transfer_commit_vout make_batched_transfer
make_reveal_batch_transfer_tx b m checkpoint_txid return_address =
    if not (has_transfers m) then ok none else (do
      vout ← ok_or (batch_transfer_commit_vout m) panic
      (_, reveal_witness, reveal_tx_out) ← make_batched_transfer b m return_address
      ok (
          some (record {
            input = record { txid = checkpoint_txid; vout = vout; witness = reveal_witness };
            output = reveal_tx_out;
          })))
