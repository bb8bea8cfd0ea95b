-- ===== src/Transactions/Signed.antt =====
-- src/ipc_lib.rs: `to_tx`, `from_tx` and the signed text of `IpcUnstakeCollateralMsg` and
-- `IpcKillSubnetMsg`. A signature is its 64 bytes.
use bitcoin_ipc.Prelude.{ℕ, some, List, [], ◌∷◌, ◌++◌, find?}
use bitcoin_ipc.Result.{Result, ok, err, ◌>>=◌, ok_or, no_inputs, signature_mismatch}
use bitcoin_ipc.Types.{SubnetId, XOnlyPublicKey, Address, Amount, Txid, TxIn, TxOut, pay_to}
use bitcoin_ipc.Bytes.{be_bytes, from_be_bytes, slice}
use bitcoin_ipc.Committee.{SubnetValidator}
use bitcoin_ipc.Subnet.{SubnetState}
use bitcoin_ipc.Db.{Db}
use bitcoin_ipc.Msg.Unstake.{IpcUnstakeCollateralMsg}
use bitcoin_ipc.Msg.Kill.{IpcKillSubnetMsg}
use bitcoin_ipc.Transactions.{
  Crates, unstake_collateral, kill_subnet, as_str, tagged_data, paid_subnet, data_tx_out,
}

-- prev_txid || xpubkey || unstake_amount || subnet_id
unfoldable pub unstake_text : Txid → XOnlyPublicKey → Amount → SubnetId → List ℕ
unfolding be_bytes
unstake_text prev_txid pubkey amount subnet_id =
    be_bytes 32 prev_txid ++ (be_bytes 32 pubkey ++ (be_bytes 8 amount ++ be_bytes 20 subnet_id))

-- prev_txid || xpubkey || subnet_id
unfoldable pub kill_text : Txid → XOnlyPublicKey → SubnetId → List ℕ
unfolding be_bytes
kill_text prev_txid pubkey subnet_id =
    be_bytes 32 prev_txid ++ (be_bytes 32 pubkey ++ be_bytes 20 subnet_id)

abbrev pub unstake_data_len : ℕ
unstake_data_len = 78

abbrev pub kill_data_len : ℕ
kill_data_len = 70

abbrev pub signature_end : ℕ
signature_end = 70

unfoldable pub unstake_data : List ℕ → Amount → List ℕ
unstake_data signature amount = as_str unstake_collateral ++ (signature ++ be_bytes 8 amount)

unfoldable pub kill_data : List ℕ → List ℕ
kill_data signature = as_str kill_subnet ++ signature

-- The least value of an output to the committee goes with the message.
unfoldable pub committee_out : Crates → Address → TxOut
committee_out x multisig_address = record {
  value = x.minimal_non_dust_custom (pay_to multisig_address);
  script_pubkey = pay_to multisig_address;
}

unfoldable pub unstake_to_tx : Crates → IpcUnstakeCollateralMsg → Address → List ℕ → List TxOut
unfolding unstake_data committee_out
unstake_to_tx x m multisig_address signature =
    data_tx_out x (unstake_data signature m.amount) ∷ committee_out x multisig_address ∷ []

unfoldable pub kill_to_tx : Crates → Address → List ℕ → List TxOut
unfolding kill_data committee_out
kill_to_tx x multisig_address signature =
    data_tx_out x (kill_data signature) ∷ committee_out x multisig_address ∷ []

-- The transaction id of the first input's output.
unfoldable pub first_prev_txid : List TxIn → Result Txid
first_prev_txid [] = err no_inputs
first_prev_txid (input ∷ rest) = ok input.txid

-- The first validator of the committee whose key signs its text.
unfoldable pub signer :
    Crates → List ℕ → (XOnlyPublicKey → List ℕ) → SubnetState → Result SubnetValidator
signer x signature text subnet =
    ok_or
      (find?
        (λ (v : SubnetValidator). x.verify_schnorr signature (x.sha256 (text v.pubkey)) v.pubkey)
        subnet.committee.validators)
      signature_mismatch

unfoldable pub unstake_from_tx :
    Crates → Db → List TxIn → List TxOut → Result IpcUnstakeCollateralMsg
unfolding first_prev_txid unstake_text
unstake_from_tx x db inputs outs = do
  parts ← tagged_data x unstake_collateral unstake_data_len outs
  let amount = from_be_bytes (slice signature_end unstake_data_len parts.0)
  subnet ← paid_subnet db parts.1
  prev_txid ← first_prev_txid inputs
  validator ←
      signer x (slice 6 signature_end parts.0)
        (λ pubkey. unstake_text prev_txid pubkey amount subnet.id) subnet
  ok (record { subnet_id = subnet.id; amount = amount; pubkey = some validator.pubkey })

unfoldable pub kill_from_tx : Crates → Db → List TxIn → List TxOut → Result IpcKillSubnetMsg
unfolding first_prev_txid kill_text
kill_from_tx x db inputs outs = do
  parts ← tagged_data x kill_subnet kill_data_len outs
  subnet ← paid_subnet db parts.1
  prev_txid ← first_prev_txid inputs
  validator ←
      signer x (slice 6 signature_end parts.0) (λ pubkey. kill_text prev_txid pubkey subnet.id)
        subnet
  ok (record { subnet_id = subnet.id; pubkey = some validator.pubkey })
