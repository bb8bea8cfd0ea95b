-- ===== src/Transactions/Stake.antt =====
-- src/ipc_lib.rs: `to_tx` and `from_tx` of `IpcStakeCollateralMsg`.
use bitcoin_ipc.Prelude.{ℕ, not, List, [], ◌∷◌, ◌++◌}
use bitcoin_ipc.Result.{Result, ok, ◌>>=◌, ◌>>◌, fail_if, invalid_pubkey}
use bitcoin_ipc.Types.{XOnlyPublicKey, Address, TxOut, pay_to}
use bitcoin_ipc.Bytes.{be_bytes, from_be_bytes, slice}
use bitcoin_ipc.Db.{Db}
use bitcoin_ipc.Msg.Stake.{IpcStakeCollateralMsg}
use bitcoin_ipc.Transactions.{
  Crates, stake_collateral, as_str, tagged_data, paid_subnet, data_tx_out,
}

-- The tag and the 32 bytes of the key.
unfoldable pub stake_data : XOnlyPublicKey → List ℕ
unfolding as_str be_bytes
stake_data pubkey = as_str stake_collateral ++ be_bytes 32 pubkey

abbrev pub stake_data_len : ℕ
stake_data_len = 38

unfoldable pub stake_to_tx : Crates → IpcStakeCollateralMsg → Address → List TxOut
unfolding stake_data data_tx_out
stake_to_tx x m multisig_address =
    data_tx_out x (stake_data m.pubkey)
    ∷ record { value = m.amount; script_pubkey = pay_to multisig_address }
    ∷ []

unfoldable pub stake_from_tx : Crates → Db → List TxOut → Result IpcStakeCollateralMsg
unfolding tagged_data paid_subnet from_be_bytes slice
stake_from_tx x db outs = do
  parts ← tagged_data x stake_collateral stake_data_len outs
  let pubkey = from_be_bytes (slice 6 stake_data_len parts.0)
  fail_if (not (x.is_key pubkey)) invalid_pubkey
  subnet ← paid_subnet db parts.1
  ok (record { subnet_id = subnet.id; amount = parts.1.value; pubkey = pubkey })
