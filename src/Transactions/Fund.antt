-- ===== src/Transactions/Fund.antt =====
-- src/ipc_lib.rs: `to_tx` and `from_tx` of `IpcPrefundSubnetMsg` and `IpcFundSubnetMsg`.
use bitcoin_ipc.Prelude.{ℕ, List, [], ◌∷◌, ◌++◌}
use bitcoin_ipc.Result.{Result, ok, ◌>>=◌}
use bitcoin_ipc.Types.{Address, TxOut, Script, pay_to}
use bitcoin_ipc.Bytes.{be_bytes, from_be_bytes, slice}
use bitcoin_ipc.Records.{IpcFundSubnetMsg}
use bitcoin_ipc.Msg.Create.{IpcPrefundSubnetMsg}
use bitcoin_ipc.Transactions.{
  Crates, IpcTag, prefund_subnet, fund_subnet, as_str, tagged_data, data_tx_out,
}

-- The tag, the 20 bytes of the subnet id and the 20 of the address.
unfoldable pub fund_data : IpcTag → ℕ → ℕ → List ℕ
unfolding as_str be_bytes
fund_data tag subnet_id address = as_str tag ++ (be_bytes 20 subnet_id ++ be_bytes 20 address)

abbrev pub fund_data_len : ℕ
fund_data_len = 46

abbrev pub address_offset : ℕ
address_offset = 26

-- `prefund_script` is the script that pays to the multisig address, or back after a timelock.
unfoldable pub prefund_to_tx : Crates → IpcPrefundSubnetMsg → Script → List TxOut
unfolding fund_data data_tx_out
prefund_to_tx x m prefund_script =
    data_tx_out x (fund_data prefund_subnet m.subnet_id m.address)
    ∷ record { value = m.amount; script_pubkey = prefund_script }
    ∷ []

unfoldable pub prefund_from_tx : Crates → List TxOut → Result IpcPrefundSubnetMsg
unfolding tagged_data from_be_bytes slice
prefund_from_tx x outs = do
  parts ← tagged_data x prefund_subnet fund_data_len outs
  ok (record {
    subnet_id = from_be_bytes (slice 6 address_offset parts.0);
    amount = parts.1.value;
    address = from_be_bytes (slice address_offset fund_data_len parts.0);
  })

unfoldable pub fund_to_tx : Crates → IpcFundSubnetMsg → Address → List TxOut
unfolding fund_data data_tx_out
fund_to_tx x m multisig_address =
    data_tx_out x (fund_data fund_subnet m.subnet_id m.address)
    ∷ record { value = m.amount; script_pubkey = pay_to multisig_address }
    ∷ []

unfoldable pub fund_from_tx : Crates → List TxOut → Result IpcFundSubnetMsg
unfolding tagged_data from_be_bytes slice
fund_from_tx x outs = do
  parts ← tagged_data x fund_subnet fund_data_len outs
  ok (record {
    subnet_id = from_be_bytes (slice 6 address_offset parts.0);
    amount = parts.1.value;
    address = from_be_bytes (slice address_offset fund_data_len parts.0);
  })
