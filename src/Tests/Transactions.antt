-- ===== src/Tests/Transactions.antt =====
-- src/ipc_lib.rs: transactions of messages, written and read.
use bitcoin_ipc.Prelude.{ℕ, ◌≡◌, refl, true, some, none, List, [], ◌∷◌, ◌++◌, ◌==◌, ==_iff, arith}
use bitcoin_ipc.Result.{ok}
use bitcoin_ipc.Types.{TxIn, TxOut}
use bitcoin_ipc.Records.{IpcFundSubnetMsg}
use bitcoin_ipc.Committee.{is_validator}
use bitcoin_ipc.Db.{Db, get_subnet_by_multisig_address}
use bitcoin_ipc.Table.{values}
use bitcoin_ipc.Msg.Unstake.{IpcUnstakeCollateralMsg}
use bitcoin_ipc.Transactions.{Crates, IpcTag, fund_subnet}
use bitcoin_ipc.Transactions.Fund.{fund_to_tx, fund_from_tx}
use bitcoin_ipc.Transactions.Signed.{unstake_to_tx, unstake_from_tx}
use bitcoin_ipc.Transactions.Roundtrip.{unstake_from_tx-unstake_to_tx}
use bitcoin_ipc.Transactions.Signatures.{unstake_text-injective}
use bitcoin_ipc.Transactions.Exclusive.{reads, reads_unique}
use bitcoin_ipc.Tests.Values.{alice_and_bob, state, database}
use bitcoin_ipc.Tests.Messages.{pushed, paying}

-- Every signature is alice's.
abbrev pub crates : Crates
crates = record {
  pushed = pushed;
  is_key = λ key. true;
  minimal_non_dust_custom = λ script. 330;
  sha256 = λ bytes. 0;
  verify_schnorr = λ signature digest key. key == 1;
}

abbrev pub db : Db
db = database (state alice_and_bob none) []

abbrev pub fund_msg : IpcFundSubnetMsg
fund_msg = record { subnet_id = 7; amount = 500; address = 3 }

abbrev pub fund_outs : List TxOut
fund_outs = fund_to_tx crates fund_msg 844 ++ paying 40 12 ∷ []

abbrev unstake_msg : IpcUnstakeCollateralMsg
unstake_msg = record { subnet_id = 7; amount = 1_000_000; pubkey = some 1 }

abbrev zeros_8 : List ℕ
zeros_8 = 0 ∷ 0 ∷ 0 ∷ 0 ∷ 0 ∷ 0 ∷ 0 ∷ 0 ∷ []

abbrev zeros_32 : List ℕ
zeros_32 = zeros_8 ++ (zeros_8 ++ (zeros_8 ++ zeros_8))

abbrev signature : List ℕ
signature = zeros_32 ++ zeros_32

abbrev pub spent : TxIn
spent = record { txid = 55; vout = 1; witness = [] }

fund_from_tx_runs : fund_from_tx crates fund_outs ≡ ok fund_msg
unfolding fund_from_tx fund_to_tx
fund_from_tx_runs = refl

unstake_from_tx-unstake_to_tx_example :
    unstake_from_tx crates db
      (spent ∷ [])
      (unstake_to_tx crates unstake_msg 844 signature ++ paying 40 12 ∷ [])
    ≡ ok unstake_msg
unfolding get_subnet_by_multisig_address is_validator values
unstake_from_tx-unstake_to_tx_example =
    unstake_from_tx-unstake_to_tx crates db unstake_msg (state alice_and_bob none) 844 1 signature
      spent [] (paying 40 12 ∷ []) (λ bytes. refl) refl (omega arith) refl refl refl refl
      (λ k h. (==_iff k 1).0 h) refl

reads_unique_example : ◌≡◌ {A = IpcTag} fund_subnet fund_subnet
unfolding reads fund_from_tx fund_to_tx
reads_unique_example =
    reads_unique crates db (spent ∷ []) fund_outs fund_subnet fund_subnet refl refl

unstake_text-injective_example :
    ◌≡◌ {A = ℕ} 55 55 × ◌≡◌ {A = ℕ} 1 1 × ◌≡◌ {A = ℕ} 1_000_000 1_000_000 × ◌≡◌ {A = ℕ} 7 7
unstake_text-injective_example =
    unstake_text-injective 55 55 1 1 1_000_000 1_000_000 7 7 (omega arith) (omega arith)
      (omega arith) (omega arith) (omega arith) (omega arith) (omega arith) (omega arith) refl
