-- ===== src/Types.antt =====
-- The types that src/ipc_lib.rs, src/db.rs and src/multisig.rs take from other crates. Keys,
-- addresses, hashes and ids are only compared, so each is a number; an `Amount` is its satoshis.
use bitcoin_ipc.Prelude.{ℕ, Bool, List, ◌^◌}

abbrev pub SubnetId : Type 0
SubnetId = ℕ

abbrev pub XOnlyPublicKey : Type 0
XOnlyPublicKey = ℕ

abbrev pub Address : Type 0
Address = ℕ

abbrev pub EthAddress : Type 0
EthAddress = ℕ

abbrev pub Txid : Type 0
Txid = ℕ

abbrev pub BlockHash : Type 0
BlockHash = ℕ

abbrev pub Amount : Type 0
Amount = ℕ

-- A `u32`, below `u32_mod`.
abbrev pub Power : Type 0
Power = ℕ

abbrev pub WeightedKey : Type 0
WeightedKey = XOnlyPublicKey × Power

-- A `ScriptBuf`: data that nothing spends, or the script that an address stands for.
pub data Script : Type 0 where
  op_return : List ℕ → Script
  pay_to : Address → Script

pub record TxOut : Type 0 where
  pub value : Amount
  pub script_pubkey : Script

-- The input of a transaction: the output that it spends, and its witness.
pub record TxIn : Type 0 where
  pub txid : Txid
  pub vout : ℕ
  pub witness : List (List ℕ)

-- `id` is `compute_txid`.
pub record Transaction : Type 0 where
  pub id : Txid
  pub input : List TxIn
  pub output : List TxOut

abbrev pub u16_mod : ℕ
u16_mod = 2 ^ 16

abbrev pub u32_mod : ℕ
u32_mod = 2 ^ 32

abbrev pub u64_mod : ℕ
u64_mod = 2 ^ 64

-- What the code takes from outside the repository: the taproot address of a script over sorted
-- weighted keys, the address of a key on a subnet, the `f64` test on a stake increase, and the
-- cargo feature `dev`.
pub record Env : Type 0 where
  pub taproot_address : SubnetId → List WeightedKey → Power → Address
  pub eth_address : XOnlyPublicKey → EthAddress
  -- `stake_diff_small current new`: the increase is below MIN_STAKE_DIFF per cent
  pub stake_diff_small : Amount → Amount → Bool
  pub dev : Bool
