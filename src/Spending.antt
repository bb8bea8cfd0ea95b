-- ===== src/Spending.antt =====
-- src/multisig.rs: `construct_spend_unsigned_transaction`, which spends a committee's unspent outputs,
-- and src/ipc_lib.rs: how `to_checkpoint_psbt` splits the change of a kill checkpoint.
pub mod Balanced
pub mod Killed
use bitcoin_ipc.Prelude.{
  ℕ, ◌+◌, ◌-◌, ◌*◌, ◌==◌, ltb, Bool, true, false, not, ◌&&◌, ◌||◌, Option, none, some, List, [],
  ◌∷◌, ◌++◌, map, length, sum, find?, if◌then◌else◌,
}
use bitcoin_ipc.Result.{
  Result, ok, err, ◌>>=◌, ◌>>◌, ok_or, fail_if, panic, no_utxos, insufficient_outputs,
  insufficient_funds_for_fee,
}
use bitcoin_ipc.Types.{Address, Amount, Power, WeightedKey, TxOut, Script, op_return, pay_to}
use bitcoin_ipc.Records.{IpcUnstake}
use bitcoin_ipc.Coins.{
  Utxo, Spend, Sizes, sort_utxos, select_coins, multisig_spend_max_witness_size,
}

-- What the bitcoin crate gives at the fee rate. The weight of a transaction depends on the number of
-- its inputs and on the scripts of its outputs; the share of an unstake in the change is computed
-- in `f64`.
pub record Rates : Type 0 where
  pub sizes : Sizes
  pub base_txin_size : ℕ
  pub fee_wu : ℕ → Option Amount
  pub minimal_non_dust : Script → Amount
  pub tx_weight : ℕ → List Script → ℕ
  pub share : Amount → Amount → Amount → Amount

-- The arguments that stay the same from one construction to the next.
pub record Spender : Type 0 where
  pub committee_keys : List WeightedKey
  pub threshold : Power
  pub change_address : Address
  pub unspent : List Utxo
  pub exhaust_unspent : Bool
  pub consolidation_limit : ℕ

-- The outputs that the inputs spend, and the outputs.
pub record Transaction : Type 0 where
  pub input : List Utxo
  pub output : List TxOut

abbrev pub input_amount : List Utxo → Amount
input_amount utxos = sum (λ (u : Utxo). u.amount) utxos

abbrev pub output_amount : List TxOut → Amount
output_amount outs = sum (λ (out : TxOut). out.value) outs

-- The scripts of the outputs with a change output.
abbrev pub scripts_with_change : Spender → List TxOut → List Script
scripts_with_change s outs =
    map (λ (out : TxOut). out.script_pubkey) outs ++ (pay_to s.change_address ∷ [])

abbrev pub witness_size : Rates → Spender → ℕ
witness_size r s = multisig_spend_max_witness_size r.sizes s.committee_keys s.threshold

-- A non-witness byte weighs four units.
abbrev pub weight_per_input : Rates → Spender → ℕ
weight_per_input r s = 4 * r.base_txin_size + witness_size r s

unfoldable pub with_change : Rates → Spender → List TxOut → Amount → List TxOut
with_change r s outs remaining =
    if ltb (r.minimal_non_dust (pay_to s.change_address)) remaining
    then outs ++ (record { value = remaining; script_pubkey = pay_to s.change_address }) ∷ []
    else outs

-- `exhaust_unspent`
abbrev pub exhausting_weight : Rates → Spender → List TxOut → ℕ
exhausting_weight r s outs =
    r.tx_weight (length s.unspent) (scripts_with_change s outs)
    + witness_size r s * length s.unspent

unfoldable pub spend_all : Rates → Spender → List TxOut → Result Transaction
unfolding with_change
spend_all r s outs = do
  fail_if (length s.unspent == 0) no_utxos
  fail_if (ltb (input_amount s.unspent) (output_amount outs)) insufficient_outputs
  fee ← ok_or (r.fee_wu (exhausting_weight r s outs)) panic
  fail_if (ltb (input_amount s.unspent - output_amount outs) fee) insufficient_funds_for_fee
  ok (record {
    input = sort_utxos s.unspent;
    output = with_change r s outs (input_amount s.unspent - output_amount outs - fee);
  })

-- What is asked of the coin selection.
abbrev pub asked : Rates → Spender → List TxOut → Spend
asked r s outs = record {
  target = output_amount outs;
  fee_wu = r.fee_wu;
  base_tx_weight = r.tx_weight 0 (scripts_with_change s outs);
  satisfaction_weight_per_input = weight_per_input r s;
  minimal_non_dust = r.minimal_non_dust (pay_to s.change_address);
  change_address = s.change_address;
  consolidation_limit = s.consolidation_limit;
}

abbrev pub change_list : Option TxOut → List TxOut
change_list none = []
change_list (some out) = out ∷ []

unfoldable pub spend_selected : Rates → Spender → List TxOut → Result Transaction
spend_selected r s outs = do
  (selected, change) ← select_coins (asked r s outs) s.unspent
  ok (record { input = selected; output = outs ++ change_list change })

unfoldable pub construct_spend_unsigned_transaction :
    Rates → Spender → List TxOut → Result Transaction
unfolding spend_all spend_selected
construct_spend_unsigned_transaction r s outs =
    if s.exhaust_unspent then spend_all r s outs else spend_selected r s outs

abbrev pays_to : Address → Script → Bool
pays_to address (op_return bytes) = false
pays_to address (pay_to other) = other == address

-- `find(|out| ..).map_or(Amount::ZERO, |out| out.value)`
abbrev pub found_value : Option TxOut → Amount
found_value none = 0
found_value (some out) = out.value

unfoldable pub change_amount : Address → List TxOut → Amount
change_amount address outs =
    found_value (find? (λ (out : TxOut). pays_to address out.script_pubkey) outs)

-- The loop over the unstakes and their outputs; the last one gets what is left, and a subtraction of
-- amounts aborts below zero.
unfoldable pub distribute :
    Rates → Amount → Amount → Amount → List IpcUnstake → List TxOut → Result (List TxOut)
distribute r change total distributed (u ∷ []) (out ∷ []) = do
  fail_if (ltb change distributed) panic
  ok ((record out { value = out.value + (change - distributed) }) ∷ [])
distribute r change total distributed (u ∷ us) (out ∷ outs) =
    let additional = r.share change u.amount total in
    do
      rest ← distribute r change total (distributed + additional) us outs
      ok ((record out { value = out.value + additional }) ∷ rest)
distribute r change total distributed _ outs = ok outs

abbrev pub unstaked : List IpcUnstake → Amount
unstaked us = sum (λ (u : IpcUnstake). u.amount) us

-- The outputs before the unstakes, and theirs; the result is the outputs that are signed.
unfoldable pub split_change :
    Rates → Spender → Bool → List IpcUnstake → List TxOut → List TxOut → Result (List TxOut)
unfolding change_amount distribute construct_spend_unsigned_transaction
split_change r s is_kill unstakes front unstake_outs = do
  checkpoint_tx ← construct_spend_unsigned_transaction r s (front ++ unstake_outs)
  let change = change_amount s.change_address checkpoint_tx.output
  if is_kill && ltb 0 change && ltb 0 (length unstakes) && ltb 0 (unstaked unstakes)
      then (do
        outs ← distribute r change (unstaked unstakes) 0 unstakes unstake_outs
        ok (front ++ outs))
      else ok (front ++ unstake_outs)
