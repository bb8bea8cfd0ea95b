-- ===== src/Coins.antt =====
-- src/multisig.rs: `select_coins`, which picks the unspent outputs that pay for a transaction, and
-- `multisig_spend_max_witness_size`, by which its inputs are weighed.
pub mod Pays
pub mod Spent
pub mod Enough
use bitcoin_ipc.Prelude.{
  ℕ, zero, suc, ◌+◌, ◌-◌, ◌*◌, Bool, true, false, not, ◌&&◌, ◌||◌, Option, none, some, List, [],
  ◌∷◌, ◌++◌, reverse, length, sum, ltb, leb, ◌==◌, if◌then◌else◌,
}
use bitcoin_ipc.Result.{
  Result, ok, err, ◌>>=◌, ◌>>◌, ok_or, panic, insufficient_funds, insufficient_funds_for_fee,
}
use bitcoin_ipc.Types.{Address, Amount, Txid, Power, WeightedKey, TxOut, pay_to}

pub record Utxo : Type 0 where
  pub amount : Amount
  pub txid : Txid
  pub vout : ℕ

-- The arguments of `select_coins`; `fee_wu` and `minimal_non_dust` are what the fee rate and the
-- change address give through the bitcoin crate.
pub record Spend : Type 0 where
  pub target : Amount
  pub fee_wu : ℕ → Option Amount
  pub base_tx_weight : ℕ
  pub satisfaction_weight_per_input : ℕ
  pub minimal_non_dust : Amount
  pub change_address : Address
  pub consolidation_limit : ℕ

-- `b.amount.cmp(&a.amount).then(a.txid.cmp(&b.txid)).then(a.vout.cmp(&b.vout))` is not `Greater`.
unfoldable pub precedes : Utxo → Utxo → Bool
precedes a b =
    ltb b.amount a.amount
    || (a.amount == b.amount && (ltb a.txid b.txid || (a.txid == b.txid && leb a.vout b.vout)))

unfoldable pub insert_utxo : Utxo → List Utxo → List Utxo
insert_utxo u [] = u ∷ []
insert_utxo u (v ∷ utxos) = if precedes u v then u ∷ v ∷ utxos else v ∷ insert_utxo u utxos

-- The stable `sort_by`.
unfoldable pub sort_utxos : List Utxo → List Utxo
unfolding insert_utxo
sort_utxos [] = []
sort_utxos (u ∷ utxos) = insert_utxo u (sort_utxos utxos)

-- `selected`, `total_amount` and `total_weight`.
pub record Selection : Type 0 where
  pub selected : List Utxo
  pub total_amount : Amount
  pub total_weight : ℕ

abbrev pub select : Spend → Selection → Utxo → Selection
select p sel u = record {
  selected = sel.selected ++ u ∷ [];
  total_amount = sel.total_amount + u.amount;
  total_weight = sel.total_weight + p.satisfaction_weight_per_input;
}

-- `fee_wu(weight).expect(..)`
unfoldable pub fee : Spend → ℕ → Result Amount
fee p weight = ok_or (p.fee_wu weight) panic

-- Phase 1: the largest outputs until the target and the fee are covered; what is left comes second.
unfoldable pub cover : Spend → List Utxo → Selection → Result (Selection × List Utxo)
cover p [] sel = err insufficient_funds
cover p (u ∷ utxos) sel =
    let more = cover p utxos (select p sel u) in
    do
      total_fee ← fee p (sel.total_weight + p.satisfaction_weight_per_input)
      if leb (p.target + total_fee) (sel.total_amount + u.amount)
          then ok (select p sel u, utxos)
          else more

unfoldable pub take : ℕ → List Utxo → List Utxo
take zero utxos = []
take (suc n) [] = []
take (suc n) (u ∷ utxos) = u ∷ take n utxos

-- Phase 2: the smallest outputs, as long as the change stays above dust.
unfoldable pub sweep : Spend → List Utxo → Selection → Result Selection
sweep p [] sel = ok sel
sweep p (u ∷ utxos) sel =
    let more = sweep p utxos (select p sel u) in
    do
      next_fee ← fee p (sel.total_weight + p.satisfaction_weight_per_input)
      if ltb (sel.total_amount + u.amount) (p.target + next_fee + p.minimal_non_dust)
          then ok sel
          else more

-- `total_amount.checked_sub(target).and_then(|r| r.checked_sub(total_fee))`
unfoldable pub change_of : Spend → Selection → Amount → Option Amount
change_of p sel total_fee =
    if ltb sel.total_amount p.target
    then none
    else if ltb (sel.total_amount - p.target) total_fee
    then none
    else some (sel.total_amount - p.target - total_fee)

-- Phase 3: the fee of all that is selected, and the change if it is not dust.
unfoldable pub finish : Spend → Selection → Result (List Utxo × Option TxOut)
finish p sel = do
  total_fee ← fee p sel.total_weight
  change ← ok_or (change_of p sel total_fee) insufficient_funds_for_fee
  ok (
    sel.selected,
    (if ltb p.minimal_non_dust change
        then some (record { value = change; script_pubkey = pay_to p.change_address })
        else none),
  )

unfoldable pub start : Spend → Selection
start p = record { selected = []; total_amount = 0; total_weight = p.base_tx_weight }

unfoldable pub select_coins : Spend → List Utxo → Result (List Utxo × Option TxOut)
select_coins p utxos = do
  covered ← cover p (sort_utxos utxos) (start p)
  sel ← sweep p (take p.consolidation_limit (reverse covered.1)) covered.0
  finish p sel

-- `VarInt::size` stands in the bitcoin crate, as the constants of a signature, a key and a control
-- block do.
pub record Sizes : Type 0 where
  pub var_int : ℕ → ℕ
  pub schnorr_signature : ℕ
  pub schnorr_public_key : ℕ
  pub taproot_control_base : ℕ
  pub taproot_control_node : ℕ

unfoldable pub script_size : Sizes → List WeightedKey → Power → ℕ
script_size z keys threshold =
    1
    + sum (λ (k : WeightedKey). z.schnorr_public_key + 5 + z.var_int k.1) keys
    + z.var_int threshold
    + 1

unfoldable pub multisig_spend_max_witness_size : Sizes → List WeightedKey → Power → ℕ
unfolding script_size
multisig_spend_max_witness_size z keys threshold =
    let committee_size = length keys in
    let control_block = z.taproot_control_base + z.taproot_control_node in
    z.schnorr_signature * committee_size
    + script_size z keys threshold
    + control_block
    + (z.var_int (committee_size + 2)
        + z.var_int z.schnorr_signature * committee_size
        + z.var_int (script_size z keys threshold)
        + z.var_int control_block)
