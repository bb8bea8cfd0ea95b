-- ===== src/Tests/Coins.antt =====
-- Tests and examples on the selection of coins.
use bitcoin_ipc.Prelude.{Option, ◌+◌, ◌≤◌, ◌≡◌, refl, some, [], ◌∷◌, length, List, ℕ, arith}
use bitcoin_ipc.Result.{ok, err, insufficient_funds}
use bitcoin_ipc.Types.{Amount, TxOut, pay_to}
use bitcoin_ipc.Coins.{
  Utxo, Spend, precedes, insert_utxo, sort_utxos, fee, cover, take, sweep, change_of, finish, start,
  select_coins,
}
use bitcoin_ipc.Coins.Enough.{select_coins_succeeds}
use mathlib.Core.List.{Sublistᴰ}

abbrev coin : Amount → ℕ → Utxo
coin amount txid = record { amount = amount; txid = txid; vout = 0 }

abbrev coins : List Utxo
coins = coin 50 1 ∷ coin 900 2 ∷ coin 30 3 ∷ coin 600 4 ∷ []

-- One unit of fee for a unit of weight; one input is swept.
abbrev spend : Spend
spend = record {
  target = 1000;
  fee_wu = λ w. some w;
  base_tx_weight = 10;
  satisfaction_weight_per_input = 20;
  minimal_non_dust = 100;
  change_address = 77;
  consolidation_limit = 1;
}

abbrev change : TxOut
change = record { value = 460; script_pubkey = pay_to 77 }

abbrev chosen : List Utxo
chosen = coin 900 2 ∷ coin 600 4 ∷ coin 30 3 ∷ []

selects : select_coins spend coins ≡ ok (chosen, some change)
unfolding select_coins finish sweep cover change_of fee take start sort_utxos insert_utxo precedes
selects = refl

too_little : select_coins (record spend { target = 1600 }) coins ≡ err insufficient_funds
unfolding select_coins finish sweep cover change_of fee take start sort_utxos insert_utxo precedes
too_little = refl

two_largest : Sublistᴰ (coin 900 2 ∷ coin 600 4 ∷ []) (sort_utxos coins)
unfolding sort_utxos insert_utxo precedes
two_largest =
    Sublistᴰ.cons-cons refl (Sublistᴰ.cons-cons refl (Sublistᴰ.cons (Sublistᴰ.cons Sublistᴰ.slnil)))

select_coins_succeeds_example :
    (selected : List Utxo) × (change : Option TxOut) × (select_coins spend coins
      ≡ ok (selected, change))
    × (length selected ≤ 2 + 1)
select_coins_succeeds_example =
    select_coins_succeeds spend (λ w. (w, refl)) coins (coin 900 2 ∷ coin 600 4 ∷ []) 50 two_largest
      (omega arith) refl (omega arith)
