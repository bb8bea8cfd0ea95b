-- ===== src/Tests/Spending.antt =====
-- Tests and examples on transactions that spend a committee's outputs.
use bitcoin_ipc.Prelude.{◌+◌, ◌*◌, ◌/◌, ◌<◌, ◌≡◌, refl, true, false, some, List, [], ◌∷◌, arith}
use bitcoin_ipc.Result.{ok}
use bitcoin_ipc.Types.{Amount, TxOut}
use bitcoin_ipc.Coins.{
  Utxo, precedes, insert_utxo, sort_utxos, fee, cover, take, sweep, change_of, finish, start,
  select_coins,
}
use bitcoin_ipc.Spending.{
  Rates, Spender, Transaction, exhausting_weight, construct_spend_unsigned_transaction,
  change_amount, split_change,
}
use bitcoin_ipc.Spending.Balanced.{IsBalanced, construct_spend_unsigned_transaction-IsBalanced}
use bitcoin_ipc.Spending.Killed.{split_change_drains}
use bitcoin_ipc.Tests.Messages.{alice_leaves, bob_leaves, paying}

abbrev rates : Rates
rates = record {
  sizes = record {
    var_int = λ n. 1;
    schnorr_signature = 64;
    schnorr_public_key = 32;
    taproot_control_base = 33;
    taproot_control_node = 32;
  };
  base_txin_size = 41;
  fee_wu = λ weight. some 1000;
  minimal_non_dust = λ script. 330;
  tx_weight = λ inputs scripts. 400 * inputs + 100;
  share = λ change amount total. change * amount / total;
}

abbrev coins : List Utxo
coins =
    (record { amount = 7000; txid = 1; vout = 0 })
    ∷ (record { amount = 5000; txid = 2; vout = 0 })
    ∷ []

abbrev spender : Spender
spender = record {
  committee_keys = (1, 300) ∷ (2, 200) ∷ [];
  threshold = 334;
  change_address = 844;
  unspent = coins;
  exhaust_unspent = true;
  consolidation_limit = 5;
}

abbrev picking : Spender
picking = record spender { exhaust_unspent = false; consolidation_limit = 0 }

abbrev picked : Transaction
picked = record {
  input = (record { amount = 7000; txid = 1; vout = 0 }) ∷ [];
  output = paying 4000 61 ∷ paying 2000 844 ∷ [];
}

picks : construct_spend_unsigned_transaction rates picking (paying 4000 61 ∷ []) ≡ ok picked
unfolding construct_spend_unsigned_transaction select_coins finish sweep cover change_of fee take
    start sort_utxos insert_utxo precedes
picks = refl

construct_spend_unsigned_transaction-IsBalanced_example :
    IsBalanced rates picking (paying 4000 61 ∷ []) picked
construct_spend_unsigned_transaction-IsBalanced_example =
    construct_spend_unsigned_transaction-IsBalanced rates picking (paying 4000 61 ∷ []) picked picks

abbrev front : List TxOut
front = paying 1700 61 ∷ []

abbrev leaving : List TxOut
leaving = paying 100 31 ∷ paying 200 32 ∷ []

-- 9000 of change are split.
abbrev unsplit : Transaction
unsplit = record {
  input = coins;
  output = paying 1700 61 ∷ paying 100 31 ∷ paying 200 32 ∷ paying 9000 844 ∷ [];
}

first :
    construct_spend_unsigned_transaction rates spender
      (paying 1700 61 ∷ paying 100 31 ∷ paying 200 32 ∷ [])
    ≡ ok unsplit
unfolding construct_spend_unsigned_transaction sort_utxos insert_utxo precedes
first = refl

abbrev split : List TxOut
split = paying 1700 61 ∷ paying 3100 31 ∷ paying 6200 32 ∷ []

splits : split_change rates spender true (alice_leaves ∷ bob_leaves ∷ []) front leaving ≡ ok split
unfolding split_change sort_utxos insert_utxo precedes
splits = refl

nine_thousand : 0 < change_amount 844 unsplit.output
unfolding change_amount
nine_thousand = omega arith

split_change_drains_example :
    (fee : Amount) × (rates.fee_wu (exhausting_weight rates spender split) ≡ some fee)
    × (construct_spend_unsigned_transaction rates spender split
        ≡ ok (record { input = sort_utxos coins; output = split }))
    × (12000 ≡ 11000 + fee)
split_change_drains_example =
    split_change_drains rates spender (alice_leaves ∷ bob_leaves ∷ []) front leaving split unsplit
      refl refl (omega arith) (omega arith) refl first nine_thousand splits
