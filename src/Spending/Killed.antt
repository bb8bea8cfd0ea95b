-- ===== src/Spending/Killed.antt =====
-- src/ipc_lib.rs: the split of a kill checkpoint's change among its unstakes, and the transaction that
-- is built from the result.
use bitcoin_ipc.Prelude.{
  ℕ, ◌+◌, ◌-◌, ◌*◌, ◌==◌, ◌<◌, ◌≡◌, refl, sym, ap, subst, ◌∙◌, ltb, Bool, true, false, Option, none,
  some, List, [], ◌∷◌, ◌++◌, map, length, sum-append, sum-perm, lt→ltb, ltb_false→le, find?, arith,
  Bool-cases, inl, inr,
}
use bitcoin_ipc.Result.{ok, fail_if, fail_if-eq-ok, >>=-elim, ok-injective, panic, no_utxos}
use bitcoin_ipc.Types.{Address, Amount, TxOut, Script, pay_to}
use bitcoin_ipc.Records.{IpcUnstake}
use bitcoin_ipc.Coins.{Utxo, sort_utxos}
use bitcoin_ipc.Coins.Pays.{IsSettled}
use bitcoin_ipc.Spending.{
  Rates, Spender, Transaction, input_amount, output_amount, witness_size, with_change,
  exhausting_weight, spend_all, asked, change_list, construct_spend_unsigned_transaction, pays_to,
  found_value, change_amount, distribute, unstaked, split_change,
}
use bitcoin_ipc.Spending.Balanced.{construct_spend_unsigned_transaction-IsBalanced}
use mathlib.Core.List.{map-append}

abbrev scripts : List TxOut → List Script
scripts outs = map (λ (out : TxOut). out.script_pubkey) outs

-- All of the change goes to the outputs, whose scripts stay.
distribute-all :
    (r : Rates) (change total distributed : Amount) (us : List IpcUnstake) (outs : List TxOut)
    {rest : List TxOut}
    → length us ≡ length outs
    → 0 < length us
    → distribute r change total distributed us outs ≡ ok rest
    → (output_amount rest + distributed ≡ output_amount outs + change)
      × (scripts rest ≡ scripts outs)
unfolding distribute
distribute-all r change total distributed [] outs same some_left e = absurd (omega arith)
distribute-all r change total distributed (u ∷ us) [] same some_left e = absurd (omega arith)
distribute-all r change total distributed (u ∷ []) (out ∷ []) same some_left e =
    >>=-elim (fail_if (ltb change distributed) panic) _ e λ t h e₁.
      let le = ltb_false→le change distributed (fail_if-eq-ok _ _ h) in
      (omega (arith, ap output_amount (sym (ok-injective e₁))), ap scripts (sym (ok-injective e₁)))
distribute-all r change total distributed (u ∷ []) (out ∷ out₂ ∷ outs) same some_left e =
    absurd (omega arith)
distribute-all r change total distributed (u ∷ u₂ ∷ us) (out ∷ outs) same some_left e =
    >>=-elim
      (distribute r change total (distributed + r.share change u.amount total) (u₂ ∷ us) outs) _ e
      λ rest hr e₁.
        let (worth, kept) =
          distribute-all r change total (distributed + r.share change u.amount total) (u₂ ∷ us) outs
            (omega arith) (omega arith) hr in
        (
          omega (arith, worth, ap output_amount (sym (ok-injective e₁))),
          ap scripts (sym (ok-injective e₁)) ∙ ap (λ ss. out.script_pubkey ∷ ss) kept,
        )

find?-append :
    (p : TxOut → Bool) (xs ys : List TxOut) → find? p xs ≡ none → find? p (xs ++ ys) ≡ find? p ys
find?-append p [] ys h = refl
find?-append p (x ∷ xs) ys h = elim (Bool-cases (p x)) [
  | inl e ↦ absurd (some_none (rw e at h))
  | inr e ↦ rw e (find?-append p xs ys (rw e at h))
]
  where
    some_none : {out : TxOut} → some out ≡ none → ⊥
    some_none h = cc

own_script : (a : Address) → pays_to a (pay_to a) ≡ true
own_script a = ground arith

-- Where no wanted output pays to the change address, the amount found is that of the change.
change_amount-IsSettled :
    (r : Rates) (s : Spender) (outs : List TxOut) (amount fee : Amount) (change : Option TxOut)
    → find? (λ (out : TxOut). pays_to s.change_address out.script_pubkey) outs ≡ none
    → IsSettled (asked r s outs) amount fee change
    → 0 < change_amount s.change_address (outs ++ change_list change)
    → amount
      ≡ output_amount outs + fee + change_amount s.change_address (outs ++ change_list change)
unfolding change_amount
change_amount-IsSettled r s outs amount fee none stranger settled positive =
    let p = λ (out : TxOut). pays_to s.change_address out.script_pubkey in
    absurd (omega (arith, ap found_value (find?-append p outs [] stranger)))
change_amount-IsSettled r s outs amount fee (some c) stranger (worth, above, script) positive =
    let p = λ (out : TxOut). pays_to s.change_address out.script_pubkey in
    let own : find? p (c ∷ []) ≡ some c = rw (script, own_script s.change_address) refl in
    omega (arith, worth, ap found_value (find?-append p outs (c ∷ []) stranger), ap found_value own)

some_unspent :
    (r : Rates) (s : Spender) (outs : List TxOut) {tx : Transaction}
    → s.exhaust_unspent ≡ true
    → construct_spend_unsigned_transaction r s outs ≡ ok tx
    → (length s.unspent == 0) ≡ false
unfolding construct_spend_unsigned_transaction spend_all
some_unspent r s outs all e =
    >>=-elim (fail_if (length s.unspent == 0) no_utxos) _ (rw all at e)
      λ u h rest. fail_if-eq-ok _ _ h

-- With inputs that are worth the outputs and the fee, no change is left over.
construct-exact :
    (r : Rates) (s : Spender) (outs : List TxOut) (fee : Amount)
    → s.exhaust_unspent ≡ true
    → (length s.unspent == 0) ≡ false
    → r.fee_wu (exhausting_weight r s outs) ≡ some fee
    → input_amount s.unspent ≡ output_amount outs + fee
    → construct_spend_unsigned_transaction r s outs
      ≡ ok (record { input = sort_utxos s.unspent; output = outs })
unfolding construct_spend_unsigned_transaction spend_all with_change
construct-exact r s outs fee all present charged exact =
    rw
      (
        all,
        present,
        covers (input_amount s.unspent) (output_amount outs) fee exact,
        charged,
        pays (input_amount s.unspent) (output_amount outs) fee exact,
        no_dust (input_amount s.unspent) (output_amount outs) fee
            (r.minimal_non_dust (pay_to s.change_address)) exact,
      )
      refl
  where
    covers : (a b f : ℕ) → a ≡ b + f → ltb a b ≡ false
    covers a b f h = ground arith

    pays : (a b f : ℕ) → a ≡ b + f → ltb (a - b) f ≡ false
    pays a b f h = ground arith

    no_dust : (a b f d : ℕ) → a ≡ b + f → ltb d (a - b - f) ≡ false
    no_dust a b f d h = ground arith

-- The change of a kill checkpoint goes to its unstakes, one output each, to the last satoshi: the
-- transaction built from the split outputs has all the committee's outputs as inputs and no change
-- output, and the inputs are worth exactly the outputs and the fee. The first construction spends all
-- inputs and leaves a change, no wanted output pays to the change address, the unstakes are worth
-- more than zero, and the split does not abort.
pub split_change_drains :
    (r : Rates) (s : Spender) (unstakes : List IpcUnstake) (front unstake_outs outs : List TxOut)
    (tx : Transaction)
    → s.exhaust_unspent ≡ true
    → length unstakes ≡ length unstake_outs
    → 0 < length unstakes
    → 0 < unstaked unstakes
    → find? (λ (out : TxOut). pays_to s.change_address out.script_pubkey) (front ++ unstake_outs)
      ≡ none
    → construct_spend_unsigned_transaction r s (front ++ unstake_outs) ≡ ok tx
    → 0 < change_amount s.change_address tx.output
    → split_change r s true unstakes front unstake_outs ≡ ok outs
    → (fee : Amount) × (r.fee_wu (exhausting_weight r s outs) ≡ some fee)
      × (construct_spend_unsigned_transaction r s outs
          ≡ ok (record { input = sort_utxos s.unspent; output = outs }))
      × (input_amount s.unspent ≡ output_amount outs + fee)
unfolding split_change
split_change_drains r s unstakes front unstake_outs outs tx all same some_left worth stranger first
      positive e =
    let balanced =
      construct_spend_unsigned_transaction-IsBalanced r s (front ++ unstake_outs) tx first in
    let change = change_amount s.change_address tx.output in
    let fee = balanced.fee in
    let value = λ (u : Utxo). u.amount in
    let spent : input_amount s.unspent ≡ input_amount tx.input = omega (
      arith,
      sum-perm value balanced.once,
      sum-append value tx.input balanced.left,
      ap input_amount (balanced.exhausted all),
    ) in
    let settled =
      change_amount-IsSettled r s (front ++ unstake_outs) (input_amount tx.input) fee
        balanced.change stranger balanced.settled
        (subst (λ l. 0 < change_amount s.change_address l) balanced.outputs positive) in
    let left : input_amount s.unspent ≡ output_amount (front ++ unstake_outs) + fee + change =
      omega (arith, spent, settled, ap (change_amount s.change_address) balanced.outputs) in
    let charged : r.fee_wu (exhausting_weight r s (front ++ unstake_outs)) ≡ some fee =
      rw all at balanced.charged in
    let chosen =
      rw
        (
          first,
          lt→ltb 0 change positive,
          lt→ltb 0 (length unstakes) some_left,
          lt→ltb 0 (unstaked unstakes) worth,
        )
        at e in
    >>=-elim (distribute r change (unstaked unstakes) 0 unstakes unstake_outs) _ chosen
      λ rest hr e₁.
        let (moved, kept) =
          distribute-all r change (unstaked unstakes) 0 unstakes unstake_outs same some_left hr in
        let amount = λ (out : TxOut). out.value in
        let outs_same : front ++ rest ≡ outs = ok-injective e₁ in
        let scripts_same : scripts outs ≡ scripts (front ++ unstake_outs) =
          ap scripts (sym outs_same)
          ∙ map-append (λ (out : TxOut). out.script_pubkey) front rest
          ∙ ap (λ l. scripts front ++ l) kept
          ∙ sym (map-append (λ (out : TxOut). out.script_pubkey) front unstake_outs) in
        let exact : input_amount s.unspent ≡ output_amount outs + fee = omega (
          arith,
          left,
          moved,
          ap output_amount outs_same,
          sum-append amount front rest,
          sum-append amount front unstake_outs,
        ) in
        let fee_same : r.fee_wu (exhausting_weight r s outs) ≡ some fee =
          ap
            (λ l. r.fee_wu (
              r.tx_weight (length s.unspent) (l ++ (pay_to s.change_address ∷ []))
              + witness_size r s * length s.unspent))
            scripts_same
          ∙ charged in
        (
          fee,
          fee_same,
          construct-exact r s outs fee all (some_unspent r s (front ++ unstake_outs) all first)
              fee_same exact,
          exact,
        )
