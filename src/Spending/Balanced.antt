-- ===== src/Spending/Balanced.antt =====
-- src/multisig.rs: what a spending transaction takes and gives.
use bitcoin_ipc.Prelude.{
  ℕ, ◌+◌, ◌-◌, ◌*◌, ◌==◌, ◌≤◌, ◌≡◌, refl, sym, subst, ltb, Bool, true, false, Option, none, some,
  List, [], ◌∷◌, ◌++◌, length, sum-perm, ltb→lt, ltb_false→le, arith, if◌then◌else◌, Bool-cases,
  inl, inr,
}
use bitcoin_ipc.Result.{ok, ok_or, fail_if, fail_if-eq-ok, >>=-elim, ok-injective, ok_or-eq-ok}
use bitcoin_ipc.Types.{Amount, TxOut, pay_to}
use bitcoin_ipc.Coins.{Utxo, sort_utxos, select_coins}
use bitcoin_ipc.Coins.Pays.{IsSettled, select_coins-IsSettled}
use bitcoin_ipc.Coins.Spent.{sort_utxos-perm, select_coins-perm}
use bitcoin_ipc.Spending.{
  Rates, Spender, Transaction, input_amount, output_amount, scripts_with_change, weight_per_input,
  with_change, exhausting_weight, spend_all, asked, change_list, spend_selected,
  construct_spend_unsigned_transaction,
}
use mathlib.Core.List.{Perm, append-nil}

-- The weight that the fee is paid for.
abbrev pub charged_weight : Rates → Spender → List TxOut → Transaction → ℕ
charged_weight r s outs tx =
    if s.exhaust_unspent
    then exhausting_weight r s outs
    else r.tx_weight 0 (scripts_with_change s outs) + weight_per_input r s * length tx.input

-- The inputs are given outputs, each spent once, and all of them if they are to be exhausted. The
-- outputs are the wanted ones and at most one more, of change above dust. What is left of the inputs
-- is the fee, or with no change output at most dust more.
pub record IsBalanced (r : Rates) (s : Spender) (outs : List TxOut) (tx : Transaction)
    : Type 0 where
  pub left : List Utxo
  pub once : Perm s.unspent (tx.input ++ left)
  pub exhausted : s.exhaust_unspent ≡ true → left ≡ []
  pub fee : Amount
  pub charged : r.fee_wu (charged_weight r s outs tx) ≡ some fee
  pub change : Option TxOut
  pub outputs : tx.output ≡ outs ++ change_list change
  pub settled : IsSettled (asked r s outs) (input_amount tx.input) fee change

with_change-IsSettled :
    (r : Rates) (s : Spender) (outs : List TxOut) (amount fee : Amount) (b : Bool)
    → output_amount outs ≤ amount
    → fee ≤ amount - output_amount outs
    → ltb (r.minimal_non_dust (pay_to s.change_address)) (amount - output_amount outs - fee) ≡ b
    → (change : Option TxOut) × ((if b
          then outs
            ++ (record {
              value = amount - output_amount outs - fee;
              script_pubkey = pay_to s.change_address;
            })
              ∷ []
          else outs)
        ≡ outs ++ change_list change)
      × IsSettled (asked r s outs) amount fee change
with_change-IsSettled r s outs amount fee true h k above = (
  some (record {
    value = amount - output_amount outs - fee;
    script_pubkey = pay_to s.change_address;
  }),
  refl,
  (omega arith, ltb→lt _ _ above, refl),
)
with_change-IsSettled r s outs amount fee false h k below =
    let small = ltb_false→le _ _ below in (none, sym (append-nil outs), (omega arith, omega arith))

spend_all-IsBalanced :
    (r : Rates) (s : Spender) (outs : List TxOut) {tx : Transaction}
    → s.exhaust_unspent ≡ true
    → spend_all r s outs ≡ ok tx
    → IsBalanced r s outs tx
unfolding spend_all with_change
spend_all-IsBalanced r s outs {tx = tx} all e =
    >>=-elim (fail_if (length s.unspent == 0) _) _ e λ u₀ h₀ e₁.
      >>=-elim (fail_if (ltb (input_amount s.unspent) (output_amount outs)) _) _ e₁ λ u₁ h₁ e₂.
        >>=-elim (ok_or (r.fee_wu (exhausting_weight r s outs)) _) _ e₂ λ fee hf e₃.
          >>=-elim (fail_if (ltb (input_amount s.unspent - output_amount outs) fee) _) _ e₃
            λ u₂ h₂ e₄.
              let tx' : Transaction = record {
                input = sort_utxos s.unspent;
                output = with_change r s outs (input_amount s.unspent - output_amount outs - fee);
              } in
              let same : tx' ≡ tx = ok-injective e₄ in
              let enough = ltb_false→le _ _ (fail_if-eq-ok _ _ h₁) in
              let more = ltb_false→le _ _ (fail_if-eq-ok _ _ h₂) in
              let (change, outputs, settled) =
                with_change-IsSettled r s outs (input_amount s.unspent) fee _ enough more refl in
              let sorted : Perm s.unspent (sort_utxos s.unspent) = ∣ sort_utxos-perm s.unspent ∣₁ in
              let worth : input_amount s.unspent ≡ input_amount (sort_utxos s.unspent) =
                sum-perm (λ (u : Utxo). u.amount) sorted in
              subst (IsBalanced r s outs) same (record {
                left = [];
                once = subst (Perm s.unspent) (sym (append-nil (sort_utxos s.unspent))) sorted;
                exhausted = λ h. refl;
                fee = fee;
                charged = rw all (ok_or-eq-ok _ _ hf);
                change = change;
                outputs = outputs;
                settled = subst (λ a. IsSettled (asked r s outs) a fee change) worth settled;
              })

spend_selected-IsBalanced :
    (r : Rates) (s : Spender) (outs : List TxOut) {tx : Transaction}
    → s.exhaust_unspent ≡ false
    → spend_selected r s outs ≡ ok tx
    → IsBalanced r s outs tx
unfolding spend_selected
spend_selected-IsBalanced r s outs few e =
    >>=-elim (select_coins (asked r s outs) s.unspent) _ e λ p hp e₁.
      let (fee, charged, settled) = select_coins-IsSettled (asked r s outs) s.unspent p.0 p.1 hp in
      let (covered, rest, swept, left, split, chosen, small, once) =
        select_coins-perm (asked r s outs) s.unspent p.0 p.1 hp in
      subst (IsBalanced r s outs) (ok-injective e₁) (record {
        left = left;
        once = once;
        exhausted = λ h. absurd cc;
        fee = fee;
        charged = rw few charged;
        change = p.1;
        outputs = refl;
        settled = settled;
      })

-- Every transaction that `construct_spend_unsigned_transaction` builds is balanced: its inputs are
-- outputs of the committee, each spent once, and all of them if they are to be exhausted; its outputs
-- are the wanted ones, followed by at most one of change above dust to the change address; and the
-- inputs are worth the outputs and the fee of the weight, exactly with a change output, and with at
-- most dust more without one.
pub construct_spend_unsigned_transaction-IsBalanced :
    (r : Rates) (s : Spender) (outs : List TxOut) (tx : Transaction)
    → construct_spend_unsigned_transaction r s outs ≡ ok tx
    → IsBalanced r s outs tx
unfolding construct_spend_unsigned_transaction
construct_spend_unsigned_transaction-IsBalanced r s outs tx e =
    elim (Bool-cases s.exhaust_unspent) [
      | inl all ↦ spend_all-IsBalanced r s outs all (rw all at e)
      | inr few ↦ spend_selected-IsBalanced r s outs few (rw few at e)
    ]
