-- ===== src/Coins/Pays.antt =====
-- src/multisig.rs: what the coins that `select_coins` picks pay for.
use bitcoin_ipc.Prelude.{
  ◌+◌, ◌*◌, ◌≤◌, ◌<◌, ◌≡◌, refl, ◌∙◌, sym, ap, subst, Option, none, some, List, [], ◌∷◌, reverse,
  length, sum, length-append, sum-append, ltb→lt, ltb_false→le, ltb, leb, arith, if◌then◌else◌,
  Bool, true, false,
}
use bitcoin_ipc.Result.{ok, ok_or, >>=-elim, if-eq-ok, ok-injective, ok_or-eq-ok}
use bitcoin_ipc.Types.{Amount, TxOut, pay_to}
use bitcoin_ipc.Coins.{
  Utxo, Spend, Selection, select, fee, cover, sweep, take, change_of, finish, start, sort_utxos,
  select_coins,
}

abbrev pub total : List Utxo → Amount
total utxos = sum (λ (u : Utxo). u.amount) utxos

-- The running totals of a selection are those of its outputs.
pub record IsCounted (p : Spend) (sel : Selection) : Type 0 where
  pub amount : sel.total_amount ≡ total sel.selected
  pub weight :
      sel.total_weight ≡ p.base_tx_weight + p.satisfaction_weight_per_input * length sel.selected

start-IsCounted : (p : Spend) → IsCounted p (start p)
unfolding start
start-IsCounted p = record { amount = refl; weight = omega arith }

pub select-IsCounted :
    (p : Spend) (sel : Selection) (u : Utxo) → IsCounted p sel → IsCounted p (select p sel u)
select-IsCounted p sel u h = record {
  amount = omega (arith, h.amount, sum-append (λ (v : Utxo). v.amount) sel.selected (u ∷ []));
  weight = rw (length-append sel.selected (u ∷ [])) (omega (arith, h.weight));
}

cover-IsCounted :
    (p : Spend) (utxos : List Utxo) (sel : Selection) {r : Selection × List Utxo}
    → IsCounted p sel
    → cover p utxos sel ≡ ok r
    → IsCounted p r.0
unfolding cover
cover-IsCounted p [] sel h e = absurd cc
cover-IsCounted p (u ∷ utxos) sel h e =
    >>=-elim (fee p (sel.total_weight + p.satisfaction_weight_per_input)) _ e λ f hf e₁.
      if-eq-ok (leb (p.target + f) (sel.total_amount + u.amount)) e₁
        (λ here. subst (λ r. IsCounted p r.0) (ok-injective here) (select-IsCounted p sel u h))
        (λ later. cover-IsCounted p utxos (select p sel u) (select-IsCounted p sel u h) later)

sweep-IsCounted :
    (p : Spend) (utxos : List Utxo) (sel : Selection) {r : Selection}
    → IsCounted p sel
    → sweep p utxos sel ≡ ok r
    → IsCounted p r
unfolding sweep
sweep-IsCounted p [] sel h e = subst (IsCounted p) (ok-injective e) h
sweep-IsCounted p (u ∷ utxos) sel h e =
    >>=-elim (fee p (sel.total_weight + p.satisfaction_weight_per_input)) _ e λ f hf e₁.
      if-eq-ok (ltb (sel.total_amount + u.amount) (p.target + f + p.minimal_non_dust)) e₁
        (λ stop. subst (IsCounted p) (ok-injective stop) h)
        (λ later. sweep-IsCounted p utxos (select p sel u) (select-IsCounted p sel u h) later)

-- How an amount divides into the target, the fee and the change.
abbrev pub IsSettled : Spend → Amount → Amount → Option TxOut → Type 0
IsSettled p amount f none = (p.target + f ≤ amount) × (amount ≤ p.target + f + p.minimal_non_dust)
IsSettled p amount f (some c) =
    (amount ≡ p.target + f + c.value)
    × (p.minimal_non_dust < c.value)
    × (c.script_pubkey ≡ pay_to p.change_address)

change_of-eq-some :
    (p : Spend) (sel : Selection) (f c : Amount)
    → change_of p sel f ≡ some c
    → sel.total_amount ≡ p.target + f + c
unfolding change_of
change_of-eq-some p sel f c e = ground arith

change-IsSettled :
    (p : Spend) (amount f c : Amount) (b : Bool)
    → amount ≡ p.target + f + c
    → ltb p.minimal_non_dust c ≡ b
    → IsSettled p amount f
        (if b then some (record { value = c; script_pubkey = pay_to p.change_address }) else none)
change-IsSettled p amount f c true e h = (e, ltb→lt p.minimal_non_dust c h, refl)
change-IsSettled p amount f c false e h =
    let small = ltb_false→le p.minimal_non_dust c h in (omega arith, omega arith)

pub finish-IsSettled :
    (p : Spend) (sel : Selection) {selected : List Utxo} {change : Option TxOut}
    → finish p sel ≡ ok (selected, change)
    → (f : Amount) × (p.fee_wu sel.total_weight ≡ some f)
      × (sel.selected ≡ selected)
      × IsSettled p sel.total_amount f change
unfolding finish fee
finish-IsSettled p sel e = >>=-elim (ok_or (p.fee_wu sel.total_weight) _) _ e λ f hf e₁.
    >>=-elim (ok_or (change_of p sel f) _) _ e₁ λ c hc e₂. (
      f,
      ok_or-eq-ok _ _ hf,
      ap (λ r. r.0) (ok-injective e₂),
      subst (IsSettled p sel.total_amount f) (ap (λ r. r.1) (ok-injective e₂)) (
          change-IsSettled p sel.total_amount f c _
            (change_of-eq-some p sel f c (ok_or-eq-ok _ _ hc)) refl),
    )

-- The selected outputs are worth the target, the fee of a transaction with exactly them as inputs,
-- and the change: with a change output, which pays the change address and is above dust, exactly,
-- and without one at least the target and the fee and at most a dust output more.
pub select_coins-IsSettled :
    (p : Spend) (utxos selected : List Utxo) (change : Option TxOut)
    → select_coins p utxos ≡ ok (selected, change)
    → (f : Amount) × (p.fee_wu
          (p.base_tx_weight + p.satisfaction_weight_per_input * length selected)
        ≡ some f)
      × IsSettled p (total selected) f change
unfolding select_coins
select_coins-IsSettled p utxos selected change e =
    >>=-elim (cover p (sort_utxos utxos) (start p)) _ e λ c covered e₁.
      >>=-elim (sweep p (take p.consolidation_limit (reverse c.1)) c.0) _ e₁ λ sel swept e₂.
        let counted =
          sweep-IsCounted p _ c.0
            (cover-IsCounted p (sort_utxos utxos) (start p) (start-IsCounted p) covered) swept in
        let (f, hf, same, settled) = finish-IsSettled p sel e₂ in
        let sized =
          counted.weight
          ∙ ap (λ us. p.base_tx_weight + p.satisfaction_weight_per_input * length us) same in
        let worth = counted.amount ∙ ap total same in
        (f, ap p.fee_wu (sym sized) ∙ hf, subst (λ a. IsSettled p a f change) worth settled)
