-- ===== src/Coins/Enough.antt =====
-- src/multisig.rs: when `select_coins` finds enough.
use mathlib.Core.List.{Sublistᴰ}
use bitcoin_ipc.Prelude.{
  ℕ, zero, suc, ◌+◌, ◌-◌, ◌*◌, ◌≤◌, ◌<◌, ◌≡◌, refl, ◌∙◌, ap, Option, none, some, List, [], ◌∷◌,
  reverse, length, length-append, ltb, leb, arith, if◌then◌else◌, if-elim, Bool, true, false, All,
  Bool-cases, inl, inr, leb→le, le→leb, ltb_false→le,
}
use bitcoin_ipc.Result.{ok}
use bitcoin_ipc.Types.{Amount, TxOut, pay_to}
use bitcoin_ipc.Coins.{
  Utxo, Spend, Selection, select, fee, cover, sweep, take, change_of, finish, start, precedes,
  insert_utxo, sort_utxos, select_coins,
}
use bitcoin_ipc.Coins.Pays.{total}

-- Largest first.
abbrev pub IsSorted : List Utxo → Type 0
IsSorted [] = Unit
IsSorted (u ∷ utxos) = All (λ (v : Utxo). v.amount ≤ u.amount) utxos × IsSorted utxos

precedes_le :
    (u v : Utxo) (b : Bool)
    → precedes u v ≡ b
    → (if b then v.amount ≤ u.amount else u.amount ≤ v.amount)
unfolding precedes
precedes_le u v true h = ground arith
precedes_le u v false h = ground arith

All-insert :
    (n : ℕ) (u : Utxo) (utxos : List Utxo)
    → u.amount ≤ n
    → All (λ (v : Utxo). v.amount ≤ n) utxos
    → All (λ (v : Utxo). v.amount ≤ n) (insert_utxo u utxos)
unfolding insert_utxo
All-insert n u [] h k = (h, tt)
All-insert n u (v ∷ utxos) h (k, ks) =
    if-elim (All (λ (w : Utxo). w.amount ≤ n)) (precedes u v) (h, (k, ks))
      (k, All-insert n u utxos h ks)

All-weaken :
    (m n : ℕ) (utxos : List Utxo)
    → m ≤ n
    → All (λ (v : Utxo). v.amount ≤ m) utxos
    → All (λ (v : Utxo). v.amount ≤ n) utxos
All-weaken m n [] h k = tt
All-weaken m n (v ∷ utxos) h (k, ks) = (omega arith, All-weaken m n utxos h ks)

insert_utxo-IsSorted :
    (u : Utxo) (utxos : List Utxo) → IsSorted utxos → IsSorted (insert_utxo u utxos)
unfolding insert_utxo
insert_utxo-IsSorted u [] h = (tt, tt)
insert_utxo-IsSorted u (v ∷ utxos) (h, hs) = elim (Bool-cases (precedes u v)) [
  | inl e ↦
      let le = precedes_le u v true e in
      rw e ((le, All-weaken v.amount u.amount utxos le h), (h, hs))
  | inr e ↦
      rw e
        (All-insert v.amount u utxos (precedes_le u v false e) h, insert_utxo-IsSorted u utxos hs)
]

sort_utxos-IsSorted : (utxos : List Utxo) → IsSorted (sort_utxos utxos)
unfolding sort_utxos
sort_utxos-IsSorted [] = tt
sort_utxos-IsSorted (u ∷ utxos) =
    insert_utxo-IsSorted u (sort_utxos utxos) (sort_utxos-IsSorted utxos)

take_front :
    (n : ℕ) (u : Utxo) (utxos : List Utxo)
    → IsSorted (u ∷ utxos)
    → total (take n utxos) ≤ total (take n (u ∷ utxos))
unfolding take
take_front zero u utxos h = omega arith
take_front (suc n) u [] h = omega arith
take_front (suc n) u (v ∷ utxos) h =
    let ih = take_front n v utxos h.1 in let le = h.0.0 in omega arith

-- No outputs of the list are worth more than as many from its front.
take_best :
    {l utxos : List Utxo}
    → Sublistᴰ l utxos
    → IsSorted utxos
    → total l ≤ total (take (length l) utxos)
unfolding take
take_best Sublistᴰ.slnil h = omega arith
take_best (Sublistᴰ.cons {a = u} {l₁ = l} {l₂ = utxos} s) (le, h) =
    let ih = take_best s h in let front = take_front (length l) u utxos (le, h) in omega arith
take_best (Sublistᴰ.cons-cons e s) (le, h) =
    let ih = take_best s h in omega (arith, ap (λ (u : Utxo). u.amount) e)

length-sublist : {l utxos : List Utxo} → Sublistᴰ l utxos → length l ≤ length utxos
length-sublist Sublistᴰ.slnil = omega arith
length-sublist (Sublistᴰ.cons s) = let ih = length-sublist s in omega arith
length-sublist (Sublistᴰ.cons-cons e s) = let ih = length-sublist s in omega arith

length-take : (n : ℕ) (utxos : List Utxo) → length (take n utxos) ≤ n
unfolding take
length-take zero utxos = omega arith
length-take (suc n) [] = omega arith
length-take (suc n) (u ∷ utxos) = let ih = length-take n utxos in omega arith

-- The selection pays for the target and its own fee.
abbrev pub IsPaid : Spend → Selection → Type 0
IsPaid p sel =
    (f : Amount) × (p.fee_wu sel.total_weight ≡ some f) × (p.target + f ≤ sel.total_amount)

module _ (p : Spend) (fees : (weight : ℕ) → (f : Amount) × (p.fee_wu weight ≡ some f)) where
  abbrev Covers : ℕ → List Utxo → Selection → Type 0
  Covers n utxos sel =
      (r : Selection × List Utxo) × (cover p utxos sel ≡ ok r)
      × IsPaid p r.0
      × (length r.0.selected ≤ length sel.selected + n)

  -- One more output is taken, and it is enough or not.
  cover_now :
      (n : ℕ) (u : Utxo) (utxos : List Utxo) (sel : Selection) (f : Amount)
      → p.fee_wu (sel.total_weight + p.satisfaction_weight_per_input) ≡ some f
      → leb (p.target + f) (sel.total_amount + u.amount) ≡ true
      → Covers (suc n) (u ∷ utxos) sel
  unfolding cover fee
  cover_now n u utxos sel f hf here = (
    (select p sel u, utxos),
    rw (hf, here) refl,
    (f, hf, leb→le _ _ here),
    omega (arith, length-append sel.selected (u ∷ [])),
  )

  cover_later :
      (n : ℕ) (u : Utxo) (utxos : List Utxo) (sel : Selection) (f : Amount)
      → p.fee_wu (sel.total_weight + p.satisfaction_weight_per_input) ≡ some f
      → leb (p.target + f) (sel.total_amount + u.amount) ≡ false
      → Covers (suc n) utxos (select p sel u)
      → Covers (suc (suc n)) (u ∷ utxos) sel
  unfolding cover fee
  cover_later n u utxos sel f hf later (r, e, paid, small) =
      (r, rw (hf, later) e, paid, omega (arith, small, length-append sel.selected (u ∷ [])))

  same_fee : (v w : ℕ) (f g : Amount) → p.fee_wu v ≡ some f → p.fee_wu w ≡ some g → v ≡ w → f ≡ g
  same_fee v w f g hf hg e = cc

  cover_succeeds :
      (n : ℕ) (utxos : List Utxo) (sel : Selection) (f : Amount)
      → p.fee_wu (sel.total_weight + p.satisfaction_weight_per_input * suc n) ≡ some f
      → p.target + f ≤ sel.total_amount + total (take (suc n) utxos)
      → suc n ≤ length utxos
      → Covers (suc n) utxos sel
  unfolding take
  cover_succeeds n [] sel f hf enough long = absurd (omega arith)
  cover_succeeds zero (u ∷ utxos) sel f hf enough long =
      cover_now zero u utxos sel f (ap p.fee_wu (omega arith) ∙ hf) (le→leb _ _ (omega arith))
  cover_succeeds (suc n) (u ∷ utxos) sel f hf enough long =
      let (f₁, hf₁) = fees (sel.total_weight + p.satisfaction_weight_per_input) in
      elim (Bool-cases (leb (p.target + f₁) (sel.total_amount + u.amount))) [
        | inl here ↦ cover_now (suc n) u utxos sel f₁ hf₁ here
        | inr later ↦ cover_later n u utxos sel f₁ hf₁ later (
            cover_succeeds n utxos (select p sel u) f (ap p.fee_wu (omega arith) ∙ hf) (omega arith)
              (omega arith))
      ]

  sweep_succeeds :
      (utxos : List Utxo) (sel : Selection)
      → IsPaid p sel
      → (r : Selection) × (sweep p utxos sel ≡ ok r)
        × IsPaid p r
        × (length r.selected ≤ length sel.selected + length utxos)
  unfolding sweep fee
  sweep_succeeds [] sel paid = (sel, refl, paid, omega arith)
  sweep_succeeds (u ∷ utxos) sel paid =
      let (f, hf) = fees (sel.total_weight + p.satisfaction_weight_per_input) in
      elim (Bool-cases (ltb (sel.total_amount + u.amount) (p.target + f + p.minimal_non_dust))) [
        | inl stop ↦ (sel, rw (hf, stop) refl, paid, omega arith)
        | inr go ↦
            let le = ltb_false→le _ _ go in
            let (r, e, done, small) = sweep_succeeds utxos (select p sel u) (f, hf, omega arith) in
            (r, rw (hf, go) e, done, omega (arith, small, length-append sel.selected (u ∷ [])))
      ]

  finish_succeeds :
      (sel : Selection)
      → IsPaid p sel
      → (change : Option TxOut) × (finish p sel ≡ ok (sel.selected, change))
  unfolding finish fee change_of
  finish_succeeds sel (f, hf, enough) =
      let c = sel.total_amount - p.target - f in
      (
        if ltb p.minimal_non_dust c
            then some (record { value = c; script_pubkey = pay_to p.change_address })
            else none,
        rw hf (ground arith),
      )

  -- A fee rate gives every weight a fee. If any non-empty choice of the outputs, listed largest
  -- first, pays for the target and the fee of a transaction with exactly these inputs, then the
  -- selection succeeds, and takes at most as many and those that it sweeps.
  pub select_coins_succeeds :
      (utxos chosen : List Utxo) (f : Amount)
      → Sublistᴰ chosen (sort_utxos utxos)
      → 0 < length chosen
      → p.fee_wu (p.base_tx_weight + p.satisfaction_weight_per_input * length chosen) ≡ some f
      → p.target + f ≤ total chosen
      → (selected : List Utxo) × (change : Option TxOut) × (select_coins p utxos
          ≡ ok (selected, change))
        × (length selected ≤ length chosen + p.consolidation_limit)
  unfolding select_coins start
  select_coins_succeeds utxos [] f s some_chosen hf enough = absurd (omega arith)
  select_coins_succeeds utxos (u ∷ us) f s some_chosen hf enough =
      let best = take_best s (sort_utxos-IsSorted utxos) in
      let (r, covered, paid, few) =
        cover_succeeds (length us) (sort_utxos utxos) (start p) f hf (omega arith)
          (length-sublist s) in
      let (sel, swept, still, more) =
        sweep_succeeds (take p.consolidation_limit (reverse r.1)) r.0 paid in
      let (change, done) = finish_succeeds sel still in
      let small = length-take p.consolidation_limit (reverse r.1) in
      (sel.selected, change, rw (covered, swept) done, omega arith)
