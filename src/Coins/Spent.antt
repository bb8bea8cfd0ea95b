-- ===== src/Coins/Spent.antt =====
-- src/multisig.rs: which of the given outputs `select_coins` picks.
use mathlib.Core.List.{Perm, Permᴰ, append_assoc, append-nil}
use mathlib.Core.List.Permᴰ
use bitcoin_ipc.Prelude.{
  ℕ, zero, suc, ◌+◌, ◌≤◌, ◌≡◌, refl, ◌∙◌, sym, ap, subst, Option, List, [], ◌∷◌, ◌++◌, reverse,
  length, ltb, leb, arith, if-elim, length-append,
}
use bitcoin_ipc.Result.{ok, >>=-elim, if-eq-ok, ok-injective}
use bitcoin_ipc.Types.{TxOut}
use bitcoin_ipc.Coins.{
  Utxo, Spend, Selection, select, fee, cover, sweep, take, start, precedes, insert_utxo, sort_utxos,
  select_coins,
}
use bitcoin_ipc.Coins.Pays.{finish-IsSettled}

insert_utxo-perm : (u : Utxo) (utxos : List Utxo) → Permᴰ (u ∷ utxos) (insert_utxo u utxos)
unfolding insert_utxo
insert_utxo-perm u [] = Permᴰ.refl (u ∷ [])
insert_utxo-perm u (v ∷ utxos) =
    if-elim (Permᴰ (u ∷ v ∷ utxos)) (precedes u v) (Permᴰ.refl (u ∷ v ∷ utxos))
      (Permᴰ.trans (Permᴰ.swap refl refl) (Permᴰ.cons refl (insert_utxo-perm u utxos)))

pub sort_utxos-perm : (utxos : List Utxo) → Permᴰ utxos (sort_utxos utxos)
unfolding sort_utxos
sort_utxos-perm [] = Permᴰ.nil
sort_utxos-perm (u ∷ utxos) =
    Permᴰ.trans (Permᴰ.cons refl (sort_utxos-perm utxos)) (insert_utxo-perm u (sort_utxos utxos))

-- Phase 1 takes outputs from the front.
cover-splits :
    (p : Spend) (utxos : List Utxo) (sel : Selection) {r : Selection × List Utxo}
    → cover p utxos sel ≡ ok r
    → sel.selected ++ utxos ≡ r.0.selected ++ r.1
unfolding cover
cover-splits p [] sel e = absurd cc
cover-splits p (u ∷ utxos) sel e =
    >>=-elim (fee p (sel.total_weight + p.satisfaction_weight_per_input)) _ e λ f hf e₁.
      if-eq-ok (leb (p.target + f) (sel.total_amount + u.amount)) e₁
        (λ here.
          sym (append_assoc sel.selected (u ∷ []) utxos)
          ∙ ap (λ r. r.0.selected ++ r.1) (ok-injective here))
        (λ later.
          sym (append_assoc sel.selected (u ∷ []) utxos)
          ∙ cover-splits p utxos (select p sel u) later)

-- Phase 2 takes some of its candidates, from the front.
sweep-splits :
    (p : Spend) (utxos : List Utxo) (sel : Selection) {r : Selection}
    → sweep p utxos sel ≡ ok r
    → (swept left : List Utxo) × (utxos ≡ swept ++ left) × (r.selected ≡ sel.selected ++ swept)
unfolding sweep
sweep-splits p [] sel e =
    ([], [], refl, ap (λ r. r.selected) (sym (ok-injective e)) ∙ sym (append-nil sel.selected))
sweep-splits p (u ∷ utxos) sel e =
    >>=-elim (fee p (sel.total_weight + p.satisfaction_weight_per_input)) _ e λ f hf e₁.
      if-eq-ok (ltb (sel.total_amount + u.amount) (p.target + f + p.minimal_non_dust)) e₁
        (λ stop. (
          [],
          u ∷ utxos,
          refl,
          ap (λ r. r.selected) (sym (ok-injective stop)) ∙ sym (append-nil sel.selected),
        ))
        (λ later.
          let (swept, left, split, same) = sweep-splits p utxos (select p sel u) later in
          (
            u ∷ swept,
            left,
            ap (λ us. u ∷ us) split,
            same ∙ append_assoc sel.selected (u ∷ []) swept,
          ))

take-splits :
    (n : ℕ) (utxos : List Utxo)
    → (rest : List Utxo) × (utxos ≡ take n utxos ++ rest) × (length (take n utxos) ≤ n)
unfolding take
take-splits zero utxos = (utxos, refl, omega arith)
take-splits (suc n) [] = ([], refl, omega arith)
take-splits (suc n) (u ∷ utxos) =
    let (rest, split, small) = take-splits n utxos in (rest, ap (λ us. u ∷ us) split, omega arith)

prefix_small :
    (n : ℕ) (us swept left : List Utxo) → us ≡ swept ++ left → length us ≤ n → length swept ≤ n
prefix_small n us swept left e h = omega (arith, ap (length {0}) e, length-append swept left, h)

-- The swept candidates and what is left of them, after the outputs that cover the target.
regroup : (a b c d : List Utxo) → a ++ ((b ++ c) ++ d) ≡ (a ++ b) ++ (c ++ d)
regroup a b c d = simp append_assoc

-- Every output is spent at most once, and only given ones are: the outputs that are selected and
-- some that are left make up the given ones. The selected ones are a front part of the given ones,
-- in the order of `sort_utxos`, followed by at most `consolidation_limit` swept ones.
pub select_coins-perm :
    (p : Spend) (utxos selected : List Utxo) (change : Option TxOut)
    → select_coins p utxos ≡ ok (selected, change)
    → (covered rest swept left : List Utxo) × (sort_utxos utxos ≡ covered ++ rest)
      × (selected ≡ covered ++ swept)
      × (length swept ≤ p.consolidation_limit)
      × Perm utxos (selected ++ left)
unfolding select_coins start
select_coins-perm p utxos selected change e =
    >>=-elim (cover p (sort_utxos utxos) (start p)) _ e λ c covered e₁.
      >>=-elim (sweep p (take p.consolidation_limit (reverse c.1)) c.0) _ e₁ λ sel done e₂.
        let split = cover-splits p (sort_utxos utxos) (start p) covered in
        let (swept, l, candidates, same) = sweep-splits p _ c.0 done in
        let (rest, taken, small) = take-splits p.consolidation_limit (reverse c.1) in
        let (f, hf, chosen, settled) = finish-IsSettled p sel e₂ in
        let parts : c.0.selected ++ reverse c.1 ≡ selected ++ (l ++ rest) =
          ap (λ us. c.0.selected ++ us) (taken ∙ ap (λ us. us ++ rest) candidates)
          ∙ regroup c.0.selected swept l rest
          ∙ ap (λ us. us ++ (l ++ rest)) (sym same ∙ chosen) in
        (
          c.0.selected,
          c.1,
          swept,
          l ++ rest,
          split,
          sym chosen ∙ same,
          prefix_small p.consolidation_limit _ swept l candidates small,
          ∣ subst (Permᴰ utxos) parts (
              Permᴰ.trans (subst (Permᴰ utxos) split (sort_utxos-perm utxos))
                (Permᴰ.append_left c.0.selected (Permᴰ.symm (Permᴰ.reverse c.1)))) ∣₁,
        )
