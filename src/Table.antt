-- ===== src/Table.antt =====
-- One LMDB table of src/db.rs, or the part of it under a key prefix, as a list of entries with
-- distinct numeric keys. `put` replaces the entry of its key. Iteration yields every entry; the
-- order in which LMDB yields them is that of the keys' text, on which no result here depends.
use bitcoin_ipc.Prelude.{
  ℕ, ◌+◌, ◌≤◌, ◌<◌, ◌≡◌, ◌≢◌, refl, Option, none, some, List, [], ◌∷◌, arith, ◌==◌, length,
  if◌then◌else◌,
}

abbrev pub Table {ℓ} : Type ℓ → Type ℓ
Table V = List (ℕ × V)

module _ {ℓ} {V : Type ℓ} where
  unfoldable pub get : ℕ → Table V → Option V
  get k [] = none
  get k ((j, v) ∷ t) = if j == k then some v else get k t

  unfoldable pub put : ℕ → V → Table V → Table V
  put k v [] = (k, v) ∷ []
  put k v ((j, w) ∷ t) = if j == k then (k, v) ∷ t else (j, w) ∷ put k v t

  unfoldable pub delete : ℕ → Table V → Table V
  delete k [] = []
  delete k ((j, w) ∷ t) = let rest = delete k t in if j == k then rest else (j, w) ∷ rest

  unfoldable pub values : Table V → List V
  values [] = []
  values ((j, v) ∷ t) = v ∷ values t

  pub get-put :
      (k j : ℕ) (v : V) (t : Table V) → get j (put k v t) ≡ (if k == j then some v else get j t)
  unfolding get put
  get-put k j v [] = refl
  get-put k j v ((i, w) ∷ t) = ground (arith, get-put k j v t)

  pub get-delete : (k j : ℕ) (t : Table V) → get j (delete k t) ≡ (if k == j then none else get j t)
  unfolding get delete
  get-delete k j [] = ground arith
  get-delete k j ((i, w) ∷ t) = ground (arith, get-delete k j t)

  pub length-put_new :
      (k : ℕ) (v : V) (t : Table V) → get k t ≡ none → length (put k v t) ≡ length t + 1
  unfolding get put
  length-put_new k v [] h = omega arith
  length-put_new k v ((i, w) ∷ t) h = ground (arith, length-put_new k v t)

  -- The keys are exactly `first`, …, `first + n - 1`.
  pub record IsDense (first : ℕ) (n : ℕ) (t : Table V) : Type ℓ where
    pub sized : length t ≡ n
    pub below : (k : ℕ) → k < first → get k t ≡ none
    pub above : (k : ℕ) → first + n ≤ k → get k t ≡ none
    pub inside : (k : ℕ) → first ≤ k → k < first + n → get k t ≢ none

  -- A record put at the next number keeps the numbers dense.
  pub put-IsDense :
      (first n : ℕ) (v : V) (t : Table V)
      → IsDense first n t
      → IsDense first (n + 1) (put (first + n) v t)
  put-IsDense first n v t h = record {
    sized = ground (arith, length-put_new (first + n) v t, h.above (first + n), h.sized);
    below = λ k lt. ground (arith, get-put (first + n) k v t, h.below k);
    above = λ k le. ground (arith, get-put (first + n) k v t, h.above k);
    inside = λ k lo hi. ground (arith, get-put (first + n) k v t, h.inside k);
  }

  pub empty-IsDense : (first : ℕ) → IsDense first 0 ([])
  unfolding get
  empty-IsDense first = record {
    sized = refl;
    below = λ k lt. refl;
    above = λ k le. refl;
    inside = λ k lo hi. absurd (omega arith);
  }
