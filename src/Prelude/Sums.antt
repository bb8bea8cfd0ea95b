-- ===== src/Prelude/Sums.antt =====
-- Sums over a list of keys, and their change when the summed function changes at one key.
use Prim.Native.Nat.{ℕ, ◌+◌, ◌*◌, ◌≤◌}
use mathlib.Core.Path.{◌≡◌, refl, ap, sym, ◌∙◌}
use mathlib.Core.List.{List, [], ◌∷◌, Perm, Permᴰ}
use mathlib.Core.Logic.{∥∥₁_elim}
use native.Mathlib.Nat.{ℕ_set}
use native.Mathlib.Omega.{arith}
use bitcoin_ipc.Prelude.Tests.{◌==◌, if◌then◌else◌}
use bitcoin_ipc.Prelude.Lists.{sum, length}

abbrev pub count : ℕ → List ℕ → ℕ
count k [] = 0
count k (x ∷ xs) = (if k == x then 1 else 0) + count k xs

pub sum-update :
    (f g : ℕ → ℕ) (k v : ℕ) (xs : List ℕ)
    → ((j : ℕ) → g j ≡ (if k == j then v else f j))
    → sum g xs + count k xs * f k ≡ sum f xs + count k xs * v
sum-update f g k v [] h = omega arith
sum-update f g k v (x ∷ xs) h = ground (arith, h x, sum-update f g k v xs h)

pub le-sum : (f : ℕ → ℕ) (k : ℕ) (xs : List ℕ) → count k xs ≡ 1 → f k ≤ sum f xs
le-sum f k [] h = absurd (omega arith)
le-sum f k (x ∷ xs) h = ground (arith, le-sum f k xs)

pub sum-update_once :
    (f g : ℕ → ℕ) (k v : ℕ) (xs : List ℕ)
    → ((j : ℕ) → g j ≡ (if k == j then v else f j))
    → count k xs ≡ 1
    → sum g xs + f k ≡ sum f xs + v
sum-update_once f g k v xs h once =
    let e : sum g xs + 1 * f k ≡ sum f xs + 1 * v = rw once at (sum-update f g k v xs h) in
    omega arith

pub sum-congr : (f g : ℕ → ℕ) (xs : List ℕ) → ((j : ℕ) → f j ≡ g j) → sum f xs ≡ sum g xs
sum-congr f g [] h = refl
sum-congr f g (x ∷ xs) h = omega (arith, h x, sum-congr f g xs h)

sum-permᴰ {ℓ} : {A : Type ℓ} (f : A → ℕ) {xs ys : List A} → Permᴰ xs ys → sum f xs ≡ sum f ys
sum-permᴰ f Permᴰ.nil = refl
sum-permᴰ f (Permᴰ.cons e p) = omega (arith, ap f e, sum-permᴰ f p)
sum-permᴰ f (Permᴰ.swap e e') = omega (arith, ap f e, ap f e')
sum-permᴰ f (Permᴰ.trans p q) = sum-permᴰ f p ∙ sum-permᴰ f q

pub sum-perm {ℓ} : {A : Type ℓ} (f : A → ℕ) {xs ys : List A} → Perm xs ys → sum f xs ≡ sum f ys
sum-perm f p = ∥∥₁_elim p (ℕ_set _ _) (λ π. sum-permᴰ f π)

length-sum {ℓ} : {A : Type ℓ} (xs : List A) → length xs ≡ sum (λ x. 1) xs
length-sum [] = refl
length-sum (x ∷ xs) = omega (arith, length-sum xs)

pub length-perm {ℓ} : {A : Type ℓ} {xs ys : List A} → Perm xs ys → length xs ≡ length ys
length-perm {xs = xs} {ys = ys} p = length-sum xs ∙ sum-perm (λ x. 1) p ∙ sym (length-sum ys)
