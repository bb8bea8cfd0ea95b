-- ===== src/Bytes.antt =====
-- Bytes as numbers below 256: `to_le_bytes`, `to_be_bytes` and their inverses of the standard
-- library, and the slices that src/ipc_lib.rs takes.
use bitcoin_ipc.Prelude.{
  ℕ, zero, suc, ◌+◌, ◌-◌, ◌*◌, ◌/◌, ◌%◌, ◌^◌, ◌<◌, ◌≡◌, Bool, true, false, ◌&&◌, List, [], ◌∷◌,
  ◌++◌, reverse, length, ◌==◌, ap, ◌∙◌, refl, arith,
}
use mathlib.Core.List.{reverse-reverse}
use native.Mathlib.Nat.{pow-suc}

unfoldable pub le_bytes : ℕ → ℕ → List ℕ
le_bytes zero x = []
le_bytes (suc n) x = x % 256 ∷ le_bytes n (x / 256)

unfoldable pub from_le_bytes : List ℕ → ℕ
from_le_bytes [] = 0
from_le_bytes (b ∷ bytes) = b + 256 * from_le_bytes bytes

unfoldable pub be_bytes : ℕ → ℕ → List ℕ
unfolding le_bytes
be_bytes n x = reverse (le_bytes n x)

unfoldable pub from_be_bytes : List ℕ → ℕ
unfolding from_le_bytes
from_be_bytes bytes = from_le_bytes (reverse bytes)

pub from_le_bytes-le_bytes : (n x : ℕ) → x < 256 ^ n → from_le_bytes (le_bytes n x) ≡ x
unfolding from_le_bytes le_bytes
from_le_bytes-le_bytes zero x h = omega arith
from_le_bytes-le_bytes (suc n) x h =
    let small : x / 256 < 256 ^ n = omega (arith, pow-suc 256 n) in
    omega (arith, from_le_bytes-le_bytes n (x / 256) small)

pub from_be_bytes-be_bytes : (n x : ℕ) → x < 256 ^ n → from_be_bytes (be_bytes n x) ≡ x
unfolding from_be_bytes be_bytes
from_be_bytes-be_bytes n x h =
    ap from_le_bytes (reverse-reverse (le_bytes n x)) ∙ from_le_bytes-le_bytes n x h

unfoldable pub drop {ℓ} : {A : Type ℓ} → ℕ → List A → List A
drop zero xs = xs
drop (suc n) [] = []
drop (suc n) (x ∷ xs) = drop n xs

unfoldable pub front {ℓ} : {A : Type ℓ} → ℕ → List A → List A
front zero xs = []
front (suc n) [] = []
front (suc n) (x ∷ xs) = x ∷ front n xs

-- `bytes[a..b]`, within the bounds.
unfoldable pub slice : ℕ → ℕ → List ℕ → List ℕ
unfolding drop front
slice a b bytes = front (b - a) (drop a bytes)

unfoldable pub same_bytes : List ℕ → List ℕ → Bool
same_bytes [] [] = true
same_bytes (a ∷ xs) (b ∷ ys) = (a == b) && same_bytes xs ys
same_bytes _ _ = false

pub drop-append {ℓ} : {A : Type ℓ} (n : ℕ) (xs ys : List A) → length xs ≡ n → drop n (xs ++ ys) ≡ ys
unfolding drop
drop-append zero [] ys h = refl
drop-append zero (x ∷ xs) ys h = absurd (omega arith)
drop-append (suc n) [] ys h = absurd (omega arith)
drop-append (suc n) (x ∷ xs) ys h = drop-append n xs ys (omega arith)

pub front-append {ℓ} :
    {A : Type ℓ} (n : ℕ) (xs ys : List A) → length xs ≡ n → front n (xs ++ ys) ≡ xs
unfolding front
front-append zero [] ys h = refl
front-append zero (x ∷ xs) ys h = absurd (omega arith)
front-append (suc n) [] ys h = absurd (omega arith)
front-append (suc n) (x ∷ xs) ys h = ap (λ zs. x ∷ zs) (front-append n xs ys (omega arith))

pub front_all {ℓ} : {A : Type ℓ} (n : ℕ) (xs : List A) → length xs ≡ n → front n xs ≡ xs
unfolding front
front_all zero [] h = refl
front_all zero (x ∷ xs) h = absurd (omega arith)
front_all (suc n) [] h = absurd (omega arith)
front_all (suc n) (x ∷ xs) h = ap (λ zs. x ∷ zs) (front_all n xs (omega arith))
