-- ===== src/PushData.antt =====
-- src/bitcoin_utils.rs: `make_push_data_script` and `concatenate_op_push_data`, the script that
-- carries the data of a commit and reveal pair. The bitcoin crate codes a script as bytes.
use bitcoin_ipc.Prelude.{
  ℕ, zero, suc, ◌+◌, ◌-◌, ◌*◌, ◌/◌, ◌≤◌, ◌≡◌, min, ltb, Bool-cases, inl, inr, ◌⊎◌, List, [], ◌∷◌,
  ◌++◌, length, if◌then◌else◌, refl, ap, sym, ◌∙◌, arith,
}
use bitcoin_ipc.Bytes.{drop, front, slice}

-- An instruction of a script, as the bitcoin crate reads it; `malformed` is one that it cannot read.
pub data Instruction : Type 0 where
  push_bytes : List ℕ → Instruction
  op_drop op_true : Instruction
  op : ℕ → Instruction
  malformed : Instruction

pub data BitcoinUtilsError : Type 0 where
  unsupported_op_code error_parsing_witness_script : BitcoinUtilsError

-- The coding of a script.
pub record Scripts : Type 0 where
  pub into_script : List Instruction → List ℕ
  pub instructions : List ℕ → List Instruction

abbrev pub chunk_size : ℕ
chunk_size = 520

-- The loop over the chunks; a step of fuel makes one.
unfoldable pub push_chunks : ℕ → List ℕ → ℕ → List Instruction
push_chunks zero bytes offset = []
push_chunks (suc fuel) bytes offset =
    let rest = push_chunks fuel bytes (offset + chunk_size) in
    let end = min (offset + chunk_size) (length bytes) in
    if ltb offset (length bytes) then push_bytes (slice offset end bytes) ∷ op_drop ∷ rest else []

unfoldable pub push_data_instructions : List ℕ → List Instruction
unfolding push_chunks
push_data_instructions bytes = push_chunks (suc (length bytes / chunk_size)) bytes 0 ++ op_true ∷ []

unfoldable pub make_push_data_script : Scripts → List ℕ → List ℕ
unfolding push_data_instructions
make_push_data_script x bytes = x.into_script (push_data_instructions bytes)

abbrev pub extended : List ℕ → BitcoinUtilsError ⊎ List ℕ → BitcoinUtilsError ⊎ List ℕ
extended bytes (inl e) = inl e
extended bytes (inr rest) = inr (bytes ++ rest)

unfoldable pub concatenate : List Instruction → BitcoinUtilsError ⊎ List ℕ
concatenate [] = inr []
concatenate (push_bytes bytes ∷ rest) = extended bytes (concatenate rest)
concatenate (op_drop ∷ rest) = concatenate rest
concatenate (op_true ∷ rest) = concatenate rest
concatenate (op code ∷ rest) = inl unsupported_op_code
concatenate (malformed ∷ rest) = inl error_parsing_witness_script

unfoldable pub concatenate_op_push_data : Scripts → List ℕ → BitcoinUtilsError ⊎ List ℕ
unfolding concatenate
concatenate_op_push_data x witness = concatenate (x.instructions witness)

drop-suc :
    (m n : ℕ) (xs : List ℕ)
    → ((ys : List ℕ) → drop (m + n) ys ≡ drop n (drop m ys))
    → drop (suc (m + n)) xs ≡ drop n (drop (suc m) xs)
unfolding drop
drop-suc m zero [] h = refl
drop-suc m (suc n) [] h = refl
drop-suc m n (x ∷ xs) h = h xs

drop-add : (m n : ℕ) (xs : List ℕ) → drop (m + n) xs ≡ drop n (drop m xs)
unfolding drop
drop-add zero n xs = let same : 0 + n ≡ n = omega arith in ap (λ k. drop k xs) same
drop-add (suc m) n xs =
    let same : suc m + n ≡ suc (m + n) = omega arith in
    ap (λ k. drop k xs) same ∙ drop-suc m n xs (drop-add m n)

length-drop : (n : ℕ) (xs : List ℕ) → length (drop n xs) ≡ length xs - n
unfolding drop
length-drop zero xs = omega arith
length-drop (suc n) [] = omega arith
length-drop (suc n) (x ∷ xs) = omega (arith, length-drop n xs)

length-front : (n : ℕ) (xs : List ℕ) → length (front n xs) ≤ n
unfolding front
length-front zero xs = omega arith
length-front (suc n) [] = omega arith
length-front (suc n) (x ∷ xs) = omega (arith, length-front n xs)

drop_all : (n : ℕ) (xs : List ℕ) → length xs ≤ n → drop n xs ≡ []
unfolding drop
drop_all zero [] h = refl
drop_all zero (x ∷ xs) h = absurd (omega arith)
drop_all (suc n) [] h = refl
drop_all (suc n) (x ∷ xs) h = drop_all n xs (omega arith)

front-drop : (k n : ℕ) (xs : List ℕ) → k ≡ min n (length xs) → front k xs ++ drop n xs ≡ xs
unfolding front drop
front-drop zero zero xs h = refl
front-drop zero (suc n) [] h = refl
front-drop zero (suc n) (x ∷ xs) h = absurd (omega arith)
front-drop (suc k) n [] h = absurd (omega arith)
front-drop (suc k) zero (x ∷ xs) h = absurd (omega arith)
front-drop (suc k) (suc n) (x ∷ xs) h = ap (λ ys. x ∷ ys) (front-drop k n xs (omega arith))

-- A chunk, and the data after it.
slice-drop :
    (offset : ℕ) (bytes : List ℕ)
    → slice offset (min (offset + chunk_size) (length bytes)) bytes
        ++ drop (offset + chunk_size) bytes
      ≡ drop offset bytes
unfolding slice
slice-drop offset bytes =
    ap (λ rest. slice offset (min (offset + chunk_size) (length bytes)) bytes ++ rest)
      (drop-add offset chunk_size bytes)
    ∙ front-drop (min (offset + chunk_size) (length bytes) - offset) chunk_size (drop offset bytes)
        (omega (arith, length-drop offset bytes))

-- No push is longer than the 520 bytes that the network accepts.
abbrev pub Fits : List Instruction → Type 0
Fits [] = Unit
Fits (push_bytes bytes ∷ rest) = (length bytes ≤ 520) × Fits rest
Fits (op_drop ∷ rest) = Fits rest
Fits (op_true ∷ rest) = Fits rest
Fits (op code ∷ rest) = Fits rest
Fits (malformed ∷ rest) = Fits rest

push_chunks-Fits :
    (fuel : ℕ) (bytes : List ℕ) (offset : ℕ) → Fits (push_chunks fuel bytes offset ++ op_true ∷ [])
unfolding push_chunks slice
push_chunks-Fits zero bytes offset = tt
push_chunks-Fits (suc fuel) bytes offset = elim (Bool-cases (ltb offset (length bytes))) [
  | inl more ↦
      let end = min (offset + chunk_size) (length bytes) in
      let short : length (slice offset end bytes) ≤ 520 =
        omega (arith, length-front (end - offset) (drop offset bytes)) in
      rw more (short, push_chunks-Fits fuel bytes (offset + chunk_size))
  | inr done ↦ rw done tt
]

concatenate-push_chunks :
    (fuel : ℕ) (bytes : List ℕ) (offset : ℕ)
    → length bytes - offset ≤ 520 * fuel
    → concatenate (push_chunks fuel bytes offset ++ op_true ∷ []) ≡ inr (drop offset bytes)
unfolding push_chunks concatenate
concatenate-push_chunks zero bytes offset h =
    ap (λ rest. inr rest) (sym (drop_all offset bytes (omega arith)))
concatenate-push_chunks (suc fuel) bytes offset h = elim (Bool-cases (ltb offset (length bytes))) [
  | inl more ↦
      rw (more, concatenate-push_chunks fuel bytes (offset + chunk_size) (omega arith))
        (ap (λ rest. inr rest) (slice-drop offset bytes))
  | inr done ↦
      let none_left : length bytes ≤ offset = ground arith in
      rw done (ap (λ rest. inr rest) (sym (drop_all offset bytes none_left)))
]

-- The script that carries data is read back to the data, and none of its pushes is longer than 520
-- bytes. The bitcoin crate reads the instructions that it wrote for this data.
pub concatenate_op_push_data-make_push_data_script :
    (x : Scripts) (bytes : List ℕ)
    → x.instructions (x.into_script (push_data_instructions bytes)) ≡ push_data_instructions bytes
    → (concatenate_op_push_data x (make_push_data_script x bytes) ≡ inr bytes)
      × Fits (push_data_instructions bytes)
unfolding concatenate_op_push_data make_push_data_script push_data_instructions drop
concatenate_op_push_data-make_push_data_script x bytes reads =
    let fuel = suc (length bytes / chunk_size) in
    (
      ap concatenate reads ∙ concatenate-push_chunks fuel bytes 0 (omega arith),
      push_chunks-Fits fuel bytes 0,
    )
