-- ===== src/Compact/Roundtrip.antt =====
-- src/ipc_lib.rs: compact amounts, written and read.
use bitcoin_ipc.Prelude.{
  ℕ, suc, ◌+◌, ◌-◌, ◌%◌, ◌^◌, ◌<◌, ◌≤◌, ◌==◌, ◌≡◌, refl, ap, ◌∙◌, ltb, Bool, true, false, Option,
  some, List, [], ◌∷◌, ◌++◌, length, arith, ==_iff, Bool-cases, inl, inr,
}
use bitcoin_ipc.Result.{ok}
use bitcoin_ipc.Bytes.{le_bytes, be_bytes, from_be_bytes, from_be_bytes-be_bytes}
use bitcoin_ipc.Records.{ℤ, is_negative, unsigned_abs}
use bitcoin_ipc.Compact.{
  skip_zeros, encode_magnitude, zeros, decode_magnitude, serialize_i256, deserialize_i256,
}

-- The zeros that are skipped and what is left.
skip_zeros-pads :
    (bytes : List ℕ)
    → (k : ℕ) × (zeros k ++ skip_zeros bytes ≡ bytes)
      × (k + length (skip_zeros bytes) ≡ length bytes)
unfolding skip_zeros zeros
skip_zeros-pads [] = (0, refl, refl)
skip_zeros-pads (b ∷ bytes) = elim (Bool-cases (b == 0)) [
  | inl e ↦
      let (k, same, sized) = skip_zeros-pads bytes in
      (suc k, rw e (rw ((==_iff b 0).0 e) (ap (λ l. 0 ∷ l) same)), rw e (omega (arith, sized)))
  | inr e ↦ (0, rw e refl, rw e (omega arith))
]

pub length-be_bytes : (x : ℕ) → length (be_bytes 32 x) ≡ 32
unfolding be_bytes le_bytes
length-be_bytes x = refl

decode-padded :
    (head n : ℕ) (payload : List ℕ)
    → head % 128 ≡ n
    → n ≤ 32
    → length payload ≡ n
    → decode_magnitude (head ∷ payload) ≡ ok (from_be_bytes (zeros (32 - n) ++ payload))
unfolding decode_magnitude
decode-padded head n payload e h sized = rw (e, short n h, exact (length payload) n sized) refl
  where
    short : (n : ℕ) → n ≤ 32 → ltb 32 n ≡ false
    short n h = ground arith

    exact : (l n : ℕ) → l ≡ n → (suc l == 1 + n) ≡ true
    exact l n h = ground arith

decode_payload :
    (x head : ℕ)
    → x < 256 ^ 32
    → head % 128 ≡ length (skip_zeros (be_bytes 32 x))
    → decode_magnitude (head ∷ skip_zeros (be_bytes 32 x)) ≡ ok x
decode_payload x head h e =
    let (k, same, sized) = skip_zeros-pads (be_bytes 32 x) in
    let long = length-be_bytes x in
    let payload = skip_zeros (be_bytes 32 x) in
    decode-padded head (length payload) payload e (omega (arith, sized, long)) refl
    ∙ ap (λ n. ok (from_be_bytes (zeros n ++ payload))) (omega (arith, sized, long))
    ∙ ap (λ l. ok (from_be_bytes l)) same
    ∙ ap (λ n. ok n) (from_be_bytes-be_bytes 32 x h)

payload_small : (x : ℕ) → length (skip_zeros (be_bytes 32 x)) ≤ 32
payload_small x =
    let (k, same, sized) = skip_zeros-pads (be_bytes 32 x) in
    omega (arith, sized, length-be_bytes x)

-- A U256 takes at most 33 bytes and is read back from them.
pub decode_magnitude-encode_magnitude :
    (x : ℕ)
    → x < 256 ^ 32
    → (decode_magnitude (encode_magnitude x) ≡ ok x) × (length (encode_magnitude x) ≤ 33)
unfolding encode_magnitude
decode_magnitude-encode_magnitude x h =
    let small = payload_small x in
    (
      decode_payload x (length (skip_zeros (be_bytes 32 x))) h (omega (arith, small)),
      omega (arith, small),
    )

sign_set :
    (n : ℕ) → n ≤ 32 → (ltb n 128 ≡ true) × (ltb (n + 128) 128 ≡ false) × ((n + 128) % 128 ≡ n)
sign_set n h = (ground arith, ground arith, omega arith)

-- An I256, which its sign and its magnitude below 2^256 make, takes at most 33 bytes and is read back
-- from them.
pub deserialize_i256-serialize_i256 :
    (from_sign_and_abs : Bool → ℕ → Option ℤ) (v : ℤ)
    → unsigned_abs v < 256 ^ 32
    → from_sign_and_abs (is_negative v) (unsigned_abs v) ≡ some v
    → (deserialize_i256 from_sign_and_abs (serialize_i256 v) ≡ ok v)
      × (length (serialize_i256 v) ≤ 33)
unfolding serialize_i256 deserialize_i256
deserialize_i256-serialize_i256 from_sign_and_abs v h made =
    let x = unsigned_abs v in
    let n = length (skip_zeros (be_bytes 32 x)) in
    let small = payload_small x in
    let (low, high, kept) = sign_set n small in
    elim (Bool-cases (is_negative v)) [
      | inl e ↦ (
        rw (e, low, decode_payload x (n + 128) h kept, high, ← e, made) refl,
        rw e (omega (arith, small)),
      )
      | inr e ↦ (
        rw (e, decode_payload x n h (omega (arith, small)), low, ← e, made) refl,
        rw e (omega (arith, small)),
      )
    ]
