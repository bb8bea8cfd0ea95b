-- ===== src/Compact.antt =====
-- src/ipc_lib.rs: the module `compact_amount`, the bytes of `U256` and `I256` amounts in a batch.
pub mod Roundtrip
use bitcoin_ipc.Prelude.{
  ℕ, zero, suc, ◌+◌, ◌-◌, ◌%◌, ◌==◌, ltb, Bool, true, false, not, Option, List, [], ◌∷◌, ◌++◌,
  length, if◌then◌else◌,
}
use bitcoin_ipc.Result.{
  Result, ok, err, ◌>>=◌, ◌>>◌, ok_or, fail_if, empty_compact_amount, compact_amount_too_long,
  compact_amount_mismatch, i256_overflow,
}
use bitcoin_ipc.Bytes.{be_bytes, from_be_bytes}
use bitcoin_ipc.Records.{ℤ, is_negative, unsigned_abs}

-- `bytes[leading..]`, past the leading zeros.
unfoldable pub skip_zeros : List ℕ → List ℕ
skip_zeros [] = []
skip_zeros (b ∷ bytes) = let rest = skip_zeros bytes in if b == 0 then rest else b ∷ bytes

unfoldable pub encode_magnitude : ℕ → List ℕ
unfolding skip_zeros be_bytes
encode_magnitude abs = length (skip_zeros (be_bytes 32 abs)) ∷ skip_zeros (be_bytes 32 abs)

unfoldable pub zeros : ℕ → List ℕ
zeros zero = []
zeros (suc n) = 0 ∷ zeros n

-- `v[0] & 0x7F` is `v[0] % 128`.
unfoldable pub decode_magnitude : List ℕ → Result ℕ
unfolding zeros from_be_bytes
decode_magnitude [] = err empty_compact_amount
decode_magnitude (head ∷ payload) =
    let n = head % 128 in
    do
      fail_if (ltb 32 n) compact_amount_too_long
      fail_if (not (suc (length payload) == 1 + n)) compact_amount_mismatch
      ok (from_be_bytes (zeros (32 - n) ++ payload))

-- `buf[0] |= 0x80`
unfoldable pub set_sign : List ℕ → List ℕ
set_sign [] = []
set_sign (head ∷ payload) = (if ltb head 128 then head + 128 else head) ∷ payload

unfoldable pub serialize_i256 : ℤ → List ℕ
unfolding encode_magnitude set_sign
serialize_i256 v =
    if is_negative v
    then set_sign (encode_magnitude (unsigned_abs v))
    else encode_magnitude (unsigned_abs v)

-- `from_sign_and_abs` is `I256::checked_from_sign_and_abs`, the sign given as whether it is negative.
unfoldable pub deserialize_i256 : (Bool → ℕ → Option ℤ) → List ℕ → Result ℤ
unfolding decode_magnitude
deserialize_i256 from_sign_and_abs [] = err empty_compact_amount
deserialize_i256 from_sign_and_abs (head ∷ payload) = do
  abs ← decode_magnitude (head ∷ payload)
  ok_or (from_sign_and_abs (not (ltb head 128)) abs) i256_overflow
