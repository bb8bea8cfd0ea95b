-- ===== src/Tests/Compact.antt =====
-- Tests and examples on compact amounts.
use bitcoin_ipc.Prelude.{
  ℕ, zero, suc, ◌≤◌, ◌≡◌, refl, Bool, true, false, Option, some, none, [], ◌∷◌, length, arith,
}
use bitcoin_ipc.Result.{ok, err, compact_amount_mismatch}
use bitcoin_ipc.Records.{ℤ, pos, negsuc}
use bitcoin_ipc.Compact.{encode_magnitude, decode_magnitude, serialize_i256, deserialize_i256}
use bitcoin_ipc.Compact.Roundtrip.{deserialize_i256-serialize_i256}

encodes : encode_magnitude 300 ≡ 2 ∷ 1 ∷ 44 ∷ []
unfolding encode_magnitude
encodes = refl

burn_bytes : serialize_i256 (negsuc 299) ≡ 130 ∷ 1 ∷ 44 ∷ []
unfolding serialize_i256
burn_bytes = refl

too_short : decode_magnitude (2 ∷ 1 ∷ []) ≡ err compact_amount_mismatch
unfolding decode_magnitude
too_short = refl

abbrev from_sign_and_abs : Bool → ℕ → Option ℤ
from_sign_and_abs false abs = some (pos abs)
from_sign_and_abs true zero = none
from_sign_and_abs true (suc n) = some (negsuc n)

deserialize_i256-serialize_i256_example :
    (deserialize_i256 from_sign_and_abs (serialize_i256 (negsuc 299)) ≡ ok (negsuc 299))
    × (length (serialize_i256 (negsuc 299)) ≤ 33)
deserialize_i256-serialize_i256_example =
    deserialize_i256-serialize_i256 from_sign_and_abs (negsuc 299) (omega arith) refl
