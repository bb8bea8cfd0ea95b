-- ===== src/Transactions/Sent.antt =====
-- src/ipc_lib.rs: the data of a message's first output, as `to_tx` writes it and `from_tx` looks at
-- it, and the signer of a message.
use bitcoin_ipc.Prelude.{
  ℕ, ◌+◌, ◌≡◌, refl, inl, inr, Bool, true, false, some, List, [], ◌∷◌, ◌++◌, length, length-append,
  find?, any, ◌==◌, ==_iff, Bool-cases, arith,
}
use bitcoin_ipc.Result.{ok}
use bitcoin_ipc.Types.{op_return, pay_to, Address, Amount, TxOut, XOnlyPublicKey}
use mathlib.Core.List.{append_assoc}
use bitcoin_ipc.Bytes.{front_all, slice, same_bytes, front-append, drop-append}
use bitcoin_ipc.Committee.{SubnetValidator, is_validator}
use bitcoin_ipc.Subnet.{SubnetState}
use bitcoin_ipc.Db.{Db, get_subnet_by_multisig_address}
use bitcoin_ipc.Transactions.{
  Crates, IpcTag, create_subnet, join_subnet, prefund_subnet, fund_subnet, checkpoint_subnet,
  batch_transfer, stake_collateral, unstake_collateral, kill_subnet, as_str, tagged_data,
  data_tx_out, paid_subnet,
}
use bitcoin_ipc.Transactions.Signed.{signer}

pub length-as_str : (tag : IpcTag) → length (as_str tag) ≡ 6
unfolding as_str
length-as_str create_subnet = refl
length-as_str join_subnet = refl
length-as_str prefund_subnet = refl
length-as_str fund_subnet = refl
length-as_str checkpoint_subnet = refl
length-as_str batch_transfer = refl
length-as_str stake_collateral = refl
length-as_str unstake_collateral = refl
length-as_str kill_subnet = refl

pub same_bytes_refl : (xs : List ℕ) → same_bytes xs xs ≡ true
unfolding same_bytes
same_bytes_refl [] = refl
same_bytes_refl (x ∷ xs) = ground (arith, same_bytes_refl xs)

pub same_bytes-eq : (xs ys : List ℕ) → same_bytes xs ys ≡ true → xs ≡ ys
unfolding same_bytes
same_bytes-eq [] [] h = refl
same_bytes-eq [] (y ∷ ys) h = cc
same_bytes-eq (x ∷ xs) [] h = cc
same_bytes-eq (x ∷ xs) (y ∷ ys) h = ground (arith, same_bytes-eq xs ys)

equals_self : (n : ℕ) → (n == n) ≡ true
equals_self n = ground arith

pub tagged_data-data_tx_out :
    (x : Crates) (tag : IpcTag) (rest : List ℕ) (n : ℕ) (out : TxOut) (change : List TxOut)
    → ((bytes : List ℕ) → x.pushed (op_return bytes) ≡ some bytes)
    → 6 + length rest ≡ n
    → tagged_data x tag n (data_tx_out x (as_str tag ++ rest) ∷ out ∷ change)
      ≡ ok (as_str tag ++ rest, out)
unfolding tagged_data data_tx_out
tagged_data-data_tx_out x tag rest n out change pushes h =
    let whole : length (as_str tag ++ rest) ≡ n =
      omega (arith, length-append (as_str tag) rest, length-as_str tag) in
    rw
      (
        pushes _,
        whole,
        equals_self n,
        front-append 6 (as_str tag) rest (length-as_str tag),
        same_bytes_refl (as_str tag),
      )
      refl

pub signature_slice :
    (tag : IpcTag) (signature rest : List ℕ)
    → length signature ≡ 64
    → slice 6 70 (as_str tag ++ (signature ++ rest)) ≡ signature
unfolding slice
signature_slice tag signature rest h =
    rw
      (
        drop-append 6 (as_str tag) (signature ++ rest) (length-as_str tag),
        front-append 64 signature rest h,
      )
      refl

pub signature_slice_end :
    (tag : IpcTag) (signature : List ℕ)
    → length signature ≡ 64
    → slice 6 70 (as_str tag ++ signature) ≡ signature
unfolding slice
signature_slice_end tag signature h =
    rw (drop-append 6 (as_str tag) signature (length-as_str tag)) (front_all 64 signature h)

pub rest_slice :
    (tag : IpcTag) (signature rest : List ℕ)
    → length signature ≡ 64
    → length rest ≡ 8
    → slice 70 78 (as_str tag ++ (signature ++ rest)) ≡ rest
unfolding slice
rest_slice tag signature rest h k =
    let whole : length (as_str tag ++ signature) ≡ 70 =
      omega (arith, length-append (as_str tag) signature, length-as_str tag) in
    rw
      (
        ← append_assoc (as_str tag) signature rest,
        drop-append 70 (as_str tag ++ signature) rest whole,
      )
      (front_all 8 rest k)

pub paid_subnet-pay_to :
    (db : Db) (a : Address) (amount : Amount) (s : SubnetState)
    → get_subnet_by_multisig_address db a ≡ some s
    → paid_subnet db (record { value = amount; script_pubkey = pay_to a }) ≡ ok s
unfolding paid_subnet
paid_subnet-pay_to db a amount s h = rw h refl

any-rest :
    (P : SubnetValidator → Bool) (key : XOnlyPublicKey) (v : SubnetValidator)
    (vs : List SubnetValidator)
    → any (λ (w : SubnetValidator). w.pubkey == key) (v ∷ vs) ≡ true
    → P v ≡ false
    → ((w : SubnetValidator) → w.pubkey ≡ key → P w ≡ true)
    → any (λ (w : SubnetValidator). w.pubkey == key) vs ≡ true
any-rest P key v vs h other signs = ground (arith, signs v, ==_iff v.pubkey key)

pub find_key :
    (P : SubnetValidator → Bool) (key : XOnlyPublicKey) (vs : List SubnetValidator)
    → any (λ (v : SubnetValidator). v.pubkey == key) vs ≡ true
    → ((v : SubnetValidator) → P v ≡ true → v.pubkey ≡ key)
    → ((v : SubnetValidator) → v.pubkey ≡ key → P v ≡ true)
    → (v : SubnetValidator) × (find? P vs ≡ some v) × (v.pubkey ≡ key)
find_key P key [] h only signs = absurd cc
find_key P key (v ∷ vs) h only signs = elim (Bool-cases (P v)) [
  | inl here ↦ (v, rw here refl, only v here)
  | inr other ↦
      let (w, found, same) = find_key P key vs (any-rest P key v vs h other signs) only signs in
      (w, rw other found, same)
]

-- The signer that is found is the holder of the key, when the signature is of its text.
pub signer_lem :
    (x : Crates) (signature : List ℕ) (text : XOnlyPublicKey → List ℕ) (s : SubnetState)
    (key : XOnlyPublicKey)
    → is_validator s.committee key ≡ true
    → ((k : XOnlyPublicKey) → x.verify_schnorr signature (x.sha256 (text k)) k ≡ true → k ≡ key)
    → x.verify_schnorr signature (x.sha256 (text key)) key ≡ true
    → (v : SubnetValidator) × (signer x signature text s ≡ ok v) × (v.pubkey ≡ key)
unfolding signer is_validator
signer_lem x signature text s key member only signs =
    let (v, found, same) =
      find_key
        (λ (v : SubnetValidator). x.verify_schnorr signature (x.sha256 (text v.pubkey)) v.pubkey)
        key s.committee.validators member (λ v h. only v.pubkey h) (λ v e. rw e signs) in
    (v, rw found refl, same)
