-- ===== src/Transactions/Signatures.antt =====
-- src/ipc_lib.rs: the texts that `make_signature_msg` hashes.
use bitcoin_ipc.Prelude.{ℕ, ◌^◌, ◌<◌, ◌≡◌, ◌≢◌, ap, sym, ◌∙◌, List, length, arith}
use bitcoin_ipc.Types.{SubnetId, XOnlyPublicKey, Amount, Txid}
use bitcoin_ipc.Bytes.{be_bytes, from_be_bytes, slice, from_be_bytes-be_bytes}
use bitcoin_ipc.Transactions.Signed.{unstake_text, kill_text}

-- A field of both texts, read back.
same_field :
    (n a b : ℕ)
    → a < 256 ^ n
    → b < 256 ^ n
    → from_be_bytes (be_bytes n a) ≡ from_be_bytes (be_bytes n b)
    → a ≡ b
same_field n a b ha hb e = sym (from_be_bytes-be_bytes n a ha) ∙ e ∙ from_be_bytes-be_bytes n b hb

field : ℕ → ℕ → List ℕ → ℕ
field a b text = from_be_bytes (slice a b text)

-- A signed withdrawal text determines the transaction that its first input spends, the key, the
-- amount and the subnet: no two requests that differ in one of these are signed by one text. Ids and
-- keys have 32 bytes, amounts 8, subnet ids 20.
pub unstake_text-injective :
    (t t' : Txid) (k k' : XOnlyPublicKey) (a a' : Amount) (i i' : SubnetId)
    → t < 256 ^ 32
    → t' < 256 ^ 32
    → k < 256 ^ 32
    → k' < 256 ^ 32
    → a < 256 ^ 8
    → a' < 256 ^ 8
    → i < 256 ^ 20
    → i' < 256 ^ 20
    → unstake_text t k a i ≡ unstake_text t' k' a' i'
    → (t ≡ t') × (k ≡ k') × (a ≡ a') × (i ≡ i')
unfolding unstake_text field slice
unstake_text-injective t t' k k' a a' i i' ht ht' hk hk' ha ha' hi hi' e = (
  same_field 32 t t' ht ht' (ap (field 0 32) e),
  same_field 32 k k' hk hk' (ap (field 32 64) e),
  same_field 8 a a' ha ha' (ap (field 64 72) e),
  same_field 20 i i' hi hi' (ap (field 72 92) e),
)

-- The same for kill requests.
pub kill_text-injective :
    (t t' : Txid) (k k' : XOnlyPublicKey) (i i' : SubnetId)
    → t < 256 ^ 32
    → t' < 256 ^ 32
    → k < 256 ^ 32
    → k' < 256 ^ 32
    → i < 256 ^ 20
    → i' < 256 ^ 20
    → kill_text t k i ≡ kill_text t' k' i'
    → (t ≡ t') × (k ≡ k') × (i ≡ i')
unfolding kill_text field slice
kill_text-injective t t' k k' i i' ht ht' hk hk' hi hi' e = (
  same_field 32 t t' ht ht' (ap (field 0 32) e),
  same_field 32 k k' hk hk' (ap (field 32 64) e),
  same_field 20 i i' hi hi' (ap (field 64 84) e),
)

pub length-unstake_text :
    (t : Txid) (k : XOnlyPublicKey) (a : Amount) (i : SubnetId) → length (unstake_text t k a i) ≡ 92
unfolding unstake_text
length-unstake_text t k a i = omega arith

pub length-kill_text :
    (t : Txid) (k : XOnlyPublicKey) (i : SubnetId) → length (kill_text t k i) ≡ 84
unfolding kill_text
length-kill_text t k i = omega arith

-- The text of a withdrawal is never the text of a kill request.
pub unstake_text-ne-kill_text :
    (t t' : Txid) (k k' : XOnlyPublicKey) (a : Amount) (i i' : SubnetId)
    → unstake_text t k a i ≢ kill_text t' k' i'
unstake_text-ne-kill_text t t' k k' a i i' e =
    omega (arith, length-unstake_text t k a i, length-kill_text t' k' i', ap length e)
