-- ===== src/Transactions/Exclusive.antt =====
-- src/ipc_lib.rs: a transaction's first output is of one message at most.
use bitcoin_ipc.Prelude.{
  ℕ, ◌≡◌, refl, ap, sym, ◌∙◌, Bool, true, false, not, Option, none, some, List, [], ◌∷◌, length,
  ◌==◌, arith,
}
use bitcoin_ipc.Result.{
  Result, ok, err, ok_or, ◌>>=◌, ◌>>◌, fail_if, not_op_return, data_length_mismatch, invalid_tag,
}
use bitcoin_ipc.Types.{TxIn, TxOut}
use bitcoin_ipc.Bytes.{front, same_bytes}
use bitcoin_ipc.Db.{Db}
use bitcoin_ipc.Checkpoint.Metadata.{Metadata, parse_metadata, checkpoint_tag}
use bitcoin_ipc.Checkpoint.Read.{from_checkpoint_tx}
use bitcoin_ipc.Transactions.{
  Crates, IpcTag, create_subnet, join_subnet, prefund_subnet, fund_subnet, checkpoint_subnet,
  batch_transfer, stake_collateral, unstake_collateral, kill_subnet, as_str, two_outputs,
  tagged_data,
}
use bitcoin_ipc.Transactions.Tags.{as_str-injective}
use bitcoin_ipc.Transactions.Sent.{same_bytes-eq}
use bitcoin_ipc.Transactions.Fund.{prefund_from_tx, fund_from_tx}
use bitcoin_ipc.Transactions.Stake.{stake_from_tx}
use bitcoin_ipc.Transactions.Signed.{unstake_from_tx, kill_from_tx}

abbrev is_ok {ℓ} : {A : Type ℓ} → Result A → Bool
is_ok (ok a) = true
is_ok (err e) = false

-- Whether the outputs are read as a message of the tag. The messages that come in a witness are not.
unfoldable pub reads : Crates → Db → List TxIn → List TxOut → IpcTag → Bool
reads x db inputs outs create_subnet = false
reads x db inputs outs join_subnet = false
reads x db inputs outs prefund_subnet = is_ok (prefund_from_tx x outs)
reads x db inputs outs fund_subnet = is_ok (fund_from_tx x outs)
reads x db inputs outs checkpoint_subnet = is_ok (from_checkpoint_tx x.pushed db outs)
reads x db inputs outs batch_transfer = false
reads x db inputs outs stake_collateral = is_ok (stake_from_tx x db outs)
reads x db inputs outs unstake_collateral = is_ok (unstake_from_tx x db inputs outs)
reads x db inputs outs kill_subnet = is_ok (kill_from_tx x db inputs outs)

-- The first six bytes that the first output pushes.
abbrev first_six : Option (List ℕ) → Option (List ℕ)
first_six none = none
first_six (some bytes) = some (front 6 bytes)

tag_of : Crates → List TxOut → Option (List ℕ)
tag_of x [] = none
tag_of x (out ∷ outs) = first_six (x.pushed out.script_pubkey)

is_ok_bind {ℓ κ} :
    {A : Type ℓ} {B : Type κ} (m : Result A) (f : A → Result B)
    → is_ok (m >>= f) ≡ true
    → (a : A) × (m ≡ ok a)
is_ok_bind (ok a) f h = (a, refl)
is_ok_bind (err e) f h = cc

checked_tag :
    (tag : IpcTag) (n : ℕ) (second : TxOut) (found : Option (List ℕ)) {parts : List ℕ × TxOut}
    → (ok_or found not_op_return >>= λ bytes.
        fail_if (not (length bytes == n)) data_length_mismatch
        >> (fail_if (not (same_bytes (front 6 bytes) (as_str tag))) invalid_tag
            >> ok (bytes, second)))
      ≡ ok parts
    → first_six found ≡ some (as_str tag)
checked_tag tag n second none h = cc
checked_tag tag n second (some bytes) h = ground (arith, same_bytes-eq (front 6 bytes) (as_str tag))

tagged_data-tag_of :
    (x : Crates) (tag : IpcTag) (n : ℕ) (outs : List TxOut) {parts : List ℕ × TxOut}
    → tagged_data x tag n outs ≡ ok parts
    → tag_of x outs ≡ some (as_str tag)
unfolding tag_of tagged_data two_outputs
tagged_data-tag_of x tag n [] h = cc
tagged_data-tag_of x tag n (out ∷ []) h = cc
tagged_data-tag_of x tag n (out ∷ second ∷ rest) h =
    checked_tag tag n second (x.pushed out.script_pubkey) h

tagged_read {ℓ} :
    {B : Type ℓ} (x : Crates) (tag : IpcTag) (n : ℕ) (outs : List TxOut)
    (rest : List ℕ × TxOut → Result B)
    → is_ok (tagged_data x tag n outs >>= rest) ≡ true
    → tag_of x outs ≡ some (as_str tag)
tagged_read x tag n outs rest h =
    let (parts, found) = is_ok_bind (tagged_data x tag n outs) rest h in
    tagged_data-tag_of x tag n outs found

metadata_tag :
    (bytes : List ℕ) {d : Metadata}
    → parse_metadata bytes ≡ ok d
    → front 6 bytes ≡ as_str checkpoint_subnet
unfolding parse_metadata as_str
metadata_tag bytes h = ground (arith, same_bytes-eq (front 6 bytes) checkpoint_tag)

checked_metadata {ℓ} :
    {B : Type ℓ} (found : Option (List ℕ)) (rest : Metadata → Result B)
    → is_ok (ok_or found not_op_return >>= λ bytes. parse_metadata bytes >>= rest) ≡ true
    → first_six found ≡ some (as_str checkpoint_subnet)
checked_metadata none rest h = cc
checked_metadata (some bytes) rest h =
    let (d, parsed) = is_ok_bind (parse_metadata bytes) rest h in
    ap (λ t. some t) (metadata_tag bytes parsed)

checkpoint_read :
    (x : Crates) (db : Db) (outs : List TxOut)
    → is_ok (from_checkpoint_tx x.pushed db outs) ≡ true
    → tag_of x outs ≡ some (as_str checkpoint_subnet)
unfolding from_checkpoint_tx tag_of
checkpoint_read x db [] h = cc
checkpoint_read x db (out ∷ outs) h = checked_metadata (x.pushed out.script_pubkey) _ h

-- A transaction that is read as a message of a tag pushes the tag first.
reads-tag_of :
    (x : Crates) (db : Db) (inputs : List TxIn) (outs : List TxOut) (tag : IpcTag)
    → reads x db inputs outs tag ≡ true
    → tag_of x outs ≡ some (as_str tag)
unfolding reads prefund_from_tx fund_from_tx stake_from_tx unstake_from_tx kill_from_tx
reads-tag_of x db inputs outs create_subnet h = cc
reads-tag_of x db inputs outs join_subnet h = cc
reads-tag_of x db inputs outs prefund_subnet h = tagged_read x prefund_subnet 46 outs _ h
reads-tag_of x db inputs outs fund_subnet h = tagged_read x fund_subnet 46 outs _ h
reads-tag_of x db inputs outs checkpoint_subnet h = checkpoint_read x db outs h
reads-tag_of x db inputs outs batch_transfer h = cc
reads-tag_of x db inputs outs stake_collateral h = tagged_read x stake_collateral 38 outs _ h
reads-tag_of x db inputs outs unstake_collateral h = tagged_read x unstake_collateral 78 outs _ h
reads-tag_of x db inputs outs kill_subnet h = tagged_read x kill_subnet 70 outs _ h

some-injective : {a b : List ℕ} → some a ≡ some b → a ≡ b
some-injective e = cc

-- No transaction is read as two of the messages that its outputs carry, the six that are not read from a
-- witness: if it is read as messages of two tags, the tags are the same.
pub reads_unique :
    (x : Crates) (db : Db) (inputs : List TxIn) (outs : List TxOut) (tag tag' : IpcTag)
    → reads x db inputs outs tag ≡ true
    → reads x db inputs outs tag' ≡ true
    → tag ≡ tag'
reads_unique x db inputs outs tag tag' h k = as_str-injective (
    some-injective
      (sym (reads-tag_of x db inputs outs tag h) ∙ reads-tag_of x db inputs outs tag' k))
