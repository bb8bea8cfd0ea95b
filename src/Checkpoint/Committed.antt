-- ===== src/Checkpoint/Committed.antt =====
-- src/ipc_lib.rs: the commit output of a checkpoint transaction and the reveal transaction that is to
-- spend it.
use bitcoin_ipc.Prelude.{
  ℕ, zero, suc, ◌+◌, ◌≤◌, ◌≡◌, refl, ap, subst, sym, ◌∙◌, true, some, none, List, [], ◌∷◌, ◌++◌,
  map, length, arith, Bool-cases, inl, inr,
}
use bitcoin_ipc.Result.{ok, ok_or, >>=-elim, ok-injective, ok_or-eq-ok, fee_rate_overflow}
use bitcoin_ipc.Types.{SubnetId, Address, Amount, Txid, TxOut, pay_to}
use bitcoin_ipc.Records.{IpcUnstake}
use bitcoin_ipc.Msg.Checkpoint.{IpcCheckpointSubnetMsg}
use bitcoin_ipc.Checkpoint.Wire.{has_transfers, make_batched_transfer_data}
use bitcoin_ipc.Checkpoint.Outputs.{
  Builder, RevealTx, max, make_metadata_tx_out, make_batched_transfer, checkpoint_outs,
  batch_transfer_commit_vout, make_reveal_batch_transfer_tx,
}
use bitcoin_ipc.Checkpoint.Read.{output_at}
use bitcoin_ipc.Checkpoint.Paid.{
  withdrawal_out, unstake_out, IsCommitted, IsBatch, checkpoint_outs-IsBatch, value_of, transferred,
}
use mathlib.Core.List.{Perm}

max_right : (a b : Amount) → b ≤ max a b
max_right a b = ground arith

-- The reveal transaction with this witness and output spends this commit output: it opens its
-- script, and the output and the fee do not exceed it.
pub record Opens (b : Builder) (commit : TxOut) (witness : List (List ℕ)) (reveal : TxOut)
    : Type 0 where
  pub script : List ℕ
  pub address : commit.script_pubkey ≡ pay_to (b.commit_address script)
  pub opened : witness ≡ script ∷ b.control_block script ∷ []
  pub fee : Amount
  pub weighed : b.fee_wu (b.reveal_weight witness reveal) ≡ some fee
  pub covered : reveal.value + fee ≤ commit.value

pub made-Opens :
    (b : Builder) (m : IpcCheckpointSubnetMsg) (address : Address)
    (made : TxOut × List (List ℕ) × TxOut)
    → make_batched_transfer b m address ≡ ok made
    → Opens b made.0 made.1 made.2
unfolding make_batched_transfer
made-Opens b m address made e = >>=-elim (make_batched_transfer_data b.codec m) _ e λ bytes hb e₁.
    >>=-elim (ok_or (b.fee_wu _) fee_rate_overflow) _ e₁ λ f hf e₂.
      subst (λ (r : TxOut × List (List ℕ) × TxOut). Opens b r.0 r.1 r.2) (ok-injective e₂)
        (record {
          script = b.codec.push_data_script bytes;
          address = refl;
          opened = refl;
          fee = f;
          weighed = ok_or-eq-ok _ fee_rate_overflow hf;
          covered = max_right _ _;
        })

pub output_at-append :
    (n i : ℕ) (xs ys : List TxOut) → n ≡ length xs + i → output_at n (xs ++ ys) ≡ output_at i ys
unfolding output_at
output_at-append n i [] ys e = ap (λ k. output_at k ys) (omega (arith, e))
output_at-append zero i (x ∷ xs) ys e = absurd (omega (arith, e))
output_at-append (suc n) i (x ∷ xs) ys e = output_at-append n i xs ys (omega (arith, e))

pub length-map {ℓ κ} :
    {A : Type ℓ} {B : Type κ} (f : A → B) (xs : List A) → length (map f xs) ≡ length xs
length-map f [] = refl
length-map f (x ∷ xs) = ap suc (length-map f xs)

-- Position `1 + withdrawals` holds the commit output, and what comes after it begins with the rest
-- of the batch.
commit_at :
    (b : Builder) (m : IpcCheckpointSubnetMsg) (commit : TxOut) (rest : List TxOut) (i : ℕ)
    → output_at (1 + length m.withdrawals + i) (
        make_metadata_tx_out b m
        ∷ (map withdrawal_out m.withdrawals ++ (commit ∷ (rest ++ map unstake_out m.unstakes))))
      ≡ output_at i (commit ∷ (rest ++ map unstake_out m.unstakes))
commit_at b m commit rest i =
    output_at-append (1 + length m.withdrawals + i) i
      (make_metadata_tx_out b m ∷ map withdrawal_out m.withdrawals)
      (commit ∷ (rest ++ map unstake_out m.unstakes))
      (omega (arith, length-map withdrawal_out m.withdrawals))

pub placed_batch :
    (b : Builder) (m : IpcCheckpointSubnetMsg) {outs batch : List TxOut} {commit : TxOut}
    {rest : List TxOut}
    → outs
      ≡ make_metadata_tx_out b m
        ∷ (map withdrawal_out m.withdrawals ++ (batch ++ map unstake_out m.unstakes))
    → batch ≡ commit ∷ rest
    → outs
      ≡ make_metadata_tx_out b m
        ∷ (map withdrawal_out m.withdrawals ++ (commit ∷ (rest ++ map unstake_out m.unstakes)))
placed_batch b m laid first =
    laid
    ∙ ap
        (λ l.
          make_metadata_tx_out b m
          ∷ (map withdrawal_out m.withdrawals ++ (l ++ map unstake_out m.unstakes)))
        first

abbrev reveal_of : IpcCheckpointSubnetMsg → Txid → TxOut × List (List ℕ) × TxOut → RevealTx
reveal_of m txid made = record {
  input = record {
    txid = txid;
    vout = 1 + length m.withdrawals + length m.unstakes;
    witness = made.1;
  };
  output = made.2;
}

plus_zero : (n : ℕ) → 1 + n + 0 ≡ 1 + n
plus_zero n = omega arith

nothing_revealed : {x : RevealTx} → ok none ≡ ok (some x) → ⊥
nothing_revealed h = cc

some_ok-injective : {x y : RevealTx} → ok (some x) ≡ ok (some y) → x ≡ y
some_ok-injective h = cc

has_revealed :
    (b : Builder) (m : IpcCheckpointSubnetMsg) (address : Address) (txid : Txid) {tx : RevealTx}
    → make_reveal_batch_transfer_tx b m txid address ≡ ok (some tx)
    → has_transfers m ≡ true
unfolding make_reveal_batch_transfer_tx
has_revealed b m address txid r = elim (Bool-cases (has_transfers m)) [
  | inr absent ↦ absurd (nothing_revealed (rw absent at r))
  | inl present ↦ present
]

revealed :
    (b : Builder) (m : IpcCheckpointSubnetMsg) (address : Address) (txid : Txid) {tx : RevealTx}
    (made : TxOut × List (List ℕ) × TxOut)
    → make_batched_transfer b m address ≡ ok made
    → has_transfers m ≡ true
    → make_reveal_batch_transfer_tx b m txid address ≡ ok (some tx)
    → reveal_of m txid made ≡ tx
unfolding make_reveal_batch_transfer_tx batch_transfer_commit_vout
revealed b m address txid made e present r = some_ok-injective (rw (present, e) at r)

-- The reveal transaction of a checkpoint without unstakes spends the commit output: the output at
-- the position that it names pays to the script that its witness opens, and is worth its output and
-- its fee at least. Both transactions are made with the same return address; iterating over a map
-- gives its entries in some order.
pub make_reveal_batch_transfer_tx-Opens :
    (b : Builder) (m : IpcCheckpointSubnetMsg) (address : Address) (outs : List TxOut) (txid : Txid)
    (tx : RevealTx)
    → ((totals : List (SubnetId × (Amount × Address))) → Perm (b.iter totals) totals)
    → m.unstakes ≡ []
    → checkpoint_outs b m address ≡ ok outs
    → make_reveal_batch_transfer_tx b m txid address ≡ ok (some tx)
    → (commit : TxOut) × (tx.input.txid ≡ txid)
      × (output_at tx.input.vout outs ≡ ok commit)
      × Opens b commit tx.input.witness tx.output
unfolding make_reveal_batch_transfer_tx batch_transfer_commit_vout output_at
make_reveal_batch_transfer_tx-Opens b m address outs txid tx iter none_left c r =
    let (batch, laid, is_batch) = checkpoint_outs-IsBatch b m address outs iter c in
    let present = has_revealed b m address txid r in
    let committed : IsCommitted b m address batch =
      subst (λ t. IsBatch b m address t batch) present is_batch in
    let placed = placed_batch b m laid committed.first in
    let made : TxOut × List (List ℕ) × TxOut =
      (committed.commit, committed.witness, committed.reveal) in
    let same = revealed b m address txid made committed.made present r in
    let vout : tx.input.vout ≡ 1 + length m.withdrawals + 0 =
      omega (arith, ap (λ (t : RevealTx). t.input.vout) same, ap (length {0}) none_left) in
    (
      committed.commit,
      sym (ap (λ (t : RevealTx). t.input.txid) same),
      subst (λ n. output_at n outs ≡ ok committed.commit) (sym vout)
          (ap (λ l. output_at (1 + length m.withdrawals + 0) l) placed
            ∙ commit_at b m committed.commit committed.outs 0),
      subst (λ (t : RevealTx). Opens b committed.commit t.input.witness t.output) same
          (made-Opens b m address made committed.made),
    )

-- The reveal transaction spends, by its witness and its output, the commit output that stands after
-- the withdrawals, but names a position behind it, among the outputs that follow.
pub record IsAstray (b : Builder) (m : IpcCheckpointSubnetMsg) (address : Address)
    (outs : List TxOut) (txid : Txid) (behind : ℕ) (tx : RevealTx) : Type 0 where
  pub commit : TxOut
  pub rest : List TxOut
  pub made : make_batched_transfer b m address ≡ ok (commit, tx.input.witness, tx.output)
  pub laid :
      outs
      ≡ make_metadata_tx_out b m
        ∷ (map withdrawal_out m.withdrawals ++ (commit ∷ (rest ++ map unstake_out m.unstakes)))
  pub same_txid : tx.input.txid ≡ txid
  pub opens : Opens b commit tx.input.witness tx.output
  pub position : output_at (1 + length m.withdrawals) outs ≡ ok commit
  pub beyond : tx.input.vout ≡ 1 + length m.withdrawals + suc behind
  pub hit : output_at tx.input.vout outs ≡ output_at behind (rest ++ map unstake_out m.unstakes)
  pub worth : value_of rest ≡ transferred m.transfers
  pub few : length rest ≤ length m.transfers

-- With unstakes the reveal transaction is made, but names another output than the one its witness
-- opens, which stands after the withdrawals: the position that it names lies as far behind that one
-- as there are unstakes. What stands after the commit output is `rest`, at most as many outputs as
-- transfers and worth them, and the unstakes; the output that is named is the one of the last
-- unstake's number among these, counted from 0. Iterating over a map gives its entries in some order.
pub batch_transfer_commit_vout_misses :
    (b : Builder) (m : IpcCheckpointSubnetMsg) (address : Address) (outs : List TxOut) (txid : Txid)
    (u : IpcUnstake) (us : List IpcUnstake)
    → ((totals : List (SubnetId × (Amount × Address))) → Perm (b.iter totals) totals)
    → has_transfers m ≡ true
    → m.unstakes ≡ u ∷ us
    → checkpoint_outs b m address ≡ ok outs
    → (tx : RevealTx) × (make_reveal_batch_transfer_tx b m txid address ≡ ok (some tx))
      × IsAstray b m address outs txid (length us) tx
unfolding make_reveal_batch_transfer_tx batch_transfer_commit_vout output_at
batch_transfer_commit_vout_misses b m address outs txid u us iter some_data e c =
    let (batch, laid, is_batch) = checkpoint_outs-IsBatch b m address outs iter c in
    let committed : IsCommitted b m address batch =
      subst (λ t. IsBatch b m address t batch) some_data is_batch in
    let placed = placed_batch b m laid committed.first in
    let made : TxOut × List (List ℕ) × TxOut =
      (committed.commit, committed.witness, committed.reveal) in
    (
      reveal_of m txid made,
      rw (some_data, committed.made) refl,
      record {
        commit = committed.commit;
        rest = committed.outs;
        made = committed.made;
        laid = placed;
        same_txid = refl;
        opens = made-Opens b m address made committed.made;
        position =
            subst (λ n. output_at n outs ≡ ok committed.commit) (plus_zero (length m.withdrawals))
              (ap (λ l. output_at (1 + length m.withdrawals + 0) l) placed
                ∙ commit_at b m committed.commit committed.outs 0);
        beyond = omega (arith, ap (length {0}) e);
        hit =
            ap (λ l. output_at (1 + length m.withdrawals + length m.unstakes) l) placed
            ∙ (commit_at b m committed.commit committed.outs (length m.unstakes)
                ∙ ap
                    (λ l.
                      output_at (length l)
                        (committed.commit ∷ (committed.outs ++ map unstake_out m.unstakes)))
                    e);
        worth = committed.worth;
        few = committed.few;
      },
    )
