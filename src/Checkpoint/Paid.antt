-- ===== src/Checkpoint/Paid.antt =====
-- src/ipc_lib.rs: what the outputs of a checkpoint transaction pay.
use bitcoin_ipc.Prelude.{
  ℕ, suc, ◌+◌, ◌≤◌, ◌==◌, ◌≡◌, ap, sym, ◌∙◌, Bool, true, false, List, [], ◌∷◌, ◌++◌, map, length,
  sum, arith, if◌then◌else◌, if-elim, sum-perm, length-perm,
}
use bitcoin_ipc.Result.{ok, ok_or, >>=-elim, if-eq-ok, ok-injective}
use bitcoin_ipc.Types.{SubnetId, Address, Amount, TxOut, Script, pay_to}
use bitcoin_ipc.Records.{IpcWithdrawal, IpcUnstake, IpcCrossSubnetTransfer}
use bitcoin_ipc.Msg.Checkpoint.{IpcCheckpointSubnetMsg}
use bitcoin_ipc.Checkpoint.Wire.{has_transfers}
use bitcoin_ipc.Checkpoint.Outputs.{
  Builder, make_metadata_tx_out, checked_script, withdrawal_outs, unstake_outs,
  make_batched_transfer, add_total, transfers_by_subnet, transfer_outs, batch_outs, checkpoint_outs,
}
use mathlib.Core.List.{Perm}

abbrev pub withdrawal_out : IpcWithdrawal → TxOut
withdrawal_out w = record { value = w.amount; script_pubkey = pay_to w.address }

abbrev pub unstake_out : IpcUnstake → TxOut
unstake_out u = record { value = u.amount; script_pubkey = pay_to u.address }

checked_script-eq-ok :
    (b : Builder) (address : Address) {s : Script}
    → checked_script b address ≡ ok s
    → pay_to address ≡ s
unfolding checked_script
checked_script-eq-ok b address e =
    if-eq-ok (b.is_valid_for_network address) e (λ here. ok-injective here) (λ no. absurd cc)

pub withdrawal_outs-eq-map :
    (b : Builder) (ws : List IpcWithdrawal) {outs : List TxOut}
    → withdrawal_outs b ws ≡ ok outs
    → outs ≡ map withdrawal_out ws
unfolding withdrawal_outs
withdrawal_outs-eq-map b [] e = sym (ok-injective e)
withdrawal_outs-eq-map b (w ∷ ws) e = >>=-elim (checked_script b w.address) _ e λ s hs e₁.
    >>=-elim (withdrawal_outs b ws) _ e₁ λ outs ho e₂.
      cc (checked_script-eq-ok b w.address hs, withdrawal_outs-eq-map b ws ho, ok-injective e₂)

pub unstake_outs-eq-map :
    (b : Builder) (us : List IpcUnstake) {outs : List TxOut}
    → unstake_outs b us ≡ ok outs
    → outs ≡ map unstake_out us
unfolding unstake_outs
unstake_outs-eq-map b [] e = sym (ok-injective e)
unstake_outs-eq-map b (u ∷ us) e = >>=-elim (checked_script b u.address) _ e λ s hs e₁.
    >>=-elim (unstake_outs b us) _ e₁ λ outs ho e₂.
      cc (checked_script-eq-ok b u.address hs, unstake_outs-eq-map b us ho, ok-injective e₂)

abbrev Totals : Type 0
Totals = List (SubnetId × (Amount × Address))

abbrev pub value_of : List TxOut → Amount
value_of outs = sum (λ (out : TxOut). out.value) outs

abbrev totalled : Totals → Amount
totalled totals = sum (λ (entry : SubnetId × (Amount × Address)). entry.1.0) totals

abbrev pub transferred : List IpcCrossSubnetTransfer → Amount
transferred transfers = sum (λ (t : IpcCrossSubnetTransfer). t.amount) transfers

totalled-add_total :
    (id : SubnetId) (amount : Amount) (address : Address) (totals : Totals)
    → totalled (add_total id amount address totals) ≡ totalled totals + amount
unfolding add_total
totalled-add_total id amount address [] = omega arith
totalled-add_total id amount address ((other, (total, first)) ∷ totals) =
    if-elim (λ (l : Totals). totalled l ≡ total + totalled totals + amount) (other == id)
      (omega arith) (omega (arith, totalled-add_total id amount address totals))

transfers_by_subnet-totalled :
    (transfers : List IpcCrossSubnetTransfer) (totals : Totals) {r : Totals}
    → transfers_by_subnet transfers totals ≡ ok r
    → totalled r ≡ totalled totals + transferred transfers
unfolding transfers_by_subnet
transfers_by_subnet-totalled [] totals e = omega (arith, ap totalled (ok-injective e))
transfers_by_subnet-totalled (t ∷ transfers) totals e =
    >>=-elim (ok_or t.subnet_multisig_address _) _ e λ address ha e₁. omega (
      arith,
      transfers_by_subnet-totalled transfers _ e₁,
      totalled-add_total t.destination_subnet_id t.amount address totals,
    )

transfer_outs-value :
    (b : Builder) (totals : Totals) {outs : List TxOut}
    → transfer_outs b totals ≡ ok outs
    → value_of outs ≡ totalled totals
unfolding transfer_outs
transfer_outs-value b [] e = ap value_of (sym (ok-injective e))
transfer_outs-value b ((id, (total, address)) ∷ totals) e =
    >>=-elim (checked_script b address) _ e λ s hs e₁.
      >>=-elim (transfer_outs b totals) _ e₁ λ outs ho e₂.
        ap value_of (sym (ok-injective e₂)) ∙ ap (λ n. total + n) (transfer_outs-value b totals ho)

length-transfer_outs :
    (b : Builder) (totals : Totals) {outs : List TxOut}
    → transfer_outs b totals ≡ ok outs
    → length outs ≡ length totals
unfolding transfer_outs
length-transfer_outs b [] e = ap (length {0}) (sym (ok-injective e))
length-transfer_outs b ((id, (total, address)) ∷ totals) e =
    >>=-elim (checked_script b address) _ e λ s hs e₁.
      >>=-elim (transfer_outs b totals) _ e₁ λ outs ho e₂.
        ap (length {0}) (sym (ok-injective e₂)) ∙ ap suc (length-transfer_outs b totals ho)

length-add_total :
    (id : SubnetId) (amount : Amount) (address : Address) (totals : Totals)
    → length (add_total id amount address totals) ≤ length totals + 1
unfolding add_total
length-add_total id amount address [] = omega arith
length-add_total id amount address ((other, (total, first)) ∷ totals) =
    if-elim (λ (l : Totals). length l ≤ suc (length totals) + 1) (other == id) (omega arith)
      (omega (arith, length-add_total id amount address totals))

length-transfers_by_subnet :
    (transfers : List IpcCrossSubnetTransfer) (totals : Totals) {r : Totals}
    → transfers_by_subnet transfers totals ≡ ok r
    → length r ≤ length totals + length transfers
unfolding transfers_by_subnet
length-transfers_by_subnet [] totals e = omega (arith, ap (length {0}) (ok-injective e))
length-transfers_by_subnet (t ∷ transfers) totals e =
    >>=-elim (ok_or t.subnet_multisig_address _) _ e λ address ha e₁. omega (
      arith,
      length-transfers_by_subnet transfers _ e₁,
      length-add_total t.destination_subnet_id t.amount address totals,
    )

-- The outputs for a batch: none without transfers; else the commit output, and outputs worth what
-- is transferred.
pub record IsCommitted (b : Builder) (m : IpcCheckpointSubnetMsg) (address : Address)
    (batch : List TxOut) : Type 0 where
  pub commit : TxOut
  pub witness : List (List ℕ)
  pub reveal : TxOut
  pub outs : List TxOut
  pub made : make_batched_transfer b m address ≡ ok (commit, witness, reveal)
  pub first : batch ≡ commit ∷ outs
  pub worth : value_of outs ≡ transferred m.transfers
  pub few : length outs ≤ length m.transfers

abbrev pub IsBatch : Builder → IpcCheckpointSubnetMsg → Address → Bool → List TxOut → Type 0
IsBatch b m address true batch = IsCommitted b m address batch
IsBatch b m address false batch = batch ≡ []

batch_outs-IsCommitted :
    (b : Builder) (m : IpcCheckpointSubnetMsg) (address : Address) {batch : List TxOut}
    → ((totals : List (SubnetId × (Amount × Address))) → Perm (b.iter totals) totals)
    → batch_outs b m address ≡ ok batch
    → IsCommitted b m address batch
unfolding batch_outs
batch_outs-IsCommitted b m address iter e =
    >>=-elim (make_batched_transfer b m address) _ e λ made hm e₁.
      >>=-elim (transfers_by_subnet m.transfers []) _ e₁ λ totals ht e₂.
        >>=-elim (transfer_outs b (b.iter totals)) _ e₂ λ outs ho e₃. record {
          commit = made.0;
          witness = made.1;
          reveal = made.2;
          outs = outs;
          made = hm;
          first = sym (ok-injective e₃);
          worth = omega (
            arith,
            transfer_outs-value b (b.iter totals) ho,
            sum-perm (λ (entry : SubnetId × (Amount × Address)). entry.1.0) (iter totals),
            transfers_by_subnet-totalled m.transfers [] ht,
          );
          few = omega (
            arith,
            length-transfer_outs b (b.iter totals) ho,
            length-perm (iter totals),
            length-transfers_by_subnet m.transfers [] ht,
          );
        }

-- The outputs of a checkpoint transaction are the metadata, an output to the address of every
-- withdrawal with its amount, the batch, and an output to the address of every unstake with its
-- amount, in this order. The batch is empty without transfers and ERC data, and else the commit
-- output and outputs that together are worth the transfers. Iterating over a map gives its entries
-- in some order.
pub checkpoint_outs-IsBatch :
    (b : Builder) (m : IpcCheckpointSubnetMsg) (address : Address) (outs : List TxOut)
    → ((totals : List (SubnetId × (Amount × Address))) → Perm (b.iter totals) totals)
    → checkpoint_outs b m address ≡ ok outs
    → (batch : List TxOut) × (outs
        ≡ make_metadata_tx_out b m
          ∷ (map withdrawal_out m.withdrawals ++ (batch ++ map unstake_out m.unstakes)))
      × IsBatch b m address (has_transfers m) batch
unfolding checkpoint_outs
checkpoint_outs-IsBatch b m address outs iter e =
    >>=-elim (withdrawal_outs b m.withdrawals) _ e λ ws hw e₁.
      >>=-elim (if has_transfers m then batch_outs b m address else ok []) _ e₁ λ batch hb e₂.
        >>=-elim (unstake_outs b m.unstakes) _ e₂ λ us hu e₃. (
          batch,
          cc (
            ok-injective e₃,
            withdrawal_outs-eq-map b m.withdrawals hw,
            unstake_outs-eq-map b m.unstakes hu,
          ),
          is_batch batch (has_transfers m) hb,
        )
  where
    is_batch :
        (batch : List TxOut) (some_data : Bool)
        → (if some_data then batch_outs b m address else ok []) ≡ ok batch
        → IsBatch b m address some_data batch
    is_batch batch true h = batch_outs-IsCommitted b m address iter h
    is_batch batch false h = sym (ok-injective h)
