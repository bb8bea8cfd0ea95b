-- ===== src/Msg/Checkpoint/Described.antt =====
-- src/ipc_lib.rs: the record of a checkpoint, as its message describes it.
use bitcoin_ipc.Prelude.{
  ℕ, ◌+◌, ◌<◌, ◌≡◌, refl, subst, ◌||◌, false, true, ◌⊎◌, inl, inr, Option, none, some, arith, ltb,
  ◌==◌, Bool-cases,
}
use bitcoin_ipc.Result.{
  ok, fail_if, fail_if-eq-ok, ok_or, ok_or-eq-ok, >>=-elim, ok-injective, stake_change_missing,
  configuration_number_too_low,
}
use bitcoin_ipc.Types.{Txid}
use bitcoin_ipc.Subnet.{SubnetState}
use bitcoin_ipc.Records.{SubnetCheckpoint, StakeChangeRequest}
use bitcoin_ipc.Db.{Db}
use bitcoin_ipc.Db.StakeChanges.{get_stake_change}
use bitcoin_ipc.Msg.Checkpoint.{
  IpcCheckpointSubnetMsg, next_checkpoint_number, selected_change, new_checkpoint,
}

-- The number after the last one, from 0.
abbrev pub IsNext : Option ℕ → ℕ → Type 0
IsNext none n = n ≡ 0
IsNext (some last) n = n ≡ last + 1

-- What the record says of the next committee: that it stays, if the message names no configuration
-- or the current one; else the next committee number and the configuration of the stored stake
-- change that the message names, which is a later one than the current.
abbrev pub NamesNext :
    IpcCheckpointSubnetMsg
    → Db
    → SubnetState
    → SubnetCheckpoint
    → Option StakeChangeRequest
    → Type 0
NamesNext m db s c none =
    ((m.next_committee_configuration_number ≡ 0)
      ⊎ (m.next_committee_configuration_number ≡ s.committee.configuration_number))
    × (c.next_committee_number ≡ s.committee_number)
    × (c.next_configuration_number ≡ s.committee.configuration_number)
NamesNext m db s c (some change) =
    (get_stake_change db m.subnet_id m.next_committee_configuration_number ≡ some change)
    × (s.committee.configuration_number < m.next_committee_configuration_number)
    × (c.next_committee_number ≡ s.committee_number + 1)
    × (c.next_configuration_number ≡ change.configuration_number)

-- The record of the checkpoint that the message describes, in a transaction at a height.
pub record IsRecordOf (m : IpcCheckpointSubnetMsg) (db : Db) (height : ℕ) (txid : Txid)
    (s : SubnetState) (c : SubnetCheckpoint) : Type 0 where
  pub number : IsNext s.last_checkpoint_number c.checkpoint_number
  pub hash : c.checkpoint_hash ≡ m.checkpoint_hash
  pub checkpoint_height : c.checkpoint_height ≡ m.checkpoint_height
  pub block_height : c.block_height ≡ height
  pub transaction : c.txid ≡ txid
  pub no_batch : (c.batch_transfer_txid ≡ none) × (c.batch_transfer_block_height ≡ none)
  pub signed : c.signed_committee_number ≡ s.committee_number
  pub is_kill : c.is_kill_checkpoint ≡ m.is_kill_checkpoint
  pub change : Option StakeChangeRequest
  pub names_next : NamesNext m db s c change

-- Where the change that is selected comes from.
abbrev pub Selects : IpcCheckpointSubnetMsg → Db → SubnetState → Option StakeChangeRequest → Type 0
Selects m db s none =
    (m.next_committee_configuration_number ≡ 0)
    ⊎ (m.next_committee_configuration_number ≡ s.committee.configuration_number)
Selects m db s (some change) =
    (get_stake_change db m.subnet_id m.next_committee_configuration_number ≡ some change)
    × (s.committee.configuration_number < m.next_committee_configuration_number)

either_eq : (n k : ℕ) → (n == 0 || n == k) ≡ true → (n ≡ 0) ⊎ (n ≡ k)
either_eq n k h = elim (Bool-cases (n == 0)) [
  | inl e ↦ inl (ground arith)
  | inr e ↦ inr (ground arith)
]

later_number : (n k : ℕ) → (n == 0 || n == k) ≡ false → ltb n k ≡ false → k < n
later_number n k h le = ground arith

pub selected_change-Selects :
    (m : IpcCheckpointSubnetMsg) (db : Db) (s : SubnetState) {change : Option StakeChangeRequest}
    → selected_change m db s ≡ ok change
    → Selects m db s change
unfolding selected_change
selected_change-Selects m db s e =
    let number = m.next_committee_configuration_number in
    let current = s.committee.configuration_number in
    elim (Bool-cases (number == 0 || number == current)) [
      | inl h ↦ subst (Selects m db s) (ok-injective (rw h at e)) (either_eq number current h)
      | inr h ↦
          >>=-elim (fail_if (ltb number current) configuration_number_too_low) _ (rw h at e)
            λ u later e₁.
              >>=-elim (ok_or (get_stake_change db m.subnet_id number) stake_change_missing) _ e₁
                λ change found e₂.
                  subst (Selects m db s) (ok-injective e₂)
                    (ok_or-eq-ok _ _ found, later_number number current h (fail_if-eq-ok _ _ later))
    ]

next_checkpoint_number-IsNext : (last : Option ℕ) → IsNext last (next_checkpoint_number last)
unfolding next_checkpoint_number
next_checkpoint_number-IsNext none = refl
next_checkpoint_number-IsNext (some n) = refl

new_checkpoint-NamesNext :
    (m : IpcCheckpointSubnetMsg) (db : Db) (height : ℕ) (txid : Txid) (s : SubnetState)
    (change : Option StakeChangeRequest)
    → Selects m db s change
    → NamesNext m db s (new_checkpoint m s change height txid) change
unfolding new_checkpoint
new_checkpoint-NamesNext m db height txid s none h = (h, refl, refl)
new_checkpoint-NamesNext m db height txid s (some change) (found, later) =
    (found, later, refl, refl)

pub new_checkpoint-IsRecordOf :
    (m : IpcCheckpointSubnetMsg) (db : Db) (height : ℕ) (txid : Txid) (s : SubnetState)
    (change : Option StakeChangeRequest)
    → Selects m db s change
    → IsRecordOf m db height txid s (new_checkpoint m s change height txid)
unfolding new_checkpoint
new_checkpoint-IsRecordOf m db height txid s change h = record {
  number = next_checkpoint_number-IsNext s.last_checkpoint_number;
  hash = refl;
  checkpoint_height = refl;
  block_height = refl;
  transaction = refl;
  no_batch = (refl, refl);
  signed = refl;
  is_kill = refl;
  change = change;
  names_next = new_checkpoint-NamesNext m db height txid s change h;
}
