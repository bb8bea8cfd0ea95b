-- ===== src/Msg/Checkpoint/Recorded.antt =====
-- src/ipc_lib.rs: the record, its number and the state after a checkpoint.
use bitcoin_ipc.Prelude.{ℕ, ◌≡◌, refl, subst, ◌&&◌, Option, none, some, arith, ◌==◌, if◌then◌else◌}
use bitcoin_ipc.Result.{ok, >>=-elim, ok-injective}
use bitcoin_ipc.Types.{BlockHash, Txid}
use bitcoin_ipc.Table.{get-put}
use bitcoin_ipc.Subnet.{SubnetState, killed_at, rotate_to_committee}
use bitcoin_ipc.Records.{SubnetCheckpoint, StakeChangeRequest}
use bitcoin_ipc.Db.{
  Db, get_subnet_state, save_subnet_state, get_checkpoint, save_checkpoint, save_committee,
}
use bitcoin_ipc.Db.StakeChanges.{confirm_stake_changes}
use bitcoin_ipc.Msg.Checkpoint.Described.{
  IsRecordOf, selected_change-Selects, new_checkpoint-IsRecordOf,
}
use bitcoin_ipc.Msg.Checkpoint.{
  IpcCheckpointSubnetMsg, selected_change, new_checkpoint, checkpointed_state, save_rotation,
  save_checkpoint_msg,
}

-- The state that a checkpoint leaves.
pub record IsCheckpointed (m : IpcCheckpointSubnetMsg) (height : ℕ) (c : SubnetCheckpoint)
    (s s' : SubnetState) : Type 0 where
  pub last : s'.last_checkpoint_number ≡ some c.checkpoint_number
  pub killed : s'.killed ≡ (if m.is_kill_checkpoint then killed_at height else s.killed)
  pub same_id : s'.id ≡ s.id

module _ (m : IpcCheckpointSubnetMsg) (height : ℕ) (hash : BlockHash) (txid : Txid)
    (s : SubnetState) where
  subnets-save_rotation :
      (db : Db) (number : ℕ) (change : Option StakeChangeRequest)
      → (save_rotation m db number change height hash).subnets ≡ db.subnets
  unfolding save_rotation save_committee confirm_stake_changes
  subnets-save_rotation db number none = refl
  subnets-save_rotation db number (some change) = refl

  checkpoints-save_rotation :
      (db : Db) (number : ℕ) (change : Option StakeChangeRequest)
      → (save_rotation m db number change height hash).checkpoints ≡ db.checkpoints
  unfolding save_rotation save_committee confirm_stake_changes
  checkpoints-save_rotation db number none = refl
  checkpoints-save_rotation db number (some change) = refl

  checkpointed_state-IsCheckpointed :
      (change : Option StakeChangeRequest)
      → IsCheckpointed m height
          (new_checkpoint m s change height txid)
          s
          (checkpointed_state m s change height)
  unfolding checkpointed_state new_checkpoint rotate_to_committee
  checkpointed_state-IsCheckpointed none = record {
    last = ground arith;
    killed = ground arith;
    same_id = ground arith;
  }
  checkpointed_state-IsCheckpointed (some change) = record {
    last = ground arith;
    killed = ground arith;
    same_id = ground arith;
  }

  unfoldable pub Recorded : Db → SubnetCheckpoint → Db → Type 0
  Recorded db c db' =
      (s' : SubnetState) × (get_subnet_state db' m.subnet_id ≡ some s')
      × IsCheckpointed m height c s s'
      × ((id n : ℕ)
          → get_checkpoint db' id n ≡ (
              if m.subnet_id == id && c.checkpoint_number == n
              then some c
              else get_checkpoint db id n))

  recorded :
      (db : Db) (change : Option StakeChangeRequest) (number : ℕ)
      → (let c = new_checkpoint m s change height txid in
          Recorded db c (
            save_rotation m
              (save_checkpoint
                (save_subnet_state db m.subnet_id (checkpointed_state m s change height))
                m.subnet_id
                c
                c.checkpoint_number)
              number
              change
              height
              hash))
  unfolding Recorded get_subnet_state get_checkpoint save_checkpoint save_subnet_state
  recorded db change number =
      let c = new_checkpoint m s change height txid in
      (
        checkpointed_state m s change height,
        rw subnets-save_rotation (
            ground (
              arith,
              get-put m.subnet_id m.subnet_id (checkpointed_state m s change height) db.subnets,
            )),
        checkpointed_state-IsCheckpointed change,
        λ id n. rw checkpoints-save_rotation (ground arith),
      )

-- A checkpoint that is accepted is recorded as the message describes it: with its hash, its height
-- and its kill mark, the transaction and its height, no batch, and the committee that was current as
-- the one that signed it; the next committee is the current one, or that of a stored stake change
-- with a later configuration number, if the message names one. The record is stored for the subnet
-- under the number that follows the last one, from 0, and every other number and subnet keeps its
-- record. The state that is saved has that number as its last one, and is killed at this height if
-- the checkpoint is a kill checkpoint and only then.
pub save_checkpoint_msg-Recorded :
    (m : IpcCheckpointSubnetMsg) (db db' : Db) (height : ℕ) (hash : BlockHash) (txid : Txid)
    (s : SubnetState) (c : SubnetCheckpoint)
    → get_subnet_state db m.subnet_id ≡ some s
    → save_checkpoint_msg m db height hash txid ≡ ok (c, db')
    → IsRecordOf m db height txid s c × Recorded m height hash txid s db c db'
unfolding save_checkpoint_msg
save_checkpoint_msg-Recorded m db db' height hash txid s c hs e =
    >>=-elim (selected_change m db s) _ (rw hs at e) λ change selected e₁.
      subst (λ p. IsRecordOf m db height txid s p.0 × Recorded m height hash txid s db p.0 p.1)
        (ok-injective e₁)
        (
          new_checkpoint-IsRecordOf m db height txid s change
              (selected_change-Selects m db s selected),
          recorded m height hash txid s db change _,
        )
