-- ===== src/Msg/Checkpoint/Rotation.antt =====
-- src/ipc_lib.rs: the committee after a checkpoint that names a stake change.
use bitcoin_ipc.Prelude.{ℕ, ◌+◌, ◌≡◌, refl, true, false, some, arith}
use bitcoin_ipc.Result.{ok}
use bitcoin_ipc.Types.{BlockHash, Txid}
use bitcoin_ipc.Table.{get-put}
use bitcoin_ipc.Committee.{same_committee}
use bitcoin_ipc.Subnet.{SubnetState, rotate_to_committee}
use bitcoin_ipc.Records.{SubnetCheckpoint, StakeChangeRequest}
use bitcoin_ipc.Db.{
  Db, get_subnet_state, save_subnet_state, get_committee, save_checkpoint, save_committee,
}
use bitcoin_ipc.Db.StakeChanges.{confirm_stake_changes}
use bitcoin_ipc.Msg.Checkpoint.{
  IpcCheckpointSubnetMsg, selected_change, next_numbers, new_checkpoint, checkpointed_state,
  save_rotation, save_checkpoint_msg,
}

-- The committee of the change is current, and stored, under the number that the checkpoint names.
pub record IsRotated (m : IpcCheckpointSubnetMsg) (change : StakeChangeRequest)
    (c : SubnetCheckpoint) (db' : Db) (s' : SubnetState) : Type 0 where
  pub committee : s'.committee ≡ change.committee_after_change
  pub number : s'.committee_number ≡ c.next_committee_number
  pub stored :
      get_committee db' m.subnet_id c.next_committee_number ≡ some change.committee_after_change

-- The committee stays, and so does its number; the checkpoint names the number after it.
pub record IsSkipped (s : SubnetState) (c : SubnetCheckpoint) (s' : SubnetState) : Type 0 where
  pub committee : s'.committee ≡ s.committee
  pub number : s'.committee_number ≡ s.committee_number
  pub named : c.next_committee_number ≡ s.committee_number + 1

module _ (m : IpcCheckpointSubnetMsg) (height : ℕ) (hash : BlockHash) (txid : Txid)
    (s : SubnetState) (change : StakeChangeRequest) where
  written : Db → SubnetCheckpoint × Db
  written db =
      let c = new_checkpoint m s (some change) height txid in
      (
        c,
        save_rotation m
            (save_checkpoint
              (save_subnet_state db m.subnet_id (checkpointed_state m s (some change) height))
              m.subnet_id c c.checkpoint_number)
            (next_numbers s (some change)).0 (some change) height hash,
      )

  written_state :
      (db : Db)
      → get_subnet_state (written db).1 m.subnet_id
        ≡ some (checkpointed_state m s (some change) height)
  unfolding written get_subnet_state save_checkpoint save_subnet_state save_rotation save_committee
      confirm_stake_changes
  written_state db = ground (
    arith,
    get-put m.subnet_id m.subnet_id (checkpointed_state m s (some change) height) db.subnets,
  )

  written-IsRotated :
      (db : Db)
      → same_committee s.committee change.committee_after_change ≡ false
      → IsRotated m change
          (written db).0
          (written db).1
          (checkpointed_state m s (some change) height)
  unfolding written new_checkpoint next_numbers get_committee save_checkpoint save_subnet_state
      save_rotation save_committee confirm_stake_changes checkpointed_state rotate_to_committee
      same_committee
  written-IsRotated db other = record {
    committee = ground arith;
    number = ground arith;
    stored = ground arith;
  }

  written-IsSkipped :
      (db : Db)
      → same_committee s.committee change.committee_after_change ≡ true
      → IsSkipped s (written db).0 (checkpointed_state m s (some change) height)
  unfolding written new_checkpoint next_numbers checkpointed_state rotate_to_committee
      same_committee
  written-IsSkipped db same = record {
    committee = ground arith;
    number = ground arith;
    named = ground arith;
  }

  save_checkpoint_msg-written :
      (db : Db)
      → get_subnet_state db m.subnet_id ≡ some s
      → selected_change m db s ≡ ok (some change)
      → save_checkpoint_msg m db height hash txid ≡ ok (written db)
  unfolding save_checkpoint_msg written
  save_checkpoint_msg-written db hs selected = rw (hs, selected) refl

-- A checkpoint that names a stored stake change whose committee has another address than the
-- current one is accepted, and makes that committee current, stored under the number that the
-- checkpoint record names as the next committee's.
pub save_checkpoint_msg_rotates :
    (m : IpcCheckpointSubnetMsg) (db : Db) (height : ℕ) (hash : BlockHash) (txid : Txid)
    (s : SubnetState) (change : StakeChangeRequest)
    → get_subnet_state db m.subnet_id ≡ some s
    → selected_change m db s ≡ ok (some change)
    → same_committee s.committee change.committee_after_change ≡ false
    → (c : SubnetCheckpoint) × (db' : Db) × (s' : SubnetState) × (save_checkpoint_msg m db height
          hash txid
        ≡ ok (c, db'))
      × (get_subnet_state db' m.subnet_id ≡ some s')
      × IsRotated m change c db' s'
save_checkpoint_msg_rotates m db height hash txid s change hs selected other = (
  _,
  _,
  _,
  save_checkpoint_msg-written m height hash txid s change db hs selected,
  written_state m height hash txid s change db,
  written-IsRotated m height hash txid s change db other,
)

-- If the committee of the named change has the address of the current one, as after a change of
-- collateral that changes no power, then the checkpoint is accepted and the record names the number
-- after the current committee's as the next committee's, but the state keeps its committee, with the
-- old configuration, and its number.
pub save_checkpoint_msg_skips :
    (m : IpcCheckpointSubnetMsg) (db : Db) (height : ℕ) (hash : BlockHash) (txid : Txid)
    (s : SubnetState) (change : StakeChangeRequest)
    → get_subnet_state db m.subnet_id ≡ some s
    → selected_change m db s ≡ ok (some change)
    → same_committee s.committee change.committee_after_change ≡ true
    → (c : SubnetCheckpoint) × (db' : Db) × (s' : SubnetState) × (save_checkpoint_msg m db height
          hash txid
        ≡ ok (c, db'))
      × (get_subnet_state db' m.subnet_id ≡ some s')
      × IsSkipped s c s'
save_checkpoint_msg_skips m db height hash txid s change hs selected same = (
  _,
  _,
  _,
  save_checkpoint_msg-written m height hash txid s change db hs selected,
  written_state m height hash txid s change db,
  written-IsSkipped m height hash txid s change db same,
)
