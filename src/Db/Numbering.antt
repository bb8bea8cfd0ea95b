-- ===== src/Db/Numbering.antt =====
-- src/db.rs: the numbering of the stake changes of a subnet, which the source requires to match
-- the one of the IPC contract.
use bitcoin_ipc.Prelude.{subst, sym, subst₂, ap, ◌∙◌, ℕ, ◌+◌, ◌≡◌, some, arith}
use bitcoin_ipc.Types.{SubnetId}
use bitcoin_ipc.Table.{put, IsDense, put-IsDense, get-put}
use bitcoin_ipc.Committee.{SubnetCommittee}
use bitcoin_ipc.Subnet.{SubnetState, latest_committee}
use bitcoin_ipc.Records.{StakeChangeRequest}
use bitcoin_ipc.Db.{Db, get_subnet_state, save_subnet_state}
use bitcoin_ipc.Db.StakeChanges.{get_next_stake_change_configuration_number, add_stake_change}

pub record IsNumbered (db : Db) (id : SubnetId) (s : SubnetState) : Type 0 where
  pub stored : get_subnet_state db id ≡ some s
  pub dense : IsDense 1 (latest_committee s).configuration_number (db.stake_changes id)

-- The next number is one past the number of the latest committee.
pub next_number :
    (db : Db) (id : SubnetId) (s : SubnetState)
    → IsNumbered db id s
    → get_next_stake_change_configuration_number db id
      ≡ 1 + (latest_committee s).configuration_number
unfolding get_next_stake_change_configuration_number
next_number db id s h = let sized = h.dense.sized in ground arith

module _ (db : Db) (id : SubnetId) (s' : SubnetState) (c : StakeChangeRequest) where
  stored-add_stake_change :
      get_subnet_state (add_stake_change (save_subnet_state db id s') id c) id ≡ some s'
  unfolding get_subnet_state add_stake_change save_subnet_state
  stored-add_stake_change = ground (arith, get-put id id s' db.subnets)

  changes-add_stake_change :
      (add_stake_change (save_subnet_state db id s') id c).stake_changes id
      ≡ put c.configuration_number c (db.stake_changes id)
  unfolding add_stake_change save_subnet_state
  changes-add_stake_change = ground arith

  -- A change with the next number, beside a state whose latest committee has that number.
  pub add_stake_change-IsNumbered :
      (n : ℕ)
      → IsDense 1 n (db.stake_changes id)
      → c.configuration_number ≡ 1 + n
      → (latest_committee s').configuration_number ≡ n + 1
      → IsNumbered (add_stake_change (save_subnet_state db id s') id c) id s'
  add_stake_change-IsNumbered n dense number latest = record {
    stored = stored-add_stake_change;
    dense =
        subst₂ (λ k t. IsDense 1 k t) (sym latest) (sym changes-add_stake_change)
          (subst (λ k. IsDense 1 (n + 1) (put k c (db.stake_changes id))) (sym number)
            (put-IsDense 1 n c (db.stake_changes id) dense));
  }

-- The state and the stake change that a change of one validator writes.
pub saved-IsNumbered :
    {db db' : Db} {id : SubnetId} {s s₁ : SubnetState} (c : StakeChangeRequest)
    (next : SubnetCommittee)
    → IsNumbered db id s
    → next.configuration_number ≡ (latest_committee s₁).configuration_number + 1
    → s₁ ≡ s
    → add_stake_change (save_subnet_state db id (record s₁ { waiting_committee = some next })) id c
      ≡ db'
    → c.configuration_number ≡ get_next_stake_change_configuration_number db id
    → (s' : SubnetState) × IsNumbered db' id s'
      × ((latest_committee s').configuration_number ≡ (latest_committee s).configuration_number + 1)
unfolding latest_committee
saved-IsNumbered {db} {db'} {id} {s} {s₁} c next h step same saved number =
    let n = (latest_committee s).configuration_number in
    let latest : next.configuration_number ≡ n + 1 =
      step ∙ ap (λ k. (latest_committee k).configuration_number + 1) same in
    (
      record s₁ { waiting_committee = some next },
      subst (λ d. IsNumbered d id (record s₁ { waiting_committee = some next })) saved
          (add_stake_change-IsNumbered db id _ c n h.dense (number ∙ next_number db id s h) latest),
      latest,
    )
