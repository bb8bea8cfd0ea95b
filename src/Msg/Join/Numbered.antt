-- ===== src/Msg/Join/Numbered.antt =====
-- src/ipc_lib.rs: the numbers that `IpcJoinSubnetMsg::save_to_db` gives its two stake changes.
use bitcoin_ipc.Prelude.{ℕ, ◌+◌, ◌≡◌, sym, ap, subst, subst₂, Option, some, arith}
use bitcoin_ipc.Result.{ok, fail_if, >>=-elim, ok-injective}
use bitcoin_ipc.Types.{Env, SubnetId, BlockHash, Txid}
use bitcoin_ipc.Table.{put, IsDense, put-IsDense, get-put}
use bitcoin_ipc.Committee.{SubnetValidator, is_validator, join_new_validator}
use bitcoin_ipc.Committee.Numbers.{number-join_new_validator}
use bitcoin_ipc.Subnet.{SubnetState, latest_committee}
use bitcoin_ipc.Records.{StakeChangeRequest}
use bitcoin_ipc.Db.{Db, get_subnet_state, save_subnet_state}
use bitcoin_ipc.Db.StakeChanges.{add_stake_change}
use bitcoin_ipc.Db.Numbering.{IsNumbered, next_number}
use bitcoin_ipc.Msg.Join.{IpcJoinSubnetMsg, join_change, join_bootstrapped}

-- Two stake changes under the next two numbers.
module _ (db : Db) (id : SubnetId) (s' : SubnetState) (c d : StakeChangeRequest) where
  both : Db
  both = add_stake_change (add_stake_change (save_subnet_state db id s') id c) id d

  stored-both : get_subnet_state both id ≡ some s'
  unfolding both get_subnet_state add_stake_change save_subnet_state
  stored-both = ground (arith, get-put id id s' db.subnets)

  changes-both :
      both.stake_changes id
      ≡ put d.configuration_number d (put c.configuration_number c (db.stake_changes id))
  unfolding both add_stake_change save_subnet_state
  changes-both = ground arith

  put_twice-IsDense :
      (n : ℕ)
      → IsDense 1 n (db.stake_changes id)
      → c.configuration_number ≡ 1 + n
      → d.configuration_number ≡ 2 + n
      → IsDense 1 (n + 2) (both.stake_changes id)
  put_twice-IsDense n dense first second =
      let plus : n + 1 + 1 ≡ n + 2 = omega arith in
      let next : 1 + (n + 1) ≡ d.configuration_number = omega arith in
      subst (IsDense 1 (n + 2)) (sym changes-both) (
        subst₂ (λ k j. IsDense 1 k (put j d (put c.configuration_number c (db.stake_changes id))))
          plus next
          (put-IsDense 1 (n + 1) d _ (
            subst (λ k. IsDense 1 (n + 1) (put k c (db.stake_changes id))) (sym first)
              (put-IsDense 1 n c (db.stake_changes id) dense))))

  both-IsNumbered :
      (n : ℕ)
      → IsDense 1 n (db.stake_changes id)
      → c.configuration_number ≡ 1 + n
      → d.configuration_number ≡ 2 + n
      → (latest_committee s').configuration_number ≡ n + 2
      → IsNumbered both id s'
  both-IsNumbered n dense first second latest = record {
    stored = stored-both;
    dense =
        subst (λ k. IsDense 1 k (both.stake_changes id)) (sym latest)
          (put_twice-IsDense n dense first second);
  }

-- A join of a bootstrapped subnet that is saved adds two stake changes, for the key and for the
-- deposit, under the next two numbers, and the latest committee of the state that it saves has
-- the second one.
pub join_bootstrapped-IsNumbered :
    (env : Env) (m : IpcJoinSubnetMsg) (db db' : Db) (s : SubnetState) (v : SubnetValidator)
    (height : ℕ) (hash : BlockHash) (txid : Txid) (o : Option SubnetState)
    → IsNumbered db m.subnet_id s
    → join_bootstrapped env m db s v height hash txid ≡ ok (o, db')
    → (s' : SubnetState) × IsNumbered db' m.subnet_id s'
      × ((latest_committee s').configuration_number ≡ (latest_committee s).configuration_number + 2)
unfolding join_bootstrapped join_change both latest_committee
join_bootstrapped-IsNumbered env m db db' s v height hash txid o h e =
    >>=-elim (fail_if (is_validator s.committee m.pubkey) _) _ e λ u old e₁.
      >>=-elim (fail_if (is_validator (latest_committee s) m.pubkey) _) _ e₁ λ u₁ new e₂.
        >>=-elim (join_new_validator env (latest_committee s) s.id v) _ e₂ λ next joined e₃.
          let step = number-join_new_validator env s.id (latest_committee s) next v joined in
          let first = next_number db m.subnet_id s h in
          (
            record s { waiting_committee = some next },
            subst (λ d. IsNumbered d m.subnet_id (record s { waiting_committee = some next }))
                (ap (λ p. p.1) (ok-injective e₃))
                (both-IsNumbered db m.subnet_id _ _ _ (latest_committee s).configuration_number
                  h.dense first (omega arith) step),
            step,
          )
