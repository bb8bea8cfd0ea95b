-- ===== src/Msg/Join/Bootstrap.antt =====
-- src/ipc_lib.rs: what `IpcJoinSubnetMsg::save_to_db` writes when a subnet comes to life.
use bitcoin_ipc.Prelude.{ℕ, ◌≡◌, refl, true, none, some, [], ◌∷◌, ◌++◌, arith}
use bitcoin_ipc.Result.{ok}
use bitcoin_ipc.Types.{Env, SubnetId, Address}
use bitcoin_ipc.Table.{get-put}
use bitcoin_ipc.Committee.{SubnetValidator, threshold, to_committee, multisig_address}
use bitcoin_ipc.Subnet.{
  SubnetState, SubnetGenesisInfo, enough_to_bootstrap, to_subnet, not_killed,
  genesis_committee_conf_num,
}
use bitcoin_ipc.Db.{
  Db, get_subnet_state, save_subnet_state, get_committee, save_committee, get_subnet_genesis_info,
  save_subnet_genesis_info,
}
use bitcoin_ipc.Msg.Join.{IpcJoinSubnetMsg, join_genesis}

-- The genesis info with one validator more.
abbrev pub with_validator : SubnetGenesisInfo → SubnetValidator → SubnetGenesisInfo
with_validator g v = record g { genesis_validators = g.genesis_validators ++ v ∷ [] }

-- The database of a subnet that came to life: its state has the genesis validators in a first
-- committee, stored under its number, and its genesis info says so.
pub record IsBootstrapped (id : SubnetId) (g : SubnetGenesisInfo) (height : ℕ) (db' : Db)
    (s : SubnetState) : Type 0 where
  pub state : get_subnet_state db' id ≡ some s
  pub committee : get_committee db' id s.committee_number ≡ some s.committee
  pub info :
      get_subnet_genesis_info db' id
      ≡ some (record g { bootstrapped = true; genesis_block_height = some height })
  pub validators : s.committee.validators ≡ g.genesis_validators
  pub configuration : s.committee.configuration_number ≡ genesis_committee_conf_num
  pub first : s.committee_number ≡ 1
  pub alive : s.killed ≡ not_killed

module _ (env : Env) (g : SubnetGenesisInfo) (a : Address) where
  -- The state that `to_subnet` makes once the committee has the address `a`.
  genesis_state : SubnetState
  genesis_state = record {
    id = g.subnet_id;
    committee_number = 1;
    committee = record {
      configuration_number = genesis_committee_conf_num;
      threshold = threshold g.genesis_validators;
      validators = g.genesis_validators;
      multisig_address = a;
    };
    waiting_committee = none;
    last_checkpoint_number = none;
    killed = not_killed;
    marked_for_kill_checkpoint_number = none;
  }

  to_subnet-genesis_state :
      multisig_address env g.subnet_id g.genesis_validators ≡ ok a
      → to_subnet env g ≡ ok genesis_state
  unfolding to_subnet to_committee genesis_state
  to_subnet-genesis_state h = rw h refl

-- The join that makes the genesis validators as many as the subnet asks for brings it to life,
-- if their multisig address can be made: the state of the new subnet comes back and is stored.
pub join_genesis_bootstraps :
    (env : Env) (m : IpcJoinSubnetMsg) (db : Db) (g : SubnetGenesisInfo) (v : SubnetValidator)
    (height : ℕ) (a : Address)
    → enough_to_bootstrap (with_validator g v) ≡ true
    → multisig_address env g.subnet_id (g.genesis_validators ++ v ∷ []) ≡ ok a
    → (s : SubnetState) × (db' : Db) × (join_genesis env m db g v height ≡ ok (some s, db'))
      × IsBootstrapped m.subnet_id (with_validator g v) height db' s
unfolding join_genesis genesis_state get_subnet_state get_committee get_subnet_genesis_info
    save_subnet_state save_committee save_subnet_genesis_info
join_genesis_bootstraps env m db g v height a enough address =
    let info : SubnetGenesisInfo = record (with_validator g v) {
      bootstrapped = true;
      genesis_block_height = some height;
    } in
    (
      genesis_state env info a,
      save_committee
          (save_subnet_genesis_info (save_subnet_state db m.subnet_id (genesis_state env info a))
            m.subnet_id info)
          m.subnet_id 1 (genesis_state env info a).committee,
      rw (enough, to_subnet-genesis_state env info a address) refl,
      record {
        state =
            ground (arith, get-put m.subnet_id m.subnet_id (genesis_state env info a) db.subnets);
        committee = ground arith;
        info = ground arith;
        validators = refl;
        configuration = refl;
        first = refl;
        alive = refl;
      },
    )
