-- ===== src/Msg/Reachable.antt =====
-- src/ipc_lib.rs: sequences of the messages that change the validators of a running subnet.
use bitcoin_ipc.Prelude.{ℕ, ◌+◌, ◌≡◌, ◌≤◌, sym, subst, Option, arith}
use bitcoin_ipc.Result.{ok, ok_or, >>=-elim}
use bitcoin_ipc.Types.{Env, SubnetId, BlockHash, Txid}
use bitcoin_ipc.Multisig.{collateral_to_power}
use bitcoin_ipc.Subnet.{SubnetState, latest_committee}
use bitcoin_ipc.Db.{Db, get_subnet_genesis_info, get_subnet_state}
use bitcoin_ipc.Db.Numbering.{IsNumbered}
use bitcoin_ipc.Msg.Join.{IpcJoinSubnetMsg, validate_join, join_subnet, save_join}
use bitcoin_ipc.Msg.Join.Numbered.{join_bootstrapped-IsNumbered}
use bitcoin_ipc.Msg.Stake.{IpcStakeCollateralMsg, save_stake}
use bitcoin_ipc.Msg.Stake.Numbered.{save_stake-IsNumbered}
use bitcoin_ipc.Msg.Unstake.{IpcUnstakeCollateralMsg, save_unstake}
use bitcoin_ipc.Msg.Unstake.Numbered.{save_unstake-IsNumbered}

-- One accepted message for the subnet `id`.
pub data Step (env : Env) (id : SubnetId) (db db' : Db) : Type 0 where
  stake :
      (m : IpcStakeCollateralMsg) (height : ℕ) (hash : BlockHash) (txid : Txid)
      → m.subnet_id ≡ id
      → save_stake env m db height hash txid ≡ ok db'
      → Step env id db db'
  unstake :
      (m : IpcUnstakeCollateralMsg) (height : ℕ) (hash : BlockHash) (txid : Txid)
      → m.subnet_id ≡ id
      → save_unstake env m db height hash txid ≡ ok db'
      → Step env id db db'
  joining :
      (m : IpcJoinSubnetMsg) (height : ℕ) (hash : BlockHash) (txid : Txid) (o : Option SubnetState)
      → m.subnet_id ≡ id
      → save_join env m db height hash txid ≡ ok (o, db')
      → Step env id db db'

-- Any number of them, one after the other.
pub data Steps (env : Env) (id : SubnetId) : Db → Db → Type 0 where
  done : {db : Db} → Steps env id db db
  step : {db db₁ db' : Db} → Step env id db db₁ → Steps env id db₁ db' → Steps env id db db'

-- The numbering holds, and the latest committee's number is at least `n`.
unfoldable pub NumberedFrom : ℕ → SubnetId → Db → Type 0
NumberedFrom n id db =
    (s : SubnetState) × IsNumbered db id s × (n ≤ (latest_committee s).configuration_number)

save_join-IsNumbered :
    (env : Env) (m : IpcJoinSubnetMsg) (db db' : Db) (height : ℕ) (hash : BlockHash) (txid : Txid)
    (o : Option SubnetState) (s : SubnetState)
    → IsNumbered db m.subnet_id s
    → save_join env m db height hash txid ≡ ok (o, db')
    → (s' : SubnetState) × IsNumbered db' m.subnet_id s'
      × ((latest_committee s').configuration_number ≡ (latest_committee s).configuration_number + 2)
unfolding save_join join_subnet
save_join-IsNumbered env m db db' height hash txid o s h e =
    >>=-elim (ok_or (get_subnet_genesis_info db m.subnet_id) _) _ e λ g hg e₁.
      >>=-elim (validate_join m g (get_subnet_state db m.subnet_id)) _ e₁ λ u valid e₂.
        >>=-elim (collateral_to_power m.collateral _) _ e₂ λ power enough e₃.
          join_bootstrapped-IsNumbered env m db db' s _ height hash txid o h (rw h.stored at e₃)

module _ (env : Env) (id : SubnetId) (n : ℕ) where
  Step-NumberedFrom :
      {db db' : Db} → Step env id db db' → NumberedFrom n id db → NumberedFrom n id db'
  unfolding NumberedFrom
  Step-NumberedFrom {db} {db'} (stake m height hash txid e saved) (s, h, le) =
      let (s', h', next) =
        save_stake-IsNumbered env m db db' height hash txid s
          (subst (λ k. IsNumbered db k s) (sym e) h) saved in
      (s', subst (λ k. IsNumbered db' k s') e h', omega arith)
  Step-NumberedFrom {db} {db'} (unstake m height hash txid e saved) (s, h, le) =
      let (s', h', next) =
        save_unstake-IsNumbered env m db db' height hash txid s
          (subst (λ k. IsNumbered db k s) (sym e) h) saved in
      (s', subst (λ k. IsNumbered db' k s') e h', omega arith)
  Step-NumberedFrom {db} {db'} (joining m height hash txid o e saved) (s, h, le) =
      let (s', h', next) =
        save_join-IsNumbered env m db db' height hash txid o s
          (subst (λ k. IsNumbered db k s) (sym e) h) saved in
      (s', subst (λ k. IsNumbered db' k s') e h', omega arith)

  -- Whatever joins, stakes and withdrawals a running subnet accepts, in any order, its stake
  -- changes stay numbered from 1 without a gap, its latest committee has the last number, and that
  -- number does not go down.
  pub Steps-NumberedFrom :
      {db db' : Db} → Steps env id db db' → NumberedFrom n id db → NumberedFrom n id db'
  Steps-NumberedFrom done h = h
  Steps-NumberedFrom (step first rest) h = Steps-NumberedFrom rest (Step-NumberedFrom first h)
