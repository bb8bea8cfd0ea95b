-- ===== src/Msg/Unstake/LastValidator.antt =====
-- src/ipc_lib.rs: the withdrawal of everything by the only validator of a committee.
use bitcoin_ipc.Prelude.{ℕ, ◌≡◌, Bool, not, some, [], ◌∷◌, arith, ltb}
use bitcoin_ipc.Result.{ok, err, panic}
use bitcoin_ipc.Types.{Env, BlockHash, Txid, Amount}
use bitcoin_ipc.Multisig.{collateral_to_power}
use bitcoin_ipc.Committee.{SubnetValidator}
use bitcoin_ipc.Committee.Panic.{remove_member_last}
use bitcoin_ipc.Subnet.{SubnetState, SubnetGenesisInfo, latest_committee}
use bitcoin_ipc.Db.{Db, get_subnet_genesis_info, get_subnet_state}
use bitcoin_ipc.Msg.Stake.{find_validator}
use bitcoin_ipc.Msg.Unstake.{
  IpcUnstakeCollateralMsg, checked_sub, participation, remaining_power, validate_unstake,
  after_unstake, save_unstake,
}

-- With no collateral left there is no power left.
remaining_power-zero : (min_stake : Amount) → (b : Bool) × (remaining_power 0 min_stake ≡ ok (0, b))
unfolding remaining_power participation collateral_to_power
remaining_power-zero min_stake = (not (ltb 0 min_stake), ground arith)

checked_sub_self : (a : ℕ) → checked_sub a a ≡ some 0
checked_sub_self a = ground arith

find_validator_only :
    (env : Env) (s : SubnetState) (v : SubnetValidator)
    → (latest_committee s).validators ≡ v ∷ []
    → find_validator v.pubkey (latest_committee s) ≡ some v
unfolding find_validator
find_validator_only env s v only = rw only (ground arith)

-- The only validator of the latest committee sends a valid request to withdraw all of its
-- collateral: processing it panics, whatever the rest of the state.
pub save_unstake_last_validator :
    (env : Env) (m : IpcUnstakeCollateralMsg) (db : Db) (height : ℕ) (hash : BlockHash)
    (txid : Txid) (g : SubnetGenesisInfo) (s : SubnetState) (v : SubnetValidator)
    → get_subnet_genesis_info db m.subnet_id ≡ some g
    → get_subnet_state db m.subnet_id ≡ some s
    → (latest_committee s).validators ≡ v ∷ []
    → m.pubkey ≡ some v.pubkey
    → m.amount ≡ v.collateral
    → validate_unstake m g s ≡ ok tt
    → save_unstake env m db height hash txid ≡ err panic
unfolding save_unstake after_unstake
save_unstake_last_validator env m db height hash txid g s v hg hs only key all valid =
    let (b, left) = remaining_power-zero g.create_subnet_msg.min_validator_stake in
    rw (hg, hs, valid, key, find_validator_only env s v only, all)
      (rw checked_sub_self
        (rw left (rw (remove_member_last env m.subnet_id (latest_committee s) v only))))
