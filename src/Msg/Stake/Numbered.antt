-- ===== src/Msg/Stake/Numbered.antt =====
-- src/ipc_lib.rs: the number that `IpcStakeCollateralMsg::save_to_db` gives its stake change.
use bitcoin_ipc.Prelude.{ℕ, ◌+◌, ◌≡◌, refl}
use bitcoin_ipc.Result.{ok-injective, ok_or-eq-some, ok, ok_or, >>=-elim}
use bitcoin_ipc.Types.{Env, BlockHash, Txid}
use bitcoin_ipc.Multisig.{collateral_to_power}
use bitcoin_ipc.Committee.{modify_validator}
use bitcoin_ipc.Committee.Numbers.{number-modify_validator}
use bitcoin_ipc.Subnet.{SubnetState, latest_committee}
use bitcoin_ipc.Db.{Db, get_subnet_genesis_info, get_subnet_state}
use bitcoin_ipc.Db.Numbering.{IsNumbered, saved-IsNumbered}
use bitcoin_ipc.Msg.Stake.{
  IpcStakeCollateralMsg, validate_stake, find_validator, stake_change, save_stake,
}

-- A stake that is saved adds one stake change under the next number, and the latest committee of
-- the state that it saves has that number.
pub save_stake-IsNumbered :
    (env : Env) (m : IpcStakeCollateralMsg) (db db' : Db) (height : ℕ) (hash : BlockHash)
    (txid : Txid) (s : SubnetState)
    → IsNumbered db m.subnet_id s
    → save_stake env m db height hash txid ≡ ok db'
    → (s' : SubnetState) × IsNumbered db' m.subnet_id s'
      × ((latest_committee s').configuration_number ≡ (latest_committee s).configuration_number + 1)
unfolding save_stake stake_change
save_stake-IsNumbered env m db db' height hash txid s h e =
    >>=-elim (ok_or (get_subnet_genesis_info db m.subnet_id) _) _ e λ g hg e₁.
      >>=-elim (ok_or (get_subnet_state db m.subnet_id) _) _ e₁ λ s₁ hs e₂.
        >>=-elim (validate_stake env m s₁) _ e₂ λ u valid e₃.
          >>=-elim (ok_or (find_validator m.pubkey (latest_committee s₁)) _) _ e₃ λ v found e₄.
            >>=-elim (collateral_to_power (m.amount + v.collateral) _) _ e₄ λ power enough e₅.
              >>=-elim (modify_validator env (latest_committee s₁) m.subnet_id _) _ e₅
                λ next modified e₆.
                  saved-IsNumbered _ next h
                    (number-modify_validator env m.subnet_id (latest_committee s₁) next _ modified)
                    (ok_or-eq-some (get_subnet_state db m.subnet_id) _ hs h.stored)
                    (ok-injective e₆) refl
