-- ===== src/Msg/Unstake/Numbered.antt =====
-- src/ipc_lib.rs: the number that `IpcUnstakeCollateralMsg::save_to_db` gives its stake change.
use bitcoin_ipc.Prelude.{ℕ, ◌+◌, ◌≡◌, refl, Bool, true, false, not, ◌||◌, ◌==◌, if◌then◌else◌}
use bitcoin_ipc.Result.{ok, ok_or, >>=-elim, ok-injective}
use bitcoin_ipc.Types.{Env, SubnetId, XOnlyPublicKey, BlockHash, Txid, Power}
use bitcoin_ipc.Committee.{SubnetValidator, SubnetCommittee, modify_validator, remove_member}
use bitcoin_ipc.Committee.Numbers.{number-modify_validator, number-remove_member}
use bitcoin_ipc.Subnet.{SubnetState, latest_committee}
use bitcoin_ipc.Db.{Db, get_subnet_genesis_info}
use bitcoin_ipc.Db.Numbering.{IsNumbered, saved-IsNumbered}
use bitcoin_ipc.Msg.Stake.{find_validator, stake_change}
use bitcoin_ipc.Msg.Unstake.{
  IpcUnstakeCollateralMsg, checked_sub, remaining_power, validate_unstake, after_unstake,
  save_unstake,
}

module _ (env : Env) (id : SubnetId) (c : SubnetCommittee) (v : SubnetValidator)
    (key : XOnlyPublicKey) (next : SubnetCommittee) where
  number-if :
      (b : Bool)
      → (if b then remove_member env c id key else modify_validator env c id v) ≡ ok next
      → next.configuration_number ≡ c.configuration_number + 1
  number-if true e = number-remove_member env id c next key e
  number-if false e = number-modify_validator env id c next v e

  number-after_unstake :
      (rest : Power × Bool)
      → after_unstake env id c v key rest ≡ ok next
      → next.configuration_number ≡ c.configuration_number + 1
  unfolding after_unstake
  number-after_unstake rest e = number-if (rest.0 == 0 || not rest.1) e

-- A withdrawal that is saved adds one stake change under the next number, and the latest
-- committee of the state that it saves, without the validator or with what it keeps, has that
-- number.
pub save_unstake-IsNumbered :
    (env : Env) (m : IpcUnstakeCollateralMsg) (db db' : Db) (height : ℕ) (hash : BlockHash)
    (txid : Txid) (s : SubnetState)
    → IsNumbered db m.subnet_id s
    → save_unstake env m db height hash txid ≡ ok db'
    → (s' : SubnetState) × IsNumbered db' m.subnet_id s'
      × ((latest_committee s').configuration_number ≡ (latest_committee s).configuration_number + 1)
unfolding save_unstake stake_change
save_unstake-IsNumbered env m db db' height hash txid s h e =
    >>=-elim (ok_or (get_subnet_genesis_info db m.subnet_id) _) _ e λ g hg e₁.
      >>=-elim (validate_unstake m g s) _ (rw h.stored at e₁) λ u valid e₂.
        >>=-elim (ok_or m.pubkey _) _ e₂ λ key hk e₃.
          >>=-elim (ok_or (find_validator key (latest_committee s)) _) _ e₃ λ v found e₄.
            >>=-elim (ok_or (checked_sub v.collateral m.amount) _) _ e₄ λ left hl e₅.
              >>=-elim (remaining_power left _) _ e₅ λ rest hr e₆.
                >>=-elim (after_unstake env m.subnet_id (latest_committee s) _ key rest) _ e₆
                  λ next after e₇.
                    saved-IsNumbered _ next h
                      (number-after_unstake env m.subnet_id (latest_committee s) _ key next rest
                        after)
                      refl (ok-injective e₇) refl
