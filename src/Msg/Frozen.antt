-- ===== src/Msg/Frozen.antt =====
-- src/ipc_lib.rs: the handlers of messages for a subnet that is killed or marked for it.
use bitcoin_ipc.Prelude.{◌≡◌, refl, true, false, not, ◌||◌, some, ◌==◌, ◌∙◌, sym, ap, subst}
use bitcoin_ipc.Result.{
  Error, Result, ok, err, ◌>>=◌, fail_if, fail_if-eq-ok, ok_or, ok_or-eq-some, >>=-elim,
}
use bitcoin_ipc.Prelude.{ℕ}
use bitcoin_ipc.Types.{Env, SubnetId, BlockHash, Txid}
use bitcoin_ipc.Subnet.{SubnetState, SubnetGenesisInfo, is_killed_or_pending}
use bitcoin_ipc.Records.{IpcFundSubnetMsg}
use bitcoin_ipc.Db.{Db, get_subnet_genesis_info, get_subnet_state}
use bitcoin_ipc.Msg.Fund.{save_fund}
use bitcoin_ipc.Msg.Join.{IpcJoinSubnetMsg, validate_join, validate_post_bootstrap, save_join}
use bitcoin_ipc.Msg.Stake.{IpcStakeCollateralMsg, validate_stake, save_stake}
use bitcoin_ipc.Msg.Unstake.{IpcUnstakeCollateralMsg, validate_unstake, save_unstake}

-- The message is refused with an error.
pub IsRefused {ℓ} : {A : Type ℓ} → Result A → Type ℓ
IsRefused r = (e : Error) × (r ≡ err e)

>>=-IsRefused {ℓ κ} :
    {A : Type ℓ} {B : Type κ} (r : Result A) (rest : A → Result B)
    → ((a : A) → r ≡ ok a → IsRefused (rest a))
    → IsRefused (r >>= rest)
unfolding IsRefused
>>=-IsRefused (ok a) rest h = h a refl
>>=-IsRefused (err e) rest h = (e, refl)

module _ (s : SubnetState) (frozen : is_killed_or_pending s ≡ true) where
  not_frozen : {A : Type 0} → is_killed_or_pending s ≡ false → A
  not_frozen h = absurd cc

  validate_stake_refuses :
      {A : Type 0} (env : Env) (m : IpcStakeCollateralMsg) {u : Unit {0}}
      → validate_stake env m s ≡ ok u
      → A
  unfolding validate_stake
  validate_stake_refuses env m e = >>=-elim (fail_if (not (s.id == m.subnet_id)) _) _ e λ a h e₁.
      >>=-elim (fail_if (is_killed_or_pending s) _) _ e₁ λ b k e₂. not_frozen (fail_if-eq-ok _ _ k)

  validate_unstake_refuses :
      {A : Type 0} (m : IpcUnstakeCollateralMsg) (g : SubnetGenesisInfo) {u : Unit {0}}
      → validate_unstake m g s ≡ ok u
      → A
  unfolding validate_unstake
  validate_unstake_refuses m g e =
      >>=-elim (fail_if (not (s.id == m.subnet_id) || not (g.subnet_id == m.subnet_id)) _) _ e
        λ a h e₁.
          >>=-elim (fail_if (is_killed_or_pending s) _) _ e₁
            λ b k e₂. not_frozen (fail_if-eq-ok _ _ k)

  validate_join_refuses :
      {A : Type 0} (m : IpcJoinSubnetMsg) (g : SubnetGenesisInfo) {u : Unit {0}}
      → validate_join m g (some s) ≡ ok u
      → A
  unfolding validate_join validate_post_bootstrap
  validate_join_refuses m g e = >>=-elim (fail_if (not (s.id == m.subnet_id)) _) _ e λ a h e₁.
      >>=-elim (fail_if (is_killed_or_pending s) _) _ e₁ λ b k e₂. not_frozen (fail_if-eq-ok _ _ k)

-- The subnet that a message names is frozen.
unfoldable pub IsFrozen : Db → SubnetId → Type 0
IsFrozen db id =
    (s : SubnetState) × (get_subnet_state db id ≡ some s) × (is_killed_or_pending s ≡ true)

still_frozen :
    (db : Db) (id : SubnetId) (x : Error) (s : SubnetState)
    → IsFrozen db id
    → ok_or (get_subnet_state db id) x ≡ ok s
    → is_killed_or_pending s ≡ true
unfolding IsFrozen
still_frozen db id x s (s₀, hs, frozen) e =
    subst (λ k. is_killed_or_pending k ≡ true) (sym (ok_or-eq-some _ _ e hs)) frozen

module _ (env : Env) (db : Db) (height : ℕ) (hash : BlockHash) (txid : Txid) where
  save_stake_frozen :
      (m : IpcStakeCollateralMsg)
      → IsFrozen db m.subnet_id
      → IsRefused (save_stake env m db height hash txid)
  unfolding save_stake
  save_stake_frozen m h = >>=-IsRefused (ok_or (get_subnet_genesis_info db m.subnet_id) _) _ λ g hg.
      >>=-IsRefused (ok_or (get_subnet_state db m.subnet_id) _) _ λ s hs.
        >>=-IsRefused (validate_stake env m s) _
          λ u valid. validate_stake_refuses s (still_frozen db m.subnet_id _ s h hs) env m valid

  save_unstake_frozen :
      (m : IpcUnstakeCollateralMsg)
      → IsFrozen db m.subnet_id
      → IsRefused (save_unstake env m db height hash txid)
  unfolding save_unstake
  save_unstake_frozen m h =
      >>=-IsRefused (ok_or (get_subnet_genesis_info db m.subnet_id) _) _ λ g hg.
        >>=-IsRefused (ok_or (get_subnet_state db m.subnet_id) _) _ λ s hs.
          >>=-IsRefused (validate_unstake m g s) _
            λ u valid. validate_unstake_refuses s (still_frozen db m.subnet_id _ s h hs) m g valid

  save_join_frozen :
      (m : IpcJoinSubnetMsg)
      → IsFrozen db m.subnet_id
      → IsRefused (save_join env m db height hash txid)
  unfolding save_join IsFrozen
  save_join_frozen m (s, hs, frozen) =
      >>=-IsRefused (ok_or (get_subnet_genesis_info db m.subnet_id) _) _ λ g hg.
        >>=-IsRefused (validate_join m g (get_subnet_state db m.subnet_id)) _
          λ u valid. validate_join_refuses s frozen m g (ap (validate_join m g) (sym hs) ∙ valid)

  save_fund_frozen :
      (m : IpcFundSubnetMsg) → IsFrozen db m.subnet_id → IsRefused (save_fund m db height hash txid)
  unfolding save_fund
  save_fund_frozen m h = >>=-IsRefused (ok_or (get_subnet_state db m.subnet_id) _) _ λ s hs.
      >>=-IsRefused (fail_if (is_killed_or_pending s) _) _
        λ u valid. not_frozen s (still_frozen db m.subnet_id _ s h hs) (fail_if-eq-ok _ _ valid)

  -- Once a subnet is killed or marked for it, a stake, a withdrawal, a join and a fund message
  -- that name it are each refused with an error.
  pub saves_frozen :
      (id : SubnetId) (stake : IpcStakeCollateralMsg) (unstake : IpcUnstakeCollateralMsg)
      (joining : IpcJoinSubnetMsg) (fund : IpcFundSubnetMsg)
      → IsFrozen db id
      → stake.subnet_id ≡ id
      → unstake.subnet_id ≡ id
      → joining.subnet_id ≡ id
      → fund.subnet_id ≡ id
      → IsRefused (save_stake env stake db height hash txid)
        × IsRefused (save_unstake env unstake db height hash txid)
        × IsRefused (save_join env joining db height hash txid)
        × IsRefused (save_fund fund db height hash txid)
  saves_frozen id stake unstake joining fund h a b c d = (
    save_stake_frozen stake (subst (IsFrozen db) (sym a) h),
    save_unstake_frozen unstake (subst (IsFrozen db) (sym b) h),
    save_join_frozen joining (subst (IsFrozen db) (sym c) h),
    save_fund_frozen fund (subst (IsFrozen db) (sym d) h),
  )
