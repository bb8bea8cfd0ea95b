-- ===== src/Msg/Kill/Majority.antt =====
-- src/ipc_lib.rs: what `IpcKillSubnetMsg::save_to_db` makes of the state of its subnet.
use bitcoin_ipc.Prelude.{
  ℕ, ◌+◌, ◌%◌, ◌≤◌, ◌<◌, ◌≡◌, refl, ◌∙◌, sym, ap, subst, Bool, true, false, some, [], ◌∷◌, ◌++◌,
  arith, ◌⊎◌, inl, inr, any, leb, leb→le, leb_false→lt, ◌==◌, if◌then◌else◌,
}
use bitcoin_ipc.Result.{ok, fail_if, fail_if-eq-ok, ok_or, >>=-elim, ok-injective, ok_or-eq-ok}
use bitcoin_ipc.Types.{Env, SubnetId, XOnlyPublicKey, BlockHash, Txid, Power, u32_mod}
use bitcoin_ipc.Table.{get-put}
use bitcoin_ipc.Multisig.{multisig_threshold}
use bitcoin_ipc.Committee.{SubnetValidator, total_power}
use bitcoin_ipc.Subnet.{
  SubnetState, SubnetKillState, not_killed, to_be_killed, killed_at, is_not_killed,
  latest_committee,
}
use bitcoin_ipc.Records.{KillRequest}
use bitcoin_ipc.Db.{Db, get_subnet_genesis_info, get_subnet_state, save_subnet_state}
use bitcoin_ipc.Db.KillRequests.{add_kill_request, get_valid_kill_requests}
use bitcoin_ipc.Msg.Stake.{find_validator}
use bitcoin_ipc.Msg.Kill.{
  IpcKillSubnetMsg, validate_kill, or_else, mark_for_kill, save_marked, majority_reached, save_kill,
  kill_request,
}
use bitcoin_ipc.Msg.Kill.Requests.{
  requested, valid_requests, get_valid_kill_requests-eq, kill_request_power-eq-sum, IsStored,
  put_request-IsStored, validate_kill-key,
}

-- The threshold of the committee, and the power that the valid requests have with the new one.
abbrev pub needed : SubnetState → Power
needed s = multisig_threshold (total_power (latest_committee s).validators)

abbrev pub gathered : Env → Db → SubnetId → ℕ → KillRequest → SubnetState → Power
gathered env db id height r s =
    requested (latest_committee s) (valid_requests env height (db.kill_requests id) ++ r ∷ [])

module _ (env : Env) (db : Db) (id : SubnetId) (height : ℕ) (r : KillRequest)
    (s : SubnetState) where
  majority_reached-eq :
      majority_reached (latest_committee s) (get_valid_kill_requests env db id height ++ r ∷ [])
      ≡ leb (needed s) (gathered env db id height r s)
  unfolding majority_reached
  majority_reached-eq = ap (leb (needed s)) (
      kill_request_power-eq-sum (latest_committee s)
        (get_valid_kill_requests env db id height ++ r ∷ []) 0 (omega arith)
      ∙ ap (λ n. n % u32_mod) (zero_add _)
      ∙ ap (λ l. requested (latest_committee s) (l ++ r ∷ []))
          (get_valid_kill_requests-eq env db id height))
    where
      zero_add : (n : ℕ) → 0 + n ≡ n
      zero_add n = omega arith

-- What a kill request does to the state of its subnet.
pub record IsMarked (env : Env) (db : Db) (id : SubnetId) (height : ℕ) (r : KillRequest)
    (s s' : SubnetState) : Type 0 where
  pub before : s.killed ≡ not_killed
  pub after : s' ≡ record s {
    killed = to_be_killed;
    marked_for_kill_checkpoint_number =
        or_else s.last_checkpoint_number s.marked_for_kill_checkpoint_number;
  }
  pub majority : needed s ≤ gathered env db id height r s

-- The request changes nothing: the majority is not reached, or the subnet was marked before.
pub IsIdle : Env → Db → SubnetId → ℕ → KillRequest → SubnetState → SubnetState → Type 0
IsIdle env db id height r s s' =
    (s' ≡ s) × ((gathered env db id height r s < needed s) ⊎ (is_not_killed s.killed ≡ false))

get_subnet_state-add_kill_request :
    (db : Db) (id : SubnetId) (r : KillRequest)
    → get_subnet_state (add_kill_request db id r) id ≡ get_subnet_state db id
unfolding get_subnet_state add_kill_request
get_subnet_state-add_kill_request db id r = refl

get_subnet_state-save_subnet_state :
    (db : Db) (id : SubnetId) (s : SubnetState)
    → get_subnet_state (save_subnet_state db id s) id ≡ some s
unfolding get_subnet_state save_subnet_state
get_subnet_state-save_subnet_state db id s = ground (arith, get-put id id s db.subnets)

module _ (env : Env) (db : Db) (id : SubnetId) (height : ℕ) (r : KillRequest)
    (s : SubnetState) where
  -- The state that `d` holds is that of an idle request or of one that marks the subnet.
  pub Outcome : Db → Type 0
  Outcome d =
      (s' : SubnetState) × (get_subnet_state d id ≡ some s')
      × (IsIdle env db id height r s s' ⊎ IsMarked env db id height r s s')
      × IsStored r (db.kill_requests id) (d.kill_requests id)

  marked :
      (d : Db) (k : SubnetKillState)
      → k ≡ s.killed
      → get_subnet_state d id ≡ some s
      → IsStored r (db.kill_requests id) (d.kill_requests id)
      → needed s ≤ gathered env db id height r s
      → Outcome (save_marked d id (mark_for_kill s k))
  unfolding mark_for_kill Outcome IsIdle save_subnet_state
  marked d not_killed same hs stored majority = (
    _,
    get_subnet_state-save_subnet_state d id _,
    inr (record { before = sym same; after = refl; majority = majority }),
    stored,
  )
  marked d to_be_killed same hs stored majority =
      (s, hs, inl (refl, inr (ap is_not_killed (sym same))), stored)
  marked d (killed_at h) same hs stored majority =
      (s, hs, inl (refl, inr (ap is_not_killed (sym same))), stored)

  decided :
      (d : Db) (b : Bool)
      → leb (needed s) (gathered env db id height r s) ≡ b
      → get_subnet_state d id ≡ some s
      → IsStored r (db.kill_requests id) (d.kill_requests id)
      → Outcome (if b then save_marked d id (mark_for_kill s s.killed) else d)
  unfolding Outcome IsIdle
  decided d true majority hs stored = marked d s.killed refl hs stored (leb→le _ _ majority)
  decided d false majority hs stored = (s, hs, inl (refl, inl (leb_false→lt _ _ majority)), stored)

  -- What an accepted request writes.
  written :
      get_subnet_state db id ≡ some s
      → Outcome (
          if majority_reached
            (latest_committee s)
            (get_valid_kill_requests env db id height ++ r ∷ [])
          then save_marked (add_kill_request db id r) id (mark_for_kill s s.killed)
          else add_kill_request db id r)
  unfolding add_kill_request
  written hs =
      decided (add_kill_request db id r) _ (sym (majority_reached-eq env db id height r s))
        (get_subnet_state-add_kill_request db id r ∙ hs)
        (rw (id-self id) (put_request-IsStored r (db.kill_requests id)))
    where
      id-self : (n : ℕ) → (n == n) ≡ true
      id-self n = ground arith

-- A kill request that is accepted comes from the key that the message names, that of a member of
-- the latest committee with no valid request yet. The request is stored under its height and
-- transaction, beside the others. It marks the subnet, with the last checkpoint's number if there
-- is one, and keeps the rest of the state, if the power of the valid requests with it, as a `u32`,
-- reaches the threshold of the latest committee and the subnet is not marked yet; otherwise it
-- leaves the state as it is. A request is valid if it is at most 36 blocks old, or 3 with the
-- feature `dev`.
pub save_kill-majority :
    (env : Env) (m : IpcKillSubnetMsg) (db db' : Db) (height : ℕ) (hash : BlockHash) (txid : Txid)
    (s : SubnetState)
    → get_subnet_state db m.subnet_id ≡ some s
    → save_kill env m db height hash txid ≡ ok db'
    → (key : XOnlyPublicKey) × (v : SubnetValidator) × (m.pubkey ≡ some key)
      × (find_validator key (latest_committee s) ≡ some v)
      × (any
            (λ (r : KillRequest). r.validator_xpk == key)
            (valid_requests env height (db.kill_requests m.subnet_id))
          ≡ false)
      × Outcome env db m.subnet_id height (kill_request key height hash txid) s db'
unfolding save_kill
save_kill-majority env m db db' height hash txid s hs e =
    >>=-elim (ok_or (get_subnet_genesis_info db m.subnet_id) _) _ e λ g hg e₁.
      >>=-elim (validate_kill m g s) _ (rw hs at e₁) λ key valid e₂.
        >>=-elim (ok_or (find_validator key (latest_committee s)) _) _ e₂ λ v found e₃.
          >>=-elim
            (fail_if
              (any (λ (r : KillRequest). r.validator_xpk == key)
                (get_valid_kill_requests env db m.subnet_id height))
              _)
            _ e₃
            λ u fresh e₄. (
              key,
              v,
              validate_kill-key m g s valid,
              ok_or-eq-ok _ _ found,
              subst (λ l. any (λ (r : KillRequest). r.validator_xpk == key) l ≡ false)
                  (get_valid_kill_requests-eq env db m.subnet_id height) (fail_if-eq-ok _ _ fresh),
              subst (Outcome env db m.subnet_id height (kill_request key height hash txid) s)
                  (ok-injective e₄)
                  (written env db m.subnet_id height (kill_request key height hash txid) s hs),
            )
