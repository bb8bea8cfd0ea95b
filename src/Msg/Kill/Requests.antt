-- ===== src/Msg/Kill/Requests.antt =====
-- src/ipc_lib.rs and src/db.rs: the key of a kill request, the stored requests, and the power behind a
-- list of them.
use bitcoin_ipc.Prelude.{
  ℕ, ap, leb, ◌-◌, if◌then◌else◌, ◌+◌, ◌%◌, ◌<◌, ◌≡◌, refl, Bool, true, not, ◌&&◌, ◌||◌, Option,
  none, some, List, [], ◌∷◌, arith, inl, inr, find?, retain, sum, ◌==◌, Bool-cases,
}
use bitcoin_ipc.Result.{ok, fail_if, >>=-elim, not_a_validator}
use mathlib.Core.Path.{fun_ext}
use bitcoin_ipc.Types.{Env, SubnetId, XOnlyPublicKey, Power, u32_mod}
use bitcoin_ipc.Db.{Db}
use bitcoin_ipc.Committee.{SubnetCommittee, is_validator}
use bitcoin_ipc.Subnet.{SubnetState, SubnetGenesisInfo, latest_committee}
use bitcoin_ipc.Records.{KillRequest}
use bitcoin_ipc.Db.KillRequests.{put_request, get_valid_kill_requests}
use bitcoin_ipc.Msg.Stake.{find_validator}
use bitcoin_ipc.Msg.Unstake.{validator_key}
use bitcoin_ipc.Msg.Kill.{IpcKillSubnetMsg, validate_kill, power_of, kill_request_power}

-- The power behind a list of requests: that of the committee's validators with their keys.
abbrev pub requested : SubnetCommittee → List KillRequest → Power
requested c requests =
    sum (λ (r : KillRequest). power_of (find_validator r.validator_xpk c)) requests % u32_mod

pub kill_request_power-eq-sum :
    (c : SubnetCommittee) (requests : List KillRequest) (acc : Power)
    → acc < u32_mod
    → kill_request_power c requests acc
      ≡ (acc + sum (λ (r : KillRequest). power_of (find_validator r.validator_xpk c)) requests)
        % u32_mod
unfolding kill_request_power
kill_request_power-eq-sum c [] acc h = omega arith
kill_request_power-eq-sum c (r ∷ requests) acc h = omega (
  arith,
  kill_request_power-eq-sum c requests
      ((acc + power_of (find_validator r.validator_xpk c)) % u32_mod) (omega arith),
)

-- The requests that still count at a height: those of the last 36 blocks, or 3 for development.
abbrev pub valid_requests : Env → ℕ → List KillRequest → List KillRequest
valid_requests env height requests =
    retain (λ q. leb height (q.block_height + (if env.dev then 3 else 36))) requests

still_valid :
    (height age block_height : ℕ)
    → leb (height - age) block_height ≡ leb height (block_height + age)
still_valid height age block_height = ground arith

pub get_valid_kill_requests-eq :
    (env : Env) (db : Db) (id : SubnetId) (height : ℕ)
    → get_valid_kill_requests env db id height ≡ valid_requests env height (db.kill_requests id)
unfolding get_valid_kill_requests
get_valid_kill_requests-eq env db id height =
    ap (λ (p : KillRequest → Bool). retain p (db.kill_requests id))
      (fun_ext (λ q. still_valid height (if env.dev then 3 else 36) q.block_height))

-- The stored requests hold this one under its height and transaction, and the others as before.
abbrev pub same_key : KillRequest → KillRequest → Bool
same_key r q = q.block_height == r.block_height && q.txid == r.txid

abbrev pub IsStored : KillRequest → List KillRequest → List KillRequest → Type 0
IsStored r old new =
    (find? (same_key r) new ≡ some r)
    × (retain (λ q. not (same_key r q)) new ≡ retain (λ q. not (same_key r q)) old)

same_key_self : (r : KillRequest) → same_key r r ≡ true
same_key_self r = ground arith

pub put_request-IsStored :
    (r : KillRequest) (requests : List KillRequest) → IsStored r requests (put_request r requests)
unfolding put_request
put_request-IsStored r [] = rw (same_key_self r) (refl, refl)
put_request-IsStored r (q ∷ requests) =
    let (found, kept) = put_request-IsStored r requests in
    elim (Bool-cases (same_key r q)) [
      | inl e ↦ rw (e, same_key_self r) (refl, refl)
      | inr e ↦ (ground (arith, found), ground (arith, kept))
    ]

validator_key-eq :
    (pubkey : Option XOnlyPublicKey) (c : SubnetCommittee) {key : XOnlyPublicKey}
    → validator_key pubkey c ≡ ok key
    → pubkey ≡ some key
unfolding validator_key
validator_key-eq none c e = absurd cc
validator_key-eq (some k) c e =
    >>=-elim (fail_if (not (is_validator c k)) not_a_validator) _ e λ u h e₁. cc

pub validate_kill-key :
    (m : IpcKillSubnetMsg) (g : SubnetGenesisInfo) (s : SubnetState) {key : XOnlyPublicKey}
    → validate_kill m g s ≡ ok key
    → m.pubkey ≡ some key
unfolding validate_kill
validate_kill-key m g s e =
    >>=-elim (fail_if (not (s.id == m.subnet_id) || not (g.subnet_id == m.subnet_id)) _) _ e
      λ u h e₁. validator_key-eq m.pubkey (latest_committee s) e₁
