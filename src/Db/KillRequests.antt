-- ===== src/Db/KillRequests.antt =====
-- src/db.rs: the kill requests of a subnet, keyed by their height and transaction.
use bitcoin_ipc.Prelude.{ℕ, ◌-◌, Bool, ◌&&◌, List, [], ◌∷◌, retain, leb, ◌==◌, if◌then◌else◌}
use bitcoin_ipc.Types.{Env, SubnetId}
use bitcoin_ipc.Records.{KillRequest}
use bitcoin_ipc.Db.{Db, update}

-- `KILL_REQUEST_VALID_BLOCKS`
abbrev pub kill_request_valid_blocks : Bool → ℕ
kill_request_valid_blocks dev = if dev then 3 else 36

unfoldable pub put_request : KillRequest → List KillRequest → List KillRequest
put_request r [] = r ∷ []
put_request r (q ∷ requests) =
    if q.block_height == r.block_height && q.txid == r.txid
    then r ∷ requests
    else q ∷ put_request r requests

unfoldable pub add_kill_request : Db → SubnetId → KillRequest → Db
unfolding put_request
add_kill_request db id r = record db {
  kill_requests = update db.kill_requests id (put_request r (db.kill_requests id));
}

unfoldable pub get_valid_kill_requests : Env → Db → SubnetId → ℕ → List KillRequest
get_valid_kill_requests env db id height =
    retain (λ r. leb (height - kill_request_valid_blocks env.dev) r.block_height)
      (db.kill_requests id)
