-- ===== src/Monitor/SideEffects.antt =====
-- src/bin/monitor.rs: `process_side_effects`, which imports the addresses that the blocks asked for.
use bitcoin_ipc.Prelude.{Bool, true, false, not, Option, List, [], ◌∷◌, retain}
use bitcoin_ipc.Result.{ok, err, bitcoin_rpc_error}
use bitcoin_ipc.Types.{Address}
use bitcoin_ipc.Subnet.{unwrap_or}
use bitcoin_ipc.Monitor.{Monitor, Outcome, SideEffect}

-- How `import_address_batch` ends: two of its errors mean that a scan goes on.
pub data Import : Type 0 where
  imported transport_error rescanning failed : Import

-- The watch-only wallet: `none` is a query that fails.
pub record Wallet : Type 0 where
  pub is_address_imported : Address → Option Bool
  pub import_address_batch : List SideEffect → Import

unfoldable pub pending : Wallet → List SideEffect → List SideEffect
pending w effects =
    retain (λ (s : SideEffect). not (unwrap_or (w.is_address_imported s.address) false)) effects

abbrev pub cleared : Monitor → Monitor
cleared mon = record mon { side_effects = [] }

unfoldable pub after_import : Import → Monitor → Outcome
after_import imported mon = (cleared mon, ok tt)
after_import transport_error mon = (mon, ok tt)
after_import rescanning mon = (mon, ok tt)
after_import failed mon = (mon, err bitcoin_rpc_error)

unfoldable pub import_pending : Wallet → List SideEffect → Monitor → Outcome
unfolding after_import
import_pending w [] mon = (cleared mon, ok tt)
import_pending w (s ∷ effects) mon = after_import (w.import_address_batch (s ∷ effects)) mon

abbrev is_none_left : List SideEffect → Bool
is_none_left [] = true
is_none_left (s ∷ effects) = false

unfoldable pub process_side_effects : Wallet → Monitor → Outcome
unfolding pending import_pending
process_side_effects w mon = elim (is_none_left mon.side_effects) [
  | true ↦ (mon, ok tt)
  | false ↦ import_pending w (pending w mon.side_effects) mon
]
