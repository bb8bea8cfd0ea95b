-- ===== src/Erc.antt =====
-- src/ipc_lib.rs: `validate_erc_batch_data`, the check of a batch of ERC operations against the
-- balances in the database. The map `final_balances`, whose keys are the texts
-- "{home_subnet_id}:{home_token_address}", is a function of the two parts of a key.
pub mod Apply
pub mod Ledger
pub mod Covered
pub mod Agree
pub mod Supply
pub mod Registered
use bitcoin_ipc.Prelude.{
  ℕ, ◌+◌, ◌-◌, ◌^◌, Bool, true, false, Option, none, some, List, [], ◌∷◌, min, ltb, ◌==◌,
  if◌then◌else◌,
}
use bitcoin_ipc.Result.{
  Result, ok, err, ◌>>=◌, ◌>>◌, fail_if, registered_twice, token_exists, burn_exceeds_balance,
  zero_amount, insufficient_balance,
}
use bitcoin_ipc.Types.{SubnetId, EthAddress}
use bitcoin_ipc.Subnet.{unwrap_or}
use bitcoin_ipc.Records.{
  is_negative, unsigned_abs, IpcErcTokenRegistration, IpcErcSupplyAdjustment,
  IpcCrossSubnetErcTransfer,
}
use bitcoin_ipc.Db.{Db, update, get_token_balance}

abbrev pub u256_max : ℕ
u256_max = 2 ^ 256 - 1

unfoldable pub saturating_add : ℕ → ℕ → ℕ
saturating_add a b = min (a + b) u256_max

abbrev pub Balances : Type 0
Balances = SubnetId → EthAddress → Option ℕ

unfoldable pub set_balance : Balances → SubnetId → EthAddress → ℕ → Balances
set_balance fb home token v = update fb home (update (fb home) token (some v))

-- `final_balances.entry(key)`, whose vacant entry is filled from the database.
unfoldable pub running : Db → SubnetId → Balances → SubnetId → EthAddress → ℕ
running db source fb home token = unwrap_or (fb home token) (get_token_balance db home token source)

abbrev pub is_some {ℓ} : {A : Type ℓ} → Option A → Bool
is_some none = false
is_some (some a) = true

module _ (db : Db) (source : SubnetId) where
  unfoldable pub check_registration : IpcErcTokenRegistration → Balances → Result Balances
  check_registration etr fb = do
    fail_if (is_some (fb source etr.home_token_address)) registered_twice
    fail_if (ltb 0 (get_token_balance db source etr.home_token_address source)) token_exists
    ok (set_balance fb source etr.home_token_address etr.initial_supply)

  unfoldable pub check_registrations : List IpcErcTokenRegistration → Balances → Result Balances
  check_registrations [] fb = ok fb
  check_registrations (etr ∷ rest) fb = do
    fb' ← check_registration etr fb
    check_registrations rest fb'

  -- A mint of zero leaves the map as it is.
  unfoldable pub check_mint : IpcErcSupplyAdjustment → Balances → Balances
  check_mint ets fb =
      if is_negative ets.delta
      then fb
      else if unsigned_abs ets.delta == 0
      then fb
      else set_balance fb source ets.home_token_address (
          saturating_add (running db source fb source ets.home_token_address)
            (unsigned_abs ets.delta))

  unfoldable pub check_mints : List IpcErcSupplyAdjustment → Balances → Balances
  check_mints [] fb = fb
  check_mints (ets ∷ rest) fb = check_mints rest (check_mint ets fb)

  unfoldable pub check_burn : IpcErcSupplyAdjustment → Balances → Result Balances
  check_burn ets fb =
      if is_negative ets.delta
      then (do
        let balance = running db source fb source ets.home_token_address
        fail_if (ltb balance (unsigned_abs ets.delta)) burn_exceeds_balance
        ok (set_balance fb source ets.home_token_address (balance - unsigned_abs ets.delta)))
      else ok fb

  unfoldable pub check_burns : List IpcErcSupplyAdjustment → Balances → Result Balances
  check_burns [] fb = ok fb
  check_burns (ets ∷ rest) fb = do fb' ← check_burn ets fb; check_burns rest fb'

  unfoldable pub check_transfer : IpcCrossSubnetErcTransfer → Balances → Result Balances
  check_transfer etx fb = do
    fail_if (etx.amount == 0) zero_amount
    let balance = running db source fb etx.home_subnet_id etx.home_token_address
    fail_if (ltb balance etx.amount) insufficient_balance
    ok (set_balance fb etx.home_subnet_id etx.home_token_address (balance - etx.amount))

  unfoldable pub check_transfers : List IpcCrossSubnetErcTransfer → Balances → Result Balances
  check_transfers [] fb = ok fb
  check_transfers (etx ∷ rest) fb = do fb' ← check_transfer etx fb; check_transfers rest fb'

  -- The balances that the batch would leave the source subnet with.
  unfoldable pub validate_erc_batch_data :
      List IpcErcTokenRegistration
      → List IpcErcSupplyAdjustment
      → List IpcCrossSubnetErcTransfer
      → Result Balances
  validate_erc_batch_data registrations adjustments transfers = do
    registered ← check_registrations registrations (λ home token. none)
    burnt ← check_burns adjustments (check_mints adjustments registered)
    check_transfers transfers burnt
