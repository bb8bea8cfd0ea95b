-- ===== src/Msg/Unstake.antt =====
-- src/ipc_lib.rs: `IpcUnstakeCollateralMsg`.
pub mod LastValidator
pub mod Numbered
use bitcoin_ipc.Prelude.{
  ℕ, ◌-◌, Bool, true, false, not, ◌&&◌, ◌||◌, Option, none, some, ltb, leb, ◌==◌, if◌then◌else◌,
}
use bitcoin_ipc.Result.{
  Error, Result, ok, err, ◌>>=◌, ◌>>◌, fail_if, ok_or, subnet_not_found, subnet_id_mismatch,
  subnet_killed, not_a_validator, pubkey_required, amount_exceeds_total, amount_exceeds_collateral,
  unstake_all_required, insufficient_collateral, collateral_too_high,
}
use bitcoin_ipc.Types.{Env, SubnetId, XOnlyPublicKey, Txid, BlockHash, Amount, Power}
use bitcoin_ipc.Multisig.{collateral_to_power}
use bitcoin_ipc.Committee.{
  SubnetValidator, SubnetCommittee, is_validator, modify_validator, remove_member,
}
use bitcoin_ipc.Subnet.{
  SubnetState, SubnetGenesisInfo, is_killed_or_pending, latest_committee, total_collateral,
}
use bitcoin_ipc.Records.{withdraw}
use bitcoin_ipc.Db.{Db, get_subnet_genesis_info, get_subnet_state, save_subnet_state}
use bitcoin_ipc.Db.StakeChanges.{get_next_stake_change_configuration_number, add_stake_change}
use bitcoin_ipc.Msg.Stake.{find_validator, stake_change}

pub record IpcUnstakeCollateralMsg : Type 0 where
  pub subnet_id : SubnetId
  pub amount : Amount
  pub pubkey : Option XOnlyPublicKey

-- `checked_sub`
abbrev pub checked_sub : ℕ → ℕ → Option ℕ
checked_sub a b = if ltb a b then none else some (a - b)

-- The power that is left, and whether it is enough to participate: too little collateral is no
-- error here, any other refusal is.
unfoldable pub participation : Error → Result Power → Result (Power × Bool)
participation other (ok power) = ok (power, true)
participation other (err insufficient_collateral) = ok (0, false)
participation other (err _) = err other

unfoldable pub remaining_power : Amount → Amount → Result (Power × Bool)
unfolding participation
remaining_power collateral min_stake =
    participation collateral_too_high (collateral_to_power collateral min_stake)

-- A key that is present and belongs to the latest committee.
unfoldable pub validator_key : Option XOnlyPublicKey → SubnetCommittee → Result XOnlyPublicKey
validator_key none c = err pubkey_required
validator_key (some key) c = fail_if (not (is_validator c key)) not_a_validator >> ok key

unfoldable pub validate_unstake :
    IpcUnstakeCollateralMsg → SubnetGenesisInfo → SubnetState → Result (Unit {0})
validate_unstake m g s = do
  fail_if (not (s.id == m.subnet_id) || not (g.subnet_id == m.subnet_id)) subnet_id_mismatch
  fail_if (is_killed_or_pending s) subnet_killed
  key ← validator_key m.pubkey (latest_committee s)
  fail_if (ltb (total_collateral s) m.amount) amount_exceeds_total
  v ← ok_or (find_validator key (latest_committee s)) not_a_validator
  left ← ok_or (checked_sub v.collateral m.amount) amount_exceeds_collateral
  rest ← remaining_power left g.create_subnet_msg.min_validator_stake
  fail_if (not rest.1 && not (m.amount == v.collateral)) unstake_all_required

-- The committee without the validator, or with what it keeps.
unfoldable pub after_unstake :
    Env
    → SubnetId
    → SubnetCommittee
    → SubnetValidator
    → XOnlyPublicKey
    → Power × Bool
    → Result SubnetCommittee
after_unstake env id c v key rest =
    if rest.0 == 0 || not rest.1 then remove_member env c id key else modify_validator env c id v

unfoldable pub save_unstake : Env → IpcUnstakeCollateralMsg → Db → ℕ → BlockHash → Txid → Result Db
save_unstake env m db height hash txid = do
  g ← ok_or (get_subnet_genesis_info db m.subnet_id) subnet_not_found
  s ← ok_or (get_subnet_state db m.subnet_id) subnet_not_found
  validate_unstake m g s
  key ← ok_or m.pubkey pubkey_required
  v ← ok_or (find_validator key (latest_committee s)) not_a_validator
  left ← ok_or (checked_sub v.collateral m.amount) amount_exceeds_collateral
  rest ← remaining_power left g.create_subnet_msg.min_validator_stake
  next ←
      after_unstake env m.subnet_id (latest_committee s)
        (record v { collateral = left; power = rest.0 }) key rest
  let number = get_next_stake_change_configuration_number db m.subnet_id
  let db = save_subnet_state db m.subnet_id (record s { waiting_committee = some next })
  ok (
      add_stake_change db m.subnet_id
        (stake_change (withdraw m.amount) v key next number height hash txid))
