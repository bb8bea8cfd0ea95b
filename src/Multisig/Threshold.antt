-- ===== src/Multisig/Threshold.antt =====
-- src/multisig.rs: the quorum threshold and the power of a collateral.
use bitcoin_ipc.Prelude.{◌+◌, ◌-◌, ◌*◌, ◌/◌, ◌^◌, ◌≤◌, ◌<◌, ◌≡◌, arith, min, if◌then◌else◌, ltb}
use bitcoin_ipc.Result.{ok, err, insufficient_collateral}
use bitcoin_ipc.Types.{Amount, Power}
use bitcoin_ipc.Multisig.{multisig_threshold, collateral_to_power}

-- Below 2^31 of total power the threshold is more than two thirds of it, and at most one more
-- than that.
pub multisig_threshold_bounds :
    (total : Power)
    → total < 2 ^ 31
    → (2 * total < 3 * multisig_threshold total) × (3 * multisig_threshold total ≤ 2 * total + 3)
unfolding multisig_threshold
multisig_threshold_bounds total h = omega arith

-- Two sets of signers that each reach the threshold of a committee whose total power is below
-- 2^31 share more than a third of that power: `a` and `b` are the powers of the two sets, and
-- `shared` that of the signers in both, which is at least a + b - total.
pub quorums_overlap :
    (total a b shared : Power)
    → total < 2 ^ 31
    → multisig_threshold total ≤ a
    → multisig_threshold total ≤ b
    → a + b ≤ total + shared
    → total < 3 * shared
unfolding multisig_threshold
quorums_overlap total a b shared h ha hb overlap = omega arith

-- With any power at all, and less than 2^31 of it, the whole committee reaches its threshold.
pub multisig_threshold-le_total :
    (total : Power) → 0 < total → total < 2 ^ 31 → multisig_threshold total ≤ total
unfolding multisig_threshold
multisig_threshold-le_total total h k = omega arith

-- From 2^31 on the doubling wraps in a release build: the threshold is computed from what is
-- left after 2^31 is taken off, so three times the threshold is at most the total and one: about a
-- third of the power, or less, can sign for the committee.
pub multisig_threshold_wraps :
    (total : Power)
    → 2 ^ 31 ≤ total
    → total < 2 ^ 32
    → (multisig_threshold total ≡ multisig_threshold (total - 2 ^ 31))
      × (3 * multisig_threshold total ≤ total + 1)
unfolding multisig_threshold
multisig_threshold_wraps total h k = omega arith

-- A collateral below the minimum is refused; any other has a power, its satoshis over 10000 and
-- capped, so that `CollateralTooHigh` never arises and no power passes 429496.
pub collateral_to_power_lem :
    (amount min_amount : Amount)
    → (collateral_to_power amount min_amount ≡ (
        if ltb amount min_amount
        then err insufficient_collateral
        else ok (min amount 4294967295 / 10000)))
      × (min amount 4294967295 / 10000 ≤ 429496)
unfolding collateral_to_power
collateral_to_power_lem amount min_amount = (ground arith, omega arith)
