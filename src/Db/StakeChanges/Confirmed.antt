-- ===== src/Db/StakeChanges/Confirmed.antt =====
-- src/db.rs: what `confirm_stake_changes` makes of the stake changes of a subnet.
use mathlib.Core.Option.{map}
use bitcoin_ipc.Prelude.{ℕ, ◌≡◌, refl, ◌∙◌, Option, none, some, [], ◌∷◌, arith, ltb, if◌then◌else◌}
use bitcoin_ipc.Types.{SubnetId, BlockHash}
use bitcoin_ipc.Table.{Table, get, values, get-put}
use bitcoin_ipc.Records.{StakeChangeRequest}
use bitcoin_ipc.Db.{Db}
use bitcoin_ipc.Db.StakeChanges.{
  get_stake_change, get_all_stake_changes, to_confirm, confirmed, Confirmation, confirm_each,
  confirm_stake_changes,
}

-- Each change is stored once, under its configuration number.
abbrev pub IsKeyed : Table StakeChangeRequest → Type 0
IsKeyed [] = Unit
IsKeyed ((j, c) ∷ t) = (c.configuration_number ≡ j) × (get j t ≡ none) × IsKeyed t

module _ (max_number height : ℕ) (hash : BlockHash) where
  -- The change as the checkpoint leaves it, by the height of the checkpoint that confirmed it
  -- before, if one did: one that is confirmed stays, and so does one with a later number; any other
  -- gets the height and the hash, and keeps the rest.
  abbrev pub stamped : Option ℕ → StakeChangeRequest → StakeChangeRequest
  stamped (some before) c = c
  stamped none c =
      if ltb max_number c.configuration_number
      then c
      else record c { checkpoint_block_height = some height; checkpoint_block_hash = some hash }

  abbrev pub after_checkpoint : StakeChangeRequest → StakeChangeRequest
  after_checkpoint c = stamped c.checkpoint_block_height c

  -- What one number holds after the changes `found` were gone through, where it held `old`.
  abbrev pub settle :
      Option StakeChangeRequest → Option StakeChangeRequest → Option StakeChangeRequest
  settle none old = old
  settle (some c) old = if to_confirm max_number c then some (confirmed height hash c) else old

  get-confirm_each :
      (t : Table StakeChangeRequest) (acc : Confirmation) (k : ℕ)
      → IsKeyed t
      → get k (confirm_each max_number height hash (values t) acc).table
        ≡ settle (get k t) (get k acc.table)
  unfolding get values confirm_each
  get-confirm_each [] acc k h = refl
  get-confirm_each ((j, c) ∷ t) acc k (same, fresh, h) =
      get-confirm_each t _ k h
      ∙ ground (arith, get-put c.configuration_number k (confirmed height hash c) acc.table)

  stamped-settle :
      (before : Option ℕ) (c : StakeChangeRequest)
      → before ≡ c.checkpoint_block_height
      → (if to_confirm max_number c then some (confirmed height hash c) else some c)
        ≡ some (stamped before c)
  stamped-settle none c same = ground arith
  stamped-settle (some h) c same = ground arith

  settled : (found : Option StakeChangeRequest) → settle found found ≡ map after_checkpoint found
  settled none = refl
  settled (some c) = stamped-settle c.checkpoint_block_height c refl

-- Where each change is stored once, under its number, confirming up to a number gives the height
-- and the hash to exactly the changes with a number up to it that no checkpoint confirmed before,
-- and leaves the rest of them, every other change and every other number as they are.
pub confirm_stake_changes_lem :
    (db : Db) (id : SubnetId) (max_number height : ℕ) (hash : BlockHash) (number : ℕ)
    → IsKeyed (db.stake_changes id)
    → get_stake_change (confirm_stake_changes db id max_number height hash).0 id number
      ≡ map (after_checkpoint max_number height hash) (get_stake_change db id number)
unfolding get_stake_change confirm_stake_changes get_all_stake_changes
confirm_stake_changes_lem db id max_number height hash number h =
    let each =
      get-confirm_each max_number height hash (db.stake_changes id)
        (record { table = db.stake_changes id; last_confirmed = none; confirmed_changes = [] })
        number h in
    let all = settled max_number height hash (get number (db.stake_changes id)) in
    ground (arith, each, all)
