-- ===== src/Db/StakeChanges.antt =====
-- src/db.rs: the stake changes of a subnet, their numbers and their confirmation.
pub mod Confirmed
use bitcoin_ipc.Prelude.{
  ℕ, ◌+◌, Bool, true, false, ◌&&◌, Option, none, some, List, [], ◌∷◌, ◌++◌, retain, length, ltb,
  leb, ◌==◌, if◌then◌else◌,
}
use bitcoin_ipc.Types.{SubnetId, BlockHash}
use bitcoin_ipc.Table.{Table, get, put, values}
use bitcoin_ipc.Subnet.{genesis_committee_conf_num}
use bitcoin_ipc.Records.{StakeChangeRequest}
use bitcoin_ipc.Db.{Db, update}

unfoldable pub get_stake_change : Db → SubnetId → ℕ → Option StakeChangeRequest
get_stake_change db id number = get number (db.stake_changes id)

unfoldable pub get_all_stake_changes : Db → SubnetId → List StakeChangeRequest
get_all_stake_changes db id = values (db.stake_changes id)

abbrev pub is_none {ℓ} : {A : Type ℓ} → Option A → Bool
is_none none = true
is_none (some a) = false

unfoldable pub get_unconfirmed_stake_changes : Db → SubnetId → List StakeChangeRequest
get_unconfirmed_stake_changes db id =
    retain (λ c. is_none c.checkpoint_block_height) (values (db.stake_changes id))

unfoldable pub get_stake_changes_by_height : Db → SubnetId → ℕ → List StakeChangeRequest
get_stake_changes_by_height db id height =
    retain (λ c. c.block_height == height) (values (db.stake_changes id))

unfoldable pub get_last_stake_change_configuration_number : Db → SubnetId → ℕ
get_last_stake_change_configuration_number db id =
    let count = length (db.stake_changes id) in
    if count == 0 then genesis_committee_conf_num else count

unfoldable pub get_next_stake_change_configuration_number : Db → SubnetId → ℕ
unfolding get_last_stake_change_configuration_number
get_next_stake_change_configuration_number db id =
    get_last_stake_change_configuration_number db id + 1

unfoldable pub add_stake_change : Db → SubnetId → StakeChangeRequest → Db
add_stake_change db id c = record db {
  stake_changes = update db.stake_changes id (put c.configuration_number c (db.stake_changes id));
}

-- The changes that a checkpoint confirms.
abbrev pub to_confirm : ℕ → StakeChangeRequest → Bool
to_confirm max_number c = is_none c.checkpoint_block_height && leb c.configuration_number max_number

abbrev pub confirmed : ℕ → BlockHash → StakeChangeRequest → StakeChangeRequest
confirmed height hash c = record c {
  checkpoint_block_height = some height;
  checkpoint_block_hash = some hash;
}

-- `last_confirmed` after one more confirmed change.
later : StakeChangeRequest → Option StakeChangeRequest → Option StakeChangeRequest
later c none = some c
later c (some last) =
    if ltb last.configuration_number c.configuration_number then some c else some last

-- The loop: the table written, the last confirmed change and the list of confirmed ones.
pub record Confirmation : Type 0 where
  pub table : Table StakeChangeRequest
  pub last_confirmed : Option StakeChangeRequest
  pub confirmed_changes : List StakeChangeRequest

unfoldable pub confirm_each :
    ℕ → ℕ → BlockHash → List StakeChangeRequest → Confirmation → Confirmation
unfolding later
confirm_each max_number height hash [] acc = acc
confirm_each max_number height hash (c ∷ changes) acc =
    confirm_each max_number height hash changes (
      if to_confirm max_number c
      then (let c' = confirmed height hash c in
          record {
            table = put c'.configuration_number c' acc.table;
            last_confirmed = later c' acc.last_confirmed;
            confirmed_changes = acc.confirmed_changes ++ c' ∷ [];
          })
      else acc)

unfoldable pub confirm_stake_changes :
    Db → SubnetId → ℕ → ℕ → BlockHash → Db × Option StakeChangeRequest × List StakeChangeRequest
unfolding confirm_each
confirm_stake_changes db id max_number height hash =
    let acc =
      confirm_each max_number height hash (get_all_stake_changes db id)
        (record { table = db.stake_changes id; last_confirmed = none; confirmed_changes = [] }) in
    (
      record db { stake_changes = update db.stake_changes id acc.table },
      acc.last_confirmed,
      acc.confirmed_changes,
    )
