-- ===== src/Db.antt =====
-- src/db.rs: the state behind `DatabaseCore` and its operations. Every handler writes in one
-- transaction that it commits last, so a handler here returns the new `Db` or an error that
-- leaves the old one. Failures of LMDB itself are not modelled.
pub mod StakeChanges
pub mod KillRequests
pub mod Numbering
use bitcoin_ipc.Prelude.{
  ℕ, ◌+◌, ◌-◌, ◌≡◌, Bool, true, false, not, ◌&&◌, Option, none, some, List, [], ◌∷◌, ◌++◌, retain,
  length, ltb, leb, ◌==◌, if◌then◌else◌,
}
use bitcoin_ipc.Types.{Env, SubnetId, EthAddress, Txid, BlockHash, Address, Transaction}
use bitcoin_ipc.Table.{Table, get, put, values}
use bitcoin_ipc.Committee.{SubnetCommittee}
use bitcoin_ipc.Subnet.{SubnetState, SubnetGenesisInfo, genesis_committee_conf_num, unwrap_or}
use bitcoin_ipc.Records.{
  SubnetCheckpoint, RootnetMessage, StakeChangeRequest, KillRequest, SubnetRewardInfo,
  SnapshotResult, stamp, nonce,
}

-- One field for each LMDB database; a key's subnet id comes first, as in the key's text.
pub record Db : Type 0 where
  pub last_processed_block : Option ℕ
  pub subnet_genesis : SubnetId → Option SubnetGenesisInfo
  pub subnets : Table SubnetState
  pub rootnet_msgs : SubnetId → Table RootnetMessage
  pub checkpoints : SubnetId → ℕ → Option SubnetCheckpoint
  pub transactions : Txid → Option Transaction
  pub committees : SubnetId → ℕ → Option SubnetCommittee
  pub stake_changes : SubnetId → Table StakeChangeRequest
  pub kill_requests : SubnetId → List KillRequest
  pub token_balances : SubnetId → EthAddress → SubnetId → Option ℕ
  pub reward_candidates : ℕ → Table SubnetRewardInfo
  pub reward_results : ℕ → Option SnapshotResult

-- The table of one key, replaced.
abbrev pub update {ℓ} : {A : Type ℓ} → (ℕ → A) → ℕ → A → ℕ → A
update f k a j = if k == j then a else f j

unfoldable pub get_last_processed_block : Db → ℕ
get_last_processed_block db = unwrap_or db.last_processed_block 0

unfoldable pub set_last_processed_block : Db → ℕ → Db
set_last_processed_block db height = record db { last_processed_block = some height }

unfoldable pub get_subnet_genesis_info : Db → SubnetId → Option SubnetGenesisInfo
get_subnet_genesis_info db id = db.subnet_genesis id

unfoldable pub save_subnet_genesis_info : Db → SubnetId → SubnetGenesisInfo → Db
save_subnet_genesis_info db id g = record db {
  subnet_genesis = update db.subnet_genesis id (some g);
}

unfoldable pub get_subnet_state : Db → SubnetId → Option SubnetState
get_subnet_state db id = get id db.subnets

unfoldable pub save_subnet_state : Db → SubnetId → SubnetState → Db
save_subnet_state db id s = record db { subnets = put id s db.subnets }

unfoldable pub get_all_subnets : Db → List SubnetState
get_all_subnets db = values db.subnets

first_with_address : Address → List SubnetState → Option SubnetState
first_with_address a [] = none
first_with_address a (s ∷ rest) =
    if s.committee.multisig_address == a then some s else first_with_address a rest

unfoldable pub get_subnet_by_multisig_address : Db → Address → Option SubnetState
unfolding first_with_address
get_subnet_by_multisig_address db a = first_with_address a (values db.subnets)

unfoldable pub get_all_rootnet_msgs : Db → SubnetId → List RootnetMessage
get_all_rootnet_msgs db id = values (db.rootnet_msgs id)

unfoldable pub get_rootnet_msgs_by_height : Db → SubnetId → ℕ → List RootnetMessage
get_rootnet_msgs_by_height db id height =
    retain (λ m. (stamp m).block_height == height) (values (db.rootnet_msgs id))

-- The last nonce is the count of stored messages less one.
unfoldable pub get_last_rootnet_msg_nonce : Db → SubnetId → Option ℕ
get_last_rootnet_msg_nonce db id =
    let count = length (db.rootnet_msgs id) in if count == 0 then none else some (count - 1)

next_nonce : Option ℕ → ℕ
next_nonce none = 0
next_nonce (some n) = n + 1

unfoldable pub get_next_rootnet_msg_nonce : Db → SubnetId → ℕ
unfolding get_last_rootnet_msg_nonce next_nonce
get_next_rootnet_msg_nonce db id = next_nonce (get_last_rootnet_msg_nonce db id)

unfoldable pub get_rootnet_msg : Db → SubnetId → ℕ → Option RootnetMessage
get_rootnet_msg db id n = get n (db.rootnet_msgs id)

unfoldable pub add_rootnet_msg : Db → SubnetId → RootnetMessage → Db
add_rootnet_msg db id m = record db {
  rootnet_msgs = update db.rootnet_msgs id (put (nonce m) m (db.rootnet_msgs id));
}

unfoldable pub get_checkpoint : Db → SubnetId → ℕ → Option SubnetCheckpoint
get_checkpoint db id n = db.checkpoints id n

unfoldable pub save_checkpoint : Db → SubnetId → SubnetCheckpoint → ℕ → Db
save_checkpoint db id c n = record db {
  checkpoints = update db.checkpoints id (update (db.checkpoints id) n (some c));
}

unfoldable pub get_transaction : Db → Txid → Option Transaction
get_transaction db txid = db.transactions txid

unfoldable pub save_transaction : Db → Transaction → Db
save_transaction db tx = record db { transactions = update db.transactions tx.id (some tx) }

unfoldable pub get_committee : Db → SubnetId → ℕ → Option SubnetCommittee
get_committee db id n = db.committees id n

unfoldable pub save_committee : Db → SubnetId → ℕ → SubnetCommittee → Db
save_committee db id n c = record db {
  committees = update db.committees id (update (db.committees id) n (some c));
}

unfoldable pub get_token_balance : Db → SubnetId → EthAddress → SubnetId → ℕ
get_token_balance db home token holder = unwrap_or (db.token_balances home token holder) 0

unfoldable pub set_token_balance : Db → SubnetId → EthAddress → SubnetId → ℕ → Db
set_token_balance db home token holder balance = record db {
  token_balances = update db.token_balances home (
      update (db.token_balances home) token
        (update (db.token_balances home token) holder (some balance)));
}
