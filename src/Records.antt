-- ===== src/Records.antt =====
-- src/db.rs and src/ipc_lib.rs: the records that the tables hold, and the parts of messages that
-- they copy.
use Prim.Native.String.{String}
use bitcoin_ipc.Prelude.{ℕ, suc, Bool, true, false, Option, List}
use bitcoin_ipc.Types.{SubnetId, XOnlyPublicKey, EthAddress, Address, Txid, BlockHash, Amount}
use bitcoin_ipc.Committee.{SubnetCommittee}

-- An `I256`; `negsuc n` is -(n + 1).
pub data ℤ : Type 0 where
  pos : ℕ → ℤ
  negsuc : ℕ → ℤ

abbrev pub is_negative : ℤ → Bool
is_negative (pos n) = false
is_negative (negsuc n) = true

-- The second half of `into_sign_and_abs`.
abbrev pub unsigned_abs : ℤ → ℕ
unsigned_abs (pos n) = n
unsigned_abs (negsuc n) = suc n

pub record SubnetCheckpoint : Type 0 where
  pub checkpoint_number : ℕ
  pub checkpoint_hash : BlockHash
  pub checkpoint_height : ℕ
  pub block_height : ℕ
  pub txid : Txid
  pub batch_transfer_txid : Option Txid
  pub batch_transfer_block_height : Option ℕ
  pub signed_committee_number : ℕ
  pub next_committee_number : ℕ
  pub next_configuration_number : ℕ
  pub is_kill_checkpoint : Bool

pub record IpcFundSubnetMsg : Type 0 where
  pub subnet_id : SubnetId
  pub amount : Amount
  pub address : EthAddress

pub record IpcWithdrawal : Type 0 where
  pub amount : Amount
  pub address : Address

pub record IpcUnstake : Type 0 where
  pub amount : Amount
  pub address : Address
  pub pubkey : XOnlyPublicKey

pub record IpcCrossSubnetTransfer : Type 0 where
  pub amount : Amount
  pub destination_subnet_id : SubnetId
  pub subnet_multisig_address : Option Address
  pub subnet_user_address : EthAddress

pub record IpcErcTokenRegistration : Type 0 where
  pub home_token_address : EthAddress
  pub name : String
  pub symbol : String
  pub decimals : ℕ
  pub initial_supply : ℕ

pub record IpcErcSupplyAdjustment : Type 0 where
  pub home_token_address : EthAddress
  pub delta : ℤ

pub record IpcCrossSubnetErcTransfer : Type 0 where
  pub home_subnet_id : SubnetId
  pub home_token_address : EthAddress
  pub amount : ℕ
  pub destination_subnet_id : SubnetId
  pub recipient : EthAddress

-- What every `RootnetMessage` carries beside its content.
pub record Stamp : Type 0 where
  pub block_height : ℕ
  pub block_hash : BlockHash
  pub nonce : ℕ
  pub txid : Txid

pub data RootnetMessage : Type 0 where
  fund_subnet : IpcFundSubnetMsg → Stamp → RootnetMessage
  erc_transfer : IpcCrossSubnetErcTransfer → Stamp → RootnetMessage
  erc_registration : SubnetId → IpcErcTokenRegistration → Stamp → RootnetMessage

unfoldable pub stamp : RootnetMessage → Stamp
stamp (fund_subnet msg s) = s
stamp (erc_transfer msg s) = s
stamp (erc_registration home registration s) = s

unfoldable pub nonce : RootnetMessage → ℕ
unfolding stamp
nonce m = (stamp m).nonce

pub data StakingChange : Type 0 where
  deposit : Amount → StakingChange
  withdraw : Amount → StakingChange
  join : XOnlyPublicKey → StakingChange

pub record StakeChangeRequest : Type 0 where
  pub change : StakingChange
  pub validator_xpk : XOnlyPublicKey
  pub validator_subnet_address : EthAddress
  pub configuration_number : ℕ
  pub committee_after_change : SubnetCommittee
  pub block_height : ℕ
  pub block_hash : BlockHash
  pub checkpoint_block_height : Option ℕ
  pub checkpoint_block_hash : Option BlockHash
  pub txid : Txid

pub record KillRequest : Type 0 where
  pub validator_xpk : XOnlyPublicKey
  pub block_height : ℕ
  pub block_hash : BlockHash
  pub txid : Txid

pub record SubnetRewardInfo : Type 0 where
  pub most_recent_committee_number : ℕ
  pub rewarded_amounts : Option (List (XOnlyPublicKey × Amount))

pub record SnapshotResult : Type 0 where
  pub rewards_list : List (XOnlyPublicKey × Amount)
  pub total_rewarded_collateral : Amount
