-- ===== src/Checkpoint/Wire.antt =====
-- src/ipc_lib.rs: the data of a batch of transfers, grouped by destination as
-- `make_batched_transfer_data` groups it, and taken apart as `IpcBatchTransferMsg::from_tx` does.
pub mod Grouped
pub mod Delivered
use bitcoin_ipc.Prelude.{
  ℕ, ◌==◌, ltb, Bool, true, false, not, ◌&&◌, ◌||◌, Option, none, some, List, [], ◌∷◌, ◌++◌, map,
  length, if◌then◌else◌,
}
use bitcoin_ipc.Result.{
  Result, ok, err, ◌>>=◌, ◌>>◌, ok_or, fail_if, invalid_tag, serialize_failed, empty_witness,
  unparsed_witness, empty_batch, wrong_inputs,
}
use bitcoin_ipc.Bytes.{front, drop, same_bytes}
use bitcoin_ipc.Subnet.{SubnetState}
use bitcoin_ipc.Batch.{IpcBatchTransferMsg}
use bitcoin_ipc.Types.{SubnetId, EthAddress, Address, Amount, Txid, TxIn}
use bitcoin_ipc.Records.{
  IpcCrossSubnetTransfer, IpcErcTokenRegistration, IpcErcSupplyAdjustment,
  IpcCrossSubnetErcTransfer,
}
use bitcoin_ipc.Db.{Db, get_subnet_state}
use bitcoin_ipc.Msg.Checkpoint.{IpcCheckpointSubnetMsg}

pub record IpcCrossSubnetErcTransferWire : Type 0 where
  pub home_subnet_id : SubnetId
  pub home_token_address : EthAddress
  pub amount : ℕ
  pub recipient : EthAddress

-- A `HashMap` as the list of its entries.
abbrev pub Grouped {ℓ} : Type ℓ → Type ℓ
Grouped V = List (SubnetId × List V)

pub record BatchTransferWireData : Type 0 where
  pub transfers : Grouped (EthAddress × Amount)
  pub token_registrations : List IpcErcTokenRegistration
  pub token_supply_adjustments : List IpcErcSupplyAdjustment
  pub token_transfers : Grouped IpcCrossSubnetErcTransferWire

abbrev pub is_empty {ℓ} : {A : Type ℓ} → List A → Bool
is_empty [] = true
is_empty (a ∷ rest) = false

-- Whether a checkpoint has anything for a batch.
unfoldable pub has_transfers : IpcCheckpointSubnetMsg → Bool
has_transfers m =
    not (is_empty m.transfers)
    || not (is_empty m.token_registrations)
    || not (is_empty m.token_supply_adjustments)
    || not (is_empty m.token_transfers)

-- `entry(key).or_default().push(value)`
unfoldable pub push_entry : {V : Type 0} → SubnetId → V → Grouped V → Grouped V
push_entry key value [] = (key, value ∷ []) ∷ []
push_entry key value ((other, values) ∷ groups) =
    if other == key
    then (other, values ++ value ∷ []) ∷ groups
    else (other, values) ∷ push_entry key value groups

-- `for item in items { groups.entry(key(item)).or_default().push(value(item)) }`
unfoldable pub group_by : {A V : Type 0} → (A → SubnetId) → (A → V) → List A → Grouped V → Grouped V
unfolding push_entry
group_by key value [] groups = groups
group_by key value (item ∷ items) groups =
    group_by key value items (push_entry (key item) (value item) groups)

abbrev pub to_wire : IpcCrossSubnetErcTransfer → IpcCrossSubnetErcTransferWire
to_wire etx = record {
  home_subnet_id = etx.home_subnet_id;
  home_token_address = etx.home_token_address;
  amount = etx.amount;
  recipient = etx.recipient;
}

abbrev pub paid_to : IpcCrossSubnetTransfer → EthAddress × Amount
paid_to t = (t.subnet_user_address, t.amount)

-- The first part of `make_batched_transfer_data`.
unfoldable pub wire_data : IpcCheckpointSubnetMsg → BatchTransferWireData
unfolding group_by
wire_data m = record {
  transfers =
      group_by (λ (t : IpcCrossSubnetTransfer). t.destination_subnet_id) paid_to m.transfers [];
  token_registrations = m.token_registrations;
  token_supply_adjustments = m.token_supply_adjustments;
  token_transfers =
      group_by (λ (t : IpcCrossSubnetErcTransfer). t.destination_subnet_id) to_wire
        m.token_transfers [];
}

abbrev pub native_transfer : SubnetId → Address → EthAddress × Amount → IpcCrossSubnetTransfer
native_transfer id multisig (user, amount) = record {
  amount = amount;
  destination_subnet_id = id;
  subnet_multisig_address = some multisig;
  subnet_user_address = user;
}

-- The transfers of a group; those to an unknown subnet are skipped.
unfoldable pub native_group :
    Option SubnetState → SubnetId → List (EthAddress × Amount) → List IpcCrossSubnetTransfer
native_group none id transfer_list = []
native_group (some subnet) id transfer_list =
    map (native_transfer id subnet.committee.multisig_address) transfer_list

unfoldable pub native_transfers : Db → Grouped (EthAddress × Amount) → List IpcCrossSubnetTransfer
unfolding native_group
native_transfers db [] = []
native_transfers db ((id, transfer_list) ∷ groups) =
    native_group (get_subnet_state db id) id transfer_list ++ native_transfers db groups

abbrev pub from_wire : SubnetId → IpcCrossSubnetErcTransferWire → IpcCrossSubnetErcTransfer
from_wire id w = record {
  home_subnet_id = w.home_subnet_id;
  home_token_address = w.home_token_address;
  amount = w.amount;
  destination_subnet_id = id;
  recipient = w.recipient;
}

unfoldable pub erc_transfers :
    Grouped IpcCrossSubnetErcTransferWire → List IpcCrossSubnetErcTransfer
erc_transfers [] = []
erc_transfers ((id, records) ∷ groups) = map (from_wire id) records ++ erc_transfers groups

-- `IPC_TRANSFER_TAG`, "IPCTFR".
abbrev pub transfer_tag : List ℕ
transfer_tag = 73 ∷ 80 ∷ 67 ∷ 84 ∷ 70 ∷ 82 ∷ []

-- `postcard`, and the pushed data of a script. The iteration order of a deserialized map is part of
-- `from_bytes`.
pub record Codec : Type 0 where
  pub to_stdvec : BatchTransferWireData → Option (List ℕ)
  pub from_bytes : List ℕ → Option BatchTransferWireData
  pub push_data_script : List ℕ → List ℕ
  pub concatenate_op_push_data : List ℕ → Option (List ℕ)

unfoldable pub make_batched_transfer_data : Codec → IpcCheckpointSubnetMsg → Result (List ℕ)
unfolding wire_data
make_batched_transfer_data c m = do
  binary ← ok_or (c.to_stdvec (wire_data m)) serialize_failed
  ok (transfer_tag ++ binary)

unfoldable pub witness_to_wire_data : Codec → List ℕ → Result BatchTransferWireData
unfolding front drop same_bytes
witness_to_wire_data c witness_data = do
  fail_if (ltb (length witness_data) 6 || not (same_bytes (front 6 witness_data) transfer_tag))
      invalid_tag
  ok_or (c.from_bytes (drop 6 witness_data)) serialize_failed

abbrev first_of {ℓ} : {A : Type ℓ} → List A → Option A
first_of [] = none
first_of (a ∷ rest) = some a

-- `subnet_id` is filled in later.
unfoldable pub from_input : Codec → Db → TxIn → Result IpcBatchTransferMsg
unfolding witness_to_wire_data native_transfers erc_transfers
from_input c db input = do
  script ← ok_or (first_of input.witness) empty_witness
  witness_data ← ok_or (c.concatenate_op_push_data script) unparsed_witness
  wire ← witness_to_wire_data c witness_data
  fail_if
      (is_empty (native_transfers db wire.transfers)
        && is_empty wire.token_registrations
        && is_empty wire.token_supply_adjustments
        && is_empty (erc_transfers wire.token_transfers))
      empty_batch
  ok (record {
    subnet_id = 0;
    checkpoint_txid = input.txid;
    checkpoint_vout = input.vout;
    transfers = native_transfers db wire.transfers;
    token_registrations = wire.token_registrations;
    token_supply_adjustments = wire.token_supply_adjustments;
    token_transfers = erc_transfers wire.token_transfers;
  })

unfoldable pub from_tx : Codec → Db → List TxIn → Result IpcBatchTransferMsg
unfolding from_input
from_tx c db (input ∷ []) = from_input c db input
from_tx c db _ = err wrong_inputs
