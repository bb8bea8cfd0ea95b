-- ===== src/Tests/Messages.antt =====
-- The messages that the tests on checkpoint transactions share, and what the bitcoin crate gives them.
use bitcoin_ipc.Prelude.{ℕ, true, some, none, Option, List, [], ◌∷◌}
use bitcoin_ipc.Types.{SubnetId, Address, Amount, TxOut, Script, op_return, pay_to}
use bitcoin_ipc.Committee.{SubnetValidator}
use bitcoin_ipc.Records.{IpcCrossSubnetTransfer, IpcCrossSubnetErcTransfer, IpcUnstake}
use bitcoin_ipc.Db.{Db}
use bitcoin_ipc.Msg.Checkpoint.{IpcCheckpointSubnetMsg}
use bitcoin_ipc.Checkpoint.Metadata.{op_return_data}
use bitcoin_ipc.Checkpoint.Wire.{Codec, wire_data, group_by, push_entry}
use bitcoin_ipc.Checkpoint.Outputs.{Builder}
use bitcoin_ipc.Tests.Values.{alice, bob, alice_and_bob, state, database}
use mathlib.Core.List.{Perm}
use mathlib.Core.List.Permᴰ

abbrev pub members : List SubnetValidator
members = record alice { backup_address = 31 } ∷ record bob { backup_address = 32 } ∷ []

abbrev pub db : Db
db = database (state (record alice_and_bob { validators = members }) (some 0)) []

abbrev pub alice_leaves : IpcUnstake
alice_leaves = record { amount = 100; address = 31; pubkey = 1 }

abbrev pub bob_leaves : IpcUnstake
bob_leaves = record { amount = 200; address = 32; pubkey = 2 }

-- One withdrawal and two unstakes.
abbrev pub plain : IpcCheckpointSubnetMsg
plain = record {
  subnet_id = 7;
  checkpoint_hash = 9;
  checkpoint_height = 20;
  next_committee_configuration_number = 1;
  withdrawals = (record { amount = 300; address = 61 }) ∷ [];
  transfers = [];
  token_registrations = [];
  token_supply_adjustments = [];
  token_transfers = [];
  unstakes = alice_leaves ∷ bob_leaves ∷ [];
  change_address = none;
  is_kill_checkpoint = true;
}

abbrev pub native : Amount → IpcCrossSubnetTransfer
native amount = record {
  amount = amount;
  destination_subnet_id = 7;
  subnet_multisig_address = some 844;
  subnet_user_address = 3;
}

abbrev pub sixty : IpcCrossSubnetErcTransfer
sixty = record {
  home_subnet_id = 7;
  home_token_address = 5;
  amount = 60;
  destination_subnet_id = 8;
  recipient = 3;
}

-- Two transfers to one subnet, and an ERC transfer.
abbrev pub batched : IpcCheckpointSubnetMsg
batched = record plain {
  transfers = native 5 ∷ native 6 ∷ [];
  token_transfers = sixty ∷ [];
  unstakes = [];
}

-- An ERC transfer only.
abbrev pub erc_only : IpcCheckpointSubnetMsg
erc_only = record plain { token_transfers = sixty ∷ [] }

-- It writes and reads the data of the one message.
unfoldable pub codec : IpcCheckpointSubnetMsg → Codec
unfolding wire_data group_by push_entry
codec m = record {
  to_stdvec = λ w. some (1 ∷ []);
  from_bytes = λ bytes. some (wire_data m);
  push_data_script = λ bytes. bytes;
  concatenate_op_push_data = λ script. some script;
}

unfoldable pub builder : IpcCheckpointSubnetMsg → Builder
unfolding codec
builder m = record {
  codec = codec m;
  is_valid_for_network = λ address. true;
  minimal_non_dust = λ script. 330;
  minimal_non_dust_custom = λ script. 400;
  commit_address = λ script. 99;
  control_block = λ script. [];
  reveal_weight = λ witness out. 500;
  fee_wu = λ weight. some weight;
  iter = λ totals. totals;
}

pub in_order :
    (m : IpcCheckpointSubnetMsg) (totals : List (SubnetId × (Amount × Address)))
    → Perm ((builder m).iter totals) totals
unfolding builder
in_order m totals = ∣ Permᴰ.refl totals ∣₁

abbrev pub pushed : Script → Option (List ℕ)
pushed (op_return bytes) = some bytes
pushed (pay_to address) = none

abbrev pub paying : Amount → Address → TxOut
paying value address = record { value = value; script_pubkey = pay_to address }

abbrev pub metadata_out : IpcCheckpointSubnetMsg → TxOut
metadata_out m = record { value = 400; script_pubkey = op_return (op_return_data m) }

-- A transfer before and after its subnet is looked up.
abbrev pub unaddressed : IpcCheckpointSubnetMsg
unaddressed = record batched {
  transfers = (record (native 5) { subnet_multisig_address = none }) ∷ [];
}

abbrev pub addressed : IpcCheckpointSubnetMsg
addressed = record batched { transfers = native 5 ∷ [] }
