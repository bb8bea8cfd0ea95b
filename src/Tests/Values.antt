-- ===== src/Tests/Values.antt =====
-- The values that the tests share: a subnet 7 with the validators alice, bob and carol.
use bitcoin_ipc.Prelude.{
  ℕ, ◌+◌, true, false, Option, none, some, List, [], ◌∷◌, sum, ◌==◌, ◌&&◌, if◌then◌else◌,
}
use bitcoin_ipc.Types.{Env, WeightedKey, Power}
use bitcoin_ipc.Table.{Table}
use bitcoin_ipc.Committee.{SubnetValidator, SubnetCommittee}
use bitcoin_ipc.Subnet.{SubnetState, SubnetGenesisInfo, IpcCreateSubnetMsg, not_killed}
use bitcoin_ipc.Records.{SubnetCheckpoint, StakeChangeRequest}
use bitcoin_ipc.Db.{Db}

-- An address that depends on the subnet, the keys and the threshold.
abbrev pub env : Env
env = record {
  taproot_address = λ id keys threshold. id + sum (λ (k : WeightedKey). k.0 + k.1) keys + threshold;
  eth_address = λ key. key;
  stake_diff_small = λ current new. false;
  dev = false;
}

abbrev pub validator : ℕ → Power → ℕ → SubnetValidator
validator key power collateral = record {
  pubkey = key;
  subnet_address = key;
  power = power;
  collateral = collateral;
  backup_address = 0;
  ip = 0;
  join_txid = 0;
}

abbrev pub alice : SubnetValidator
alice = validator 1 300 3_000_000

abbrev pub bob : SubnetValidator
bob = validator 2 200 2_000_000

abbrev pub carol : SubnetValidator
carol = validator 3 100 1_000_000

-- The committee of alice and bob: a total power of 500, and the threshold 334.
abbrev pub alice_and_bob : SubnetCommittee
alice_and_bob = record {
  configuration_number = 0;
  threshold = 334;
  validators = alice ∷ bob ∷ [];
  multisig_address = 844;
}

-- The committee of alice alone.
abbrev pub only_alice : SubnetCommittee
only_alice = record {
  configuration_number = 0;
  threshold = 201;
  validators = alice ∷ [];
  multisig_address = 509;
}

abbrev pub create_msg : IpcCreateSubnetMsg
create_msg = record {
  min_validator_stake = 1_000_000;
  min_validators = 2;
  bottomup_check_period = 10;
  active_validators_limit = 100;
  min_cross_msg_fee = 10;
  whitelist = 1 ∷ 2 ∷ [];
}

abbrev pub genesis : List SubnetValidator → SubnetGenesisInfo
genesis validators = record {
  subnet_id = 7;
  create_subnet_msg = create_msg;
  create_msg_block_height = 100;
  bootstrapped = true;
  genesis_block_height = some 110;
  genesis_validators = validators;
  genesis_balance_entries = [];
}

abbrev pub state : SubnetCommittee → Option ℕ → SubnetState
state c last = record {
  id = 7;
  committee_number = 1;
  committee = c;
  waiting_committee = none;
  last_checkpoint_number = last;
  killed = not_killed;
  marked_for_kill_checkpoint_number = none;
}

abbrev pub checkpoint : SubnetCheckpoint
checkpoint = record {
  checkpoint_number = 0;
  checkpoint_hash = 1;
  checkpoint_height = 10;
  block_height = 120;
  txid = 2;
  batch_transfer_txid = none;
  batch_transfer_block_height = none;
  signed_committee_number = 1;
  next_committee_number = 1;
  next_configuration_number = 0;
  is_kill_checkpoint = false;
}

-- Subnet 7 holds 100 of its own token 5.
abbrev pub database : SubnetState → Table StakeChangeRequest → Db
database s changes = record {
  last_processed_block = some 120;
  subnet_genesis = λ id. some (genesis s.committee.validators);
  subnets = (7, s) ∷ [];
  rootnet_msgs = λ id. [];
  checkpoints = λ id n. if n == 0 then some checkpoint else none;
  transactions = λ txid. none;
  committees = λ id n. if n == 1 then some s.committee else none;
  stake_changes = λ id. changes;
  kill_requests = λ id. [];
  token_balances =
      λ home token holder. if home == 7 && token == 5 && holder == 7 then some 100 else none;
  reward_candidates = λ snapshot. [];
  reward_results = λ snapshot. none;
}
