-- ===== src/Tests/Stored.antt =====
-- Tests and examples on frozen subnets, confirmed stake changes and registered tokens.
use mathlib.Core.Option.{map}
use bitcoin_ipc.Prelude.{ℕ, ◌≡◌, refl, none, some, [], ◌∷◌, ◌&&◌, ◌==◌, if◌then◌else◌}
use bitcoin_ipc.Result.{ok, err, invalid_config}
use bitcoin_ipc.Table.{get}
use bitcoin_ipc.Rewards.{RewardConfig, validate_config, new_config}
use bitcoin_ipc.Subnet.{
  SubnetGenesisInfo, GenesisBalanceEntry, SubnetState, to_be_killed, is_killed_or_pending,
}
use bitcoin_ipc.Records.{StakeChangeRequest, IpcFundSubnetMsg, IpcErcTokenRegistration, deposit}
use bitcoin_ipc.Db.{Db, get_subnet_state, get_token_balance}
use bitcoin_ipc.Db.StakeChanges.{get_stake_change, confirm_stake_changes}
use bitcoin_ipc.Db.StakeChanges.Confirmed.{after_checkpoint, confirm_stake_changes_lem}
use bitcoin_ipc.Erc.{Balances, validate_erc_batch_data}
use bitcoin_ipc.Erc.Apply.{apply_erc_batch}
use bitcoin_ipc.Erc.Registered.{registers_again}
use bitcoin_ipc.Msg.Fund.{save_fund}
use bitcoin_ipc.Msg.Join.{IpcJoinSubnetMsg, save_join}
use bitcoin_ipc.Msg.Stake.{IpcStakeCollateralMsg, stake_change, save_stake}
use bitcoin_ipc.Msg.Unstake.{IpcUnstakeCollateralMsg, save_unstake}
use bitcoin_ipc.Msg.Frozen.{IsRefused, IsFrozen, saves_frozen}
use bitcoin_ipc.Tests.Values.{env, genesis, bob, only_alice, alice_and_bob, state, database}

abbrev marked : SubnetState
marked = record (state only_alice none) { killed = to_be_killed }

abbrev stake_msg : IpcStakeCollateralMsg
stake_msg = record { subnet_id = 7; amount = 1_000_000; pubkey = 1 }

abbrev unstake_msg : IpcUnstakeCollateralMsg
unstake_msg = record { subnet_id = 7; amount = 1_000_000; pubkey = some 1 }

abbrev join_msg : IpcJoinSubnetMsg
join_msg = record { subnet_id = 7; collateral = 1_000_000; ip = 0; backup_address = 0; pubkey = 3 }

abbrev fund_msg : IpcFundSubnetMsg
fund_msg = record { subnet_id = 7; amount = 50; address = 4 }

marked-IsFrozen : IsFrozen (database marked []) 7
unfolding IsFrozen get_subnet_state get is_killed_or_pending
marked-IsFrozen = (marked, refl, refl)

saves_frozen_example :
    IsRefused (save_stake env stake_msg (database marked []) 130 11 12)
    × IsRefused (save_unstake env unstake_msg (database marked []) 130 11 12)
    × IsRefused (save_join env join_msg (database marked []) 130 11 12)
    × IsRefused (save_fund fund_msg (database marked []) 130 11 12)
saves_frozen_example =
    saves_frozen env (database marked []) 130 11 12 7 stake_msg unstake_msg join_msg fund_msg
      marked-IsFrozen refl refl refl refl

-- Two unconfirmed changes, of which a checkpoint confirms the first.
abbrev change : ℕ → StakeChangeRequest
change number = stake_change (deposit 2_000_000) bob 2 alice_and_bob number 121 10 9

abbrev two_changes : Db
two_changes = database (state only_alice none) ((1, change 1) ∷ (2, change 2) ∷ [])

confirm_stake_changes_lem_example :
    get_stake_change (confirm_stake_changes two_changes 7 1 130 11).0 7 1
    ≡ map (after_checkpoint 1 130 11) (get_stake_change two_changes 7 1)
unfolding get stake_change
confirm_stake_changes_lem_example =
    confirm_stake_changes_lem two_changes 7 1 130 11 1 (refl, refl, (refl, refl, tt))

-- Subnet 8 holds all 60 of the token 9 of subnet 7.
abbrev bridged_out : Db
bridged_out = record (database (state only_alice none) []) {
  token_balances =
      λ home token holder. if home == 7 && token == 9 && holder == 8 then some 60 else none;
}

abbrev again : IpcErcTokenRegistration
again = record {
  home_token_address = 9;
  name = "Again";
  symbol = "AGN";
  decimals = 18;
  initial_supply = 60;
}

registers_again_example :
    (fb : Balances) × (db' : Db) × (validate_erc_batch_data bridged_out 7 (again ∷ []) [] []
      ≡ ok fb)
    × (apply_erc_batch 7
          (record { block_height = 130; block_hash = 11; txid = 12 })
          (again ∷ [])
          []
          []
          bridged_out
        ≡ ok db')
    × ((holder : ℕ)
        → get_token_balance db' 7 9 holder
          ≡ (if holder == 7 then 60 else get_token_balance bridged_out 7 9 holder))
unfolding get_token_balance
registers_again_example =
    registers_again bridged_out 7 (record { block_height = 130; block_hash = 11; txid = 12 }) again
      refl

-- Snapshots of five blocks from height 100 on.
abbrev snapshots : RewardConfig
snapshots = record { activation_height = 100; snapshot_length = 5 }

no_empty_snapshots : new_config 100 0 ≡ err invalid_config
unfolding new_config validate_config
no_empty_snapshots = refl

-- Address 3 prefunds twice.
abbrev entry : ℕ → ℕ → GenesisBalanceEntry
entry address amount = record {
  subnet_address = address;
  amount = amount;
  prefund_txid = 1;
  block_height = 101;
}

abbrev prefunds : SubnetGenesisInfo
prefunds = record (genesis []) {
  genesis_balance_entries = entry 3 10 ∷ entry 4 20 ∷ entry 3 5 ∷ [];
}
