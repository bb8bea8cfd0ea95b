-- ===== src/Tests/Ledger.antt =====
-- Tests and examples on batches and their ERC operations.
use bitcoin_ipc.Prelude.{◌+◌, ◌≤◌, ◌≡◌, refl, none, some, [], ◌∷◌, arith}
use bitcoin_ipc.Result.{ok}
use bitcoin_ipc.Types.{SubnetId, EthAddress}
use bitcoin_ipc.Table.{get, values, empty-IsDense}
use bitcoin_ipc.Records.{
  pos, erc_transfer, SubnetCheckpoint, IpcErcTokenRegistration, IpcErcSupplyAdjustment,
  IpcCrossSubnetErcTransfer,
}
use bitcoin_ipc.Db.{
  Db, get_subnet_state, get_checkpoint, get_token_balance, set_token_balance, add_rootnet_msg,
  save_checkpoint, get_all_subnets,
}
use bitcoin_ipc.Erc.{
  Balances, u256_max, running, set_balance, saturating_add, check_registration, check_registrations,
  check_mint, check_mints, check_burn, check_burns, check_transfer, check_transfers,
  validate_erc_batch_data,
}
use bitcoin_ipc.Erc.Apply.{
  BlockStamp, send, announce, announce_to, apply_registration, apply_registrations, apply_mint,
  apply_mints, apply_burn, apply_burns, move_tokens, apply_transfer, apply_transfers,
  apply_erc_batch,
}
use bitcoin_ipc.Erc.Covered.{IsCovered}
use bitcoin_ipc.Erc.Agree.{Covers, apply_erc_batch-Covers}
use bitcoin_ipc.Erc.Supply.{supply, supply-apply_transfers}
use bitcoin_ipc.Batch.{IpcBatchTransferMsg, send_transfer, send_transfers, with_batch, save_batch}
use bitcoin_ipc.Batch.Saved.{save_batch_succeeds}
use bitcoin_ipc.Batch.Checkpoints.{save_batch_misplaces_checkpoint}
use bitcoin_ipc.Batch.Nonces.{HasNonces, save_batch-HasNonces}
use bitcoin_ipc.Tests.Values.{alice_and_bob, state, database, checkpoint}

-- Subnet 7 holds 100 of its token 5.
abbrev db : Db
db = database (state alice_and_bob (some 0)) []

abbrev block : BlockStamp
block = record { block_height = 130; block_hash = 11; txid = 12 }

-- Subnet 8 is given 60.
abbrev sixty : IpcCrossSubnetErcTransfer
sixty = record {
  home_subnet_id = 7;
  home_token_address = 5;
  amount = 60;
  destination_subnet_id = 8;
  recipient = 3;
}

-- Token 6 is registered with a supply of 40.
abbrev new_token : IpcErcTokenRegistration
new_token = record {
  home_token_address = 6;
  name = "New";
  symbol = "NEW";
  decimals = 18;
  initial_supply = 40;
}

abbrev mint_ten : IpcErcSupplyAdjustment
mint_ten = record { home_token_address = 5; delta = pos 10 }

-- What the check leaves of the two tokens.
abbrev checked : Balances
checked = set_balance (set_balance (set_balance (λ home token. none) 7 6 40) 7 5 110) 7 5 50

abbrev batch : IpcBatchTransferMsg
batch = record {
  subnet_id = 7;
  checkpoint_txid = 9;
  checkpoint_vout = 1;
  transfers =
      (record {
        amount = 5;
        destination_subnet_id = 8;
        subnet_multisig_address = none;
        subnet_user_address = 3;
      })
      ∷ [];
  token_registrations = new_token ∷ [];
  token_supply_adjustments = mint_ten ∷ [];
  token_transfers = sixty ∷ [];
}

-- The database after each part of the batch.
abbrev sent_db : Db
sent_db =
    send_transfers block batch.transfers (save_checkpoint db 7 (with_batch checkpoint block) 1)

abbrev minted_db : Db
minted_db =
    apply_mints 7 batch.token_supply_adjustments
      (apply_registrations 7 block (get_all_subnets sent_db) batch.token_registrations sent_db)

abbrev batch_db : Db
batch_db = send (move_tokens 7 sixty minted_db) 8 (erc_transfer sixty) block

batch-fits : (home : SubnetId) (token : EthAddress) → get_token_balance db home token 7 ≤ u256_max
unfolding get_token_balance
batch-fits home token = ground arith

batch-checked :
    validate_erc_batch_data db 7 batch.token_registrations batch.token_supply_adjustments
      batch.token_transfers
    ≡ ok checked
unfolding validate_erc_batch_data check_registrations check_registration check_mints check_mint
    check_burns check_burn check_transfers check_transfer get_token_balance running set_balance
    saturating_add
batch-checked = refl

batch-saved : save_batch batch db block ≡ ok (with_batch checkpoint block, batch_db)
unfolding save_batch get_subnet_state get get_checkpoint validate_erc_batch_data check_registrations
    check_registration check_mints check_mint check_burns check_burn check_transfers check_transfer
    get_token_balance running set_balance saturating_add apply_erc_batch apply_burns apply_burn
    apply_transfers apply_transfer apply_mints apply_mint apply_registrations apply_registration
    announce announce_to get_all_subnets values send_transfers send_transfer send set_token_balance
    move_tokens add_rootnet_msg save_checkpoint
batch-saved = refl

db-IsCovered : IsCovered db 7 (λ home token. none) db
unfolding running
db-IsCovered = record { at = λ home token. omega (arith, batch-fits home token) }

save_batch_succeeds_example :
    (db' : Db) × (save_batch batch db block ≡ ok (with_batch checkpoint block, db'))
unfolding get_subnet_state get get_checkpoint
save_batch_succeeds_example =
    save_batch_succeeds batch db block (state alice_and_bob (some 0)) 0 checkpoint checked refl refl
      refl (omega arith, tt) batch-fits batch-checked

apply_erc_batch-Covers_example : Covers db 7 checked (
    apply_erc_batch 7 block batch.token_registrations batch.token_supply_adjustments
      batch.token_transfers db)
apply_erc_batch-Covers_example =
    apply_erc_batch-Covers db 7 block batch.token_registrations batch.token_supply_adjustments
      batch.token_transfers checked db (omega arith, tt) db-IsCovered batch-checked

save_batch_misplaces_checkpoint_example :
    (old : SubnetCheckpoint) × (get_checkpoint db 7 0 ≡ some old)
    × (with_batch checkpoint block
        ≡ record old { batch_transfer_txid = some 12; batch_transfer_block_height = some 130 })
    × (get_checkpoint batch_db 7 (0 + 1) ≡ some (with_batch checkpoint block))
    × (get_checkpoint batch_db 7 0 ≡ some old)
unfolding get_subnet_state get
save_batch_misplaces_checkpoint_example =
    save_batch_misplaces_checkpoint batch db batch_db block (state alice_and_bob (some 0)) 0
      (with_batch checkpoint block) refl refl batch-saved

db-HasNonces : HasNonces db
unfolding HasNonces
db-HasNonces id = empty-IsDense 0

save_batch-HasNonces_example : HasNonces batch_db
save_batch-HasNonces_example =
    save_batch-HasNonces batch db batch_db block (with_batch checkpoint block) batch-saved
      db-HasNonces

abbrev sixty_db : Db
sixty_db = send (move_tokens 7 sixty db) 8 (erc_transfer sixty) block

sixty-applied : apply_transfers 7 block (sixty ∷ []) db ≡ ok sixty_db
unfolding apply_transfers apply_transfer get_token_balance
sixty-applied = refl

supply-fits : (home : SubnetId) (token : EthAddress) → supply (7 ∷ 8 ∷ []) db home token ≤ u256_max
unfolding supply get_token_balance
supply-fits home token = ground arith

supply-apply_transfers_example : supply (7 ∷ 8 ∷ []) sixty_db 7 5 ≡ supply (7 ∷ 8 ∷ []) db 7 5
supply-apply_transfers_example =
    supply-apply_transfers (7 ∷ 8 ∷ []) 7 refl block (sixty ∷ []) db sixty_db (refl, tt) supply-fits
      sixty-applied 7 5
