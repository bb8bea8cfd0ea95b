-- ===== src/Batch/Saved.antt =====
-- src/ipc_lib.rs: when `IpcBatchTransferMsg::save_to_db` gets through.
use bitcoin_ipc.Prelude.{ℕ, ◌+◌, ◌≤◌, ◌≡◌, refl, ◌∙◌, none, some, List, [], ◌∷◌, arith, All}
use bitcoin_ipc.Result.{ok}
use bitcoin_ipc.Types.{SubnetId, EthAddress}
use bitcoin_ipc.Subnet.{SubnetState}
use bitcoin_ipc.Records.{SubnetCheckpoint, IpcErcTokenRegistration}
use bitcoin_ipc.Db.{Db, get_subnet_state, get_checkpoint, save_checkpoint, get_token_balance}
use bitcoin_ipc.Erc.{Balances, u256_max, running, validate_erc_batch_data}
use bitcoin_ipc.Erc.Apply.{BlockStamp}
use bitcoin_ipc.Erc.Ledger.{get_token_balance-send}
use bitcoin_ipc.Erc.Covered.{IsCovered}
use bitcoin_ipc.Erc.Agree.{apply_erc_batch-Covers}
use bitcoin_ipc.Records.{IpcCrossSubnetTransfer}
use bitcoin_ipc.Batch.{IpcBatchTransferMsg, send_transfer, send_transfers, with_batch, save_batch}

get_token_balance-send_transfers :
    (b : BlockStamp) (transfers : List IpcCrossSubnetTransfer) (db : Db) (home : SubnetId)
    (token : EthAddress) (holder : SubnetId)
    → get_token_balance (send_transfers b transfers db) home token holder
      ≡ get_token_balance db home token holder
unfolding send_transfers send_transfer
get_token_balance-send_transfers b [] db home token holder = refl
get_token_balance-send_transfers b (t ∷ transfers) db home token holder =
    get_token_balance-send_transfers b transfers (send_transfer b t db) home token holder
    ∙ get_token_balance-send home token holder db t.destination_subnet_id _ b

get_token_balance-save_checkpoint :
    (db : Db) (id number : ℕ) (c : SubnetCheckpoint) (home : SubnetId) (token : EthAddress)
    (holder : SubnetId)
    → get_token_balance (save_checkpoint db id c number) home token holder
      ≡ get_token_balance db home token holder
unfolding get_token_balance save_checkpoint
get_token_balance-save_checkpoint db id number c home token holder = refl

-- The database that the ERC operations start from has the balances that the check read.
start-IsCovered :
    (m : IpcBatchTransferMsg) (db : Db) (b : BlockStamp) (number : ℕ) (c : SubnetCheckpoint)
    → ((home : SubnetId) (token : EthAddress)
        → get_token_balance db home token m.subnet_id ≤ u256_max)
    → IsCovered db m.subnet_id
        (λ home token. none)
        (send_transfers b m.transfers (save_checkpoint db m.subnet_id c number))
unfolding running
start-IsCovered m db b number c fits = record {
  at = λ home token. omega (
    arith,
    fits home token,
    get_token_balance-send_transfers b m.transfers (save_checkpoint db m.subnet_id c number) home
        token m.subnet_id,
    get_token_balance-save_checkpoint db m.subnet_id number c home token m.subnet_id,
  );
}

-- For a subnet with a stored last checkpoint, a batch whose ERC data passes the check is saved: no
-- burn or transfer underflows while it is written. Supplies and balances are `U256` values.
pub save_batch_succeeds :
    (m : IpcBatchTransferMsg) (db : Db) (b : BlockStamp) (s : SubnetState) (number : ℕ)
    (c : SubnetCheckpoint) (fb : Balances)
    → get_subnet_state db m.subnet_id ≡ some s
    → s.last_checkpoint_number ≡ some number
    → get_checkpoint db m.subnet_id number ≡ some c
    → All (λ (etr : IpcErcTokenRegistration). etr.initial_supply ≤ u256_max) m.token_registrations
    → ((home : SubnetId) (token : EthAddress)
        → get_token_balance db home token m.subnet_id ≤ u256_max)
    → validate_erc_batch_data db m.subnet_id m.token_registrations m.token_supply_adjustments
        m.token_transfers
      ≡ ok fb
    → (db' : Db) × (save_batch m db b ≡ ok (with_batch c b, db'))
unfolding save_batch
save_batch_succeeds m db b s number c fb hs hn hc supplies fits valid =
    let (db', done, covered) =
      apply_erc_batch-Covers db m.subnet_id b m.token_registrations m.token_supply_adjustments
        m.token_transfers fb _ supplies (start-IsCovered m db b (number + 1) (with_batch c b) fits)
        valid in
    (db', rw (hs, hn, hc, valid, done))
