-- ===== src/Batch/Checkpoints.antt =====
-- src/ipc_lib.rs: where `IpcBatchTransferMsg::save_to_db` leaves the checkpoint records.
use bitcoin_ipc.Prelude.{ℕ, ◌+◌, ◌≡◌, refl, ◌∙◌, Option, some, List, [], ◌∷◌, arith, ap, subst}
use bitcoin_ipc.Result.{ok, ok_or, >>=-eq-ok, ok_or-eq-ok}
use bitcoin_ipc.Types.{SubnetId}
use bitcoin_ipc.Subnet.{SubnetState}
use bitcoin_ipc.Records.{
  SubnetCheckpoint, IpcErcTokenRegistration, IpcErcSupplyAdjustment, IpcCrossSubnetErcTransfer,
}
use bitcoin_ipc.Db.{
  Db, get_subnet_state, get_checkpoint, save_checkpoint, set_token_balance, add_rootnet_msg,
  get_all_subnets,
}
use bitcoin_ipc.Erc.{validate_erc_batch_data}
use bitcoin_ipc.Erc.Apply.{
  BlockStamp, send, announce_to, announce, apply_registration, apply_registrations, apply_mint,
  apply_mints, apply_burn, apply_burns, move_tokens, apply_transfer, apply_transfers,
  apply_erc_batch,
}
use bitcoin_ipc.Records.{IpcCrossSubnetTransfer}
use bitcoin_ipc.Batch.{IpcBatchTransferMsg, send_transfer, send_transfers, with_batch, save_batch}

-- Two databases with the same checkpoint records.
abbrev SameCheckpoints : Db → Db → Type 0
SameCheckpoints db db' = db'.checkpoints ≡ db.checkpoints

module _ (b : BlockStamp) where
  send_transfers-SameCheckpoints :
      (transfers : List IpcCrossSubnetTransfer) (db : Db)
      → SameCheckpoints db (send_transfers b transfers db)
  unfolding send_transfers send_transfer send add_rootnet_msg
  send_transfers-SameCheckpoints [] db = refl
  send_transfers-SameCheckpoints (t ∷ transfers) db =
      send_transfers-SameCheckpoints transfers (send_transfer b t db)

  module _ (source : SubnetId) where
    announce-SameCheckpoints :
        (etr : IpcErcTokenRegistration) (subnets : List SubnetState) (db : Db)
        → SameCheckpoints db (announce source b etr subnets db)
    unfolding announce announce_to send add_rootnet_msg
    announce-SameCheckpoints etr [] db = refl
    announce-SameCheckpoints etr (s ∷ subnets) db =
        announce-SameCheckpoints etr subnets (announce_to source b etr s db) ∙ ground arith

    registrations-SameCheckpoints :
        (subnets : List SubnetState) (etrs : List IpcErcTokenRegistration) (db : Db)
        → SameCheckpoints db (apply_registrations source b subnets etrs db)
    unfolding apply_registrations apply_registration set_token_balance
    registrations-SameCheckpoints subnets [] db = refl
    registrations-SameCheckpoints subnets (etr ∷ etrs) db =
        registrations-SameCheckpoints subnets etrs (apply_registration source b subnets etr db)
        ∙ announce-SameCheckpoints etr subnets _

    transfer-SameCheckpoints :
        (etx : IpcCrossSubnetErcTransfer) (db db' : Db)
        → apply_transfer source b etx db ≡ ok db'
        → SameCheckpoints db db'
    unfolding apply_transfer move_tokens set_token_balance send add_rootnet_msg
    transfer-SameCheckpoints etx db db' e = ground arith

    transfers-SameCheckpoints :
        (etxs : List IpcCrossSubnetErcTransfer) (db db' : Db)
        → apply_transfers source b etxs db ≡ ok db'
        → SameCheckpoints db db'
    unfolding apply_transfers
    transfers-SameCheckpoints [] db db' e = ground arith
    transfers-SameCheckpoints (etx ∷ rest) db db' e =
        let (db₁, first, others) = >>=-eq-ok (apply_transfer source b etx db) _ e in
        transfers-SameCheckpoints rest db₁ db' others ∙ transfer-SameCheckpoints etx db db₁ first

module _ (source : SubnetId) where
  mints-SameCheckpoints :
      (adjustments : List IpcErcSupplyAdjustment) (db : Db)
      → SameCheckpoints db (apply_mints source adjustments db)
  unfolding apply_mints apply_mint set_token_balance
  mints-SameCheckpoints [] db = refl
  mints-SameCheckpoints (ets ∷ rest) db =
      mints-SameCheckpoints rest (apply_mint source ets db) ∙ ground arith

  burn-SameCheckpoints :
      (ets : IpcErcSupplyAdjustment) (db db' : Db)
      → apply_burn source ets db ≡ ok db'
      → SameCheckpoints db db'
  unfolding apply_burn set_token_balance
  burn-SameCheckpoints ets db db' e = ground arith

  burns-SameCheckpoints :
      (adjustments : List IpcErcSupplyAdjustment) (db db' : Db)
      → apply_burns source adjustments db ≡ ok db'
      → SameCheckpoints db db'
  unfolding apply_burns
  burns-SameCheckpoints [] db db' e = ground arith
  burns-SameCheckpoints (ets ∷ rest) db db' e =
      let (db₁, first, others) = >>=-eq-ok (apply_burn source ets db) _ e in
      burns-SameCheckpoints rest db₁ db' others ∙ burn-SameCheckpoints ets db db₁ first

apply_erc_batch-SameCheckpoints :
    (source : SubnetId) (b : BlockStamp) (etrs : List IpcErcTokenRegistration)
    (adjustments : List IpcErcSupplyAdjustment) (etxs : List IpcCrossSubnetErcTransfer)
    (db db' : Db)
    → apply_erc_batch source b etrs adjustments etxs db ≡ ok db'
    → SameCheckpoints db db'
unfolding apply_erc_batch
apply_erc_batch-SameCheckpoints source b etrs adjustments etxs db db' e =
    let (db₁, burnt, moved) = >>=-eq-ok (apply_burns source adjustments _) _ e in
    transfers-SameCheckpoints b source etxs db₁ db' moved
    ∙ burns-SameCheckpoints source adjustments _ db₁ burnt
    ∙ mints-SameCheckpoints source adjustments _
    ∙ registrations-SameCheckpoints b source (get_all_subnets db) etrs db

checkpoint_written :
    (db db' : Db) (id : SubnetId) (number : ℕ) (c : SubnetCheckpoint)
    → SameCheckpoints (save_checkpoint db id c (number + 1)) db'
    → (get_checkpoint db' id (number + 1) ≡ some c)
      × (get_checkpoint db' id number ≡ get_checkpoint db id number)
unfolding get_checkpoint save_checkpoint
checkpoint_written db db' id number c e =
    let last = ap (λ (f : ℕ → ℕ → Option SubnetCheckpoint). f id number) e in
    let next = ap (λ (f : ℕ → ℕ → Option SubnetCheckpoint). f id (number + 1)) e in
    (ground arith, ground arith)

-- The record of the last checkpoint with the transaction and the height of the batch, and where it
-- is found.
abbrev IsMisplaced :
    Db → SubnetId → ℕ → BlockStamp → SubnetCheckpoint → SubnetCheckpoint × Db → Type 0
IsMisplaced db id number b old (c, db') =
    (c ≡ record old {
      batch_transfer_txid = some b.txid;
      batch_transfer_block_height = some b.block_height;
    })
    × (get_checkpoint db' id (number + 1) ≡ some c)
    × (get_checkpoint db' id number ≡ some old)

-- A batch that is saved puts the record of the last checkpoint, with the transaction and the height
-- of the batch and otherwise unchanged, under the number after the last checkpoint, and leaves the
-- last checkpoint's own record as it was: `number` is the last checkpoint's number, `old` its
-- record, and `c` the updated record, which also comes back.
pub save_batch_misplaces_checkpoint :
    (m : IpcBatchTransferMsg) (db db' : Db) (b : BlockStamp) (s : SubnetState) (number : ℕ)
    (c : SubnetCheckpoint)
    → get_subnet_state db m.subnet_id ≡ some s
    → s.last_checkpoint_number ≡ some number
    → save_batch m db b ≡ ok (c, db')
    → (old : SubnetCheckpoint) × (get_checkpoint db m.subnet_id number ≡ some old)
      × (c ≡ record old {
        batch_transfer_txid = some b.txid;
        batch_transfer_block_height = some b.block_height;
      })
      × (get_checkpoint db' m.subnet_id (number + 1) ≡ some c)
      × (get_checkpoint db' m.subnet_id number ≡ some old)
unfolding save_batch
save_batch_misplaces_checkpoint m db db' b s number c hs hn e =
    let (old, found, e₁) =
      >>=-eq-ok (ok_or (get_checkpoint db m.subnet_id number) _) _ (rw (hs, hn) at e) in
    let (fb, valid, e₂) = >>=-eq-ok (validate_erc_batch_data db m.subnet_id _ _ _) _ e₁ in
    let (db₁, applied, e₃) = >>=-eq-ok (apply_erc_batch m.subnet_id b _ _ _ _) _ e₂ in
    let same : ◌≡◌ {A = SubnetCheckpoint × Db} (with_batch old b, db₁) (c, db') = cc in
    let stored = ok_or-eq-ok _ _ found in
    let (next, last) = checkpoint_written db db₁ m.subnet_id number (with_batch old b) (
      apply_erc_batch-SameCheckpoints m.subnet_id b _ _ _ _ db₁ applied
      ∙ send_transfers-SameCheckpoints b m.transfers _) in
    let (updated, moved, left) =
      subst (IsMisplaced db m.subnet_id number b old) same (refl, next, last ∙ stored) in
    (old, stored, updated, moved, left)
