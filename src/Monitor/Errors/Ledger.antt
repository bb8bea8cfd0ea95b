-- ===== src/Monitor/Errors/Ledger.antt =====
-- src/ipc_lib.rs: the errors of `IpcBatchTransferMsg::save_to_db`.
use bitcoin_ipc.Prelude.{◌+◌, ◌≡◌, refl, none, List, [], ◌∷◌, arith}
use bitcoin_ipc.Result.{Error, err, subnet_not_found, no_checkpoints, checkpoint_missing}
use bitcoin_ipc.Types.{SubnetId}
use bitcoin_ipc.Records.{IpcErcTokenRegistration, IpcErcSupplyAdjustment, IpcCrossSubnetErcTransfer}
use bitcoin_ipc.Db.{Db, get_subnet_state, get_checkpoint, save_checkpoint, get_all_subnets}
use bitcoin_ipc.Erc.{
  Balances, check_registration, check_registrations, check_mints, check_burn, check_burns,
  check_transfer, check_transfers, validate_erc_batch_data,
}
use bitcoin_ipc.Erc.Apply.{
  BlockStamp, apply_burn, apply_burns, apply_transfer, apply_transfers, apply_erc_batch,
  apply_mints, apply_registrations,
}
use bitcoin_ipc.Batch.{IpcBatchTransferMsg, save_batch, with_batch, send_transfers}
use bitcoin_ipc.Monitor.{is_ignorable}
use bitcoin_ipc.Monitor.Errors.{Ignorable, bind-errors, get-errors}

module _ (db : Db) (source : SubnetId) where
  check_registration-Ignorable :
      (etr : IpcErcTokenRegistration) (fb : Balances) (e : Error)
      → check_registration db source etr fb ≡ err e
      → Ignorable e
  unfolding check_registration is_ignorable
  check_registration-Ignorable etr fb e h = ground arith

  check_registrations-Ignorable :
      (rs : List IpcErcTokenRegistration) (fb : Balances) (e : Error)
      → check_registrations db source rs fb ≡ err e
      → Ignorable e
  unfolding check_registrations
  check_registrations-Ignorable [] fb e h = cc
  check_registrations-Ignorable (r ∷ rs) fb e h =
      bind-errors Ignorable (check_registration db source r fb) _ e h
        (check_registration-Ignorable r fb e) λ fb' _ h. check_registrations-Ignorable rs fb' e h

  check_burn-Ignorable :
      (ets : IpcErcSupplyAdjustment) (fb : Balances) (e : Error)
      → check_burn db source ets fb ≡ err e
      → Ignorable e
  unfolding check_burn is_ignorable
  check_burn-Ignorable ets fb e h = ground arith

  check_burns-Ignorable :
      (rs : List IpcErcSupplyAdjustment) (fb : Balances) (e : Error)
      → check_burns db source rs fb ≡ err e
      → Ignorable e
  unfolding check_burns
  check_burns-Ignorable [] fb e h = cc
  check_burns-Ignorable (r ∷ rs) fb e h =
      bind-errors Ignorable (check_burn db source r fb) _ e h (check_burn-Ignorable r fb e)
        λ fb' _ h. check_burns-Ignorable rs fb' e h

  check_transfer-Ignorable :
      (etx : IpcCrossSubnetErcTransfer) (fb : Balances) (e : Error)
      → check_transfer db source etx fb ≡ err e
      → Ignorable e
  unfolding check_transfer is_ignorable
  check_transfer-Ignorable etx fb e h = ground arith

  check_transfers-Ignorable :
      (rs : List IpcCrossSubnetErcTransfer) (fb : Balances) (e : Error)
      → check_transfers db source rs fb ≡ err e
      → Ignorable e
  unfolding check_transfers
  check_transfers-Ignorable [] fb e h = cc
  check_transfers-Ignorable (r ∷ rs) fb e h =
      bind-errors Ignorable (check_transfer db source r fb) _ e h (check_transfer-Ignorable r fb e)
        λ fb' _ h. check_transfers-Ignorable rs fb' e h

  validate_erc_batch_data-Ignorable :
      (a : List IpcErcTokenRegistration) (b : List IpcErcSupplyAdjustment)
      (t : List IpcCrossSubnetErcTransfer) (e : Error)
      → validate_erc_batch_data db source a b t ≡ err e
      → Ignorable e
  unfolding validate_erc_batch_data
  validate_erc_batch_data-Ignorable a b t e h =
      bind-errors Ignorable (check_registrations db source a (λ home token. none)) _ e h
        (check_registrations-Ignorable a _ e)
        λ registered _ h.
          bind-errors Ignorable (check_burns db source b (check_mints db source b registered)) _ e h
            (check_burns-Ignorable b _ e) λ burnt _ h. check_transfers-Ignorable t burnt e h

module _ (source : SubnetId) (b : BlockStamp) where
  apply_burn-Ignorable :
      (ems : IpcErcSupplyAdjustment) (db : Db) (e : Error)
      → apply_burn source ems db ≡ err e
      → Ignorable e
  unfolding apply_burn is_ignorable
  apply_burn-Ignorable ems db e h = ground arith

  apply_burns-Ignorable :
      (rs : List IpcErcSupplyAdjustment) (db : Db) (e : Error)
      → apply_burns source rs db ≡ err e
      → Ignorable e
  unfolding apply_burns
  apply_burns-Ignorable [] db e h = cc
  apply_burns-Ignorable (r ∷ rs) db e h =
      bind-errors Ignorable (apply_burn source r db) _ e h (apply_burn-Ignorable r db e)
        λ db' _ h. apply_burns-Ignorable rs db' e h

  apply_transfer-Ignorable :
      (etx : IpcCrossSubnetErcTransfer) (db : Db) (e : Error)
      → apply_transfer source b etx db ≡ err e
      → Ignorable e
  unfolding apply_transfer is_ignorable
  apply_transfer-Ignorable etx db e h = ground arith

  apply_transfers-Ignorable :
      (rs : List IpcCrossSubnetErcTransfer) (db : Db) (e : Error)
      → apply_transfers source b rs db ≡ err e
      → Ignorable e
  unfolding apply_transfers
  apply_transfers-Ignorable [] db e h = cc
  apply_transfers-Ignorable (r ∷ rs) db e h =
      bind-errors Ignorable (apply_transfer source b r db) _ e h (apply_transfer-Ignorable r db e)
        λ db' _ h. apply_transfers-Ignorable rs db' e h

  apply_erc_batch-Ignorable :
      (rs : List IpcErcTokenRegistration) (as' : List IpcErcSupplyAdjustment)
      (ts : List IpcCrossSubnetErcTransfer) (db : Db) (e : Error)
      → apply_erc_batch source b rs as' ts db ≡ err e
      → Ignorable e
  unfolding apply_erc_batch
  apply_erc_batch-Ignorable rs as' ts db e h =
      bind-errors Ignorable
        (apply_burns source as'
          (apply_mints source as' (apply_registrations source b (get_all_subnets db) rs db)))
        _ e h (apply_burns-Ignorable as' _ e) λ burnt _ h. apply_transfers-Ignorable ts burnt e h

pub save_batch-Ignorable :
    (m : IpcBatchTransferMsg) (db : Db) (b : BlockStamp) (e : Error)
    → save_batch m db b ≡ err e
    → Ignorable e
unfolding save_batch is_ignorable
save_batch-Ignorable m db b e h =
    get-errors Ignorable (get_subnet_state db m.subnet_id) subnet_not_found _ e h refl λ s _ h.
      get-errors Ignorable s.last_checkpoint_number no_checkpoints _ e h refl λ n _ h.
        get-errors Ignorable (get_checkpoint db m.subnet_id n) checkpoint_missing _ e h refl
          λ c _ h.
            bind-errors Ignorable
              (validate_erc_batch_data db m.subnet_id m.token_registrations
                m.token_supply_adjustments m.token_transfers)
              _ e h (validate_erc_batch_data-Ignorable db m.subnet_id _ _ _ e)
              λ fb _ h.
                bind-errors Ignorable
                  (apply_erc_batch m.subnet_id b m.token_registrations m.token_supply_adjustments
                    m.token_transfers
                    (send_transfers b m.transfers
                      (save_checkpoint db m.subnet_id (with_batch c b) (n + 1))))
                  _ e h (apply_erc_batch-Ignorable m.subnet_id b _ _ _ _ e) λ db' _ h. cc
