-- ===== src/Erc/Registered.antt =====
-- src/ipc_lib.rs: the check that a registration is of a new token.
use bitcoin_ipc.Prelude.{◌≡◌, refl, none, [], ◌∷◌, arith, ◌==◌, if◌then◌else◌}
use bitcoin_ipc.Result.{ok}
use bitcoin_ipc.Types.{SubnetId}
use bitcoin_ipc.Records.{IpcErcTokenRegistration}
use bitcoin_ipc.Db.{Db, get_token_balance, get_all_subnets}
use bitcoin_ipc.Erc.{
  Balances, set_balance, check_registration, check_registrations, check_mints, check_burns,
  check_transfers, validate_erc_batch_data,
}
use bitcoin_ipc.Erc.Apply.{
  BlockStamp, apply_registrations, apply_mints, apply_burns, apply_transfers, apply_erc_batch,
}
use bitcoin_ipc.Erc.Ledger.{get-apply_registration}

module _ (db : Db) (source : SubnetId) (b : BlockStamp) (etr : IpcErcTokenRegistration) where
  -- A registration passes the check whenever the home subnet holds nothing of the token, even if
  -- other subnets do; writing it gives the home subnet the initial supply on top of what the
  -- others keep.
  pub registers_again :
      get_token_balance db source etr.home_token_address source ≡ 0
      → (fb : Balances) × (db' : Db) × (validate_erc_batch_data db source (etr ∷ []) [] [] ≡ ok fb)
        × (apply_erc_batch source b (etr ∷ []) [] [] db ≡ ok db')
        × ((holder : SubnetId)
            → get_token_balance db' source etr.home_token_address holder ≡ (
                if holder == source
                then etr.initial_supply
                else get_token_balance db source etr.home_token_address holder))
  unfolding validate_erc_batch_data check_registrations check_registration check_mints check_burns
      check_transfers apply_erc_batch apply_registrations apply_mints apply_burns apply_transfers
  registers_again gone = (
    set_balance (λ home token. none) source etr.home_token_address etr.initial_supply,
    apply_registrations source b (get_all_subnets db) (etr ∷ []) db,
    ground arith,
    refl,
    λ holder. ground (
      arith,
      get-apply_registration source etr.home_token_address holder source b (get_all_subnets db) etr
          db,
    ),
  )
