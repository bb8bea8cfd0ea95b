-- ===== src/Erc/Agree.antt =====
-- src/ipc_lib.rs: the burns and transfers of a batch, checked by `validate_erc_batch_data` and then
-- written by `IpcBatchTransferMsg::save_to_db`.
use bitcoin_ipc.Prelude.{
  ◌-◌, ◌≤◌, ◌<◌, ◌≡◌, refl, subst, true, false, List, [], ◌∷◌, arith, none, All, Bool-cases, inl,
  inr,
}
use bitcoin_ipc.Result.{Result, ok, >>=-eq-ok}
use bitcoin_ipc.Types.{SubnetId}
use bitcoin_ipc.Records.{
  is_negative, unsigned_abs, IpcErcTokenRegistration, IpcErcSupplyAdjustment,
  IpcCrossSubnetErcTransfer, Stamp, RootnetMessage, erc_transfer,
}
use bitcoin_ipc.Db.{Db, get_token_balance, set_token_balance, get_all_subnets}
use bitcoin_ipc.Erc.{
  Balances, u256_max, set_balance, running, check_registrations, check_mints, check_burn,
  check_burns, check_transfer, check_transfers, validate_erc_batch_data,
}
use bitcoin_ipc.Erc.Apply.{
  BlockStamp, send, apply_burn, apply_burns, move_tokens, apply_transfer, apply_transfers,
  apply_erc_batch,
}
use bitcoin_ipc.Erc.Ledger.{get_token_balance-send, le-credited, get-move_tokens}
use bitcoin_ipc.Erc.Covered.{
  IsCovered, running-set_balance, set-IsCovered, registrations-IsCovered, mints-IsCovered,
}

module _ (db₀ : Db) (source : SubnetId) where
  -- A write that succeeds and leaves what the check goes by covered.
  abbrev pub Covers : Balances → Result Db → Type 0
  Covers fb r = (db : Db) × (r ≡ ok db) × IsCovered db₀ source fb db

  check_burn-eq-ok :
      (ets : IpcErcSupplyAdjustment) (fb fb' : Balances)
      → check_burn db₀ source ets fb ≡ ok fb'
      → is_negative ets.delta ≡ true
      → (unsigned_abs ets.delta ≤ running db₀ source fb source ets.home_token_address)
        × (set_balance fb source ets.home_token_address
              (running db₀ source fb source ets.home_token_address - unsigned_abs ets.delta)
            ≡ fb')
  unfolding check_burn
  check_burn-eq-ok ets fb fb' e burn = ground arith

  check_burn_mint :
      (ets : IpcErcSupplyAdjustment) (fb fb' : Balances)
      → check_burn db₀ source ets fb ≡ ok fb'
      → is_negative ets.delta ≡ false
      → fb ≡ fb'
  unfolding check_burn
  check_burn_mint ets fb fb' e mint = ground arith

  burn-Covers :
      (ets : IpcErcSupplyAdjustment) (fb fb' : Balances) (db : Db)
      → IsCovered db₀ source fb db
      → check_burn db₀ source ets fb ≡ ok fb'
      → Covers fb' (apply_burn source ets db)
  unfolding apply_burn
  burn-Covers ets fb fb' db h e =
      let token = ets.home_token_address in
      let covered = h.at source token in
      let had = running db₀ source fb source token in
      let has = get_token_balance db source token source in
      let left = has - unsigned_abs ets.delta in
      elim (Bool-cases (is_negative ets.delta)) [
        | inr mint ↦ (
          db,
          rw mint,
          subst (λ f. IsCovered db₀ source f db) (check_burn_mint ets fb fb' e mint) h,
        )
        | inl burn ↦
            let (enough, same) = check_burn-eq-ok ets fb fb' e burn in
            (
              set_token_balance db source token source left,
              ground arith,
              subst (λ f. IsCovered db₀ source f (set_token_balance db source token source left))
                  same (set-IsCovered db₀ source source token _ left (omega arith) (omega arith) h),
            )
      ]

  burns-Covers :
      (adjustments : List IpcErcSupplyAdjustment) (fb fb' : Balances) (db : Db)
      → IsCovered db₀ source fb db
      → check_burns db₀ source adjustments fb ≡ ok fb'
      → Covers fb' (apply_burns source adjustments db)
  unfolding check_burns apply_burns
  burns-Covers [] fb fb' db h e = let same : fb ≡ fb' = cc in (db, refl, rw (← same) h)
  burns-Covers (ets ∷ rest) fb fb' db h e =
      let (fb₁, first, others) = >>=-eq-ok (check_burn db₀ source ets fb) _ e in
      let (db₁, done, h₁) = burn-Covers ets fb fb₁ db h first in
      let (db₂, ends, h₂) = burns-Covers rest fb₁ fb' db₁ h₁ others in (db₂, rw done ends, h₂)

  check_transfer-eq-ok :
      (etx : IpcCrossSubnetErcTransfer) (fb fb' : Balances)
      → check_transfer db₀ source etx fb ≡ ok fb'
      → (0 < etx.amount)
        × (etx.amount ≤ running db₀ source fb etx.home_subnet_id etx.home_token_address)
        × (set_balance fb etx.home_subnet_id etx.home_token_address
              (running db₀ source fb etx.home_subnet_id etx.home_token_address - etx.amount)
            ≡ fb')
  unfolding check_transfer
  check_transfer-eq-ok etx fb fb' e = ground arith

  move-IsCovered :
      (etx : IpcCrossSubnetErcTransfer) (fb : Balances) (db : Db)
      → IsCovered db₀ source fb db
      → IsCovered db₀ source
          (set_balance fb etx.home_subnet_id etx.home_token_address
            (running db₀ source fb etx.home_subnet_id etx.home_token_address - etx.amount))
          (move_tokens source etx db)
  move-IsCovered etx fb db h = record {
    at = λ home token. ground (
      arith,
      running-set_balance db₀ source fb home etx.home_subnet_id token etx.home_token_address
          (running db₀ source fb etx.home_subnet_id etx.home_token_address - etx.amount),
      get-move_tokens source etx db home token source,
      le-credited (running db₀ source fb home token - etx.amount)
          (get_token_balance db home token source - etx.amount) etx.amount,
      h.at home token,
      h.at etx.home_subnet_id etx.home_token_address,
    );
  }

  send-IsCovered :
      (b : BlockStamp) (id : SubnetId) (message : Stamp → RootnetMessage) (fb : Balances) (db : Db)
      → IsCovered db₀ source fb db
      → IsCovered db₀ source fb (send db id message b)
  send-IsCovered b id message fb db h = record {
    at = λ home token.
        rw (get_token_balance-send home token source db id message b) (h.at home token);
  }

  transfer-Covers :
      (b : BlockStamp) (etx : IpcCrossSubnetErcTransfer) (fb fb' : Balances) (db : Db)
      → IsCovered db₀ source fb db
      → check_transfer db₀ source etx fb ≡ ok fb'
      → Covers fb' (apply_transfer source b etx db)
  unfolding apply_transfer
  transfer-Covers b etx fb fb' db h e =
      let (positive, enough, same) = check_transfer-eq-ok etx fb fb' e in
      let covered = h.at etx.home_subnet_id etx.home_token_address in
      let db' = send (move_tokens source etx db) etx.destination_subnet_id (erc_transfer etx) b in
      (
        db',
        ground arith,
        subst (λ f. IsCovered db₀ source f db') same
            (send-IsCovered b etx.destination_subnet_id (erc_transfer etx) _ _
              (move-IsCovered etx fb db h)),
      )

  transfers-Covers :
      (b : BlockStamp) (etxs : List IpcCrossSubnetErcTransfer) (fb fb' : Balances) (db : Db)
      → IsCovered db₀ source fb db
      → check_transfers db₀ source etxs fb ≡ ok fb'
      → Covers fb' (apply_transfers source b etxs db)
  unfolding check_transfers apply_transfers
  transfers-Covers b [] fb fb' db h e = let same : fb ≡ fb' = cc in (db, refl, rw (← same) h)
  transfers-Covers b (etx ∷ rest) fb fb' db h e =
      let (fb₁, first, others) = >>=-eq-ok (check_transfer db₀ source etx fb) _ e in
      let (db₁, done, h₁) = transfer-Covers b etx fb fb₁ db h first in
      let (db₂, ends, h₂) = transfers-Covers b rest fb₁ fb' db₁ h₁ others in (db₂, rw done ends, h₂)

  -- From a database with the balances that the check read, the ERC operations of a batch that
  -- passes the check are written to the end, and leave the source subnet with at least the balances
  -- that the check computed; supplies and balances are `U256` values.
  pub apply_erc_batch-Covers :
      (b : BlockStamp) (etrs : List IpcErcTokenRegistration)
      (adjustments : List IpcErcSupplyAdjustment) (etxs : List IpcCrossSubnetErcTransfer)
      (fb : Balances) (db : Db)
      → All (λ (etr : IpcErcTokenRegistration). etr.initial_supply ≤ u256_max) etrs
      → IsCovered db₀ source (λ home token. none) db
      → validate_erc_batch_data db₀ source etrs adjustments etxs ≡ ok fb
      → Covers fb (apply_erc_batch source b etrs adjustments etxs db)
  unfolding validate_erc_batch_data apply_erc_batch
  apply_erc_batch-Covers b etrs adjustments etxs fb db fits h e =
      let (fb₁, registered, rest) =
        >>=-eq-ok (check_registrations db₀ source etrs (λ home token. none)) _ e in
      let (fb₂, burnt, moved) =
        >>=-eq-ok (check_burns db₀ source adjustments (check_mints db₀ source adjustments fb₁)) _
          rest in
      let h₁ =
        registrations-IsCovered db₀ source b (get_all_subnets db) etrs _ fb₁ db fits h registered in
      let (db₂, done, h₂) =
        burns-Covers adjustments _ fb₂ _ (mints-IsCovered db₀ source adjustments fb₁ _ h₁) burnt in
      let (db₃, ends, h₃) = transfers-Covers b etxs fb₂ fb db₂ h₂ moved in (db₃, rw done ends, h₃)
