-- ===== src/Erc/Covered.antt =====
-- src/ipc_lib.rs: the relation of what `validate_erc_batch_data` keeps in `final_balances` to what
-- the database holds while a batch is written; the registrations and the mints.
use bitcoin_ipc.Prelude.{
  ℕ, ◌≤◌, ◌≡◌, ◌&&◌, List, [], ◌∷◌, arith, ◌==◌, if◌then◌else◌, All, Bool-cases, inl, inr,
}
use bitcoin_ipc.Result.{ok, >>=-eq-ok}
use bitcoin_ipc.Types.{SubnetId, EthAddress}
use bitcoin_ipc.Subnet.{SubnetState}
use bitcoin_ipc.Records.{is_negative, unsigned_abs, IpcErcTokenRegistration, IpcErcSupplyAdjustment}
use bitcoin_ipc.Db.{Db, get_token_balance, set_token_balance}
use bitcoin_ipc.Erc.{
  Balances, u256_max, set_balance, running, check_registration, check_registrations, check_mint,
  check_mints,
}
use bitcoin_ipc.Erc.Apply.{
  BlockStamp, apply_registration, apply_registrations, apply_mint, apply_mints,
}
use bitcoin_ipc.Erc.Ledger.{
  get-set_token_balance, get-apply_registration, saturating_add_mono, le-saturating_add,
}

-- `db₀` is the database that the check reads, `db` the one that is being written.
module _ (db₀ : Db) (source : SubnetId) where
  -- Every balance of the source subnet that the check goes by is a `U256`, and is there in the
  -- database.
  pub record IsCovered (fb : Balances) (db : Db) : Type 0 where
    pub at :
        (home : SubnetId) (token : EthAddress)
        → (running db₀ source fb home token ≤ get_token_balance db home token source)
          × (running db₀ source fb home token ≤ u256_max)

  pub running-set_balance :
      (fb : Balances) (home home' : SubnetId) (token token' : EthAddress) (v : ℕ)
      → running db₀ source (set_balance fb home' token' v) home token
        ≡ (if home' == home && token' == token then v else running db₀ source fb home token)
  unfolding running set_balance
  running-set_balance fb home home' token token' v = ground arith

  -- Both sides are set at the same key, the database to no less.
  pub set-IsCovered :
      (home : SubnetId) (token : EthAddress) (v w : ℕ) {fb : Balances} {db : Db}
      → v ≤ w
      → v ≤ u256_max
      → IsCovered fb db
      → IsCovered (set_balance fb home token v) (set_token_balance db home token source w)
  set-IsCovered home token v w {fb} {db} le fits h = record {
    at = λ home' token'. ground (
      arith,
      running-set_balance fb home' home token' token v,
      get-set_token_balance home' token' source db home token source w,
      h.at home' token',
    );
  }

  -- The database alone is set, to no less than what the check goes by.
  raise-IsCovered :
      (home : SubnetId) (token : EthAddress) (w : ℕ) {fb : Balances} {db : Db}
      → running db₀ source fb home token ≤ w
      → IsCovered fb db
      → IsCovered fb (set_token_balance db home token source w)
  raise-IsCovered home token w {fb} {db} le h = record {
    at = λ home' token'. ground (
      arith,
      get-set_token_balance home' token' source db home token source w,
      h.at home' token',
    );
  }

  registration-IsCovered :
      (b : BlockStamp) (subnets : List SubnetState) (etr : IpcErcTokenRegistration)
      (fb fb' : Balances) (db : Db)
      → etr.initial_supply ≤ u256_max
      → IsCovered fb db
      → check_registration db₀ source etr fb ≡ ok fb'
      → IsCovered fb' (apply_registration source b subnets etr db)
  unfolding check_registration
  registration-IsCovered b subnets etr fb fb' db fits h e = record {
    at = λ home token. ground (
      arith,
      running-set_balance fb home source token etr.home_token_address etr.initial_supply,
      get-apply_registration home token source source b subnets etr db,
      h.at home token,
    );
  }

  pub registrations-IsCovered :
      (b : BlockStamp) (subnets : List SubnetState) (etrs : List IpcErcTokenRegistration)
      (fb fb' : Balances) (db : Db)
      → All (λ (etr : IpcErcTokenRegistration). etr.initial_supply ≤ u256_max) etrs
      → IsCovered fb db
      → check_registrations db₀ source etrs fb ≡ ok fb'
      → IsCovered fb' (apply_registrations source b subnets etrs db)
  unfolding check_registrations apply_registrations
  registrations-IsCovered b subnets [] fb fb' db fits h e =
      let same : fb ≡ fb' = cc in rw (← same) h
  registrations-IsCovered b subnets (etr ∷ etrs) fb fb' db fits h e =
      let (fb₁, first, rest) = >>=-eq-ok (check_registration db₀ source etr fb) _ e in
      registrations-IsCovered b subnets etrs fb₁ fb' (apply_registration source b subnets etr db)
        fits.1 (registration-IsCovered b subnets etr fb fb₁ db fits.0 h first) rest

  mint-IsCovered :
      (ets : IpcErcSupplyAdjustment) (fb : Balances) (db : Db)
      → IsCovered fb db
      → IsCovered (check_mint db₀ source ets fb) (apply_mint source ets db)
  unfolding check_mint apply_mint
  mint-IsCovered ets fb db h =
      let token = ets.home_token_address in
      let covered = h.at source token in
      let old = get_token_balance db source token source in
      let amount = unsigned_abs ets.delta in
      let mono = saturating_add_mono (running db₀ source fb source token) old amount covered.0 in
      elim (Bool-cases (is_negative ets.delta)) [
        | inl burn ↦ rw burn h
        | inr mint ↦ elim (Bool-cases (amount == 0)) [
          | inl nothing ↦
              rw (mint, nothing)
                (raise-IsCovered source token _ (le-saturating_add _ old amount covered.0 covered.1)
                  h)
          | inr some_amount ↦
              rw (mint, some_amount) (set-IsCovered source token _ _ mono.0 mono.1 h)
        ]
      ]

  pub mints-IsCovered :
      (adjustments : List IpcErcSupplyAdjustment) (fb : Balances) (db : Db)
      → IsCovered fb db
      → IsCovered (check_mints db₀ source adjustments fb) (apply_mints source adjustments db)
  unfolding check_mints apply_mints
  mints-IsCovered [] fb db h = h
  mints-IsCovered (ets ∷ rest) fb db h =
      mints-IsCovered rest (check_mint db₀ source ets fb) (apply_mint source ets db)
        (mint-IsCovered ets fb db h)
