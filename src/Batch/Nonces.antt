-- ===== src/Batch/Nonces.antt =====
-- src/ipc_lib.rs, src/db.rs: the nonces of the messages that a batch sends.
use bitcoin_ipc.Prelude.{
  ◌+◌, ◌≡◌, refl, ◌∙◌, sym, ap, subst, List, [], ◌∷◌, arith, ◌==◌, length, if-elim, ltb,
}
use bitcoin_ipc.Result.{ok, fail_if, ok_or, if-eq-ok, >>=-elim, ok-injective}
use bitcoin_ipc.Types.{SubnetId}
use bitcoin_ipc.Table.{Table, put, IsDense, put-IsDense}
use bitcoin_ipc.Subnet.{SubnetState}
use bitcoin_ipc.Records.{
  Stamp, RootnetMessage, nonce, stamp, erc_transfer, erc_registration, fund_subnet,
  SubnetCheckpoint, IpcErcTokenRegistration, IpcErcSupplyAdjustment, IpcCrossSubnetErcTransfer,
  is_negative,
}
use bitcoin_ipc.Db.{
  Db, get_subnet_state, get_checkpoint, save_checkpoint, get_token_balance, set_token_balance,
  add_rootnet_msg, get_next_rootnet_msg_nonce, get_last_rootnet_msg_nonce,
}
use bitcoin_ipc.Erc.{validate_erc_batch_data}
use bitcoin_ipc.Erc.Apply.{
  BlockStamp, with_nonce, send, announce_to, announce, apply_registration, apply_registrations,
  apply_mint, apply_mints, apply_burn, apply_burns, move_tokens, apply_transfer, apply_transfers,
  apply_erc_batch,
}
use bitcoin_ipc.Records.{IpcCrossSubnetTransfer}
use bitcoin_ipc.Batch.{IpcBatchTransferMsg, send_transfer, send_transfers, with_batch, save_batch}

abbrev Numbered : Table RootnetMessage → Type 0
Numbered t = IsDense 0 (length t) t

unfoldable pub HasNonces : Db → Type 0
HasNonces db = (id : SubnetId) → Numbered (db.rootnet_msgs id)

next_nonce_length :
    (db : Db) (id : SubnetId) → get_next_rootnet_msg_nonce db id ≡ length (db.rootnet_msgs id)
unfolding get_next_rootnet_msg_nonce get_last_rootnet_msg_nonce
next_nonce_length db id = ground arith

put-Numbered :
    (m : RootnetMessage) (t : Table RootnetMessage)
    → Numbered t
    → nonce m ≡ length t
    → Numbered (put (nonce m) m t)
put-Numbered m t h e =
    let first : 0 + length t ≡ nonce m = omega arith in
    let dense =
      subst (λ j. IsDense 0 (length t + 1) (put j m t)) first (put-IsDense 0 (length t) m t h) in
    subst (λ n. IsDense 0 n (put (nonce m) m t)) (sym dense.sized) dense

add_rootnet_msg-HasNonces :
    (db : Db) (id : SubnetId) (m : RootnetMessage)
    → HasNonces db
    → nonce m ≡ get_next_rootnet_msg_nonce db id
    → HasNonces (add_rootnet_msg db id m)
unfolding HasNonces add_rootnet_msg
add_rootnet_msg-HasNonces db id m h e k =
    if-elim Numbered (id == k)
      (put-Numbered m (db.rootnet_msgs id) (h id) (e ∙ next_nonce_length db id)) (h k)

module _ (b : BlockStamp) where
  send-HasNonces :
      (db : Db) (id : SubnetId) (message : Stamp → RootnetMessage)
      → ((t : Stamp) → nonce (message t) ≡ t.nonce)
      → HasNonces db
      → HasNonces (send db id message b)
  unfolding send with_nonce
  send-HasNonces db id message same h = add_rootnet_msg-HasNonces db id _ h (same _)

  send_transfers-HasNonces :
      (transfers : List IpcCrossSubnetTransfer) (db : Db)
      → HasNonces db
      → HasNonces (send_transfers b transfers db)
  unfolding send_transfers send_transfer nonce stamp
  send_transfers-HasNonces [] db h = h
  send_transfers-HasNonces (t ∷ transfers) db h =
      send_transfers-HasNonces transfers _
        (send-HasNonces db t.destination_subnet_id (fund_subnet _) (λ t. refl) h)

  module _ (source : SubnetId) where
    announce-HasNonces :
        (etr : IpcErcTokenRegistration) (subnets : List SubnetState) (db : Db)
        → HasNonces db
        → HasNonces (announce source b etr subnets db)
    unfolding announce announce_to nonce stamp
    announce-HasNonces etr [] db h = h
    announce-HasNonces etr (s ∷ subnets) db h = announce-HasNonces etr subnets _ (
        if-elim HasNonces (s.id == source) h
          (send-HasNonces db s.id (erc_registration source etr) (λ t. refl) h))

    registrations-HasNonces :
        (subnets : List SubnetState) (etrs : List IpcErcTokenRegistration) (db : Db)
        → HasNonces db
        → HasNonces (apply_registrations source b subnets etrs db)
    unfolding apply_registrations apply_registration set_token_balance HasNonces
    registrations-HasNonces subnets [] db h = h
    registrations-HasNonces subnets (etr ∷ etrs) db h =
        registrations-HasNonces subnets etrs _ (announce-HasNonces etr subnets _ h)

    transfer-HasNonces :
        (etx : IpcCrossSubnetErcTransfer) (db db' : Db)
        → apply_transfer source b etx db ≡ ok db'
        → HasNonces db
        → HasNonces db'
    unfolding apply_transfer move_tokens set_token_balance nonce stamp HasNonces
    transfer-HasNonces etx db db' e h =
        if-eq-ok (etx.amount == 0) e (λ same. subst HasNonces (ok-injective same) h)
          λ e₁.
            >>=-elim
              (fail_if
                (ltb (get_token_balance db etx.home_subnet_id etx.home_token_address source)
                  etx.amount)
                _)
              _ e₁
              λ u covered e₂. subst HasNonces (ok-injective e₂) (
                send-HasNonces (move_tokens source etx db) etx.destination_subnet_id
                  (erc_transfer etx) (λ t. refl) h)

    transfers-HasNonces :
        (etxs : List IpcCrossSubnetErcTransfer) (db db' : Db)
        → apply_transfers source b etxs db ≡ ok db'
        → HasNonces db
        → HasNonces db'
    unfolding apply_transfers
    transfers-HasNonces [] db db' e h = subst HasNonces (ok-injective e) h
    transfers-HasNonces (etx ∷ rest) db db' e h =
        >>=-elim (apply_transfer source b etx db) _ e λ db₁ first others.
          transfers-HasNonces rest db₁ db' others (transfer-HasNonces etx db db₁ first h)

module _ (source : SubnetId) where
  mints-HasNonces :
      (adjustments : List IpcErcSupplyAdjustment) (db : Db)
      → HasNonces db
      → HasNonces (apply_mints source adjustments db)
  unfolding apply_mints apply_mint set_token_balance HasNonces
  mints-HasNonces [] db h = h
  mints-HasNonces (ets ∷ rest) db h =
      mints-HasNonces rest (apply_mint source ets db)
        (if-elim HasNonces (is_negative ets.delta) h h)

  burn-HasNonces :
      (ets : IpcErcSupplyAdjustment) (db db' : Db)
      → apply_burn source ets db ≡ ok db'
      → HasNonces db
      → HasNonces db'
  unfolding apply_burn set_token_balance HasNonces
  burn-HasNonces ets db db' e h =
      if-eq-ok (is_negative ets.delta) e
        (λ burnt.
          >>=-elim (fail_if (ltb (get_token_balance db source ets.home_token_address source) _) _) _
            burnt λ u covered e₁. subst HasNonces (ok-injective e₁) h)
        (λ same. subst HasNonces (ok-injective same) h)

  burns-HasNonces :
      (adjustments : List IpcErcSupplyAdjustment) (db db' : Db)
      → apply_burns source adjustments db ≡ ok db'
      → HasNonces db
      → HasNonces db'
  unfolding apply_burns
  burns-HasNonces [] db db' e h = subst HasNonces (ok-injective e) h
  burns-HasNonces (ets ∷ rest) db db' e h =
      >>=-elim (apply_burn source ets db) _ e
        λ db₁ first others. burns-HasNonces rest db₁ db' others (burn-HasNonces ets db db₁ first h)

-- A batch that is saved keeps the messages of every subnet numbered from 0 without a gap.
pub save_batch-HasNonces :
    (m : IpcBatchTransferMsg) (db db' : Db) (b : BlockStamp) (c : SubnetCheckpoint)
    → save_batch m db b ≡ ok (c, db')
    → HasNonces db
    → HasNonces db'
unfolding save_batch apply_erc_batch HasNonces save_checkpoint
save_batch-HasNonces m db db' b c e h =
    >>=-elim (ok_or (get_subnet_state db m.subnet_id) _) _ e λ s hs e₁.
      >>=-elim (ok_or s.last_checkpoint_number _) _ e₁ λ number hn e₂.
        >>=-elim (ok_or (get_checkpoint db m.subnet_id number) _) _ e₂ λ old found e₃.
          >>=-elim (validate_erc_batch_data db m.subnet_id _ _ _) _ e₃ λ fb valid e₄.
            >>=-elim
              (apply_erc_batch m.subnet_id b m.token_registrations m.token_supply_adjustments
                m.token_transfers
                (send_transfers b m.transfers
                  (save_checkpoint db m.subnet_id (with_batch old b) (number + 1))))
              _ e₄
              λ db₁ applied e₅.
                >>=-elim (apply_burns m.subnet_id m.token_supply_adjustments _) _ applied
                  λ db₂ burnt moved. subst HasNonces (ap (λ p. p.1) (ok-injective e₅)) (
                    transfers-HasNonces b m.subnet_id m.token_transfers db₂ db₁ moved (
                      burns-HasNonces m.subnet_id m.token_supply_adjustments _ db₂ burnt (
                        mints-HasNonces m.subnet_id m.token_supply_adjustments _ (
                          registrations-HasNonces b m.subnet_id _ m.token_registrations _
                            (send_transfers-HasNonces b m.transfers _ h)))))
