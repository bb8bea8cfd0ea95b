-- ===== src/Transactions/Roundtrip.antt =====
-- src/ipc_lib.rs: `from_tx` of a message on the outputs that its `to_tx` makes.
use bitcoin_ipc.Prelude.{
  ℕ, ◌+◌, ◌^◌, ◌<◌, ◌≡◌, refl, ap, ◌∙◌, true, Option, some, List, ◌∷◌, ◌++◌, length, length-append,
  not, arith,
}
use bitcoin_ipc.Result.{Result, ok, ◌>>=◌, ok_or, fail_if, invalid_pubkey, subnet_not_found}
use bitcoin_ipc.Types.{
  SubnetId, Script, op_return, Address, Amount, TxIn, TxOut, XOnlyPublicKey, Txid,
}
use bitcoin_ipc.Bytes.{be_bytes, le_bytes, from_be_bytes, from_be_bytes-be_bytes}
use bitcoin_ipc.Committee.{SubnetValidator, is_validator}
use bitcoin_ipc.Subnet.{SubnetState}
use bitcoin_ipc.Records.{IpcFundSubnetMsg}
use bitcoin_ipc.Db.{Db, get_subnet_by_multisig_address}
use bitcoin_ipc.Msg.Create.{IpcPrefundSubnetMsg}
use bitcoin_ipc.Msg.Stake.{IpcStakeCollateralMsg}
use bitcoin_ipc.Msg.Unstake.{IpcUnstakeCollateralMsg}
use bitcoin_ipc.Msg.Kill.{IpcKillSubnetMsg}
use bitcoin_ipc.Transactions.{Crates, unstake_collateral, kill_subnet}
use bitcoin_ipc.Transactions.Sent.{
  signature_slice, signature_slice_end, rest_slice, tagged_data-data_tx_out, paid_subnet-pay_to,
  signer_lem,
}
use bitcoin_ipc.Transactions.Fund.{prefund_to_tx, prefund_from_tx, fund_to_tx, fund_from_tx}
use bitcoin_ipc.Transactions.Stake.{stake_to_tx, stake_from_tx}
use bitcoin_ipc.Transactions.Signed.{
  unstake_to_tx, unstake_from_tx, kill_to_tx, kill_from_tx, unstake_text, kill_text, signer,
}

prefund_cong :
    {id id' address address' : ℕ} (amount : Amount)
    → id ≡ id'
    → address ≡ address'
    → ◌≡◌ {A = Result IpcPrefundSubnetMsg}
        (ok (record { subnet_id = id; amount = amount; address = address }))
        (ok (record { subnet_id = id'; amount = amount; address = address' }))
prefund_cong amount a b = cc

pub prefund_from_tx-prefund_to_tx :
    (x : Crates) (m : IpcPrefundSubnetMsg) (script : Script) (change : List TxOut)
    → ((bytes : List ℕ) → x.pushed (op_return bytes) ≡ some bytes)
    → m.subnet_id < 256 ^ 20
    → m.address < 256 ^ 20
    → prefund_from_tx x (prefund_to_tx x m script ++ change) ≡ ok m
unfolding prefund_from_tx prefund_to_tx
prefund_from_tx-prefund_to_tx x m script change pushes hi ha = rw (pushes _) (
    prefund_cong m.amount (from_be_bytes-be_bytes 20 m.subnet_id hi)
      (from_be_bytes-be_bytes 20 m.address ha))

fund_cong :
    {id id' address address' : ℕ} (amount : Amount)
    → id ≡ id'
    → address ≡ address'
    → ◌≡◌ {A = Result IpcFundSubnetMsg}
        (ok (record { subnet_id = id; amount = amount; address = address }))
        (ok (record { subnet_id = id'; amount = amount; address = address' }))
fund_cong amount a b = cc

pub fund_from_tx-fund_to_tx :
    (x : Crates) (m : IpcFundSubnetMsg) (a : Address) (change : List TxOut)
    → ((bytes : List ℕ) → x.pushed (op_return bytes) ≡ some bytes)
    → m.subnet_id < 256 ^ 20
    → m.address < 256 ^ 20
    → fund_from_tx x (fund_to_tx x m a ++ change) ≡ ok m
unfolding fund_from_tx fund_to_tx
fund_from_tx-fund_to_tx x m a change pushes hi ha = rw (pushes _) (
    fund_cong m.amount (from_be_bytes-be_bytes 20 m.subnet_id hi)
      (from_be_bytes-be_bytes 20 m.address ha))

abbrev staked : SubnetId → Amount → XOnlyPublicKey → Result IpcStakeCollateralMsg
staked id amount key = ok (record { subnet_id = id; amount = amount; pubkey = key })

stake_tail :
    (x : Crates) (key key' : XOnlyPublicKey) (found : Option SubnetState) (s : SubnetState)
    (amount : Amount)
    → key ≡ key'
    → x.is_key key' ≡ true
    → found ≡ some s
    → (fail_if (not (x.is_key key)) invalid_pubkey >>= λ _.
        ok_or found subnet_not_found >>= λ (subnet : SubnetState). staked subnet.id amount key)
      ≡ staked s.id amount key'
stake_tail x key key' found s amount e valid f = rw (e, valid, f)

pub stake_from_tx-stake_to_tx :
    (x : Crates) (db : Db) (m : IpcStakeCollateralMsg) (s : SubnetState) (a : Address)
    (change : List TxOut)
    → ((bytes : List ℕ) → x.pushed (op_return bytes) ≡ some bytes)
    → m.pubkey < 256 ^ 32
    → x.is_key m.pubkey ≡ true
    → get_subnet_by_multisig_address db a ≡ some s
    → s.id ≡ m.subnet_id
    → stake_from_tx x db (stake_to_tx x m a ++ change) ≡ ok m
unfolding stake_from_tx stake_to_tx
stake_from_tx-stake_to_tx x db m s a change pushes hk valid found same = rw (pushes _) (
    stake_tail x _ m.pubkey _ s m.amount (from_be_bytes-be_bytes 32 m.pubkey hk) valid found
    ∙ ap (λ id. staked id m.amount m.pubkey) same)

with_amount :
    (signature : List ℕ) (amount : Amount)
    → length signature ≡ 64
    → 6 + length (signature ++ be_bytes 8 amount) ≡ 78
unfolding be_bytes le_bytes
with_amount signature amount h = omega (arith, length-append signature (be_bytes 8 amount))

abbrev unstake_ok : SubnetId → Amount → XOnlyPublicKey → Result IpcUnstakeCollateralMsg
unstake_ok id amount key = ok (record { subnet_id = id; amount = amount; pubkey = some key })

unstake_eta :
    (m : IpcUnstakeCollateralMsg) (id : SubnetId) (key : XOnlyPublicKey)
    → id ≡ m.subnet_id
    → m.pubkey ≡ some key
    → unstake_ok id m.amount key ≡ ok m
unstake_eta m id key e h = rw (e, ← h) refl

-- What is left once the data and the subnet are read.
unstaked :
    (x : Crates) (signature signature' : List ℕ) (t : Txid) (amount amount' : Amount)
    (s : SubnetState) (key : XOnlyPublicKey)
    → signature ≡ signature'
    → amount ≡ amount'
    → ((v : SubnetValidator) × (signer x signature' (λ pubkey. unstake_text t pubkey amount' s.id) s
          ≡ ok v)
        × (v.pubkey ≡ key))
    → (signer x signature (λ pubkey. unstake_text t pubkey amount s.id) s
        >>= λ (v : SubnetValidator). unstake_ok s.id amount v.pubkey)
      ≡ unstake_ok s.id amount' key
unstaked x signature signature' t amount amount' s key e₁ e₂ (v, found, same) =
    rw (e₁, e₂, found, same) refl

-- A withdrawal request is read back from the outputs that `to_tx` makes, followed by any others: the
-- subnet of the paid committee, the amount, and the key of the signer, a member of the committee. The
-- signature has 64 bytes and is valid for the signer's text and no other member's, the amount has 8
-- bytes, and scripts push the data of an OP_RETURN.
pub unstake_from_tx-unstake_to_tx :
    (x : Crates) (db : Db) (m : IpcUnstakeCollateralMsg) (s : SubnetState) (a : Address)
    (key : XOnlyPublicKey) (signature : List ℕ) (input : TxIn) (inputs : List TxIn)
    (change : List TxOut)
    → ((bytes : List ℕ) → x.pushed (op_return bytes) ≡ some bytes)
    → length signature ≡ 64
    → m.amount < 256 ^ 8
    → get_subnet_by_multisig_address db a ≡ some s
    → s.id ≡ m.subnet_id
    → m.pubkey ≡ some key
    → is_validator s.committee key ≡ true
    → ((k : XOnlyPublicKey)
        → x.verify_schnorr signature (x.sha256 (unstake_text input.txid k m.amount s.id)) k ≡ true
        → k ≡ key)
    → x.verify_schnorr signature (x.sha256 (unstake_text input.txid key m.amount s.id)) key ≡ true
    → unstake_from_tx x db (input ∷ inputs) (unstake_to_tx x m a signature ++ change) ≡ ok m
unfolding unstake_from_tx unstake_to_tx
unstake_from_tx-unstake_to_tx x db m s a key signature input inputs change pushes hs ha found same
      mine member only signs =
    rw
      (
        tagged_data-data_tx_out x unstake_collateral (signature ++ be_bytes 8 m.amount) 78 _ change
            pushes (with_amount signature m.amount hs),
        paid_subnet-pay_to db a _ s found,
      )
      (unstaked x _ signature input.txid _ m.amount s key
          (signature_slice unstake_collateral signature (be_bytes 8 m.amount) hs)
          (ap from_be_bytes (rest_slice unstake_collateral signature (be_bytes 8 m.amount) hs refl)
            ∙ from_be_bytes-be_bytes 8 m.amount ha)
          (signer_lem x signature (λ pubkey. unstake_text input.txid pubkey m.amount s.id) s key
            member only signs)
        ∙ unstake_eta m s.id key same mine)

abbrev kill_ok : SubnetId → XOnlyPublicKey → Result IpcKillSubnetMsg
kill_ok id key = ok (record { subnet_id = id; pubkey = some key })

killed :
    (x : Crates) (signature signature' : List ℕ) (t : Txid) (s : SubnetState) (key : XOnlyPublicKey)
    → signature ≡ signature'
    → ((v : SubnetValidator) × (signer x signature' (λ pubkey. kill_text t pubkey s.id) s ≡ ok v)
        × (v.pubkey ≡ key))
    → (signer x signature (λ pubkey. kill_text t pubkey s.id) s >>= λ (v : SubnetValidator).
        kill_ok s.id v.pubkey)
      ≡ kill_ok s.id key
killed x signature signature' t s key e (v, found, same) = rw (e, found, same) refl

kill_eta :
    (m : IpcKillSubnetMsg) (id : SubnetId) (key : XOnlyPublicKey)
    → id ≡ m.subnet_id
    → m.pubkey ≡ some key
    → kill_ok id key ≡ ok m
kill_eta m id key e h = rw (e, ← h) refl

pub kill_from_tx-kill_to_tx :
    (x : Crates) (db : Db) (m : IpcKillSubnetMsg) (s : SubnetState) (a : Address)
    (key : XOnlyPublicKey) (signature : List ℕ) (input : TxIn) (inputs : List TxIn)
    (change : List TxOut)
    → ((bytes : List ℕ) → x.pushed (op_return bytes) ≡ some bytes)
    → length signature ≡ 64
    → get_subnet_by_multisig_address db a ≡ some s
    → s.id ≡ m.subnet_id
    → m.pubkey ≡ some key
    → is_validator s.committee key ≡ true
    → ((k : XOnlyPublicKey)
        → x.verify_schnorr signature (x.sha256 (kill_text input.txid k s.id)) k ≡ true
        → k ≡ key)
    → x.verify_schnorr signature (x.sha256 (kill_text input.txid key s.id)) key ≡ true
    → kill_from_tx x db (input ∷ inputs) (kill_to_tx x a signature ++ change) ≡ ok m
unfolding kill_from_tx kill_to_tx
kill_from_tx-kill_to_tx x db m s a key signature input inputs change pushes hs found same mine
      member only signs =
    rw
      (
        tagged_data-data_tx_out x kill_subnet signature 70 _ change pushes (omega arith),
        paid_subnet-pay_to db a _ s found,
      )
      (killed x _ signature input.txid s key (signature_slice_end kill_subnet signature hs) (
          signer_lem x signature (λ pubkey. kill_text input.txid pubkey s.id) s key member only
            signs)
        ∙ kill_eta m s.id key same mine)
