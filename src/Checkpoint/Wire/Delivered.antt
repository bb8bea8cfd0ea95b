-- ===== src/Checkpoint/Wire/Delivered.antt =====
-- src/ipc_lib.rs: what a batch brings to the reader of its reveal transaction.
use bitcoin_ipc.Prelude.{
  ℕ, suc, ◌≡◌, ltb, refl, ap, subst, sym, ◌∙◌, Bool, true, false, not, Option, some, none, List, [],
  ◌∷◌, ◌++◌, map, length, All, ◌&&◌, ◌||◌, arith,
}
use bitcoin_ipc.Result.{ok, ok_or, ◌>>=◌, ok-injective, serialize_failed}
use bitcoin_ipc.Types.{SubnetId, EthAddress, Amount}
use bitcoin_ipc.Subnet.{SubnetState}
use bitcoin_ipc.Records.{IpcCrossSubnetTransfer, IpcCrossSubnetErcTransfer}
use bitcoin_ipc.Db.{Db, get_subnet_state}
use bitcoin_ipc.Msg.Checkpoint.{IpcCheckpointSubnetMsg}
use bitcoin_ipc.Batch.{IpcBatchTransferMsg}
use bitcoin_ipc.Checkpoint.Wire.{
  Grouped, BatchTransferWireData, IpcCrossSubnetErcTransferWire, Codec, group_by, to_wire,
  from_wire, paid_to, wire_data, native_group, native_transfers, native_transfer, erc_transfers,
  make_batched_transfer_data, witness_to_wire_data, transfer_tag, from_tx, is_empty, has_transfers,
}
use bitcoin_ipc.Checkpoint.Wire.Grouped.{flat, Returns, group_by-perm}
use mathlib.Core.List.{Perm, Permᴰ, map-append}
use mathlib.Core.Logic.{∥∥₁_elim}
use mathlib.Core.Bool.{Bool-set}

native_group-append :
    (o : Option SubnetState) (id : SubnetId) (xs ys : List (EthAddress × Amount))
    → native_group o id (xs ++ ys) ≡ native_group o id xs ++ native_group o id ys
unfolding native_group
native_group-append none id xs ys = refl
native_group-append (some s) id xs ys =
    map-append (native_transfer id s.committee.multisig_address) xs ys

abbrev native_out : Db → SubnetId → List (EthAddress × Amount) → List IpcCrossSubnetTransfer
native_out db id = native_group (get_subnet_state db id) id

native_transfers-flat :
    (db : Db) (groups : Grouped (EthAddress × Amount))
    → native_transfers db groups
      ≡ flat (native_out db) (λ id. native_group-append (get_subnet_state db id) id) groups
unfolding native_transfers flat
native_transfers-flat db [] = refl
native_transfers-flat db (g ∷ groups) =
    ap (λ rest. native_out db g.0 g.1 ++ rest) (native_transfers-flat db groups)

erc_out-append :
    (id : SubnetId) (xs ys : List IpcCrossSubnetErcTransferWire)
    → map (from_wire id) (xs ++ ys) ≡ map (from_wire id) xs ++ map (from_wire id) ys
erc_out-append id xs ys = map-append (from_wire id) xs ys

erc_transfers-flat :
    (groups : Grouped IpcCrossSubnetErcTransferWire)
    → erc_transfers groups ≡ flat (λ id. map (from_wire id)) erc_out-append groups
unfolding erc_transfers flat
erc_transfers-flat [] = refl
erc_transfers-flat (g ∷ groups) =
    ap (λ rest. map (from_wire g.0) g.1 ++ rest) (erc_transfers-flat groups)

-- The destination is a subnet of the database, and the transfer names its multisig address.
pub record IsAddressed (db : Db) (t : IpcCrossSubnetTransfer) : Type 0 where
  pub subnet : SubnetState
  pub found : get_subnet_state db t.destination_subnet_id ≡ some subnet
  pub multisig : t.subnet_multisig_address ≡ some subnet.committee.multisig_address

native-Returns :
    (db : Db) (transfers : List IpcCrossSubnetTransfer)
    → All (IsAddressed db) transfers
    → All
        (Returns
          (native_out db)
          (λ id. native_group-append (get_subnet_state db id) id)
          (λ (t : IpcCrossSubnetTransfer). t.destination_subnet_id)
          paid_to)
        transfers
unfolding native_group
native-Returns db [] h = tt
native-Returns db (t ∷ transfers) (h, hs) =
    (rw (h.found, ← h.multisig) refl, native-Returns db transfers hs)

erc-Returns :
    (transfers : List IpcCrossSubnetErcTransfer)
    → All
        (Returns
          (λ id. map (from_wire id))
          erc_out-append
          (λ (t : IpcCrossSubnetErcTransfer). t.destination_subnet_id)
          to_wire)
        transfers
erc-Returns [] = tt
erc-Returns (t ∷ transfers) = (refl, erc-Returns transfers)

is_empty-permᴰ {ℓ} : {A : Type ℓ} {xs ys : List A} → Permᴰ xs ys → is_empty xs ≡ is_empty ys
is_empty-permᴰ Permᴰ.nil = refl
is_empty-permᴰ (Permᴰ.cons e p) = refl
is_empty-permᴰ (Permᴰ.swap e f) = refl
is_empty-permᴰ (Permᴰ.trans p q) = is_empty-permᴰ p ∙ is_empty-permᴰ q

pub is_empty-perm {ℓ} : {A : Type ℓ} {xs ys : List A} → Perm xs ys → is_empty xs ≡ is_empty ys
is_empty-perm p = ∥∥₁_elim p (Bool-set _ _) (λ π. is_empty-permᴰ π)

pub some_left :
    (a b c d : Bool) → (not a || not b || not c || not d) ≡ true → (a && b && c && d) ≡ false
some_left a b c d h = ground arith

native_transfers-perm :
    (db : Db) (transfers : List IpcCrossSubnetTransfer) (groups : Grouped (EthAddress × Amount))
    → All (IsAddressed db) transfers
    → Perm groups
        (group_by (λ (t : IpcCrossSubnetTransfer). t.destination_subnet_id) paid_to transfers [])
    → Perm (native_transfers db groups) transfers
native_transfers-perm db transfers groups h p =
    subst (λ l. Perm l transfers) (sym (native_transfers-flat db groups))
      (group_by-perm (native_out db) (λ id. native_group-append (get_subnet_state db id) id) _
        paid_to transfers groups (native-Returns db transfers h) p)

erc_transfers-perm :
    (transfers : List IpcCrossSubnetErcTransfer) (groups : Grouped IpcCrossSubnetErcTransferWire)
    → Perm groups
        (group_by (λ (t : IpcCrossSubnetErcTransfer). t.destination_subnet_id) to_wire transfers [])
    → Perm (erc_transfers groups) transfers
erc_transfers-perm transfers groups p =
    subst (λ l. Perm l transfers) (sym (erc_transfers-flat groups))
      (group_by-perm (λ id. map (from_wire id)) erc_out-append _ to_wire transfers groups
        (erc-Returns transfers) p)

made_bytes :
    (c : Codec) (m : IpcCheckpointSubnetMsg) (bytes binary : List ℕ)
    → make_batched_transfer_data c m ≡ ok bytes
    → c.to_stdvec (wire_data m) ≡ some binary
    → bytes ≡ transfer_tag ++ binary
unfolding make_batched_transfer_data
made_bytes c m bytes binary made written = sym (
    ok-injective (
      subst (λ o. (ok_or o serialize_failed >>= λ b. ok (transfer_tag ++ b)) ≡ ok bytes) written
        made))

ltb_long : (n : ℕ) → ltb (suc (suc (suc (suc (suc (suc n)))))) 6 ≡ false
ltb_long n = ground arith

-- The tag is checked and dropped.
witness_to_wire_data-tagged :
    (c : Codec) (binary : List ℕ)
    → witness_to_wire_data c (transfer_tag ++ binary) ≡ ok_or (c.from_bytes binary) serialize_failed
unfolding witness_to_wire_data
witness_to_wire_data-tagged c binary = rw (ltb_long (length binary)) refl

abbrev read_back : Db → BatchTransferWireData → ℕ → ℕ → IpcBatchTransferMsg
read_back db w txid vout = record {
  subnet_id = 0;
  checkpoint_txid = txid;
  checkpoint_vout = vout;
  transfers = native_transfers db w.transfers;
  token_registrations = w.token_registrations;
  token_supply_adjustments = w.token_supply_adjustments;
  token_transfers = erc_transfers w.token_transfers;
}

-- A batch is read back from the witness of its reveal transaction: `from_tx` gives the registrations
-- and supply adjustments in order, and the native and the ERC transfers up to order. The batch is
-- not empty and its native transfers name the multisig addresses of known subnets; what `postcard`
-- reads back is what it wrote, up to the order of the entries of the maps; and the data pushed by a
-- script is what it was made for.
pub from_tx-make_batched_transfer_data :
    (c : Codec) (db : Db) (m : IpcCheckpointSubnetMsg) (bytes binary : List ℕ)
    (w : BatchTransferWireData) (txid vout : ℕ) (control : List ℕ)
    → has_transfers m ≡ true
    → All (IsAddressed db) m.transfers
    → make_batched_transfer_data c m ≡ ok bytes
    → c.to_stdvec (wire_data m) ≡ some binary
    → c.from_bytes binary ≡ some w
    → Perm w.transfers (wire_data m).transfers
    → w.token_registrations ≡ m.token_registrations
    → w.token_supply_adjustments ≡ m.token_supply_adjustments
    → Perm w.token_transfers (wire_data m).token_transfers
    → c.concatenate_op_push_data (c.push_data_script bytes) ≡ some bytes
    → (b : IpcBatchTransferMsg) × (from_tx c db (
          record { txid = txid; vout = vout; witness = c.push_data_script bytes ∷ control ∷ [] }
          ∷ [])
        ≡ ok b)
      × (b.checkpoint_txid ≡ txid)
      × (b.checkpoint_vout ≡ vout)
      × Perm b.transfers m.transfers
      × (b.token_registrations ≡ m.token_registrations)
      × (b.token_supply_adjustments ≡ m.token_supply_adjustments)
      × Perm b.token_transfers m.token_transfers
unfolding from_tx make_batched_transfer_data wire_data has_transfers
from_tx-make_batched_transfer_data c db m bytes binary w txid vout control some_data addressed made
      written read pt er es pe pushed =
    let native = native_transfers-perm db m.transfers w.transfers addressed pt in
    let erc = erc_transfers-perm m.token_transfers w.token_transfers pe in
    let nothing : (is_empty (native_transfers db w.transfers)
          && is_empty w.token_registrations
          && is_empty w.token_supply_adjustments
          && is_empty (erc_transfers w.token_transfers))
        ≡ false =
      rw (is_empty-perm native, er, es, is_empty-perm erc) (some_left _ _ _ _ some_data) in
    let e = made_bytes c m bytes binary made written in
    (
      read_back db w txid vout,
      rw (pushed, e, witness_to_wire_data-tagged c binary, read, nothing) refl,
      refl,
      refl,
      native,
      er,
      es,
      erc,
    )
