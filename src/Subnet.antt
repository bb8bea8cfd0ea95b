-- ===== src/Subnet.antt =====
-- src/db.rs: `SubnetState`, its kill state and its committees, and `SubnetGenesisInfo` with the
-- create message that it holds.
pub mod GenesisBalance
use bitcoin_ipc.Prelude.{
  ℕ, ◌+◌, ◌-◌, ◌%◌, Bool, true, false, not, ◌&&◌, Option, none, some, List, [], ◌∷◌, ◌++◌, retain,
  sum, length, leb, ◌==◌, if◌then◌else◌,
}
use bitcoin_ipc.Result.{Result, ok, err, ◌>>=◌, no_next_committee}
use bitcoin_ipc.Types.{Env, SubnetId, XOnlyPublicKey, EthAddress, Txid, Amount, u16_mod, u64_mod}
use bitcoin_ipc.Committee.{
  SubnetValidator, SubnetCommittee, same_committee, is_validator, to_committee,
}

pub data SubnetKillState : Type 0 where
  not_killed to_be_killed : SubnetKillState
  killed_at : ℕ → SubnetKillState

pub record SubnetState : Type 0 where
  pub id : SubnetId
  pub committee_number : ℕ
  pub committee : SubnetCommittee
  pub waiting_committee : Option SubnetCommittee
  pub last_checkpoint_number : Option ℕ
  pub killed : SubnetKillState
  pub marked_for_kill_checkpoint_number : Option ℕ

unfoldable pub total_collateral : SubnetState → Amount
total_collateral s = sum (λ (v : SubnetValidator). v.collateral) s.committee.validators

abbrev pub is_some_and {ℓ} : {A : Type ℓ} → Option A → (A → Bool) → Bool
is_some_and none p = false
is_some_and (some a) p = p a

abbrev pub unwrap_or {ℓ} : {A : Type ℓ} → Option A → A → A
unwrap_or none d = d
unwrap_or (some a) d = a

unfoldable pub is_waiting_validator : SubnetState → XOnlyPublicKey → Bool
is_waiting_validator s key = is_some_and s.waiting_committee (λ c. is_validator c key)

unfoldable pub needs_rotation : SubnetState → Bool
needs_rotation s = is_some_and s.waiting_committee (λ c. not (same_committee s.committee c))

unfoldable pub latest_committee : SubnetState → SubnetCommittee
latest_committee s = unwrap_or s.waiting_committee s.committee

unfoldable pub rotate_to_committee : SubnetState → SubnetCommittee → SubnetState
rotate_to_committee s c = if same_committee s.committee c then s else record s {
  waiting_committee =
      if is_some_and s.waiting_committee (λ w. same_committee w c)
      then none
      else s.waiting_committee;
  committee = c;
  committee_number = s.committee_number + 1;
}

rotate_to : SubnetState → Option SubnetCommittee → Result SubnetState
rotate_to s none = err no_next_committee
rotate_to s (some c) = ok (record s {
  waiting_committee = none;
  committee = c;
  committee_number = s.committee_number + 1;
})

unfoldable pub rotate_to_waiting_committee : SubnetState → Result SubnetState
unfolding rotate_to
rotate_to_waiting_committee s = rotate_to s s.waiting_committee

abbrev pub is_to_be_killed : SubnetKillState → Bool
is_to_be_killed to_be_killed = true
is_to_be_killed _ = false

abbrev pub is_not_killed : SubnetKillState → Bool
is_not_killed not_killed = true
is_not_killed _ = false

abbrev pub is_killed_at : SubnetKillState → Bool
is_killed_at (killed_at height) = true
is_killed_at _ = false

unfoldable pub is_killed : SubnetState → Bool
is_killed s = is_killed_at s.killed

unfoldable pub is_killed_or_pending : SubnetState → Bool
is_killed_or_pending s = not (is_not_killed s.killed)

-- `KILL_PERIOD_NUMBER_OF_CHECKPOINTS`
abbrev pub kill_period_number_of_checkpoints : Bool → ℕ
kill_period_number_of_checkpoints dev = if dev then 2 else 5

-- The subtraction of two `u64`, which wraps in a release build.
unfoldable pub kill_period_over : Env → Option ℕ → ℕ → Bool
kill_period_over env none last = leb (kill_period_number_of_checkpoints env.dev) (last + 1)
kill_period_over env (some marked) last =
    leb (kill_period_number_of_checkpoints env.dev) ((last + u64_mod - marked) % u64_mod)

unfoldable pub should_kill : Env → SubnetState → Bool
unfolding kill_period_over
should_kill env s =
    is_to_be_killed s.killed
    && is_some_and s.last_checkpoint_number
        (λ last. kill_period_over env s.marked_for_kill_checkpoint_number last)

pub record GenesisBalanceEntry : Type 0 where
  pub subnet_address : EthAddress
  pub amount : Amount
  pub prefund_txid : Txid
  pub block_height : ℕ

pub record IpcCreateSubnetMsg : Type 0 where
  pub min_validator_stake : Amount
  pub min_validators : ℕ
  pub bottomup_check_period : ℕ
  pub active_validators_limit : ℕ
  pub min_cross_msg_fee : Amount
  pub whitelist : List XOnlyPublicKey

pub record SubnetGenesisInfo : Type 0 where
  pub subnet_id : SubnetId
  pub create_subnet_msg : IpcCreateSubnetMsg
  pub create_msg_block_height : ℕ
  pub bootstrapped : Bool
  pub genesis_block_height : Option ℕ
  pub genesis_validators : List SubnetValidator
  pub genesis_balance_entries : List GenesisBalanceEntry

-- `len() as u16` keeps the low 16 bits.
unfoldable pub enough_to_bootstrap : SubnetGenesisInfo → Bool
enough_to_bootstrap g =
    leb g.create_subnet_msg.min_validators (length g.genesis_validators % u16_mod)

abbrev pub genesis_committee_conf_num : ℕ
genesis_committee_conf_num = 0

unfoldable pub to_subnet : Env → SubnetGenesisInfo → Result SubnetState
to_subnet env g = do
  c ← to_committee env g.genesis_validators g.subnet_id genesis_committee_conf_num
  ok (record {
    id = g.subnet_id;
    committee_number = 1;
    committee = c;
    waiting_committee = none;
    last_checkpoint_number = none;
    killed = not_killed;
    marked_for_kill_checkpoint_number = none;
  })

unfoldable pub add_genesis_balance_entry :
    SubnetGenesisInfo → EthAddress → Amount → Txid → ℕ → SubnetGenesisInfo
add_genesis_balance_entry g address amount txid height = record g {
  genesis_balance_entries =
      g.genesis_balance_entries
      ++ (record {
        subnet_address = address;
        amount = amount;
        prefund_txid = txid;
        block_height = height;
      })
        ∷ [];
}

unfoldable pub remove_genesis_balance_entry : SubnetGenesisInfo → Txid → SubnetGenesisInfo
remove_genesis_balance_entry g txid = record g {
  genesis_balance_entries =
      retain (λ (e : GenesisBalanceEntry). not (e.prefund_txid == txid)) g.genesis_balance_entries;
}

-- `genesis_balance()`: the map from an address to the sum of its entries, in order of first entry.
unfoldable pub add_balance :
    EthAddress → Amount → List (EthAddress × Amount) → List (EthAddress × Amount)
add_balance a x [] = (a, x) ∷ []
add_balance a x ((b, y) ∷ m) = if b == a then (b, y + x) ∷ m else (b, y) ∷ add_balance a x m

unfoldable pub collect_balances :
    List GenesisBalanceEntry → List (EthAddress × Amount) → List (EthAddress × Amount)
collect_balances [] m = m
collect_balances (e ∷ entries) m =
    collect_balances entries (add_balance e.subnet_address e.amount m)

unfoldable pub genesis_balance : SubnetGenesisInfo → List (EthAddress × Amount)
genesis_balance g = collect_balances g.genesis_balance_entries []
