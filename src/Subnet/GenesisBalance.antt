-- ===== src/Subnet/GenesisBalance.antt =====
-- src/db.rs: the balances that `SubnetGenesisInfo::genesis_balance` collects from the prefunds.
use bitcoin_ipc.Prelude.{◌+◌, ◌≡◌, ◌∙◌, List, [], ◌∷◌, arith, sum, ◌==◌, if◌then◌else◌}
use bitcoin_ipc.Types.{EthAddress, Amount}
use bitcoin_ipc.Table.{get}
use bitcoin_ipc.Subnet.{
  SubnetGenesisInfo, GenesisBalanceEntry, unwrap_or, add_balance, collect_balances, genesis_balance,
}

-- What an address has prefunded.
abbrev pub prefunded : EthAddress → List GenesisBalanceEntry → Amount
prefunded a entries =
    sum (λ (e : GenesisBalanceEntry). if e.subnet_address == a then e.amount else 0) entries

get-add_balance :
    (a b : EthAddress) (x : Amount) (m : List (EthAddress × Amount))
    → unwrap_or (get b (add_balance a x m)) 0 ≡ unwrap_or (get b m) 0 + (if a == b then x else 0)
unfolding get add_balance
get-add_balance a b x [] = ground arith
get-add_balance a b x ((c, y) ∷ m) = ground (arith, get-add_balance a b x m)

get-collect_balances :
    (a : EthAddress) (entries : List GenesisBalanceEntry) (m : List (EthAddress × Amount))
    → unwrap_or (get a (collect_balances entries m)) 0 ≡ unwrap_or (get a m) 0 + prefunded a entries
unfolding collect_balances
get-collect_balances a [] m = omega arith
get-collect_balances a (e ∷ entries) m =
    get-collect_balances a entries (add_balance e.subnet_address e.amount m)
    ∙ ground (arith, get-add_balance e.subnet_address a e.amount m)

-- The genesis balance of an address is the sum of the amounts of its entries, and 0 where it has
-- none.
pub genesis_balance_lem :
    (g : SubnetGenesisInfo) (a : EthAddress)
    → unwrap_or (get a (genesis_balance g)) 0 ≡ prefunded a g.genesis_balance_entries
unfolding genesis_balance get
genesis_balance_lem g a = ground (arith, get-collect_balances a g.genesis_balance_entries [])
