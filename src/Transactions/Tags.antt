-- ===== src/Transactions/Tags.antt =====
-- src/ipc_lib.rs: `IpcTag::as_str` and `IpcTag::from_str`.
use bitcoin_ipc.Prelude.{◌≡◌, refl, some, ap, sym, ◌∙◌}
use bitcoin_ipc.Transactions.{
  IpcTag, create_subnet, join_subnet, prefund_subnet, fund_subnet, checkpoint_subnet,
  batch_transfer, stake_collateral, unstake_collateral, kill_subnet, as_str, from_str,
}

pub from_str-as_str : (tag : IpcTag) → from_str (as_str tag) ≡ some tag
unfolding from_str
from_str-as_str create_subnet = refl
from_str-as_str join_subnet = refl
from_str-as_str prefund_subnet = refl
from_str-as_str fund_subnet = refl
from_str-as_str checkpoint_subnet = refl
from_str-as_str batch_transfer = refl
from_str-as_str stake_collateral = refl
from_str-as_str unstake_collateral = refl
from_str-as_str kill_subnet = refl

some-injective : {a b : IpcTag} → some a ≡ some b → a ≡ b
some-injective e = cc

pub as_str-injective : {a b : IpcTag} → as_str a ≡ as_str b → a ≡ b
as_str-injective {a} {b} e =
    some-injective (sym (from_str-as_str a) ∙ ap from_str e ∙ from_str-as_str b)
