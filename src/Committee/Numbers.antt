-- ===== src/Committee/Numbers.antt =====
-- src/db.rs: how far each change of a committee advances its configuration number.
use bitcoin_ipc.Prelude.{◌+◌, ◌≡◌, arith}
use bitcoin_ipc.Result.{ok}
use bitcoin_ipc.Types.{Env, SubnetId, XOnlyPublicKey}
use bitcoin_ipc.Committee.{
  SubnetValidator, SubnetCommittee, add_validator, remove_validator, to_committee,
  join_new_validator, modify_validator, remove_member,
}

module _ (env : Env) (id : SubnetId) (c c' : SubnetCommittee) where
  pub number-join_new_validator :
      (v : SubnetValidator)
      → join_new_validator env c id v ≡ ok c'
      → c'.configuration_number ≡ c.configuration_number + 2
  unfolding join_new_validator add_validator to_committee
  number-join_new_validator v e = ground arith

  pub number-modify_validator :
      (v : SubnetValidator)
      → modify_validator env c id v ≡ ok c'
      → c'.configuration_number ≡ c.configuration_number + 1
  unfolding modify_validator to_committee
  number-modify_validator v e = ground arith

  pub number-remove_member :
      (key : XOnlyPublicKey)
      → remove_member env c id key ≡ ok c'
      → c'.configuration_number ≡ c.configuration_number + 1
  unfolding remove_member remove_validator to_committee
  number-remove_member key e = ground arith
