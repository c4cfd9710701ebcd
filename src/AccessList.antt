-- ===== src/AccessList.antt =====
-- `merge_access_list` of src/step/publish_flashblocks.rs: two EIP-7928 access lists merged, account by
-- account.
pub mod Entries
mod Tests
use rblib_world_chain.Prelude.{Option, none, some, List, [], ◌∷◌, ◌++◌, ◌==◌, if◌then◌else◌}
use rblib_world_chain.Primitives.Data.{AccountChanges, BlockAccessList}

-- the changes of an account that both lists have
unfoldable pub extend : AccountChanges → AccountChanges → AccountChanges
extend old new = record old {
  storage_changes = old.storage_changes ++ new.storage_changes;
  storage_reads = old.storage_reads ++ new.storage_reads;
  balance_changes = old.balance_changes ++ new.balance_changes;
  nonce_changes = old.nonce_changes ++ new.nonce_changes;
  code_changes = old.code_changes ++ new.code_changes;
}

-- The body of the loop: the first account with the address is extended, or the account is pushed.
unfoldable pub merge_account : BlockAccessList → AccountChanges → BlockAccessList
merge_account [] new = new ∷ []
merge_account (old ∷ rest) new =
    if old.address == new.address then extend old new ∷ rest else old ∷ merge_account rest new

unfoldable pub merge_accounts : BlockAccessList → BlockAccessList → BlockAccessList
merge_accounts bal [] = bal
merge_accounts bal (new ∷ rest) = merge_accounts (merge_account bal new) rest

unfoldable pub merge_access_list :
    Option BlockAccessList → Option BlockAccessList → Option BlockAccessList
merge_access_list none new = none
merge_access_list (some bal) none = some bal
merge_access_list (some bal) (some new) = some (merge_accounts bal new)
