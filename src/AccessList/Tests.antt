-- ===== src/AccessList/Tests.antt =====
-- A run of `merge_access_list` on lists that share an account.
use rblib_world_chain.Prelude.{ℕ, ◌≡◌, ◌++◌, refl, arith, some, [], ◌∷◌}
use rblib_world_chain.Primitives.Data.{AccountChanges, BlockAccessList}
use rblib_world_chain.AccessList.{extend, merge_account, merge_accounts, merge_access_list}
use rblib_world_chain.AccessList.Entries.{IsDistinct, Kind, entries, merge_access_list-entries}

-- An account with one entry of each kind.
abbrev account : ℕ → ℕ → AccountChanges
account address entry = record {
  address = address;
  storage_changes = entry ∷ [];
  storage_reads = entry ∷ [];
  balance_changes = entry ∷ [];
  nonce_changes = entry ∷ [];
  code_changes = entry ∷ [];
}

abbrev old_list : BlockAccessList
old_list = account 1 10 ∷ account 2 20 ∷ []

abbrev new_list : BlockAccessList
new_list = account 3 30 ∷ account 2 21 ∷ []

abbrev merged_list : BlockAccessList
merged_list = account 1 10 ∷ extended ∷ account 3 30 ∷ []
  where
    extended : AccountChanges
    extended = record {
      address = 2;
      storage_changes = 20 ∷ 21 ∷ [];
      storage_reads = 20 ∷ 21 ∷ [];
      balance_changes = 20 ∷ 21 ∷ [];
      nonce_changes = 20 ∷ 21 ∷ [];
      code_changes = 20 ∷ 21 ∷ [];
    }

merges : merge_access_list (some old_list) (some new_list) ≡ some merged_list
unfolding merge_access_list merge_accounts merge_account extend
merges = refl

merge_access_list-entries_example :
    IsDistinct merged_list
    × ((k : Kind) (a : ℕ) → entries k a merged_list ≡ entries k a old_list ++ entries k a new_list)
merge_access_list-entries_example =
    merge_access_list-entries old_list new_list merged_list (((λ e. omega arith), tt), (tt, tt))
      merges
