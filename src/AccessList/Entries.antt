-- ===== src/AccessList/Entries.antt =====
-- The entries of each account under `merge_access_list`.
use rblib_world_chain.Prelude.{
  ℕ, ◌≡◌, ◌≢◌, refl, sym, ap, ◌∙◌, some, List, [], ◌∷◌, ◌++◌, append-nil, append_assoc, ◌==◌,
  if◌then◌else◌, arith, All,
}
use mathlib.Core.Path.{subst}
use rblib_world_chain.Primitives.Data.{AccountChanges, BlockAccessList}
use rblib_world_chain.AccessList.{extend, merge_account, merge_accounts, merge_access_list}

-- No address stands twice.
abbrev pub Absent : ℕ → BlockAccessList → Type 0
Absent a bal = All (λ acc. acc.address ≢ a) bal

abbrev pub IsDistinct : BlockAccessList → Type 0
IsDistinct [] = Unit {0}
IsDistinct (acc ∷ bal) = Absent acc.address bal × IsDistinct bal

-- One of the five kinds of changes.
pub data Kind : Type 0 where
  storage_changes storage_reads balance_changes nonce_changes code_changes : Kind

abbrev pub of_kind : Kind → AccountChanges → List ℕ
of_kind storage_changes acc = acc.storage_changes
of_kind storage_reads acc = acc.storage_reads
of_kind balance_changes acc = acc.balance_changes
of_kind nonce_changes acc = acc.nonce_changes
of_kind code_changes acc = acc.code_changes

-- All changes of a kind that a list records for an address.
unfoldable pub entries : Kind → ℕ → BlockAccessList → List ℕ
entries k a [] = []
entries k a (acc ∷ bal) =
    if acc.address == a then of_kind k acc ++ entries k a bal else entries k a bal

of_kind-extend :
    (k : Kind) (old new : AccountChanges)
    → of_kind k (extend old new) ≡ of_kind k old ++ of_kind k new
unfolding extend
of_kind-extend storage_changes old new = refl
of_kind-extend storage_reads old new = refl
of_kind-extend balance_changes old new = refl
of_kind-extend nonce_changes old new = refl
of_kind-extend code_changes old new = refl

entries-Absent : (k : Kind) (a : ℕ) (bal : BlockAccessList) → Absent a bal → entries k a bal ≡ []
unfolding entries
entries-Absent k a [] h = refl
entries-Absent k a (acc ∷ bal) h = ground (arith, entries-Absent k a bal h.1)

Absent-merge_account :
    (a : ℕ) (bal : BlockAccessList) (new : AccountChanges)
    → Absent a bal
    → new.address ≢ a
    → Absent a (merge_account bal new)
unfolding merge_account extend
Absent-merge_account a [] new h n = (n, tt)
Absent-merge_account a (acc ∷ bal) new h n = ground (arith, Absent-merge_account a bal new h.1 n)

IsDistinct-merge_account :
    (bal : BlockAccessList) (new : AccountChanges)
    → IsDistinct bal
    → IsDistinct (merge_account bal new)
unfolding merge_account extend
IsDistinct-merge_account [] new h = (tt, tt)
IsDistinct-merge_account (acc ∷ bal) new h =
    ground
      (arith, IsDistinct-merge_account bal new h.1, Absent-merge_account acc.address bal new h.0)

entries-merge_account :
    (k : Kind) (a : ℕ) (bal : BlockAccessList) (new : AccountChanges)
    → IsDistinct bal
    → entries k a (merge_account bal new)
      ≡ entries k a bal ++ (if new.address == a then of_kind k new else [])
unfolding entries merge_account extend
entries-merge_account k a [] new h = ground (arith, append-nil (of_kind k new))
entries-merge_account k a (acc ∷ bal) new h = ground (
  arith,
  of_kind-extend k acc new,
  entries-Absent k acc.address bal h.0,
  entries-merge_account k a bal new h.1,
  append-nil (of_kind k acc),
  append-nil (of_kind k acc ++ of_kind k new),
  append-nil (of_kind k acc ++ entries k a bal),
  append-nil (entries k a bal),
  append_assoc (of_kind k acc) (entries k a bal) (of_kind k new),
)

entries-cons :
    (k : Kind) (a : ℕ) (acc : AccountChanges) (bal : BlockAccessList)
    → entries k a (acc ∷ bal) ≡ (if acc.address == a then of_kind k acc else []) ++ entries k a bal
unfolding entries
entries-cons k a acc bal = ground arith

entries_nil : (k : Kind) (a : ℕ) → entries k a [] ≡ []
unfolding entries
entries_nil k a = refl

merge_accounts_lem :
    (bal new : BlockAccessList)
    → IsDistinct bal
    → IsDistinct (merge_accounts bal new)
      × ((k : Kind) (a : ℕ)
          → entries k a (merge_accounts bal new) ≡ entries k a bal ++ entries k a new)
unfolding merge_accounts
merge_accounts_lem bal [] h =
    (h, λ k a. sym (ap (◌++◌ (entries k a bal)) (entries_nil k a) ∙ append-nil (entries k a bal)))
merge_accounts_lem bal (acc ∷ new) h =
    let rest =
      merge_accounts_lem (merge_account bal acc) new (IsDistinct-merge_account bal acc h) in
    (
      rest.0,
      λ k a.
          rest.1 k a
          ∙ ap (λ l. l ++ entries k a new) (entries-merge_account k a bal acc h)
          ∙ append_assoc (entries k a bal) _ (entries k a new)
          ∙ ap (◌++◌ (entries k a bal)) (sym (entries-cons k a acc new)),
    )

-- Merging two access lists, the first with distinct addresses, leaves the addresses distinct, and an
-- account's changes of each kind are those of the first list followed by those of the second.
pub merge_access_list-entries :
    (bal new merged : BlockAccessList)
    → IsDistinct bal
    → merge_access_list (some bal) (some new) ≡ some merged
    → IsDistinct merged
      × ((k : Kind) (a : ℕ) → entries k a merged ≡ entries k a bal ++ entries k a new)
unfolding merge_access_list
merge_access_list-entries bal new merged h e =
    let same : merge_accounts bal new ≡ merged = cc in
    subst
      (λ m.
        IsDistinct m × ((k : Kind) (a : ℕ) → entries k a m ≡ entries k a bal ++ entries k a new))
      same (merge_accounts_lem bal new h)
