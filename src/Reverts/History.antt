-- ===== src/Reverts/History.antt =====
-- `flatten_reverts` against the history of each account.
use rblib_world_chain.Prelude.{
  ℕ, ◌≡◌, refl, sym, ◌∙◌, Bool, false, ◌||◌, Option, none, some, List, [], ◌∷◌, ◌==◌, if◌then◌else◌,
  arith,
}
use mathlib.Core.Path.{subst}
use rblib_world_chain.Reverts.{
  AccountInfoRevert, do_nothing, change, AccountRevert, Transition, Reverts, lookup, or_insert,
  merge_storage, merge_info, merge, absorb, absorb_all, flatten, flatten_reverts,
}

-- What happened to one account, earliest first.
unfoldable pub history : ℕ → List (ℕ × AccountRevert) → List AccountRevert
history a [] = []
history a ((addr, r) ∷ es) = if addr == a then r ∷ history a es else history a es

-- The first change of the account info.
abbrev pub first_change : List AccountRevert → AccountInfoRevert
first_change [] = do_nothing
first_change (r ∷ rs) = elim r.account [ do_nothing ↦ first_change rs | change x ↦ change x ]

abbrev pub any_wipe : List AccountRevert → Bool
any_wipe [] = false
any_wipe (r ∷ rs) = r.wipe_storage || any_wipe rs

-- The first value recorded for a slot.
abbrev pub or_else {ℓ} : {A : Type ℓ} → Option A → Option A → Option A
or_else none o = o
or_else (some a) o = some a

abbrev pub first_slot : ℕ → List AccountRevert → Option ℕ
first_slot slot [] = none
first_slot slot (r ∷ rs) = or_else (lookup slot r.storage) (first_slot slot rs)

-- The entry of one account, from its history: nothing for an untouched account, and else the first
-- status, the first change, the first value of each slot and whether any transition wiped.
abbrev pub Summarises : List AccountRevert → Option AccountRevert → Type 0
Summarises [] entry = entry ≡ none
Summarises (r ∷ rs) entry =
    (merged : AccountRevert) × (entry ≡ some merged)
    × (merged.previous_status ≡ r.previous_status)
    × (merged.account ≡ first_change (r ∷ rs))
    × (merged.wipe_storage ≡ any_wipe (r ∷ rs))
    × ((slot : ℕ) → lookup slot merged.storage ≡ first_slot slot (r ∷ rs))

lookup-or_insert :
    (k j v : ℕ) (m : List (ℕ × ℕ))
    → lookup j (or_insert k v m) ≡ or_else (lookup j m) (if k == j then some v else none)
unfolding lookup or_insert
lookup-or_insert k j v [] = ground arith
lookup-or_insert k j v ((i, w) ∷ m) = ground (arith, lookup-or_insert k j v m)

lookup-merge_storage :
    (slot : ℕ) (entry later : List (ℕ × ℕ))
    → lookup slot (merge_storage entry later) ≡ or_else (lookup slot entry) (lookup slot later)
unfolding merge_storage lookup
lookup-merge_storage slot entry [] = ground arith
lookup-merge_storage slot entry ((k, v) ∷ rest) =
    ground
      (arith, lookup-merge_storage slot (or_insert k v entry) rest, lookup-or_insert k slot v entry)

-- The fold of a history onto an entry.
fold_history : Option AccountRevert → List AccountRevert → Option AccountRevert
fold_history entry [] = entry
fold_history none (r ∷ rs) = fold_history (some r) rs
fold_history (some old) (r ∷ rs) = fold_history (some (merge old r)) rs

absorbed : Option AccountRevert → AccountRevert → Option AccountRevert
absorbed none r = some r
absorbed (some old) r = some (merge old r)

lookup-absorb :
    (m : Transition) (addr a : ℕ) (r : AccountRevert)
    → lookup a (absorb m (addr, r)) ≡ (if addr == a then absorbed (lookup a m) r else lookup a m)
unfolding lookup absorb absorbed
lookup-absorb [] addr a r = refl
lookup-absorb ((b, old) ∷ m) addr a r = ground (arith, lookup-absorb m addr a r)

fold_history-cons :
    (entry : Option AccountRevert) (r : AccountRevert) (rs : List AccountRevert)
    → fold_history (absorbed entry r) rs ≡ fold_history entry (r ∷ rs)
unfolding fold_history absorbed
fold_history-cons none r rs = refl
fold_history-cons (some old) r rs = refl

lookup-absorb_all :
    (m : Transition) (a : ℕ) (es : List (ℕ × AccountRevert))
    → lookup a (absorb_all m es) ≡ fold_history (lookup a m) (history a es)
unfolding absorb_all history fold_history
lookup-absorb_all m a [] = refl
lookup-absorb_all m a ((addr, r) ∷ es) = ground (
  arith,
  lookup-absorb_all (absorb m (addr, r)) a es,
  lookup-absorb m addr a r,
  fold_history-cons (lookup a m) r (history a es),
)

merge-Summarises :
    (old r : AccountRevert) (rs : List AccountRevert) (entry : Option AccountRevert)
    → Summarises (merge old r ∷ rs) entry
    → Summarises (old ∷ r ∷ rs) entry
unfolding merge merge_info
merge-Summarises old r rs entry (merged, e, status, info, wipe, slots) = (
  merged,
  e,
  status,
  ground arith,
  ground arith,
  λ slot. ground (arith, slots slot, lookup-merge_storage slot old.storage r.storage),
)

fold_history-Summarises :
    (r : AccountRevert) (rs : List AccountRevert) → Summarises (r ∷ rs) (fold_history (some r) rs)
unfolding fold_history merge_info
fold_history-Summarises r [] = (r, refl, refl, ground arith, ground arith, λ slot. ground arith)
fold_history-Summarises r (r' ∷ rs) =
    merge-Summarises r r' rs _ (fold_history-Summarises (merge r r') rs)

nothing_before : (a : ℕ) (hs : List AccountRevert) → Summarises hs (fold_history (lookup a []) hs)
unfolding fold_history lookup
nothing_before a [] = refl
nothing_before a (r ∷ rs) = fold_history-Summarises r rs

-- If turning the map into a vector keeps its entries, the flattened reverts are one transition, and
-- the entry of each account in it summarises the account's history over all transitions: the first
-- status, the first change of the account info, the first value of each slot, and whether any
-- transition wiped the storage.
pub flatten_reverts-Summarises :
    (order : Transition → Transition)
    → ((m : Transition) (a : ℕ) → lookup a (order m) ≡ lookup a m)
    → (reverts : Reverts)
    → (t : Transition) × (flatten_reverts order reverts ≡ t ∷ [])
      × ((a : ℕ) → Summarises (history a (flatten reverts)) (lookup a t))
unfolding flatten_reverts
flatten_reverts-Summarises order keeps reverts =
    let per_account = absorb_all [] (flatten reverts) in
    (
      order per_account,
      refl,
      λ a.
          subst (Summarises (history a (flatten reverts)))
            (sym (keeps per_account a ∙ lookup-absorb_all [] a (flatten reverts)))
            (nothing_before a (history a (flatten reverts))),
    )
