-- ===== src/Reverts.antt =====
-- `flatten_reverts` of src/step/publish_flashblocks.rs: the reverts of several transitions merged into
-- one transition. A `HashMap` is an association list with one entry for a key; `order` stands for the
-- order in which the map is turned into a vector.
pub mod History
mod Tests
use rblib_world_chain.Prelude.{
  ℕ, Bool, ◌||◌, Option, none, some, List, [], ◌∷◌, ◌++◌, ◌==◌, if◌then◌else◌,
}

-- `AccountInfoRevert`: of the other variants the code needs only that they are not `DoNothing`.
pub data AccountInfoRevert : Type 0 where
  do_nothing : AccountInfoRevert
  change : ℕ → AccountInfoRevert

pub record AccountRevert : Type 0 where
  pub account : AccountInfoRevert
  pub storage : List (ℕ × ℕ)
  pub previous_status : ℕ
  pub wipe_storage : Bool

-- One transition, by account address; and the transitions, earliest first.
abbrev pub Transition : Type 0
Transition = List (ℕ × AccountRevert)

abbrev pub Reverts : Type 0
Reverts = List Transition

module _ {V : Type 0} where
  unfoldable pub lookup : ℕ → List (ℕ × V) → Option V
  lookup k [] = none
  lookup k ((j, v) ∷ m) = if j == k then some v else lookup k m

  -- `map.entry(k).or_insert(v)`
  unfoldable pub or_insert : ℕ → V → List (ℕ × V) → List (ℕ × V)
  or_insert k v [] = (k, v) ∷ []
  or_insert k v ((j, w) ∷ m) = if j == k then (j, w) ∷ m else (j, w) ∷ or_insert k v m

-- The inner `for` loop: the earliest value of each slot.
unfoldable pub merge_storage : List (ℕ × ℕ) → List (ℕ × ℕ) → List (ℕ × ℕ)
merge_storage entry [] = entry
merge_storage entry ((slot, revert_to) ∷ rest) = merge_storage (or_insert slot revert_to entry) rest

-- The earliest account-info revert that is not `DoNothing`.
unfoldable pub merge_info : AccountInfoRevert → AccountInfoRevert → AccountInfoRevert
merge_info do_nothing later = later
merge_info (change x) later = change x

-- The occupied entry.
unfoldable pub merge : AccountRevert → AccountRevert → AccountRevert
merge entry acc_revert = record entry {
  wipe_storage = entry.wipe_storage || acc_revert.wipe_storage;
  storage = merge_storage entry.storage acc_revert.storage;
  account = merge_info entry.account acc_revert.account;
}

-- The body of the outer loop: `per_account.entry(*addr)`.
unfoldable pub absorb : Transition → ℕ × AccountRevert → Transition
absorb [] (addr, r) = (addr, r) ∷ []
absorb ((a, old) ∷ m) (addr, r) =
    if a == addr then (a, merge old r) ∷ m else (a, old) ∷ absorb m (addr, r)

unfoldable pub absorb_all : Transition → List (ℕ × AccountRevert) → Transition
absorb_all m [] = m
absorb_all m (e ∷ es) = absorb_all (absorb m e) es

-- `reverts.iter().flatten()`
unfoldable pub flatten : Reverts → List (ℕ × AccountRevert)
flatten [] = []
flatten (t ∷ ts) = t ++ flatten ts

unfoldable pub flatten_reverts : (order : Transition → Transition) → Reverts → Reverts
flatten_reverts order reverts = order (absorb_all [] (flatten reverts)) ∷ []
