-- ===== src/Block/Builder/Order.antt =====
-- The order in which the parallel executions finish does not matter.
use mathlib.Core.List.{Permᴰ}
use mathlib.Core.List.Permᴰ
use mathlib.Core.Path.{subst}
use rblib_world_chain.Prelude.{
  ℕ, ◌+◌, ◌≤◌, ◌<◌, u64_mod, ◌≡◌, ◌≢◌, refl, sym, ap, ap₂, ◌%◌, ◌∙◌, List, [], ◌∷◌, ok, collect,
  arith, length, All, bind_ok,
}
use rblib_world_chain.Block.{BundleState, Recovered, EvmEnv, Chain}
use rblib_world_chain.Block.Builder.{
  State, Executed, Engine, index_from, insert_by_index, sort_by_index,
}
use rblib_world_chain.Block.Builder.Build.{execute}

All-Permᴰ {ℓ κ} : {A : Type ℓ} (P : A → Type κ) {xs ys : List A} → Permᴰ xs ys → All P xs → All P ys
All-Permᴰ P Permᴰ.nil h = tt
All-Permᴰ P (Permᴰ.cons e d) h = (subst P e h.0, All-Permᴰ P d h.1)
All-Permᴰ P (Permᴰ.swap e e') h = (subst P e' h.1.0, (subst P e h.0, h.1.1))
All-Permᴰ P (Permᴰ.trans d d') h = All-Permᴰ P d' (All-Permᴰ P d h)

module _ {Accounts Info Slots : Type 0} where
  abbrev Apart : Executed Accounts Info Slots → List (Executed Accounts Info Slots) → Type 0
  Apart r rs = All (λ (s : Executed Accounts Info Slots). r.result.index ≢ s.result.index) rs

  -- No two results have the same index.
  abbrev pub Distinct : List (Executed Accounts Info Slots) → Type 0
  Distinct [] = Unit
  Distinct (r ∷ rs) = Apart r rs × Distinct rs

  -- The results have the indices from an offset on.
  abbrev pub Indexed : ℕ → List (Executed Accounts Info Slots) → Type 0
  Indexed offset [] = Unit
  Indexed offset (r ∷ rs) = (r.result.index ≡ offset) × Indexed (offset + 1) rs

  abbrev index_of : Executed Accounts Info Slots → ℕ
  index_of r = r.result.index

  Distinct-Permᴰ :
      {xs ys : List (Executed Accounts Info Slots)} → Permᴰ xs ys → Distinct xs → Distinct ys
  Distinct-Permᴰ Permᴰ.nil h = tt
  Distinct-Permᴰ (Permᴰ.cons {l₂ = l} e d) h =
      (subst (λ r. Apart r l) e (All-Permᴰ _ d h.0), Distinct-Permᴰ d h.1)
  Distinct-Permᴰ (Permᴰ.swap {l = l} e e') h = (
    (
      λ same. h.0.0 (ap index_of e ∙ sym same ∙ ap index_of (sym e')),
      subst (λ r. Apart r l) e' h.1.0,
    ),
    (subst (λ r. Apart r l) e h.0.1, h.1.1),
  )
  Distinct-Permᴰ (Permᴰ.trans d d') h = Distinct-Permᴰ d' (Distinct-Permᴰ d h)

  insert_comm :
      (x y : Executed Accounts Info Slots) (rs : List (Executed Accounts Info Slots))
      → x.result.index ≢ y.result.index
      → insert_by_index x (insert_by_index y rs) ≡ insert_by_index y (insert_by_index x rs)
  unfolding insert_by_index
  insert_comm x y [] h = ground arith
  insert_comm x y (r ∷ rs) h = ground (arith, insert_comm x y rs h)

  sort-Permᴰ :
      {xs ys : List (Executed Accounts Info Slots)}
      → Permᴰ xs ys
      → Distinct xs
      → sort_by_index xs ≡ sort_by_index ys
  unfolding sort_by_index
  sort-Permᴰ Permᴰ.nil h = refl
  sort-Permᴰ (Permᴰ.cons e d) h = ap₂ insert_by_index e (sort-Permᴰ d h.1)
  sort-Permᴰ (Permᴰ.swap {a} {b} {l = l} e e') h =
      insert_comm a b (sort_by_index l) h.0.0
      ∙ ap₂ (λ x y. insert_by_index x (insert_by_index y (sort_by_index l))) e' e
  sort-Permᴰ (Permᴰ.trans d d') h = sort-Permᴰ d h ∙ sort-Permᴰ d' (Distinct-Permᴰ d h)

  Apart-Indexed :
      (r : Executed Accounts Info Slots) (offset : ℕ) (rs : List (Executed Accounts Info Slots))
      → r.result.index < offset
      → Indexed offset rs
      → Apart r rs
  Apart-Indexed r offset [] lt h = tt
  Apart-Indexed r offset (s ∷ rs) lt h =
      (omega (arith, h.0), Apart-Indexed r (offset + 1) rs (omega arith) h.1)

  Indexed-Distinct :
      (offset : ℕ) (rs : List (Executed Accounts Info Slots)) → Indexed offset rs → Distinct rs
  Indexed-Distinct offset [] h = tt
  Indexed-Distinct offset (r ∷ rs) h = (
    Apart-Indexed r (offset + 1) rs (omega (arith, h.0)) h.1,
    Indexed-Distinct (offset + 1) rs h.1,
  )

  sort-Indexed :
      (offset : ℕ) (rs : List (Executed Accounts Info Slots))
      → Indexed offset rs
      → sort_by_index rs ≡ rs
  unfolding sort_by_index insert_by_index
  sort-Indexed offset [] h = refl
  sort-Indexed offset (r ∷ []) h = refl
  sort-Indexed offset (r ∷ s ∷ rs) h =
      let rest = sort-Indexed (offset + 1) (s ∷ rs) h.1 in rw rest (ground (arith, h.0, h.1.0))

module _ {Accounts Db Cache Info Slots : Type 0} (chain : Chain Accounts)
    (engine : Engine Accounts Db Cache Info Slots) where
  execute-index :
      (db : Db) (bundle : BundleState Accounts) (state : State Cache Info Slots) (evm_env : EvmEnv)
      (index : ℕ) (tx : Recovered) (r : Executed Accounts Info Slots)
      → execute chain engine db bundle state evm_env (index, tx) ≡ ok r
      → r.result.index ≡ index
  unfolding execute
  execute-index db bundle state evm_env index tx r h = ground arith

  collect-Indexed :
      (db : Db) (bundle : BundleState Accounts) (state : State Cache Info Slots) (evm_env : EvmEnv)
      (offset : ℕ) (txs : List Recovered) (rs : List (Executed Accounts Info Slots))
      → offset + length txs ≤ u64_mod
      → collect (execute chain engine db bundle state evm_env) (index_from offset txs) ≡ ok rs
      → Indexed offset rs
  collect-Indexed db bundle state evm_env offset [] rs bound h =
      let same : [] ≡ rs = ground arith in rw⁻¹ same tt
  collect-Indexed db bundle state evm_env offset (tx ∷ txs) rs bound h =
      let run = execute chain engine db bundle state evm_env in
      let (r, e, h') = bind_ok (run (offset % u64_mod, tx)) _ rs h in
      let (rest, e', h'') = bind_ok (collect run (index_from (offset + 1) txs)) _ rs h' in
      let same : r ∷ rest ≡ rs = ground arith in
      let index = execute-index db bundle state evm_env (offset % u64_mod) tx r e in
      rw⁻¹ same (
        omega (arith, index, bound),
        collect-Indexed db bundle state evm_env (offset + 1) txs rest (omega (arith, bound)) e',
      )

  -- If the indices from the offset on stay within 64 bits and all executions succeed, then the
  -- results, in whatever order they arrive, are sorted into the order of the transactions, with the
  -- indices from the offset on.
  pub sort-executed :
      (db : Db) (bundle : BundleState Accounts) (state : State Cache Info Slots) (evm_env : EvmEnv)
      (offset : ℕ) (txs : List Recovered) (results arrived : List (Executed Accounts Info Slots))
      → offset + length txs ≤ u64_mod
      → collect (execute chain engine db bundle state evm_env) (index_from offset txs) ≡ ok results
      → Permᴰ arrived results
      → (sort_by_index arrived ≡ results) × Indexed offset results
  sort-executed db bundle state evm_env offset txs results arrived bound h d =
      let indexed = collect-Indexed db bundle state evm_env offset txs results bound h in
      let distinct = Distinct-Permᴰ (Permᴰ.symm d) (Indexed-Distinct offset results indexed) in
      (sort-Permᴰ d distinct ∙ sort-Indexed offset results indexed, indexed)
