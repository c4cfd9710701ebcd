-- ===== src/Context/Equality.antt =====
-- `Eq` promises an equivalence, which `eq` is: contexts are equal when the hashes of their blocks are.
use rblib_world_chain.Prelude.{ℕ, true, ◌≡◌, refl, sym, ◌∙◌, ◌↔◌, Option, none, some, arith}
use mathlib.Core.Option
use rblib_world_chain.Context.{WorldContext, eq_payload, eq}

module _ {Built : Type 0} (block_hash : Built → ℕ) where
  eq_payload_iff :
      (a b : Option Built)
      → (eq_payload block_hash a b ≡ true) ↔ (Option.map block_hash a ≡ Option.map block_hash b)
  eq_payload_iff none none = (λ h. refl, λ h. refl)
  eq_payload_iff none (some y) = (λ h. cc, λ h. cc)
  eq_payload_iff (some x) none = (λ h. cc, λ h. cc)
  eq_payload_iff (some x) (some y) = (λ h. ground arith, λ h. ground arith)

  pub eq_iff :
      (a b : WorldContext Built)
      → (eq block_hash a b ≡ true) ↔ (
          Option.map block_hash a.maybe_built_payload ≡ Option.map block_hash b.maybe_built_payload)
  unfolding eq
  eq_iff a b = eq_payload_iff a.maybe_built_payload b.maybe_built_payload

  -- The relation is reflexive, symmetric and transitive.
  eq-IsEquivalence :
      (a b c : WorldContext Built)
      → (eq block_hash a a ≡ true)
        × (eq block_hash a b ≡ true → eq block_hash b a ≡ true)
        × (eq block_hash a b ≡ true → eq block_hash b c ≡ true → eq block_hash a c ≡ true)
  eq-IsEquivalence a b c = (
    (eq_iff a a).1 refl,
    λ h. (eq_iff b a).1 (sym ((eq_iff a b).0 h)),
    λ h k. (eq_iff a c).1 ((eq_iff a b).0 h ∙ (eq_iff b c).0 k),
  )
