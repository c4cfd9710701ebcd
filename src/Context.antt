-- ===== src/Context.antt =====
-- src/context.rs: the context of a checkpoint, and when two contexts are equal.
pub mod Equality
use rblib_world_chain.Prelude.{ℕ, Bool, true, false, Option, none, some, ◌==◌}

-- `Built` is an `OpBuiltPayload`.
pub record WorldContext (Built : Type 0) : Type 0 where
  pub maybe_built_payload : Option Built

-- `WorldContext::new`
abbrev pub new_context : {Built : Type 0} → Built → WorldContext Built
new_context op_built_payload = record { maybe_built_payload = some op_built_payload }

module _ {Built : Type 0} (block_hash : Built → ℕ) where
  -- The `match` of `eq`.
  abbrev pub eq_payload : Option Built → Option Built → Bool
  eq_payload none (some other) = false
  eq_payload (some one) none = false
  eq_payload none none = true
  eq_payload (some one) (some other) = block_hash one == block_hash other

  unfoldable pub eq : WorldContext Built → WorldContext Built → Bool
  eq one other = eq_payload one.maybe_built_payload other.maybe_built_payload
