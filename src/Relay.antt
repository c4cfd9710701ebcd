-- ===== src/Relay.antt =====
-- From one node to another: the flashblocks of a payload, published by the job of one node
-- (src/step/publish_flashblocks.rs), go through the
-- protocol state of another (src/flashblocks/p2p.rs) and are built again by its executor
-- (src/flashblocks/state.rs, src/flashblocks/builder.rs).
pub mod Arrival
pub mod Collected
pub mod Rebuilt
mod Tests
use native.Mathlib.Decide.{dec_lt}
use rblib_world_chain.Prelude.{
  ℕ, zero, suc, ◌+◌, ◌≤◌, ◌≡◌, refl, ◌∙◌, ap, Option, none, some, List, [], ◌∷◌, length, arith,
  get_elem?,
}
use rblib_world_chain.Primitives.Data.{Payload}
use rblib_world_chain.P2p.Promise.{consecutive, stop_at_none}
use rblib_world_chain.Network.Subscription.Snapshot.{consecutive-shift}

-- A list is what it holds at consecutive positions.
pub consecutive-get_elem? :
    (fuel : ℕ) (ps : List Payload) → length ps ≤ fuel → consecutive fuel 0 (get_elem? ps) ≡ ps
consecutive-get_elem? zero [] h = refl
consecutive-get_elem? zero (p ∷ ps) h = absurd (omega arith)
consecutive-get_elem? (suc fuel) [] h = refl
consecutive-get_elem? (suc fuel) (p ∷ ps) h =
    ap (λ l. p ∷ l)
      (consecutive-shift fuel 0 (get_elem? (p ∷ ps)) (get_elem? ps)
          (λ j. let next : j + 1 ≡ suc j = omega arith in ap (get_elem? (p ∷ ps)) next)
        ∙ consecutive-get_elem? fuel ps (omega arith))
