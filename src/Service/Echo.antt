-- ===== src/Service/Echo.antt =====
-- What processing does with a flashblock of this node that comes back from the stream.
use rblib_world_chain.Prelude.{
  ℕ, zero, suc, ◌≤◌, ◌<◌, ◌≡◌, ◌≢◌, ◌⊎◌, inl, inr, ap, ◌∙◌, Option, none, some, List, [], ◌∷◌,
  length, get_elem?, arith, ok, err, Option-cases,
}
use mathlib.Core.Path.{subst}
use native.Mathlib.Decide.{ℕ_discrete}
use rblib_world_chain.Primitives.Data.{Payload, Flashblock, ExecutionPayloadBaseV1}
use rblib_world_chain.Primitives.Collection.{
  Flashblocks, Error, payload_id, base, starts_payload, is_new_payload, index_not_zero,
  stale_timestamp,
}
use rblib_world_chain.Primitives.Collection.Invariant.{IsValid}
use rblib_world_chain.Primitives.Collection.Push.{base_time}
use rblib_world_chain.Executor.Request.{Node}
use rblib_world_chain.Executor.{Executor, already_processed, process_unseen, process_flashblock}
use rblib_world_chain.Executor.Invariant.{IsCoherent, Current}
use rblib_world_chain.Executor.Failure.{seen_latest}

abbrev pub wrapped : Payload → Flashblock
wrapped q = record { flashblock = q }

-- The flashblock of its index in the collection.
abbrev pub InCollection : Flashblocks → Payload → Type 0
InCollection fs q = (payload_id fs ≡ ok q.payload_id) × (get_elem? fs q.index ≡ some (wrapped q))

-- Of another payload, and no later one: if it is a first flashblock, its base is not later.
abbrev pub IsOutdated : Flashblocks → Payload → Type 0
IsOutdated fs q =
    (payload_id fs ≢ ok q.payload_id)
    × (q.index ≡ 0
        → (b : ExecutionPayloadBaseV1) × (q.base ≡ some b) × (b.timestamp ≤ base_time fs))

-- What the executor has published and not forgotten, or has replaced.
abbrev pub IsEcho : {Built Executed : Type 0} → Executor Built Executed → Payload → Type 0
IsEcho e q = (InCollection e.flashblocks q × (e.latest_payload ≢ none)) ⊎ IsOutdated e.flashblocks q

pub get_elem?_within {ℓ} :
    {A : Type ℓ} (xs : List A) (i : ℕ) (x : A) → get_elem? xs i ≡ some x → i < length xs
get_elem?_within [] i x h = cc
get_elem?_within (y ∷ ys) zero x h = omega arith
get_elem?_within (y ∷ ys) (suc i) x h = omega (arith, get_elem?_within ys i x h)

outdated_refused :
    (fs : Flashblocks) (q : Payload)
    → IsValid fs
    → IsOutdated fs q
    → (x : Error) × (is_new_payload fs (wrapped q) ≡ err x)
unfolding is_new_payload payload_id starts_payload base
outdated_refused [] q v h = absurd v
outdated_refused (fb ∷ fbs) q v h = elim (ℕ_discrete q.index 0) [
  | yes first ↦ let late = h.1 first in let cur = v.0 in (stale_timestamp, ground arith)
  | no later ↦ (index_not_zero, ground arith)
]

module _ {Tx Built Executed Header Env Db : Type 0}
    (node : Node Tx Built Executed Header Env Db) where
  -- The call leaves all but the pending block as it was.
  abbrev pub OnlyPending : Executor Built Executed → Executor Built Executed → Type 0
  OnlyPending e t = (p : Option Executed) × (t ≡ record e { pending_block = p })

  outdated_unseen :
      (e : Executor Built Executed) (q : Payload)
      → IsCoherent node.built_id e
      → payload_id e.flashblocks ≢ ok q.payload_id
      → already_processed node e (wrapped q) ≡ none
  unfolding already_processed
  outdated_unseen e q v other = elim (Option-cases e.latest_payload) [
    | inl nothing ↦ ground arith
    | inr ((built, index), latest) ↦
        let current = subst (λ l. Current node.built_id e.flashblocks l) latest v.1 in
        elim (ℕ_discrete (node.built_id built) q.payload_id) [
          | yes same ↦ absurd (other (current.0 ∙ ap ok same))
          | no differs ↦ ground arith
        ]
  ]

  process_outdated :
      (e : Executor Built Executed) (q : Payload)
      → IsCoherent node.built_id e
      → IsOutdated e.flashblocks q
      → (process_flashblock node e q).0 ≡ e
  unfolding process_flashblock process_unseen
  process_outdated e q v h =
      let unseen = outdated_unseen e q v h.0 in
      let fails = outdated_refused e.flashblocks q v.0 h in let failing = fails.1 in ground arith

  process_current :
      (e : Executor Built Executed) (q : Payload)
      → IsCoherent node.built_id e
      → InCollection e.flashblocks q
      → e.latest_payload ≢ none
      → OnlyPending e (process_flashblock node e q).0
  process_current e q v h latest = elim (Option-cases e.latest_payload) [
    | inl nothing ↦ absurd (latest nothing)
    | inr ((built, index), is_latest) ↦
        let current = subst (λ l. Current node.built_id e.flashblocks l) is_latest v.1 in
        let within = get_elem?_within e.flashblocks q.index (wrapped q) h.1 in
        let id : node.built_id built ≡ q.payload_id = cc (current.0, h.0) in
        (
          node.executed_block built,
          ap (λ r. r.0) (seen_latest node e q built index is_latest id (omega arith)),
        )
  ]

  -- A flashblock that a coherent executor has published, of the current payload or of one that it
  -- has replaced since, changes nothing but the pending block when it is processed.
  pub process_echo :
      (e : Executor Built Executed) (q : Payload)
      → IsCoherent node.built_id e
      → IsEcho e q
      → OnlyPending e (process_flashblock node e q).0
  process_echo e q v (inl (h, latest)) = process_current e q v h latest
  process_echo e q v (inr h) = (e.pending_block, process_outdated e q v h)
