-- ===== src/Executor/Tests.antt =====
-- Runs of the executor with a small node, whose built payloads are their payload ids.
use rblib_world_chain.Prelude.{ℕ, ◌≡◌, refl, arith, none, some, [], ◌∷◌, length, ok, err}
use rblib_world_chain.Primitives.Data.{Payload, Flashblock, ExecutionPayloadBaseV1}
use rblib_world_chain.Primitives.Samples.{base_at, sample, wrap}
use rblib_world_chain.Executor.Request.{
  Node, BuildRequest, freeze, Error, build_failed, build_request, build_payload,
}
use rblib_world_chain.Executor.{
  Executor, new, publish_built_payload, process_flashblock, already_processed, process_unseen,
}
use rblib_world_chain.Executor.Invariant.{IsCoherent, IsFaithful, process_flashblock-IsCoherent}
use rblib_world_chain.Executor.Failure.{
  Unchanged, process_flashblock_fails, process_flashblock_forgets,
}
use rblib_world_chain.Primitives.Collection.{
  push, is_new_payload, starts_payload, base, payload_id, first, not_contiguous,
}
use rblib_world_chain.Primitives.Collection.Push.{Opens}

-- A node that builds what it is asked for, and finds parameters below timestamp 200.
abbrev small_node : Node ℕ ℕ ℕ ℕ ℕ ℕ
small_node = record {
  built_id = λ built. built;
  executed_block = λ built. some built;
  decode_2718_exact = λ bytes. some (length bytes);
  eip_1559_params = λ timestamp. some timestamp;
  header_answers = λ hash. none ∷ some (some hash) ∷ [];
  state_by_block_hash = λ hash. some hash;
  next_evm_env = λ header next. some header;
  build = λ r. some (freeze r.attributes.payload_attributes.id);
}

-- The same node, whose builder fails.
abbrev failing_node : Node ℕ ℕ ℕ ℕ ℕ ℕ
failing_node = record small_node { build = λ r. none }

small_node-IsFaithful : IsFaithful small_node
small_node-IsFaithful r o built h built_of = ground arith

abbrev first_payload : Payload
first_payload = sample 7 0 (some (base_at 100))

abbrev published : Executor ℕ ℕ
published = record new { flashblocks = wrap first_payload ∷ []; latest_payload = some (7, 0) }

publishes : publish_built_payload new first_payload 7 ≡ ok (published, first_payload)
unfolding publish_built_payload push is_new_payload starts_payload base payload_id first
publishes = refl

published-IsCoherent : IsCoherent small_node.built_id published
unfolding payload_id first
published-IsCoherent = (((base_at 100, refl), (refl, refl, tt)), (refl, refl))

process_flashblock-IsCoherent_example :
    IsCoherent small_node.built_id (process_flashblock small_node published (sample 7 1 none)).0
process_flashblock-IsCoherent_example =
    process_flashblock-IsCoherent small_node published (sample 7 1 none) small_node-IsFaithful
      published-IsCoherent

-- A flashblock that leaves out an index is refused.
process_gap :
    (process_flashblock small_node published (sample 7 3 none)).1
    ≡ err (Error.refused not_contiguous)
unfolding process_flashblock already_processed process_unseen is_new_payload payload_id first
process_gap = refl

process_flashblock_fails_example :
    Unchanged small_node published (process_flashblock small_node published (sample 7 3 none)).0
process_flashblock_fails_example =
    process_flashblock_fails small_node published (sample 7 3 none) (Error.refused not_contiguous)
      process_gap

abbrev later_payload : Payload
later_payload = sample 8 0 (some (base_at 102))

later-Opens : Opens published.flashblocks (wrap later_payload)
unfolding payload_id base first
later-Opens = (λ h. cc, refl, (base_at 102, base_at 100, refl, refl, omega arith))

later_fails : build_payload failing_node none (wrap later_payload) (base_at 102) ≡ err build_failed
unfolding build_payload build_request
later_fails = refl

process_flashblock_forgets_example :
    let e' = (process_flashblock failing_node published later_payload).0 in
    (e'.flashblocks ≡ published.flashblocks)
    × ((fb : Flashblock) (b' : ExecutionPayloadBaseV1) (r : BuildRequest ℕ ℕ ℕ ℕ ℕ)
        → build_request failing_node e'.latest_payload fb b' ≡ ok r
        → r.committed_payload ≡ none)
process_flashblock_forgets_example =
    process_flashblock_forgets failing_node published later_payload (base_at 102) build_failed
      published-IsCoherent later-Opens refl later_fails
