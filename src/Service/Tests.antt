-- ===== src/Service/Tests.antt =====
-- Runs of a node with the small builder of the executor's tests.
use rblib_world_chain.Prelude.{
  ℕ, ◌≡◌, refl, arith, Option, none, some, List, [], ◌∷◌, length, inl, inr,
}
use rblib_world_chain.Primitives.Data.{Bytes}
use rblib_world_chain.Primitives.Samples.{base_at, sample}
use rblib_world_chain.Primitives.Collection.{
  push, is_new_payload, starts_payload, base, payload_id, first,
}
use rblib_world_chain.P2p.{P2pMsg, publish, start_payload, admit, cache, resize, slot, drain}
use rblib_world_chain.Network
use rblib_world_chain.Network.{publish_new, into_connection}
use rblib_world_chain.Executor.Request.{Node, freeze}
use rblib_world_chain.Executor.{
  publish_built_payload, process_flashblock, already_processed, process_unseen,
}
use rblib_world_chain.Service.{
  Service, new_service_state, ServiceEvent, built, next_round, network, publish_payload,
  process_next, handle, handle_all,
}
use rblib_world_chain.Service.Own.{new_service_state-IsOwn}
use rblib_world_chain.Service.Prompt.{ArePrompt}
use rblib_world_chain.Service.Stream.{handle_all-accepted}
use rblib_world_chain.Service.Orderly.{IsOrderly, settled, publish_each, handle_all-publish_each}

abbrev own_node : Node ℕ ℕ ℕ ℕ ℕ ℕ
own_node = record {
  built_id = λ b. b;
  executed_block = λ b. some b;
  decode_2718_exact = λ bytes. some (length bytes);
  eip_1559_params = λ timestamp. some timestamp;
  header_answers = λ hash. some (some hash) ∷ [];
  state_by_block_hash = λ hash. some hash;
  next_evm_env = λ header env. some header;
  build = λ r. some (freeze r.attributes.payload_attributes.id);
}

abbrev decodes_nothing : Bytes → Option P2pMsg
decodes_nothing bytes = none

abbrev encodes_empty : P2pMsg → Bytes
encodes_empty msg = []

-- Two flashblocks of a payload, and the first of the next before the task has read either.
abbrev busy : List (ServiceEvent ℕ)
busy =
    network Network.Event.connected
    ∷ built (sample 7 0 (some (base_at 100))) 7
    ∷ built (sample 7 1 none) 7
    ∷ built (sample 8 0 (some (base_at 102))) 8
    ∷ next_round
    ∷ next_round
    ∷ next_round
    ∷ next_round
    ∷ []

abbrev after_busy : Service ℕ ℕ
unfolding handle_all handle publish_payload process_next publish_built_payload process_flashblock
    already_processed process_unseen push is_new_payload starts_payload base payload_id first
    publish start_payload admit cache resize slot drain publish_new into_connection Network.step
after_busy = handle_all own_node decodes_nothing encodes_empty 5 new_service_state busy

busy-IsOrderly : IsOrderly own_node decodes_nothing encodes_empty 5 new_service_state busy
unfolding handle publish_payload process_next publish_built_payload process_flashblock
    already_processed process_unseen push is_new_payload starts_payload base payload_id first
    publish start_payload admit cache resize slot drain publish_new into_connection Network.step
busy-IsOrderly = (
  (refl, refl),
  (
    refl,
    inr (λ h. omega (arith, h), tt),
    (
      refl,
      inl refl,
      (refl, inr (λ h. omega (arith, h), (λ h. omega (arith, h), (λ h. omega (arith, h), tt))), tt),
    ),
  ),
)

handle_all-publish_each_example :
    settled (handle_all own_node decodes_nothing encodes_empty 5 new_service_state busy).executor
    ≡ publish_each (settled new_service_state.executor) busy
handle_all-publish_each_example =
    handle_all-publish_each own_node decodes_nothing encodes_empty 5 busy new_service_state
      (new_service_state-IsOwn own_node decodes_nothing encodes_empty 5) busy-IsOrderly

busy-ArePrompt : ArePrompt own_node decodes_nothing encodes_empty 5 new_service_state busy
unfolding handle publish_payload process_next publish_built_payload process_flashblock
    already_processed process_unseen push is_new_payload starts_payload base payload_id first
    publish start_payload admit cache resize slot drain publish_new into_connection Network.step
busy-ArePrompt = (
  (omega arith, omega arith, λ nothing h. cc),
  ((omega arith, omega arith, λ nothing h. cc), ((omega arith, omega arith, λ nothing h. cc), tt)),
)

handle_all-accepted_example :
    (handle_all own_node decodes_nothing encodes_empty 5 new_service_state busy).network.stream
    ≡ sample 7 0 (some (base_at 100)) ∷ sample 7 1 none ∷ sample 8 0 (some (base_at 102)) ∷ []
unfolding publish_built_payload push is_new_payload starts_payload base payload_id first
handle_all-accepted_example =
    handle_all-accepted own_node decodes_nothing encodes_empty 5 busy new_service_state
      (new_service_state-IsOwn own_node decodes_nothing encodes_empty 5)
      (λ published. absurd (published refl)) busy-IsOrderly busy-ArePrompt
