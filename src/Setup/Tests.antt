-- ===== src/Setup/Tests.antt =====
-- The start of a node with two steps.
use rblib_world_chain.Prelude.{ℕ, ◌≡◌, refl, true, false, none, some, [], ◌∷◌, Result, ok}
use rblib_world_chain.Setup.{
  WorldChainArgs, into_config, StateExecutor, new_node, OpNetworkBuilder, components_builder,
  sub_protocol_added, executor_launched, step_set_up, payload_events_registered, service_spawned,
  build_network, new_service, spawn_service, setup_steps,
}

abbrev small_args : WorldChainArgs
small_args = record {
  rollup = record {
    disable_txpool_gossip = true;
    compute_pending_block = false;
    discovery_v4 = true;
    sequencer = none;
    sequencer_headers = [];
    enable_tx_conditional = false;
    min_suggested_priority_fee = 1;
    historical_rpc = none;
  };
  flashblocks = none;
  tx_peers = some (3 ∷ []);
}

abbrev small_executor : StateExecutor
small_executor = record { id = 10; p2p_handle = 11 }

abbrev builds_always : OpNetworkBuilder → Result ℕ ℕ
builds_always b = ok 5

abbrev sets_up : ℕ → Result ℕ (Unit {0})
sets_up step = ok tt

own_executor : (new_node 10 (into_config small_args)).flashblocks_state ≡ some small_executor
unfolding new_node
own_executor = refl

started_network :
    build_network builds_always (components_builder (new_node 10 (into_config small_args))).network
    ≡ (sub_protocol_added 11 ∷ executor_launched small_executor ∷ [], ok 5)
unfolding build_network components_builder new_node into_config
started_network = refl

started_service :
    spawn_service sets_up (new_service (1 ∷ 2 ∷ []) small_executor)
    ≡ (step_set_up 1 ∷ step_set_up 2 ∷ payload_events_registered 10 ∷ service_spawned ∷ [], ok tt)
unfolding spawn_service setup_steps
started_service = refl
