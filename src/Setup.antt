-- ===== src/Setup.antt =====
-- How a node is put together: the arguments (src/config.rs), the node and its components (src/node.rs),
-- the network builder (src/network.rs) and the payload service (src/payload.rs).
-- A state executor is shared by reference: a handle is its identity, with that of its p2p handle. What
-- the node does to the network and to its tasks is a list of effects; the inner network builder, the
-- setup of the steps and the other components are arguments.
mod Tests
use rblib_world_chain.Prelude.{
  ℕ, ◌+◌, Bool, not, Option, none, some, List, [], ◌∷◌, ◌++◌, Result, ok, err, if◌then◌else◌,
}

-- `RollupArgs`, as node.rs reads it.
pub record RollupArgs : Type 0 where
  pub disable_txpool_gossip : Bool
  pub compute_pending_block : Bool
  pub discovery_v4 : Bool
  pub sequencer : Option ℕ
  pub sequencer_headers : List ℕ
  pub enable_tx_conditional : Bool
  pub min_suggested_priority_fee : ℕ
  pub historical_rpc : Option ℕ

pub record FlashblocksArgs : Type 0 where
  pub enabled : Bool
  pub flashblocks_interval : ℕ
  pub recommit_interval : ℕ

pub record WorldChainArgs : Type 0 where
  pub rollup : RollupArgs
  pub flashblocks : Option FlashblocksArgs
  pub tx_peers : Option (List ℕ)

pub record WorldChainNodeConfig : Type 0 where
  pub args : WorldChainArgs

-- It never fails.
unfoldable pub into_config : WorldChainArgs → WorldChainNodeConfig
into_config args = elim args.tx_peers [
  | none ↦ record { args = args }
  | some peers ↦
      if args.rollup.disable_txpool_gossip
      then record { args = record args { tx_peers = none } }
      else record { args = args }
]

-- `FlashblocksStateExecutor`, by reference.
pub record StateExecutor : Type 0 where
  pub id : ℕ
  pub p2p_handle : ℕ

pub record FlashblocksNode : Type 0 where
  pub config : WorldChainNodeConfig
  pub flashblocks_state : Option StateExecutor

-- `FlashblocksNode::new`, which makes an executor and a handle, with the identities from `unused` on.
unfoldable pub new_node : (unused : ℕ) → WorldChainNodeConfig → FlashblocksNode
new_node unused config = record {
  config = config;
  flashblocks_state = some (record { id = unused; p2p_handle = unused + 1 });
}

-- `OpAddOnsBuilder`
pub record AddOnsBuilder : Type 0 where
  pub sequencer : Option ℕ
  pub sequencer_headers : List ℕ
  pub enable_tx_conditional : Bool
  pub min_suggested_priority_fee : ℕ
  pub historical_rpc : Option ℕ

unfoldable pub add_ons_builder : FlashblocksNode → AddOnsBuilder
add_ons_builder node =
    let rollup = node.config.args.rollup in
    record {
      sequencer = rollup.sequencer;
      sequencer_headers = rollup.sequencer_headers;
      enable_tx_conditional = rollup.enable_tx_conditional;
      min_suggested_priority_fee = rollup.min_suggested_priority_fee;
      historical_rpc = rollup.historical_rpc;
    }

-- `OpNetworkBuilder`
pub record OpNetworkBuilder : Type 0 where
  pub disable_txpool_gossip : Bool
  pub disable_discovery_v4 : Bool

pub record FlashblocksNetworkBuilder : Type 0 where
  pub inner : OpNetworkBuilder
  pub flashblocks_state : Option StateExecutor

-- What `ComponentsBuilder` is given besides the defaults.
pub record Components : Type 0 where
  pub compute_pending_block : Bool
  pub network : FlashblocksNetworkBuilder

unfoldable pub components_builder : FlashblocksNode → Components
components_builder node =
    let rollup = node.config.args.rollup in
    record {
      compute_pending_block = rollup.compute_pending_block;
      network = record {
        inner = record {
          disable_txpool_gossip = rollup.disable_txpool_gossip;
          disable_discovery_v4 = not rollup.discovery_v4;
        };
        flashblocks_state = node.flashblocks_state;
      };
    }

pub data NodeEffect : Type 0 where
  -- the protocol over a p2p handle, added to the network
  sub_protocol_added : ℕ → NodeEffect
  -- the task of an executor
  executor_launched : StateExecutor → NodeEffect
  -- a step of the pipeline is set up
  step_set_up : ℕ → NodeEffect
  -- an executor is given the channel of payload events
  payload_events_registered : ℕ → NodeEffect
  service_spawned : NodeEffect

-- What the executor adds to a network that has been built.
abbrev pub attach : Option StateExecutor → List NodeEffect
attach none = []
attach (some state) = sub_protocol_added state.p2p_handle ∷ executor_launched state ∷ []

-- `build_network`, by what the inner builder answers.
unfoldable pub build_network :
    {Error Handle : Type 0}
    → (OpNetworkBuilder → Result Error Handle)
    → FlashblocksNetworkBuilder
    → List NodeEffect × Result Error Handle
build_network build_inner b = elim (build_inner b.inner) [
  | err e ↦ ([], err e)
  | ok handle ↦ (attach b.flashblocks_state, ok handle)
]

pub record WorldChainServiceBuilder : Type 0 where
  -- the steps of the pipeline
  pub steps : List ℕ
  pub state_executor : Option StateExecutor

-- `WorldChainServiceBuilder::new`
abbrev pub new_service : List ℕ → StateExecutor → WorldChainServiceBuilder
new_service steps state_executor = record { steps = steps; state_executor = some state_executor }

-- The loop over the steps; the first that fails ends it.
unfoldable pub setup_steps :
    {Error : Type 0}
    → (ℕ → Result Error (Unit {0}))
    → List ℕ
    → List NodeEffect × Result Error (Unit {0})
setup_steps setup_step [] = ([], ok tt)
setup_steps setup_step (step ∷ steps) =
    let (later, result) = setup_steps setup_step steps in
    elim (setup_step step) [
      | err e ↦ (step_set_up step ∷ [], err e)
      | ok _ ↦ (step_set_up step ∷ later, result)
    ]

abbrev pub register : Option StateExecutor → List NodeEffect
register none = []
register (some state) = payload_events_registered state.id ∷ []

unfoldable pub spawn_service :
    {Error : Type 0}
    → (ℕ → Result Error (Unit {0}))
    → WorldChainServiceBuilder
    → List NodeEffect × Result Error (Unit {0})
unfolding setup_steps
spawn_service setup_step b =
    let (effects, result) = setup_steps setup_step b.steps in
    elim result [
      | err e ↦ (effects, err e)
      | ok _ ↦ (effects ++ (register b.state_executor ++ (service_spawned ∷ [])), ok tt)
    ]
