-- ===== src/Connection/Tests.antt =====
-- Runs of a connection on concrete messages.
use rblib_world_chain.Prelude.{ℕ, ◌≡◌, refl, none, some, Option, [], ◌∷◌, true, false}
use rblib_world_chain.Primitives.Data.{Bytes}
use rblib_world_chain.Primitives.Samples.{sample}
use rblib_world_chain.P2p.{P2pMsg, PeerMsg, default_state}
use rblib_world_chain.Connection.{
  Connection, handle_flashblocks_payload_v1, has_received, lagged, message, pending, ready,
  poll_next,
}
use rblib_world_chain.Connection.Poll.{polls, polls_forward, poll_next_no_echo}

abbrev encoded : P2pMsg → Bytes
encoded (P2pMsg.flashblocks_payload_v1 p) = p.payload_id ∷ p.index ∷ []

-- The decoding of what `encoded` makes of a sample without a base.
abbrev decoded : Bytes → Option P2pMsg
decoded (id ∷ index ∷ []) = some (P2pMsg.flashblocks_payload_v1 (sample id index none))
decoded _ = none

-- A peer that has sent the flashblock of index 1 of payload 7.
abbrev sender : Connection
sender = record { payload_id = 7; received = false ∷ true ∷ [] }

abbrev some_broadcast : ℕ → PeerMsg
some_broadcast index = PeerMsg.flashblocks_payload_v1 7 index (7 ∷ index ∷ [])

polls_forward_example :
    polls decoded encoded 9 3 sender default_state (
      message (some_broadcast 1)
      ∷ lagged
      ∷ message (some_broadcast 0)
      ∷ message (some_broadcast 1)
      ∷ [])
    ≡ (
      pending ∷ pending ∷ ready (some (7 ∷ 0 ∷ [])) ∷ [],
      message (some_broadcast 1) ∷ [],
      sender,
      default_state,
    )
unfolding has_received
polls_forward_example =
    polls_forward decoded encoded 9 sender default_state
      (message (some_broadcast 1) ∷ lagged ∷ message (some_broadcast 0) ∷ [])
      (message (some_broadcast 1) ∷ [])

poll_next_no_echo_example :
    let r = poll_next decoded encoded 9 ((7 ∷ 0 ∷ []) ∷ []) false [] sender default_state in
    (r.result ≡ pending)
    × (r.peer_rx ≡ [])
    × (r.effect.state
        ≡ (handle_flashblocks_payload_v1 encoded 9 sender default_state (sample 7 0 none)).state)
poll_next_no_echo_example =
    poll_next_no_echo decoded encoded 9 sender default_state (7 ∷ 0 ∷ []) (sample 7 0 none) refl
