-- ===== src/P2p/Tests.antt =====
-- Runs of the protocol state on concrete flashblocks.
use rblib_world_chain.Prelude.{
  ℕ, suc, zero, ◌≤◌, ◌<◌, ◌≡◌, refl, arith, none, some, List, [], ◌∷◌, inl, inr, length, map,
}
use rblib_world_chain.Primitives.Data.{Payload, Bytes}
use rblib_world_chain.Primitives.Samples.{sample}
use rblib_world_chain.P2p.{
  P2pMsg, P2pState, default_state, start_payload, publish, publish_all, slot, start_payload, drain,
  admit, cache, resize,
}
use rblib_world_chain.Primitives.Codec.{compute_payload_length}
use rblib_world_chain.Primitives.Codec.Samples.{number_codec, payload_codecs, known_payload}
use rblib_world_chain.P2p.Wire.{IsTagCodec}
use rblib_world_chain.P2p.Invariant.{InOrder, default_state-IsOrdered}
use rblib_world_chain.P2p.Publish.{Emits, publish_all-Emits}
use rblib_world_chain.P2p.Promise.{promised}
use rblib_world_chain.P2p.Refinement.{publish_all-promised}
use rblib_world_chain.P2p.Drain.{drain_stops}
use rblib_world_chain.P2p.Delivery.{Arrives, publish_all_delivers}

-- An encoding that shows the payload id and the index.
abbrev encoded : P2pMsg → Bytes
encoded (P2pMsg.flashblocks_payload_v1 p) = p.payload_id ∷ p.index ∷ []

-- Four calls out of order, one of them repeated.
abbrev shuffled : List Payload
shuffled = sample 0 2 none ∷ sample 0 0 none ∷ sample 0 2 none ∷ sample 0 1 none ∷ []

-- What is emitted for them, and what goes to the peers.
shuffled_stream :
    map (λ (p : Payload). p.index) (publish_all encoded 9 default_state shuffled).1.stream
    ≡ 0 ∷ 1 ∷ 2 ∷ []
unfolding publish_all publish admit start_payload cache drain slot resize
shuffled_stream = refl

shuffled_peers : length (publish_all encoded 9 default_state shuffled).1.peers ≡ 3
unfolding publish_all publish admit start_payload cache drain slot resize
shuffled_peers = refl

all_arrive : (i : ℕ) → i < 3 → Arrives i shuffled
all_arrive zero h = inr (inl refl)
all_arrive (suc zero) h = inr (inr (inr (inl refl)))
all_arrive (suc (suc zero)) h = inl refl
all_arrive (suc (suc (suc i))) h = absurd (omega arith)

publish_all_delivers_example :
    let stream = (publish_all encoded 9 default_state shuffled).1.stream in
    InOrder 0 0 stream × (3 ≤ length stream)
unfolding slot
publish_all_delivers_example =
    publish_all_delivers encoded 9 default_state shuffled 3 default_state-IsOrdered refl refl
      (refl, (refl, (refl, (refl, tt))))
      (omega arith, (omega arith, (omega arith, (omega arith, tt)))) (omega arith) all_arrive

publish_all-Emits_example : Emits default_state (publish_all encoded 9 default_state shuffled)
publish_all-Emits_example =
    publish_all-Emits encoded 9 default_state shuffled default_state-IsOrdered
      (refl, (refl, (refl, (refl, tt))))

abbrev known_message : P2pMsg
known_message = P2pMsg.flashblocks_payload_v1 known_payload

number-IsTagCodec : IsTagCodec number_codec
number-IsTagCodec = (record { length_law = λ t h. refl; decode_law = λ t rest h. refl }, refl)

known_length : (compute_payload_length payload_codecs known_payload).0 ≡ 8
unfolding compute_payload_length
known_length = refl

publish_all-promised_example :
    (publish_all encoded 9 default_state shuffled).1.stream ≡ promised shuffled
unfolding slot
publish_all-promised_example =
    publish_all-promised encoded 9 default_state shuffled default_state-IsOrdered refl (λ i. refl)
      (refl, (refl, (refl, (refl, tt))))
      (omega arith, (omega arith, (omega arith, (omega arith, tt))))

abbrev two_cached : P2pState
two_cached = record default_state {
  flashblocks = some (sample 0 0 none) ∷ none ∷ some (sample 0 2 none) ∷ [];
}

drain_stops_example :
    let t = (drain 3 9 two_cached).0 in slot t.flashblocks t.flashblock_index ≡ none
drain_stops_example = drain_stops 3 9 two_cached (omega arith)
