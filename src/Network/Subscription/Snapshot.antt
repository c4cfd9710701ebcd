-- ===== src/Network/Subscription/Snapshot.antt =====
-- What a subscriber sees is in order from the first flashblock of the payload, until it lags.
use rblib_world_chain.Prelude.{
  ℕ, zero, suc, ◌+◌, ◌≤◌, ◌<◌, ◌≡◌, ◌≢◌, refl, sym, ap, ap₂, ◌∙◌, All, Option, none, some, List, [],
  ◌∷◌, ◌++◌, map, length, arith, Option-cases, inl, inr, length-append,
}
use native.Mathlib.Decide.{dec_lt}
use rblib_world_chain.Primitives.Data.{Payload, Bytes}
use rblib_world_chain.P2p.{P2pState, P2pMsg, slot, publish_all}
use rblib_world_chain.P2p.Invariant.{IsOrdered, InOrder, InOrder-append}
use rblib_world_chain.P2p.Delivery.{IsQuiet}
use rblib_world_chain.P2p.Publish.{publish_all-Emits}
use rblib_world_chain.P2p.Promise.{consecutive, reads, consecutive-reads, stop_at_none}
use rblib_world_chain.P2p.Slots.{slot_beyond}
use rblib_world_chain.Executor.Request.{Node}
use rblib_world_chain.Executor.{Executor}
use rblib_world_chain.Network.Subscription.{map_while, flashblock_stream, launch}

pub consecutive-shift :
    (n i : ℕ) (f g : ℕ → Option Payload)
    → ((j : ℕ) → f (j + 1) ≡ g j)
    → consecutive n (i + 1) f ≡ consecutive n i g
consecutive-shift zero i f g h = refl
consecutive-shift (suc n) i f g h = ap₂ stop_at_none (h i) (consecutive-shift n (i + 1) f g h)

map_while-consecutive :
    (os : List (Option Payload)) → map_while os ≡ consecutive (length os) 0 (slot os)
unfolding map_while slot
map_while-consecutive [] = refl
map_while-consecutive (none ∷ os) = refl
map_while-consecutive (some p ∷ os) =
    ap (λ l. p ∷ l)
      (map_while-consecutive os
        ∙ sym (
            consecutive-shift (length os) 0 (slot (some p ∷ os)) (slot os)
              (λ j. let next : j + 1 ≡ suc j = omega arith in ap (slot (some p ∷ os)) next)))

reads-InOrder :
    (n i id : ℕ) (held : ℕ → Option Payload)
    → ((j : ℕ) (p : Payload) → held j ≡ some p → (p.index ≡ j) × (p.payload_id ≡ id))
    → ((j : ℕ) → i ≤ j → j < i + n → held j ≢ none)
    → InOrder i id (reads n i held) × (length (reads n i held) ≡ n)
reads-InOrder zero i id held at full = (tt, refl)
reads-InOrder (suc n) i id held at full = elim (Option-cases (held i)) [
  | inl missing ↦ absurd (full i (omega arith) (omega arith) missing)
  | inr (p, there) ↦
      let rest = reads-InOrder n (i + 1) id held at (λ j a b. full j (omega arith) (omega arith)) in
      rw there (((at i p there).0, (at i p there).1, rest.0), ap suc rest.1)
]

index_within : (s : P2pState) → IsOrdered s → s.flashblock_index ≤ length s.flashblocks
index_within s v = elim (dec_lt (length s.flashblocks) s.flashblock_index) [
  | yes beyond ↦ absurd (
      v.emitted (length s.flashblocks) beyond
        (slot_beyond s.flashblocks (length s.flashblocks) (omega arith)))
  | no within ↦ omega arith
]

-- The slots of a quiet state are what has been emitted of the current payload.
snapshot_lem :
    (s : P2pState)
    → IsOrdered s
    → IsQuiet s
    → InOrder 0 s.payload_id (map_while s.flashblocks)
      × (length (map_while s.flashblocks) ≡ s.flashblock_index)
snapshot_lem s v quiet =
    let n = s.flashblock_index in
    let held = slot s.flashblocks in
    let full : (j : ℕ) → 0 ≤ j → j < 0 + n → held j ≢ none = λ j a b. v.emitted j (omega arith) in
    let stop : held (0 + n) ≡ none = ap held (omega arith) ∙ quiet in
    let same : map_while s.flashblocks ≡ reads n 0 held =
      map_while-consecutive s.flashblocks
      ∙ consecutive-reads n (length s.flashblocks) 0 held full stop (index_within s v) in
    rw same (reads-InOrder n 0 s.payload_id held v.held full)

map_while-received : (ps : List Payload) → map_while (map some ps) ≡ ps
unfolding map_while
map_while-received [] = refl
map_while-received (p ∷ ps) = ap (λ l. p ∷ l) (map_while-received ps)

map_while-lag :
    (ps : List Payload) (later : List (Option Payload))
    → map_while (map some ps ++ (none ∷ later)) ≡ ps
unfolding map_while
map_while-lag [] later = refl
map_while-lag (p ∷ ps) later = ap (λ l. p ∷ l) (map_while-lag ps later)

module _ (encode : P2pMsg → Bytes) (now : ℕ) where
  -- A subscriber of an ordered state that waits for the next flashblock, and that loses no message,
  -- sees over any later calls of publish for the current payload all that has been emitted of the
  -- payload, before and after, in order from the index 0 on, each once.
  pub flashblock_stream-InOrder :
      (s : P2pState) (ps : List Payload)
      → IsOrdered s
      → IsQuiet s
      → All (λ p. p.payload_id ≡ s.payload_id) ps
      → let (t, out) = publish_all encode now s ps in
        let seen = flashblock_stream s (map some out.stream) in
        InOrder 0 s.payload_id seen × (length seen ≡ t.flashblock_index)
  unfolding flashblock_stream
  flashblock_stream-InOrder s ps v quiet ids =
      let (t, out) = publish_all encode now s ps in
      let snapshot = snapshot_lem s v quiet in
      let emits = publish_all-Emits encode now s ps v ids in
      rw (map_while-received out.stream) (
        InOrder-append 0 s.flashblock_index s.payload_id (map_while s.flashblocks) out.stream
            snapshot.0 (omega (arith, snapshot.1)) emits.2,
        omega (arith, length-append (map_while s.flashblocks) out.stream, snapshot.1, emits.3),
      )

module _ {Tx Built Executed Header Env Db : Type 0}
    (node : Node Tx Built Executed Header Env Db) where
  -- After a lag error nothing more is processed, whatever comes later.
  pub launch_after_lag :
      (e : Executor Built Executed) (s : P2pState) (ps : List Payload)
      (later : List (Option Payload))
      → launch node e (flashblock_stream s (map some ps ++ (none ∷ later)))
        ≡ launch node e (flashblock_stream s (map some ps))
  unfolding flashblock_stream
  launch_after_lag e s ps later =
      ap (λ l. launch node e (map_while s.flashblocks ++ l))
        (map_while-lag ps later ∙ sym (map_while-received ps))
