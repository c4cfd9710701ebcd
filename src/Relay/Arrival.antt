-- ===== src/Relay/Arrival.antt =====
-- Payloads that arrive in any order, each some number of times: which is the first of an index.
use rblib_world_chain.Prelude.{
  ℕ, zero, suc, ◌+◌, ◌≤◌, ◌≡◌, sym, ap, ◌∙◌, All, none, some, List, [], ◌∷◌, map, length, get_elem?,
  inl, inr, arith, Option-cases,
}
use mathlib.Core.List.{Memᴰ}
use mathlib.Core.Path.{subst}
use mathlib.Core.Option.{some-injective}
use rblib_world_chain.Primitives.Data.{Flashblock, Payload, into_flashblock}
use rblib_world_chain.Primitives.Collection.Invariant.{Contiguous}
use rblib_world_chain.P2p.{max_flashblock_index}
use rblib_world_chain.P2p.Promise.{first_of, arrival, or_else}

-- Two lists with the same elements, in any order and with repetitions.
abbrev pub SameElements : List Payload → List Payload → Type 0
SameElements ps qs = All (λ p. Memᴰ p qs) ps × All (λ q. Memᴰ q ps) qs

-- The payloads from position `k` on carry their positions as indices.
abbrev pub Numbered : ℕ → List Payload → Type 0
Numbered k [] = Unit {0}
Numbered k (p ∷ ps) = (p.index ≡ k) × Numbered (suc k) ps

pub Contiguous-Numbered :
    (k id : ℕ) (fbs : List Flashblock) → Contiguous k id fbs → Numbered k (map into_flashblock fbs)
Contiguous-Numbered k id [] h = tt
Contiguous-Numbered k id (fb ∷ fbs) h = (h.0, Contiguous-Numbered (suc k) id fbs h.2)

pub Contiguous-ids :
    (k id : ℕ) (fbs : List Flashblock)
    → Contiguous k id fbs
    → All (λ p. p.payload_id ≡ id) (map into_flashblock fbs)
Contiguous-ids k id [] h = tt
Contiguous-ids k id (fb ∷ fbs) h = (h.1, Contiguous-ids (suc k) id fbs h.2)

Numbered-ge : (k : ℕ) (ps : List Payload) (p : Payload) → Numbered k ps → Memᴰ p ps → k ≤ p.index
Numbered-ge k [] p n h = elim h [ ]
Numbered-ge k (q ∷ qs) p n (Memᴰ.head e) = omega (arith, ap (λ (x : Payload). x.index) e, n.0)
Numbered-ge k (q ∷ qs) p n (Memᴰ.tail h) = omega (arith, Numbered-ge (suc k) qs p n.1 h)

-- One of numbered payloads stands at the position of its index.
Numbered-get_elem? :
    (k i : ℕ) (ps : List Payload) (p : Payload)
    → Numbered k ps
    → Memᴰ p ps
    → p.index ≡ k + i
    → get_elem? ps i ≡ some p
Numbered-get_elem? k i [] p n h at = elim h [ ]
Numbered-get_elem? k zero (q ∷ qs) p n (Memᴰ.head e) at = ap some (sym e)
Numbered-get_elem? k (suc i) (q ∷ qs) p n (Memᴰ.head e) at =
    absurd (omega (arith, ap (λ (x : Payload). x.index) e, n.0, at))
Numbered-get_elem? k zero (q ∷ qs) p n (Memᴰ.tail h) at =
    absurd (omega (arith, Numbered-ge (suc k) qs p n.1 h, at))
Numbered-get_elem? k (suc i) (q ∷ qs) p n (Memᴰ.tail h) at =
    Numbered-get_elem? (suc k) i qs p n.1 h (omega (arith, at))

-- What is found in numbered payloads is one of them, with its position as index.
get_elem?-Numbered :
    (k i : ℕ) (ps : List Payload) (p : Payload)
    → Numbered k ps
    → get_elem? ps i ≡ some p
    → Memᴰ p ps × (p.index ≡ k + i) × (i + 1 ≤ length ps)
get_elem?-Numbered k i [] p n h = absurd cc
get_elem?-Numbered k zero (q ∷ qs) p n h = (
  Memᴰ.head (some-injective p q (sym h)),
  rw (some-injective p q (sym h)) (omega (arith, n.0)),
  omega arith,
)
get_elem?-Numbered k (suc i) (q ∷ qs) p n h =
    let (among, at, below) = get_elem?-Numbered (suc k) i qs p n.1 h in
    (Memᴰ.tail among, omega (arith, at), omega (arith, below))

arrival-some : (q : Payload) (i : ℕ) (p : Payload) → arrival q i ≡ some p → (p ≡ q) × (q.index ≡ i)
arrival-some q i p h = ground arith

arrival_self : (q : Payload) → q.index ≤ max_flashblock_index → arrival q q.index ≡ some q
arrival_self q le = ground arith

-- The first arrival of an index is one of the arrivals, and has the index.
first_of-Memᴰ :
    (ps : List Payload) (i : ℕ) (p : Payload) → first_of ps i ≡ some p → Memᴰ p ps × (p.index ≡ i)
first_of-Memᴰ [] i p h = absurd cc
first_of-Memᴰ (q ∷ qs) i p h = elim (Option-cases (arrival q i)) [
  | inl other ↦
      let (among, at) =
        first_of-Memᴰ qs i p (ap (λ o. or_else o (first_of qs i)) (sym other) ∙ h) in
      (Memᴰ.tail among, at)
  | inr (x, this) ↦
      let (same, at) = arrival-some q i x this in
      let found : p ≡ x = some-injective p x (sym h ∙ ap (λ o. or_else o (first_of qs i)) this) in
      (Memᴰ.head (found ∙ same), ap (λ (y : Payload). y.index) (found ∙ same) ∙ at)
]

-- An arrival within the bound leaves no index of its own empty.
first_of_arrived :
    (ps : List Payload) (p : Payload)
    → Memᴰ p ps
    → p.index ≤ max_flashblock_index
    → first_of ps p.index ≡ none
    → ⊥
first_of_arrived [] p h le missing = elim h [ ]
first_of_arrived (q ∷ qs) p (Memᴰ.head e) le missing = absurd (
    cc (
      sym missing
      ∙ ap (λ (x : Payload). first_of (q ∷ qs) x.index) e
      ∙ ap (λ o. or_else o (first_of qs q.index)) (arrival_self q (rw (sym e) le))))
first_of_arrived (q ∷ qs) p (Memᴰ.tail h) le missing = elim (Option-cases (arrival q p.index)) [
  | inl other ↦
      first_of_arrived qs p h le (ap (λ o. or_else o (first_of qs p.index)) (sym other) ∙ missing)
  | inr (x, this) ↦ absurd (cc (sym missing ∙ ap (λ o. or_else o (first_of qs p.index)) this))
]

All-Memᴰ : (P : Payload → Type 0) (ps : List Payload) (p : Payload) → All P ps → Memᴰ p ps → P p
All-Memᴰ P [] p all h = elim h [ ]
All-Memᴰ P (q ∷ qs) p all (Memᴰ.head e) = subst P (sym e) all.0
All-Memᴰ P (q ∷ qs) p all (Memᴰ.tail h) = All-Memᴰ P qs p all.1 h

-- What holds of all payloads holds of whichever of them arrive.
pub All-arrived :
    (P : Payload → Type 0) (arrived ps : List Payload)
    → All (λ p. Memᴰ p ps) arrived
    → All P ps
    → All P arrived
All-arrived P [] ps known all = tt
All-arrived P (p ∷ arrived) ps known all =
    (All-Memᴰ P ps p all known.0, All-arrived P arrived ps known.1 all)

-- Of numbered payloads that arrive in any order and with repetitions, the first of an index is the
-- one at its position.
pub first_of-SameElements :
    (arrived ps : List Payload)
    → SameElements arrived ps
    → Numbered 0 ps
    → length ps ≤ max_flashblock_index + 1
    → (i : ℕ) → first_of arrived i ≡ get_elem? ps i
first_of-SameElements arrived ps (known, all_come) n short i =
    elim (Option-cases (first_of arrived i)) [
      | inr (p, found) ↦
          let (came, at) = first_of-Memᴰ arrived i p found in
          found
          ∙ sym
              (Numbered-get_elem? 0 i ps p n (All-Memᴰ _ arrived p known came) (omega (arith, at)))
      | inl missing ↦ elim (Option-cases (get_elem? ps i)) [
        | inl beyond ↦ missing ∙ sym beyond
        | inr (p, there) ↦
            let (among, at, below) = get_elem?-Numbered 0 i ps p n there in
            let here : p.index ≡ i = omega (arith, at) in
            absurd (
              first_of_arrived arrived p (All-Memᴰ _ ps p all_come among)
                (omega (arith, at, below, short)) (ap (first_of arrived) here ∙ missing))
      ]
    ]
