-- ===== src/P2p/Promise.antt =====
-- What the protocol promises, without a buffer: of the flashblocks that arrived for a payload, the
-- first of each index, in order, up to the first index that is missing.
use rblib_world_chain.Prelude.{
  ℕ, zero, suc, ◌+◌, ◌≤◌, ◌<◌, ◌≡◌, ◌≢◌, refl, sym, ap, ap₂, ◌∙◌, Option, none, some, List, [], ◌∷◌,
  ◌++◌, length, arith, Option-cases, inl, inr, leb, ◌==◌, ◌&&◌, if◌then◌else◌,
}
use rblib_world_chain.Primitives.Data.{Payload}
use rblib_world_chain.P2p.{P2pState, slot, drain, max_flashblock_index}

-- The flashblock of a call at an index within the bound.
abbrev pub arrival : Payload → ℕ → Option Payload
arrival p i = if leb p.index max_flashblock_index && (p.index == i) then some p else none

abbrev pub or_else : Option Payload → Option Payload → Option Payload
or_else none o = o
or_else (some p) o = some p

-- The first flashblock of an index, among the calls in their order.
abbrev pub first_of : List Payload → ℕ → Option Payload
first_of [] i = none
first_of (p ∷ ps) i = or_else (arrival p i) (first_of ps i)

abbrev pub stop_at_none : Option Payload → List Payload → List Payload
stop_at_none none rest = []
stop_at_none (some p) rest = p ∷ rest

-- The flashblocks from an index on, up to the first that is missing, at most `fuel` of them.
abbrev pub consecutive : ℕ → ℕ → (ℕ → Option Payload) → List Payload
consecutive zero i held = []
consecutive (suc fuel) i held = stop_at_none (held i) (consecutive fuel (i + 1) held)

-- What the protocol promises for a sequence of calls.
abbrev pub promised : List Payload → List Payload
promised ps = consecutive (max_flashblock_index + 1) 0 (first_of ps)

abbrev pass_none : Option Payload → List Payload → List Payload
pass_none none rest = rest
pass_none (some p) rest = p ∷ rest

-- The flashblocks of `n` indices from `i` on.
abbrev pub reads : ℕ → ℕ → (ℕ → Option Payload) → List Payload
reads zero i held = []
reads (suc n) i held = pass_none (held i) (reads n (i + 1) held)

pub reads_congr :
    (n i : ℕ) (f g : ℕ → Option Payload)
    → ((j : ℕ) → i ≤ j → j < i + n → f j ≡ g j)
    → reads n i f ≡ reads n i g
reads_congr zero i f g h = refl
reads_congr (suc n) i f g h =
    ap₂ pass_none (h i (omega arith) (omega arith))
      (reads_congr n (i + 1) f g (λ j a b. h j (omega arith) (omega arith)))

pub consecutive_congr :
    (n i : ℕ) (f g : ℕ → Option Payload)
    → ((j : ℕ) → f j ≡ g j)
    → consecutive n i f ≡ consecutive n i g
consecutive_congr zero i f g h = refl
consecutive_congr (suc n) i f g h = ap₂ stop_at_none (h i) (consecutive_congr n (i + 1) f g h)

pass_none-append :
    (o : Option Payload) (ps qs : List Payload) → pass_none o (ps ++ qs) ≡ pass_none o ps ++ qs
pass_none-append none ps qs = refl
pass_none-append (some p) ps qs = refl

pub reads-append :
    (n m i j : ℕ) (held : ℕ → Option Payload)
    → j ≡ i + n
    → reads (n + m) i held ≡ reads n i held ++ reads m j held
reads-append zero m i j held e =
    let none_before : 0 + m ≡ m = omega arith in
    let same : i ≡ j = omega arith in ap₂ (λ a k. reads a k held) none_before same
reads-append (suc n) m i j held e =
    let next : suc n + m ≡ suc (n + m) = omega arith in
    ap (λ k. reads k i held) next
    ∙ ap (pass_none (held i)) (reads-append n m (i + 1) j held (omega arith))
    ∙ pass_none-append (held i) (reads n (i + 1) held) (reads m j held)

-- Where the first `n` are there and the next is not, those are the consecutive ones.
pub consecutive-reads :
    (n fuel i : ℕ) (held : ℕ → Option Payload)
    → ((j : ℕ) → i ≤ j → j < i + n → held j ≢ none)
    → held (i + n) ≡ none
    → n ≤ fuel
    → consecutive fuel i held ≡ reads n i held
consecutive-reads zero zero i held full stop le = refl
consecutive-reads zero (suc fuel) i held full stop le =
    ap (λ o. stop_at_none o (consecutive fuel (i + 1) held)) (ap held (omega arith) ∙ stop)
consecutive-reads (suc n) zero i held full stop le = absurd (omega arith)
consecutive-reads (suc n) (suc fuel) i held full stop le =
    let rest =
      consecutive-reads n fuel (i + 1) held (λ j a b. full j (omega arith) (omega arith))
        (ap held (omega arith) ∙ stop) (omega arith) in
    elim (Option-cases (held i)) [
      | inl missing ↦ absurd (full i (omega arith) (omega arith) missing)
      | inr (p, there) ↦
          ap (λ o. stop_at_none o (consecutive fuel (i + 1) held)) there
          ∙ ap (λ l. p ∷ l) rest
          ∙ sym (ap (λ o. pass_none o (reads n (i + 1) held)) there)
    ]

pub drain-reads :
    (fuel now : ℕ) (s : P2pState)
    → let stream = (drain fuel now s).1 in
      stream ≡ reads (length stream) s.flashblock_index (slot s.flashblocks)
unfolding drain
drain-reads zero now s = refl
drain-reads (suc fuel) now s = elim (Option-cases (slot s.flashblocks s.flashblock_index)) [
  | inl missing ↦ rw (missing, drain) refl
  | inr (p, there) ↦
      let next = record s {
        flashblock_timestamp = now;
        flashblock_index = s.flashblock_index + 1;
      } in
      rw (there, drain)
        (ap (λ l. p ∷ l) (drain-reads fuel now next)
          ∙ sym (
              ap
                (λ o. pass_none o (
                  reads (length (drain fuel now next).1) (s.flashblock_index + 1)
                    (slot s.flashblocks)))
                there))
]
