-- ===== src/Service/Linked.antt =====
-- The slots of the protocol state and the collection of the executor hold the same flashblocks.
use rblib_world_chain.Prelude.{
  ℕ, ◌≡◌, ◌≢◌, ◌⊎◌, inl, inr, refl, sym, ap, ◌∙◌, some, List, [], ◌∷◌, ◌++◌, length, get_elem?,
  arith, ok, Bool, get_elem?-append_left,
}
use native.Mathlib.Decide.{ℕ_discrete}
use rblib_world_chain.Primitives.Data.{Payload}
use rblib_world_chain.Primitives.Collection.{Flashblocks, payload_id}
use rblib_world_chain.Primitives.Collection.Push.{Pushes}
use rblib_world_chain.P2p.{P2pState, slot, start_payload}
use rblib_world_chain.P2p.Invariant.{IsOrdered}
use rblib_world_chain.P2p.Publish.{start_payload_same}
use rblib_world_chain.Service.Emitted.{From, start_payload_clears}
use rblib_world_chain.Service.Echo.{wrapped, get_elem?_within}

-- The slots of the current payload hold what the collection has at their positions.
abbrev pub IsLinked : Flashblocks → P2pState → Type 0
IsLinked fs s =
    payload_id fs ≡ ok s.payload_id
    → (i : ℕ) (q : Payload) → slot s.flashblocks i ≡ some q
    → get_elem? fs i ≡ some (wrapped q)

get_elem?_last {ℓ} :
    {A : Type ℓ} (xs : List A) (x : A) (i : ℕ)
    → i ≡ length xs
    → get_elem? (xs ++ (x ∷ [])) i ≡ some x
get_elem?_last [] x i h = rw h refl
get_elem?_last (y ∷ ys) x i h = rw h (get_elem?_last ys x (length ys) refl)

-- After the collection and the state have both taken `p`, every slot is linked.
module _ (fs fs' : Flashblocks) (p : Payload) (fresh : Bool) (s t : P2pState)
    (pushes : Pushes fs (wrapped p) fs' fresh) (link : IsLinked fs s)
    (new_id : (payload_id fs ≡ ok p.payload_id) ⊎ (p.payload_id ≢ s.payload_id))
    (ordered : IsOrdered t) (from : From (start_payload s p) p t) where
  new-linked : get_elem? fs' p.index ≡ some (wrapped p)
  new-linked = elim pushes [
    | inl (c, e, _) ↦ rw e (get_elem?_last fs (wrapped p) p.index c.1)
    | inr (o, e, _) ↦ rw (e, o.1) refl
  ]

  old-linked :
      (i : ℕ) (q : Payload)
      → slot (start_payload s p).flashblocks i ≡ some q
      → get_elem? fs' i ≡ some (wrapped q)
  old-linked i q h = elim (ℕ_discrete p.payload_id s.payload_id) [
    | no other ↦ absurd (cc (start_payload_clears s p i (ground arith)))
    | yes same ↦
        let here : slot s.flashblocks i ≡ some q =
          ap (λ (u : P2pState). slot u.flashblocks i) (sym (start_payload_same s p same)) ∙ h in
        elim pushes [
          | inl (c, e, _) ↦
              let there = link (c.0 ∙ ap ok same) i q here in
              rw e (
                get_elem?-append_left fs (wrapped p ∷ []) i
                  (get_elem?_within fs i (wrapped q) there)
                ∙ there)
          | inr (o, e, _) ↦ elim new_id [
            | inl current ↦ absurd (o.0 current)
            | inr differs ↦ absurd (differs same)
          ]
        ]
  ]

  pub all-linked :
      (i : ℕ) (q : Payload) → slot t.flashblocks i ≡ some q → get_elem? fs' i ≡ some (wrapped q)
  all-linked i q h = elim (from i q h) [
    | inl new ↦
        let at_index : i ≡ p.index = cc ((ordered.held i q h).0) in rw (at_index, new) new-linked
    | inr old ↦ old-linked i q old
  ]
