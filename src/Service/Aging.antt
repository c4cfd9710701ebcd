-- ===== src/Service/Aging.antt =====
-- What the executor has published stays an echo when it publishes more.
use rblib_world_chain.Prelude.{
  ◌≤◌, ◌<◌, refl, ◌≡◌, ◌≢◌, ◌⊎◌, inl, inr, sym, ap, ◌∙◌, none, some, [], ◌∷◌, ◌++◌, get_elem?,
  arith, ok, Bool, get_elem?-append_left,
}
use rblib_world_chain.Primitives.Data.{Payload, ExecutionPayloadBaseV1}
use rblib_world_chain.Primitives.Collection.{Flashblocks, payload_id, base}
use rblib_world_chain.Primitives.Collection.Invariant.{IsValid}
use rblib_world_chain.Primitives.Collection.Push.{Pushes, Opens, base_time}
use rblib_world_chain.Executor.{Executor}
use rblib_world_chain.Service.Echo.{IsEcho, wrapped, get_elem?_within}

same_id :
    (fs : Flashblocks) (p : Payload)
    → IsValid fs
    → payload_id (fs ++ (wrapped p ∷ [])) ≡ payload_id fs
unfolding payload_id
same_id [] p v = absurd v
same_id (x ∷ xs) p v = refl

same_time :
    (fs : Flashblocks) (p : Payload)
    → IsValid fs
    → base_time (fs ++ (wrapped p ∷ [])) ≡ base_time fs
same_time [] p v = absurd v
same_time (x ∷ xs) p v = refl

later_time :
    (fs : Flashblocks) (p : Payload)
    → IsValid fs
    → Opens fs (wrapped p)
    → base_time fs < base_time (wrapped p ∷ [])
unfolding base
later_time [] p v o = absurd v
later_time (x ∷ xs) p v o = let (b, cur, own, old, later) = o.2 in ground arith

-- The first flashblock of a valid collection carries its base.
first_base :
    (fs : Flashblocks) (q : Payload)
    → IsValid fs
    → get_elem? fs 0 ≡ some (wrapped q)
    → (b : ExecutionPayloadBaseV1) × (q.base ≡ some b) × (b.timestamp ≤ base_time fs)
first_base [] q v h = cc
first_base (x ∷ xs) q v h = let (b, based) = v.0 in (b, ground arith, ground arith)

-- The executor after it has published `p`.
module _ {Built Executed : Type 0} (e e' : Executor Built Executed) (p : Payload) (fresh : Bool)
    (valid : IsValid e.flashblocks) (pushes : Pushes e.flashblocks (wrapped p) e'.flashblocks fresh)
    (latest : e'.latest_payload ≢ none) (id : payload_id e'.flashblocks ≡ ok p.payload_id) where
  -- What was an echo before is one afterwards, if a payload that is opened has another id.
  pub IsEcho-publish :
      (q : Payload)
      → (payload_id e.flashblocks ≡ ok p.payload_id) ⊎ (q.payload_id ≢ p.payload_id)
      → IsEcho e q
      → IsEcho e' q
  IsEcho-publish q distinct echo = elim pushes [
    | inl (c, grown, _) ↦
        let id_same = ap payload_id grown ∙ same_id e.flashblocks p valid in
        let time_same = ap base_time grown ∙ same_time e.flashblocks p valid in
        elim echo [
          | inl (h, _) ↦ inl (
            (
              id_same ∙ h.0,
              ap (λ fs. get_elem? fs q.index) grown
                  ∙ get_elem?-append_left e.flashblocks (wrapped p ∷ []) q.index
                      (get_elem?_within e.flashblocks q.index (wrapped q) h.1)
                  ∙ h.1,
            ),
            latest,
          )
          | inr h ↦ inr (λ k. h.0 (sym id_same ∙ k), λ z. rw time_same (h.1 z))
        ]
    | inr (o, replaced, _) ↦
        let time = later_time e.flashblocks p valid o in
        let time_new = ap base_time replaced in
        let another : q.payload_id ≢ p.payload_id = elim distinct [
          | inl current ↦ absurd (o.0 current)
          | inr differs ↦ differs
        ] in
        inr (
          λ k. another (cc (k, id)),
          λ z. elim echo [
            | inl (h, _) ↦
                let (b, own, le) =
                  first_base e.flashblocks q valid (ap (get_elem? e.flashblocks) (sym z) ∙ h.1) in
                (b, own, omega (arith, time, time_new))
            | inr h ↦ let (b, own, le) = h.1 z in (b, own, omega (arith, time, time_new))
          ],
        )
  ]
