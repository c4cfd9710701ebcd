-- ===== src/Executor/Publication.antt =====
-- What publishing a payload that this node has built does, by what `push` returns.
use rblib_world_chain.Prelude.{
  inl, inr, sym, ap, ◌∙◌, [], ◌∷◌, ◌++◌, arith, Result-cases, if◌then◌else◌, ◌≡◌, refl, some, Bool,
  ok, err,
}
use rblib_world_chain.Primitives.Data.{Payload, Flashblock}
use rblib_world_chain.Primitives.Collection.{Flashblocks, Error, push, last, is_new_payload}
use rblib_world_chain.Executor.{Executor, last_flashblock, publish_built_payload}

last-snoc : (fs : Flashblocks) (fb : Flashblock) → last (fs ++ (fb ∷ [])) ≡ ok fb
unfolding last
last-snoc [] fb = refl
last-snoc (x ∷ []) fb = refl
last-snoc (x ∷ y ∷ fs) fb = last-snoc (y ∷ fs) fb

last-push :
    (fs fs' : Flashblocks) (fb : Flashblock) (fresh : Bool)
    → push fs fb ≡ ok (fs', fresh)
    → last fs' ≡ ok fb
unfolding push
last-push fs fs' fb fresh h = elim (Result-cases (is_new_payload fs fb)) [
  | inr (x, refused) ↦ absurd (ground arith)
  | inl (new, opened) ↦
      let same : (if new then [] else fs) ++ (fb ∷ []) ≡ fs' = ground arith in
      ap last (sym same) ∙ last-snoc (if new then [] else fs) fb
]

module _ {Built Executed : Type 0} (e : Executor Built Executed) (payload : Payload)
    (built : Built) where
  pub publish_built_payload_lem :
      (fs : Flashblocks) (fresh : Bool)
      → push e.flashblocks (record { flashblock = payload }) ≡ ok (fs, fresh)
      → publish_built_payload e payload built
        ≡ ok (record e { flashblocks = fs; latest_payload = some (built, payload.index) }, payload)
  unfolding publish_built_payload
  publish_built_payload_lem fs fresh h = rw h refl

  pub publish_built_payload_fails :
      (x : Error)
      → push e.flashblocks (record { flashblock = payload }) ≡ err x
      → publish_built_payload e payload built ≡ err x
  unfolding publish_built_payload
  publish_built_payload_fails x h = rw h refl

  -- After a publication, the last flashblock of the executor is the one that was published.
  pub last_flashblock-publish :
      (e' : Executor Built Executed) (out : Payload)
      → publish_built_payload e payload built ≡ ok (e', out)
      → last_flashblock e' ≡ ok (record { flashblock = payload })
  unfolding publish_built_payload
  last_flashblock-publish e' out h =
      elim (Result-cases (push e.flashblocks (record { flashblock = payload }))) [
        | inr (x, refused) ↦ absurd (ground arith)
        | inl ((fs, fresh), pushed) ↦
            let same : fs ≡ e'.flashblocks = ground arith in
            ap last (sym same)
            ∙ last-push e.flashblocks fs (record { flashblock = payload }) fresh pushed
      ]
