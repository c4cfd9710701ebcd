-- ===== src/Receipts/Agreement.antt =====
-- The sequential loop of the publisher and the loop of the parallel builder come to the same.
use rblib_world_chain.Prelude.{
  ℕ, ◌≡◌, refl, ap, ◌∙◌, Bool, some, List, [], ◌∷◌, ◌>>=◌, arith, bind_congr,
}
use rblib_world_chain.Receipts.{Nonces, Totals}
use rblib_world_chain.Receipts.Span.{Checkpoint, visit_span, visit_txs, visit_result, deposit_nonce}
use rblib_world_chain.Receipts.Parallel.{ParallelResult, absorb, absorb_all}

module _ {Bundle : Type 0} (extend : Bundle → Bundle → Bundle) (provider_nonce : Nonces)
    (nonce_at : ℕ → Nonces) (is_canyon_active : Bool) where
  -- A checkpoint of the one transaction of `r`, which sees the nonces that the builder reads.
  abbrev pub Executes : Checkpoint Bundle → ParallelResult Bundle → Type 0
  Executes checkpoint r =
      (checkpoint.state ≡ some r.bundle_state)
      × (checkpoint.transactions ≡ r.tx ∷ [])
      × (checkpoint.result ≡ some (r.exec_result ∷ []))
      × (deposit_nonce extend provider_nonce is_canyon_active checkpoint r.tx.signer
          ≡ nonce_at r.index r.tx.signer)

  abbrev pub AllExecute : List (Checkpoint Bundle) → List (ParallelResult Bundle) → Type 0
  AllExecute [] [] = Unit {0}
  AllExecute [] (r ∷ rs) = ⊥
  AllExecute (checkpoint ∷ span) [] = ⊥
  AllExecute (checkpoint ∷ span) (r ∷ rs) = Executes checkpoint r × AllExecute span rs

  visit_result-absorb :
      (checkpoint : Checkpoint Bundle) (r : ParallelResult Bundle) (totals : Totals Bundle)
      → Executes checkpoint r
      → visit_result extend provider_nonce is_canyon_active checkpoint
          (record totals { bundle_state = extend totals.bundle_state r.bundle_state })
          r.tx
          r.exec_result
        ≡ absorb extend nonce_at is_canyon_active totals r
  unfolding visit_result absorb
  visit_result-absorb checkpoint r totals h = ground (arith, h.3)

  visit_txs-one :
      (checkpoint : Checkpoint Bundle) (r : ParallelResult Bundle) (totals : Totals Bundle)
      → checkpoint.transactions ≡ r.tx ∷ []
      → checkpoint.result ≡ some (r.exec_result ∷ [])
      → visit_txs extend provider_nonce is_canyon_active checkpoint 0 checkpoint.transactions totals
        ≡ visit_result extend provider_nonce is_canyon_active checkpoint totals r.tx r.exec_result
  unfolding visit_txs
  visit_txs-one checkpoint r totals txs result = ground (arith, txs, result)

  -- Over checkpoints of one transaction each, with the same states, results and nonces, the
  -- publisher's loop and the builder's loop return the same totals and receipts, or the same error.
  pub visit_span-absorb_all :
      (span : List (Checkpoint Bundle)) (rs : List (ParallelResult Bundle)) (totals : Totals Bundle)
      → AllExecute span rs
      → visit_span extend provider_nonce is_canyon_active span totals
        ≡ absorb_all extend nonce_at is_canyon_active rs totals
  unfolding visit_span absorb_all
  visit_span-absorb_all [] [] totals h = refl
  visit_span-absorb_all [] (r ∷ rs) totals h = absurd h
  visit_span-absorb_all (checkpoint ∷ span) [] totals h = absurd h
  visit_span-absorb_all (checkpoint ∷ span) (r ∷ rs) totals h =
      rw (h.0.0, visit_span)
        (ap (λ q. q >>= visit_span extend provider_nonce is_canyon_active span)
            (visit_txs-one checkpoint r
                (record totals { bundle_state = extend totals.bundle_state r.bundle_state }) h.0.1
                h.0.2
              ∙ visit_result-absorb checkpoint r totals h.0)
          ∙ bind_congr (absorb extend nonce_at is_canyon_active totals r) _ _
              (λ next. visit_span-absorb_all span rs next h.1))
