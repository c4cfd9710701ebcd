-- ===== src/Txns/Drain.antt =====
-- What a consumer sees that calls `next` until the end.
use rblib_world_chain.Prelude.{
  ℕ, zero, suc, ◌<◌, ◌≡◌, not, List, [], ◌∷◌, ◌++◌, map, length, append-nil, append_assoc,
  if◌then◌else◌, Bool-cases, inl, inr, arith,
}
use rblib_world_chain.Txns.{BestPayloadTxns, contains, next, drain}

module _ {Tx : Type 0} (hash : Tx → ℕ) where
  -- the transactions whose hash is not among `prev`
  abbrev pub fresh : List ℕ → List Tx → List Tx
  fresh prev [] = []
  fresh prev (n ∷ inner) =
      if not (contains prev (hash n)) then n ∷ fresh prev inner else fresh prev inner

  -- the hashes that have been observed after the whole drain
  abbrev pub hashes : List Tx → List ℕ
  hashes = map hash

  drain-fresh :
      (fuel : ℕ) (inner : List Tx) (prev observed : List ℕ)
      → length inner < fuel
      → drain hash fuel (record { inner = inner; prev = prev; observed = observed }) ≡ (
        fresh prev inner,
        record { inner = []; prev = prev; observed = observed ++ hashes (fresh prev inner) },
      )
  unfolding drain next
  drain-fresh zero inner prev observed h = absurd (omega arith)
  drain-fresh (suc fuel) [] prev observed h = ground (arith, append-nil observed)
  drain-fresh (suc fuel) (n ∷ inner) prev observed h = elim (Bool-cases (contains prev (hash n))) [
    | inl old ↦ ground (arith, drain-fresh (suc fuel) inner prev observed (omega arith))
    | inr new ↦ ground (
      arith,
      drain-fresh fuel inner prev (observed ++ (hash n ∷ [])) (omega arith),
      append_assoc observed (hash n ∷ []) (hashes (fresh prev inner)),
    )
  ]

  -- Called until it returns None, with fuel above the length of the inner iterator, next yields
  -- every transaction whose hash was not observed before, in order and none other; it adds their
  -- hashes to the observed ones and keeps the earlier ones.
  pub drain_lem :
      (b : BestPayloadTxns Tx) (fuel : ℕ)
      → length b.inner < fuel
      → drain hash fuel b ≡ (
        fresh b.prev b.inner,
        record b { inner = []; observed = b.observed ++ hashes (fresh b.prev b.inner) },
      )
  drain_lem b fuel h = drain-fresh fuel b.inner b.prev b.observed h
