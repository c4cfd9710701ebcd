-- ===== src/Txns.antt =====
-- src/flashblocks/payload_txns.rs: the transactions of a pool, without those observed before.
-- The inner iterator is the list of what it still yields; `mark_invalid` of the inner iterator, which
-- this code only calls, is an argument.
pub mod Drain
mod Tests
use rblib_world_chain.Prelude.{
  ℕ, zero, suc, Bool, true, false, ◌||◌, not, Option, none, some, List, [], ◌∷◌, ◌++◌, ◌==◌,
  if◌then◌else◌,
}

pub record BestPayloadTxns (Tx : Type 0) : Type 0 where
  pub inner : List Tx
  pub prev : List ℕ
  pub observed : List ℕ

-- `HashSet::contains`
unfoldable pub contains : List ℕ → ℕ → Bool
contains [] h = false
contains (x ∷ xs) h = x == h || contains xs h

module _ {Tx : Type 0} (hash : Tx → ℕ) where
  pub new : List Tx → BestPayloadTxns Tx
  new inner = record { inner = inner; prev = []; observed = [] }

  unfoldable pub with_prev : BestPayloadTxns Tx → List ℕ → BestPayloadTxns Tx
  with_prev b prev = record b { prev = b.prev ++ prev }

  -- both lists, the earlier hashes first
  pub take_observed : BestPayloadTxns Tx → List ℕ × List ℕ
  take_observed b = (b.prev, b.observed)

  -- The `while` loop, over what the inner iterator still yields.
  unfoldable pub next_of : List Tx → List ℕ → List ℕ → Option Tx × BestPayloadTxns Tx
  next_of [] prev observed = (none, record { inner = []; prev = prev; observed = observed })
  next_of (n ∷ inner) prev observed =
      let skip = next_of inner prev observed in
      if not (contains prev (hash n))
      then (some n, record { inner = inner; prev = prev; observed = observed ++ (hash n ∷ []) })
      else skip

  unfoldable pub next : BestPayloadTxns Tx → Option Tx × BestPayloadTxns Tx
  unfolding next_of
  next b = next_of b.inner b.prev b.observed

  pub mark_invalid : (List Tx → ℕ → ℕ → List Tx) → BestPayloadTxns Tx → ℕ → ℕ → BestPayloadTxns Tx
  mark_invalid inner_mark_invalid b sender nonce = record b {
    inner = inner_mark_invalid b.inner sender nonce;
  }

  -- Calls of `next` until it returns `None`, at most `fuel` of them.
  unfoldable pub drain : ℕ → BestPayloadTxns Tx → List Tx × BestPayloadTxns Tx
  drain zero b = ([], b)
  drain (suc fuel) b = elim (next b).0 [
    | none ↦ ([], (next b).1)
    | some n ↦ let rest = drain fuel (next b).1 in (n ∷ rest.0, rest.1)
  ]
