-- ===== src/Platform/External.antt =====
-- Which transactions `extract_external_txs` leaves.
use rblib_world_chain.Prelude.{
  drop-append, ℕ, ◌+◌, ◌≡◌, ◌≢◌, refl, sym, ap, ap₂, append_assoc, length-append, ◌∙◌, true, some,
  List, [], ◌∷◌, ◌++◌, map, length, get_elem?, if◌then◌else◌, arith, ==_refl,
}
use native.Mathlib.Nat.{zero-add}
use rblib_world_chain.Platform.{matches_at, count_matches, extract_external_txs}

module _ {Tx : Type 0} (tx_hash : Tx → ℕ) where
  get_elem?_at :
      (before after : List Tx) (s : Tx) → get_elem? (before ++ (s ∷ after)) (length before) ≡ some s
  get_elem?_at [] after s = refl
  get_elem?_at (x ∷ before) after s = get_elem?_at before after s

  matches_there :
      (before after : List Tx) (s : Tx)
      → matches_at tx_hash (before ++ (s ∷ after)) (length before) (tx_hash s) ≡ true
  unfolding matches_at
  matches_there before after s = rw (get_elem?_at before after s, matches_at) (==_refl (tx_hash s))

  matches_after :
      (before seq rest : List Tx) (k : ℕ)
      → count_matches tx_hash (before ++ (seq ++ rest)) (length before) (map tx_hash seq) k
        ≡ k + length seq
  unfolding count_matches
  matches_after before [] rest k = omega arith
  matches_after before (s ∷ seq) rest k =
      ap
        (λ b.
          count_matches tx_hash (before ++ (s ∷ (seq ++ rest))) (length before + 1)
            (map tx_hash seq) (if b then k + 1 else k))
        (matches_there before (seq ++ rest) s)
      ∙ ap₂ (λ l i. count_matches tx_hash l i (map tx_hash seq) (k + 1))
          (sym (append_assoc before (s ∷ []) (seq ++ rest))) (sym (length-append before (s ∷ [])))
      ∙ matches_after (before ++ (s ∷ [])) seq rest (k + 1)
      ∙ omega arith

  -- Where the history begins with the sequencer transactions, extract_external_txs returns the rest
  -- of it.
  pub extract_external_txs_prefix :
      (sequencer_txs rest : List Tx)
      → extract_external_txs tx_hash sequencer_txs (sequencer_txs ++ rest) ≡ rest
  unfolding extract_external_txs
  extract_external_txs_prefix sequencer_txs rest =
      rw (matches_after [] sequencer_txs rest 0, zero-add) (drop-append sequencer_txs rest)

  -- Where the first transaction of the history is not the first of two sequencer transactions but
  -- the second is the second, extract_external_txs drops the first transaction of the history and
  -- returns the second with the rest.
  pub extract_external_txs_mismatch :
      (s t₀ t₁ : Tx) (rest : List Tx)
      → tx_hash t₀ ≢ tx_hash s
      → extract_external_txs tx_hash (s ∷ t₁ ∷ []) (t₀ ∷ t₁ ∷ rest) ≡ t₁ ∷ rest
  unfolding extract_external_txs count_matches matches_at
  extract_external_txs_mismatch s t₀ t₁ rest h = ground arith
