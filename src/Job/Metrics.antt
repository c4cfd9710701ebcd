-- ===== src/Job/Metrics.antt =====
-- `capture_payload_metrics` of src/step/publish_flashblocks.rs: the contents of a published flashblock,
-- as it is counted. A histogram is the list of what was recorded; a span is its checkpoints, as far as
-- the function reads them.
use rblib_world_chain.Prelude.{ℕ, ◌+◌, ◌≡◌, Bool, true, false, List, [], ◌∷◌, ◌++◌, length, arith}

pub record SpanItem : Type 0 where
  pub gas_used : ℕ
  pub blob_gas_used : ℕ
  -- how many transactions it has
  pub transactions : ℕ
  pub is_bundle : Bool

pub record Metrics : Type 0 where
  pub blocks_total : ℕ
  pub gas_per_block : List ℕ
  pub blob_gas_per_block : List ℕ
  pub txs_per_block : List ℕ
  pub bundles_per_block : List ℕ

abbrev pub total : (SpanItem → ℕ) → List SpanItem → ℕ
total f [] = 0
total f (c ∷ cs) = f c + total f cs

abbrev bundle_count : SpanItem → ℕ
bundle_count c = elim c.is_bundle [ true ↦ 1 | false ↦ 0 ]

unfoldable pub capture_payload_metrics : Metrics → List SpanItem → Metrics
capture_payload_metrics m span = record {
  blocks_total = m.blocks_total + 1;
  gas_per_block = m.gas_per_block ++ (total (λ c. c.gas_used) span ∷ []);
  blob_gas_per_block = m.blob_gas_per_block ++ (total (λ c. c.blob_gas_used) span ∷ []);
  txs_per_block = m.txs_per_block ++ (total (λ c. c.transactions) span ∷ []);
  bundles_per_block = m.bundles_per_block ++ (total bundle_count span ∷ []);
}

-- The flashblocks of several steps in a row.
pub capture_all : Metrics → List (List SpanItem) → Metrics
capture_all m [] = m
capture_all m (span ∷ spans) = capture_all (capture_payload_metrics m span) spans

total-append :
    (f : SpanItem → ℕ) (xs ys : List SpanItem) → total f (xs ++ ys) ≡ total f xs + total f ys
total-append f [] ys = omega arith
total-append f (x ∷ xs) ys = omega (arith, total-append f xs ys)

sum : List ℕ → ℕ
sum [] = 0
sum (n ∷ ns) = n + sum ns

sum-snoc : (ns : List ℕ) (n : ℕ) → sum (ns ++ (n ∷ [])) ≡ sum ns + n
unfolding sum
sum-snoc [] n = omega arith
sum-snoc (m ∷ ms) n = omega (arith, sum-snoc ms n)

concat : List (List SpanItem) → List SpanItem
concat [] = []
concat (span ∷ spans) = span ++ concat spans

-- Each flashblock is counted once, and what is recorded of the transactions adds up to those of all.
capture_all_sums :
    (spans : List (List SpanItem)) (m : Metrics)
    → let m' = capture_all m spans in
      (m'.blocks_total ≡ m.blocks_total + length spans)
      × (sum m'.txs_per_block ≡ sum m.txs_per_block + total (λ c. c.transactions) (concat spans))
unfolding capture_all capture_payload_metrics concat
capture_all_sums [] m = (omega arith, omega arith)
capture_all_sums (span ∷ spans) m =
    let rest = capture_all_sums spans (capture_payload_metrics m span) in
    let one = sum-snoc m.txs_per_block (total (λ c. c.transactions) span) in
    let all = total-append (λ c. c.transactions) span (concat spans) in
    (omega (arith, rest.0), omega (arith, rest.1, one, all))
