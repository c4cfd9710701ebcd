-- ===== src/Txns/Tests.antt =====
-- A run of the iterator over a pool of which one transaction was observed before.
use rblib_world_chain.Prelude.{ℕ, ◌≡◌, ◌++◌, arith, [], ◌∷◌}
use rblib_world_chain.Txns.{BestPayloadTxns, drain}
use rblib_world_chain.Txns.Drain.{fresh, hashes, drain_lem}

abbrev own_hash : ℕ → ℕ
own_hash tx = tx

abbrev pool : BestPayloadTxns ℕ
pool = record { inner = 4 ∷ 5 ∷ 6 ∷ []; prev = 5 ∷ []; observed = [] }

drain_lem_example : drain own_hash 4 pool ≡ (
  fresh own_hash pool.prev pool.inner,
  record pool {
    inner = [];
    observed = pool.observed ++ hashes own_hash (fresh own_hash pool.prev pool.inner);
  },
)
drain_lem_example = drain_lem own_hash pool 4 (omega arith)
