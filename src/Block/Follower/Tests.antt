-- ===== src/Block/Follower/Tests.antt =====
-- A node that follows two flashblocks of one payload.
use rblib_world_chain.Prelude.{ℕ, ◌≡◌, refl, sym, Option, none, some, ok}
use mathlib.Core.Option
use mathlib.Core.Option.{some-injective}
use rblib_world_chain.Primitives.Samples.{sample, base_at, wrap}
use rblib_world_chain.Primitives.Collection.{
  push, is_new_payload, starts_payload, base, payload_id, first,
}
use rblib_world_chain.Executor.Request.{build_payload, build_request}
use rblib_world_chain.Executor.Invariant.{IsCoherent}
use rblib_world_chain.Executor.{
  Executor, new, process_flashblock, process_unseen, build_and_store, store, broadcast_payload,
  already_processed,
}
use rblib_world_chain.Receipts.{deposit_receipt_version, add_fee}
use rblib_world_chain.Receipts.Parallel.{absorb_all, absorb, nonce_and_fees, build_receipt}
use rblib_world_chain.Reverts.{flatten_reverts, flatten}
use rblib_world_chain.Reverts
use rblib_world_chain.Block.{
  withdrawals_and_requests, blob_fields, StateProvider, BuiltPayload, ExecutedBlock,
}
use rblib_world_chain.Block.Builder.{
  sort_by_index, insert_by_index, prepare, bal_state_of, block_builder,
}
use rblib_world_chain.Block.Builder.Build.{build}
use rblib_world_chain.Block.Builder.Build as Build
use rblib_world_chain.Block.Samples.{small_chain, small_provider, small_engine, small_node}
use rblib_world_chain.Block.Follower.Built.{full_node, IsExact}
use rblib_world_chain.Block.Follower.Transactions.{Follows, started, processed, Reached-Follows}

abbrev provider_of : ℕ → StateProvider ℕ
provider_of db = small_provider

abbrev opened : Executor (BuiltPayload ℕ) (ExecutedBlock ℕ)
opened =
    (process_flashblock (full_node small_chain small_engine provider_of small_node) new
      (sample 7 0 (some (base_at 100)))).0

opens :
    (process_flashblock
      (full_node small_chain small_engine provider_of small_node)
      new
      (sample 7 0 (some (base_at 100)))).1
    ≡ ok tt
unfolding build Build.build_payload Build.finish Build.seal Build.start Build.execute prepare
    bal_state_of block_builder Build.merge_bals Build.merge_bal Build.merge_account sort_by_index
    insert_by_index withdrawals_and_requests blob_fields absorb_all absorb nonce_and_fees
    build_receipt deposit_receipt_version add_fee flatten_reverts flatten Reverts.absorb_all
    process_flashblock already_processed process_unseen build_and_store build_payload build_request
    store broadcast_payload push is_new_payload starts_payload base payload_id first
opens = refl

continues :
    (process_flashblock
      (full_node small_chain small_engine provider_of small_node)
      opened
      (sample 7 1 none)).1
    ≡ ok tt
unfolding build Build.build_payload Build.finish Build.seal Build.start Build.execute prepare
    bal_state_of block_builder Build.merge_bals Build.merge_bal Build.merge_account sort_by_index
    insert_by_index withdrawals_and_requests blob_fields absorb_all absorb nonce_and_fees
    build_receipt deposit_receipt_version add_fee flatten_reverts flatten Reverts.absorb_all
    process_flashblock already_processed process_unseen build_and_store build_payload build_request
    store broadcast_payload push is_new_payload starts_payload base payload_id first
continues = refl

abbrev followed : Executor (BuiltPayload ℕ) (ExecutedBlock ℕ)
followed =
    (process_flashblock (full_node small_chain small_engine provider_of small_node) opened
      (sample 7 1 none)).0

small_node-IsExact : IsExact small_chain small_engine provider_of small_node
small_node-IsExact b tx h = some-injective tx b (sym h)

Reached-Follows_example :
    Follows small_chain small_engine provider_of small_node followed
    × IsCoherent (full_node small_chain small_engine provider_of small_node).built_id followed
Reached-Follows_example =
    Reached-Follows small_chain small_engine provider_of small_node followed small_node-IsExact (
      processed opened (sample 7 1 none)
        (processed new (sample 7 0 (some (base_at 100))) started opens) continues)

abbrev first_built : Option (BuiltPayload ℕ)
first_built = Option.map (λ p. p.0) opened.latest_payload

first_builds :
    build_payload
      (full_node small_chain small_engine provider_of small_node)
      none
      (wrap (sample 7 0 (some (base_at 100))))
      (base_at 100)
    ≡ ok first_built
unfolding build Build.build_payload Build.finish Build.seal Build.start Build.execute prepare
    bal_state_of block_builder Build.merge_bals Build.merge_bal Build.merge_account sort_by_index
    insert_by_index withdrawals_and_requests blob_fields absorb_all absorb nonce_and_fees
    build_receipt deposit_receipt_version add_fee flatten_reverts flatten Reverts.absorb_all
    process_flashblock already_processed process_unseen build_and_store build_payload build_request
    store broadcast_payload push is_new_payload starts_payload base payload_id first
first_builds = refl
