-- ===== src/Block/Executor/Finish.antt =====
-- The two ways to end a block agree: `finish` of the block builder, and the publisher's assembly.
use rblib_world_chain.Prelude.{
  ℕ, ◌≡◌, refl, sym, ap, ◌∙◌, some, [], ◌∷◌, ok, map, bind_ok, Result, arith, inl, inr,
  Result-cases,
}
use rblib_world_chain.Block.{
  Error, BundleState, BuiltPayload, ExecutedBlock, Chain, StateProvider, flatten_bundle,
  withdrawals_and_requests,
}
use rblib_world_chain.Receipts.{Totals}
use rblib_world_chain.Block.Publisher.{Publication, seal}
use rblib_world_chain.Block.Executor.{
  Evm, BlockExecutionResult, AssemblerInput, Library, FlashblocksBlockBuilder, BlockBuilderOutcome,
  finish,
}

module _ {Accounts Rest Ctx Others Parent Output : Type 0} (chain : Chain Accounts)
    (library : Library Accounts Rest Ctx Others Parent Output)
    (state : StateProvider Accounts) where
  -- What the outcome and the payload have in common: the senders, the hashed state and the trie
  -- updates; and the outcome's block is assembled with the payload's transactions, bundle and state
  -- root.
  abbrev pub Agrees : BlockBuilderOutcome → BuiltPayload Accounts → Type 0
  Agrees o payload =
      (executed : ExecutedBlock Accounts) × (payload.executed_block ≡ some executed)
      × (o.senders ≡ executed.senders)
      × (o.hashed_state ≡ executed.hashed_state)
      × (o.trie_updates ≡ executed.trie_updates)
      × (input : AssemblerInput Accounts Rest Ctx Others Parent) × (library.assemble_block input
          ≡ ok o.block)
      × (input.transactions ≡ payload.block.transactions)
      × (input.bundle_state ≡ executed.bundle)
      × (input.state_root ≡ payload.block.header.state_root)

  abbrev sealed_bundle : Evm Accounts Rest → BundleState Accounts
  sealed_bundle evm = flatten_bundle chain (library.merge_transitions evm)

  abbrev input_of :
      FlashblocksBlockBuilder Accounts Rest Ctx Others Parent
      → Evm Accounts Rest
      → BlockExecutionResult
      → ℕ
      → AssemblerInput Accounts Rest Ctx Others Parent
  input_of b evm result state_root = record {
    evm_env = evm.rest;
    execution_ctx = b.ctx;
    parent = b.parent;
    transactions = map (λ r. r.tx) b.transactions;
    output = result;
    bundle_state = sealed_bundle evm;
    state_root = state_root;
  }

  -- What a successful `finish` has computed on the way.
  finish_parts :
      (b : FlashblocksBlockBuilder Accounts Rest Ctx Others Parent) (evm : Evm Accounts Rest)
      (result : BlockExecutionResult) (o : BlockBuilderOutcome)
      → library.finish b.executor.inner ≡ ok (evm, result)
      → finish chain library b state ≡ ok o
      → (root : ℕ) × (state.state_root_with_updates (state.hashed_post_state (sealed_bundle evm))
          ≡ ok (root, o.trie_updates))
        × (library.assemble_block (input_of b evm result root) ≡ ok o.block)
        × (o.hashed_state ≡ state.hashed_post_state (sealed_bundle evm))
        × (o.senders ≡ map (λ r. r.signer) b.transactions)
  unfolding finish
  finish_parts b evm result o finished ends =
      elim (Result-cases
        (state.state_root_with_updates (state.hashed_post_state (sealed_bundle evm)))) [
          | inr (x, failed) ↦ absurd (ground arith)
          | inl ((root, trie), rooted) ↦
              elim (Result-cases (library.assemble_block (input_of b evm result root))) [
                | inr (x, failed) ↦ absurd (ground arith)
                | inl (block, assembled) ↦
                    (root, ground arith, ground arith, ground arith, ground arith)
              ]
        ]

  -- What a successful `seal` has computed on the way.
  seal_parts :
      (p : Publication Accounts) (totals : Totals (BundleState Accounts))
      (payload : BuiltPayload Accounts)
      → seal chain state p totals ≡ ok payload
      → (executed : ExecutedBlock Accounts) × (payload.executed_block ≡ some executed)
        × (executed.bundle ≡ flatten_bundle chain totals.bundle_state)
        × (executed.hashed_state ≡ state.hashed_post_state executed.bundle)
        × (state.state_root_with_updates executed.hashed_state
            ≡ ok (payload.block.header.state_root, executed.trie_updates))
        × (executed.senders ≡ map (λ r. r.signer) p.history)
        × (payload.block.transactions ≡ map (λ r. r.tx) p.history)
  unfolding seal
  seal_parts p totals payload seals =
      let bundle = flatten_bundle chain totals.bundle_state in
      let hashed_state = state.hashed_post_state bundle in
      let (fork, _, sealed) =
        bind_ok (withdrawals_and_requests chain state bundle p.block.timestamp) _ payload seals in
      let (roots, rooted, made) =
        bind_ok (state.state_root_with_updates hashed_state) _ payload sealed in
      let root : payload.block.header.state_root ≡ roots.0 = ground arith in
      (
        record {
          senders = map (λ r. r.signer) p.history;
          bundle = bundle;
          receipts = totals.receipts ∷ [];
          first_block = p.block.number;
          hashed_state = hashed_state;
          trie_updates = roots.1;
        },
        ground arith,
        refl,
        refl,
        rooted ∙ ap (λ r. ok (r, roots.1)) (sym root),
        refl,
        ground arith,
      )

  -- Where both succeed on the same transactions, and the transitions merged at the end are the
  -- bundle that the publisher has accumulated, finish of the block builder and the publisher agree:
  -- on the senders, the hashed state and the trie updates, and finish has its block assembled with
  -- the transactions, the flattened bundle and the state root of the publisher's payload.
  pub finish-Agrees-seal :
      (b : FlashblocksBlockBuilder Accounts Rest Ctx Others Parent) (evm : Evm Accounts Rest)
      (result : BlockExecutionResult) (o : BlockBuilderOutcome) (p : Publication Accounts)
      (totals : Totals (BundleState Accounts)) (payload : BuiltPayload Accounts)
      → library.finish b.executor.inner ≡ ok (evm, result)
      → library.merge_transitions evm ≡ totals.bundle_state
      → b.transactions ≡ p.history
      → finish chain library b state ≡ ok o
      → seal chain state p totals ≡ ok payload
      → Agrees o payload
  unfolding finish seal
  finish-Agrees-seal b evm result o p totals payload finished merged same ends seals =
      let (root, rooted, assembled, hashed, senders) = finish_parts b evm result o finished ends in
      let (executed, has, bundle, hashed', rooted', senders', txs) =
        seal_parts p totals payload seals in
      let one_bundle : executed.bundle ≡ sealed_bundle evm =
        bundle ∙ ap (flatten_bundle chain) (sym merged) in
      let one_hash : o.hashed_state ≡ executed.hashed_state =
        hashed ∙ ap state.hashed_post_state (sym one_bundle) ∙ sym hashed' in
      let roots : ◌≡◌ {A = Result Error (ℕ × ℕ)} (ok (root, o.trie_updates))
          (ok (payload.block.header.state_root, executed.trie_updates)) =
        sym rooted ∙ ap state.state_root_with_updates (sym hashed ∙ one_hash) ∙ rooted' in
      (
        executed,
        has,
        senders ∙ ap (map (λ r. r.signer)) same ∙ sym senders',
        one_hash,
        cc roots,
        input_of b evm result root,
        assembled,
        ap (map (λ r. r.tx)) same ∙ sym txs,
        sym one_bundle,
        cc roots,
      )
