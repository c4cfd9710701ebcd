-- ===== src/Lib.antt =====
-- rblib-world-chain: flashblocks for World Chain.
--
-- While a block is being built, the node publishes it in pieces. Each piece is a flashblock: the
-- transactions since the last piece, with the roots, the gas and the hash of the block so far. The
-- parts of the program, and how they interact:
--
-- * A payload job runs the step of src/step/publish_flashblocks.rs again and again. Its limits come
--   from src/limits.rs, its transactions from a pool through src/flashblocks/payload_txns.rs. Each
--   step hands a flashblock to the state executor; src/platform.rs resolves the job.
-- * The state executor, src/flashblocks/state.rs, keeps the collection of the current payload's
--   flashblocks (src/flashblocks/primitives.rs) and the latest built payload. A flashblock of this
--   node goes on to the p2p state; one from the stream is built again by src/flashblocks/builder.rs.
-- * The p2p state, src/flashblocks/p2p.rs, buffers flashblocks, sends them to the peers, and emits them
--   in order to the stream that the executor reads.
-- * Each connection, src/flashblocks/connection.rs, feeds what its peer sends to the p2p state, and
--   sends the broadcasts to the peer.
--
-- Files, with the functions that they model:
--
--   Prelude             numbers, tests, lists indexed by native numbers, results with an error
--   Primitives/Data     the structs of primitives.rs, field by field
--   Primitives/Collection   Flashblocks: new, push, is_new_payload, base, payload_id, last
--   Primitives/Reduce   Flashblock::reduce
--   Primitives/Create   Flashblock::new
--   Primitives/Codec    the RLP encoding and decoding of FlashblocksPayloadV1
--   P2p                 FlashblocksP2PCtx::publish, in the steps of its documentation
--   P2p/Wire            the encoding and decoding of FlashblocksP2PMsg
--   P2p/Promise         what the protocol promises, without a buffer
--   Connection          handle_flashblocks_payload_v1 and poll_next
--   Network             FlashblocksHandle and FlashblocksP2PProtocol with their connections
--   Network/Subscription    flashblock_stream, and the loop of launch
--   Executor            FlashblocksStateExecutor: publish_built_payload, process_flashblock
--   Executor/Request    from a flashblock to the request for the builder
--   Job                 PublishFlashblock: step, before_job, after_job, unpublished_payload
--   Job/Times           Times: on_job_started, on_published_block, on_job_ended
--   Job/Metrics         capture_payload_metrics
--   Receipts            the accumulators, and what both functions build_receipt share
--   Receipts/Span       the publisher's build_receipt, and its loop over the unpublished span
--   Receipts/Parallel   the builder's build_receipt, and its loop over the parallel results
--   Block               headers, built payloads and the chain's functions that both sides call
--   Block/Publisher     build_op_built_payload, extract_previous_state
--   Block/Builder       FlashblockBuilder: its data, the first steps of build, and block_builder
--   Block/Builder/Build the parallel executions, the merging and the payload that build makes of them
--   Block/Follower      the executor with this builder: a node that follows the stream
--   Relay               from the job of one node, through the protocol state, to another node's executor
--   Block/Convert       the conversions of flashblocks to a recovered block
--   Reverts             flatten_reverts
--   AccessList          merge_access_list
--   Limits              FlashblockLimits::create
--   Txns                BestPayloadTxns and its guard
--   Platform            build_payload, op_build_payload, extract_external_txs, and the context of ctx.rs
--   Block/Executor      FlashblocksBlockExecutor and its factory, FlashblocksBlockBuilder with finish
--   Service             FlashblocksP2p: a node's executor, protocol state and task, with its own publications
--   Setup               WorldChainArgs, FlashblocksNode, build_network and the payload service
--   Context             WorldContext and its equality
--
-- The files below these hold the proofs, named for what they prove, and the tests.
--
-- Conventions. Hashes, addresses, 256-bit numbers and single withdrawals, which the code only carries,
-- are numbers. State is passed explicitly: an operation takes the state and returns the new one with
-- what it returns or sends; a lock makes each call one step. A channel is the log of what was sent. A
-- Result is a Result with an error that names the call of bail!, and a panic is an error or none. The
-- wrap-around of a u64 counter or of a sum of fees is written out; a release build is modelled.
--
-- Bounds. The loop of publish that emits takes the length of the buffer as fuel, and P2p/Drain shows
-- that it then stops at an empty slot. The other loops are structural: poll_next over the frames that
-- are ready, the retries for a header over the answers that come. Txns.drain calls next as often as
-- its fuel says, which its theorem takes to be above the length of the inner iterator.
--
-- Parameters: the RLP codecs of single fields (Codecs, with the laws in Lawful), the 2718 codec, the
-- clock, the provider and the EVM configuration, the bundle state of revm, and the order of a HashMap,
-- since their code is not in the repository. Of the builder these are the roots and hashes (Chain), the
-- state of a block (StateProvider), and revm with its access lists (Engine); of the block executor,
-- alloy's executor, block builder and assembler (Library). The executor takes its
-- builder from Executor.Request.Node; Block/Follower puts FlashblockBuilder::build in its place.
--
-- Not modelled: the inside of revm, alloy and reth, the crate of the metrics, logging, the parsing
-- of the command line, the methods of the platform that only call the Optimism platform, and the
-- runtime that drives the tasks.
pub mod AccessList
pub mod Block
pub mod Connection
pub mod Context
pub mod Executor
pub mod Job
pub mod Limits
pub mod Network
pub mod P2p
pub mod Platform
pub mod Prelude
pub mod Primitives
pub mod Receipts
pub mod Relay
pub mod Reverts
pub mod Service
pub mod Setup
pub mod Txns
