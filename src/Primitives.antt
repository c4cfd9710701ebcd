-- ===== src/Primitives.antt =====
-- src/flashblocks/primitives.rs: the flashblock payload and what is computed from it.
-- Values that the crate only carries (hashes, addresses, blooms, 256-bit numbers, single
-- withdrawals, single entries of an access list) are numbers; a byte string is a list of numbers;
-- an `i64` timestamp is its 64-bit pattern.
pub mod Data
pub mod Samples
mod Tests
pub mod Collection
pub mod Reduce
pub mod Create
pub mod Codec
