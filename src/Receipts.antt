-- ===== src/Receipts.antt =====
-- Receipts and totals of executed transactions: the two functions `build_receipt`, of
-- src/step/publish_flashblocks.rs and of src/flashblocks/builder.rs.
-- A transaction is what the code reads of an `OpTxEnvelope`, a result what it reads of an
-- `ExecutionResult`; a read of an account from a database may fail.
pub mod Span
pub mod Parallel
pub mod Sums
pub mod Agreement
mod Tests
use rblib_world_chain.Prelude.{
  ℕ, ◌+◌, ◌*◌, ◌%◌, Bool, true, false, Option, none, some, List, [], ◌∷◌, ◌++◌, Result, ok, err,
  ◌>>=◌, ok_or, if◌then◌else◌,
}

-- 2 ^ 256, the modulus of `U256`
abbrev pub u256_mod : ℕ
u256_mod = 115792089237316195423570985008687907853269984665640564039457584007913129639936

pub data TxType : Type 0 where
  deposit legacy eip2930 eip1559 eip7702 : TxType

pub record Tx : Type 0 where
  pub tx_type : TxType
  pub signer : ℕ
  -- `effective_tip_per_gas` at the base fee of the block
  pub effective_tip : Option ℕ

abbrev pub is_deposit : Tx → Bool
is_deposit tx = elim tx.tx_type [
  | deposit ↦ true
  | legacy ↦ false
  | eip2930 ↦ false
  | eip1559 ↦ false
  | eip7702 ↦ false
]

pub record ExecutionResult : Type 0 where
  pub is_success : Bool
  pub gas_used : ℕ
  pub logs : List ℕ

pub record Receipt : Type 0 where
  pub status : Bool
  pub cumulative_gas_used : ℕ
  pub logs : List ℕ

pub data OpReceipt : Type 0 where
  -- with the sender's nonce and the receipt's version
  deposit_receipt : Receipt → Option ℕ → Option ℕ → OpReceipt
  legacy_receipt eip2930_receipt eip1559_receipt eip7702_receipt : Receipt → OpReceipt

pub data Error : Type 0 where
  -- a failed read of the database, by its code
  provider : ℕ → Error
  -- `expect` on a missing tip, or an index out of range
  panicked : Error

-- A read of an account's nonce, `none` where there is no account.
abbrev pub Nonces : Type 0
Nonces = ℕ → Result Error (Option ℕ)

-- The totals that both loops carry; `Bundle` is revm's `BundleState`.
pub record Totals (Bundle : Type 0) : Type 0 where
  pub bundle_state : Bundle
  pub cumulative_gas_used : ℕ
  pub fees : ℕ
  pub receipts : List OpReceipt

-- `self.fees += U256::from(miner_fee) * U256::from(gas_used)` of both loops.
unfoldable pub add_fee : ℕ → ℕ → ℕ → ℕ
add_fee fees miner_fee gas_used = (fees + (miner_fee * gas_used) % u256_mod) % u256_mod

module _ (is_canyon_active : Bool) where
  -- `is_canyon_active_at_timestamp(timestamp).then_some(1)`
  unfoldable pub deposit_receipt_version : Option ℕ
  deposit_receipt_version = if is_canyon_active then some 1 else none
