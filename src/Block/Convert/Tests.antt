-- ===== src/Block/Convert/Tests.antt =====
-- Conversions of a payload that the builder built, and of two flashblocks.
use rblib_world_chain.Prelude.{◌≡◌, refl, arith, none, some, [], ◌∷◌, ok, length}
use rblib_world_chain.Primitives.Samples.{opening, following, base_at}
use rblib_world_chain.Primitives.Create.{Attributes, new}
use rblib_world_chain.Block.Samples.{small_chain, small_built}
use rblib_world_chain.Block.Convert.{RecoveredBlock, try_from_flashblock, try_from_flashblocks}
use rblib_world_chain.Block.Convert.RoundTrip.{
  IsStandard, view, try_from_flashblock-new, try_from_flashblocks_lem,
}

abbrev small_attributes : Attributes
small_attributes = record {
  payload_id = 7;
  parent = 77;
  parent_beacon_block_root = some 8;
  suggested_fee_recipient = 5;
  prev_randao = 6;
  timestamp = 100;
}

small_built-IsStandard : IsStandard small_chain length small_attributes (some []) small_built.block
small_built-IsStandard = record {
  parent_hash = refl;
  beneficiary = refl;
  mix_hash = refl;
  timestamp = refl;
  transactions_root = refl;
  ommers_hash = refl;
  nonce = refl;
  difficulty = refl;
  base_fee = (1, refl, omega arith);
  withdrawals_root = (20, refl);
  withdrawals = ([], refl);
  blob_gas_used = refl;
  excess_blob_gas = refl;
  access_list = refl;
  access_list_hash = refl;
}

try_from_flashblock-new_example :
    try_from_flashblock small_chain length some
      (new (λ tx. tx) 5 (view 99 small_built) small_attributes 0 0 0 (some []))
    ≡ ok (record {
      block = record small_built.block {
        header = record small_built.block.header {
          parent_beacon_block_root = none;
          requests_hash = none;
        };
      };
      senders = 7 ∷ 7 ∷ [];
    })
try_from_flashblock-new_example =
    try_from_flashblock-new small_chain length some small_built small_attributes (some []) 5 99
      (7 ∷ 7 ∷ []) small_built-IsStandard ((refl, refl, ((refl, refl, tt))))

try_from_flashblocks_lem_example :
    (r : RecoveredBlock) × (try_from_flashblocks small_chain length some (opening ∷ following ∷ [])
      ≡ ok r)
    × (r.senders ≡ 7 ∷ 7 ∷ [])
    × (r.block.transactions ≡ (7 ∷ 0 ∷ []) ∷ (7 ∷ 1 ∷ []) ∷ [])
    × (r.block.withdrawals ≡ some (0 ∷ 1 ∷ []))
    × (r.block.header.number ≡ 0)
    × (r.block.header.transactions_root ≡ 2)
    × (r.block.header.state_root ≡ 0)
    × (r.block.header.gas_used ≡ 1)
    × (r.block.block_access_list ≡ none)
try_from_flashblocks_lem_example =
    try_from_flashblocks_lem small_chain length some opening (following ∷ []) (base_at 100)
      (7 ∷ 7 ∷ []) ((base_at 100, refl), (refl, refl, (refl, refl, tt))) refl (omega arith)
      ((refl, refl, ((refl, refl, tt))))
