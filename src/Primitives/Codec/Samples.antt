-- ===== src/Primitives/Codec/Samples.antt =====
-- Small codecs for the tests: a number is one entry of a byte string, and a string has its length in
-- front.
use rblib_world_chain.Prelude.{
  ℕ, ◌≡◌, refl, sym, ap, ap₂, none, some, Option, [], ◌∷◌, length, take, drop, take-append,
  drop-append, leb, if◌then◌else◌, arith, Result, ok, err,
}
use rblib_world_chain.Primitives.Data.{
  Bytes, Payload, FlashblockMetadata, default_diff, ExecutionPayloadFlashblockDeltaV1,
  ExecutionPayloadBaseV1,
}
use rblib_world_chain.Primitives.Samples.{base_at, sample}
use rblib_world_chain.Primitives.Codec.RoundTrip.{InRange}
use rblib_world_chain.Primitives.Codec.{
  RlpCodec, Codecs, Lawful, Error, rlp, RlpHeader, list_header,
}

abbrev pub number_codec : RlpCodec ℕ
number_codec = record { encode = λ n. n ∷ []; encoded_length = λ n. 1; decode = uncons }
  where
    uncons : Bytes → Result Error (ℕ × Bytes)
    uncons [] = err (rlp 0)
    uncons (x ∷ xs) = ok (x, xs)

-- A header decodes where its payload is there.
abbrev header_codec : RlpCodec RlpHeader
header_codec = record {
  encode = λ h. h.payload_length ∷ [];
  encoded_length = λ h. 1;
  decode = read;
}
  where
    read : Bytes → Result Error (RlpHeader × Bytes)
    read [] = err (rlp 0)
    read (n ∷ xs) = if leb n (length xs) then ok (list_header n, xs) else err (rlp 1)

abbrev string_codec : RlpCodec Bytes
string_codec = record {
  encode = λ b. length b ∷ b;
  encoded_length = λ b. length (length b ∷ b);
  decode = read;
}
  where
    read : Bytes → Result Error (Bytes × Bytes)
    read [] = err (rlp 0)
    read (n ∷ xs) = ok (take n xs, drop n xs)

-- Of the differences and the bases it knows those of the samples.
abbrev diff_codec : RlpCodec ExecutionPayloadFlashblockDeltaV1
diff_codec = record { encode = λ d. 7 ∷ []; encoded_length = λ d. 1; decode = read }
  where
    read : Bytes → Result Error (ExecutionPayloadFlashblockDeltaV1 × Bytes)
    read [] = err (rlp 0)
    read (x ∷ xs) = ok (default_diff, xs)

abbrev base_codec : RlpCodec ExecutionPayloadBaseV1
base_codec = record { encode = λ b. 192 ∷ b.timestamp ∷ []; encoded_length = λ b. 2; decode = read }
  where
    read : Bytes → Result Error (ExecutionPayloadBaseV1 × Bytes)
    read (x ∷ timestamp ∷ xs) = ok (base_at timestamp, xs)
    read _ = err (rlp 0)

abbrev pub small_codecs : {M : Type 0} → (M → Bytes) → (Bytes → Option M) → Codecs M
small_codecs to_vec from_slice = record {
  header = header_codec;
  id_codec = number_codec;
  index_codec = number_codec;
  diff_codec = diff_codec;
  bytes_codec = string_codec;
  base_codec = base_codec;
  to_vec = to_vec;
  from_slice = from_slice;
}

abbrev pub IsKnownDiff : ExecutionPayloadFlashblockDeltaV1 → Type 0
IsKnownDiff d = d ≡ default_diff

abbrev pub IsKnownBase : ExecutionPayloadBaseV1 → Type 0
IsKnownBase b = b ≡ base_at b.timestamp

pub small_codecs-Lawful :
    {M : Type 0} (to_vec : M → Bytes) (from_slice : Bytes → Option M)
    → ((m : M) → from_slice (to_vec m) ≡ some m)
    → Lawful (small_codecs to_vec from_slice) IsKnownDiff IsKnownBase
small_codecs-Lawful to_vec from_slice json = record {
  header_length = λ n h. refl;
  header_decode = λ n rest small h. ground arith;
  header_short = λ n rest small h. (rlp 1, ground arith);
  id_law = record { length_law = λ a h. refl; decode_law = λ a rest h. refl };
  index_law = record { length_law = λ a h. refl; decode_law = λ a rest h. refl };
  diff_law = record {
    length_law = λ a h. refl;
    decode_law = λ a rest h. ap (λ d. ok (d, rest)) (sym h);
  };
  bytes_law = record {
    length_law = λ a h. refl;
    decode_law = λ a rest h. ap₂ (λ x y. ok (x, y)) (take-append a rest) (drop-append a rest);
  };
  base_law = record {
    length_law = λ a h. refl;
    decode_law = λ a rest h. ap (λ b. ok (b, rest)) (sym h);
  };
  base_list = λ b. (192, _, refl, omega arith);
  json_law = json;
}

-- A metadata record as one or two entries.
abbrev metadata_to_vec : FlashblockMetadata → Bytes
metadata_to_vec m = elim m.flashblock_timestamp [ none ↦ m.fees ∷ [] | some t ↦ m.fees ∷ t ∷ [] ]

abbrev metadata_from_slice : Bytes → Option FlashblockMetadata
metadata_from_slice (f ∷ []) = some (record { fees = f; flashblock_timestamp = none })
metadata_from_slice (f ∷ t ∷ []) = some (record { fees = f; flashblock_timestamp = some t })
metadata_from_slice _ = none

abbrev pub payload_codecs : Codecs FlashblockMetadata
payload_codecs = small_codecs metadata_to_vec metadata_from_slice

metadata_law : (m : FlashblockMetadata) → metadata_from_slice (metadata_to_vec m) ≡ some m
metadata_law m = ground arith

pub payload_codecs-Lawful : Lawful payload_codecs IsKnownDiff IsKnownBase
payload_codecs-Lawful = small_codecs-Lawful metadata_to_vec metadata_from_slice metadata_law

-- A payload whose parts these codecs know.
abbrev pub known_payload : Payload
known_payload = record (sample 7 1 (some (base_at 100))) { diff = default_diff }

pub known_payload-InRange : InRange IsKnownDiff IsKnownBase known_payload
known_payload-InRange = (omega arith, omega arith, refl, λ b e. ground arith)
