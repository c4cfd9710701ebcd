-- ===== src/Primitives/Codec.antt =====
-- The RLP encoding of `FlashblocksPayloadV1` in src/flashblocks/primitives.rs.
-- The encodings of the fields, of an RLP header and of the metadata as JSON come from other crates:
-- they are the fields of `Codecs`, and `Lawful` is what the code relies on.
pub mod RoundTrip
pub mod Samples
mod Tests
use rblib_world_chain.Prelude.{
  u64_mod, ℕ, ◌+◌, ◌≡◌, ◌<◌, ◌≤◌, Bool, true, not, Option, none, some, List, [], ◌∷◌, ◌++◌, length,
  take, drop, ltb, ◌==◌, if◌then◌else◌, Result, ok, err, ◌>>=◌, ok_or,
}
use rblib_world_chain.Primitives.Data.{
  Bytes, ExecutionPayloadFlashblockDeltaV1, ExecutionPayloadBaseV1, FlashblocksPayloadV1,
}

-- `alloy_rlp::Error`; `rlp` stands for the errors of the field codecs, and `panicked` for a slice out
-- of range.
pub data Error : Type 0 where
  unexpected_string bad_json unknown_tag panicked : Error
  rlp : ℕ → Error

pub record RlpHeader : Type 0 where
  pub list : Bool
  pub payload_length : ℕ

-- `Encodable` and `Decodable`: a decoder returns the rest of the buffer too.
pub record RlpCodec (A : Type 0) : Type 0 where
  pub encode : A → Bytes
  pub encoded_length : A → ℕ
  pub decode : Bytes → Result Error (A × Bytes)

pub record Codecs (M : Type 0) : Type 0 where
  pub header : RlpCodec RlpHeader
  pub id_codec : RlpCodec ℕ
  pub index_codec : RlpCodec ℕ
  pub diff_codec : RlpCodec ExecutionPayloadFlashblockDeltaV1
  pub bytes_codec : RlpCodec Bytes
  pub base_codec : RlpCodec ExecutionPayloadBaseV1
  pub to_vec : M → Bytes
  pub from_slice : Bytes → Option M

-- A codec decodes what it encodes, for the values of its type, and knows its length.
pub record IsCodec {A : Type 0} (In : A → Type 0) (c : RlpCodec A) : Type 0 where
  pub length_law : (a : A) → In a → c.encoded_length a ≡ length (c.encode a)
  pub decode_law : (a : A) (rest : Bytes) → In a → c.decode (c.encode a ++ rest) ≡ ok (a, rest)

abbrev pub list_header : ℕ → RlpHeader
list_header n = record { list = true; payload_length = n }

-- What the documentation of the other crates promises; the fields of a value are in their ranges. A
-- header decodes only where its payload is there, and the encoding of a struct is a list, whose first
-- byte is at least 0xc0.
pub record Lawful {M : Type 0} (c : Codecs M) (InDiff : ExecutionPayloadFlashblockDeltaV1 → Type 0)
    (InBase : ExecutionPayloadBaseV1 → Type 0) : Type 0 where
  pub header_length :
      (n : ℕ)
      → n < u64_mod
      → c.header.encoded_length (list_header n) ≡ length (c.header.encode (list_header n))
  pub header_decode :
      (n : ℕ) (rest : Bytes)
      → n < u64_mod
      → n ≤ length rest
      → c.header.decode (c.header.encode (list_header n) ++ rest) ≡ ok (list_header n, rest)
  pub header_short :
      (n : ℕ) (rest : Bytes)
      → n < u64_mod
      → length rest < n
      → (e : Error) × (c.header.decode (c.header.encode (list_header n) ++ rest) ≡ err e)
  pub id_law : IsCodec (λ id. id < u64_mod) c.id_codec
  pub index_law : IsCodec (λ index. index < u64_mod) c.index_codec
  pub diff_law : IsCodec InDiff c.diff_codec
  pub bytes_law : IsCodec (λ b. Unit {0}) c.bytes_codec
  pub base_law : IsCodec InBase c.base_codec
  pub base_list :
      (b : ExecutionPayloadBaseV1)
      → (x : ℕ) × (xs : Bytes) × (c.base_codec.encode b ≡ x ∷ xs) × (192 ≤ x)
  pub json_law : (m : M) → c.from_slice (c.to_vec m) ≡ some m

-- RLP_EMPTY_LEN
abbrev pub rlp_empty_len : ℕ
rlp_empty_len = 1

module _ {M : Type 0} (c : Codecs M) where
  -- The length of the list's payload, and the metadata as JSON.
  unfoldable pub compute_payload_length : FlashblocksPayloadV1 M → ℕ × Bytes
  compute_payload_length p =
      let json_bytes = c.to_vec p.metadata in
      let base_len : ℕ = elim p.base [
        | none ↦ rlp_empty_len
        | some b ↦ c.base_codec.encoded_length b
      ] in
      (
        c.id_codec.encoded_length p.payload_id
            + c.index_codec.encoded_length p.index
            + c.diff_codec.encoded_length p.diff
            + c.bytes_codec.encoded_length json_bytes
            + base_len,
        json_bytes,
      )

  unfoldable pub encode : FlashblocksPayloadV1 M → Bytes
  encode p =
      let (payload_len, json_bytes) = compute_payload_length p in
      c.header.encode (list_header payload_len)
      ++ (c.id_codec.encode p.payload_id
          ++ (c.index_codec.encode p.index
              ++ (c.diff_codec.encode p.diff
                  ++ (c.bytes_codec.encode json_bytes
                      ++ elim p.base [ none ↦ 128 ∷ [] | some b ↦ c.base_codec.encode b ]))))

  unfoldable pub encoded_length : FlashblocksPayloadV1 M → ℕ
  encoded_length p =
      let payload_len = (compute_payload_length p).0 in
      c.header.encoded_length (list_header payload_len) + payload_len

  -- The base: the first byte tells whether there is one.
  unfoldable pub decode_base : Bytes → Result Error (Option ExecutionPayloadBaseV1)
  decode_base [] = c.base_codec.decode [] >>= λ b. ok (some b.0)
  decode_base (x ∷ xs) =
      if x == 128 then ok none else (c.base_codec.decode (x ∷ xs) >>= λ b. ok (some b.0))

  -- The fields, from the window of the list's payload.
  unfoldable pub decode_body : Bytes → Result Error (FlashblocksPayloadV1 M)
  unfolding decode_base
  decode_body body = c.id_codec.decode body >>= λ id. c.index_codec.decode id.1 >>= λ index.
      c.diff_codec.decode index.1 >>= λ diff. c.bytes_codec.decode diff.1 >>= λ meta_bytes.
      ok_or (c.from_slice meta_bytes.0) bad_json >>= λ metadata.
      decode_base meta_bytes.1 >>= λ base. ok (record {
        payload_id = id.0;
        index = index.0;
        diff = diff.0;
        metadata = metadata;
        base = base;
      })

  unfoldable pub decode : Bytes → Result Error (FlashblocksPayloadV1 M × Bytes)
  unfolding decode_body
  decode buf = c.header.decode buf >>= λ (header, window).
      if not header.list
      then err unexpected_string
      else if ltb (length window) header.payload_length
      then err panicked
      else (decode_body (take header.payload_length window) >>= λ p.
          ok (p, drop header.payload_length window))
