-- ===== src/Primitives/Codec/RoundTrip.antt =====
-- What is encoded is decoded again, has the length that `length` says, and is refused when cut short.
use rblib_world_chain.Prelude.{
  ℕ, ◌<◌, ◌≤◌, ◌≡◌, ◌∙◌, refl, sym, ap, false, none, some, [], ◌∷◌, ◌++◌, length, ltb, arith, ok,
  err, Option-cases, inl, inr, length-append, append_assoc, u64_mod, append-nil, take-append,
  drop-append,
}
use rblib_world_chain.Primitives.Data.{
  Bytes, ExecutionPayloadFlashblockDeltaV1, ExecutionPayloadBaseV1, FlashblocksPayloadV1,
}
use rblib_world_chain.Primitives.Codec.{
  Codecs, Lawful, Error, list_header, compute_payload_length, encode, encoded_length, decode_base,
  decode_body, decode,
}

-- The fields are in the ranges of their types.
abbrev pub InRange :
    {M : Type 0}
    → (ExecutionPayloadFlashblockDeltaV1 → Type 0)
    → (ExecutionPayloadBaseV1 → Type 0)
    → FlashblocksPayloadV1 M
    → Type 0
InRange InDiff InBase p =
    (p.payload_id < u64_mod)
    × (p.index < u64_mod)
    × InDiff p.diff
    × ((b : ExecutionPayloadBaseV1) → p.base ≡ some b → InBase b)

module _ {M : Type 0} (c : Codecs M) (InDiff : ExecutionPayloadFlashblockDeltaV1 → Type 0)
    (InBase : ExecutionPayloadBaseV1 → Type 0) (laws : Lawful c InDiff InBase) where
  base_bytes : FlashblocksPayloadV1 M → Bytes
  base_bytes p = elim p.base [ none ↦ 128 ∷ [] | some b ↦ c.base_codec.encode b ]

  -- The payload of the list.
  body : FlashblocksPayloadV1 M → Bytes
  unfolding base_bytes
  body p =
      c.id_codec.encode p.payload_id
      ++ (c.index_codec.encode p.index
          ++ (c.diff_codec.encode p.diff
              ++ (c.bytes_codec.encode (c.to_vec p.metadata) ++ base_bytes p)))

  encode_body :
      (p : FlashblocksPayloadV1 M)
      → encode c p ≡ c.header.encode (list_header (compute_payload_length c p).0) ++ body p
  unfolding encode body compute_payload_length
  encode_body p = refl

  base_len :
      (p : FlashblocksPayloadV1 M)
      → InRange InDiff InBase p
      → elim p.base as (λ o. ℕ) [ none ↦ 1 | some b ↦ c.base_codec.encoded_length b ]
        ≡ length (base_bytes p)
  unfolding base_bytes
  base_len p h = elim (Option-cases p.base) [
    | inl e ↦ rw e refl
    | inr (b, e) ↦ rw e (laws.base_law.length_law b (h.3 b e))
  ]

  payload_len :
      (p : FlashblocksPayloadV1 M)
      → InRange InDiff InBase p
      → (compute_payload_length c p).0 ≡ length (body p)
  unfolding compute_payload_length body
  payload_len p h =
      let json = c.to_vec p.metadata in
      let id = c.id_codec.encode p.payload_id in
      let index = c.index_codec.encode p.index in
      let diff = c.diff_codec.encode p.diff in
      let bytes = c.bytes_codec.encode json in
      omega (
        arith,
        laws.id_law.length_law p.payload_id h.0,
        laws.index_law.length_law p.index h.1,
        laws.diff_law.length_law p.diff h.2,
        laws.bytes_law.length_law json tt,
        base_len p h,
        length-append id (index ++ (diff ++ (bytes ++ base_bytes p))),
        length-append index (diff ++ (bytes ++ base_bytes p)),
        length-append diff (bytes ++ base_bytes p),
        length-append bytes (base_bytes p),
      )

  pub encode-length :
      (p : FlashblocksPayloadV1 M)
      → InRange InDiff InBase p
      → (compute_payload_length c p).0 < u64_mod
      → encoded_length c p ≡ length (encode c p)
  unfolding encoded_length
  encode-length p h small =
      let n = (compute_payload_length c p).0 in
      omega (
        arith,
        laws.header_length n small,
        payload_len p h,
        ap length (encode_body p),
        length-append (c.header.encode (list_header n)) (body p),
      )

  decode_base_present :
      (b : ExecutionPayloadBaseV1) → InBase b → decode_base c (c.base_codec.encode b) ≡ ok (some b)
  unfolding decode_base
  decode_base_present b h =
      let (x, xs, e, big) = laws.base_list b in
      let whole : c.base_codec.decode (x ∷ xs) ≡ ok (b, []) =
        ap c.base_codec.decode (sym (append-nil (c.base_codec.encode b) ∙ e))
        ∙ laws.base_law.decode_law b [] h in
      rw e (ground (arith, whole))

  decode_base_lem :
      (p : FlashblocksPayloadV1 M)
      → InRange InDiff InBase p
      → decode_base c (base_bytes p) ≡ ok p.base
  unfolding base_bytes decode_base
  decode_base_lem p h = elim (Option-cases p.base) [
    | inl e ↦ rw e refl
    | inr (b, e) ↦ rw e (decode_base_present b (h.3 b e))
  ]

  decode_body_lem :
      (p : FlashblocksPayloadV1 M) → InRange InDiff InBase p → decode_body c (body p) ≡ ok p
  unfolding decode_body body
  decode_body_lem p h =
      rw
        (
          laws.id_law.decode_law p.payload_id _ h.0,
          laws.index_law.decode_law p.index _ h.1,
          laws.diff_law.decode_law p.diff _ h.2,
          laws.bytes_law.decode_law (c.to_vec p.metadata) _ tt,
          laws.json_law p.metadata,
          decode_base_lem p h,
        )
        refl

  encode_then :
      (p : FlashblocksPayloadV1 M) (rest : Bytes)
      → InRange InDiff InBase p
      → encode c p ++ rest ≡ c.header.encode (list_header (length (body p))) ++ (body p ++ rest)
  encode_then p rest h =
      ap (λ e. e ++ rest) (encode_body p)
      ∙ append_assoc _ (body p) rest
      ∙ ap (λ n. c.header.encode (list_header n) ++ (body p ++ rest)) (payload_len p h)

  -- If the field codecs, the header and the JSON conversion keep their laws, a payload whose fields
  -- are in range and whose RLP payload is shorter than 2^64 is decoded from its encoding, whatever
  -- follows it, with the rest of the buffer left over, and its computed length is that of the
  -- encoding.
  pub decode-encode :
      (p : FlashblocksPayloadV1 M) (rest : Bytes)
      → InRange InDiff InBase p
      → (compute_payload_length c p).0 < u64_mod
      → (decode c (encode c p ++ rest) ≡ ok (p, rest)) × (encoded_length c p ≡ length (encode c p))
  unfolding decode
  decode-encode p rest h small =
      let n = length (body p) in
      let enough : n ≤ length (body p ++ rest) = omega (arith, length-append (body p) rest) in
      let headed =
        laws.header_decode n (body p ++ rest) (omega (arith, small, payload_len p h)) enough in
      let whole : ltb (length (body p ++ rest)) n ≡ false = ground arith in
      (
        rw (encode_then p rest h, headed, decode, whole, take-append (body p) rest)
            (rw (decode_body_lem p h, drop-append (body p) rest) refl),
        encode-length p h small,
      )

  -- Under the same laws of the codecs, the encoding of a payload whose fields are in range and whose
  -- RLP payload is shorter than 2^64 is refused when at least one byte of it is missing at the end,
  -- as long as the header is there.
  pub decode_truncated :
      (p : FlashblocksPayloadV1 M) (kept lost : Bytes)
      → InRange InDiff InBase p
      → (compute_payload_length c p).0 < u64_mod
      → encode c p ≡ c.header.encode (list_header (compute_payload_length c p).0) ++ (kept ++ lost)
      → 0 < length lost
      → (e : Error) × (decode c
            (c.header.encode (list_header (compute_payload_length c p).0) ++ kept)
          ≡ err e)
  unfolding decode encoded_length
  decode_truncated p kept lost h small split missing =
      let n = (compute_payload_length c p).0 in
      let head = c.header.encode (list_header n) in
      let short : length kept < n = omega (
        arith,
        encode-length p h small,
        laws.header_length n small,
        ap length split,
        length-append head (kept ++ lost),
        length-append kept lost,
      ) in
      let (e, refused) = laws.header_short n kept small short in (e, rw (refused, decode) refl)
