-- ===== src/P2p/Wire.antt =====
-- The encoding of `FlashblocksP2PMsg` in src/flashblocks/p2p.rs: a tag byte, and the flashblock. The
-- encoding of a `u8` is another crate's.
use rblib_world_chain.Prelude.{
  u64_mod, ℕ, zero, suc, ◌+◌, ◌<◌, ◌≡◌, ◌≢◌, ◌∙◌, refl, ap, ◌++◌, length, arith, Result, ok, err,
  ◌>>=◌, append_assoc, length-append,
}
use rblib_world_chain.Primitives.Data.{
  Bytes, FlashblockMetadata, Payload, ExecutionPayloadFlashblockDeltaV1, ExecutionPayloadBaseV1,
}
use rblib_world_chain.Primitives.Codec.{
  RlpCodec, Codecs, IsCodec, Lawful, Error, unknown_tag, compute_payload_length,
}
use rblib_world_chain.Primitives.Codec
use rblib_world_chain.Primitives.Codec.RoundTrip.{InRange, decode-encode}
use rblib_world_chain.P2p.{P2pMsg}

module _ (tag : RlpCodec ℕ) (c : Codecs FlashblockMetadata) where
  unfoldable pub encode : P2pMsg → Bytes
  encode (P2pMsg.flashblocks_payload_v1 p) = tag.encode 0 ++ Codec.encode c p

  unfoldable pub encoded_length : P2pMsg → ℕ
  encoded_length (P2pMsg.flashblocks_payload_v1 p) = 1 + Codec.encoded_length c p

  unfoldable pub decode : Bytes → Result Error (P2pMsg × Bytes)
  decode buf = tag.decode buf >>= λ (t, rest). elim t [
    | zero ↦ Codec.decode c rest >>= λ p. ok (P2pMsg.flashblocks_payload_v1 p.0, p.1)
    | suc _ ↦ err unknown_tag
  ]

-- The tag's codec is that of a byte, and writes 0 as one byte.
abbrev pub IsTagCodec : RlpCodec ℕ → Type 0
IsTagCodec tag = IsCodec (λ t. t < 256) tag × (length (tag.encode 0) ≡ 1)

module _ (tag : RlpCodec ℕ) (c : Codecs FlashblockMetadata)
    (InDiff : ExecutionPayloadFlashblockDeltaV1 → Type 0) (InBase : ExecutionPayloadBaseV1 → Type 0)
    (tag_law : IsTagCodec tag) (laws : Lawful c InDiff InBase) where
  -- If a tag is encoded as a byte, the tag 0 as one byte, and the codecs of a payload keep their
  -- laws, a message whose payload has its fields in range and an RLP payload shorter than 2^64 is
  -- decoded from its encoding, whatever follows it, and its computed length is that of the encoding.
  pub message_round_trip :
      (p : Payload) (rest : Bytes)
      → InRange InDiff InBase p
      → (compute_payload_length c p).0 < u64_mod
      → let m = P2pMsg.flashblocks_payload_v1 p in
        (decode tag c (encode tag c m ++ rest) ≡ ok (m, rest))
        × (encoded_length tag c m ≡ length (encode tag c m))
  unfolding decode encode encoded_length
  message_round_trip p rest h small =
      let inner = decode-encode c InDiff InBase laws p rest h small in
      let tagged =
        ap tag.decode (append_assoc (tag.encode 0) (Codec.encode c p) rest)
        ∙ tag_law.0.decode_law 0 (Codec.encode c p ++ rest) (omega arith) in
      (
        rw (tagged, inner.0) refl,
        omega (arith, inner.1, tag_law.1, length-append (tag.encode 0) (Codec.encode c p)),
      )

module _ (tag : RlpCodec ℕ) (c : Codecs FlashblockMetadata) (tag_law : IsTagCodec tag) where
  -- A message that starts with the encoding of a tag other than 0, below 256, is refused as of an
  -- unknown tag, if the codec of the tag keeps its laws.
  pub decode_unknown_tag :
      (t : ℕ) (rest : Bytes)
      → t < 256
      → t ≢ 0
      → decode tag c (tag.encode t ++ rest) ≡ err unknown_tag
  unfolding decode
  decode_unknown_tag zero rest h n = absurd (n refl)
  decode_unknown_tag (suc t) rest h n = rw (tag_law.0.decode_law (suc t) rest h) refl
