-- ===== src/Primitives/Codec/Tests.antt =====
-- Runs of the encoding of a payload with a base.
use rblib_world_chain.Prelude.{◌≡◌, refl, arith, [], ◌∷◌, ◌++◌, length, ok}
use rblib_world_chain.Primitives.Codec.{compute_payload_length, encode, encoded_length, decode}
use rblib_world_chain.Primitives.Codec.RoundTrip.{decode-encode}
use rblib_world_chain.Primitives.Codec.Samples.{
  payload_codecs, payload_codecs-Lawful, IsKnownDiff, IsKnownBase, known_payload,
  known_payload-InRange,
}

known_length : (compute_payload_length payload_codecs known_payload).0 ≡ 8
unfolding compute_payload_length
known_length = refl

decode-encode_example :
    (decode payload_codecs (encode payload_codecs known_payload ++ (9 ∷ []))
      ≡ ok (known_payload, 9 ∷ []))
    × (encoded_length payload_codecs known_payload ≡ length (encode payload_codecs known_payload))
decode-encode_example =
    decode-encode payload_codecs IsKnownDiff IsKnownBase payload_codecs-Lawful known_payload
      (9 ∷ []) known_payload-InRange (omega (arith, known_length))

encoded : encode payload_codecs known_payload ≡ 8 ∷ 7 ∷ 1 ∷ 7 ∷ 2 ∷ 1 ∷ 5 ∷ 192 ∷ 100 ∷ []
unfolding encode compute_payload_length
encoded = refl
