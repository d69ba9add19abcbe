-- ===== src/Relay/Frame/Tests.antt =====
-- One frame, encoded and decoded.
use soyaos.Prelude.{◌≡◌, ◌≤◌, refl, arith, [], ◌∷◌, Bytes, some, length, replicate}
use soyaos.Relay.Frame.{
  comet, token_size, max_udp_size, encode_frame, decode_frame, decode-encode, decode_frame_sound,
}

abbrev token : Bytes
token = replicate 56 7

decode-encode_example :
    decode_frame (encode_frame token comet (1 ∷ 2 ∷ [])) ≡ some (token, comet, 1 ∷ 2 ∷ [])
decode-encode_example = decode-encode token comet (1 ∷ 2 ∷ []) refl (omega arith)

decoded : decode_frame (encode_frame token comet []) ≡ some (token, comet, [])
unfolding decode_frame encode_frame
decoded = refl

decode_frame_sound_example :
    (encode_frame token comet [] ≡ encode_frame token comet [])
    × (length token ≡ token_size)
    × (length (encode_frame token comet []) ≤ max_udp_size)
decode_frame_sound_example = decode_frame_sound (encode_frame token comet []) token comet [] decoded
