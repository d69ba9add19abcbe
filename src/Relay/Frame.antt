-- ===== src/Relay/Frame.antt =====
-- pkg/mesh/relay/frame.go: the envelope of a datagram. A token is its 56 bytes.
mod Tests
use mathlib.Core.Option.{some-injective}
use soyaos.Prelude.{
  ℕ, zero, suc, min, inl, inr, length-take, ◌+◌, ◌≤◌, ◌≡◌, refl, sym, ap, ◌∙◌, Bool, true, false,
  not, ◌||◌, List, [], ◌∷◌, ◌++◌, Option, none, some, Bytes, bytes_eq, bytes_eq_iff, bytes_eq_refl,
  length, take, drop, ltb, leb, ◌==◌, if◌then◌else◌, arith, Bool-cases, length-append, subst,
  take_append_length, drop_append_length,
}

abbrev pub token_size : ℕ
token_size = 56

abbrev pub header_size : ℕ
header_size = 61

abbrev pub max_udp_size : ℕ
max_udp_size = 65536

abbrev pub frame_magic : Bytes
frame_magic = 83 ∷ 89 ∷ 82 ∷ 1 ∷ []

pub data Side : Type 0 where
  moon comet : Side

-- `Side.other`
unfoldable pub other : Side → Side
other moon = comet
other comet = moon

abbrev pub side_byte : Side → ℕ
side_byte moon = 0
side_byte comet = 1

-- The byte of the side, where it is valid
abbrev pub side_at : Bytes → Option Side
side_at [] = none
side_at (zero ∷ s) = some moon
side_at (suc zero ∷ s) = some comet
side_at (suc (suc n) ∷ s) = none

-- `encodeFrame`
unfoldable pub encode_frame : Bytes → Side → Bytes → Bytes
encode_frame token side payload = frame_magic ++ (side_byte side ∷ (token ++ payload))

abbrev of_side : Bytes → Option Side → Option (Bytes × Side × Bytes)
of_side frame none = none
of_side frame (some side) = some (take token_size (drop 5 frame), side, drop header_size frame)

-- `decodeFrame`
unfoldable pub decode_frame : Bytes → Option (Bytes × Side × Bytes)
decode_frame frame =
    if ltb (length frame) header_size || ltb max_udp_size (length frame)
    then none
    else if not (bytes_eq (take 4 frame) frame_magic)
    then none
    else of_side frame (side_at (drop 4 frame))

take_token : (n : ℕ) (token payload : Bytes) → length token ≡ n → take n (token ++ payload) ≡ token
take_token n token payload e =
    subst (λ k. take k (token ++ payload) ≡ token) e (take_append_length token payload)

drop_token :
    (n : ℕ) (token payload : Bytes) → length token ≡ n → drop n (token ++ payload) ≡ payload
drop_token n token payload e =
    subst (λ k. drop k (token ++ payload) ≡ payload) e (drop_append_length token payload)

of_side_at :
    (frame : Bytes) (side : Side)
    → of_side frame (side_at (side_byte side ∷ drop 5 frame)) ≡ of_side frame (some side)
of_side_at frame moon = refl
of_side_at frame comet = refl

encode-fits :
    (token : Bytes) (side : Side) (payload : Bytes)
    → length token ≡ token_size
    → length payload + header_size ≤ max_udp_size
    → (ltb (length (encode_frame token side payload)) header_size
        || ltb max_udp_size (length (encode_frame token side payload)))
      ≡ false
unfolding encode_frame
encode-fits token side payload n b = ground (arith, length-append token payload)

-- A frame that carries a token of 56 bytes, and is no larger than a datagram, is decoded to what
-- was put in.
pub decode-encode :
    (token : Bytes) (side : Side) (payload : Bytes)
    → length token ≡ token_size
    → length payload + header_size ≤ max_udp_size
    → decode_frame (encode_frame token side payload) ≡ some (token, side, payload)
unfolding decode_frame encode_frame
decode-encode token side payload n b = rw (encode-fits token side payload n b) (
    of_side_at (encode_frame token side payload) side
    ∙ ap some (
        ap (λ t. (t, side, drop token_size (token ++ payload)))
          (take_token token_size token payload n)
        ∙ ap (λ p. (token, side, p)) (drop_token token_size token payload n)))

take_append_drop : (n : ℕ) (xs : Bytes) → take n xs ++ drop n xs ≡ xs
take_append_drop zero xs = refl
take_append_drop (suc n) [] = refl
take_append_drop (suc n) (x ∷ xs) = ap (λ r. x ∷ r) (take_append_drop n xs)

kept :
    (b : Bool) (o : Option (Bytes × Side × Bytes)) (r : Bytes × Side × Bytes)
    → (if b then none else o) ≡ some r
    → (b ≡ false) × (o ≡ some r)
kept true o r e = cc
kept false o r e = (refl, e)

abbrev IsFrame : Bytes → Bytes × Side × Bytes → Type 0
IsFrame frame (token, side, payload) =
    (frame_magic ++ (side_byte side ∷ (token ++ payload)) ≡ frame) × (length token ≡ token_size)

parts :
    (side : Side) (a b c d : ℕ) (rest : Bytes)
    → token_size ≤ length rest
    → ◌≡◌ {A = Bytes} (a ∷ b ∷ c ∷ d ∷ []) frame_magic
    → IsFrame
        (a ∷ b ∷ c ∷ d ∷ side_byte side ∷ rest)
        (take token_size rest, side, drop token_size rest)
parts side a b c d rest n m = (
  ap (λ t. frame_magic ++ (side_byte side ∷ t)) (take_append_drop token_size rest)
      ∙ ap (λ h. h ++ (side_byte side ∷ rest)) (sym m),
  omega (arith, length-take token_size rest),
)

-- The parts of a frame, by its first five bytes
of_parts :
    (frame : Bytes) (r : Bytes × Side × Bytes)
    → header_size ≤ length frame
    → take 4 frame ≡ frame_magic
    → of_side frame (side_at (drop 4 frame)) ≡ some r
    → IsFrame frame r
of_parts [] r n m e = absurd (omega arith)
of_parts (a ∷ []) r n m e = absurd (omega arith)
of_parts (a ∷ b ∷ []) r n m e = absurd (omega arith)
of_parts (a ∷ b ∷ c ∷ []) r n m e = absurd (omega arith)
of_parts (a ∷ b ∷ c ∷ d ∷ []) r n m e = cc
of_parts (a ∷ b ∷ c ∷ d ∷ suc (suc x) ∷ rest) r n m e = cc
of_parts (a ∷ b ∷ c ∷ d ∷ zero ∷ rest) r n m e =
    subst (IsFrame _) (some-injective _ _ e) (parts moon a b c d rest (omega arith) m)
of_parts (a ∷ b ∷ c ∷ d ∷ suc zero ∷ rest) r n m e =
    subst (IsFrame _) (some-injective _ _ e) (parts comet a b c d rest (omega arith) m)

-- What is decoded is an envelope of the same bytes: encoded again it is the same frame, the token
-- has 56 bytes, and the frame has at most the size of a datagram.
pub decode_frame_sound :
    (frame token : Bytes) (side : Side) (payload : Bytes)
    → decode_frame frame ≡ some (token, side, payload)
    → (encode_frame token side payload ≡ frame)
      × (length token ≡ token_size)
      × (length frame ≤ max_udp_size)
unfolding decode_frame encode_frame
decode_frame_sound frame token side payload e =
    let size_ok = kept (ltb (length frame) header_size || ltb max_udp_size (length frame)) _ _ e in
    let magic_ok = kept (not (bytes_eq (take 4 frame) frame_magic)) _ _ size_ok.1 in
    let found =
      of_parts frame (token, side, payload) (ground arith)
        ((bytes_eq_iff (take 4 frame) frame_magic).0 (ground arith)) magic_ok.1 in
    (found.0, found.1, ground arith)
