-- ===== src/Store/Key.antt =====
-- `CompositeKey` and `CompositeKeyString` of pkg/store/store.go. The standard library's
-- `binary.PutUvarint` is written out; a length is below 2^63, so no byte of it is lost.
use soyaos.Prelude.{
  ℕ, zero, suc, ◌+◌, ◌-◌, ◌*◌, ◌/◌, ◌%◌, ◌<◌, ◌≡◌, refl, ap, List, [], ◌∷◌, ◌++◌, Option, none,
  some, arith, Bytes, length, take, drop, ltb, if◌then◌else◌, take_append_length, is_empty, false,
  drop_append_length,
}

-- `binary.PutUvarint`, seven bits a byte, with one round of fuel for each of its bytes.
put_uvarint : ℕ → ℕ → Bytes
put_uvarint zero x = []
put_uvarint (suc fuel) x =
    let rest = (x % 128 + 128) ∷ put_uvarint fuel (x / 128) in if ltb x 128 then x ∷ [] else rest

pub uvarint : ℕ → Bytes
unfolding put_uvarint
uvarint x = put_uvarint (suc x) x

abbrev push_digit : ℕ → Option (ℕ × Bytes) → Option (ℕ × Bytes)
push_digit b none = none
push_digit b (some (n, rest)) = some (b - 128 + 128 * n, rest)

-- The inverse, `binary.Uvarint`, for the proofs.
read_uvarint : Bytes → Option (ℕ × Bytes)
read_uvarint [] = none
read_uvarint (b ∷ bs) = if ltb b 128 then some (b, bs) else push_digit b (read_uvarint bs)

read-put_uvarint :
    (fuel x : ℕ) (rest : Bytes)
    → x < fuel
    → read_uvarint (put_uvarint fuel x ++ rest) ≡ some (x, rest)
unfolding put_uvarint read_uvarint
read-put_uvarint zero x rest h = absurd (omega arith)
read-put_uvarint (suc fuel) x rest h = ground (arith, read-put_uvarint fuel (x / 128) rest)

-- The fuel is enough: a length is read back whatever follows it.
read-uvarint : (x : ℕ) (rest : Bytes) → read_uvarint (uvarint x ++ rest) ≡ some (x, rest)
unfolding uvarint
read-uvarint x rest = read-put_uvarint (suc x) x rest (omega arith)

put_uvarint_nonempty :
    (fuel x : ℕ) (rest : Bytes) → is_empty (put_uvarint (suc fuel) x ++ rest) ≡ false
unfolding put_uvarint
put_uvarint_nonempty fuel x rest = ground arith

-- `CompositeKey`: each part behind its length.
unfoldable pub composite_key : List Bytes → Bytes
unfolding uvarint
composite_key [] = []
composite_key (p ∷ ps) = uvarint (length p) ++ (p ++ composite_key ps)

cut : Option (ℕ × Bytes) → Option (Bytes × Bytes)
cut none = none
cut (some (n, rest)) = some (take n rest, drop n rest)

-- The first part of a key, and the key of the others.
read_part : Bytes → Option (Bytes × Bytes)
unfolding read_uvarint cut
read_part bs = cut (read_uvarint bs)

read_part-composite_key :
    (p : Bytes) (ps : List Bytes) → read_part (composite_key (p ∷ ps)) ≡ some (p, composite_key ps)
unfolding read_part composite_key
read_part-composite_key p ps =
    rw (read-uvarint (length p) (p ++ composite_key ps), cut)
      (rw (take_append_length p (composite_key ps), drop_append_length p (composite_key ps)))

read_part_nil : read_part (composite_key []) ≡ none
unfolding read_part composite_key
read_part_nil = refl

pub composite_key_nonempty :
    (p : Bytes) (ps : List Bytes) → is_empty (composite_key (p ∷ ps)) ≡ false
unfolding composite_key
composite_key_nonempty p ps = put_uvarint_nonempty (length p) (length p) (p ++ composite_key ps)

-- Two lists of parts with the same composite key are the same list.
pub composite_key_injective : (ps qs : List Bytes) → composite_key ps ≡ composite_key qs → ps ≡ qs
composite_key_injective [] [] h = refl
composite_key_injective [] (q ∷ qs) h =
    cc (ap read_part h, read_part-composite_key q qs, read_part_nil)
composite_key_injective (p ∷ ps) [] h =
    cc (ap read_part h, read_part-composite_key p ps, read_part_nil)
composite_key_injective (p ∷ ps) (q ∷ qs) h =
    let parts : ◌≡◌ {A = Option (Bytes × Bytes)} (some (p, composite_key ps))
        (some (q, composite_key qs)) =
      cc (ap read_part h, read_part-composite_key p ps, read_part-composite_key q qs) in
    let rest : composite_key ps ≡ composite_key qs = cc in cc (composite_key_injective ps qs rest)
