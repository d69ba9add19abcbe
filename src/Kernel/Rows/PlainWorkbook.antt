-- ===== src/Kernel/Rows/PlainWorkbook.antt =====
-- A workbook codec that keeps every payload, for the tests of pkg/kernel.
use mathlib.Core.Path.{subst}
use mathlib.Core.Option.{some-injective}
use soyaos.Prelude.{
  ℕ, zero, suc, ◌≡◌, refl, ap, true, [], ◌∷◌, ◌++◌, Option, none, some, Bytes, length,
  take_append_length, drop_append_length,
}
use soyaos.State.PlainCodec.{field_of, rest_of, head_of}
use soyaos.Kernel.Rows.{Value, text, other, Payload, Snapshot, Workbook}

abbrev pub encode : Payload → Bytes
encode [] = []
encode ((k, text v) ∷ p) = 0 ∷ (field_of k ++ (field_of v ++ encode p))
encode ((k, other v) ∷ p) = 1 ∷ (field_of k ++ (field_of v ++ encode p))

abbrev pub value_of : ℕ → Bytes → Value
value_of zero v = text v
value_of (suc n) v = other v

abbrev pub decode : ℕ → Bytes → Payload
decode zero s = []
decode (suc n) [] = []
decode (suc n) (t ∷ s) =
    (head_of s, value_of t (head_of (rest_of s))) ∷ decode n (rest_of (rest_of s))

decode-encode : (p : Payload) → decode (length p) (encode p) ≡ p
decode-encode [] = refl
decode-encode ((k, text v) ∷ p) = simp (take_append_length, drop_append_length, decode-encode p)
decode-encode ((k, other v) ∷ p) = simp (take_append_length, drop_append_length, decode-encode p)

abbrev pub unmarshal : Bytes → Option Payload
unmarshal [] = none
unmarshal (n ∷ s) = some (decode n s)

pub unmarshal-marshal_self :
    (p : Payload) (b : Bytes) → some (length p ∷ encode p) ≡ some b → unmarshal b ≡ some p
unmarshal-marshal_self p b h =
    subst (λ c. unmarshal c ≡ some p) (some-injective _ b h) (ap some (decode-encode p))

abbrev pub plain_workbook : Snapshot → Workbook
plain_workbook snap = record {
  is_object = λ b. true;
  snapshot = λ b. some snap;
  marshal = λ p. some (length p ∷ encode p);
  unmarshal = unmarshal;
  again = λ p. p;
  unmarshal-marshal = unmarshal-marshal_self;
}
