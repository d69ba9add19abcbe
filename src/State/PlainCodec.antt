-- ===== src/State/PlainCodec.antt =====
-- A codec that keeps every string, for the tests of pkg/state and of what is built on it.
use mathlib.Core.Path.{subst}
use mathlib.Core.Option.{some-injective}
use soyaos.Prelude.{
  ◌≡◌, Option, none, some, [], ◌∷◌, ◌++◌, Bytes, take, drop, length, take_append_length,
  drop_append_length,
}
use soyaos.State.{Entry, Codec, make_entry}

abbrev pub field_of : Bytes → Bytes
field_of s = length s ∷ s

abbrev pub rest_of : Bytes → Bytes
rest_of [] = []
rest_of (n ∷ s) = drop n s

abbrev pub head_of : Bytes → Bytes
head_of [] = []
head_of (n ∷ s) = take n s

abbrev pub marshal : Entry → Option Bytes
marshal e = some (
    e.version
    ∷ e.updated_at
    ∷ (field_of e.scope ++ (field_of e.owner_id ++ (field_of e.key ++ e.value))))

abbrev pub unmarshal : Bytes → Option Entry
unmarshal (v ∷ t ∷ s) =
    let s' = rest_of s in
    let s'' = rest_of s' in
    some (make_entry (head_of s) (head_of s') (head_of s'') (rest_of s'') v t)
unmarshal _ = none

pub unmarshal-marshal_self : (e : Entry) (b : Bytes) → marshal e ≡ some b → unmarshal b ≡ some e
unmarshal-marshal_self e b h =
    subst (λ c. unmarshal c ≡ some e) (some-injective _ b h)
      (simp (take_append_length, drop_append_length))

abbrev pub plain_codec : Codec
plain_codec = record {
  marshal = marshal;
  unmarshal = unmarshal;
  text = λ s. s;
  unmarshal-marshal = unmarshal-marshal_self;
}
