-- ===== src/Memory/Tests.antt =====
-- The theorems about pkg/memory on small memories, with codecs that keep every string.
use mathlib.Core.Path.{subst}
use mathlib.Core.Option.{some-injective}
use soyaos.Prelude.{
  ◌≡◌, refl, Option, none, some, List, [], ◌∷◌, ◌++◌, Bytes, codes, take, drop, length,
  take_append_length, drop_append_length,
}
use soyaos.Store.Memory.{memory}
use soyaos.Memory.{Entry}
use soyaos.Memory.Contract
use soyaos.Memory.Contract.{Write, put_at, delete_at, replay}
use soyaos.Memory.Local
use soyaos.Memory.Local.Refines.{local_refines, all_done}
use soyaos.Memory.Backed
use soyaos.Memory.Backed.{Codec, successes}
use soyaos.Memory.Backed.Refines.{backed_refines}

abbrev field_of : Bytes → Bytes
field_of s = length s ∷ s

abbrev rest_of : Bytes → Bytes
rest_of [] = []
rest_of (n ∷ s) = drop n s

abbrev head_of : Bytes → Bytes
head_of [] = []
head_of (n ∷ s) = take n s

abbrev marshal : Entry → Option Bytes
marshal e = some (
    e.updated_at
    ∷ (e.ttl
        ∷ (field_of e.key
            ++ (field_of e.layer
                ++ (field_of e.scope
                    ++ (field_of e.owner ++ (field_of e.sensitivity ++ e.value)))))))

abbrev unmarshal : Bytes → Option Entry
unmarshal (t ∷ l ∷ s) =
    let s1 = rest_of s in
    let s2 = rest_of s1 in
    let s3 = rest_of s2 in
    let s4 = rest_of s3 in
    some (record {
      key = head_of s;
      value = rest_of s4;
      layer = head_of s1;
      scope = head_of s2;
      owner = head_of s3;
      updated_at = t;
      ttl = l;
      sensitivity = head_of s4;
    })
unmarshal _ = none

unmarshal-marshal_self : (e : Entry) (b : Bytes) → marshal e ≡ some b → unmarshal b ≡ some e
unmarshal-marshal_self e b h =
    subst (λ c. unmarshal c ≡ some e) (some-injective _ b h)
      (simp (take_append_length, drop_append_length))

abbrev plain_codec : Codec
plain_codec = record {
  marshal = marshal;
  unmarshal = unmarshal;
  text = λ s. s;
  unmarshal-marshal = unmarshal-marshal_self;
}

abbrev user : Bytes
user = codes "user"

abbrev alice : Bytes
alice = codes "alice"

abbrev tone : Bytes
tone = codes "tone"

abbrev entry : Bytes → Entry
entry v = record {
  key = tone;
  value = v;
  layer = codes "long";
  scope = user;
  owner = alice;
  updated_at = 0;
  ttl = 5;
  sensitivity = [];
}

-- Two writes at a place, one at another, and a removal
abbrev writes : List Write
writes =
    put_at 10 (entry (codes "dry"))
    ∷ put_at 11 (entry (codes "warm"))
    ∷ delete_at (user, codes "bob", tone)
    ∷ []

local_refines_example :
    Local.get 12 user alice tone (Local.run writes [])
    ≡ Contract.answer 12 (replay writes (all_done writes) (λ _. none) (user, alice, tone))
local_refines_example = local_refines writes 12 user alice tone (refl, (refl, (refl, tt))) refl

backed_refines_example :
    Backed.get memory plain_codec 12 (Backed.run memory plain_codec writes []) user alice tone
    ≡ Contract.answer 12
        (replay writes (successes memory plain_codec writes []) (λ _. none) (user, alice, tone))
backed_refines_example =
    backed_refines memory plain_codec [] writes 12 user alice tone tt (λ s o k. refl)
      (refl, (refl, (tt, tt)))
