-- ===== src/Memory/Episodic/Tests.antt =====
-- The theorems about pkg/memory/episodic.go on the store in memory.
use soyaos.Prelude.{ℕ, ◌≡◌, refl, none, some, List, [], ◌∷◌, Bytes, arith, codes}
use soyaos.Store.Memory.{memory}
use soyaos.Memory.Episodic.{
  Event, EventCodec, namespace, episodic_key, append, append_encoded, stored, next_nano,
}
use soyaos.Memory.Episodic.Order.{event_stays, run}

abbrev event_codec : EventCodec
event_codec = record {
  marshal = λ ev. elim ev.timestamp [ none ↦ none | some t ↦ some (t ∷ ev.payload) ];
  unmarshal = λ b. elim b [ [] ↦ none | t ∷ p ↦ some (record { timestamp = some t; payload = p }) ];
}

abbrev user : Bytes
user = codes "user"

abbrev alice : Bytes
alice = codes "alice"

abbrev event : Event
event = record { timestamp = some 7; payload = codes "sold" }

-- Two later events, one of the same time
abbrev later : List (ℕ × Bytes × Bytes × Event)
later =
    (9, user, alice, event) ∷ (9, user, codes "bob", record { timestamp = none; payload = [] }) ∷ []

event_stays_example :
    memory.find
      (run memory event_codec later (append memory event_codec 9 user alice event (7, [])).1).1
      namespace
      (episodic_key user alice 8)
    ≡ some (8 ∷ codes "sold")
unfolding append append_encoded stored run next_nano
event_stays_example =
    event_stays memory event_codec 9 user alice event 7 [] later (omega arith)
      (omega arith, omega arith, (omega arith, omega arith, (omega arith, omega arith, tt))) refl
