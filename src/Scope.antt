-- ===== src/Scope.antt =====
-- pkg/scope: the recorder of events of scope.go, and the aggregator of usage samples (Scope/Usage).
pub mod Usage
use soyaos.Prelude.{ℕ, List, [], ◌∷◌, ◌++◌, Bytes, length}

-- An `Event`, with its attributes as a list
pub record Event : Type 0 where
  pub time : ℕ
  pub kind : Bytes
  pub level : Bytes
  pub source : Bytes
  pub message : Bytes
  pub attrs : List (Bytes × Bytes)
  pub trace_id : Bytes
  pub span_id : Bytes
  pub duration : ℕ

-- `Memory.Record`, `Memory.Snapshot` and `Memory.Len`
unfoldable pub record_event : Event → List Event → List Event
record_event e events = events ++ (e ∷ [])

unfoldable pub snapshot : List Event → List Event
snapshot events = events

unfoldable pub event_len : List Event → ℕ
event_len events = length events
