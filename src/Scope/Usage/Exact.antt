-- ===== src/Scope/Usage/Exact.antt =====
-- What `Query` of pkg/scope/usage_aggregator.go answers after a run of `Tick` and `Flush`.
use soyaos.Prelude.{
  ℕ, ◌+◌, ◌-◌, ◌%◌, ◌^◌, ◌≤◌, ◌<◌, max, ◌≡◌, refl, sym, ◌∙◌, ap, subst, ◌⊎◌, ◌↔◌, inl, inr, true,
  List, [], ◌∷◌, Option, none, some, Bytes, Result, ok, err, All, In, arith, Bool-cases, is_ok,
  if◌then◌else◌, ok-injective,
}
use soyaos.Store.{Store}
use soyaos.Prelude.Dict.{lookup_key}
use soyaos.Scope.Usage.{
  Outside, Payload, Sample, Live, UsageError, UsageQuery, time_end, minute, namespace, window_of,
  add_to, added, new_payload, tick, kept, closed, Aggregator, put_rows, with_live, Wrote, flush,
  matches_query, query,
}
use soyaos.Scope.Usage.Keys.{RowId, IsNamed, id_row_key, same_id}
use soyaos.Scope.Usage.Sums.{
  floor, id_of, sample_id, IsPlain, IsSound, sample-IsRow, same_id_iff, row_at, tick_row,
  tick-IsSound,
}
use soyaos.Scope.Usage.Flushed.{flush_row, flush-IsSound}
use soyaos.Scope.Usage.Answers.{row_of_query, query_of_row}

-- One call of the aggregator that changes it
pub data Call (O : Outside) : Type 0 where
  tick_call : Sample O → Call O
  flush_call : ℕ → Call O

module _ (O : Outside) where
  -- Samples are of plain names, and all times are before the year 10000.
  abbrev pub IsPlainCall : Call O → Type 0
  IsPlainCall (tick_call s) = IsPlain O s
  IsPlainCall (flush_call now) = now < time_end

  -- No sample is of a minute before that of a flush that came earlier.
  abbrev pub IsTimely : ℕ → List (Call O) → Type 0
  IsTimely last [] = Unit {0}
  IsTimely last (tick_call s ∷ calls) = (floor last ≤ s.at) × IsTimely last calls
  IsTimely last (flush_call now ∷ calls) = IsTimely (max last now) calls

  -- The specification: a sample on top of what was counted of its row
  abbrev pub sum_of : Sample O → Option (Payload O) → Payload O
  sum_of s none = record {
    api_key_prefix = s.api_key_prefix;
    agent_slug = s.agent_slug;
    sandbox_image = s.sandbox_image;
    window = O.format (s.at - s.at % minute);
    vcpu_seconds = O.add O.zero_num s.vcpu_seconds;
    gpu_seconds = O.add O.zero_num s.gpu_seconds;
    bytes_in = (0 + s.bytes_in) % 2 ^ 64;
    bytes_out = (0 + s.bytes_out) % 2 ^ 64;
  }
  sum_of s (some p) = record p {
    vcpu_seconds = O.add p.vcpu_seconds s.vcpu_seconds;
    gpu_seconds = O.add p.gpu_seconds s.gpu_seconds;
    bytes_in = (p.bytes_in + s.bytes_in) % 2 ^ 64;
    bytes_out = (p.bytes_out + s.bytes_out) % 2 ^ 64;
  }

  add_to-eq-sum_of : (s : Sample O) (o : Option (Payload O)) → add_to O s o ≡ sum_of s o
  unfolding add_to added new_payload window_of
  add_to-eq-sum_of s none = refl
  add_to-eq-sum_of s (some p) = refl

  -- The samples of a row, in order
  abbrev pub counted : Call O → RowId → Option (Payload O) → Option (Payload O)
  counted (tick_call s) i o = if same_id (sample_id O s) i then some (sum_of s o) else o
  counted (flush_call now) i o = o

  abbrev pub tally : List (Call O) → RowId → Option (Payload O) → Option (Payload O)
  tally [] i o = o
  tally (c ∷ calls) i o = tally calls i (counted c i o)

  -- A row that was counted has the names of a sample.
  tally-IsNamed :
      (calls : List (Call O)) (i : RowId) (o : Option (Payload O)) (p : Payload O)
      → All IsPlainCall calls
      → (o ≡ none) ⊎ IsNamed i
      → tally calls i o ≡ some p
      → IsNamed i
  tally-IsNamed [] i o p plain (inl e) h = cc
  tally-IsNamed [] i o p plain (inr n) h = n
  tally-IsNamed (tick_call s ∷ calls) i o p (plain, rest) n h =
      elim (Bool-cases (same_id (sample_id O s) i)) [
        | inl e ↦
            subst IsNamed ((same_id_iff O (sample_id O s) i).0 e) (sample-IsRow O s plain).named
        | inr e ↦ tally-IsNamed calls i o p rest n (rw e at h)
      ]
  tally-IsNamed (flush_call now ∷ calls) i o p (_, rest) n h = tally-IsNamed calls i o p rest n h

  module _ (S : Store) where
    abbrev pub step : Call O → Aggregator O S → Result UsageError (Unit {0}) × Aggregator O S
    step (tick_call s) (live, d) = (ok tt, (tick O s live, d))
    step (flush_call now) a = flush O S now a

    abbrev pub and_then :
        (Aggregator O S → Result UsageError (Aggregator O S))
        → Result UsageError (Unit {0}) × Aggregator O S
        → Result UsageError (Aggregator O S)
    and_then next (ok _, a) = next a
    and_then next (err e, a) = err e

    -- The calls in order, where none fails
    unfoldable pub run : List (Call O) → Aggregator O S → Result UsageError (Aggregator O S)
    run [] a = ok a
    run (c ∷ calls) a = and_then (run calls) (step c a)

    abbrev pub IsRunOf : List (Call O) → Live O → S.Db → Aggregator O S → Type 0
    IsRunOf calls live d a =
        (live' : Live O) × (d' : S.Db) × (last : ℕ) × (a ≡ (live', some d'))
        × IsSound O S last live' d'
        × ((i : RowId) → IsNamed i → row_at O S i live' d' ≡ tally calls i (row_at O S i live d))

    after_flush :
        (calls : List (Call O)) (live : Live O) (w : Wrote O S) (a : Aggregator O S)
        → and_then (run calls) (with_live O S live w) ≡ ok a
        → (is_ok w.0 ≡ true) × (run calls (live, some w.1) ≡ ok a)
    after_flush calls live (ok u, d) a h = (refl, h)
    after_flush calls live (err e, d) a h = cc

    run_rows :
        (calls : List (Call O)) (last : ℕ) (live : Live O) (d : S.Db) (a : Aggregator O S)
        → All IsPlainCall calls
        → IsTimely last calls
        → IsSound O S last live d
        → run calls (live, some d) ≡ ok a
        → IsRunOf calls live d a
    unfolding run flush
    run_rows [] last live d a plain timely v h =
        (live, d, last, sym (ok-injective h), v, λ i n. refl)
    run_rows (tick_call s ∷ calls) last live d a (plain, rest) (le, timely) v h =
        let (live', d', last', e, v', rows) =
          run_rows calls last (tick O s live) d a rest timely
            (tick-IsSound O S s last live d plain v le) h in
        (
          live',
          d',
          last',
          e,
          v',
          λ i n.
              rows i n
              ∙ ap (tally calls i) (
                  tick_row O S s last live d i plain v le n
                  ∙ ap (λ x. if same_id (sample_id O s) i then some x else row_at O S i live d)
                      (add_to-eq-sum_of s (row_at O S i live d))),
        )
    run_rows (flush_call now ∷ calls) last live d a (early, rest) timely v h =
        let w = window_of O now in
        let (done, h') = after_flush calls (kept O w live) (put_rows O S (closed O w live) d) a h in
        let d1 = (put_rows O S (closed O w live) d).1 in
        let (live', d', last', e, v', rows) =
          run_rows calls (max last now) (kept O w live) d1 a rest timely
            (flush-IsSound O S last now live d v early done) h' in
        (
          live',
          d',
          last',
          e,
          v',
          λ i n. rows i n ∙ ap (tally calls i) (flush_row O S last now live d v i done n),
        )

    empty-IsSound : (d : S.Db) → ((k : Bytes) → S.find d namespace k ≡ none) → IsSound O S 0 [] d
    empty-IsSound d h = record {
      last_in_time = omega arith;
      open_rows = tt;
      distinct = tt;
      closed_rows = λ k raw e. absurd (cc (h k, e));
    }

    row_of_empty :
        (d : S.Db)
        → ((k : Bytes) → S.find d namespace k ≡ none)
        → (i : RowId) → row_at O S i [] d ≡ none
    unfolding row_at lookup_key
    row_of_empty d h i = rw (h (id_row_key i)) refl

    -- After any samples and flushes from an empty aggregator, none of which fails, on a store
    -- without usage rows, `Query`, where it answers, answers a row exactly if it matches and is
    -- the sum, in order, of the samples of its API key, agent, image and minute, the byte counts
    -- modulo 2^64: where no sample is of a minute before that of an earlier flush, API keys and
    -- agents hold no bar, names come back from JSON as they were, and times are before the year
    -- 10000.
    pub query_exact :
        (q : UsageQuery) (calls : List (Call O)) (d : S.Db) (a : Aggregator O S)
        (rows : List (Payload O)) (p : Payload O)
        → All IsPlainCall calls
        → IsTimely 0 calls
        → ((k : Bytes) → S.find d namespace k ≡ none)
        → run calls ([], some d) ≡ ok a
        → query O S q a ≡ ok rows
        → In p rows ↔ ((tally calls (id_of O p) none ≡ some p) × (matches_query O p q ≡ true))
    query_exact q calls d a rows p plain timely empty h answer =
        let (live, d', last, e, v, at) =
          run_rows calls 0 [] d a plain timely (empty-IsSound d empty) h in
        let answer' : query O S q (live, some d') ≡ ok rows = ap (query O S q) (sym e) ∙ answer in
        let start : (i : RowId) → row_at O S i [] d ≡ none = λ i. row_of_empty d empty i in
        (
          λ m.
              let (named, has, c) = row_of_query O S last live d' q rows p v answer' m in
              (
                ap (tally calls (id_of O p)) (sym (start (id_of O p)))
                    ∙ (sym (at (id_of O p) named) ∙ has),
                c,
              ),
          λ (has, c).
              let named = tally-IsNamed calls (id_of O p) none p plain (inl refl) has in
              query_of_row O S last live d' q rows p v answer'
                (at (id_of O p) named ∙ (ap (tally calls (id_of O p)) (start (id_of O p)) ∙ has)) c,
        )
