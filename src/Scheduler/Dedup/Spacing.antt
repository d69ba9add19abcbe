-- ===== src/Scheduler/Dedup/Spacing.antt =====
-- Attempts under one idempotency key, by pkg/scheduler/persist.go, are a window of 24 hours apart where they do not overlap.
use mathlib.Core.Option.{some-injective}
use soyaos.Prelude.{
  subst, ℕ, zero, suc, ◌+◌, ◌≤◌, ◌<◌, ◌≡◌, refl, inl, inr, true, false, List, [], ◌∷◌, Option, none,
  some, Bytes, is_empty, Result, ok, err, if◌then◌else◌, bytes_eq, bytes_eq_iff, bytes_eq_refl,
  arith, Bool-cases, sym, ap, ◌∙◌, get_elem?, if_yes, if_no,
}
use soyaos.Store.{Store, StoreError, not_found, backend, same_cell}
use soyaos.Scheduler.Wheel.{Job}
use soyaos.Scheduler.Dedup.{
  job_namespace, dedup_namespace, window, time_end, JobText, Log, judge_time, judge, dedup_seen,
  dedup_record, seen_if_keyed, record_if_keyed, saved, save_encoded, after_record, is_fresh,
  live_begins, live_end,
}
use soyaos.Scheduler.Dedup.Attempts.{
  Attempt, at_start, live, Step, begin, finish, job_of, time_of, fires, Spaced, has_key, flying,
  remove_at, World, ended, finished, advance, progress, MayBegin, IsSerial,
}

flying-other :
    (key : Bytes) (fs : List Attempt) (n : ℕ) (a : Attempt)
    → get_elem? fs n ≡ some a
    → has_key key a ≡ false
    → flying key (remove_at n fs) ≡ flying key fs
flying-other key [] n a e h = cc
flying-other key (b ∷ fs) zero a e h =
    let same : b ≡ a = some-injective b a e in
    sym (
      if_no (has_key key b) (time_of b ∷ flying key fs) (flying key fs) (ap (has_key key) same ∙ h))
flying-other key (b ∷ fs) (suc n) a e h =
    ap (λ l. if has_key key b then time_of b ∷ l else l) (flying-other key fs n a e h)

none_flying :
    (key : Bytes) (fs : List Attempt) (n : ℕ) (a : Attempt)
    → get_elem? fs n ≡ some a
    → has_key key a ≡ true
    → flying key fs ≡ []
    → ⊥
none_flying key [] n a e h f = cc
none_flying key (b ∷ fs) zero a e h f =
    let own : has_key key b ≡ true = ap (has_key key) (some-injective b a e) ∙ h in
    cc (f, if_yes (has_key key b) (time_of b ∷ flying key fs) (flying key fs) own)
none_flying key (b ∷ fs) (suc n) a e h f = elim (Bool-cases (has_key key b)) [
  | inl own ↦ cc (f, if_yes (has_key key b) (time_of b ∷ flying key fs) (flying key fs) own)
  | inr other ↦
      none_flying key fs n a e h
        (sym (if_no (has_key key b) (time_of b ∷ flying key fs) (flying key fs) other) ∙ f)
]

flying-own :
    (key : Bytes) (fs : List Attempt) (n : ℕ) (a : Attempt)
    → get_elem? fs n ≡ some a
    → has_key key a ≡ true
    → (t : ℕ) (rest : List ℕ) → flying key fs ≡ t ∷ rest
    → rest ≡ []
    → (time_of a ≡ t) × (flying key (remove_at n fs) ≡ [])
flying-own key [] n a e h t rest f z = cc
flying-own key (b ∷ fs) zero a e h t rest f z =
    let same : b ≡ a = some-injective b a e in
    let all : time_of b ∷ flying key fs ≡ t ∷ [] =
      sym (
        if_yes (has_key key b) (time_of b ∷ flying key fs) (flying key fs)
          (ap (has_key key) same ∙ h))
      ∙ (f ∙ ap (λ l. t ∷ l) z) in
    (cc (all, ap time_of same), cc)
flying-own key (b ∷ fs) (suc n) a e h t rest f z = elim (Bool-cases (has_key key b)) [
  | inl own ↦
      let all : time_of b ∷ flying key fs ≡ t ∷ [] =
        sym (if_yes (has_key key b) (time_of b ∷ flying key fs) (flying key fs) own)
        ∙ (f ∙ ap (λ l. t ∷ l) z) in
      absurd (none_flying key fs n a e h cc)
  | inr other ↦
      let less : flying key fs ≡ t ∷ rest =
        sym (if_no (has_key key b) (time_of b ∷ flying key fs) (flying key fs) other) ∙ f in
      let (at, gone) = flying-own key fs n a e h t rest less z in
      (
        at,
        if_no (has_key key b) (time_of b ∷ flying key (remove_at n fs))
              (flying key (remove_at n fs)) other
            ∙ gone,
      )
]

module _ (S : Store) (T : JobText) (key : Bytes) (keyed : is_empty key ≡ false) where
  abbrev HasRoom : S.Db → Type 0
  HasRoom d = S.Accepts d dedup_namespace key

  abbrev record_of : S.Db → Option Bytes
  record_of d = S.find d dedup_namespace key

  abbrev Keeps : S.Db → S.Db → Type 0
  Keeps d d' = HasRoom d' × (record_of d' ≡ record_of d)

  abbrev Holds : ℕ → S.Db → Type 0
  Holds t d = HasRoom d × (record_of d ≡ some (T.format t))

  put_elsewhere :
      (d : S.Db) (ns k v : Bytes)
      → same_cell ns k dedup_namespace key ≡ false
      → HasRoom d
      → Keeps d (S.put d ns k v).1
  put_elsewhere d ns k v other a = (
    S.accepts_put d ns k v dedup_namespace key a,
    ground (arith, S.find-put d ns k v dedup_namespace key, other),
  )

  put_own : (d : S.Db) (t : ℕ) → HasRoom d → Holds t (S.put d dedup_namespace key (T.format t)).1
  put_own d t a =
      let done : (S.put d dedup_namespace key (T.format t)).0 ≡ ok tt =
        S.put_accepts d dedup_namespace key (T.format t) a in
      (
        S.accepts_put d dedup_namespace key (T.format t) dedup_namespace key a,
        S.find-put d dedup_namespace key (T.format t) dedup_namespace key
            ∙ rw (done, bytes_eq_refl key) refl,
      )

  record-other :
      (d : S.Db) (j : Job) (t : ℕ)
      → bytes_eq j.idempotency_key key ≡ false
      → HasRoom d
      → Keeps d (record_if_keyed S T d j t).1
  unfolding record_if_keyed dedup_record
  record-other d j t other a = elim (Bool-cases (is_empty j.idempotency_key)) [
    | inl unkeyed ↦ rw unkeyed (a, refl)
    | inr full ↦
        rw full
          (put_elsewhere d dedup_namespace j.idempotency_key (T.format t) (ground (arith, other)) a)
  ]

  record-own :
      (d : S.Db) (j : Job) (t : ℕ)
      → bytes_eq j.idempotency_key key ≡ true
      → HasRoom d
      → Holds t (record_if_keyed S T d j t).1
  unfolding record_if_keyed dedup_record
  record-own d j t own a =
      let same : j.idempotency_key ≡ key = (bytes_eq_iff j.idempotency_key key).0 own in
      rw same (rw keyed (put_own d t a))

  after_record-Keeps :
      (j : Job) (t : ℕ) (p : Result StoreError (Unit {0}) × S.Db)
      → HasRoom p.1
      → Keeps p.1 (after_record S T [] j t p).1.0
  unfolding after_record save_encoded saved
  after_record-Keeps j t (err e, d) a = (a, refl)
  after_record-Keeps j t (ok u, d) a = encoded (T.marshal (record j { last_fired_at = t }))
    where
      written :
          (q : Result StoreError (Unit {0}) × S.Db) → Keeps d q.1 → Keeps d (saved S T [] q).1.0
      written (ok u', d') h = h
      written (err e, d') h = h

      encoded :
          (o : Option Bytes)
          → Keeps d (save_encoded S T [] d (record j { last_fired_at = t }) o).1.0
      encoded none = (a, refl)
      encoded (some body) =
          written (S.put d job_namespace j.id body) (put_elsewhere d job_namespace j.id body refl a)

  ended-other :
      (x : Attempt) (d : S.Db) → has_key key x ≡ false → HasRoom d → Keeps d (ended S T x d)
  unfolding live_end
  ended-other (at_start j t) d other a =
      let (room, same) = record-other d j t other a in
      let (room', same') = after_record-Keeps j t (record_if_keyed S T d j t) room in
      (room', same' ∙ same)
  ended-other (live j t) d other a = record-other d j t other a

  ended-own :
      (x : Attempt) (d : S.Db)
      → has_key key x ≡ true
      → HasRoom d
      → Holds (time_of x) (ended S T x d)
  unfolding live_end
  ended-own (at_start j t) d own a =
      let (room, same) = record-own d j t own a in
      let (room', same') = after_record-Keeps j t (record_if_keyed S T d j t) room in
      (room', same' ∙ same)
  ended-own (live j t) d own a = record-own d j t own a

  -- The record is that of the newest run, or the newest run is of the one attempt in flight.
  abbrev Settled : List ℕ → S.Db → List ℕ → Type 0
  Settled [] d [] = Unit {0}
  Settled [] d (t ∷ ts) = (t < time_end) × (record_of d ≡ some (T.format t))
  Settled (t ∷ rest) d ts = (rest ≡ []) × (t < time_end) × ((us : List ℕ) × (ts ≡ t ∷ us))

  abbrev Tracks : World S T → Type 0
  Tracks (d, (log, fs)) =
      HasRoom d × Settled (flying key fs) d (fires key log) × Spaced (fires key log)

  Settled-keeps :
      (out : List ℕ) (d d' : S.Db) (ts : List ℕ)
      → record_of d' ≡ record_of d
      → Settled out d ts
      → Settled out d' ts
  Settled-keeps [] d d' [] e h = tt
  Settled-keeps [] d d' (t ∷ ts) e (early, at) = (early, e ∙ at)
  Settled-keeps (t ∷ rest) d d' ts e h = h

  not_within : (last now : ℕ) → judge_time S T now (some last) ≡ false → last + window ≤ now
  unfolding judge_time
  not_within last now e = ground arith

  fresh-Spaced :
      (d : S.Db) (now : ℕ) (ts : List ℕ)
      → Settled [] d ts
      → is_fresh S T (dedup_seen S T d key now) ≡ true
      → Spaced ts
      → Spaced (now ∷ ts)
  unfolding dedup_seen judge judge_time
  fresh-Spaced d now [] h fresh sp = tt
  fresh-Spaced d now (t ∷ ts) (early, at) fresh sp = (
    from_get (S.get d dedup_namespace key) (S.get_ok d dedup_namespace key)
        (S.get_not_found d dedup_namespace key) fresh,
    sp,
  )
    where
      from_get :
          (g : Result StoreError Bytes)
          → ((v : Bytes) → g ≡ ok v → record_of d ≡ some v)
          → (g ≡ err not_found → record_of d ≡ none)
          → is_fresh S T (judge S T now g) ≡ true
          → t + window ≤ now
      from_get (ok v) found missing q =
          let text : v ≡ T.format t = some-injective _ _ (sym (found v refl) ∙ at) in
          let read : T.parse v ≡ some t = ap T.parse text ∙ T.parse-format t early in
          not_within t now (subst (λ o. judge_time S T now o ≡ false) read (ground (arith, q)))
      from_get (err not_found) found missing q = absurd (let h = missing refl in cc)
      from_get (err backend) found missing q = absurd cc

  begun :
      (a : Attempt) (d : S.Db) (log : Log) (fs : List Attempt)
      → live_begins S T d (job_of a) (time_of a) ≡ true
      → MayBegin S T key (begin a) (d, (log, fs))
      → Tracks (d, (log, fs))
      → Tracks (d, ((job_of a, time_of a) ∷ log, a ∷ fs))
  unfolding live_begins seen_if_keyed
  begun a d log fs fresh may (room, settled, sp) = elim (Bool-cases (has_key key a)) [
    | inr other ↦ rw other (room, settled, sp)
    | inl own ↦
        let (alone, early) = may own in
        let same = (bytes_eq_iff (job_of a).idempotency_key key).0 own in
        let asked : is_fresh S T (dedup_seen S T d key (time_of a)) ≡ true =
          sym (
            ap (λ k. is_fresh S T (if is_empty k then ok false else dedup_seen S T d k (time_of a)))
              same
            ∙ ap (is_fresh S T) (if_no (is_empty key) (ok false) _ keyed))
          ∙ fresh in
        let before = subst (λ out. Settled out d (fires key log)) alone settled in
        rw own (
          room,
          (alone, early, (fires key log, refl)),
          fresh-Spaced d (time_of a) (fires key log) before asked sp,
        )
  ]

  landed :
      (a : Attempt) (d : S.Db) (fs : List Attempt) (n : ℕ) (ts out : List ℕ)
      → get_elem? fs n ≡ some a
      → has_key key a ≡ true
      → flying key fs ≡ out
      → Settled out d ts
      → HasRoom d
      → Settled (flying key (remove_at n fs)) (ended S T a d) ts
  landed a d fs n ts [] e own f h room = absurd (none_flying key fs n a e own f)
  landed a d fs n ts (t ∷ rest) e own f (z, early, (us, newest)) room =
      let (at, gone) = flying-own key fs n a e own t rest f z in
      let (_, held) = ended-own a d own room in
      subst (λ o. Settled o (ended S T a d) ts) (sym gone)
        (subst (λ l. Settled [] (ended S T a d) l) (sym newest)
          (early, held ∙ ap (λ u. some (T.format u)) at))

  advance-Tracks :
      (s : Step) (w : World S T) → MayBegin S T key s w → Tracks w → Tracks (advance S T s w)
  advance-Tracks (begin a) (d, (log, fs)) may h =
      elim (Bool-cases (live_begins S T d (job_of a) (time_of a))) [
        | inl fresh ↦ rw fresh (begun a d log fs fresh may h)
        | inr seen ↦ rw seen h
      ]
  advance-Tracks (finish n) (d, (log, fs)) may (room, settled, sp) = one (get_elem? fs n) refl
    where
      one : (o : Option Attempt) → get_elem? fs n ≡ o → Tracks (finished S T o n (d, (log, fs)))
      one none e = (room, settled, sp)
      one (some a) e = elim (Bool-cases (has_key key a)) [
        | inl own ↦ (
          (ended-own a d own room).0,
          landed a d fs n (fires key log) (flying key fs) e own refl settled room,
          sp,
        )
        | inr other ↦
            let (room', same) = ended-other a d other room in
            (
              room',
              subst (λ o. Settled o (ended S T a d) (fires key log))
                  (sym (flying-other key fs n a e other))
                  (Settled-keeps (flying key fs) d (ended S T a d) (fires key log) same settled),
              sp,
            )
      ]

  progress-Tracks :
      (ss : List Step) (w : World S T)
      → IsSerial S T key ss w
      → Tracks w
      → Tracks (progress S T ss w)
  progress-Tracks [] w serial h = h
  progress-Tracks (s ∷ rest) w (may, serial) h =
      progress-Tracks rest (advance S T s w) serial (advance-Tracks s w may h)

-- From an empty log, the jobs of a non-empty key run at least 24 hours apart, each after the one
-- before it, by the times that the attempts are given (in `tryFire` the missed time, not the
-- clock), however attempts of `tryFire` and of live callbacks, of any keys, begin and end: if no
-- attempt under the key begins while the job of another under it runs, their times are before the
-- year 10000, and writes at the record of the key do not fail.
pub fires-Spaced :
    (S : Store) (T : JobText) (key : Bytes) (ss : List Step) (d : S.Db)
    → is_empty key ≡ false
    → S.Accepts d dedup_namespace key
    → IsSerial S T key ss (d, ([], []))
    → Spaced (fires key (progress S T ss (d, ([], []))).1.0)
fires-Spaced S T key ss d keyed room serial =
    (progress-Tracks S T key keyed ss (d, ([], [])) serial (room, tt, tt)).2
