-- ===== src/Scope/Usage/Flushed.antt =====
-- `Flush` of pkg/scope/usage_aggregator.go moves rows and changes none.
use mathlib.Core.Option.{some-injective}
use soyaos.Prelude.{
  ℕ, ◌≤◌, ◌<◌, max, ◌≡◌, refl, sym, ◌∙◌, ap, inl, inr, true, false, none, some, Bytes, bytes_eq,
  bytes_eq_iff, bytes_lt, ltb, ltb→lt, In, arith, Bool-cases, Option-cases, is_ok,
}
use soyaos.Store.{Store}
use soyaos.Prelude.Dict.{In-lookup_key, lookup_key, lookup_key-In}
use soyaos.Scope.Usage.{
  Outside, Payload, Live, time_end, namespace, payload_key, payload_row_key, window_of, kept,
  closed, put_rows,
}
use soyaos.Scope.Usage.Keys.{
  RowId, IsNamed, id_key, id_row_key, bucket_key_injective, row_key_injective,
}
use soyaos.Scope.Usage.Live.{
  open_row, All-kept, kept-HasDistinctKeys, find-kept, In-closed, closed_of_In,
}
use soyaos.Scope.Usage.Written.{
  written, find-put_rows, written_other, written_row, written_cases, put_rows-marshal,
}
use soyaos.Scope.Usage.Sums.{
  floor, id_of, IsRow, IsOpen, IsClosed, IsSound, window_order, texts_kept, first_of, bind_option,
  row_at, IsOpen-In,
}

module _ (O : Outside) (S : Store) where
  -- A row that is taken out stands in the map under its own key.
  closed-find :
      (last : ℕ) (w : Bytes) (live : Live O) (d : S.Db) (p : Payload O)
      → IsSound O S last live d
      → In p (closed O w live)
      → (lookup_key (payload_key O p) live ≡ some p)
        × IsOpen O last (payload_key O p, p)
        × (bytes_lt p.window w ≡ true)
  closed-find last w live d p v m =
      let (k, m', c) = In-closed O w p live m in
      let (t, row, le, own) = IsOpen-In O S last k p live v.open_rows m' in
      (
        ap (λ j. lookup_key j live) (sym own) ∙ lookup_key-In k p live v.distinct m',
        (t, row, le, refl),
        c,
      )

  -- A row of which the store has the text
  stored_row :
      (p : Payload O) (raw : Bytes)
      → O.text p.api_key_prefix ≡ p.api_key_prefix
      → O.text p.agent_slug ≡ p.agent_slug
      → O.text p.sandbox_image ≡ p.sandbox_image
      → O.text p.window ≡ p.window
      → O.marshal p ≡ some raw
      → O.unmarshal raw ≡ some p
  stored_row p raw a b c w e = O.unmarshal-marshal p raw e ∙ ap some (texts_kept O p (a, b, c, w))

  module _ (last now : ℕ) (live : Live O) (d : S.Db) (v : IsSound O S last live d) where
    abbrev w : Bytes
    w = window_of O now

    abbrev d' : S.Db
    d' = (put_rows O S (closed O w live) d).1

    flush_absent :
        (i : RowId)
        → lookup_key (id_key i) live ≡ none
        → (p : Payload O) → In p (closed O w live)
        → bytes_eq (payload_row_key O p) (id_row_key i) ≡ false
    flush_absent i e p m = elim (Bool-cases (bytes_eq (payload_row_key O p) (id_row_key i))) [
      | inl c ↦
          let there : id_of O p ≡ i = row_key_injective (id_of O p) i ((bytes_eq_iff _ _).0 c) in
          absurd (cc ((closed-find last w live d p v m).0, there, e))
      | inr c ↦ c
    ]

    one_row :
        (p q : Payload O)
        → In p (closed O w live)
        → In q (closed O w live)
        → payload_row_key O q ≡ payload_row_key O p
        → q ≡ p
    one_row p q m m' e =
        let same : id_of O q ≡ id_of O p = row_key_injective (id_of O q) (id_of O p) e in
        some-injective q p (
          sym (closed-find last w live d q v m').0
          ∙ (ap (λ j. lookup_key (id_key j) live) same ∙ (closed-find last w live d p v m).0))

    moved :
        (i : RowId) (p : Payload O)
        → lookup_key (id_key i) live ≡ some p
        → is_ok (put_rows O S (closed O w live) d).0 ≡ true
        → IsNamed i
        → first_of O (open_row O w (some p)) (
            bind_option O
              (written O S (closed O w live) (id_row_key i) (S.find d namespace (id_row_key i)))
              O.unmarshal)
          ≡ some p
    moved i p e done named =
        let m = In-lookup_key (id_key i) p live e in
        let (t, row, le, own) = IsOpen-In O S last (id_key i) p live v.open_rows m in
        let here : i ≡ id_of O p = bucket_key_injective i (id_of O p) named row.named own in
        elim (Bool-cases (bytes_lt p.window w)) [
          | inl c ↦
              let taken = closed_of_In O w (id_key i) p live m c in
              let (raw, text) = put_rows-marshal O S (closed O w live) d p done taken in
              let (a, b, g, h) = row.as_text in
              rw c (
                ap
                  (λ (j : RowId).
                    bind_option O
                      (written O S (closed O w live) (id_row_key j)
                        (S.find d namespace (id_row_key i)))
                      O.unmarshal)
                  here
                ∙ (ap (λ o. bind_option O o O.unmarshal)
                      (written_row O S (closed O w live) p (S.find d namespace (id_row_key i))
                          (λ q m'. one_row p q taken m') (inr taken)
                        ∙ text)
                    ∙ stored_row p raw a b g h text))
          | inr c ↦ rw c refl
        ]

    pub flush_row :
        (i : RowId)
        → is_ok (put_rows O S (closed O w live) d).0 ≡ true
        → IsNamed i
        → row_at O S i (kept O w live) d' ≡ row_at O S i live d
    unfolding row_at
    flush_row i done named = rw (find-kept O (id_key i) w live v.distinct) (
        rw (find-put_rows O S (closed O w live) d (id_row_key i) done)
          (elim (Option-cases (lookup_key (id_key i) live)) [
            | inl e ↦ rw e (
                ap (λ o. bind_option O o O.unmarshal)
                  (written_other O S (closed O w live) (id_row_key i)
                    (S.find d namespace (id_row_key i)) (flush_absent i e)))
            | inr (p, e) ↦ rw e (moved i p e done named)
          ]))

    not_lt : (a b : ℕ) → ltb a b ≡ false → b ≤ a
    not_lt a b e = ground arith

    closed_before :
        (p : Payload O) (t : ℕ)
        → now < time_end
        → IsRow O (id_of O p) t
        → bytes_lt p.window w ≡ true
        → t < floor (max last now)
    closed_before p t h row c =
        let order : ltb (floor t) (floor now) ≡ true =
          sym (window_order O t now row.in_time h)
          ∙ (ap (λ x. bytes_lt x w) (sym row.minute_of) ∙ c) in
        omega (arith, ltb→lt (floor t) (floor now) order)

    in_store :
        now < time_end
        → is_ok (put_rows O S (closed O w live) d).0 ≡ true
        → IsClosed O S (max last now) d'
    in_store h done k raw e =
        let before = find-put_rows O S (closed O w live) d k done in
        elim (written_cases O S (closed O w live) k (S.find d namespace k)) [
          | inl c ↦
              let (p, t, row, lt, own, text) = v.closed_rows k raw (sym c ∙ (sym before ∙ e)) in
              (p, t, row, omega arith, own, text)
          | inr (p, m, own, c) ↦
              let (_, (t, row, le, _), shut) = closed-find last w live d p v m in
              let (a, b, g, i) = row.as_text in
              let text : O.marshal p ≡ some raw = sym c ∙ (sym before ∙ e) in
              (p, t, row, closed_before p t h row shut, sym own, stored_row p raw a b g i text)
        ]

    later-IsOpen :
        (k : Bytes) (p : Payload O)
        → now < time_end
        → bytes_lt p.window w ≡ false
        → IsOpen O last (k, p)
        → IsOpen O (max last now) (k, p)
    later-IsOpen k p h c (t, row, le, own) =
        let order : ltb (floor t) (floor now) ≡ false =
          sym (window_order O t now row.in_time h)
          ∙ (ap (λ x. bytes_lt x w) (sym row.minute_of) ∙ c) in
        (t, row, omega (arith, not_lt (floor t) (floor now) order), own)

    pub flush-IsSound :
        now < time_end
        → is_ok (put_rows O S (closed O w live) d).0 ≡ true
        → IsSound O S (max last now) (kept O w live) d'
    flush-IsSound h done = record {
      last_in_time = omega (arith, v.last_in_time);
      open_rows =
          All-kept O (IsOpen O last) (IsOpen O (max last now)) w live
            (λ k p c o. later-IsOpen k p h c o) v.open_rows;
      distinct = kept-HasDistinctKeys O w live v.distinct;
      closed_rows = λ k raw e. in_store h done k raw e;
    }
