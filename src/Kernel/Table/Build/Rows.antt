-- ===== src/Kernel/Table/Build/Rows.antt =====
-- The candidates that the loop of `buildIndexedTableHandler` of pkg/kernel/indexed_table.go collects.
use soyaos.Prelude.{
  ltb, ◌>>=◌, ℕ, zero, suc, ◌-◌, ◌*◌, min, ◌≤◌, ◌≡◌, refl, sym, ap, ◌∙◌, ◌⊎◌, inl, inr, Bool, true,
  false, not, ◌&&◌, ◌||◌, List, [], ◌∷◌, ◌++◌, Bytes, bytes_eq, bytes_eq_iff, Result, ok, err,
  bind-ok, ok-injective, if_yes, if_no, subst, leb→le, ◌==◌, leb, length, arith, Bool-cases,
}
use soyaos.Soyapack.{Unicode, is_member}
use soyaos.Soyapack.IndexedTable.{Table, any_blank, batches_of}
use soyaos.Kernel.Table.{
  Row, TableError, panicked, too_few_rows, cell, strict_table_json, matches_indexed_column_rules,
}
use soyaos.Kernel.Table.Build.{
  Payload, Outside, keep, append_rows, title_key, in_partition, keep_row, keep_rows, run_batch,
  run_batches, expand_indexed_batches, add_row, add_rows, ask_batch, batch_rows, batch_payload, ask,
  top_rows, size_of, expand_from, row_count, gather_more, attempt_rows, expand_payload, gather,
  partition_of,
}
use soyaos.Kernel.Table.Counts.{one, count, count-append, is_member_eq}

abbrev is_yes : Result TableError Bool → Bool
is_yes (ok b) = b
is_yes (err e) = false

-- A row with a cell for each column, none of them blank, which meets the rules of the columns
abbrev pub acceptable : Unicode → Table → Row → Bool
acceptable U c row =
    length row == length c.columns
    && (not (any_blank U row) && is_yes (matches_indexed_column_rules row c.column_rules))

abbrev pub rejected : Unicode → Table → Row → Bool
rejected U c row = not (acceptable U c row)

abbrev first_cell : Row → Bytes
first_cell [] = []
first_cell (v ∷ row) = v

-- Whether a title is that of a row, but for spaces and case
abbrev pub has_key : Unicode → Bytes → Row → Bool
has_key U k row = bytes_eq (title_key U (first_cell row)) k

keep-ok :
    (b : Result TableError Bool) (row : Row) (rest : Result TableError (List Row)) (out : List Row)
    → keep b row rest ≡ ok out
    → (r : List Row) × (rest ≡ ok r)
      × (((r ≡ out) × (b ≡ ok false)) ⊎ ((row ∷ r ≡ out) × (b ≡ ok true)))
keep-ok (ok true) row (ok r) out h = (r, refl, inr (ok-injective h, refl))
keep-ok (ok true) row (err e) out h = cc
keep-ok (ok false) row rest out h = (out, h, inl (refl, refl))
keep-ok (err e) row rest out h = cc

append_rows-ok :
    (a b : Result TableError (List Row)) (out : List Row)
    → append_rows a b ≡ ok out
    → (xs : List Row) × (ys : List Row) × (a ≡ ok xs) × (b ≡ ok ys) × (xs ++ ys ≡ out)
append_rows-ok (ok xs) (ok ys) out h = (xs, ys, refl, refl, ok-injective h)
append_rows-ok (ok xs) (err e) out h = cc
append_rows-ok (err e) b out h = cc

member-snoc :
    (k t : Bytes) (seen : List Bytes)
    → is_member k (seen ++ (t ∷ [])) ≡ (is_member k seen || bytes_eq t k)
member-snoc k t [] = ground arith
member-snoc k t (s ∷ seen) = ground (arith, member-snoc k t seen)

module _ (X : Outside) (c : Table) where
  -- What holds of the candidates so far: all are acceptable, and the titles seen are theirs, each of one row.
  abbrev pub IsSound : List Row × List Bytes → Type 0
  IsSound (rows, seen) =
      (count (rejected X.unicode c) rows ≡ 0)
      × ((k : Bytes) → count (has_key X.unicode k) rows ≤ one (is_member k seen))

  in_partition-ok :
      (partition : Bytes) (row : Row) (m : Result TableError Bool)
      → in_partition X c partition row m ≡ ok true
      → is_yes m ≡ true
  unfolding in_partition
  in_partition-ok partition row (ok true) h = refl
  in_partition-ok partition row (ok false) h = cc
  in_partition-ok partition row (err e) h = cc

  keep_row-ok :
      (partition : Bytes) (row : Row)
      → keep_row X c partition row ≡ ok true
      → rejected X.unicode c row ≡ false
  unfolding keep_row
  keep_row-ok partition row h =
      ground
        (arith, in_partition-ok partition row (matches_indexed_column_rules row c.column_rules))

  keep_rows_sound :
      (partition : Bytes) (rows out : List Row)
      → keep_rows X c partition rows ≡ ok out
      → count (rejected X.unicode c) out ≡ 0
  unfolding keep_rows
  keep_rows_sound partition [] out h = ap (count (rejected X.unicode c)) (sym (ok-injective h))
  keep_rows_sound partition (row ∷ rows) out h =
      let (r, e, k) =
        keep-ok (keep_row X c partition row) row (keep_rows X c partition rows) out h in
      let rest = keep_rows_sound partition rows r e in
      elim k [
        | inl (same, _) ↦ ap (count (rejected X.unicode c)) (sym same) ∙ rest
        | inr (more, kept) ↦
            let fine = ap one (keep_row-ok partition row kept) in
            ap (count (rejected X.unicode c)) (sym more) ∙ omega (arith, fine, rest)
      ]

  run_batch_sound :
      (attempt total size : ℕ) (base : Payload) (index : ℕ) (out : List Row)
      → run_batch X c attempt total size base index ≡ ok out
      → count (rejected X.unicode c) out ≡ 0
  unfolding run_batch ask_batch batch_rows
  run_batch_sound attempt total size base index out h =
      let target = min size (total - index * size) in
      let (partition, _, h1) =
        bind-ok (partition_of X c base.repair index) (ask_batch X c attempt total size base index)
          out h in
      let negative = ltb total (index * size) in
      let (content, _, h2) =
        bind-ok (ask X c attempt (batch_payload X c total size base index target partition))
          (batch_rows X c partition negative target) out h1 in
      let (rows, _, h3) =
        bind-ok (strict_table_json X.decode_rows X.is_end content)
          (λ rows. top_rows negative target rows >>= keep_rows X c partition) out h2 in
      let (top, _, h4) = bind-ok (top_rows negative target rows) (keep_rows X c partition) out h3 in
      keep_rows_sound partition top out h4

  run_batches_sound :
      (attempt total size : ℕ) (base : Payload) (n : ℕ) (out : List Row)
      → run_batches X c attempt total size base n ≡ ok out
      → count (rejected X.unicode c) out ≡ 0
  unfolding run_batches
  run_batches_sound attempt total size base zero out h =
      ap (count (rejected X.unicode c)) (sym (ok-injective h))
  run_batches_sound attempt total size base (suc n) out h =
      let (xs, ys, a, b, e) = append_rows-ok _ _ out h in
      omega (
        arith,
        ap (count (rejected X.unicode c)) e,
        count-append (rejected X.unicode c) xs ys,
        run_batches_sound attempt total size base n xs a,
        run_batch_sound attempt total size base n ys b,
      )

  pub expand_sound :
      (attempt total : ℕ) (base : Payload) (out : List Row)
      → expand_indexed_batches X c attempt total base ≡ ok out
      → count (rejected X.unicode c) out ≡ 0
  unfolding expand_indexed_batches
  expand_sound attempt total base out h =
      let size = size_of X c total in
      elim (Bool-cases (size == 0)) [
        | inl zero_size ↦ cc (
          h,
          if_yes (size == 0) (err panicked)
              (run_batches X c attempt total size base (batches_of total size)) zero_size,
        )
        | inr sized ↦
            run_batches_sound attempt total size base (batches_of total size) out
              (sym (if_no _ _ _ sized) ∙ h)
      ]

  cell-first : (row : Row) (title : Bytes) → cell row 0 ≡ ok title → first_cell row ≡ title
  cell-first [] title h = cc
  cell-first (v ∷ row) title h = ok-injective h

  add_row-title :
      (row : Row) (st : List Row × List Bytes) (title : Result TableError Bytes)
      (st' : List Row × List Bytes)
      → add_row X c row st title ≡ ok st'
      → (t : Bytes) × (title ≡ ok t)
  unfolding add_row
  add_row-title row (rows, seen) (ok t) st' h = (t, refl)
  add_row-title row (rows, seen) (err e) st' h = cc

  add_row-IsSound :
      (row : Row) (rows : List Row) (seen : List Bytes) (title : Bytes) (st : List Row × List Bytes)
      → rejected X.unicode c row ≡ false
      → IsSound (rows, seen)
      → cell row 0 ≡ ok title
      → add_row X c row (rows, seen) (ok title) ≡ ok st
      → IsSound st
  unfolding add_row
  add_row-IsSound row rows seen title st fine (none_bad, once) first h =
      let k = title_key X.unicode title in
      elim (Bool-cases (is_member k seen)) [
        | inl old ↦ subst IsSound (ok-injective (sym (if_yes _ _ _ old) ∙ h)) (none_bad, once)
        | inr new ↦ subst IsSound (ok-injective (sym (if_no _ _ _ new) ∙ h)) (
          omega (arith, count-append (rejected X.unicode c) rows (row ∷ []), ap one fine, none_bad),
          λ j. new_once new j (once j),
        )
      ]
    where
      new_once :
          is_member (title_key X.unicode title) seen ≡ false
          → (j : Bytes) → count (has_key X.unicode j) rows ≤ one (is_member j seen)
          → count (has_key X.unicode j) (rows ++ (row ∷ []))
            ≤ one (is_member j (seen ++ (title_key X.unicode title ∷ [])))
      new_once new j hj =
          let k = title_key X.unicode title in
          let same : has_key X.unicode j row ≡ bytes_eq k j =
            ap (λ t. bytes_eq (title_key X.unicode t) j) (cell-first row title first) in
          ground (
            arith,
            same,
            hj,
            new,
            count-append (has_key X.unicode j) rows (row ∷ []),
            member-snoc j k seen,
            is_member_eq k j seen,
            bytes_eq_iff k j,
          )

  add_rows-IsSound :
      (batch : List Row) (st st' : List Row × List Bytes)
      → count (rejected X.unicode c) batch ≡ 0
      → IsSound st
      → add_rows X c batch st ≡ ok st'
      → IsSound st'
  unfolding add_rows
  add_rows-IsSound [] st st' fine sound h = subst IsSound (ok-injective h) sound
  add_rows-IsSound (row ∷ batch) (rows, seen) st' fine sound h =
      let (mid, e, k) =
        bind-ok (add_row X c row (rows, seen) (cell row 0)) (add_rows X c batch) st' h in
      let (title, first) = add_row-title row (rows, seen) (cell row 0) mid e in
      let one_fine : rejected X.unicode c row ≡ false = ground (arith, fine) in
      let e' : add_row X c row (rows, seen) (ok title) ≡ ok mid =
        subst (λ t. add_row X c row (rows, seen) t ≡ ok mid) first e in
      add_rows-IsSound batch mid st' (omega (arith, fine))
        (add_row-IsSound row rows seen title mid one_fine sound first e') k

  pub attempt_rows-IsSound :
      (request collected : Bytes) (attempt : ℕ) (st st' : List Row × List Bytes)
      → IsSound st
      → attempt_rows X c request collected attempt st ≡ ok st'
      → IsSound st'
  unfolding attempt_rows expand_from
  attempt_rows-IsSound request collected attempt (rows, seen) st' sound h =
      let (base, _, k) =
        bind-ok (expand_payload X c request collected attempt rows)
          (expand_from X c attempt (rows, seen)) st' h in
      let (batch, e, l) =
        bind-ok (expand_indexed_batches X c attempt (row_count X c attempt rows) base)
          (λ b. add_rows X c b (rows, seen)) st' k in
      add_rows-IsSound batch (rows, seen) st'
        (expand_sound attempt (row_count X c attempt rows) base batch e) sound l

  abbrev IsEnough : List Row → Type 0
  IsEnough out = (seen : List Bytes) × IsSound (out, seen) × (c.target_rows ≤ length out)

  gather_more_sound :
      (attempt : ℕ) (r : Result TableError (List Row × List Bytes))
      (next : List Row × List Bytes → Result TableError (List Row)) (out : List Row)
      → ((st : List Row × List Bytes) → r ≡ ok st → IsSound st)
      → ((st : List Row × List Bytes) → IsSound st → next st ≡ ok out → IsEnough out)
      → gather_more X c attempt r next ≡ ok out
      → IsEnough out
  unfolding gather_more
  gather_more_sound attempt (err e) next out now later h = cc
  gather_more_sound attempt (ok (rows, seen)) next out now later h =
      elim (Bool-cases (leb c.target_rows (length rows))) [
        | inl full ↦
            let same : rows ≡ out = ok-injective (sym (if_yes _ _ _ full) ∙ h) in
            subst IsEnough same
              (seen, now (rows, seen) refl, leb→le c.target_rows (length rows) full)
        | inr short ↦ elim (Bool-cases (leb c.max_repairs attempt)) [
          | inl over ↦ cc (
            h,
            if_yes (leb c.max_repairs attempt) (err too_few_rows) (next (rows, seen)) over,
            short,
          )
          | inr more ↦
              later (rows, seen) (now (rows, seen) refl)
                (sym (if_no _ _ _ more) ∙ (sym (if_no _ _ _ short) ∙ h))
        ]
      ]

  -- The candidates that the loop returns are enough.
  pub gather_sound :
      (fuel : ℕ) (request collected : Bytes) (attempt : ℕ) (st : List Row × List Bytes)
      (out : List Row)
      → IsSound st
      → gather X c fuel request collected attempt st ≡ ok out
      → IsEnough out
  unfolding gather
  gather_sound zero request collected attempt st out sound h = cc
  gather_sound (suc fuel) request collected attempt st out sound h =
      gather_more_sound attempt (attempt_rows X c request collected attempt st)
        (λ st'. gather X c fuel request collected (suc attempt) st') out
        (λ st' e. attempt_rows-IsSound request collected attempt st st' sound e)
        (λ st' sound' e. gather_sound fuel request collected (suc attempt) st' out sound' e) h
