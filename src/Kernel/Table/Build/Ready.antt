-- ===== src/Kernel/Table/Build/Ready.antt =====
-- One attempt to collect candidates, of pkg/kernel/indexed_table.go, reads no slice out of range if the configuration is
-- valid.
use native.Mathlib.Nat.{le-div_iff_mul-le}
use soyaos.Prelude.{
  ◌+◌, ℕ, zero, suc, ◌-◌, ◌*◌, min, ◌≤◌, ◌<◌, ◌≡◌, refl, sym, ap, ◌∙◌, inl, inr, Bool, true, false,
  not, List, [], ◌∷◌, Option, none, some, Bytes, is_empty, Result, ok, err, ◌>>=◌, bind-ok,
  ok-injective, if_yes, if_no, subst, ◌==◌, ltb, lt→ltb, ==_iff, if_both, length, get_elem?, arith,
  Bool-cases,
}
use soyaos.Soyapack.IndexedTable.{Table, has_none, batches_of, any_blank}
use soyaos.Kernel.Table.{Row, TableError, cell, strict_table_json, matches_indexed_column_rules}
use soyaos.Kernel.Table.Build.{
  Payload, Outside, of_call, ask, read_at, column_name, slice_to, top_rows, size_of, in_partition,
  keep_row, keep_rows, partition_of, batch_rows, ask_batch, run_batch, run_batches,
  expand_indexed_batches, add_row, add_rows, titles, first_payload, repair_text, expand_payload,
  expand_from, row_count, attempt_rows, batch_payload,
}
use soyaos.Kernel.Table.Counts.{count}
use soyaos.Kernel.Table.Build.Rows.{rejected, IsSound, expand_sound}
use soyaos.Kernel.Table.Build.Defined.{
  is_defined, get_elem-some, bind-IsDefined, cell-ok, strict_table_json-IsDefined, InRange,
  matches-IsDefined, keep-IsDefined, append_rows-IsDefined, rejected-length,
}

pub of_call-IsDefined : (o : Option Bytes) → is_defined (of_call o) ≡ true
of_call-IsDefined none = refl
of_call-IsDefined (some content) = refl

read_at-IsDefined :
    {A : Type 0} (xs : List A) (i : ℕ)
    → i < length xs
    → is_defined (read_at (get_elem? xs i)) ≡ true
read_at-IsDefined xs i h = let (x, e) = get_elem-some xs i h in ap (λ o. is_defined (read_at o)) e

slice_to-IsDefined :
    (n : ℕ) (rows : List Row) → n ≤ length rows → is_defined (slice_to n rows) ≡ true
slice_to-IsDefined n rows h = ground (arith, h)

top_rows-IsDefined :
    (negative : Bool) (target : ℕ) (rows : List Row)
    → negative ≡ false
    → is_defined (top_rows negative target rows) ≡ true
top_rows-IsDefined negative target rows h =
    ap is_defined (if_no _ _ _ h) ∙ elim (Bool-cases (ltb target (length rows))) [
      | inl more ↦
          ap is_defined (if_yes _ _ _ more) ∙ slice_to-IsDefined target rows (ground (arith, more))
      | inr few ↦ ap is_defined (if_no _ _ _ few)
    ]

-- A batch before the last begins within the rows.
batch_start :
    (total size index : ℕ)
    → 1 ≤ total
    → 1 ≤ size
    → index < batches_of total size
    → ltb total (index * size) ≡ false
batch_start total size index some_rows sized h =
    let within : suc index * size ≤ total + size - 1 =
      (le-div_iff_mul-le {x = suc index} {y = total + size - 1} sized).0 (omega arith) in
    ground (arith, within)

module _ (X : Outside) (c : Table) where
  -- What `Validate` gives the loops
  abbrev pub IsReady : Type 0
  IsReady =
      (3 ≤ length X.prompts)
      × InRange (length c.columns) c.column_rules
      × (1 ≤ length c.columns)
      × (has_none c.batch_values ≡ false → c.batch_column < length c.columns)
      × (has_none c.batch_values ≡ false
          → (1 ≤ c.batch_size) × (length c.batch_values ≡ batches_of c.candidate_rows c.batch_size))
      × (1 ≤ c.min_per_partition → has_none c.batch_values ≡ false)
      × ((1 ≤ c.target_rows) × (c.target_rows ≤ c.candidate_rows))

  pub ask-IsDefined :
      (attempt : ℕ) (p : Payload)
      → p.step < length X.prompts
      → (p.partitioned ≡ true → c.batch_column < length c.columns)
      → is_defined (ask X c attempt p) ≡ true
  unfolding ask
  ask-IsDefined attempt p h column =
      bind-IsDefined (read_at (get_elem? X.prompts p.step))
        (λ body. column_name X c p >>= λ name. of_call (X.call attempt p))
        (read_at-IsDefined X.prompts p.step h)
        (λ body _.
          bind-IsDefined (column_name X c p) (λ name. of_call (X.call attempt p)) named
            (λ name _. of_call-IsDefined (X.call attempt p)))
    where
      named : is_defined (column_name X c p) ≡ true
      named = elim (Bool-cases p.partitioned) [
        | inl full ↦
            ap is_defined (if_yes _ _ _ full)
            ∙ read_at-IsDefined c.columns c.batch_column (column full)
        | inr free ↦ ap is_defined (if_no _ _ _ free)
      ]

  in_partition-IsDefined :
      (partition : Bytes) (row : Row) (m : Result TableError Bool)
      → (is_empty partition ≡ false → c.batch_column < length row)
      → is_defined m ≡ true
      → is_defined (in_partition X c partition row m) ≡ true
  unfolding in_partition
  in_partition-IsDefined partition row (ok true) h k = elim (Bool-cases (is_empty partition)) [
    | inl empty ↦ ap is_defined (if_yes _ _ _ empty)
    | inr full ↦ let (v, e) = cell-ok row c.batch_column (h full) in rw full (rw e refl)
  ]
  in_partition-IsDefined partition row (ok false) h k = refl
  in_partition-IsDefined partition row (err e) h k = k

  keep_row-IsDefined :
      (partition : Bytes) (row : Row)
      → IsReady
      → (is_empty partition ≡ false → has_none c.batch_values ≡ false)
      → is_defined (keep_row X c partition row) ≡ true
  unfolding keep_row
  keep_row-IsDefined partition row (prompts, rules, wide, column, sizes, share, counts) h =
      elim (Bool-cases (length row == length c.columns)) [
        | inr other ↦ ap is_defined (if_yes _ _ _ (ap not other))
        | inl same ↦
            let long : length row ≡ length c.columns = (==_iff _ _).0 same in
            let rules_met = matches_indexed_column_rules row c.column_rules in
            let met : is_defined rules_met ≡ true =
              matches-IsDefined row c.column_rules
                (subst (λ n. InRange n c.column_rules) (sym long) rules) in
            ap is_defined (if_no _ _ _ (ap not same))
            ∙ if_both (λ (r : Result TableError Bool). is_defined r ≡ true)
                (any_blank X.unicode row) refl
                (in_partition-IsDefined partition row rules_met
                  (λ full. omega (arith, long, column (h full))) met)
      ]

  keep_rows-IsDefined :
      (partition : Bytes) (rows : List Row)
      → IsReady
      → (is_empty partition ≡ false → has_none c.batch_values ≡ false)
      → is_defined (keep_rows X c partition rows) ≡ true
  unfolding keep_rows
  keep_rows-IsDefined partition [] ready h = refl
  keep_rows-IsDefined partition (row ∷ rows) ready h =
      keep-IsDefined (keep_row X c partition row) row (keep_rows X c partition rows)
        (keep_row-IsDefined partition row ready h) (keep_rows-IsDefined partition rows ready h)

  -- A partition that is not empty is one of the configuration's.
  partition_of-full :
      (repair : Bool) (index : ℕ) (partition : Bytes)
      → partition_of X c repair index ≡ ok partition
      → is_empty partition ≡ false
      → has_none c.batch_values ≡ false
  unfolding partition_of
  partition_of-full repair index partition e h = elim (Bool-cases (has_none c.batch_values)) [
    | inl empty ↦
        let same : [] ≡ partition = ok-injective (sym (if_yes _ _ _ empty) ∙ e) in
        cc (h, ap is_empty same)
    | inr full ↦ full
  ]

  run_batch-IsDefined :
      (attempt total size : ℕ) (base : Payload) (index : ℕ)
      → IsReady
      → is_defined (partition_of X c base.repair index) ≡ true
      → ltb total (index * size) ≡ false
      → is_defined (run_batch X c attempt total size base index) ≡ true
  unfolding run_batch ask_batch batch_rows
  run_batch-IsDefined attempt total size base index ready h start =
      let (prompts, rules, wide, column, sizes, share, counts) = ready in
      let target = min size (total - index * size) in
      bind-IsDefined (partition_of X c base.repair index)
        (ask_batch X c attempt total size base index) h
        (λ partition e.
          let payload = batch_payload X c total size base index target partition in
          let negative = ltb total (index * size) in
          bind-IsDefined (ask X c attempt payload) (batch_rows X c partition negative target)
            (ask-IsDefined attempt payload (omega (arith, prompts))
              (λ full. column (ground (arith, full))))
            (λ content _.
              bind-IsDefined (strict_table_json X.decode_rows X.is_end content)
                (λ rows. top_rows negative target rows >>= keep_rows X c partition)
                (strict_table_json-IsDefined X.decode_rows X.is_end content)
                (λ rows _.
                  bind-IsDefined (top_rows negative target rows) (keep_rows X c partition)
                    (top_rows-IsDefined negative target rows start)
                    (λ top _.
                      keep_rows-IsDefined partition top ready
                        (partition_of-full base.repair index partition e)))))

  run_batches-IsDefined :
      (attempt total size : ℕ) (base : Payload) (n : ℕ)
      → IsReady
      → ((index : ℕ)
          → index < n
          → (is_defined (partition_of X c base.repair index) ≡ true)
            × (ltb total (index * size) ≡ false))
      → is_defined (run_batches X c attempt total size base n) ≡ true
  unfolding run_batches
  run_batches-IsDefined attempt total size base zero ready h = refl
  run_batches-IsDefined attempt total size base (suc n) ready h =
      let (named, start) = h n (omega arith) in
      append_rows-IsDefined (run_batches X c attempt total size base n)
        (run_batch X c attempt total size base n)
        (run_batches-IsDefined attempt total size base n ready
          (λ index below. h index (omega arith)))
        (run_batch-IsDefined attempt total size base n ready named start)

  partition_of-IsDefined :
      (repair : Bool) (index : ℕ)
      → (has_none c.batch_values ≡ false → repair ≡ false → index < length c.batch_values)
      → is_defined (partition_of X c repair index) ≡ true
  unfolding partition_of
  partition_of-IsDefined repair index h = elim (Bool-cases (has_none c.batch_values)) [
    | inl empty ↦ ap is_defined (if_yes _ _ _ empty)
    | inr full ↦ elim (Bool-cases repair) [
      | inl again ↦ rw full (rw again refl)
      | inr first ↦
          let (v, e) = get_elem-some c.batch_values index (h full first) in
          rw full (rw first (rw e refl))
    ]
  ]

  expand-IsDefined :
      (attempt total : ℕ) (base : Payload)
      → IsReady
      → (base.repair ≡ false → total ≡ c.candidate_rows)
      → 1 ≤ total
      → is_defined (expand_indexed_batches X c attempt total base) ≡ true
  unfolding expand_indexed_batches
  expand-IsDefined attempt total base (prompts, rules, wide, column, sizes, share, counts) h more =
      let size = size_of X c total in
      let sized_up : 1 ≤ size = ground arith in
      ap is_defined (if_no (size == 0) _ _ (ground (arith, sized_up)))
      ∙ run_batches-IsDefined attempt total size base (batches_of total size)
          (prompts, rules, wide, column, sizes, share, counts)
          (λ index below. (
            partition_of-IsDefined base.repair index (λ full first.
                let (positive, count_values) = sizes full in
                let sized : size ≡ c.batch_size =
                  if_no (c.batch_size == 0) total c.batch_size (ground (arith, positive)) in
                let all : batches_of total size ≡ length c.batch_values =
                  ap (λ n. batches_of total n) sized
                  ∙ (ap (λ n. batches_of n c.batch_size) (h first) ∙ sym count_values) in
                omega (arith, below, all)),
            batch_start total size index more sized_up below,
          ))

  cell_zero :
      (row : Row) → IsReady → rejected X.unicode c row ≡ false → (v : Bytes) × (cell row 0 ≡ ok v)
  cell_zero row ready h = cell-ok row 0 (omega (arith, rejected-length X.unicode c row h, ready.2))

  add_row-ok :
      (row : Row) (st : List Row × List Bytes) (title : Bytes)
      → is_defined (add_row X c row st (ok title)) ≡ true
  unfolding add_row
  add_row-ok row (rows, seen) title = ground arith

  add_rows-IsDefined :
      (batch : List Row) (st : List Row × List Bytes)
      → IsReady
      → count (rejected X.unicode c) batch ≡ 0
      → is_defined (add_rows X c batch st) ≡ true
  unfolding add_rows
  add_rows-IsDefined [] st ready h = refl
  add_rows-IsDefined (row ∷ batch) st ready h =
      let (title, e) = cell_zero row ready (ground (arith, h)) in
      bind-IsDefined (add_row X c row st (cell row 0)) (add_rows X c batch)
        (subst (λ t. is_defined (add_row X c row st t) ≡ true) (sym e) (add_row-ok row st title))
        (λ st' _. add_rows-IsDefined batch st' ready (omega (arith, h)))

  titles-IsDefined :
      (rows : List Row)
      → IsReady
      → count (rejected X.unicode c) rows ≡ 0
      → is_defined (titles X c rows) ≡ true
  unfolding titles
  titles-IsDefined [] ready h = refl
  titles-IsDefined (row ∷ rows) ready h =
      let (title, e) = cell_zero row ready (ground (arith, h)) in
      bind-IsDefined (cell row 0) (λ t. titles X c rows >>= λ ts. ok (t ∷ ts)) (ap is_defined e)
        (λ t _.
          bind-IsDefined (titles X c rows) (λ ts. ok (t ∷ ts))
            (titles-IsDefined rows ready (omega (arith, h))) (λ ts _. refl))

  expand_payload-repair :
      (request collected : Bytes) (attempt : ℕ) (rows : List Row) (base : Payload)
      → expand_payload X c request collected attempt rows ≡ ok base
      → base.repair ≡ ltb 0 attempt
  unfolding expand_payload
  expand_payload-repair request collected zero rows base h =
      ap (λ (b : Payload). b.repair) (sym (ok-injective h))
  expand_payload-repair request collected (suc attempt) rows base h =
      let (ts, _, k) =
        bind-ok (titles X c rows)
          (λ ts. ok (record (first_payload request c) {
            previous = repair_text;
            repair = true;
            existing_titles = ts;
          }))
          base h in
      ap (λ (b : Payload). b.repair) (sym (ok-injective k))
      ∙ sym (lt→ltb 0 (suc attempt) (omega arith))

  pub attempt_rows-IsDefined :
      (request collected : Bytes) (attempt : ℕ) (st : List Row × List Bytes)
      → IsReady
      → IsSound X c st
      → 1 ≤ row_count X c attempt st.0
      → is_defined (attempt_rows X c request collected attempt st) ≡ true
  unfolding attempt_rows expand_from expand_payload
  attempt_rows-IsDefined request collected attempt (rows, seen) ready (fine, once) more =
      bind-IsDefined (expand_payload X c request collected attempt rows)
        (expand_from X c attempt (rows, seen)) (payload_defined attempt)
        (λ base e.
          bind-IsDefined (expand_indexed_batches X c attempt (row_count X c attempt rows) base)
            (λ batch. add_rows X c batch (rows, seen))
            (expand-IsDefined attempt (row_count X c attempt rows) base ready
              (λ first.
                first_count attempt
                  (sym (expand_payload-repair request collected attempt rows base e) ∙ first))
              more)
            (λ batch k.
              add_rows-IsDefined batch (rows, seen) ready
                (expand_sound X c attempt (row_count X c attempt rows) base batch k)))
    where
      payload_defined : (n : ℕ) → is_defined (expand_payload X c request collected n rows) ≡ true
      payload_defined zero = refl
      payload_defined (suc n) =
          bind-IsDefined (titles X c rows)
            (λ ts. ok (record (first_payload request c) {
              previous = repair_text;
              repair = true;
              existing_titles = ts;
            }))
            (titles-IsDefined rows ready fine) (λ ts _. refl)

      first_count : (n : ℕ) → ltb 0 n ≡ false → row_count X c n rows ≡ c.candidate_rows
      first_count zero h = refl
      first_count (suc n) h = ground (arith, h)
