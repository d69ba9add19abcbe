-- ===== src/Kernel/Table/Build/Total.antt =====
-- `buildIndexedTableHandler` of pkg/kernel/indexed_table.go reads no slice out of range, and its loops end.
use soyaos.Prelude.{
  ℕ, zero, suc, ◌+◌, ◌≤◌, ◌<◌, ◌≡◌, refl, ap, ◌∙◌, inl, inr, Bool, true, false, not, ◌||◌, List, [],
  ◌∷◌, Option, none, some, Bytes, Result, ok, err, if_yes, if_no, if◌then◌else◌, ◌==◌, ltb, leb,
  ltb→lt, if_both, length, arith, Bool-cases,
}
use soyaos.Soyapack.{Unicode}
use soyaos.Soyapack.IndexedTable.{
  Table, has_none, batches_of, validate, rows_valid, partitions_valid, share_valid, columns_valid,
}
use soyaos.Soyapack.IndexedTable.Parts.{validate-parts, validate-steps}
use soyaos.Kernel.Table.{
  Row, TableError, bad_selection, too_few_rows, strict_table_json, tagged, pick_rows,
  select_indexed_rows, interleaved, interleave_indexed_partitions,
}
use soyaos.Kernel.Table.Build.{
  enough, Outside, Snapshot, ask, row_count, first_payload, attempt_rows, gather_more, gather,
  with_shares, if_enough, is_panic, choose_more, attempt_selection, choose, choose_payload, publish,
  select_from, order_rows, collect_rows, build_indexed_table,
}
use soyaos.Kernel.Table.Counts.{count, distinct, count-interleave}
use soyaos.Kernel.Table.Picks.{select_indexed_rows-count}
use soyaos.Kernel.Table.Build.Rows.{rejected, IsSound, gather_sound, attempt_rows-IsSound}
use soyaos.Kernel.Table.Build.Defined.{
  is_defined, bind-IsDefined, strict_table_json-IsDefined, rules_valid-InRange, pick_rows-IsDefined,
  tagged-IsDefined,
}
use soyaos.Kernel.Table.Build.Sound.{partitions_distinct}
use soyaos.Kernel.Table.Build.Ready.{ask-IsDefined, IsReady, attempt_rows-IsDefined}

select-IsDefined :
    (X : Outside) (content : Bytes) (rows : List Row) (target : ℕ)
    → is_defined (select_indexed_rows X.decode_selection X.is_end content rows target) ≡ true
unfolding select_indexed_rows
select-IsDefined X content rows target =
    bind-IsDefined (strict_table_json X.decode_selection X.is_end content)
      (λ is. if not (length is == target) then err bad_selection else pick_rows rows [] is)
      (strict_table_json-IsDefined X.decode_selection X.is_end content)
      (λ is _.
        if_both (λ (r : Result TableError (List Row)). is_defined r ≡ true)
          (not (length is == target)) refl (pick_rows-IsDefined rows [] is))

module _ (X : Outside) (c : Table) where
  gather_more-IsDefined :
      (attempt : ℕ) (r : Result TableError (List Row × List Bytes))
      (next : List Row × List Bytes → Result TableError (List Row))
      → is_defined r ≡ true
      → ((st : List Row × List Bytes)
          → r ≡ ok st
          → leb c.target_rows (length st.0) ≡ false
          → leb c.max_repairs attempt ≡ false
          → is_defined (next st) ≡ true)
      → is_defined (gather_more X c attempt r next) ≡ true
  unfolding gather_more
  gather_more-IsDefined attempt (err e) next h k = h
  gather_more-IsDefined attempt (ok (rows, seen)) next h k =
      elim (Bool-cases (leb c.target_rows (length rows))) [
        | inl full ↦ ap is_defined (if_yes _ _ _ full)
        | inr short ↦
            ap is_defined (if_no _ _ _ short) ∙ last_or_next (leb c.max_repairs attempt) short refl
      ]
    where
      last_or_next :
          (b : Bool)
          → leb c.target_rows (length rows) ≡ false
          → leb c.max_repairs attempt ≡ b
          → is_defined (if b then err too_few_rows else next (rows, seen)) ≡ true
      last_or_next true short e = refl
      last_or_next false short e = k (rows, seen) refl short e

  gather-IsDefined :
      (fuel : ℕ) (request collected : Bytes) (attempt : ℕ) (st : List Row × List Bytes)
      → IsReady X c
      → IsSound X c st
      → 1 ≤ row_count X c attempt st.0
      → attempt ≤ c.max_repairs
      → c.max_repairs < attempt + fuel
      → is_defined (gather X c fuel request collected attempt st) ≡ true
  unfolding gather
  gather-IsDefined zero request collected attempt st ready sound some_rows low h =
      absurd (omega arith)
  gather-IsDefined (suc fuel) request collected attempt st ready sound some_rows low h =
      gather_more-IsDefined attempt (attempt_rows X c request collected attempt st)
        (λ st'. gather X c fuel request collected (suc attempt) st')
        (attempt_rows-IsDefined X c request collected attempt st ready sound some_rows)
        (λ st' e short more.
          gather-IsDefined fuel request collected (suc attempt) st' ready
            (attempt_rows-IsSound X c request collected attempt st st' sound e)
            (ground (arith, short)) (ground (arith, more)) (omega (arith, h)))

  with_shares-IsDefined :
      (selected : List Row)
      → IsReady X c
      → count (rejected X.unicode c) selected ≡ 0
      → is_defined (with_shares X c selected) ≡ true
  unfolding with_shares if_enough
  with_shares-IsDefined selected (prompts, rules, wide, column, sizes, share, counts) fine =
      elim (Bool-cases (ltb 0 c.min_per_partition)) [
        | inl wanted ↦
            let inside = column (share (ltb→lt 0 c.min_per_partition wanted)) in
            ap is_defined (if_yes _ _ _ wanted)
            ∙ bind-IsDefined (tagged c.batch_column selected) (if_enough X c selected)
                (tagged-IsDefined X.unicode c selected inside fine)
                (λ tags _.
                  if_both (λ (r : Result TableError (List Row)). is_defined r ≡ true)
                    (enough c.min_per_partition c.batch_values tags) refl refl)
        | inr free ↦ ap is_defined (if_no _ _ _ free)
      ]

  attempt_selection-IsDefined :
      (rows : List Row) (content : Bytes)
      → IsReady X c
      → count (rejected X.unicode c) rows ≡ 0
      → is_defined (attempt_selection X c rows content) ≡ true
  unfolding attempt_selection
  attempt_selection-IsDefined rows content ready fine =
      let picks = select_indexed_rows X.decode_selection X.is_end content rows c.target_rows in
      bind-IsDefined picks (with_shares X c) (select-IsDefined X content rows c.target_rows)
        (λ selected e.
          let fewer =
            (select_indexed_rows-count X.decode_selection X.is_end content rows c.target_rows
              selected e).0 in
          with_shares-IsDefined selected ready (omega (arith, fewer (rejected X.unicode c), fine)))

  choose_more-IsDefined :
      (attempt : ℕ) (r : Result TableError (List Row))
      (next : TableError → Result TableError (List Row))
      → is_defined r ≡ true
      → ((e : TableError) → leb c.max_repairs attempt ≡ false → is_defined (next e) ≡ true)
      → is_defined (choose_more X c attempt r next) ≡ true
  unfolding choose_more
  choose_more-IsDefined attempt (ok s) next h k = refl
  choose_more-IsDefined attempt (err e) next h k =
      elim (Bool-cases (is_panic e || leb c.max_repairs attempt)) [
        | inl over ↦ ap is_defined (if_yes _ _ _ over) ∙ h
        | inr more ↦ ap is_defined (if_no _ _ _ more) ∙ k e (ground (arith, more))
      ]

  choose-IsDefined :
      (fuel : ℕ) (request : Bytes) (rows : List Row) (attempt : ℕ) (failure : Option TableError)
      → IsReady X c
      → count (rejected X.unicode c) rows ≡ 0
      → attempt ≤ c.max_repairs
      → c.max_repairs < attempt + fuel
      → is_defined (choose X c fuel request rows attempt failure) ≡ true
  unfolding choose
  choose-IsDefined zero request rows attempt failure ready fine low h = absurd (omega arith)
  choose-IsDefined (suc fuel) request rows attempt failure ready fine low h =
      bind-IsDefined (ask X c attempt (choose_payload X c request rows attempt failure))
        (λ content.
          choose_more X c attempt (attempt_selection X c rows content)
            (λ e. choose X c fuel request rows (suc attempt) (some e)))
        (ask-IsDefined X c attempt (choose_payload X c request rows attempt failure)
          (omega (arith, ready.0)) (λ e. cc))
        (λ content _.
          choose_more-IsDefined attempt (attempt_selection X c rows content)
            (λ e. choose X c fuel request rows (suc attempt) (some e))
            (attempt_selection-IsDefined rows content ready fine)
            (λ e more.
              choose-IsDefined fuel request rows (suc attempt) (some e) ready fine
                (ground (arith, more)) (omega (arith, h))))

  interleave-IsDefined :
      (rows : List Row)
      → IsReady X c
      → count (rejected X.unicode c) rows ≡ 0
      → is_defined (interleave_indexed_partitions rows c) ≡ true
  unfolding interleave_indexed_partitions
  interleave-IsDefined rows (prompts, rules, wide, column, sizes, share, counts) fine =
      elim (Bool-cases (has_none c.batch_values)) [
        | inl empty ↦ ap is_defined (if_yes _ _ _ empty)
        | inr full ↦
            ap is_defined (if_no _ _ _ full)
            ∙ bind-IsDefined (tagged c.batch_column rows)
                (λ tags. ok (interleaved c.batch_values tags))
                (tagged-IsDefined X.unicode c rows (column full) fine) (λ tags _. refl)
      ]

  collect_rows-IsDefined :
      (request : Bytes) (expired : Bool) (collected : Bytes)
      → IsReady X c
      → distinct c.batch_values ≡ true
      → is_defined (collect_rows X c request expired collected) ≡ true
  unfolding collect_rows order_rows select_from publish
  collect_rows-IsDefined request expired collected ready apart =
      bind-IsDefined (gather X c (suc c.max_repairs) request collected 0 ([], []))
        (order_rows X c request expired)
        (gather-IsDefined (suc c.max_repairs) request collected 0 ([], []) ready
          (refl, λ k. omega arith) (omega (arith, ready.6)) (omega arith) (omega arith))
        (λ rows e.
          let (seen, (fine, once), _) =
            gather_sound X c (suc c.max_repairs) request collected 0 ([], []) rows
              (refl, λ k. omega arith) e in
          bind-IsDefined (interleave_indexed_partitions rows c) (select_from X c request expired)
            (interleave-IsDefined rows ready fine)
            (λ candidates k.
              let same = count-interleave (rejected X.unicode c) rows candidates c apart k in
              bind-IsDefined (choose X c (suc c.max_repairs) request candidates 0 none)
                (publish X c request expired)
                (choose-IsDefined (suc c.max_repairs) request candidates 0 none ready (same ∙ fine)
                  (omega arith) (omega arith))
                (λ selected _.
                  if_both (λ (r : Result TableError Snapshot). is_defined r ≡ true) expired refl
                    refl)))

nonempty : {A : Type 0} (xs : List A) → has_none xs ≡ false → 1 ≤ length xs
nonempty [] h = cc
nonempty (x ∷ xs) h = omega arith

columns_valid-nonempty : (U : Unicode) (c : Table) → columns_valid U c ≡ true → 1 ≤ length c.columns
unfolding columns_valid
columns_valid-nonempty U c h = nonempty c.columns (ground (arith, h))

partitions_valid-column :
    (U : Unicode) (c : Table)
    → partitions_valid U c ≡ true
    → has_none c.batch_values ≡ false
    → (c.batch_column < length c.columns)
      × (1 ≤ c.batch_size)
      × (length c.batch_values ≡ batches_of c.candidate_rows c.batch_size)
unfolding partitions_valid
partitions_valid-column U c h full = ground (arith, h, full)

share_valid-full :
    (U : Unicode) (c : Table)
    → share_valid U c ≡ true
    → 1 ≤ c.min_per_partition
    → has_none c.batch_values ≡ false
unfolding share_valid
share_valid-full U c h wanted = ground (arith, h, wanted)

rows_valid-bounds :
    (c : Table) → rows_valid c ≡ true → (1 ≤ c.target_rows) × (c.target_rows ≤ c.candidate_rows)
unfolding rows_valid
rows_valid-bounds c h = ground (arith, h)

validate-IsReady :
    (X : Outside) (c : Table) → validate X.unicode (length X.prompts) c ≡ true → IsReady X c
validate-IsReady X c h =
    let steps = length X.prompts in
    let (rows, batches, partitions, share, columns, rules) = validate-parts X.unicode steps c h in
    (
      omega (arith, validate-steps X.unicode steps c h),
      rules_valid-InRange X.unicode (length c.columns) [] c.column_rules rules,
      columns_valid-nonempty X.unicode c columns,
      λ full. (partitions_valid-column X.unicode c partitions full).0,
      λ full.
          let (_, size, values) = partitions_valid-column X.unicode c partitions full in
          (size, values),
      share_valid-full X.unicode c share,
      rows_valid-bounds c rows,
    )

-- Whatever the model answers, the handler reads no slice out of range (the prompts, the columns
-- and cells, the partitions, the answers cut to their batch and the rows of a selection), divides
-- by no batch size of 0, and its loops end within the attempts that the configuration allows, for
-- every configuration, prompts and request.
pub build-IsDefined :
    (X : Outside) (c : Table) (request : Bytes) (expired : Bool)
    → is_defined (build_indexed_table X c request expired) ≡ true
unfolding build_indexed_table
build-IsDefined X c request expired = elim (Bool-cases (validate X.unicode (length X.prompts) c)) [
  | inr bad ↦ ap is_defined (if_yes _ _ _ (ap not bad))
  | inl good ↦
      let ready = validate-IsReady X c good in
      ap is_defined (if_no _ _ _ (ap not good))
      ∙ bind-IsDefined (ask X c 0 (first_payload request c)) (collect_rows X c request expired)
          (ask-IsDefined X c 0 (first_payload request c) (omega (arith, ready.0)) (λ e. cc))
          (λ collected _. collect_rows-IsDefined X c request expired collected ready (
            partitions_distinct X.unicode c (validate-parts X.unicode (length X.prompts) c good).2))
]
