-- ===== src/Kernel/Table/Build/Sound.antt =====
-- What a table is that `buildIndexedTableHandler` of pkg/kernel/indexed_table.go publishes.
use soyaos.Prelude.{
  ℕ, zero, suc, ◌≤◌, ◌≡◌, refl, sym, ap, ◌∙◌, inl, inr, Bool, true, false, not, ◌||◌, List, [], ◌∷◌,
  Option, none, some, Bytes, bytes_eq, bytes_eq_iff, Result, ok, err, ◌>>=◌, bind-ok, ok-injective,
  if_yes, if_no, subst, ltb, leb, length, All, arith, Bool-cases,
}
use soyaos.Soyapack.{Unicode, is_member}
use soyaos.Soyapack.IndexedTable.{Table, has_none, validate, partitions_valid}
use soyaos.Soyapack.IndexedTable.Parts.{validate-parts}
use soyaos.Kernel.Table.{
  Row, TableError, bad_config, bad_selection, cell, select_indexed_rows, tagged, bucket,
  interleave_indexed_partitions,
}
use soyaos.Kernel.Table.Build.{
  Outside, Snapshot, ask, is_panic, enough, with_shares, if_enough, choose_more, attempt_selection,
  choose_payload, choose, gather, publish, select_from, order_rows, collect_rows, first_payload,
  build_indexed_table,
}
use soyaos.Kernel.Table.Counts.{
  one, count, distinct, texts_valid-distinct, with_tag-ok, count-interleave,
}
use soyaos.Kernel.Table.Picks.{select_indexed_rows-count}
use soyaos.Kernel.Table.Build.Rows.{acceptable, rejected, has_key, gather_sound}

abbrev is_text : Result TableError Bytes → Bytes → Bool
is_text (ok u) v = bytes_eq u v
is_text (err e) v = false

-- Whether a row belongs to a partition
abbrev pub stands_in : Table → Bytes → Row → Bool
stands_in c v row = is_text (cell row c.batch_column) v

length-bucket :
    (c : Table) (v : Bytes) (rows : List Row) (tags : List (Bytes × Row))
    → tagged c.batch_column rows ≡ ok tags
    → length (bucket v tags) ≡ count (stands_in c v) rows
length-bucket c v [] tags h = ap (λ t. length (bucket v t)) (sym (ok-injective h))
length-bucket c v (row ∷ rows) tags h =
    let (x, r, first, e, k) =
      with_tag-ok (cell row c.batch_column) row (tagged c.batch_column rows) tags h in
    let here : stands_in c v row ≡ bytes_eq x v = ap (λ t. is_text t v) first in
    ap (λ t. length (bucket v t)) k ∙ ground (arith, here, length-bucket c v rows r e)

enough_least :
    (least : ℕ) (vs : List Bytes) (tags : List (Bytes × Row)) (v : Bytes)
    → enough least vs tags ≡ true
    → is_member v vs ≡ true
    → least ≤ length (bucket v tags)
enough_least least [] tags v h m = cc
enough_least least (u ∷ us) tags v h m = elim (Bool-cases (bytes_eq u v)) [
  | inl same ↦
      let e : length (bucket u tags) ≡ length (bucket v tags) =
        ap (λ x. length (bucket x tags)) ((bytes_eq_iff u v).0 same) in
      ground (arith, h, e)
  | inr other ↦ enough_least least us tags v (ground (arith, h)) (ground (arith, m, other))
]

none_rejected :
    (U : Unicode) (c : Table) (rows : List Row)
    → count (rejected U c) rows ≡ 0
    → All (λ row. acceptable U c row ≡ true) rows
none_rejected U c [] h = tt
none_rejected U c (row ∷ rows) h = (ground (arith, h), none_rejected U c rows (omega arith))

module _ (X : Outside) (c : Table) where
  abbrev HasShares : List Row → Type 0
  HasShares rows =
      (v : Bytes)
      → is_member v c.batch_values ≡ true
      → c.min_per_partition ≤ count (stands_in c v) rows

  with_shares-HasShares :
      (selected out : List Row)
      → with_shares X c selected ≡ ok out
      → (selected ≡ out) × HasShares out
  unfolding with_shares if_enough
  with_shares-HasShares selected out h = elim (Bool-cases (ltb 0 c.min_per_partition)) [
    | inl wanted ↦
        let (tags, t, k) =
          bind-ok (tagged c.batch_column selected) (if_enough X c selected) out
            (sym (if_yes _ _ _ wanted) ∙ h) in
        elim (Bool-cases (enough c.min_per_partition c.batch_values tags)) [
          | inl plenty ↦
              let same : selected ≡ out = ok-injective (sym (if_yes _ _ _ plenty) ∙ k) in
              (
                same,
                subst HasShares same (λ v m.
                    subst (λ n. c.min_per_partition ≤ n) (length-bucket c v selected tags t)
                      (enough_least c.min_per_partition c.batch_values tags v plenty m)),
              )
          | inr few ↦ cc (
            k,
            if_no (enough c.min_per_partition c.batch_values tags) (ok selected) (err bad_selection)
                few,
          )
        ]
    | inr free ↦ (ok-injective (sym (if_no _ _ _ free) ∙ h), λ v m. ground (arith, free))
  ]

  -- What is selected from the candidates
  abbrev IsSelection : List Row → List Row → Type 0
  IsSelection rows out =
      ((p : Row → Bool) → count p out ≤ count p rows) × (length out ≡ c.target_rows) × HasShares out

  attempt_selection-IsSelection :
      (rows : List Row) (content : Bytes) (out : List Row)
      → attempt_selection X c rows content ≡ ok out
      → IsSelection rows out
  unfolding attempt_selection
  attempt_selection-IsSelection rows content out h =
      let picks = select_indexed_rows X.decode_selection X.is_end content rows c.target_rows in
      let (selected, e, k) = bind-ok picks (with_shares X c) out h in
      let (same, shares) = with_shares-HasShares selected out k in
      let (fewer, long) =
        select_indexed_rows-count X.decode_selection X.is_end content rows c.target_rows selected
          e in
      (
        subst (λ (s : List Row). (p : Row → Bool) → count p s ≤ count p rows) same fewer,
        subst (λ (s : List Row). length s ≡ c.target_rows) same long,
        shares,
      )

  choose_more-IsSelection :
      (rows : List Row) (attempt : ℕ) (r : Result TableError (List Row))
      (next : TableError → Result TableError (List Row)) (out : List Row)
      → ((s : List Row) → r ≡ ok s → IsSelection rows s)
      → ((e : TableError) → next e ≡ ok out → IsSelection rows out)
      → choose_more X c attempt r next ≡ ok out
      → IsSelection rows out
  unfolding choose_more
  choose_more-IsSelection rows attempt (ok s) next out now later h = now out h
  choose_more-IsSelection rows attempt (err e) next out now later h =
      elim (Bool-cases (is_panic e || leb c.max_repairs attempt)) [
        | inl over ↦ cc (h, if_yes (is_panic e || leb c.max_repairs attempt) (err e) (next e) over)
        | inr more ↦ later e (sym (if_no _ _ _ more) ∙ h)
      ]

  choose-IsSelection :
      (fuel : ℕ) (request : Bytes) (rows : List Row) (attempt : ℕ) (failure : Option TableError)
      (out : List Row)
      → choose X c fuel request rows attempt failure ≡ ok out
      → IsSelection rows out
  unfolding choose
  choose-IsSelection zero request rows attempt failure out h = cc
  choose-IsSelection (suc fuel) request rows attempt failure out h =
      let (content, _, k) =
        bind-ok (ask X c attempt (choose_payload X c request rows attempt failure))
          (λ content.
            choose_more X c attempt (attempt_selection X c rows content)
              (λ e. choose X c fuel request rows (suc attempt) (some e)))
          out h in
      choose_more-IsSelection rows attempt (attempt_selection X c rows content)
        (λ e. choose X c fuel request rows (suc attempt) (some e)) out
        (λ s e. attempt_selection-IsSelection rows content s e)
        (λ e l. choose-IsSelection fuel request rows (suc attempt) (some e) out l) k

none_distinct : (vs : List Bytes) → has_none vs ≡ true → distinct vs ≡ true
none_distinct [] h = refl
none_distinct (v ∷ vs) h = cc

pub partitions_distinct :
    (U : Unicode) (c : Table) → partitions_valid U c ≡ true → distinct c.batch_values ≡ true
unfolding partitions_valid
partitions_distinct U c h =
    ground (arith, h, none_distinct c.batch_values, texts_valid-distinct U [] c.batch_values)

abbrev IsTable : (X : Outside) (c : Table) → List Row → Type 0
IsTable X c rows =
    (length rows ≡ c.target_rows)
    × All (λ row. acceptable X.unicode c row ≡ true) rows
    × ((k : Bytes) → count (has_key X.unicode k) rows ≤ 1)
    × HasShares X c rows

one_le : (b : Bool) → one b ≤ 1
one_le true = omega arith
one_le false = omega arith

published :
    (X : Outside) (c : Table) (request : Bytes) (expired : Bool) (rows : List Row)
    (table : Snapshot)
    → publish X c request expired rows ≡ ok table
    → rows ≡ table.rows
unfolding publish
published X c request true rows table h = cc
published X c request false rows table h = ap (λ (s : Snapshot). s.rows) (ok-injective h)

collect_rows_sound :
    (X : Outside) (c : Table) (request : Bytes) (expired : Bool) (collected : Bytes)
    (table : Snapshot)
    → distinct c.batch_values ≡ true
    → collect_rows X c request expired collected ≡ ok table
    → IsTable X c table.rows
unfolding collect_rows order_rows select_from
collect_rows_sound X c request expired collected table apart h =
    let (rows, e1, h1) =
      bind-ok (gather X c (suc c.max_repairs) request collected 0 ([], []))
        (order_rows X c request expired) table h in
    let (candidates, e2, h2) =
      bind-ok (interleave_indexed_partitions rows c) (select_from X c request expired) table h1 in
    let (selected, e3, h3) =
      bind-ok (choose X c (suc c.max_repairs) request candidates 0 none)
        (publish X c request expired) table h2 in
    let (seen, (fine, once), _) =
      gather_sound X c (suc c.max_repairs) request collected 0 ([], []) rows
        (refl, λ k. omega arith) e1 in
    let (fewer, long, shares) =
      choose-IsSelection X c (suc c.max_repairs) request candidates 0 none selected e3 in
    let same = λ (p : Row → Bool). count-interleave p rows candidates c apart e2 in
    subst (IsTable X c) (published X c request expired selected table h3) (
      long,
      none_rejected X.unicode c selected
          (omega (arith, fewer (rejected X.unicode c), same (rejected X.unicode c), fine)),
      λ k. omega (
        arith,
        fewer (has_key X.unicode k),
        same (has_key X.unicode k),
        once k,
        one_le (is_member k seen),
      ),
      shares,
    )

-- A table that is published has the number of rows that the configuration asks for; each has a
-- text in every column and meets the rules of the columns; no two have the same title, but for
-- spaces and case; and of each partition there are at least as many as the configuration asks for.
pub table_sound :
    (X : Outside) (c : Table) (request : Bytes) (expired : Bool) (table : Snapshot)
    → build_indexed_table X c request expired ≡ ok table
    → (length table.rows ≡ c.target_rows)
      × All (λ row. acceptable X.unicode c row ≡ true) table.rows
      × ((k : Bytes) → count (has_key X.unicode k) table.rows ≤ 1)
      × ((v : Bytes)
          → is_member v c.batch_values ≡ true
          → c.min_per_partition ≤ count (stands_in c v) table.rows)
unfolding build_indexed_table
table_sound X c request expired table h =
    elim (Bool-cases (validate X.unicode (length X.prompts) c)) [
      | inr bad ↦ cc (
        h,
        if_yes (not (validate X.unicode (length X.prompts) c)) (err bad_config)
            (ask X c 0 (first_payload request c) >>= collect_rows X c request expired) (ap not bad),
      )
      | inl good ↦
          let (collected, _, h1) =
            bind-ok (ask X c 0 (first_payload request c)) (collect_rows X c request expired) table
              (sym (if_no _ _ _ (ap not good)) ∙ h) in
          collect_rows_sound X c request expired collected table
            (partitions_distinct X.unicode c (validate-parts X.unicode (length X.prompts) c good).2)
            h1
    ]
