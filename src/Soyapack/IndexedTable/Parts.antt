-- ===== src/Soyapack/IndexedTable/Parts.antt =====
-- What a configuration that passes `IndexedTable.Validate` of pkg/soyapack/manifest.go has passed.
use soyaos.Prelude.{ℕ, ◌≡◌, true, ◌==◌, ==_iff, [], length, passes}
use soyaos.Soyapack.{Unicode}
use soyaos.Soyapack.IndexedTable.{
  Table, rows_valid, batches_valid, effort_valid, partitions_valid, share_valid, columns_valid,
  sheet_valid, rules_valid, validate,
}

-- The handler has three steps.
pub validate-steps : (U : Unicode) (steps : ℕ) (c : Table) → validate U steps c ≡ true → steps ≡ 3
unfolding validate
validate-steps U steps c h = (==_iff steps 3).0 (passes (steps == 3) _ h).0

pub validate-parts :
    (U : Unicode) (steps : ℕ) (c : Table)
    → validate U steps c ≡ true
    → (rows_valid c ≡ true)
      × (batches_valid c ≡ true)
      × (partitions_valid U c ≡ true)
      × (share_valid U c ≡ true)
      × (columns_valid U c ≡ true)
      × (rules_valid U (length c.columns) [] c.column_rules ≡ true)
unfolding validate
validate-parts U steps c h =
    let (_, h1) = passes (steps == 3) _ h in
    let (rows, h2) = passes (rows_valid c) _ h1 in
    let (batches, h3) = passes (batches_valid c) _ h2 in
    let (_, h4) = passes (effort_valid c) _ h3 in
    let (partitions, h5) = passes (partitions_valid U c) _ h4 in
    let (share, h6) = passes (share_valid U c) _ h5 in
    let (columns, h7) = passes (columns_valid U c) _ h6 in
    let (_, rules) = passes (sheet_valid U c.sheet_name) _ h7 in
    (rows, batches, partitions, share, columns, rules)
