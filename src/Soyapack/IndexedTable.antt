-- ===== src/Soyapack/IndexedTable.antt =====
-- pkg/soyapack/manifest.go: `IndexedTable`, the configuration of a table that a model fills in, and its validation. The
-- numbers are natural numbers: a negative one is refused by `Validate`, or never read.
pub mod Parts
use soyaos.Prelude.{
  ℕ, ◌+◌, ◌-◌, ◌/◌, Bool, true, false, not, ◌&&◌, ◌||◌, List, [], ◌∷◌, Bytes, codes, is_empty,
  has_prefix, ltb, ◌==◌, length, if◌then◌else◌,
}
use soyaos.Soyapack.{Unicode, is_blank, has_suffix, contains_any, is_member}

-- `IndexedColumnRule`
pub record ColumnRule : Type 0 where
  pub column : ℕ
  pub allowed_values : List Bytes
  pub forbidden_substrings : List Bytes
  pub prefix : Bytes
  pub suffix : Bytes

pub record Table : Type 0 where
  pub target_rows : ℕ
  pub candidate_rows : ℕ
  pub columns : List Bytes
  pub sheet_name : Bytes
  pub max_repairs : ℕ
  pub timeout_seconds : ℕ
  pub batch_size : ℕ
  pub max_concurrency : ℕ
  pub column_rules : List ColumnRule
  pub batch_column : ℕ
  pub batch_values : List Bytes
  pub min_per_partition : ℕ

abbrev pub has_none {ℓ} : {A : Type ℓ} → List A → Bool
has_none [] = true
has_none (x ∷ xs) = false

-- The batches of so many rows: a division that rounds up
abbrev pub batches_of : ℕ → ℕ → ℕ
batches_of count size = (count + size - 1) / size

abbrev pub forbidden_chars : Bytes
forbidden_chars = codes "[]:*?/\\"

abbrev quote : Bytes
quote = codes "'"

-- The limits on the rows
unfoldable pub rows_valid : Table → Bool
rows_valid c =
    not (ltb c.target_rows 1 || (ltb c.candidate_rows c.target_rows || ltb 10000 c.candidate_rows))

-- The limits on the batches, where there are any
unfoldable pub batches_valid : Table → Bool
batches_valid c =
    if c.batch_size == 0 && c.max_concurrency == 0
    then true
    else not (
        ltb c.batch_size 1
        || (ltb c.candidate_rows c.batch_size
            || (ltb c.max_concurrency 1 || ltb 8 c.max_concurrency)))
      && not (ltb 100 (batches_of c.candidate_rows c.batch_size))

unfoldable pub effort_valid : Table → Bool
effort_valid c =
    not (ltb 3 c.max_repairs || (ltb c.timeout_seconds 1 || ltb 3600 c.timeout_seconds))

module _ (U : Unicode) where
  -- The loops that refuse a blank or a repeated text
  unfoldable pub texts_valid : List Bytes → List Bytes → Bool
  texts_valid seen [] = true
  texts_valid seen (t ∷ ts) =
      let rest = texts_valid (t ∷ seen) ts in
      if is_blank U t || is_member t seen then false else rest

  unfoldable pub partitions_valid : Table → Bool
  unfolding texts_valid
  partitions_valid c =
      if has_none c.batch_values
      then true
      else if ltb c.batch_size 1
          || (not (ltb c.batch_column (length c.columns))
              || not (length c.batch_values == batches_of c.candidate_rows c.batch_size))
      then false
      else texts_valid [] c.batch_values

  unfoldable pub share_valid : Table → Bool
  share_valid c = not (
      ltb 0 c.min_per_partition
      && (has_none c.batch_values
          || ltb (c.target_rows / length c.batch_values) c.min_per_partition))

  unfoldable pub columns_valid : Table → Bool
  unfolding texts_valid
  columns_valid c =
      if has_none c.columns || ltb 100 (length c.columns) then false else texts_valid [] c.columns

  unfoldable pub sheet_valid : Bytes → Bool
  sheet_valid s = not (
      is_blank U s
      || (ltb 31 (U.rune_count s)
          || (contains_any s forbidden_chars || (has_prefix s quote || has_suffix s quote))))

  unfoldable pub any_blank : List Bytes → Bool
  any_blank [] = false
  any_blank (s ∷ ss) = is_blank U s || any_blank ss

  seen_column : ℕ → List ℕ → Bool
  seen_column n [] = false
  seen_column n (m ∷ ms) = m == n || seen_column n ms

  without_test : ColumnRule → Bool
  without_test r =
      (has_none r.allowed_values && has_none r.forbidden_substrings)
      && (is_empty r.prefix && is_empty r.suffix)

  unfoldable pub rules_valid : ℕ → List ℕ → List ColumnRule → Bool
  unfolding seen_column any_blank without_test
  rules_valid width seen [] = true
  rules_valid width seen (r ∷ rs) =
      let rest = rules_valid width (r.column ∷ seen) rs in
      if not (ltb r.column width) || seen_column r.column seen
      then false
      else if without_test r
      then false
      else if any_blank r.allowed_values || any_blank r.forbidden_substrings
      then false
      else rest

  -- `IndexedTable.Validate`
  unfoldable pub validate : ℕ → Table → Bool
  unfolding rows_valid batches_valid effort_valid partitions_valid share_valid columns_valid
      sheet_valid rules_valid
  validate steps c =
      if not (steps == 3)
      then false
      else if not (rows_valid c)
      then false
      else if not (batches_valid c)
      then false
      else if not (effort_valid c)
      then false
      else if not (partitions_valid c)
      then false
      else if not (share_valid c)
      then false
      else if not (columns_valid c)
      then false
      else if not (sheet_valid c.sheet_name)
      then false
      else rules_valid (length c.columns) [] c.column_rules
