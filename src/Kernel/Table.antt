-- ===== src/Kernel/Table.antt =====
-- pkg/kernel/indexed_table.go: the pieces of the handler that builds a table from the answers of a model, before the
-- loops (Kernel/Table/Build). `encoding/json` is a parameter: what a decoder reads, and whether it is then at the end.
pub mod Build
pub mod Counts
pub mod Picks
use soyaos.Prelude.{
  ℕ, zero, suc, ◌+◌, ◌-◌, ◌*◌, ◌/◌, min, Bool, true, false, not, ◌&&◌, ◌||◌, List, [], ◌∷◌, ◌++◌,
  Option, none, some, Bytes, bytes_eq, has_prefix, is_empty, Result, ok, err, ◌>>=◌, ltb, leb, ◌==◌,
  if◌then◌else◌, length, get_elem?, take, drop,
}
use soyaos.Soyapack.{Unicode, is_blank, contains, has_suffix, is_member}
use soyaos.Soyapack.IndexedTable.{Table, ColumnRule, has_none}

abbrev pub Row : Type 0
Row = List Bytes

-- The errors of the handler, a panic, and fuel that does not last
pub data TableError : Type 0 where
  bad_config call_failed bad_json bad_row too_few_rows bad_selection panicked out_of_fuel :
      TableError

-- `row[i]`
abbrev pub cell : Row → ℕ → Result TableError Bytes
cell [] i = err panicked
cell (v ∷ row) zero = ok v
cell (v ∷ row) (suc i) = cell row i

-- `strictTableJSON`: one value, and nothing behind it
unfoldable pub strict_table_json :
    {A : Type 0} → (Bytes → Option (A × Bytes)) → (Bytes → Bool) → Bytes → Result TableError A
strict_table_json {A} decode is_end content = checked (decode content)
  where
    checked : Option (A × Bytes) → Result TableError A
    checked none = err bad_json
    checked (some (a, rest)) = if is_end rest then ok a else err bad_json

abbrev contains_one : Bytes → List Bytes → Bool
contains_one v [] = false
contains_one v (p ∷ ps) = contains v p || contains_one v ps

-- One round of the loop of `matchesIndexedColumnRules`
unfoldable pub rule_matches : Bytes → ColumnRule → Bool
rule_matches v r =
    if contains_one v r.forbidden_substrings
    then false
    else if not (has_prefix v r.prefix) || not (has_suffix v r.suffix)
    then false
    else has_none r.allowed_values || is_member v r.allowed_values

abbrev pub after_rule :
    ColumnRule → Result TableError Bool → Result TableError Bytes → Result TableError Bool
after_rule r rest (ok v) = if rule_matches v r then rest else ok false
after_rule r rest (err e) = err e

-- `matchesIndexedColumnRules`
unfoldable pub matches_indexed_column_rules : Row → List ColumnRule → Result TableError Bool
matches_indexed_column_rules row [] = ok true
matches_indexed_column_rules row (r ∷ rs) =
    after_rule r (matches_indexed_column_rules row rs) (cell row r.column)

-- An index of a selection: `int` has negative numbers too.
pub data ℤ : Type 0 where
  pos negsuc : ℕ → ℤ

-- The position that `rows[index-1]` reads, if the index is not below 1
abbrev pub position : ℤ → Option ℕ
position (pos zero) = none
position (pos (suc i)) = some i
position (negsuc n) = none

abbrev pub seen_index : ℕ → List ℕ → Bool
seen_index i [] = false
seen_index i (j ∷ js) = j == i || seen_index i js

-- The loop of `selectIndexedRows`
abbrev pub with_row : Row → Result TableError (List Row) → Result TableError (List Row)
with_row row (ok rows) = ok (row ∷ rows)
with_row row (err e) = err e

-- `rows[index-1]`, which panics where it is out of range
abbrev pub read_row : Option Row → Result TableError (List Row) → Result TableError (List Row)
read_row none rest = err panicked
read_row (some row) rest = with_row row rest

-- The test of an index that is not below 1, and the read behind it
abbrev pub pick_row :
    List Row → List ℕ → ℕ → Result TableError (List Row) → Result TableError (List Row)
pick_row rows seen i rest =
    if leb (length rows) i || seen_index i seen
    then err bad_selection
    else read_row (get_elem? rows i) rest

unfoldable pub pick_rows : List Row → List ℕ → List ℤ → Result TableError (List Row)
pick_rows rows seen [] = ok []
pick_rows rows seen (pos zero ∷ is) = err bad_selection
pick_rows rows seen (pos (suc i) ∷ is) = pick_row rows seen i (pick_rows rows (i ∷ seen) is)
pick_rows rows seen (negsuc n ∷ is) = err bad_selection

-- `selectIndexedRows`
unfoldable pub select_indexed_rows :
    (Bytes → Option (List ℤ × Bytes))
    → (Bytes → Bool)
    → Bytes
    → List Row
    → ℕ
    → Result TableError (List Row)
unfolding pick_rows
select_indexed_rows decode is_end content rows target =
    strict_table_json decode is_end content >>= λ indices.
    if not (length indices == target) then err bad_selection else pick_rows rows [] indices

-- Rows with their cells in the column of the partitions
abbrev pub with_tag :
    Result TableError Bytes
    → Row
    → Result TableError (List (Bytes × Row))
    → Result TableError (List (Bytes × Row))
with_tag (ok v) row (ok rest) = ok ((v, row) ∷ rest)
with_tag (ok v) row (err e) = err e
with_tag (err e) row rest = err e

abbrev pub tagged : ℕ → List Row → Result TableError (List (Bytes × Row))
tagged column [] = ok []
tagged column (row ∷ rows) = with_tag (cell row column) row (tagged column rows)

-- The rows of a partition, and those of none
abbrev pub bucket : Bytes → List (Bytes × Row) → List Row
bucket value [] = []
bucket value ((v, row) ∷ rows) =
    let rest = bucket value rows in if bytes_eq v value then row ∷ rest else rest

abbrev pub others : List Bytes → List (Bytes × Row) → List Row
others values [] = []
others values ((v, row) ∷ rows) =
    let rest = others values rows in if is_member v values then rest else row ∷ rest

abbrev pub buckets : List Bytes → List (Bytes × Row) → List (List Row)
buckets [] rows = []
buckets (v ∷ vs) rows = bucket v rows ∷ buckets vs rows

abbrev pub push_row : Option Row → List Row → List Row
push_row none rows = rows
push_row (some row) rows = row ∷ rows

-- One round of the loop: the next row of each partition
abbrev pub round : ℕ → List (List Row) → List Row
round offset [] = []
round offset (b ∷ bs) = push_row (get_elem? b offset) (round offset bs)

abbrev pub next_round : List Row → List Row → List Row
next_round [] rest = []
next_round (row ∷ rows) rest = (row ∷ rows) ++ rest

abbrev pub rounds : ℕ → ℕ → List (List Row) → List Row
rounds zero offset bs = []
rounds (suc fuel) offset bs = next_round (round offset bs) (rounds fuel (suc offset) bs)

abbrev pub interleaved : List Bytes → List (Bytes × Row) → List Row
interleaved values rows = rounds (suc (length rows)) 0 (buckets values rows) ++ others values rows

-- `interleaveIndexedPartitions`
unfoldable pub interleave_indexed_partitions : List Row → Table → Result TableError (List Row)
interleave_indexed_partitions rows c =
    if has_none c.batch_values
    then ok rows
    else tagged c.batch_column rows >>= λ tags. ok (interleaved c.batch_values tags)
