-- ===== src/Kernel/Table/Build/Defined.antt =====
-- The pieces of pkg/kernel/indexed_table.go read no slice out of range where the columns that they name are there.
use soyaos.Prelude.{
  ℕ, zero, suc, ◌<◌, ◌≡◌, refl, ap, Bool, true, false, not, ◌||◌, leb, ◌∙◌, if_yes, if_no,
  Bool-cases, inl, inr, List, [], ◌∷◌, Option, some, Bytes, Result, ok, err, ◌>>=◌, ltb→lt, length,
  get_elem?, All, arith,
}
use soyaos.Soyapack.{Unicode}
use soyaos.Soyapack.IndexedTable.{Table, ColumnRule, rules_valid}
use soyaos.Kernel.Table.{
  Row, TableError, panicked, out_of_fuel, cell, strict_table_json, after_rule,
  matches_indexed_column_rules, ℤ, with_tag, tagged, seen_index, with_row, read_row, pick_row,
  pick_rows,
}
use soyaos.Kernel.Table.Build.{keep, append_rows}
use soyaos.Kernel.Table.Counts.{count}
use soyaos.Kernel.Table.Build.Rows.{rejected}

abbrev pub is_fault : TableError → Bool
is_fault panicked = true
is_fault out_of_fuel = true
is_fault _ = false

-- Not a panic, and not a loop that goes on
abbrev pub is_defined {ℓ} : {A : Type ℓ} → Result TableError A → Bool
is_defined (ok a) = true
is_defined (err e) = not (is_fault e)

pub bind-IsDefined {ℓ κ} :
    {A : Type ℓ} {B : Type κ} (m : Result TableError A) (f : A → Result TableError B)
    → is_defined m ≡ true
    → ((a : A) → m ≡ ok a → is_defined (f a) ≡ true)
    → is_defined (m >>= f) ≡ true
bind-IsDefined (ok a) f h k = k a refl
bind-IsDefined (err e) f h k = h

pub cell-ok : (row : Row) (i : ℕ) → i < length row → (v : Bytes) × (cell row i ≡ ok v)
cell-ok [] i h = absurd (omega arith)
cell-ok (v ∷ row) zero h = (v, refl)
cell-ok (v ∷ row) (suc i) h = cell-ok row i (omega arith)

pub cell-IsDefined : (row : Row) (i : ℕ) → i < length row → is_defined (cell row i) ≡ true
cell-IsDefined row i h = ap is_defined (cell-ok row i h).1

pub strict_table_json-IsDefined :
    {A : Type 0} (decode : Bytes → Option (A × Bytes)) (is_end : Bytes → Bool) (content : Bytes)
    → is_defined (strict_table_json decode is_end content) ≡ true
unfolding strict_table_json
strict_table_json-IsDefined decode is_end content = ground arith

after_rule-IsDefined :
    (r : ColumnRule) (rest : Result TableError Bool) (v : Result TableError Bytes)
    → is_defined rest ≡ true
    → is_defined v ≡ true
    → is_defined (after_rule r rest v) ≡ true
after_rule-IsDefined r rest (ok v) h k = ground (arith, h)
after_rule-IsDefined r rest (err e) h k = k

-- The rules name columns of the table.
abbrev pub InRange : ℕ → List ColumnRule → Type 0
InRange width rules = All (λ (r : ColumnRule). r.column < width) rules

pub matches-IsDefined :
    (row : Row) (rules : List ColumnRule)
    → InRange (length row) rules
    → is_defined (matches_indexed_column_rules row rules) ≡ true
unfolding matches_indexed_column_rules
matches-IsDefined row [] h = refl
matches-IsDefined row (r ∷ rs) (h, hs) =
    after_rule-IsDefined r (matches_indexed_column_rules row rs) (cell row r.column)
      (matches-IsDefined row rs hs) (cell-IsDefined row r.column h)

pub rules_valid-InRange :
    (U : Unicode) (width : ℕ) (seen : List ℕ) (rules : List ColumnRule)
    → rules_valid U width seen rules ≡ true
    → InRange width rules
unfolding rules_valid
rules_valid-InRange U width seen [] h = tt
rules_valid-InRange U width seen (r ∷ rs) h = (
  ltb→lt r.column width (ground (arith, h)),
  rules_valid-InRange U width (r.column ∷ seen) rs (ground (arith, h)),
)

pub keep-IsDefined :
    (b : Result TableError Bool) (row : Row) (rest : Result TableError (List Row))
    → is_defined b ≡ true
    → is_defined rest ≡ true
    → is_defined (keep b row rest) ≡ true
keep-IsDefined (ok true) row (ok rows) h k = refl
keep-IsDefined (ok true) row (err e) h k = k
keep-IsDefined (ok false) row rest h k = k
keep-IsDefined (err e) row rest h k = h

pub append_rows-IsDefined :
    (a b : Result TableError (List Row))
    → is_defined a ≡ true
    → is_defined b ≡ true
    → is_defined (append_rows a b) ≡ true
append_rows-IsDefined (ok xs) (ok ys) h k = refl
append_rows-IsDefined (ok xs) (err e) h k = k
append_rows-IsDefined (err e) b h k = h

pub get_elem-some {ℓ} :
    {A : Type ℓ} (xs : List A) (i : ℕ) → i < length xs → (x : A) × (get_elem? xs i ≡ some x)
get_elem-some [] i h = absurd (omega arith)
get_elem-some (x ∷ xs) zero h = (x, refl)
get_elem-some (x ∷ xs) (suc i) h = get_elem-some xs i (omega arith)

with_row-IsDefined :
    (row : Row) (rest : Result TableError (List Row))
    → is_defined rest ≡ true
    → is_defined (with_row row rest) ≡ true
with_row-IsDefined row (ok r) h = refl
with_row-IsDefined row (err e) h = h

-- The test of the index keeps the read in range.
pick_row-IsDefined :
    (rows : List Row) (seen : List ℕ) (i : ℕ) (rest : Result TableError (List Row))
    → is_defined rest ≡ true
    → is_defined (pick_row rows seen i rest) ≡ true
pick_row-IsDefined rows seen i rest h =
    elim (Bool-cases (leb (length rows) i || seen_index i seen)) [
      | inl bad ↦ ap is_defined (if_yes _ _ _ bad)
      | inr good ↦
          let (row, e) = get_elem-some rows i (ground (arith, good)) in
          ap is_defined (if_no _ _ _ good)
          ∙ (ap (λ o. is_defined (read_row o rest)) e ∙ with_row-IsDefined row rest h)
    ]

pub pick_rows-IsDefined :
    (rows : List Row) (seen : List ℕ) (is : List ℤ) → is_defined (pick_rows rows seen is) ≡ true
unfolding pick_rows
pick_rows-IsDefined rows seen [] = refl
pick_rows-IsDefined rows seen (ℤ.pos zero ∷ is) = refl
pick_rows-IsDefined rows seen (ℤ.pos (suc i) ∷ is) =
    pick_row-IsDefined rows seen i (pick_rows rows (i ∷ seen) is)
      (pick_rows-IsDefined rows (i ∷ seen) is)
pick_rows-IsDefined rows seen (ℤ.negsuc n ∷ is) = refl

with_tag-IsDefined :
    (v : Result TableError Bytes) (row : Row) (rest : Result TableError (List (Bytes × Row)))
    → is_defined v ≡ true
    → is_defined rest ≡ true
    → is_defined (with_tag v row rest) ≡ true
with_tag-IsDefined (ok v) row (ok rest) h k = refl
with_tag-IsDefined (ok v) row (err e) h k = k
with_tag-IsDefined (err e) row rest h k = h

-- Rows that are not rejected have all the cells.
pub rejected-length :
    (U : Unicode) (c : Table) (row : Row) → rejected U c row ≡ false → length row ≡ length c.columns
rejected-length U c row h = ground (arith, h)

pub tagged-IsDefined :
    (U : Unicode) (c : Table) (rows : List Row)
    → c.batch_column < length c.columns
    → count (rejected U c) rows ≡ 0
    → is_defined (tagged c.batch_column rows) ≡ true
tagged-IsDefined U c [] h k = refl
tagged-IsDefined U c (row ∷ rows) h k =
    let wide : length row ≡ length c.columns = rejected-length U c row (ground (arith, k)) in
    with_tag-IsDefined (cell row c.batch_column) row (tagged c.batch_column rows)
      (cell-IsDefined row c.batch_column (omega arith))
      (tagged-IsDefined U c rows h (omega (arith, k)))
