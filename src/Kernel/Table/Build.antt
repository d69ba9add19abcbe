-- ===== src/Kernel/Table/Build.antt =====
-- pkg/kernel/indexed_table.go: the expansion in batches and the loops of `buildIndexedTableHandler`. The model is the
-- parameter `call`, whose answers depend on the attempt and on what is sent, so on everything that tells two calls apart;
-- `none` is an error of the call, the end of its context too. The workers write to places of their own, and the result
-- is an error if one of them fails: the batches run here in order. The texts of prompts and of errors are left out.
pub mod Rows
pub mod Sound
pub mod Defined
pub mod Ready
pub mod Total
mod Tests
use soyaos.Prelude.{
  ℕ, zero, suc, ◌+◌, ◌-◌, ◌*◌, min, Bool, true, false, not, ◌&&◌, ◌||◌, List, [], ◌∷◌, ◌++◌, Option,
  none, some, Bytes, codes, bytes_eq, is_empty, Result, ok, err, ◌>>=◌, ltb, leb, ◌==◌,
  if◌then◌else◌, length, get_elem?, take,
}
use soyaos.Soyapack.{Unicode, is_member}
use soyaos.Soyapack.IndexedTable.{Table, has_none, batches_of, any_blank, validate}
use soyaos.Kernel.Table.{
  Row, TableError, bad_config, call_failed, bad_row, too_few_rows, bad_selection, panicked,
  out_of_fuel, cell, strict_table_json, matches_indexed_column_rules, ℤ, select_indexed_rows,
  tagged, bucket, interleave_indexed_partitions,
}

-- What is sent to the model
pub record Payload : Type 0 where
  pub step : ℕ
  pub original_request : Bytes
  pub previous : Bytes
  pub candidates : List Row
  pub target_count : ℕ
  pub repair : Bool
  pub existing_titles : List Bytes
  pub batch_index : ℕ
  pub batch_count : ℕ
  pub partition_value : Bytes
  pub validation_error : Option TableError
  pub partitioned : Bool

pub record Snapshot : Type 0 where
  pub original_request : Bytes
  pub name : Bytes
  pub headers : List Bytes
  pub rows : List Row

abbrev pub first_payload : Bytes → Table → Payload
first_payload request c = record {
  step = 0;
  original_request = request;
  previous = [];
  candidates = [];
  target_count = c.candidate_rows;
  repair = false;
  existing_titles = [];
  batch_index = 0;
  batch_count = 0;
  partition_value = [];
  validation_error = none;
  partitioned = false;
}

abbrev pub repair_text : Bytes
repair_text = codes "补缺阶段：不要重新展开原始主题地图，生成已有标题列表未覆盖的新问题。"

abbrev pub of_call : Option Bytes → Result TableError Bytes
of_call none = err call_failed
of_call (some content) = ok content

abbrev pub keep :
    Result TableError Bool → Row → Result TableError (List Row) → Result TableError (List Row)
keep (ok true) row (ok rows) = ok (row ∷ rows)
keep (ok true) row (err e) = err e
keep (ok false) row rest = rest
keep (err e) row rest = err e

abbrev pub append_rows :
    Result TableError (List Row) → Result TableError (List Row) → Result TableError (List Row)
append_rows (ok rows) (ok rest) = ok (rows ++ rest)
append_rows (ok rows) (err e) = err e
append_rows (err e) rest = err e

-- `strings.Join(fields, " ")`
abbrev pub join : List Bytes → Bytes
join [] = []
join (s ∷ []) = s
join (s ∷ t ∷ ss) = s ++ (32 ∷ join (t ∷ ss))

-- The identity of a topic
unfoldable pub title_key : Unicode → Bytes → Bytes
title_key U title = U.to_lower (join (U.fields title))

abbrev pub is_panic : TableError → Bool
is_panic panicked = true
is_panic _ = false

abbrev pub enough : ℕ → List Bytes → List (Bytes × Row) → Bool
enough least [] tags = true
enough least (v ∷ vs) tags = not (ltb (length (bucket v tags)) least) && enough least vs tags

-- A read of a slice, which panics where it is out of range
abbrev pub read_at : {A : Type 0} → Option A → Result TableError A
read_at none = err panicked
read_at (some v) = ok v

-- `rows[:n]`
abbrev pub slice_to : ℕ → List Row → Result TableError (List Row)
slice_to n rows = if leb n (length rows) then ok (take n rows) else err panicked

-- The rows of an answer, no more than were asked for. A target below zero is less than any length.
abbrev pub top_rows : Bool → ℕ → List Row → Result TableError (List Row)
top_rows negative target rows =
    if negative
    then err panicked
    else if ltb target (length rows)
    then slice_to target rows
    else ok rows

-- What the handler is made from and calls: the prompts, the strings of Go's library, the decoder of JSON at two types,
-- and the model
pub record Outside : Type 0 where
  pub prompts : List Bytes
  pub unicode : Unicode
  pub decode_rows : Bytes → Option (List Row × Bytes)
  pub decode_selection : Bytes → Option (List ℤ × Bytes)
  pub is_end : Bytes → Bool
  pub call : ℕ → Payload → Option Bytes

module _ (X : Outside) (c : Table) where
  -- `cfg.Columns[cfg.BatchColumn]`, read where the payload names a partition
  abbrev pub column_name : Payload → Result TableError Bytes
  column_name p = if p.partitioned then read_at (get_elem? c.columns c.batch_column) else ok []

  -- The closure `call`, with its reads of `prompts[step]` and of the column
  unfoldable pub ask : ℕ → Payload → Result TableError Bytes
  ask attempt p = read_at (get_elem? X.prompts p.step) >>= λ body.
      column_name p >>= λ column. of_call (X.call attempt p)

  -- The test of a row whose shape is right
  pub in_partition : Bytes → Row → Result TableError Bool → Result TableError Bool
  in_partition partition row (ok true) =
      if is_empty partition
      then ok true
      else cell row c.batch_column >>= λ v. ok (bytes_eq v partition)
  in_partition partition row (ok false) = ok false
  in_partition partition row (err e) = err e

  pub keep_row : Bytes → Row → Result TableError Bool
  unfolding in_partition
  keep_row partition row =
      if not (length row == length c.columns)
      then err bad_row
      else if any_blank X.unicode row
      then err bad_row
      else in_partition partition row (matches_indexed_column_rules row c.column_rules)

  pub keep_rows : Bytes → List Row → Result TableError (List Row)
  unfolding keep_row
  keep_rows partition [] = ok []
  keep_rows partition (row ∷ rows) = keep (keep_row partition row) row (keep_rows partition rows)

  -- `cfg.BatchValues[index]`, in the first attempt
  pub partition_of : Bool → ℕ → Result TableError Bytes
  partition_of repair index =
      if has_none c.batch_values
      then ok []
      else if repair
      then ok []
      else read_at (get_elem? c.batch_values index)

  -- How many rows a batch asks for, and the size of the batches
  abbrev pub batch_target : ℕ → ℕ → ℕ → ℕ
  batch_target count size index = min size (count - index * size)

  abbrev pub size_of : ℕ → ℕ
  size_of count = if c.batch_size == 0 then count else c.batch_size

  -- The rows of an answer that the worker keeps
  pub batch_rows : Bytes → Bool → ℕ → Bytes → Result TableError (List Row)
  unfolding keep_rows
  batch_rows partition negative target content =
      strict_table_json X.decode_rows X.is_end content >>= λ rows.
      top_rows negative target rows >>= keep_rows partition

  abbrev pub batch_payload : ℕ → ℕ → Payload → ℕ → ℕ → Bytes → Payload
  batch_payload count size base index target partition = record base {
    step = 1;
    batch_index = index + 1;
    batch_count = batches_of count size;
    target_count = target;
    partition_value = partition;
    partitioned = not (has_none c.batch_values) && not base.repair;
  }

  pub ask_batch : ℕ → ℕ → ℕ → Payload → ℕ → Bytes → Result TableError (List Row)
  unfolding batch_rows ask
  ask_batch attempt count size base index partition =
      let target = batch_target count size index in
      ask attempt (batch_payload count size base index target partition)
      >>= batch_rows partition (ltb count (index * size)) target

  -- The work of a worker at one index
  pub run_batch : ℕ → ℕ → ℕ → Payload → ℕ → Result TableError (List Row)
  unfolding partition_of ask_batch
  run_batch attempt count size base index =
      partition_of base.repair index >>= ask_batch attempt count size base index

  pub run_batches : ℕ → ℕ → ℕ → Payload → ℕ → Result TableError (List Row)
  unfolding run_batch
  run_batches attempt count size base zero = ok []
  run_batches attempt count size base (suc n) =
      append_rows (run_batches attempt count size base n) (run_batch attempt count size base n)

  -- `expandIndexedBatches`. The number of batches is a quotient by the size.
  pub expand_indexed_batches : ℕ → ℕ → Payload → Result TableError (List Row)
  unfolding run_batches
  expand_indexed_batches attempt count base =
      if size_of count == 0
      then err panicked
      else run_batches attempt count (size_of count) base (batches_of count (size_of count))

  -- The rows with new titles, and the titles seen
  pub add_row :
      Row
      → List Row × List Bytes
      → Result TableError Bytes
      → Result TableError (List Row × List Bytes)
  add_row row (rows, seen) (err e) = err e
  add_row row (rows, seen) (ok title) =
      let k = title_key X.unicode title in
      if is_member k seen then ok (rows, seen) else ok (rows ++ (row ∷ []), seen ++ (k ∷ []))

  pub add_rows : List Row → List Row × List Bytes → Result TableError (List Row × List Bytes)
  unfolding add_row
  add_rows [] st = ok st
  add_rows (row ∷ batch) st = add_row row st (cell row 0) >>= add_rows batch

  pub titles : List Row → Result TableError (List Bytes)
  titles [] = ok []
  titles (row ∷ rows) = cell row 0 >>= λ t. titles rows >>= λ ts. ok (t ∷ ts)

  pub expand_payload : Bytes → Bytes → ℕ → List Row → Result TableError Payload
  unfolding titles
  expand_payload request collected zero rows =
      ok (record (first_payload request c) { previous = collected })
  expand_payload request collected (suc attempt) rows = titles rows >>= λ ts.
      ok (record (first_payload request c) {
        previous = repair_text;
        repair = true;
        existing_titles = ts;
      })

  abbrev pub row_count : ℕ → List Row → ℕ
  row_count zero rows = c.candidate_rows
  row_count (suc attempt) rows = c.target_rows - length rows

  pub gather_more :
      ℕ
      → Result TableError (List Row × List Bytes)
      → (List Row × List Bytes → Result TableError (List Row))
      → Result TableError (List Row)
  gather_more attempt (err e) next = err e
  gather_more attempt (ok (rows, seen)) next =
      if leb c.target_rows (length rows)
      then ok rows
      else if leb c.max_repairs attempt
      then err too_few_rows
      else next (rows, seen)

  pub expand_from : ℕ → List Row × List Bytes → Payload → Result TableError (List Row × List Bytes)
  unfolding expand_indexed_batches add_rows
  expand_from attempt (rows, seen) base =
      expand_indexed_batches attempt (row_count attempt rows) base >>= λ batch.
      add_rows batch (rows, seen)

  pub attempt_rows :
      Bytes → Bytes → ℕ → List Row × List Bytes → Result TableError (List Row × List Bytes)
  unfolding expand_payload expand_from
  attempt_rows request collected attempt st =
      expand_payload request collected attempt st.0 >>= expand_from attempt st

  -- The loop that collects candidates
  pub gather : ℕ → Bytes → Bytes → ℕ → List Row × List Bytes → Result TableError (List Row)
  unfolding gather_more attempt_rows
  gather zero request collected attempt st = err out_of_fuel
  gather (suc fuel) request collected attempt st =
      gather_more attempt (attempt_rows request collected attempt st)
        (λ st'. gather fuel request collected (suc attempt) st')

  -- The test of the shares of the partitions
  pub if_enough : List Row → List (Bytes × Row) → Result TableError (List Row)
  if_enough selected tags =
      if enough c.min_per_partition c.batch_values tags then ok selected else err bad_selection

  pub with_shares : List Row → Result TableError (List Row)
  unfolding if_enough
  with_shares selected =
      if ltb 0 c.min_per_partition
      then tagged c.batch_column selected >>= if_enough selected
      else ok selected

  -- A panic is not an error of the selection.
  pub choose_more :
      ℕ
      → Result TableError (List Row)
      → (TableError → Result TableError (List Row))
      → Result TableError (List Row)
  choose_more attempt (ok selected) next = ok selected
  choose_more attempt (err e) next =
      if is_panic e || leb c.max_repairs attempt then err e else next e

  pub attempt_selection : List Row → Bytes → Result TableError (List Row)
  unfolding with_shares
  attempt_selection rows content =
      select_indexed_rows X.decode_selection X.is_end content rows c.target_rows >>= with_shares

  abbrev pub choose_payload : Bytes → List Row → ℕ → Option TableError → Payload
  choose_payload request rows attempt failure = record (first_payload request c) {
    step = 2;
    candidates = rows;
    target_count = c.target_rows;
    repair = ltb 0 attempt;
    validation_error = failure;
  }

  -- The loop that selects the rows
  pub choose : ℕ → Bytes → List Row → ℕ → Option TableError → Result TableError (List Row)
  unfolding choose_more attempt_selection ask
  choose zero request rows attempt failure = err out_of_fuel
  choose (suc fuel) request rows attempt failure =
      ask attempt (choose_payload request rows attempt failure) >>= (λ content.
        choose_more attempt (attempt_selection rows content)
          (λ e. choose fuel request rows (suc attempt) (some e)))

  abbrev pub snapshot : Bytes → List Row → Snapshot
  snapshot request selected = record {
    original_request = request;
    name = c.sheet_name;
    headers = c.columns;
    rows = selected;
  }

  pub publish : Bytes → Bool → List Row → Result TableError Snapshot
  publish request expired selected =
      if expired then err call_failed else ok (snapshot request selected)

  pub select_from : Bytes → Bool → List Row → Result TableError Snapshot
  unfolding choose publish
  select_from request expired candidates =
      choose (suc c.max_repairs) request candidates 0 none >>= publish request expired

  pub order_rows : Bytes → Bool → List Row → Result TableError Snapshot
  unfolding select_from
  order_rows request expired rows =
      interleave_indexed_partitions rows c >>= select_from request expired

  pub collect_rows : Bytes → Bool → Bytes → Result TableError Snapshot
  unfolding gather order_rows
  collect_rows request expired collected =
      gather (suc c.max_repairs) request collected 0 ([], []) >>= order_rows request expired

  -- `buildIndexedTableHandler`: the snapshot of its only chunk, unless the context has ended by then
  pub build_indexed_table : Bytes → Bool → Result TableError Snapshot
  unfolding collect_rows ask
  build_indexed_table request expired =
      if not (validate X.unicode (length X.prompts) c)
      then err bad_config
      else ask 0 (first_payload request c) >>= collect_rows request expired
