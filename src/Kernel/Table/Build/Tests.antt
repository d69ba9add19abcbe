-- ===== src/Kernel/Table/Build/Tests.antt =====
-- The theorems about pkg/kernel/indexed_table.go on a table of two rows, one of each of two partitions.
use soyaos.Prelude.{
  ℕ, zero, suc, ◌≤◌, ◌≡◌, refl, true, false, List, [], ◌∷◌, Option, none, some, Bytes, codes, ok,
  is_empty, length, All,
}
use soyaos.Soyapack.{Unicode, is_member}
use soyaos.Soyapack.IndexedTable.{
  Table, validate, rows_valid, batches_valid, effort_valid, partitions_valid, share_valid,
  columns_valid, sheet_valid, rules_valid, texts_valid, any_blank,
}
use soyaos.Kernel.Table.{
  Row, pos, strict_table_json, matches_indexed_column_rules, rule_matches, pick_rows,
  select_indexed_rows, interleave_indexed_partitions,
}
use soyaos.Kernel.Table.Build.{
  Payload, Outside, Snapshot, title_key, in_partition, keep_row, keep_rows, partition_of, ask,
  batch_rows, ask_batch, run_batch, run_batches, expand_indexed_batches, add_row, add_rows,
  expand_payload, expand_from, attempt_rows, gather_more, gather, with_shares, if_enough,
  choose_more, attempt_selection, choose, publish, select_from, order_rows, collect_rows,
  build_indexed_table,
}
use soyaos.Kernel.Table.Counts.{count}
use soyaos.Kernel.Table.Build.Rows.{acceptable, has_key}
use soyaos.Kernel.Table.Build.Sound.{stands_in, table_sound}
use soyaos.Kernel.Table.Build.Defined.{is_defined}
use soyaos.Kernel.Table.Build.Total.{build-IsDefined}

abbrev plain_text : Unicode
plain_text = record {
  trim_space = λ s. s;
  fields = λ s. s ∷ [];
  to_lower = λ s. s;
  rune_count = λ s. length s;
}

abbrev row_of : Bytes → Bytes → Row
row_of title group = title ∷ group ∷ []

abbrev first_batch : List Row
first_batch = row_of (codes "rent") (codes "a") ∷ row_of (codes "loan") (codes "a") ∷ []

abbrev second_batch : List Row
second_batch = row_of (codes "sale") (codes "b") ∷ row_of (codes "rent") (codes "b") ∷ []

abbrev answer_of : ℕ → Payload → Option Bytes
answer_of attempt p = some (p.batch_index ∷ [])

abbrev rows_in : Bytes → Option (List Row × Bytes)
rows_in [] = none
rows_in (n ∷ rest) = elim n [ suc zero ↦ some (first_batch, rest) | _ ↦ some (second_batch, rest) ]

abbrev outside : Outside
outside = record {
  prompts = codes "collect" ∷ codes "expand" ∷ codes "select" ∷ [];
  unicode = plain_text;
  decode_rows = rows_in;
  decode_selection = λ content. some (pos 2 ∷ pos 1 ∷ [], []);
  is_end = is_empty;
  call = answer_of;
}

abbrev config : Table
config = record {
  target_rows = 2;
  candidate_rows = 4;
  columns = codes "topic" ∷ codes "group" ∷ [];
  sheet_name = codes "Topics";
  max_repairs = 1;
  timeout_seconds = 60;
  batch_size = 2;
  max_concurrency = 2;
  column_rules = [];
  batch_column = 1;
  batch_values = codes "a" ∷ codes "b" ∷ [];
  min_per_partition = 1;
}

abbrev table : Snapshot
table = record {
  original_request = codes "hi";
  name = codes "Topics";
  headers = codes "topic" ∷ codes "group" ∷ [];
  rows = row_of (codes "sale") (codes "b") ∷ row_of (codes "rent") (codes "a") ∷ [];
}

built : build_indexed_table outside config (codes "hi") false ≡ ok table
unfolding validate rows_valid batches_valid effort_valid partitions_valid share_valid columns_valid
    sheet_valid rules_valid texts_valid any_blank strict_table_json matches_indexed_column_rules
    rule_matches pick_rows select_indexed_rows interleave_indexed_partitions title_key in_partition
    ask keep_row keep_rows partition_of batch_rows ask_batch run_batch run_batches
    expand_indexed_batches add_row add_rows expand_payload expand_from attempt_rows gather_more
    gather with_shares if_enough choose_more attempt_selection choose publish select_from order_rows
    collect_rows build_indexed_table
built = refl

table_sound_example :
    (length table.rows ≡ 2)
    × All (λ row. acceptable plain_text config row ≡ true) table.rows
    × ((k : Bytes) → count (has_key plain_text k) table.rows ≤ 1)
    × ((v : Bytes)
        → is_member v config.batch_values ≡ true
        → 1 ≤ count (stands_in config v) table.rows)
table_sound_example = table_sound outside config (codes "hi") false table built

build-IsDefined_example : is_defined (build_indexed_table outside config (codes "hi") false) ≡ true
build-IsDefined_example = build-IsDefined outside config (codes "hi") false
