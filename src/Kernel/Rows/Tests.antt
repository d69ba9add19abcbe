-- ===== src/Kernel/Rows/Tests.antt =====
-- The theorems about pkg/kernel/state.go on the store in memory.
use soyaos.Prelude.{◌≡◌, refl, [], ◌∷◌, ◌++◌, some, Bytes, codes, arith}
use soyaos.Store.Key.{composite_key}
use soyaos.Store.Memory.{memory}
use soyaos.State
use soyaos.State.PlainCodec.{plain_codec}
use soyaos.Runtime.Gate.{itoa, digits_into}
use soyaos.Soyapack.{Unicode}
use soyaos.Kernel.Agents.{Agent}
use soyaos.Kernel.Rows.{
  text, Snapshot, Identity, row_name, row_state_owner, persist_workbook_rows, load_row_payload,
}
use soyaos.Kernel.Rows.PlainWorkbook.{plain_workbook}
use soyaos.Kernel.Rows.Loaded.{last_of, load-persist}
use soyaos.Kernel.Rows.Owners.{load_row-shared}

abbrev plain : Unicode
plain = record { trim_space = λ s. s; fields = λ s. s ∷ []; to_lower = λ s. s; rune_count = λ s. 0 }

abbrev agent_in : Bytes → Agent (Unit {0})
agent_in scope = record {
  slug = codes "estate";
  handler = tt;
  manifest = some (record { actions = []; artifacts = []; state = some scope });
}

abbrev alice : Identity
alice = record { subject = codes "alice"; key_id = [] }

-- Two sheets that both have a first row
abbrev snapshot : Snapshot
snapshot = record {
  original_request = [];
  sheets =
      record {
        headers = codes "title" ∷ [];
        rows = (text (codes "A") ∷ []) ∷ (text (codes "B") ∷ []) ∷ [];
      }
      ∷ (record { headers = codes "title" ∷ []; rows = (text (codes "C") ∷ []) ∷ [] } ∷ []);
}

load-persist_example :
    load_row_payload plain memory plain_codec
      (plain_workbook snapshot)
      (agent_in (codes "agent"))
      alice
      (row_name 0)
      (persist_workbook_rows plain memory plain_codec
        (plain_workbook snapshot)
        5
        (agent_in (codes "agent"))
        alice
        []
        []).1
    ≡ last_of plain memory plain_codec
        (plain_workbook snapshot)
        5
        (agent_in (codes "agent"))
        alice
        []
        snapshot.sheets
        0
        (load_row_payload plain memory plain_codec
          (plain_workbook snapshot)
          (agent_in (codes "agent"))
          alice
          (row_name 0)
          [])
unfolding persist_workbook_rows State.put State.valid State.put_over State.get State.read
    State.write composite_key row_state_owner itoa digits_into
load-persist_example =
    load-persist plain memory plain_codec (plain_workbook snapshot) (agent_in (codes "agent")) alice
      refl 5 [] [] snapshot 0 tt (λ m. (refl, refl, refl)) refl (omega arith) (omega arith) refl

load_row-shared_example :
    load_row_payload plain memory plain_codec
      (plain_workbook snapshot)
      (agent_in (codes "user"))
      (record { subject = codes "ann"; key_id = [] })
      (codes "lee" ++ (codes "/" ++ codes "row-1"))
      []
    ≡ load_row_payload plain memory plain_codec
        (plain_workbook snapshot)
        (agent_in (codes "user"))
        (record { subject = codes "ann" ++ (codes "/" ++ codes "lee"); key_id = [] })
        (codes "row-1")
        []
load_row-shared_example =
    load_row-shared plain memory plain_codec (plain_workbook snapshot) (agent_in (codes "user"))
      (codes "ann") (codes "lee") (codes "row-1") [] [] [] refl refl
