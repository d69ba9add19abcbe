-- ===== src/Kernel/Actions/Tests.antt =====
-- The theorem about pkg/kernel/actions.go on a row of the store in memory whose title is edited.
use soyaos.Prelude.{refl, true, false, [], ◌∷◌, none, some, codes}
use soyaos.Prelude.Dict.{lookup_key, set_key}
use soyaos.Store.Key.{composite_key}
use soyaos.Store.Memory.{memory}
use soyaos.State
use soyaos.State.PlainCodec.{plain_codec}
use soyaos.Soyapack.{Unicode}
use soyaos.Kernel.Agents.{Agent, ActionDecl, register, lookup}
use soyaos.Kernel.Rows.{
  Value, text, Payload, Snapshot, Identity, load_row_payload, row_state_owner,
  completion_state_owner,
}
use soyaos.Kernel.Rows.PlainWorkbook.{plain_workbook, encode}
use soyaos.Kernel.Actions.{ActionResult, echo, invoke_action, find_action, set_all}
use soyaos.Kernel.Actions.Seen.{IsServed, invoke_action-IsServed}

abbrev plain : Unicode
plain = record { trim_space = λ s. s; fields = λ s. s ∷ []; to_lower = λ s. s; rune_count = λ s. 0 }

abbrev write : ActionDecl
write = record { id = codes "write"; handler = codes "write.md"; timeout = [] }

abbrev estate : Agent (Unit {0})
estate = record {
  slug = codes "estate";
  handler = tt;
  manifest = some (record { actions = write ∷ []; artifacts = []; state = some (codes "agent") });
}

abbrev alice : Identity
alice = record { subject = codes "alice"; key_id = [] }

abbrev no_sheets : Snapshot
no_sheets = record { original_request = []; sheets = [] }

abbrev stored : Payload
stored = (codes "row_id", text (codes "row-1")) ∷ (codes "title", text (codes "Old")) ∷ []

-- The state with one row
abbrev db : memory.Db
db =
    (State.put memory plain_codec [] 5 State.scope_row (codes "estate/row-1") (codes "payload")
      (2 ∷ encode stored)).1

abbrev payload : Payload
payload = (codes "edited_title", text (codes "New")) ∷ (codes "title", text (codes "Forged")) ∷ []

abbrev result : ActionResult (Unit {0})
result = record {
  task_id = codes "task-1";
  status = codes "queued";
  agent_slug = codes "estate";
  action_id = codes "write";
  row_id = codes "row-1";
  output =
      echo
        ((codes "title", text (codes "New"))
          ∷ ((codes "edited_title", text (codes "New"))
              ∷ ((codes "row_id", text (codes "row-1"))
                  ∷ ((codes "original_title", text (codes "Old")) ∷ []))))
        (codes "write.md");
}

invoke_action-IsServed_example :
    IsServed plain
      (λ s. true)
      memory
      plain_codec
      (plain_workbook no_sheets)
      (λ s. none)
      false
      (codes "task-1")
      (register estate [])
      []
      none
      db
      alice
      (codes "estate")
      (codes "write")
      (codes "row-1")
      payload
      result
unfolding invoke_action lookup lookup_key register set_key find_action load_row_payload State.get
    State.valid State.read State.put State.put_over State.write composite_key row_state_owner
    set_all soyaos.Kernel.Rows.canonical_row_field
invoke_action-IsServed_example =
    invoke_action-IsServed plain (λ s. true) memory plain_codec (plain_workbook no_sheets)
      (λ s. none) false (codes "task-1") (register estate []) [] none db alice (codes "estate")
      (codes "write") (codes "row-1") payload result refl
