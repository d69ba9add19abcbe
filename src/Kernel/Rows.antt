-- ===== src/Kernel/Rows.antt =====
-- pkg/kernel/state.go: what the kernel keeps of a completion in the versioned state of pkg/state, and the rows of a
-- workbook that the actions read back. `encoding/json` is the parameter `Workbook`.
pub mod PlainWorkbook
pub mod Cells
pub mod Loaded
pub mod Owners
mod Tests
use soyaos.Prelude.{
  ℕ, zero, suc, ◌+◌, ◌≡◌, Bool, true, false, ◌||◌, List, [], ◌∷◌, ◌++◌, Option, none, some, Bytes,
  bytes_eq, codes, is_empty, has_prefix, Result, ok, err, length, take, drop, ◌-◌, ◌==◌,
  if◌then◌else◌,
}
use soyaos.Prelude.Dict.{lookup_key, set_key}
use soyaos.Store.{Store}
use soyaos.State
use soyaos.State.{Codec, Entry, StateError, key_not_found, scope_agent, scope_user, scope_row}
use soyaos.Runtime.Gate.{itoa}
use soyaos.Soyapack.{Unicode, has_suffix}
use soyaos.Kernel.Agents.{Agent, Manifest, ArtifactDecl}

-- A value of a `map[string]any`: a string, or the JSON of any other value
pub data Value : Type 0 where
  text : Bytes → Value
  other : Bytes → Value

abbrev pub Payload : Type 0
Payload = List (Bytes × Value)

pub record Sheet : Type 0 where
  pub headers : List Bytes
  pub rows : List (List Value)

pub record Snapshot : Type 0 where
  pub original_request : Bytes
  pub sheets : List Sheet

-- `json.Unmarshal` at an object and at `workbookSnapshot`, and both ways at the payload of a row. `again p` is what a
-- payload comes back as: a map in which bytes of strings that are not UTF-8 are replaced.
pub record Workbook : Type 0 where
  pub is_object : Bytes → Bool
  pub snapshot : Bytes → Option Snapshot
  pub marshal : Payload → Option Bytes
  pub unmarshal : Bytes → Option Payload
  pub again : Payload → Payload
  pub unmarshal-marshal :
      (p : Payload) (b : Bytes) → marshal p ≡ some b → unmarshal b ≡ some (again p)

pub record Identity : Type 0 where
  pub subject : Bytes
  pub key_id : Bytes

pub data KernelError : Type 0 where
  persist_failed decode_failed encode_failed load_failed : KernelError

abbrev pub completion_state_key : Bytes
completion_state_key = codes "completion/latest"

abbrev pub row_payload_state_key : Bytes
row_payload_state_key = codes "payload"

-- The owner of the state of a user: its subject, or its key, or nobody
unfoldable pub user_of : Identity → Bytes
user_of id =
    if is_empty id.subject
    then (if is_empty id.key_id then codes "anonymous" else id.key_id)
    else id.subject

abbrev pub owner_in : Bytes → Identity → Option Bytes → Bytes × Bytes
owner_in slug id none = (scope_agent, slug)
owner_in slug id (some scope) =
    if bytes_eq scope (codes "user")
    then (scope_user, slug ++ (codes "/" ++ user_of id))
    else (scope_agent, slug)

abbrev pub declared_state : Option Manifest → Option Bytes
declared_state none = none
declared_state (some m) = m.state

abbrev pub artifacts_of : Option Manifest → List ArtifactDecl
artifacts_of none = []
artifacts_of (some m) = m.artifacts

-- `completionStateOwner`
unfoldable pub completion_state_owner : {H : Type 0} → Agent H → Identity → Bytes × Bytes
unfolding user_of
completion_state_owner agent id = owner_in agent.slug id (declared_state agent.manifest)

-- `rowStateOwner`
unfoldable pub row_state_owner : {H : Type 0} → Agent H → Identity → Bytes → Bytes
unfolding completion_state_owner
row_state_owner agent id row_id = (completion_state_owner agent id).1 ++ (codes "/" ++ row_id)

abbrev pub row_name : ℕ → Bytes
row_name n = codes "row-" ++ itoa (n + 1)

abbrev pub one_of : Bytes → List Bytes → Bool
one_of s [] = false
one_of s (t ∷ ts) = bytes_eq s t || one_of s ts

-- The Chinese headers, as UTF-8
abbrev pub title_zh : Bytes
title_zh = 0xe6 ∷ 0xa0 ∷ 0x87 ∷ 0xe9 ∷ 0xa2 ∷ 0x98 ∷ []

abbrev pub dimension_zh : Bytes
dimension_zh = 0xe7 ∷ 0xbb ∷ 0xb4 ∷ 0xe5 ∷ 0xba ∷ 0xa6 ∷ []

abbrev pub angle_zh : Bytes
angle_zh = 0xe5 ∷ 0x88 ∷ 0x87 ∷ 0xe9 ∷ 0x9d ∷ 0xa2 ∷ []

abbrev pub hook_zh : Bytes
hook_zh = 0xe9 ∷ 0x92 ∷ 0xa9 ∷ 0xe5 ∷ 0xad ∷ 0x90 ∷ []

abbrev pub difficulty_zh : Bytes
difficulty_zh = 0xe9 ∷ 0x9a ∷ 0xbe ∷ 0xe5 ∷ 0xba ∷ 0xa6 ∷ []

abbrev pub recommended_zh : Bytes
recommended_zh =
    0xe5 ∷ 0xbb ∷ 0xba ∷ 0xe8 ∷ 0xae ∷ 0xae ∷ 0xe4 ∷ 0xba ∷ 0xa7 ∷ 0xe7 ∷ 0x89 ∷ 0xa9 ∷ []

-- The switch of `canonicalRowField`
unfoldable pub canonical_of : Bytes → Bytes
canonical_of s =
    if one_of s (title_zh ∷ codes "topic" ∷ codes "title" ∷ [])
    then codes "title"
    else if one_of s (dimension_zh ∷ codes "dimension" ∷ [])
    then codes "dimension"
    else if one_of s (angle_zh ∷ codes "angle" ∷ [])
    then codes "angle"
    else if one_of s (hook_zh ∷ codes "hook" ∷ [])
    then codes "hook"
    else if one_of s (difficulty_zh ∷ codes "difficulty" ∷ [])
    then codes "difficulty"
    else if one_of s
        (recommended_zh ∷ codes "recommended artifact" ∷ codes "recommended_artifact" ∷ [])
    then codes "recommended_artifact"
    else []

-- What follows the first line break, if there is one
abbrev pub after_line : Bytes → Option Bytes
after_line [] = none
after_line (c ∷ s) = if c == 10 then some s else after_line s

abbrev pub or_whole : Bytes → Option Bytes → Bytes
or_whole s none = s
or_whole s (some rest) = rest

abbrev pub trim_suffix : Bytes → Bytes → Bytes
trim_suffix s p = if has_suffix s p then take (length s - length p) s else s

module _ (U : Unicode) where
  -- `canonicalRowField`
  unfoldable pub canonical_row_field : Bytes → Bytes
  unfolding canonical_of
  canonical_row_field header = canonical_of (U.to_lower (U.trim_space header))

  abbrev pub put_alias : Bytes → Value → Payload → Payload
  put_alias alias v p = if is_empty alias then p else set_key alias v p

  -- One round of the loop over the columns
  unfoldable pub put_cell : Bytes → Value → Payload → Payload
  unfolding canonical_row_field
  put_cell header v p =
      if is_empty header then p else put_alias (canonical_row_field header) v (set_key header v p)

  unfoldable pub put_cells : List Bytes → List Value → Payload → Payload
  unfolding put_cell
  put_cells headers [] p = p
  put_cells [] (v ∷ vs) p = p
  put_cells (h ∷ hs) (v ∷ vs) p = put_cells hs vs (put_cell (U.trim_space h) v p)

  abbrev pub put_request : Bytes → Payload → Payload
  put_request request p =
      if is_empty request then p else set_key (codes "original_request") (text request) p

  -- The payload of a row
  unfoldable pub row_payload : Bytes → List Bytes → ℕ → List Value → Payload
  unfolding put_cells
  row_payload request headers n row =
      put_request request (put_cells headers row ((codes "row_id", text (row_name n)) ∷ []))

  -- The code block that a model may put round its JSON
  unfoldable pub unfenced : Bytes → Bytes
  unfenced trimmed =
      if has_prefix trimmed (codes "```")
      then U.trim_space
          (trim_suffix (U.trim_space (or_whole trimmed (after_line trimmed))) (codes "```"))
      else trimmed

  module _ (S : Store) (J : Codec) (W : Workbook) where
    -- `extractJSONObject`
    unfoldable pub extract_json_object : Bytes → Option Bytes
    unfolding unfenced
    extract_json_object content =
        let body = unfenced (U.trim_space content) in if W.is_object body then some body else none

    abbrev pub Done : Type 0
    Done = Result KernelError (Unit {0}) × S.Db

    abbrev pub wrote : Result StateError Entry × S.Db → Done
    wrote (ok _, d) = (ok tt, d)
    wrote (err _, d) = (err persist_failed, d)

    abbrev pub then_do : (S.Db → Done) → Done → Done
    then_do next (ok _, d) = next d
    then_do next (err e, d) = (err e, d)

    module _ {H : Type 0} (now : ℕ) (agent : Agent H) (id : Identity) where
      -- One round of the loop over the rows, past the payload
      unfoldable pub put_row : ℕ → Option Bytes → S.Db → Done
      put_row n none d = (err encode_failed, d)
      put_row n (some encoded) d = wrote (
          State.put S J d now scope_row (row_state_owner agent id (row_name n))
            row_payload_state_key encoded)

      unfoldable pub put_rows : Bytes → List Bytes → ℕ → List (List Value) → S.Db → Done
      unfolding put_row row_payload
      put_rows request headers n [] d = (ok tt, d)
      put_rows request headers n (row ∷ rows) d =
          then_do (put_rows request headers (suc n) rows)
            (put_row n (W.marshal (row_payload request headers n row)) d)

      unfoldable pub put_sheets : Bytes → List Sheet → S.Db → Done
      unfolding put_rows
      put_sheets request [] d = (ok tt, d)
      put_sheets request (sheet ∷ sheets) d =
          then_do (put_sheets request sheets) (put_rows request sheet.headers 0 sheet.rows d)

      abbrev pub put_snapshot : Option Snapshot → S.Db → Done
      put_snapshot none d = (err decode_failed, d)
      put_snapshot (some s) d = put_sheets s.original_request s.sheets d

      -- `persistWorkbookRows`
      unfoldable pub persist_workbook_rows : Bytes → S.Db → Done
      unfolding put_sheets
      persist_workbook_rows body d = put_snapshot (W.snapshot body) d

      -- The loop over the artifacts ends at the first workbook.
      unfoldable pub persist_artifacts : Bytes → List ArtifactDecl → S.Db → Done
      unfolding persist_workbook_rows
      persist_artifacts body [] d = (ok tt, d)
      persist_artifacts body (a ∷ more) d =
          let rest = persist_artifacts body more d in
          if bytes_eq a.kind (codes "xlsx")
          then (let (scope, owner) = completion_state_owner agent id in
              then_do (persist_workbook_rows body) (
                wrote (
                  State.put S J d now scope owner
                    (codes "artifact/" ++ (a.schema ++ codes "/latest")) body)))
          else rest

      abbrev pub persist_body : Option Bytes → List ArtifactDecl → S.Db → Done
      persist_body none artifacts d = (ok tt, d)
      persist_body (some body) artifacts d = persist_artifacts body artifacts d

      abbrev pub persist_in : Option Bytes → Bytes → S.Db → Done
      persist_in none content d = (ok tt, d)
      persist_in (some scope_name) content d =
          let (scope, owner) = completion_state_owner agent id in
          then_do (persist_body (extract_json_object content) (artifacts_of agent.manifest))
            (wrote (State.put S J d now scope owner completion_state_key content))

      -- `Kernel.persistAgentCompletion`, where the kernel has a store
      unfoldable pub persist_agent_completion : Bytes → S.Db → Done
      unfolding persist_artifacts extract_json_object
      persist_agent_completion content d = persist_in (declared_state agent.manifest) content d

    abbrev pub decoded_row : Option Payload → Result KernelError (Option Payload)
    decoded_row none = err decode_failed
    decoded_row (some p) = ok (some p)

    abbrev pub loaded_row : Result StateError Entry → Result KernelError (Option Payload)
    loaded_row (ok e) = decoded_row (W.unmarshal e.value)
    loaded_row (err key_not_found) = ok none
    loaded_row (err _) = err load_failed

    abbrev pub load_in :
        Option Bytes → Result StateError Entry → Result KernelError (Option Payload)
    load_in none r = ok none
    load_in (some scope_name) r = loaded_row r

    -- `Kernel.loadRowPayload`, where the kernel has a store
    unfoldable pub load_row_payload :
        {H : Type 0} → Agent H → Identity → Bytes → S.Db → Result KernelError (Option Payload)
    load_row_payload agent id row_id d =
        load_in (declared_state agent.manifest)
          (State.get S J d scope_row (row_state_owner agent id row_id) row_payload_state_key)
