-- ===== src/Kernel/Actions.antt =====
-- pkg/kernel/actions.go: the dispatch of an action on a row. The handlers of Packs, `time.ParseDuration`, the test for
-- valid UTF-8, random bytes and whether the context of a call ends are parameters; the clock of a result is left out.
pub mod Seen
mod Tests
use soyaos.Prelude.{
  ℕ, suc, Bool, true, false, not, ◌&&◌, ◌||◌, List, [], ◌∷◌, ◌++◌, Option, none, some, Bytes,
  bytes_eq, codes, is_empty, Result, ok, err, ◌>>=◌, ltb, if◌then◌else◌,
}
use soyaos.Prelude.Dict.{lookup_key, set_key}
use soyaos.Store.{Store}
use soyaos.State.{Codec}
use soyaos.Soyapack.{Unicode, is_blank}
use soyaos.Kernel.Table.{ℤ, pos, negsuc}
use soyaos.Kernel.Agents.{Agent, Agents, Manifest, ActionDecl, lookup}
use soyaos.Kernel.Rows.{
  Value, text, other, Payload, Workbook, Identity, KernelError, canonical_row_field,
  load_row_payload,
}

pub data ActionError : Type 0 where
  unknown_agent no_manifest unknown_action bad_timeout invalid_payload canceled handler_failed :
      ActionError
  state_error : KernelError → ActionError

pub record ActionRequest : Type 0 where
  pub agent_slug : Bytes
  pub action_id : Bytes
  pub row_id : Bytes
  pub payload : Payload
  pub identity : Identity

-- The output of a result: what the default handler echoes, or what another one makes
pub data Output (T : Type 0) : Type 0 where
  echo : Payload → Bytes → Output T
  own : T → Output T

pub record ActionResult (T : Type 0) : Type 0 where
  pub task_id : Bytes
  pub status : Bytes
  pub agent_slug : Bytes
  pub action_id : Bytes
  pub row_id : Bytes
  pub output : Output T

abbrev pub ActionHandler : Type 0 → Type 0
ActionHandler T = ActionDecl → ActionRequest → Result ActionError (ActionResult T)

-- `defaultActionHandler`
unfoldable pub default_action_handler : {T : Type 0} → Bytes → ActionHandler T
default_action_handler task decl req = ok (record {
  task_id = task;
  status = codes "queued";
  agent_slug = req.agent_slug;
  action_id = decl.id;
  row_id = req.row_id;
  output = echo req.payload decl.handler;
})

-- The handlers of Packs, by slug and action, where a handler may be nil
abbrev pub PackActions : Type 0 → Type 0
PackActions T = List (Bytes × List (Bytes × Option (ActionHandler T)))

abbrev pub or_none : {A : Type 0} → Option (List A) → List A
or_none none = []
or_none (some l) = l

abbrev pub or_else : {A : Type 0} → Option A → A → A
or_else none a = a
or_else (some b) a = b

module _ {T : Type 0} where
  -- `Kernel.RegisterPackAction`
  unfoldable pub register_pack_action :
      Bytes → Bytes → Option (ActionHandler T) → PackActions T → PackActions T
  register_pack_action slug action h packs =
      set_key slug (set_key action h (or_none (lookup_key slug packs))) packs

  -- `Kernel.lookupPackAction`
  unfoldable pub lookup_pack_action :
      Bytes → Bytes → PackActions T → Option (Option (ActionHandler T))
  lookup_pack_action slug action packs = lookup_key action (or_none (lookup_key slug packs))

  -- The handler of the Pack, else that of the kernel, else the default
  unfoldable pub resolve_handler :
      Bytes → Bytes → Bytes → PackActions T → Option (ActionHandler T) → ActionHandler T
  unfolding lookup_pack_action default_action_handler
  resolve_handler task slug action packs global =
      or_else (or_else (lookup_pack_action slug action packs) global) (default_action_handler task)

-- The loop over the actions of a manifest
unfoldable pub find_action : Bytes → List ActionDecl → Option ActionDecl
find_action id [] = none
find_action id (a ∷ actions) = if bytes_eq a.id id then some a else find_action id actions

abbrev pub declared : Option ActionDecl → Result ActionError ActionDecl
declared none = err unknown_action
declared (some a) = ok a

abbrev pub action_of : Bytes → Option Manifest → Result ActionError ActionDecl
action_of id none = err no_manifest
action_of id (some m) = declared (find_action id m.actions)

abbrev pub is_positive : Option ℤ → Bool
is_positive (some (pos (suc n))) = true
is_positive _ = false

-- The entries of one map over those of another
unfoldable pub set_all : Payload → Payload → Payload
set_all [] p = p
set_all ((k, v) ∷ more) p = set_key k v (set_all more p)

abbrev pub merged : Option Payload → Payload → Payload
merged none payload = payload
merged (some stored) payload = set_all stored (set_all payload [])

abbrev pub title_key : Bytes
title_key = codes "title"

abbrev pub edited_key : Bytes
edited_key = codes "edited_title"

abbrev pub original_key : Bytes
original_key = codes "original_title"

abbrev pub stored_value : Bytes → Option Payload → Option Value
stored_value k none = none
stored_value k (some p) = lookup_key k p

abbrev pub agent_of : {H : Type 0} → Option (Agent H) → Result ActionError (Agent H)
agent_of none = err unknown_agent
agent_of (some a) = ok a

abbrev pub stored_of : Result KernelError (Option Payload) → Result ActionError (Option Payload)
stored_of (ok o) = ok o
stored_of (err e) = err (state_error e)

abbrev pub unless_ended :
    {T : Type 0} → Bool → Result ActionError (ActionResult T) → Result ActionError (ActionResult T)
unless_ended true r = err canceled
unless_ended false r = r

module _ (U : Unicode) (valid_utf8 : Bytes → Bool) where
  -- The loop that sets the aliases of the title
  unfoldable pub retitled : Bytes → Payload → Payload
  retitled title [] = []
  retitled title ((k, v) ∷ p) =
      (k, if bytes_eq (canonical_row_field U k) title_key then text title else v) ∷ retitled title p

  -- The edited title, if the payload has one, and the title of the stored row
  abbrev pub valid_edit : Option Value → Result ActionError Bytes
  valid_edit (some (text t)) =
      let title = U.trim_space t in
      if not (valid_utf8 title) || (is_empty title || ltb 500 (U.rune_count title))
      then err invalid_payload
      else ok title
  valid_edit _ = err invalid_payload

  abbrev pub valid_original : Option Value → Result ActionError Bytes
  valid_original (some (text t)) =
      if is_blank U t || not (valid_utf8 t) then err invalid_payload else ok t
  valid_original _ = err invalid_payload

  unfoldable pub edit_of :
      Option Value → Option Payload → Result ActionError (Option (Bytes × Bytes))
  edit_of none stored = ok none
  edit_of (some v) stored = valid_edit (some v) >>= λ title.
      valid_original (stored_value title_key stored) >>= λ original. ok (some (title, original))

  unfoldable pub with_edit : Option (Bytes × Bytes) → Payload → Payload
  unfolding retitled
  with_edit none p = p
  with_edit (some (title, original)) p = retitled title (
      set_key title_key (text title)
        (set_key edited_key (text title) (set_key original_key (text original) p)))

  module _ (S : Store) (J : Codec) (W : Workbook) {H T : Type 0} where
    -- `Kernel.InvokeAction`
    unfoldable pub invoke_action :
        (parse_duration : Bytes → Option ℤ)
        → (ended : Bool) → (task : Bytes) → Agents H
        → PackActions T
        → Option (ActionHandler T)
        → S.Db
        → Identity
        → (slug action row : Bytes) → Payload
        → Result ActionError (ActionResult T)
    unfolding resolve_handler edit_of with_edit
    invoke_action parse_duration ended task agents packs global d id slug action row payload =
        agent_of (lookup slug agents) >>= λ agent. action_of action agent.manifest >>= λ decl.
        if not (is_empty decl.timeout) && not (is_positive (parse_duration decl.timeout))
        then err bad_timeout
        else (stored_of (load_row_payload U S J W agent id row d) >>= λ stored.
            edit_of (lookup_key edited_key payload) stored >>= λ edit. unless_ended ended (
              resolve_handler task agent.slug action packs global decl (record {
                agent_slug = agent.slug;
                action_id = decl.id;
                row_id = row;
                payload = with_edit edit (merged stored payload);
                identity = id;
              })))
