-- ===== src/Kernel/Actions/Seen.antt =====
-- What a handler sees of the payload and of the stored row, in `InvokeAction` of pkg/kernel/actions.go.
use mathlib.Core.Option.{some-injective}
use soyaos.Prelude.{
  ◌≡◌, refl, sym, ◌∙◌, ap, inl, inr, Bool, true, false, not, ◌&&◌, List, [], ◌∷◌, Option, none,
  some, Bytes, bytes_eq, bytes_eq_iff, is_empty, Result, ok, err, bind-ok, In, arith, Bool-cases,
  if◌then◌else◌, ok-injective,
}
use soyaos.Prelude.Dict.{lookup_key, set_key, lookup_key-set_key}
use soyaos.Store.{Store}
use soyaos.State.{Codec}
use soyaos.Soyapack.{Unicode}
use soyaos.Kernel.Table.{ℤ}
use soyaos.Kernel.Agents.{Agent, Agents, Manifest, ActionDecl, lookup}
use soyaos.Kernel.Rows.{
  Value, text, Payload, Workbook, Identity, KernelError, canonical_row_field, load_row_payload,
}
use soyaos.Kernel.Actions.{
  ActionError, ActionRequest, ActionResult, ActionHandler, PackActions, resolve_handler,
  find_action, declared, action_of, is_positive, set_all, merged, title_key, edited_key,
  original_key, retitled, edit_of, with_edit, agent_of, stored_of, unless_ended, invoke_action,
}

abbrev pub first_of : Option Value → Option Value → Option Value
first_of (some v) o = some v
first_of none o = o

lookup_key-set_all :
    (k : Bytes) (s p : Payload)
    → lookup_key k (set_all s p) ≡ first_of (lookup_key k s) (lookup_key k p)
unfolding set_all lookup_key
lookup_key-set_all k [] p = refl
lookup_key-set_all k ((j, v) ∷ s) p =
    ground (arith, lookup_key-set_key k j v (set_all s p), lookup_key-set_all k s p)

-- The specification of what there is at a key, before an edit: the stored row comes first.
abbrev pub authoritative : Bytes → Option Payload → Payload → Option Value
authoritative k none payload = lookup_key k payload
authoritative k (some stored) payload = first_of (lookup_key k stored) (lookup_key k payload)

lookup_key-merged :
    (k : Bytes) (stored : Option Payload) (payload : Payload)
    → lookup_key k (merged stored payload) ≡ authoritative k stored payload
unfolding lookup_key
lookup_key-merged k none payload = refl
lookup_key-merged k (some s) payload =
    lookup_key-set_all k s (set_all payload [])
    ∙ ap (first_of (lookup_key k s))
        (lookup_key-set_all k payload [] ∙ first_of-none (lookup_key k payload))
  where
    first_of-none : (o : Option Value) → first_of o none ≡ o
    first_of-none none = refl
    first_of-none (some v) = refl

module _ (U : Unicode) (valid_utf8 : Bytes → Bool) where
  abbrev pub if_title : Bytes → Bytes → Option Value → Option Value
  if_title title k none = none
  if_title title k (some v) =
      some (if bytes_eq (canonical_row_field U k) title_key then text title else v)

  -- And after it: the names of the title have the edited one, and the stored one is kept as the original.
  abbrev pub edited : Option (Bytes × Bytes) → Bytes → Option Value → Option Value
  edited none k o = o
  edited (some (title, original)) k o = if_title title k (
      if bytes_eq title_key k
      then some (text title)
      else if bytes_eq edited_key k
      then some (text title)
      else if bytes_eq original_key k
      then some (text original)
      else o)

  lookup_key-retitled :
      (title k : Bytes) (p : Payload)
      → lookup_key k (retitled U valid_utf8 title p) ≡ if_title title k (lookup_key k p)
  unfolding retitled lookup_key
  lookup_key-retitled title k [] = refl
  lookup_key-retitled title k ((j, v) ∷ p) = elim (Bool-cases (bytes_eq j k)) [
    | inl e ↦
        let same : j ≡ k = (bytes_eq_iff j k).0 e in
        rw e (
          ap (λ c. some (if bytes_eq (canonical_row_field U c) title_key then text title else v))
            same)
    | inr e ↦ rw e (lookup_key-retitled title k p)
  ]

  lookup_key-with_edit :
      (e : Option (Bytes × Bytes)) (k : Bytes) (p : Payload)
      → lookup_key k (with_edit U valid_utf8 e p) ≡ edited e k (lookup_key k p)
  unfolding with_edit
  lookup_key-with_edit none k p = refl
  lookup_key-with_edit (some (title, original)) k p =
      let p1 = set_key original_key (text original) p in
      let p2 = set_key edited_key (text title) p1 in
      lookup_key-retitled title k (set_key title_key (text title) p2)
      ∙ ap (if_title title k) (
          rw (lookup_key-set_key k title_key (text title) p2) (
            rw (lookup_key-set_key k edited_key (text title) p1)
              (rw (lookup_key-set_key k original_key (text original) p) refl)))

find_action-In :
    (id : Bytes) (actions : List ActionDecl) (a : ActionDecl)
    → find_action id actions ≡ some a
    → In a actions × (a.id ≡ id)
unfolding find_action
find_action-In id [] a h = cc
find_action-In id (b ∷ actions) a h = elim (Bool-cases (bytes_eq b.id id)) [
  | inl e ↦
      let same : b ≡ a = some-injective b a (rw e at h) in
      (inl (sym same), ap (λ (x : ActionDecl). x.id) (sym same) ∙ (bytes_eq_iff b.id id).0 e)
  | inr e ↦ let (m, i) = find_action-In id actions a (rw e at h) in (inr m, i)
]

action_of-ok :
    (id : Bytes) (o : Option Manifest) (a : ActionDecl)
    → action_of id o ≡ ok a
    → (m : Manifest) × (o ≡ some m) × In a m.actions × (a.id ≡ id)
action_of-ok id none a h = cc
action_of-ok id (some m) a h =
    let (member, name) = find_action-In id m.actions a (found (find_action id m.actions) h) in
    (m, refl, member, name)
  where
    found : (o : Option ActionDecl) → declared o ≡ ok a → o ≡ some a
    found none g = cc
    found (some b) g = ap some (ok-injective g)

agent_of-ok : {H : Type 0} (o : Option (Agent H)) (a : Agent H) → agent_of o ≡ ok a → o ≡ some a
agent_of-ok none a h = cc
agent_of-ok (some b) a h = ap some (ok-injective h)

stored_of-ok :
    (r : Result KernelError (Option Payload)) (o : Option Payload) → stored_of r ≡ ok o → r ≡ ok o
stored_of-ok (ok p) o h = ap ok (ok-injective h)
stored_of-ok (err e) o h = cc

module _ (U : Unicode) (valid_utf8 : Bytes → Bool) (S : Store) (J : Codec) (W : Workbook)
    {H T : Type 0} (parse_duration : Bytes → Option ℤ) (ended : Bool) (task : Bytes)
    (agents : Agents H) (packs : PackActions T) (global : Option (ActionHandler T)) (d : S.Db)
    (id : Identity) (slug action row : Bytes) (payload : Payload) where
  -- A handler served the request: it is that of the action in the manifest of the agent, it was called for the row, and
  -- it saw at each key what the specification says.
  abbrev pub IsServed : ActionResult T → Type 0
  IsServed r =
      (agent : Agent H) × (m : Manifest) × (decl : ActionDecl) × (stored : Option Payload)
      × (edit : Option (Bytes × Bytes)) × (req : ActionRequest) × (lookup slug agents ≡ some agent)
      × (agent.manifest ≡ some m)
      × In decl m.actions
      × (decl.id ≡ action)
      × (load_row_payload U S J W agent id row d ≡ ok stored)
      × (edit_of U valid_utf8 (lookup_key edited_key payload) stored ≡ ok edit)
      × (req.row_id ≡ row)
      × (req.identity ≡ id)
      × ((k : Bytes)
          → lookup_key k req.payload ≡ edited U valid_utf8 edit k (authoritative k stored payload))
      × (resolve_handler task agent.slug action packs global decl req ≡ ok r)

  -- A result of `InvokeAction` is that of the handler of an action that the manifest of the agent
  -- declares, called for the row and by the identity of the request. The handler sees at each key
  -- the value of the stored row, and else that of the caller; if the title is edited, every name
  -- of the title has the edited one, so has `edited_title`, and `original_title` is the stored
  -- one, unless they are such names.
  pub invoke_action-IsServed :
      (r : ActionResult T)
      → invoke_action U valid_utf8 S J W parse_duration ended task agents packs global d id slug
          action row payload
        ≡ ok r
      → IsServed r
  unfolding invoke_action
  invoke_action-IsServed r h =
      let (agent, e1, h1) = bind-ok (agent_of (lookup slug agents)) _ r h in
      let (decl, e2, h2) = bind-ok (action_of action agent.manifest) _ r h1 in
      let (m, e3, member, name) = action_of-ok action agent.manifest decl e2 in
      let h3 =
        in_time (not (is_empty decl.timeout) && not (is_positive (parse_duration decl.timeout))) _
          h2 in
      let (stored, e4, h4) = bind-ok (stored_of (load_row_payload U S J W agent id row d)) _ r h3 in
      let (edit, e5, h5) =
        bind-ok (edit_of U valid_utf8 (lookup_key edited_key payload) stored) _ r h4 in
      (
        agent,
        m,
        decl,
        stored,
        edit,
        _,
        agent_of-ok (lookup slug agents) agent e1,
        e3,
        member,
        name,
        stored_of-ok (load_row_payload U S J W agent id row d) stored e4,
        e5,
        refl,
        refl,
        λ k.
            lookup_key-with_edit U valid_utf8 edit k (merged stored payload)
            ∙ ap (edited U valid_utf8 edit k) (lookup_key-merged k stored payload),
        still_open ended _ h5,
      )
    where
      in_time :
          (b : Bool) (x : Result ActionError (ActionResult T))
          → (if b then err ActionError.bad_timeout else x) ≡ ok r
          → x ≡ ok r
      in_time true x g = cc
      in_time false x g = g

      still_open :
          (b : Bool) (x : Result ActionError (ActionResult T)) → unless_ended b x ≡ ok r → x ≡ ok r
      still_open true x g = cc
      still_open false x g = g
