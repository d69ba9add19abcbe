-- ===== src/Kernel/Agents.antt =====
-- pkg/kernel/kernel.go: the registry of agents. Of a manifest there is what the kernel reads of it; the handler of an
-- agent is a parameter `H`, and a map is an association list.
use soyaos.Prelude.{
  not, List, [], ◌∷◌, ◌++◌, Option, none, some, Bytes, codes, is_empty, has_prefix, if◌then◌else◌,
}
use soyaos.Prelude.Dict.{lookup_key, set_key}

pub record ActionDecl : Type 0 where
  pub id : Bytes
  pub handler : Bytes
  pub timeout : Bytes

pub record ArtifactDecl : Type 0 where
  pub kind : Bytes
  pub schema : Bytes

-- `state` is the scope that the manifest declares, if it declares state.
pub record Manifest : Type 0 where
  pub actions : List ActionDecl
  pub artifacts : List ArtifactDecl
  pub state : Option Bytes

pub record Agent (H : Type 0) : Type 0 where
  pub slug : Bytes
  pub handler : H
  pub manifest : Option Manifest

abbrev pub virtual_model_prefix : Bytes
virtual_model_prefix = codes "soya:"

abbrev pub Agents : Type 0 → Type 0
Agents H = List (Bytes × Agent H)

module _ {H : Type 0} where
  -- `Agent.ModelID`
  abbrev pub model_id : Agent H → Bytes
  model_id a = virtual_model_prefix ++ a.slug

  -- `Kernel.Register`
  unfoldable pub register : Agent H → Agents H → Agents H
  register a agents = set_key (model_id a) a agents

  abbrev pub or_bare : Bytes → Agents H → Option (Agent H) → Option (Agent H)
  or_bare model agents (some a) = some a
  or_bare model agents none =
      if not (has_prefix model virtual_model_prefix)
      then lookup_key (virtual_model_prefix ++ model) agents
      else none

  -- `Kernel.Lookup`
  unfoldable pub lookup : Bytes → Agents H → Option (Agent H)
  lookup model agents = or_bare model agents (lookup_key model agents)

  -- `Kernel.List`, in the order of the map
  unfoldable pub list : Agents H → List (Agent H)
  list [] = []
  list ((_, a) ∷ agents) = a ∷ list agents

  abbrev pub manifest_of : Option (Agent H) → Option Manifest
  manifest_of none = none
  manifest_of (some a) = a.manifest

  -- `Kernel.GetAgentManifest`
  unfoldable pub get_agent_manifest : Bytes → Agents H → Option Manifest
  unfolding lookup
  get_agent_manifest slug agents = manifest_of (lookup slug agents)

-- A target of a NAS, with its handle
pub record NasTarget (T : Type 0) : Type 0 where
  pub id : Bytes
  pub handle : T

abbrev pub NasTargets : Type 0 → Type 0
NasTargets T = List (Bytes × List (Bytes × NasTarget T))

abbrev pub or_primary : Bytes → Bytes
or_primary id = if is_empty id then codes "primary" else id

abbrev pub targets_of :
    {T : Type 0} → Option (List (Bytes × NasTarget T)) → List (Bytes × NasTarget T)
targets_of none = []
targets_of (some targets) = targets

module _ {T : Type 0} where
  -- `Kernel.LookupNAS`
  unfoldable pub lookup_nas : Bytes → Bytes → NasTargets T → Option (NasTarget T)
  lookup_nas slug id nas = lookup_key (or_primary id) (targets_of (lookup_key slug nas))

  -- `Kernel.storeNASTarget`
  unfoldable pub store_nas_target : Bytes → NasTarget T → NasTargets T → NasTargets T
  store_nas_target slug t nas =
      set_key slug
        (set_key (or_primary t.id) (record t { id = or_primary t.id })
          (targets_of (lookup_key slug nas)))
        nas
