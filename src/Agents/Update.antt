-- ===== src/Agents/Update.antt =====
-- app/routers/agents.py: the configuration that an update asks for, over the active version's.
pub mod Merge
use open_managed_agents.Metadata.{merge_metadata}
use open_managed_agents.Environments.Config.{is_member}
use open_managed_agents.Agents.Versions.{AgentConfig}
use open_managed_agents.Db.{AgentVersion}
use open_managed_agents.Runtime.{Runtime}
use open_managed_agents.Json.{
  get, empty, int, from_items, is_text, as_list, or_value, field, arr, as_dict, as_str, obj, lookup,
  put, str, Dict, Value,
}
use open_managed_agents.Result.{http, err, ok, Result, ◌>>=◌}
use open_managed_agents.Prelude.{
  Option, pos, map, [], ◌∷◌, ◌==◌, if◌then◌else◌, or_else, Bool, List, ℕ, String, none, some, true,
  false,
}

abbrev pub unprocessable {ℓ} : {A : Type ℓ} → String → Result A
unprocessable detail = err (http 422 detail)

-- `value or []`, for a body's field that is a list or None.
abbrev pub list_or_empty : Value → List Value
list_or_empty v = or_else (as_list v) []

abbrev pub present_or {ℓ} : {A : Type ℓ} → Option Value → A → (Value → A) → A
present_or none old new = old
present_or (some v) old new = new v

-- `if key in update: …`, with the old value where the key is missing.
abbrev pub if_present {ℓ} : {A : Type ℓ} → String → Dict → A → (Value → A) → A
if_present key update old new = present_or (lookup key update) old new

-- `entry["type"] == "self"`
abbrev pub is_self : Value → Bool
is_self (obj d) = is_text (get "type" d) "self"
is_self _ = false

abbrev pub resolved_entry : String → ℕ → Value → Value
resolved_entry agent_id version entry =
    if is_self entry
    then obj (
        field "type" (str "agent")
          (field "id" (str agent_id) (field "version" (int (pos version)) empty)))
    else entry

-- `_resolve_multiagent_self_entries`
unfoldable pub resolve_self_entries : String → ℕ → Dict → Dict
resolve_self_entries agent_id version multiagent =
    put "agents"
      (arr (
        from_items
          (map (resolved_entry agent_id version) (list_or_empty (get "agents" multiagent)))))
      multiagent

module _ ⦃r : Runtime⦄ where
  unfoldable pub normalize_agent_name : Value → Result String
  normalize_agent_name v = elim (as_str v) [
    | none ↦ unprocessable "name must be a non-empty string"
    | some s ↦
        if r.strip s == "" then unprocessable "name must be a non-empty string" else ok (r.strip s)
  ]

  -- `normalized["speed"] not in {None, "standard", "fast"}`, where the key is there.
  unfoldable pub check_speed : Dict → Result Dict
  check_speed d = elim (lookup "speed" d) [
    | none ↦ ok d
    | some v ↦ is_member ("standard" ∷ "fast" ∷ []) true v >>= λ known.
        if known then ok d else unprocessable "model.speed must be standard or fast"
  ]

  unfoldable pub normalize_model_object : Dict → Result Dict
  normalize_model_object d = elim (as_str (or_value (get "id" d) (get "model" d))) [
    | none ↦ unprocessable "model.id must be a non-empty string"
    | some s ↦
        if r.strip s == ""
        then unprocessable "model.id must be a non-empty string"
        else check_speed (put "id" (str (r.strip s)) d)
  ]

  unfoldable pub normalize_agent_model : Value → Result Dict
  normalize_agent_model (str s) =
      if r.strip s == ""
      then unprocessable "model id must be a non-empty string"
      else ok (field "id" (str (r.strip s)) empty)
  normalize_agent_model (obj d) = normalize_model_object d
  normalize_agent_model _ = unprocessable "model must be a string or object"

  -- What the checked fields come to: the name, the model and the metadata.
  abbrev pub merged_name : AgentVersion → Dict → Result String
  merged_name active update = if_present "name" update (ok active.name) normalize_agent_name

  abbrev pub merged_model : AgentVersion → Dict → Result Dict
  merged_model active update = if_present "model" update (ok active.model) normalize_agent_model

  abbrev pub merged_metadata : AgentVersion → Dict → Result Dict
  merged_metadata active update =
      if_present "metadata" update (ok active.metadata) (merge_metadata (obj active.metadata))

  abbrev pub merged_config : AgentVersion → Dict → String → Dict → Dict → AgentConfig
  merged_config active update name model metadata = record {
    name = name;
    model = model;
    system = if_present "system" update active.system as_str;
    description = if_present "description" update active.description as_str;
    tools = if_present "tools" update active.tools list_or_empty;
    mcp_servers = if_present "mcp_servers" update active.mcp_servers list_or_empty;
    skills = if_present "skills" update active.skills list_or_empty;
    multiagent = if_present "multiagent" update active.multiagent as_dict;
    metadata = metadata;
    runtime = if_present "runtime" update active.runtime (λ v. or_else (as_dict v) empty);
  }

  unfoldable pub merge_agent_update : AgentVersion → Dict → Result AgentConfig
  merge_agent_update active update = merged_name active update >>= λ name.
      merged_model active update >>= λ model. merged_metadata active update >>= λ metadata.
      ok (merged_config active update name model metadata)
