-- ===== src/Environments/Config.antt =====
-- app/models/environments.py: the checks on an environment's config, and the scope kept in it. A
-- ValueError of a model's validator is answered with 422.
pub mod Scope
use open_managed_agents.Json.{
  null, obj, arr, put, as_dict, empty, is_text, as_list, str, lookup, is_null, get, as_str, int,
  field, bool, Value, Dict,
}
use open_managed_agents.Prelude.{
  ◌==◌, not, is_some, all, true, ◌||◌, one_of, false, suc, [], some, pos, none, ◌∷◌, joined, Bool,
  if◌then◌else◌, or_else, String, Option, List,
}
use open_managed_agents.Runtime.{Runtime}
use open_managed_agents.Result.{crash, http, err, ok, Result, ◌>>=◌, ◌>>◌}

abbrev pub Checked : Type 0
Checked = Result (Unit {0})

abbrev pub invalid : String → Checked
invalid message = err (http 422 message)

-- `value in {…}` with None among the texts if `allows_null`; a list or a dict has no hash.
unfoldable pub is_member : List String → Bool → Value → Result Bool
is_member texts allows_null (str s) = ok (one_of s texts)
is_member texts allows_null null = ok allows_null
is_member texts allows_null (arr vs) = err (crash "TypeError")
is_member texts allows_null (obj d) = err (crash "TypeError")
is_member texts allows_null (bool b) = ok false
is_member texts allows_null (int z) = ok false

unfoldable pub require_member : List String → Bool → Value → String → Checked
require_member texts allows_null v message =
    is_member texts allows_null v >>= λ found. if found then ok tt else invalid message

-- `config.get(key, default)`
abbrev pub get_or : String → Value → Dict → Value
get_or key default d = or_else (lookup key d) default

-- A part that may be missing or None, and else is an object that passes.
unfoldable pub check_object : Value → String → (Dict → Checked) → Checked
check_object v message next =
    if is_null v then ok tt else elim (as_dict v) [ none ↦ invalid message | some d ↦ next d ]

-- A loop over keys whose values may be missing or None.
unfoldable pub check_keys : List String → (String → Value → Checked) → Dict → Checked
check_keys [] next d = ok tt
check_keys (key ∷ keys) next d =
    let rest = check_keys keys next d in
    let v = get key d in if is_null v then rest else next key v >> rest

-- Numbers of the JSON are integers here.
unfoldable pub validate_positive_number : String → Value → Checked
validate_positive_number name (int (pos (suc n))) = ok tt
validate_positive_number name _ = invalid (joined name " must be a positive number")

module _ ⦃r : Runtime⦄ where
  abbrev pub is_full_text : Value → Bool
  is_full_text v = elim (as_str v) [ none ↦ false | some s ↦ not (r.strip s == "") ]

  unfoldable pub validate_string_list : String → Value → Checked
  validate_string_list name v =
      let message = joined name " must be an array of non-empty strings" in
      elim (as_list v) [
        | none ↦ invalid message
        | some vs ↦ if all is_full_text vs then ok tt else invalid message
      ]

  abbrev pub validate_flag : String → Value → Checked
  validate_flag name (bool b) = ok tt
  validate_flag name _ = invalid (joined name " must be a boolean")

  abbrev pub networking_fields : Dict → Checked
  networking_fields d =
      require_member ("unrestricted" ∷ "restricted" ∷ "limited" ∷ "none" ∷ []) true (get "type" d)
        "environment config.networking.type is unsupported"
      >> check_keys ("allowed_hosts" ∷ [])
          (λ key. validate_string_list (joined "environment config.networking." key)) d
      >> check_keys ("allow_mcp_servers" ∷ "allow_package_managers" ∷ [])
          (λ key. validate_flag (joined "environment config.networking." key)) d

  unfoldable pub validate_networking : Value → Checked
  validate_networking v =
      check_object v "environment config.networking must be an object" networking_fields

  unfoldable pub validate_packages : Value → Checked
  validate_packages v = check_object v "environment config.packages must be an object" (
      check_keys ("apt" ∷ "cargo" ∷ "gem" ∷ "go" ∷ "npm" ∷ "pip" ∷ [])
        (λ key. validate_string_list (joined "environment config.packages." key)))

  unfoldable pub validate_resources : Value → Checked
  validate_resources v = check_object v "environment config.resources must be an object" (
      check_keys ("cpu" ∷ "memory_mb" ∷ "disk_mb" ∷ "timeout_seconds" ∷ [])
        (λ key. validate_positive_number (joined "environment config.resources." key)))

  unfoldable pub validate_limit_object : Value → String → List String → Checked
  validate_limit_object v name keys =
      check_object v (joined name " must be an object")
        (check_keys keys (λ key. validate_positive_number (joined name (joined "." key))))

  abbrev pub validate_root : Value → Checked
  validate_root v =
      if is_null v || is_some (as_str v)
      then ok tt
      else invalid "environment config.sandbox.root must be a string"

  abbrev pub sandbox_fields : Dict → Checked
  sandbox_fields d =
      require_member ("unix_local" ∷ "self_hosted_worker" ∷ "unconfigured_cloud" ∷ []) true
        (get "backend" d) "environment config.sandbox.backend is unsupported"
      >> validate_root (get "root" d)
      >> validate_limit_object (get "concurrency_limits" d)
          "environment config.sandbox.concurrency_limits"
          ("manifest_entries" ∷ "local_dir_files" ∷ [])
      >> validate_limit_object (get "archive_limits" d) "environment config.sandbox.archive_limits"
          ("max_input_bytes" ∷ "max_extracted_bytes" ∷ "max_members" ∷ [])

  unfoldable pub validate_sandbox : Value → Checked
  validate_sandbox v = check_object v "environment config.sandbox must be an object" sandbox_fields

  unfoldable pub validate_environment_config : Dict → Checked
  validate_environment_config config =
      require_member ("cloud" ∷ "self_hosted" ∷ "local" ∷ []) false
        (get_or "type" (str "cloud") config)
        "environment config.type must be cloud, self_hosted, or local"
      >> validate_networking (get "networking" config)
      >> validate_packages (get "packages" config)
      >> validate_resources (get "resources" config)
      >> validate_sandbox (get "sandbox" config)

-- `dict(config or {"type": "cloud"})`
abbrev pub config_or_cloud : Option Dict → Dict
config_or_cloud none = field "type" (str "cloud") empty
config_or_cloud (some empty) = field "type" (str "cloud") empty
config_or_cloud (some (field k v d)) = field k v d

-- `environment_config_with_scope`; the callers answer its ValueError with 422.
unfoldable pub environment_config_with_scope : Option Dict → Option String → Result Dict
environment_config_with_scope config none = ok (config_or_cloud config)
environment_config_with_scope config (some scope) =
    let d = config_or_cloud config in
    if is_text (get_or "type" (str "cloud") d) "self_hosted"
    then ok (put "_scope" (str scope) d)
    else err (http 422 "environment scope is only supported for self_hosted environments")

-- A list or a dict under the key is a TypeError in the program, and no scope here.
unfoldable pub environment_scope : Dict → Option String
environment_scope config = elim (as_str (get "_scope" config)) [
  | none ↦ none
  | some s ↦ if one_of s ("organization" ∷ "account" ∷ []) then some s else none
]
