-- ===== src/Environments/Table.antt =====
-- app/db/queries/environments.py and the handlers of app/routers/environments.py on environments.
pub mod Valid
pub mod Steps
use open_managed_agents.Metadata.{merge_metadata, normalize_metadata}
use open_managed_agents.Prelude.Sort.{sort_by}
use open_managed_agents.Environments.Config.{
  environment_scope, environment_config_with_scope, validate_environment_config,
}
use open_managed_agents.Sessions.Handlers.{must_get_environment}
use open_managed_agents.Json.{obj, empty, field, Dict}
use open_managed_agents.Result.{crash, http, err, map_ok, ok, Result}
use open_managed_agents.Runtime.{Runtime}
use open_managed_agents.Prelude.{
  not, suc, ◌++◌, keep, ltb, any, none, [], ◌||◌, if◌then◌else◌, take, ◌&&◌, ◌∷◌, or_else, Option,
  ◌==◌, List, is_none, some, Bool, ℕ, String,
}
use open_managed_agents.Db.{workspace_id_or_default, Db, Context, Environment}
use open_managed_agents.Exec.{check, Action, ◌>>=◌}

-- The arguments of the query `update_environment`; what is None leaves its column alone.
pub record EnvironmentChanges : Type 0 where
  pub name : Option String
  pub config : Option Dict
  pub description : Option String
  pub metadata : Option Dict

unfoldable pub changed_environment : EnvironmentChanges → ℕ → Environment → Environment
changed_environment ch now e = record e {
  name = or_else ch.name e.name;
  config = or_else ch.config e.config;
  description = or_else ch.description e.description;
  metadata = or_else ch.metadata e.metadata;
  updated_at = now;
}

unfoldable pub write_environment : Environment → List Environment → List Environment
write_environment e [] = []
write_environment e (x ∷ xs) =
    let rest = write_environment e xs in (if x.id == e.id then e else x) ∷ rest

abbrev pub put_environment : Environment → Action Environment
put_environment e c db = ok (e, record db { environments = write_environment e db.environments })

-- The unique constraint on the workspace and the name.
abbrev pub same_name : String → String → Environment → Bool
same_name ws name e = e.workspace_id == ws && e.name == name

abbrev pub clashes : Environment → List Environment → Bool
clashes e others = any (λ x. not (x.id == e.id) && same_name e.workspace_id e.name x) others

-- The flush fails where the new name would break the unique constraint.
unfoldable pub update_environment : Environment → EnvironmentChanges → Action Environment
update_environment e ch c db =
    let e' = changed_environment ch c.now e in
    if clashes e' db.environments then err (crash "IntegrityError") else put_environment e' c db

unfoldable pub archive_environment : Environment → Action Environment
archive_environment e c db =
    put_environment (record e { archived_at = some c.now; updated_at = c.now }) c db

unfoldable pub delete_environment : Environment → Action Environment
delete_environment e c db =
    put_environment (record e { deleted_at = some c.now; updated_at = c.now }) c db

-- The filter of `list_environments`.
unfoldable pub is_listed_environment : Bool → String → Environment → Bool
is_listed_environment include_archived ws e =
    is_none e.deleted_at && e.workspace_id == ws && (include_archived || is_none e.archived_at)

unfoldable pub list_environments : ℕ → Bool → Option String → Action (List Environment)
list_environments limit include_archived ws c db = ok (
  take limit (
      sort_by (λ a b. ltb b.created_at a.created_at)
        (keep (is_listed_environment include_archived (workspace_id_or_default c ws))
          db.environments)),
  db,
)

-- The body of a creation, and of an update, where None leaves a field alone.
pub record EnvironmentCreate : Type 0 where
  pub name : String
  pub description : Option String
  pub config : Option Dict
  pub metadata : Dict
  pub scope : Option String

pub record EnvironmentUpdate : Type 0 where
  pub name : Option String
  pub description : Option String
  pub config : Option Dict
  pub metadata : Option Dict
  pub scope : Option String

module _ ⦃r : Runtime⦄ where
  abbrev pub created_environment : String → Dict → Option String → Dict → Context → Db → Environment
  created_environment name config description metadata c db = record {
    id = r.new_id "env" db.drawn;
    workspace_id = workspace_id_or_default c none;
    name = name;
    description = or_else description "";
    config = config;
    metadata = metadata;
    archived_at = none;
    deleted_at = none;
    created_at = c.now;
    updated_at = c.now;
  }

  unfoldable pub insert_environment : String → Dict → Option String → Dict → Action Environment
  insert_environment name config description metadata c db =
      let e = created_environment name config description metadata c db in
      if any (same_name e.workspace_id name) db.environments
      then err (crash "IntegrityError")
      else ok (e, record db { environments = db.environments ++ e ∷ []; drawn = suc db.drawn })

  unfoldable pub normalize_environment_name : String → Result String
  normalize_environment_name name =
      if r.strip name == ""
      then err (http 422 "environment name must be a non-empty string")
      else ok (r.strip name)

  -- The validator of both bodies.
  abbrev pub validate_config : Option Dict → Result (Unit {0})
  validate_config none = ok tt
  validate_config (some config) = validate_environment_config config

  -- The rest of `create_environment` from its name on, and from its config on.
  abbrev pub create_configured : EnvironmentCreate → String → Dict → Action Environment
  create_configured body name config =
      check (normalize_metadata (obj body.metadata))
      >>= insert_environment name config body.description

  abbrev pub create_named : EnvironmentCreate → String → Action Environment
  create_named body name =
      check (environment_config_with_scope body.config body.scope) >>= create_configured body name

  abbrev pub create_validated : EnvironmentCreate → Unit {0} → Action Environment
  create_validated body _ = check (normalize_environment_name body.name) >>= create_named body

  unfoldable pub create_environment : EnvironmentCreate → Action Environment
  create_environment body = check (validate_config body.config) >>= create_validated body

  abbrev pub new_name : Option String → Result (Option String)
  new_name none = ok none
  new_name (some name) = map_ok some (normalize_environment_name name)

  -- `config or environment.config`: an empty config is as good as none.
  abbrev pub config_or : Option Dict → Dict → Dict
  config_or none old = old
  config_or (some empty) old = old
  config_or (some (field k v d)) old = field k v d

  -- The config that an update writes.
  unfoldable pub new_config : Option Dict → Option String → Dict → Result (Option Dict)
  new_config config (some scope) old =
      map_ok some (environment_config_with_scope (some (config_or config old)) (some scope))
  new_config none none old = ok none
  new_config (some config) none old =
      map_ok some (environment_config_with_scope (some config) (environment_scope old))

  abbrev pub new_metadata : Option Dict → Dict → Result (Option Dict)
  new_metadata none old = ok none
  new_metadata (some patch) old = map_ok some (merge_metadata (obj old) (obj patch))

  -- The rest of `update_environment` on the row, from its name on, and from its config on.
  abbrev pub update_configured :
      EnvironmentUpdate
      → Environment
      → Option String
      → Option Dict
      → Option Dict
      → Action Environment
  update_configured body e name config metadata =
      update_environment e (record {
        name = name;
        config = config;
        description = body.description;
        metadata = metadata;
      })

  abbrev pub update_named :
      EnvironmentUpdate → Environment → Option String → Option Dict → Action Environment
  update_named body e name config =
      check (new_metadata body.metadata e.metadata) >>= update_configured body e name config

  abbrev pub update_with_name : EnvironmentUpdate → Environment → Option String → Action Environment
  update_with_name body e name =
      check (new_config body.config body.scope e.config) >>= update_named body e name

  abbrev pub update_found : EnvironmentUpdate → Environment → Action Environment
  update_found body e = check (new_name body.name) >>= update_with_name body e

  abbrev pub update_validated : String → EnvironmentUpdate → Unit {0} → Action Environment
  update_validated environment_id body _ = must_get_environment environment_id >>= update_found body

  unfoldable pub update_environment_by_id : String → EnvironmentUpdate → Action Environment
  update_environment_by_id environment_id body =
      check (validate_config body.config) >>= update_validated environment_id body

  unfoldable pub archive_environment_by_id : String → Action Environment
  archive_environment_by_id environment_id = do
    e ← must_get_environment environment_id
    archive_environment e

  unfoldable pub delete_environment_by_id : String → Action Environment
  delete_environment_by_id environment_id = do
    e ← must_get_environment environment_id
    delete_environment e
