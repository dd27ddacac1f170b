-- ===== src/Resources/Writes.antt =====
-- The writes of app/db/queries/resources.py, and the version counter.
use open_managed_agents.Prelude.{
  ℕ, suc, ◌+◌, max, String, Bool, false, ◌&&◌, Option, none, some, List, [], ◌∷◌, ◌++◌, ◌==◌, eqb,
  if◌then◌else◌, keep, any, or_else,
}
use open_managed_agents.Json.{Dict, empty}
use open_managed_agents.Runtime.{Runtime}
use open_managed_agents.Result.{ok, err, crash}
use open_managed_agents.Db.{
  Db, Context, Resource, Status, workspace_id_or_default, active, archived, deleted,
}
use open_managed_agents.Resources.Queries.{column_is}
use open_managed_agents.Exec.{Action}

-- What a call of `update_resource` gives: the arguments that are None leave their column alone.
pub record Changes : Type 0 where
  pub payload : Option Dict
  pub name : Option String
  pub status : Option Status
  pub content : Option (List ℕ)
  pub content_type : Option String
  pub filename : Option String
  pub storage_backend : Option String
  pub storage_key : Option String
  pub storage_url : Option String
  pub size_bytes : Option ℕ
  pub sha256 : Option String

abbrev pub no_changes : Changes
no_changes = record {
  payload = none;
  name = none;
  status = none;
  content = none;
  content_type = none;
  filename = none;
  storage_backend = none;
  storage_key = none;
  storage_url = none;
  size_bytes = none;
  sha256 = none;
}

-- `if value is not None: column = value`, for a column that may be NULL.
abbrev pub given_or {ℓ} : {A : Type ℓ} → Option A → Option A → Option A
given_or none old = old
given_or (some a) old = some a

-- The row that the flush writes; `updated_at` is stamped by the table's `onupdate`.
unfoldable pub changed : Changes → ℕ → Resource → Resource
changed ch now row = record row {
  payload = or_else ch.payload row.payload;
  name = given_or ch.name row.name;
  status = or_else ch.status row.status;
  content = given_or ch.content row.content;
  content_type = given_or ch.content_type row.content_type;
  filename = given_or ch.filename row.filename;
  storage_backend = given_or ch.storage_backend row.storage_backend;
  storage_key = given_or ch.storage_key row.storage_key;
  storage_url = given_or ch.storage_url row.storage_url;
  size_bytes = given_or ch.size_bytes row.size_bytes;
  sha256 = given_or ch.sha256 row.sha256;
  updated_at = now;
}

-- `UPDATE … WHERE id = …`: the flush of a row object.
unfoldable pub write_row : Resource → List Resource → List Resource
write_row row [] = []
write_row row (x ∷ xs) = (if x.id == row.id then row else x) ∷ write_row row xs

unfoldable pub update_resource : Resource → Changes → Action Resource
unfolding changed write_row
update_resource row ch c db =
    let row' = changed ch c.now row in
    ok (row', record db { resources = write_row row' db.resources })

unfoldable pub archive_resource : Resource → Action Resource
unfolding write_row
archive_resource row c db =
    let row' = record row { archived_at = some c.now; status = archived; updated_at = c.now } in
    ok (row', record db { resources = write_row row' db.resources })

unfoldable pub delete_resource : Resource → Action Resource
unfolding write_row
delete_resource row c db =
    let row' = record row { deleted_at = some c.now; status = deleted; updated_at = c.now } in
    ok (row', record db { resources = write_row row' db.resources })

-- What a call of `create_resource` gives.
pub record NewResource : Type 0 where
  pub resource_type : String
  pub payload : Option Dict
  pub parent_id : Option String
  pub version : Option ℕ
  pub name : Option String
  pub status : Status
  pub content : Option (List ℕ)
  pub content_type : Option String
  pub filename : Option String
  pub storage_backend : Option String
  pub storage_key : Option String
  pub storage_url : Option String
  pub size_bytes : Option ℕ
  pub sha256 : Option String
  pub workspace_id : Option String

-- The arguments' defaults.
abbrev pub new_resource : String → NewResource
new_resource type = record {
  resource_type = type;
  payload = none;
  parent_id = none;
  version = none;
  name = none;
  status = active;
  content = none;
  content_type = none;
  filename = none;
  storage_backend = none;
  storage_key = none;
  storage_url = none;
  size_bytes = none;
  sha256 = none;
  workspace_id = none;
}

abbrev prefixes : List (String × String)
prefixes =
    ("skill", "skill")
    ∷ ("skill_version", "skver")
    ∷ ("file", "file")
    ∷ ("vault", "vault")
    ∷ ("credential", "cred")
    ∷ ("memory_store", "memstore")
    ∷ ("memory", "mem")
    ∷ ("memory_version", "memver")
    ∷ ("deployment", "deploy")
    ∷ ("deployment_run", "deprun")
    ∷ ("user_profile", "uprof")
    ∷ ("user_profile_enrollment", "upenroll")
    ∷ ("session_resource", "sesrsc")
    ∷ ("session_thread", "thread")
    ∷ ("environment_work", "work")
    ∷ []

-- `PREFIXES.get(resource_type, "res")`
abbrev prefix_in : List (String × String) → String → String
prefix_in [] type = "res"
prefix_in ((t, p) ∷ ps) type = if t == type then p else prefix_in ps type

-- The unique constraint on (resource_type, parent_id, version), where a NULL equals nothing.
unfoldable pub same_version : NewResource → Resource → Bool
same_version new row =
    row.resource_type == new.resource_type
    && (elim new.parent_id [ none ↦ false | some p ↦ column_is row.parent_id p ])
    && (elim new.version [
      | none ↦ false
      | some v ↦ elim row.version [ none ↦ false | some w ↦ eqb w v ]
    ])

unfoldable pub created : ⦃r : Runtime⦄ → NewResource → Context → Db → Resource
created ⦃r⦄ new c db = record {
  id = r.new_id (prefix_in prefixes new.resource_type) db.drawn;
  workspace_id = workspace_id_or_default c new.workspace_id;
  resource_type = new.resource_type;
  parent_id = new.parent_id;
  version = new.version;
  name = new.name;
  status = new.status;
  payload = or_else new.payload empty;
  content = new.content;
  content_type = new.content_type;
  filename = new.filename;
  storage_backend = new.storage_backend;
  storage_key = new.storage_key;
  storage_url = new.storage_url;
  size_bytes = new.size_bytes;
  sha256 = new.sha256;
  archived_at = none;
  deleted_at = none;
  created_at = c.now;
  updated_at = c.now;
}

-- The flush fails where the row would break the unique constraint.
unfoldable pub create_resource : ⦃r : Runtime⦄ → NewResource → Action Resource
unfolding created same_version
create_resource new c db =
    let row = created new c db in
    if any (same_version new) db.resources
    then err (crash "IntegrityError")
    else ok (row, record db { resources = db.resources ++ row ∷ []; drawn = suc db.drawn })

abbrev pub highest_version : List Resource → ℕ
highest_version [] = 0
highest_version (row ∷ rows) = max (or_else row.version 0) (highest_version rows)

-- The filter of `next_version`, which deleted rows pass too.
unfoldable pub is_child : String → String → String → Resource → Bool
is_child type parent ws row =
    row.resource_type == type && column_is row.parent_id parent && row.workspace_id == ws

unfoldable pub next_version : String → String → Option String → Action ℕ
unfolding is_child
next_version type parent ws c db = ok (
  highest_version (keep (is_child type parent (workspace_id_or_default c ws)) db.resources) + 1,
  db,
)
