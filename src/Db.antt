-- ===== src/Db.antt =====
-- The rows of the database (app/db/models/domain.py), the database as the tables that the modelled
-- code reads and writes, and the context of one request: its workspace and its moment.
use open_managed_agents.Prelude.{ℕ, String, Option, none, some, List, ◌==◌, if◌then◌else◌}
use open_managed_agents.Json.{Dict, Value}

-- The texts that the program writes to, or looks for in, `managed_resources.status`.
pub data Status : Type 0 where
  active paused queued rescheduling leased running stopping completed error stopped : Status
  idle archived deleted : Status

-- One table row for every kind of resource, told apart by `resource_type`.
pub record Resource : Type 0 where
  pub id : String
  pub workspace_id : String
  pub resource_type : String
  pub parent_id : Option String
  pub version : Option ℕ
  pub name : Option String
  pub status : Status
  pub payload : Dict
  pub content : Option (List ℕ)
  pub content_type : Option String
  pub filename : Option String
  pub storage_backend : Option String
  pub storage_key : Option String
  pub storage_url : Option String
  pub size_bytes : Option ℕ
  pub sha256 : Option String
  pub archived_at : Option ℕ
  pub deleted_at : Option ℕ
  pub created_at : ℕ
  pub updated_at : ℕ

-- The four values of `sessions.status` (app/session_state.py).
pub data SessionStatus : Type 0 where
  idle running rescheduling terminated : SessionStatus

pub record Session : Type 0 where
  pub id : String
  pub workspace_id : String
  pub agent_id : String
  pub agent_version : ℕ
  pub environment_id : String
  pub title : Option String
  pub status : SessionStatus
  pub status_details : Dict
  pub stop_reason : Option Dict
  pub run_state : Option Dict
  pub sandbox_state : Option Dict
  pub metadata : Dict
  pub last_event_seq : ℕ
  pub lock_version : ℕ
  pub archived_at : Option ℕ
  pub deleted_at : Option ℕ
  pub created_at : ℕ
  pub updated_at : ℕ

pub record Event : Type 0 where
  pub id : String
  pub workspace_id : String
  pub session_id : String
  pub seq : ℕ
  pub type : String
  pub source : String
  pub payload : Dict
  pub created_at : ℕ

pub record Environment : Type 0 where
  pub id : String
  pub workspace_id : String
  pub name : String
  pub description : String
  pub config : Dict
  pub metadata : Dict
  pub archived_at : Option ℕ
  pub deleted_at : Option ℕ
  pub created_at : ℕ
  pub updated_at : ℕ

pub record Agent : Type 0 where
  pub id : String
  pub workspace_id : String
  pub name : String
  pub description : Option String
  pub active_version : ℕ
  pub metadata : Dict
  pub archived_at : Option ℕ
  pub created_at : ℕ
  pub updated_at : ℕ

pub record AgentVersion : Type 0 where
  pub id : String
  pub workspace_id : String
  pub agent_id : String
  pub version : ℕ
  pub name : String
  pub model : Dict
  pub system : Option String
  pub description : Option String
  pub tools : List Value
  pub mcp_servers : List Value
  pub skills : List Value
  pub multiagent : Option Dict
  pub runtime : Dict
  pub metadata : Dict
  pub created_at : ℕ
  pub updated_at : ℕ

-- The tables, and how many uuids have been drawn.
pub record Db : Type 0 where
  pub resources : List Resource
  pub sessions : List Session
  pub events : List Event
  pub environments : List Environment
  pub agents : List Agent
  pub agent_versions : List AgentVersion
  pub drawn : ℕ

-- The workspace that the request's context variable holds, if any, and the moment at which the
-- request runs: one handler reads one moment, however often it asks for it.
pub record Context : Type 0 where
  pub workspace : Option String
  pub now : ℕ

abbrev pub default_workspace_id : String
default_workspace_id = "wrkspc_default"

-- `workspace.id if workspace is not None else DEFAULT_WORKSPACE_ID`
abbrev pub current_workspace_id : Context → String
current_workspace_id c = elim c.workspace [ none ↦ default_workspace_id | some id ↦ id ]

-- app/workspace.py
unfoldable pub workspace_id_or_default : Context → Option String → String
workspace_id_or_default c none = current_workspace_id c
workspace_id_or_default c (some v) = if v == "" then current_workspace_id c else v
