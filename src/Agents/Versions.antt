-- ===== src/Agents/Versions.antt =====
-- app/db/queries/agents.py: the writes. An update that changes something adds a version; the versions
-- there are stay as they are.
pub mod Numbers
use open_managed_agents.Prelude.Sort.{sort_by}
use open_managed_agents.Json.Equal.{same_list, same_dict}
use open_managed_agents.Result.{err, crash, ok}
use open_managed_agents.Agents.{keep, none, workspace_id_or_default, eqb, get_agent_version}
use open_managed_agents.Json.{Value, Dict}
use open_managed_agents.Db.{Db, Context, AgentVersion, Agent}
use open_managed_agents.Runtime.{Runtime}
use open_managed_agents.Prelude.{
  true, false, is_none, ltb, ◌++◌, any, take, ◌||◌, [], ◌&&◌, ◌∷◌, if◌then◌else◌, Option, suc, ◌==◌,
  some, List, Bool, ℕ, String,
}
use open_managed_agents.Exec.{pure, raise, Action, ◌>>=◌}

-- What an agent's version holds of its configuration.
pub record AgentConfig : Type 0 where
  pub name : String
  pub model : Dict
  pub system : Option String
  pub description : Option String
  pub tools : List Value
  pub mcp_servers : List Value
  pub skills : List Value
  pub multiagent : Option Dict
  pub metadata : Dict
  pub runtime : Dict

abbrev pub same_text : Option String → Option String → Bool
same_text none none = true
same_text (some s) (some t) = s == t
same_text _ _ = false

abbrev pub same_optional_dict : Option Dict → Option Dict → Bool
same_optional_dict none none = true
same_optional_dict (some d) (some e) = same_dict d e
same_optional_dict _ _ = false

-- The comparison of `update_agent`.
unfoldable pub same_config : AgentVersion → AgentConfig → Bool
same_config v cfg =
    v.name == cfg.name
    && same_text v.description cfg.description
    && same_dict v.metadata cfg.metadata
    && same_dict v.model cfg.model
    && same_text v.system cfg.system
    && same_list v.tools cfg.tools
    && same_list v.mcp_servers cfg.mcp_servers
    && same_list v.skills cfg.skills
    && same_optional_dict v.multiagent cfg.multiagent
    && same_dict v.runtime cfg.runtime

-- The unique constraint on (agent_id, version).
abbrev pub has_number : String → ℕ → AgentVersion → Bool
has_number agent_id version v = v.agent_id == agent_id && eqb v.version version

unfoldable pub write_agent : Agent → List Agent → List Agent
write_agent a [] = []
write_agent a (x ∷ xs) = let rest = write_agent a xs in (if x.id == a.id then a else x) ∷ rest

unfoldable pub get_active_agent_version : Agent → Action (Option AgentVersion)
get_active_agent_version agent =
    get_agent_version agent.id agent.active_version (some agent.workspace_id)

unfoldable pub archive_agent : Agent → Action Agent
archive_agent agent c db =
    let a = record agent { archived_at = some c.now; updated_at = c.now } in
    ok (a, record db { agents = write_agent a db.agents })

-- The filter of `list_agents`.
abbrev pub is_listed_agent : Bool → String → Agent → Bool
is_listed_agent include_archived ws a =
    a.workspace_id == ws && (include_archived || is_none a.archived_at)

unfoldable pub list_agents : ℕ → Bool → Action (List Agent)
list_agents limit include_archived c db = ok (
  take limit (
      sort_by (λ a b. ltb b.created_at a.created_at)
        (keep (is_listed_agent include_archived (workspace_id_or_default c none)) db.agents)),
  db,
)

-- `agent_versions_query`
unfoldable pub agent_versions_query : String → Action (List AgentVersion)
agent_versions_query agent_id c db = ok (
  sort_by (λ v w. ltb w.version v.version)
      (keep (λ v. v.agent_id == agent_id && v.workspace_id == workspace_id_or_default c none)
        db.agent_versions),
  db,
)

module _ ⦃r : Runtime⦄ where
  abbrev pub version_row : Agent → ℕ → AgentConfig → ℕ → Context → AgentVersion
  version_row agent number cfg drawn c = record {
    id = r.new_id "agtv" drawn;
    workspace_id = agent.workspace_id;
    agent_id = agent.id;
    version = number;
    name = cfg.name;
    model = cfg.model;
    system = cfg.system;
    description = cfg.description;
    tools = cfg.tools;
    mcp_servers = cfg.mcp_servers;
    skills = cfg.skills;
    multiagent = cfg.multiagent;
    runtime = cfg.runtime;
    metadata = cfg.metadata;
    created_at = c.now;
    updated_at = c.now;
  }

  abbrev pub agent_row : AgentConfig → Option String → Context → Db → Agent
  agent_row cfg ws c db = record {
    id = r.new_id "agt" db.drawn;
    workspace_id = workspace_id_or_default c ws;
    name = cfg.name;
    description = cfg.description;
    active_version = 1;
    metadata = cfg.metadata;
    archived_at = none;
    created_at = c.now;
    updated_at = c.now;
  }

  -- `create_agent`, where the callers give every field.
  unfoldable pub create_agent : AgentConfig → Option String → Action (Agent × AgentVersion)
  create_agent cfg ws c db =
      let agent = agent_row cfg ws c db in
      let version = version_row agent 1 cfg (suc db.drawn) c in
      ok (
        (agent, version),
        record db {
          agents = db.agents ++ agent ∷ [];
          agent_versions = db.agent_versions ++ version ∷ [];
          drawn = suc (suc db.drawn);
        },
      )

  abbrev pub next_agent : Agent → AgentConfig → Context → Agent
  next_agent agent cfg c = record agent {
    active_version = suc agent.active_version;
    name = cfg.name;
    description = cfg.description;
    metadata = cfg.metadata;
    updated_at = c.now;
  }

  -- The version that `update_agent` adds, and the flush, which the unique constraint may fail.
  unfoldable pub add_version : Agent → AgentConfig → Action (AgentVersion × Bool)
  add_version agent cfg c db =
      let version = version_row agent (suc agent.active_version) cfg db.drawn c in
      if any (has_number agent.id (suc agent.active_version)) db.agent_versions
      then err (crash "IntegrityError")
      else ok (
        (version, true),
        record db {
          agents = write_agent (next_agent agent cfg c) db.agents;
          agent_versions = db.agent_versions ++ version ∷ [];
          drawn = suc db.drawn;
        },
      )

  unfoldable pub update_active :
      Agent → AgentConfig → Option AgentVersion → Action (AgentVersion × Bool)
  update_active agent cfg none = raise (crash "ValueError")
  update_active agent cfg (some active) =
      if same_config active cfg then pure (active, false) else add_version agent cfg

  unfoldable pub update_agent : Agent → AgentConfig → Action (AgentVersion × Bool)
  update_agent agent cfg = get_active_agent_version agent >>= update_active agent cfg
