-- ===== src/Agents.antt =====
-- app/db/queries/agents.py: agents and their versions.
pub mod Versions
pub mod Update
mod Tests
use open_managed_agents.Prelude.{keep, ℕ, String, Bool, ◌&&◌, Option, none, ◌==◌, eqb}
use open_managed_agents.Db.{Agent, AgentVersion, workspace_id_or_default}
use open_managed_agents.Sessions.Store.{one_or_none}
use open_managed_agents.Exec.{Action, check}

unfoldable pub is_agent : String → String → Agent → Bool
is_agent id ws a = a.id == id && a.workspace_id == ws

unfoldable pub get_agent : String → Action (Option Agent)
unfolding is_agent
get_agent id c db =
    check (one_or_none (keep (is_agent id (workspace_id_or_default c none)) db.agents)) c db

-- A version of an agent.
unfoldable pub is_agent_version : String → ℕ → String → AgentVersion → Bool
is_agent_version agent_id version ws v =
    v.agent_id == agent_id && eqb v.version version && v.workspace_id == ws

unfoldable pub get_agent_version : String → ℕ → Option String → Action (Option AgentVersion)
unfolding is_agent_version
get_agent_version agent_id version ws c db =
    check
      (one_or_none
        (keep (is_agent_version agent_id version (workspace_id_or_default c ws)) db.agent_versions))
      c db
