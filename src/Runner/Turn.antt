-- ===== src/Runner/Turn.antt =====
-- app/runtime/runner.py: the transactions of `_run_session_turn` before the model's run: a session
-- that may start is set to running; then everything that the run needs is read.
pub mod Reading
pub mod Steps
use open_managed_agents.SessionState.{can_start_work}
use open_managed_agents.Sessions.Handlers.{reason}
use open_managed_agents.Agents.{get_agent_version, get_agent}
use open_managed_agents.Sessions.Events.{list_events, append_event}
use open_managed_agents.Runner.Context.{
  runtime_context_for_session, missing_auth_payload, RuntimeContext,
}
use open_managed_agents.Result.{ok, runtime_error, err, or_raise, Result}
use open_managed_agents.Json.{int, empty, str, field, as_list, get, lookup, as_dict, Value, Dict}
use open_managed_agents.Prelude.{
  pos, true, not, joined, [], ◌||◌, is_some, none, if◌then◌else◌, some, ◌∷◌, false, or_else, Option,
  List, Bool, String,
}
use open_managed_agents.Runtime.{to_str, Runtime}
use open_managed_agents.Sessions.Store.{
  get_environment, get_session, update_session, no_session_changes, SessionChanges,
}
use open_managed_agents.Db.{Agent, running, Event, Environment, Session, AgentVersion}
use open_managed_agents.Exec.{◌>>=◌, pure, check, Action}

-- What a run needs.
pub record Prepared : Type 0 where
  pub version : AgentVersion
  pub history : List Event
  pub environment : Environment
  pub context : RuntimeContext

abbrev pub running_changes : SessionChanges
running_changes = record no_session_changes {
  status = some running;
  stop_reason = some (reason "in_progress");
}

-- `overlay.get(key, default)`, and the default again if that is no list.
abbrev pub overlaid : String → Dict → List Value → List Value
overlaid key overlay default = elim (lookup key overlay) [
  | none ↦ default
  | some v ↦ or_else (as_list v) default
]

unfoldable pub effective_agent_version : AgentVersion → Dict → AgentVersion
effective_agent_version version status_details =
    let overlay = or_else (as_dict (get "agent" status_details)) empty in
    record version {
      tools = overlaid "tools" overlay version.tools;
      mcp_servers = overlaid "mcp_servers" overlay version.mcp_servers;
    }

unfoldable pub present_for_run : Session → Option Environment → Result Environment
present_for_run session none =
    err (runtime_error (joined "Environment " (joined session.environment_id " not found")))
present_for_run session (some e) =
    if is_some e.deleted_at
    then err (runtime_error (joined "Environment " (joined session.environment_id " not found")))
    else ok e

module _ ⦃r : Runtime⦄ where
  unfoldable pub start_turn : Session → Action Bool
  start_turn session = do
    session' ← update_session session running_changes
    _ ←
        append_event session' "session.status_running"
          (field "type" (str "session.status_running") (field "status" (str "running") empty))
    pure true

  unfoldable pub begin_turn_found : Option Session → Action Bool
  begin_turn_found none = pure false
  begin_turn_found (some session) =
      if is_some session.deleted_at || not (can_start_work session.status session.stop_reason)
      then pure false
      else start_turn session

  -- The first transaction: whether there is a turn to run.
  unfoldable pub begin_turn : String → Action Bool
  begin_turn session_id = get_session session_id none >>= begin_turn_found

  unfoldable pub append_context_errors : Session → List Dict → Action (Unit {0})
  append_context_errors session [] = pure tt
  append_context_errors session (error ∷ errors) = do
    (_, session') ← append_event session "session.error" (missing_auth_payload error)
    append_context_errors session' errors

  abbrev pub agent_for_run : Session → Option Agent → Result Agent
  agent_for_run session found =
      or_raise found (runtime_error (joined "Agent " (joined session.agent_id " not found")))

  abbrev pub version_for_run : Session → Option AgentVersion → Result AgentVersion
  version_for_run session found = or_raise found (
      runtime_error
        (joined "Agent version " (joined (to_str (int (pos session.agent_version))) " not found")))

  -- The agent's version that the session names.
  unfoldable pub find_version : Session → Action AgentVersion
  find_version session = do
    agent ← get_agent session.agent_id
    _ ← check (agent_for_run session agent)
    found ← get_agent_version session.agent_id session.agent_version none
    check (version_for_run session found)

  -- What the transaction reads for the run.
  unfoldable pub gather : Session → Action Prepared
  gather session = do
    version ← find_version session
    place ← get_environment session.environment_id none
    environment ← check (present_for_run session place)
    history ← list_events session.id 0 500 none
    let effective = effective_agent_version version session.status_details
    context ← runtime_context_for_session session effective.mcp_servers
    pure (record {
      version = effective;
      history = history;
      environment = environment;
      context = context;
    })

  unfoldable pub prepare_found : Option Session → Action (Option Prepared)
  prepare_found none = pure none
  prepare_found (some session) = do
    prepared ← gather session
    _ ← append_context_errors session prepared.context.errors
    pure (some prepared)

  -- The second transaction.
  unfoldable pub prepare_turn : String → Action (Option Prepared)
  prepare_turn session_id = get_session session_id none >>= prepare_found
