-- ===== src/Runner/Finish.antt =====
-- app/runtime/runner.py: the transaction of `_run_session_turn` after a run that returned.
pub mod Blockers
pub mod Ends
use open_managed_agents.SessionState.{is_waiting_for_action, is_running}
use open_managed_agents.Runner.Context.{elements}
use open_managed_agents.Sessions.Handlers.{reason}
use open_managed_agents.Runner.Outcome.{outcome_evaluation}
use open_managed_agents.Sessions.Events.{append_event}
use open_managed_agents.Sessions.Store.{
  no_session_changes, get_session, update_session, SessionChanges,
}
use open_managed_agents.Db.{idle, Event, Session}
use open_managed_agents.Json.{
  nil, empty, obj, cons, from_items, arr, str, get, put, field, remove, truthy, Dict,
}
use open_managed_agents.Runtime.{Runtime}
use open_managed_agents.Prelude.{
  ◌||◌, true, ◌++◌, ◌&&◌, one_of, map, or_else, ◌==◌, false, none, some, not, [], any, Option, ◌∷◌,
  if◌then◌else◌, List, String, Bool,
}
use open_managed_agents.Exec.{◌>>=◌, pure, Action}

-- An event of a run: its type and its other fields.
pub record ToolEvent : Type 0 where
  pub type : String
  pub extra : Dict

abbrev pub tool_payload : ToolEvent → Dict
tool_payload e = field "type" (str e.type) e.extra

pub record RuntimeResult : Type 0 where
  pub final_text : String
  pub tool_events : List ToolEvent
  pub requires_action : Bool
  pub run_state : Option Dict
  pub sandbox_state : Option Dict
  pub usage : Option Dict

abbrev pub action_event_types : List String
action_event_types = "agent.custom_tool_use" ∷ "agent.tool_use" ∷ "agent.mcp_tool_use" ∷ []

abbrev pub asks_confirmation : ToolEvent → Bool
asks_confirmation e = truthy (get "requires_confirmation" e.extra)

-- `_is_required_action_event`
unfoldable pub is_required_action_event : RuntimeResult → ToolEvent → Bool → Bool
is_required_action_event result event explicit =
    if not result.requires_action
    then false
    else if not (one_of event.type action_event_types)
    then false
    else if explicit
    then asks_confirmation event
    else true

-- `_status_details_without_runtime_retry`
abbrev pub without_runtime_retry : Dict → Dict
without_runtime_retry details = remove "runtime_retry" details

-- `_status_details_with_outcome_evaluation`
unfoldable pub with_outcome_evaluation : Dict → Dict → Dict
with_outcome_evaluation details evaluation =
    put "outcome_evaluations"
      (arr (from_items (elements (get "outcome_evaluations" details) ++ obj evaluation ∷ [])))
      details

abbrev pub action_reason : List String → Dict
action_reason ids =
    field "type" (str "requires_action") (field "event_ids" (arr (from_items (map str ids))) empty)

abbrev pub idle_payload : Dict → RuntimeResult → Dict
idle_payload why result = field "type" (str "session.status_idle") (
    field "status" (str "idle")
      (field "stop_reason" (obj why) (field "usage" (obj (or_else result.usage empty)) empty)))

-- The end of a turn: the session is idle for the reason given, with the details given.
abbrev pub idle_changes : Dict → Dict → RuntimeResult → SessionChanges
idle_changes why details result = record no_session_changes {
  status = some idle;
  status_details = some details;
  stop_reason = some why;
  run_state = result.run_state;
  sandbox_state = result.sandbox_state;
}

abbrev pub message_payload : String → Dict
message_payload text = field "type" (str "agent.message") (
    field "content"
      (arr (cons (obj (field "type" (str "text") (field "text" (str text) empty))) nil)) empty)

module _ ⦃r : Runtime⦄ where
  -- The loop over the run's events: the ids of those that need an action, and the session.
  unfoldable pub append_tool_events :
      RuntimeResult → Bool → Session → List ToolEvent → Action (List String × Session)
  append_tool_events result explicit session [] = pure ([], session)
  append_tool_events result explicit session (event ∷ events) = do
    (stored, session') ← append_event session event.type (tool_payload event)
    (ids, session'') ← append_tool_events result explicit session' events
    pure (
      (if is_required_action_event result event explicit then stored.id ∷ ids else ids),
      session'',
    )

  -- `update_session` to idle and the event that tells it.
  unfoldable pub go_idle : Session → Dict → Dict → RuntimeResult → Action (Unit {0})
  go_idle session why details result = do
    session' ← update_session session (idle_changes why details result)
    _ ← append_event session' "session.status_idle" (idle_payload why result)
    pure tt

  unfoldable pub await_action : Session → List String → RuntimeResult → Action (Unit {0})
  await_action session ids result =
      go_idle session (action_reason ids) (without_runtime_retry session.status_details) result

  -- The final text, if no event has told it.
  unfoldable pub append_final_text : Session → RuntimeResult → Action Session
  append_final_text session result =
      if not (result.final_text == "")
        && not (any (λ e. e.type == "agent.message") result.tool_events)
      then (do
        (_, session') ← append_event session "agent.message" (message_payload result.final_text)
        pure session')
      else pure session

  -- The grading of the last outcome, if there is one: the session and the details for it.
  unfoldable pub append_evaluation : Session → Option Dict → Action (Session × Dict)
  append_evaluation session none = pure (session, without_runtime_retry session.status_details)
  append_evaluation session (some evaluation) = do
    (event, session') ←
        append_event session "span.outcome_evaluation_end"
          (field "type" (str "span.outcome_evaluation_end") evaluation)
    pure (
      session',
      with_outcome_evaluation (without_runtime_retry session.status_details)
          (put "event_id" (str event.id) evaluation),
    )

  unfoldable pub end_turn : Session → List Event → RuntimeResult → Action (Unit {0})
  end_turn session history result = do
    session' ← append_final_text session result
    (session'', details) ← append_evaluation session' (outcome_evaluation history result.final_text)
    go_idle session'' (reason "end_turn") details result

  -- The rest of the transaction, once the run's events are stored.
  unfoldable pub conclude : List Event → RuntimeResult → List String × Session → Action (Unit {0})
  conclude history result (ids, session) =
      if result.requires_action
      then await_action session ids result
      else end_turn session history result

  unfoldable pub store_result : Session → List Event → RuntimeResult → Action (Unit {0})
  store_result session history result =
      append_tool_events result (any asks_confirmation result.tool_events) session
        result.tool_events
      >>= conclude history result

  -- `session.status != SESSION_RUNNING or is_waiting_for_action(session.stop_reason)`
  abbrev pub has_moved_on : Session → Bool
  has_moved_on session =
      not (is_running session.status) || is_waiting_for_action session.stop_reason

  unfoldable pub finish_turn_found : List Event → RuntimeResult → Option Session → Action (Unit {0})
  finish_turn_found history result none = pure tt
  finish_turn_found history result (some session) =
      if has_moved_on session then pure tt else store_result session history result

  unfoldable pub finish_turn : String → List Event → RuntimeResult → Action (Unit {0})
  finish_turn session_id history result =
      get_session session_id none >>= finish_turn_found history result
