-- ===== src/Sessions/Handlers.antt =====
-- app/routers/sessions.py: the handlers that change a session. A handler returns what its response
-- shows, and the work item it has scheduled for after the response, if any.
pub mod Cancel
pub mod Guards
pub mod Numbers
pub mod Suits
use open_managed_agents.SessionState.{
  can_start_work, is_action_result, is_waiting_for_action, blocks_mutation, starts_work,
}
use open_managed_agents.WorkQueue.Defs.{should_execute_inline, enqueue_session_run}
use open_managed_agents.Sessions.Events.{append_event}
use open_managed_agents.Sessions.Actions.{
  cannot, all_pending_actions_resolved, model_dump, validate_event_batch, EventInput,
}
use open_managed_agents.Result.{ok, http, raise_if, err, Result}
use open_managed_agents.Sessions.Store.{
  archive_session, delete_session, get_session, get_environment, update_session, no_session_changes,
  SessionChanges,
}
use open_managed_agents.Json.{cons, empty, arr, obj, nil, str, Items, field, Dict}
use open_managed_agents.Runtime.{Runtime}
use open_managed_agents.Exec.{◌>>◌, check, pure, Action, ◌>>=◌}
use open_managed_agents.Prelude.{
  not, ◌++◌, ◌==◌, none, is_some, some, if◌then◌else◌, true, Bool, false, List, Option, String, [],
  ◌∷◌,
}
use open_managed_agents.Db.{Event, Resource, Session, SessionStatus, Environment, idle, terminated}

-- What the loop of `send_events` has gathered.
pub record Sent : Type 0 where
  pub appended : List Event
  pub should_run : Bool
  pub should_interrupt : Bool
  pub resolved_required_actions : Bool

abbrev pub nothing_sent : Sent
nothing_sent = record {
  appended = [];
  should_run = false;
  should_interrupt = false;
  resolved_required_actions = false;
}

-- A session that is there and not deleted.
unfoldable pub present_session : Option Session → Result Session
present_session none = err (http 404 "Session not found")
present_session (some s) = if is_some s.deleted_at then err (http 404 "Session not found") else ok s

unfoldable pub present_environment : Option Environment → Result Environment
present_environment none = err (http 404 "Environment not found")
present_environment (some e) =
    if is_some e.deleted_at then err (http 404 "Environment not found") else ok e

abbrev pub reason : String → Dict
reason type = field "type" (str type) empty

-- The payload of an event that tells a status.
abbrev pub status_payload : String → String → String → Dict
status_payload type status why =
    field "type" (str type)
      (field "status" (str status) (field "stop_reason" (obj (reason why)) empty))

abbrev pub event_ids : List Event → Items
event_ids [] = nil
event_ids (e ∷ es) = cons (str e.id) (event_ids es)

-- The work item that runs behind the response.
abbrev pub inline_run : Environment → Option Resource → Option String
inline_run environment none = none
inline_run environment (some work) =
    if should_execute_inline environment.config then some work.id else none

unfoldable pub must_get_session : String → Action Session
must_get_session session_id = do found ← get_session session_id none; check (present_session found)

unfoldable pub must_get_environment : String → Action Environment
must_get_environment environment_id = do
  found ← get_environment environment_id none
  check (present_environment found)

-- `status == SESSION_TERMINATED`
abbrev pub is_terminated : SessionStatus → Bool
is_terminated terminated = true
is_terminated _ = false

-- The guards of `send_events` on the session.
unfoldable pub open_for_events : Session → Result (Unit {0})
open_for_events s =
    if is_some s.archived_at
    then err (http 409 "Session is archived")
    else if is_terminated s.status
    then err (http 409 "Session is terminated")
    else ok tt

module _ ⦃r : Runtime⦄ where
  -- What a stored event does to the flags of the loop.
  unfoldable pub note_event : Session → String → Sent → Action Sent
  note_event session type sent =
      if type == "user.interrupt"
      then pure (record sent { should_interrupt = true })
      else if starts_work type
      then pure (record sent { should_run = true })
      else if is_action_result type
      then (do
        resolved ← all_pending_actions_resolved session
        pure (record sent { should_run = resolved; resolved_required_actions = resolved }))
      else pure sent

  unfoldable pub append_all : Session → List EventInput → Sent → Action (Sent × Session)
  append_all session [] sent = pure (sent, session)
  append_all session (i ∷ is) sent = do
    (event, session') ← append_event session i.type (model_dump i)
    sent' ← note_event session' i.type (record sent { appended = sent.appended ++ event ∷ [] })
    append_all session' is sent'

  -- `should_interrupt`
  unfoldable pub interrupt : Session → Action Session
  interrupt session = do
    session' ← update_session session (record no_session_changes {
      status = some idle;
      stop_reason = some (reason "interrupted");
    })
    (_, session'') ←
        append_event session' "session.status_idle"
          (status_payload "session.status_idle" "idle" "interrupted")
    pure session''

  -- `resolved_required_actions`
  unfoldable pub submit_actions : Session → Bool → Action Session
  submit_actions session resolved =
      if resolved
      then update_session session (record no_session_changes {
        status = some idle;
        stop_reason = some (reason "action_submitted");
      })
      else pure session

  -- The end of `send_events`: an interrupt, a run, or neither.
  unfoldable pub settle : Session → Sent → Action (Option Resource)
  settle session sent =
      if sent.should_interrupt
      then (do _ ← interrupt session; pure none)
      else if sent.should_run
      then (do
        session' ← submit_actions session sent.resolved_required_actions
        work ←
            enqueue_session_run session' "session.events"
              (some (field "event_ids" (arr (event_ids sent.appended)) empty))
        pure (some work))
      else pure none

  -- `send_events` from the point at which the batch is validated.
  unfoldable pub store_batch :
      Session → Environment → List EventInput → Action (List Event × Option String)
  store_batch session environment inputs = do
    (sent, session') ← append_all session inputs nothing_sent
    work ← settle session' sent
    pure (sent.appended, inline_run environment work)

  -- `send_events` from the point at which the environment is found.
  unfoldable pub send_checked :
      Session → List EventInput → Environment → Action (List Event × Option String)
  send_checked session inputs environment =
      validate_event_batch session inputs >> store_batch session environment inputs

  -- `send_events` from the point at which the session is open.
  unfoldable pub send_open : List EventInput → Session → Action (List Event × Option String)
  send_open inputs session =
      must_get_environment session.environment_id >>= send_checked session inputs

  -- `send_events` from the point at which the session is found.
  unfoldable pub send_found : List EventInput → Session → Action (List Event × Option String)
  send_found inputs session = check (open_for_events session) >> send_open inputs session

  unfoldable pub send_events : String → List EventInput → Action (List Event × Option String)
  send_events session_id inputs = must_get_session session_id >>= send_found inputs

  unfoldable pub archive_session_by_id : String → Action Session
  archive_session_by_id session_id = do
    session ← must_get_session session_id
    _ ←
        check
          (raise_if (blocks_mutation session.status) (http 409 (cannot "archive" session.status)))
    archive_session session

  unfoldable pub delete_session_by_id : String → Action String
  delete_session_by_id session_id = do
    session ← must_get_session session_id
    _ ←
        check
          (raise_if (blocks_mutation session.status) (http 409 (cannot "delete" session.status)))
    session' ← delete_session session
    _ ← append_event session' "session.deleted" (field "type" (str "session.deleted") empty)
    pure session.id

  abbrev pub cancelled : SessionChanges
  cancelled = record no_session_changes {
    status = some terminated;
    stop_reason = some (reason "cancelled");
  }

  -- `cancel_session` from the point at which the session is found.
  unfoldable pub cancel_found : Session → Action Session
  cancel_found session = do
    session' ← update_session session cancelled
    (_, session'') ←
        append_event session' "session.status_terminated"
          (status_payload "session.status_terminated" "terminated" "cancelled")
    pure session''

  unfoldable pub cancel_session : String → Action Session
  cancel_session session_id = do session ← must_get_session session_id; cancel_found session

  -- The guards of `resume_session`.
  unfoldable pub may_resume : Session → Result (Unit {0})
  may_resume s =
      if is_terminated s.status
      then err (http 409 "Terminated sessions cannot be resumed")
      else if is_waiting_for_action s.stop_reason
      then err (http 409 "Session requires action results before it can resume")
      else if not (can_start_work s.status s.stop_reason)
      then err (http 409 (cannot "resume" s.status))
      else ok tt

  -- `resume_session` from the point at which the session is found.
  unfoldable pub resume_found : Session → Action (Session × Option String)
  resume_found session = do
    _ ← check (may_resume session)
    environment ← must_get_environment session.environment_id
    work ← enqueue_session_run session "session.resume" none
    pure (session, inline_run environment (some work))

  unfoldable pub resume_session : String → Action (Session × Option String)
  resume_session session_id = must_get_session session_id >>= resume_found
