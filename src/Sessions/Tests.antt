-- ===== src/Sessions/Tests.antt =====
-- Runs of the session handlers on a small database, and each property at an input where its
-- hypotheses hold.
use open_managed_agents.Fixtures.{sample_runtime}
use open_managed_agents.Json.{get, lookup}
use open_managed_agents.Sessions.Handlers.{
  settle, must_get_environment, present_session, present_environment, submit_actions,
}
use open_managed_agents.Sessions.Store.{get_environment, is_session, is_environment}
use open_managed_agents.WorkQueue.Defs.{enqueue_session_run}
use open_managed_agents.Resources.Writes.{create_resource}
use open_managed_agents.SessionState.{
  stop_reason_type, is_waiting_for_action, is_action_result, starts_work,
}
use open_managed_agents.EventValidation.{judge_system, indexes_of, validate_system_message_batch}
use open_managed_agents.Sessions.Store.{is_environment, is_session, get_environment, get_session}
use open_managed_agents.Sessions.Events.Log.{append_event-listed, IsLogged}
use open_managed_agents.Sessions.Actions.Results.{judge_results_iff, AreDistinct, AreAnswers}
use open_managed_agents.Json.{lookup, get, str, empty, field}
use open_managed_agents.Fixtures.{empty_db, at, blank_session}
use open_managed_agents.Prelude.{refl, ◌↔◌, [], ◌≡◌, String, none, ◌∷◌, Option, List}
use open_managed_agents.Sessions.Events.{list_events, logged, counted, new_event, append_event}
use open_managed_agents.Sessions.Handlers.{
  settle, note_event, append_all, open_for_events, present_environment, present_session,
  must_get_environment, must_get_session, store_batch, send_checked, send_open, send_found,
  nothing_sent, send_events,
}
use open_managed_agents.Sessions.Handlers.Guards.{send_events-IsAccepted, IsAccepted}
use open_managed_agents.Db.{workspace_id_or_default, idle, Event, Environment, Db, Session}
use open_managed_agents.Sessions.Handlers.Numbers.{append_all-Stores, Stores}
use open_managed_agents.Sessions.Actions.{
  judge_for_session, validate_outcomes, validate_event_batch,
  validate_action_result_matches_blocker, resolved_action_ids, action_result_target, judge_blocker,
  judge_result, judge_results, EventInput,
}
use open_managed_agents.Result.{http, err, ok, Result}
use open_managed_agents.Sessions.Handlers.Cancel.{cancel_session-IsEnded, IsEnded}

abbrev env : Environment
env = record {
  id = "env_1";
  workspace_id = "wrkspc_default";
  name = "env";
  description = "";
  config = empty;
  metadata = empty;
  archived_at = none;
  deleted_at = none;
  created_at = 1;
  updated_at = 1;
}

abbrev fresh : Session
fresh = blank_session "sess_1" idle none

abbrev db0 : Db
db0 = record empty_db { sessions = fresh ∷ []; environments = env ∷ [] }

abbrev hello : List EventInput
hello = record { type = "user.message"; extra = empty } ∷ []

abbrev nothing_out : (List Event × Option String) × Db
nothing_out = (([], none), db0)

abbrev value {ℓ} : {A : Type ℓ} → A → Result A → A
value d (ok a) = a
value d (err e) = d

abbrev sent : (List Event × Option String) × Db
sent = value nothing_out (send_events "sess_1" hello (at 5) db0)

sends : send_events "sess_1" hello (at 5) db0 ≡ ok sent
unfolding send_events send_found send_open send_checked store_batch must_get_session
    must_get_environment present_session present_environment get_session get_environment is_session
    is_environment open_for_events validate_event_batch validate_system_message_batch indexes_of
    judge_system validate_outcomes judge_for_session append_all append_event note_event starts_work
    is_action_result settle submit_actions enqueue_session_run create_resource is_waiting_for_action
    stop_reason_type workspace_id_or_default
sends = refl

send_events-IsAccepted_example : IsAccepted "sess_1" hello (at 5) db0
send_events-IsAccepted_example = send_events-IsAccepted "sess_1" hello (at 5) db0 sent sends

append_all-Stores_example : Stores fresh hello nothing_sent (at 5) db0
append_all-Stores_example = append_all-Stores fresh hello nothing_sent (at 5) db0 tt

cancel_session-IsEnded_example : IsEnded fresh (at 5) db0
unfolding workspace_id_or_default
cancel_session-IsEnded_example = cancel_session-IsEnded fresh (at 5) db0 refl tt refl refl refl

abbrev greeting : Event
greeting = new_event fresh "user.message" empty (at 5) db0

append_event-listed_example :
    (append_event fresh "user.message" empty (at 5) db0
      ≡ ok ((greeting, counted fresh (at 5)), logged fresh greeting (at 5) db0))
    × (greeting.seq ≡ 1)
    × IsLogged (counted fresh (at 5)) (logged fresh greeting (at 5) db0).events
    × (list_events "sess_1" 0 10 none (at 5) (logged fresh greeting (at 5) db0)
        ≡ ok (greeting ∷ [], logged fresh greeting (at 5) db0))
unfolding workspace_id_or_default
append_event-listed_example = append_event-listed fresh "user.message" empty 9 (at 5) db0 tt refl

-- The tool call that the session waits for, and its result.
abbrev call : Event
call = record {
  id = "evt_1";
  workspace_id = "wrkspc_default";
  session_id = "sess_1";
  seq = 1;
  type = "agent.custom_tool_use";
  source = "agent";
  payload = empty;
  created_at = 1;
}

abbrev answer : EventInput
answer = record {
  type = "user.custom_tool_result";
  extra = field "custom_tool_use_id" (str "evt_1") empty;
}

passes_once : judge_results ("evt_1" ∷ []) (call ∷ []) [] (answer ∷ []) ≡ ok tt
unfolding judge_results judge_result judge_blocker action_result_target resolved_action_ids get
    lookup validate_action_result_matches_blocker
passes_once = refl

twice_refused :
    judge_results ("evt_1" ∷ []) (call ∷ []) [] (answer ∷ answer ∷ [])
    ≡ err (http 409 "Action event is already resolved: evt_1")
unfolding judge_results judge_result judge_blocker action_result_target resolved_action_ids get
    lookup validate_action_result_matches_blocker
twice_refused = refl

judge_results_iff_example : (judge_results ("evt_1" ∷ []) (call ∷ []) [] (answer ∷ []) ≡ ok tt) ↔ (
    (ts : List String) × AreAnswers ("evt_1" ∷ []) (call ∷ []) (answer ∷ []) ts
    × AreDistinct ("evt_1" ∷ []) (call ∷ []) ts)
judge_results_iff_example = judge_results_iff ("evt_1" ∷ []) (call ∷ []) (answer ∷ [])
