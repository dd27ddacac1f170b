-- ===== src/Sessions/Actions.antt =====
-- app/routers/sessions.py: what a batch of events must satisfy before any of it is stored, above
-- all the results of actions for which the session waits.
pub mod Results
use open_managed_agents.Sessions.Events.{list_events}
use mathlib.Core.List.{reverse}
use open_managed_agents.Prelude.{any, all}
use open_managed_agents.WorkQueue.Execute.{session_status_text}
use open_managed_agents.SessionState.{
  is_action_result, is_waiting_for_action, is_active, pending_action_ids,
}
use open_managed_agents.EventValidation.{
  validate_system_message_batch, validate_user_define_outcome_event,
}
use open_managed_agents.Exec.{check, raise, pure, Action}
use open_managed_agents.WorkQueue.Defs.{given}
use open_managed_agents.Result.{map_ok, crash, http, err, ok, Result}
use open_managed_agents.Db.{SessionStatus, Session, Event}
use open_managed_agents.Runtime.{to_str, Runtime}
use open_managed_agents.Json.{is_null, is_text, obj, arr, truthy, get, str, field, Value, Dict}
use open_managed_agents.Prelude.{
  ◌&&◌, first, ◌||◌, some, one_of, none, false, true, [], if◌then◌else◌, not, ◌==◌, keep, Bool,
  Option, ◌∷◌, String, List,
}
use Prim.Native.String.{◌++◌}
use open_managed_agents.Exec.{◌>>=◌}

-- `SessionEventInput` (app/models/events.py): the type and the other fields of the body.
pub record EventInput : Type 0 where
  pub type : String
  pub extra : Dict

-- `event_input.model_dump(mode="json")`
abbrev pub model_dump : EventInput → Dict
model_dump i = field "type" (str i.type) i.extra

abbrev pub types_of : List EventInput → List String
types_of [] = []
types_of (i ∷ is) = i.type ∷ types_of is

-- `not xs`
abbrev pub is_empty {ℓ} : {A : Type ℓ} → List A → Bool
is_empty [] = true
is_empty (x ∷ xs) = false

abbrev pub conflict : String → Result (Unit {0})
conflict detail = err (http 409 detail)

-- The detail of a refusal, as "Cannot archive a running session".
abbrev pub cannot : String → SessionStatus → String
cannot what status = "Cannot " ++ what ++ " a " ++ session_status_text status ++ " session"

-- `result not in {"allow", "deny"}`: a list or a dict has no hash.
unfoldable pub is_verdict : Value → Result Bool
is_verdict (str s) = ok (one_of s ("allow" ∷ "deny" ∷ []))
is_verdict (arr vs) = err (crash "TypeError")
is_verdict (obj d) = err (crash "TypeError")
is_verdict _ = ok false

unfoldable pub validate_confirmation : Dict → Result (Unit {0})
validate_confirmation payload = elim (is_verdict (get "result" payload)) [
  | err e ↦ err e
  | ok verdict ↦
      if not verdict
      then err (http 422 "tool_confirmation.result must be \"allow\" or \"deny\"")
      else if not (is_text (get "result" payload) "deny")
          && not (is_null (get "deny_message" payload))
      then err (http 422 "tool_confirmation.deny_message is only allowed when result is deny")
      else ok tt
]

unfoldable pub validate_action_result_matches_blocker : String → Dict → String → Result (Unit {0})
validate_action_result_matches_blocker result_type payload blocker_type =
    if result_type == "user.custom_tool_result"
    then (if not (blocker_type == "agent.custom_tool_use")
        then conflict "custom_tool_result must target agent.custom_tool_use"
        else ok tt)
    else if result_type == "user.tool_result"
    then (if not (blocker_type == "agent.tool_use")
        then conflict "tool_result must target agent.tool_use"
        else ok tt)
    else if result_type == "user.tool_confirmation"
    then (if not (one_of blocker_type ("agent.tool_use" ∷ "agent.mcp_tool_use" ∷ []))
        then conflict "tool_confirmation must target agent tool use"
        else validate_confirmation payload)
    else ok tt

module _ ⦃r : Runtime⦄ where
  -- `str(value) if value else None`
  abbrev pub text_if_truthy : Value → Option String
  text_if_truthy v = if truthy v then some (to_str v) else none

  unfoldable pub action_result_target : String → Dict → Option String
  action_result_target event_type payload =
      if event_type == "user.custom_tool_result"
      then text_if_truthy (get "custom_tool_use_id" payload)
      else if one_of event_type ("user.tool_confirmation" ∷ "user.tool_result" ∷ [])
      then text_if_truthy (get "tool_use_id" payload)
      else none

  -- A set of ids as a list, in which only membership is read.
  unfoldable pub resolved_action_ids : List Event → List String
  resolved_action_ids [] = []
  resolved_action_ids (e ∷ es) =
      let rest = resolved_action_ids es in
      elim (given (action_result_target e.type e.payload)) [ none ↦ rest | some t ↦ t ∷ rest ]

  unfoldable pub all_pending_actions_resolved : Session → Action Bool
  all_pending_actions_resolved session =
      let pending = pending_action_ids session.stop_reason in
      if is_empty pending then pure false else (do
        history ← list_events session.id 0 1000 none
        pure (all (λ id. one_of id (resolved_action_ids history)) pending))

  -- The end of a round: the blocking event, and the target, which joins the batch's.
  unfoldable pub judge_blocker : EventInput → String → Option Event → Result String
  judge_blocker i target none = err (http 404 ("Blocking event not found: " ++ target))
  judge_blocker i target (some blocker) =
      map_ok (λ _. target)
        (validate_action_result_matches_blocker i.type (model_dump i) blocker.type)

  -- One round of the loop of `_validate_action_results`, with the targets of the batch so far.
  unfoldable pub judge_result :
      List String → List Event → List String → EventInput → Option String → Result String
  judge_result pending history batch i none =
      err (http 422 (i.type ++ " must reference a blocking event"))
  judge_result pending history batch i (some target) =
      if not (one_of target pending)
      then err (http 409 ("Action event is not pending: " ++ target))
      else if one_of target (resolved_action_ids history) || one_of target batch
      then err (http 409 ("Action event is already resolved: " ++ target))
      else judge_blocker i target (first (λ e. e.id == target) (reverse history))

  -- `_action_result_target`, where it is not empty.
  abbrev pub target_of : EventInput → Option String
  target_of i = given (action_result_target i.type (model_dump i))

  -- The loop of `_validate_action_results`, with the targets of the batch so far.
  unfoldable pub judge_results :
      List String → List Event → List String → List EventInput → Result (Unit {0})
  judge_results pending history batch [] = ok tt
  judge_results pending history batch (i ∷ is) =
      elim (judge_result pending history batch i (target_of i)) [
        | err e ↦ err e
        | ok target ↦ judge_results pending history (target ∷ batch) is
      ]

  unfoldable pub validate_action_results : Session → List EventInput → Action (Unit {0})
  validate_action_results session inputs = do
    history ← list_events session.id 0 1000 none
    check (judge_results (pending_action_ids session.stop_reason) history [] inputs)

  -- The loop over the outcomes of a batch.
  unfoldable pub validate_outcomes : List EventInput → Result (Unit {0})
  validate_outcomes [] = ok tt
  validate_outcomes (i ∷ is) =
      let rest = validate_outcomes is in
      if i.type == "user.define_outcome"
      then (elim (validate_user_define_outcome_event (model_dump i)) [
        | err e ↦ err e
        | ok _ ↦ rest
      ])
      else rest

  -- `event_types == ["user.interrupt"]`
  abbrev pub is_interrupt : List EventInput → Bool
  is_interrupt (i ∷ []) = i.type == "user.interrupt"
  is_interrupt _ = false

  -- The inputs but the system messages.
  abbrev pub action_result_inputs : List EventInput → List EventInput
  action_result_inputs inputs = keep (λ i. not (i.type == "system.message")) inputs

  -- The rules that depend on the session, in their order.
  unfoldable pub judge_for_session : Session → List EventInput → Action (Unit {0})
  judge_for_session session inputs =
      if is_active session.status
      then (if is_interrupt inputs
          then pure tt
          else raise (
              http 409
                ("Cannot send events while session is " ++ session_status_text session.status)))
      else if is_waiting_for_action session.stop_reason
      then (if is_interrupt inputs
          then pure tt
          else if is_empty (action_result_inputs inputs)
              || not (all (λ i. is_action_result i.type) (action_result_inputs inputs))
          then raise (http 409 "Session is waiting for required action results")
          else validate_action_results session (action_result_inputs inputs))
      else if any (λ i. is_action_result i.type) inputs
      then raise (http 409 "Session is not waiting for action results")
      else pure tt

  unfoldable pub validate_event_batch : Session → List EventInput → Action (Unit {0})
  validate_event_batch session inputs = do
    _ ← check (validate_system_message_batch (types_of inputs))
    _ ← check (validate_outcomes inputs)
    judge_for_session session inputs
