-- ===== src/SessionState.antt =====
-- app/session_state.py: what a session's status and stop reason allow.
use open_managed_agents.Prelude.{
  String, Bool, true, false, not, ◌&&◌, Option, none, some, List, [], ◌∷◌, ◌==◌, one_of,
  if◌then◌else◌,
}
use open_managed_agents.Json.{Value, Dict, get, is_null, as_list}
use open_managed_agents.Runtime.{Runtime, to_str}
use open_managed_agents.Db.{SessionStatus, idle, running, rescheduling}

-- ACTIVE_STATUSES
abbrev pub is_active : SessionStatus → Bool
is_active running = true
is_active rescheduling = true
is_active _ = false

-- RUNNABLE_STATUSES
abbrev pub is_runnable : SessionStatus → Bool
is_runnable idle = true
is_runnable rescheduling = true
is_runnable _ = false

-- `status == SESSION_RUNNING`
abbrev pub is_running : SessionStatus → Bool
is_running running = true
is_running _ = false

abbrev pub user_events_that_start_work : List String
user_events_that_start_work = "user.message" ∷ "user.define_outcome" ∷ []

abbrev pub action_result_events : List String
action_result_events =
    "user.custom_tool_result" ∷ "user.tool_confirmation" ∷ "user.tool_result" ∷ []

unfoldable pub stop_reason_type : ⦃r : Runtime⦄ → Option Dict → Option String
stop_reason_type none = none
stop_reason_type (some d) = let v = get "type" d in if is_null v then none else some (to_str v)

unfoldable pub is_waiting_for_action : ⦃r : Runtime⦄ → Option Dict → Bool
unfolding stop_reason_type
is_waiting_for_action reason = elim (stop_reason_type reason) [
  | none ↦ false
  | some t ↦ t == "requires_action"
]

-- `{str(item) for item in raw_ids if item is not None}`, without dropping repeats.
abbrev pub texts_of : ⦃r : Runtime⦄ → List Value → List String
texts_of [] = []
texts_of (v ∷ vs) = if is_null v then texts_of vs else to_str v ∷ texts_of vs

-- `isinstance(raw_ids, list)`, and its texts.
abbrev pub ids_in : ⦃r : Runtime⦄ → Value → List String
ids_in v = elim (as_list v) [ none ↦ [] | some vs ↦ texts_of vs ]

-- A set of ids as a list, in which only membership is read.
unfoldable pub pending_action_ids : ⦃r : Runtime⦄ → Option Dict → List String
unfolding is_waiting_for_action
pending_action_ids none = []
pending_action_ids (some d) =
    if is_waiting_for_action (some d) then ids_in (get "event_ids" d) else []

abbrev pub blocks_mutation : SessionStatus → Bool
blocks_mutation = is_active

unfoldable pub can_start_work : ⦃r : Runtime⦄ → SessionStatus → Option Dict → Bool
unfolding is_waiting_for_action
can_start_work status reason = is_runnable status && not (is_waiting_for_action reason)

unfoldable pub starts_work : String → Bool
starts_work type = one_of type user_events_that_start_work

unfoldable pub is_action_result : String → Bool
is_action_result type = one_of type action_result_events
