-- ===== src/Runner/Tests.antt =====
-- Runs of a turn on a small database, and each property at an input where its hypotheses hold.
use open_managed_agents.Memories.View.Writes.{ids, Distinct}
use open_managed_agents.WorkQueue.Finish.{IsFreeFrom}
use open_managed_agents.Runner.Retry.Due.{fail_turn_due}
use open_managed_agents.Sessions.Events.{new_event, append_event}
use open_managed_agents.Resources.Queries.{is_wanted, get_resource}
use open_managed_agents.WorkQueue.Execute.{finish_execution}
use open_managed_agents.Sessions.Store.{update_session, is_session, get_session}
use open_managed_agents.Runtime.{to_str}
use open_managed_agents.Fixtures.{blank_resource, sample_runtime}
use open_managed_agents.Runner.Finish.Ends.{finish_turn-HasEnded, HasEnded}
use open_managed_agents.Sessions.Handlers.{reason}
use open_managed_agents.Result.{crash, err, Result, ok}
use open_managed_agents.Runner.Retry.{
  leave_failed, mark_transient_runtime_failure, fail_turn_found, attempt_of, fail_turn,
}
use open_managed_agents.Runner.Retry.Outcome.{IsLost, fail_turn-HasFailed, HasFailed}
use open_managed_agents.Runner.Retry.Revives.{fail_turn_revives}
use open_managed_agents.Runner.Retry.Waits.{IsWait, HasHugeHint, retry_after_seconds_bounds}
use open_managed_agents.Runner.Run.{failed, Execution}
use open_managed_agents.Json.{str, field, lookup, get, empty}
use open_managed_agents.Fixtures.{empty_db, at, blank_session}
use open_managed_agents.Sessions.Live.{IsLive, Leaves}
use open_managed_agents.Runner.Finish.{finish_turn, has_moved_on, RuntimeResult}
use open_managed_agents.SessionState.{can_start_work}
use open_managed_agents.WorkQueue.Defs.{work_type, second, to_int, next_attempt}
use open_managed_agents.Runner.Turn.{Prepared}
use open_managed_agents.Db.{
  Status, Resource, terminated, running, idle, Db, Session, workspace_id_or_default,
}
use open_managed_agents.Runner.Failures.{
  overflows, status_code_of, plain_failure, is_transient, Failure, retry_after_seconds,
}
use open_managed_agents.Prelude.{
  inr, inl, ◌*◌, ◌+◌, ℕ, false, arith, ◌⊎◌, [], refl, some, true, ◌≡◌, none, ◌∷◌, pos, ◌≤◌,
}

abbrev idle_session : Session
idle_session = blank_session "sess_1" idle none

abbrev busy_session : Session
busy_session = blank_session "sess_1" running (some (reason "in_progress"))

-- Cancelled while its turn ran.
abbrev cancelled_session : Session
cancelled_session = blank_session "sess_1" terminated (some (reason "cancelled"))

abbrev with_row : Session → Db
with_row s = record empty_db { sessions = s ∷ [] }

abbrev timeout : Failure
timeout = record (plain_failure "TimeoutError" "late") { is_connection = true }

abbrev asking : RuntimeResult
asking = record {
  final_text = "";
  tool_events = record { type = "agent.custom_tool_use"; extra = empty } ∷ [];
  requires_action = true;
  run_state = none;
  sandbox_state = none;
  usage = none;
}

idle_session-IsLive :
    IsLive "sess_1" (workspace_id_or_default (at 5) none) idle_session (with_row idle_session)
unfolding workspace_id_or_default
idle_session-IsLive = record { named = refl; stored = refl; log = tt; placed = refl }

busy_session-IsLive :
    IsLive "sess_1" (workspace_id_or_default (at 5) none) busy_session (with_row busy_session)
unfolding workspace_id_or_default
busy_session-IsLive = record { named = refl; stored = refl; log = tt; placed = refl }

cancelled_session-IsLive :
    IsLive "sess_1"
      (workspace_id_or_default (at 5) none)
      cancelled_session
      (with_row cancelled_session)
unfolding workspace_id_or_default
cancelled_session-IsLive = record { named = refl; stored = refl; log = tt; placed = refl }

first_attempt : attempt_of idle_session ≡ ok (pos 1)
unfolding next_attempt get lookup
first_attempt = refl

first_attempt_cancelled : attempt_of cancelled_session ≡ ok (pos 1)
unfolding next_attempt get lookup
first_attempt_cancelled = refl

timeout_transient : is_transient timeout ≡ true
unfolding is_transient status_code_of to_int
timeout_transient = refl

timeout_fits : ¬ HasHugeHint timeout
timeout_fits h = elim h [ inl p ↦ absurd cc | inr (_, p) ↦ absurd cc ]

fail_turn-HasFailed_example :
    Leaves "sess_1"
      (workspace_id_or_default (at 5) none)
      (λ _ s' _. HasFailed timeout 0 (at 5) s')
      (fail_turn "sess_1" timeout (at 5) (with_row idle_session))
    ⊎ IsLost timeout (fail_turn "sess_1" timeout (at 5) (with_row idle_session))
fail_turn-HasFailed_example =
    fail_turn-HasFailed "sess_1" idle_session timeout 0 (at 5) (with_row idle_session)
      idle_session-IsLive first_attempt

fail_turn_revives_example :
    Leaves "sess_1"
      (workspace_id_or_default (at 5) none)
      (λ _ s' _. can_start_work s'.status s'.stop_reason ≡ true)
      (fail_turn "sess_1" timeout (at 5) (with_row cancelled_session))
fail_turn_revives_example =
    fail_turn_revives "sess_1" cancelled_session timeout 0 (at 5) (with_row cancelled_session)
      cancelled_session-IsLive first_attempt_cancelled timeout_transient (omega arith) timeout_fits

-- A response that asks to wait forever.
abbrev endless : Failure
endless = record timeout { retry_header = overflows }

retry_after_seconds_bounds_example : IsWait endless (retry_after_seconds endless (pos 3))
retry_after_seconds_bounds_example = retry_after_seconds_bounds endless (pos 3)

endless_wait : retry_after_seconds endless (pos 3) ≡ err (crash "OverflowError")
unfolding retry_after_seconds
endless_wait = refl

third_wait : retry_after_seconds timeout (pos 3) ≡ ok 20
unfolding retry_after_seconds
third_wait = refl

finish_turn-HasEnded_example :
    Leaves "sess_1"
      (workspace_id_or_default (at 5) none)
      (λ _ t db'.
        ((has_moved_on busy_session ≡ true) × (t ≡ busy_session) × (db' ≡ with_row busy_session))
        ⊎ ((has_moved_on busy_session ≡ false) × HasEnded asking t db'))
      (finish_turn "sess_1" [] asking (at 5) (with_row busy_session))
finish_turn-HasEnded_example =
    finish_turn-HasEnded "sess_1" busy_session [] asking (at 5) (with_row busy_session)
      busy_session-IsLive

-- The model's run fails, and no other request comes.
abbrev fails : Prepared → Execution
fails p = failed timeout

-- The work item of the session, while its turn runs.
abbrev running_item : Resource
running_item =
    blank_resource "work_1" "environment_work" Status.running
      (field "session_id" (str "sess_1") empty)

abbrev queue_db : Db
queue_db = record empty_db { sessions = idle_session ∷ []; resources = running_item ∷ [] }

queued_session-IsLive : IsLive "sess_1" (workspace_id_or_default (at 5) none) idle_session queue_db
unfolding workspace_id_or_default
queued_session-IsLive = record { named = refl; stored = refl; log = tt; placed = refl }

abbrev after_or {ℓ} : {A : Type ℓ} → Db → Result (A × Db) → Db
after_or db (ok (a, db')) = db'
after_or db (err e) = db

abbrev failed_db : Db
failed_db = after_or queue_db (fail_turn "sess_1" timeout (at 5) queue_db)

fails_timeout : fail_turn "sess_1" timeout (at 5) queue_db ≡ ok (tt, failed_db)
unfolding fail_turn fail_turn_found get_session is_session workspace_id_or_default is_transient
    status_code_of to_int mark_transient_runtime_failure next_attempt get lookup leave_failed
    update_session append_event new_event retry_after_seconds
fails_timeout = refl

finds_item :
    get_resource "work_1" (some work_type) none false none (at 6) failed_db
    ≡ ok (some running_item, failed_db)
unfolding fail_turn fail_turn_found get_session is_session workspace_id_or_default is_transient
    status_code_of to_int mark_transient_runtime_failure next_attempt get lookup leave_failed
    update_session get_resource is_wanted append_event new_event retry_after_seconds
finds_item = refl

names_session : to_str (get "session_id" running_item.payload) ≡ "sess_1"
unfolding get lookup
names_session = refl

same_workspace : workspace_id_or_default (at 6) none ≡ workspace_id_or_default (at 5) none
unfolding workspace_id_or_default
same_workspace = refl

one_row : Distinct (ids failed_db.resources)
unfolding fail_turn fail_turn_found get_session is_session workspace_id_or_default is_transient
    status_code_of to_int mark_transient_runtime_failure next_attempt get lookup leave_failed
    update_session append_event new_event retry_after_seconds
one_row = (tt, tt)

fail_turn_due_example :
    (wait : ℕ) × (retry_after_seconds timeout (pos 1) ≡ ok wait)
    × (1 ≤ wait)
    × (wait ≤ 300)
    × (db'' : Db) × (finish_execution "work_1" (at 6) failed_db ≡ ok (tt, db''))
    × IsFreeFrom (5 + wait * second) "work_1" running_item (at 6) db''
fail_turn_due_example =
    fail_turn_due "sess_1" "work_1" idle_session timeout 0 (at 5) (at 6) queue_db failed_db
      running_item queued_session-IsLive first_attempt timeout_transient (omega arith) fails_timeout
      same_workspace one_row finds_item names_session refl
