-- ===== src/Runner/Retry.antt =====
-- app/runtime/runner.py: the transaction of `_run_session_turn` after a run that raised: another
-- attempt later, or the session's end.
pub mod Outcome
pub mod Waits
pub mod Revives
pub mod Due
use open_managed_agents.Prelude.Int.{ltb_ℤ}
use open_managed_agents.Sessions.Handlers.{reason}
use open_managed_agents.Sessions.Events.{append_event}
use open_managed_agents.WorkQueue.Defs.{second, dict_or_empty, next_attempt}
use open_managed_agents.Json.{bool, empty, get, obj, int, str, put, field, null, Dict, Value}
use open_managed_agents.Sessions.Store.{
  no_session_changes, update_session, get_session, SessionChanges,
}
use open_managed_agents.Result.{Result}
use open_managed_agents.Db.{rescheduling, Context, terminated, SessionStatus, Session}
use open_managed_agents.Runner.Failures.{
  status_code_of, max_transient_retry_attempts, retry_after_seconds, is_transient, Failure,
}
use open_managed_agents.Runtime.{Runtime}
use open_managed_agents.Prelude.{
  true, ◌*◌, pos, ◌+◌, none, not, some, ℕ, if◌then◌else◌, Option, String, Bool, ℤ,
}
use open_managed_agents.Exec.{◌>>=◌, pure, check, Action}

-- `attempt >= MAX_TRANSIENT_RETRY_ATTEMPTS`
abbrev pub is_last_attempt : ℤ → Bool
is_last_attempt attempt = not (ltb_ℤ attempt (pos max_transient_retry_attempts))

module _ ⦃r : Runtime⦄ where
  abbrev pub opt_code : Option ℤ → Value
  opt_code none = null
  opt_code (some z) = int z

  -- The moment of the next attempt, after a wait in seconds.
  abbrev pub retry_at : ℕ → ℕ → ℕ
  retry_at wait now = now + wait * second

  abbrev pub retry_details : Failure → ℤ → ℕ → Context → Dict
  retry_details exc attempt wait c = field "attempt" (int attempt) (
      field "max_attempts" (int (pos max_transient_retry_attempts)) (
        field "retry_after_seconds" (int (pos wait)) (
          field "retry_at" (str (r.isoformat (retry_at wait c.now))) (
            field "error"
              (obj (
                field "type" (str exc.class_name) (
                  field "message" (str exc.message)
                    (field "status_code" (opt_code (status_code_of exc)) empty))))
              empty))))

  abbrev pub give_up_reason : Failure → ℤ → Dict
  give_up_reason exc attempt = field "type" (str "error") (
      field "transient" (bool true) (
        field "attempt" (int attempt) (
          field "max_attempts" (int (pos max_transient_retry_attempts))
            (field "error_type" (str exc.class_name) empty))))

  abbrev pub retry_reason : Failure → ℤ → ℕ → Context → Dict
  retry_reason exc attempt wait c = field "type" (str "transient_error") (
      field "error_type" (str exc.class_name) (
        field "attempt" (int attempt) (
          field "max_attempts" (int (pos max_transient_retry_attempts)) (
            field "retry_after_seconds" (int (pos wait))
              (field "retry_at" (str (r.isoformat (retry_at wait c.now))) empty)))))

  abbrev pub error_payload : Failure → Dict
  error_payload exc =
      field "type" (str "session.error")
        (field "message" (str exc.message) (field "error_type" (str exc.class_name) empty))

  abbrev pub transient_payload : Failure → ℤ → Dict
  transient_payload exc attempt = field "type" (str "session.error") (
      field "message" (str exc.message) (
        field "error_type" (str exc.class_name)
          (field "transient" (bool true) (field "attempt" (int attempt) empty))))

  -- Where a failure leaves the session: its status, the details if they change, the reason.
  abbrev pub failed_changes : SessionStatus → Option Dict → Dict → SessionChanges
  failed_changes status details why = record no_session_changes {
    status = some status;
    status_details = details;
    stop_reason = some why;
  }

  -- The event of a status, with a stop reason of any shape.
  abbrev pub told : String → String → Dict → Dict
  told type status why =
      field "type" (str type) (field "status" (str status) (field "stop_reason" (obj why) empty))

  -- The change of the session, the event of the error and the event of the status.
  unfoldable pub leave_failed : Session → SessionChanges → Dict → String → Dict → Action (Unit {0})
  leave_failed session changes error type status = do
    session' ← update_session session changes
    (_, session'') ← append_event session' "session.error" error
    _ ← append_event session'' type status
    pure tt

  abbrev pub details_with_retry : Session → Failure → ℤ → ℕ → Context → Dict
  details_with_retry session exc attempt wait c =
      put "runtime_retry" (obj (retry_details exc attempt wait c)) session.status_details

  abbrev pub give_up : Session → Failure → ℤ → ℕ → Action (Unit {0})
  give_up session exc attempt wait c db =
      leave_failed session
        (failed_changes terminated (some (details_with_retry session exc attempt wait c))
          (give_up_reason exc attempt))
        (transient_payload exc attempt) "session.status_terminated"
        (told "session.status_terminated" "terminated" (give_up_reason exc attempt)) c db

  abbrev pub reschedule : Session → Failure → ℤ → ℕ → Action (Unit {0})
  reschedule session exc attempt wait c db =
      leave_failed session
        (failed_changes rescheduling (some (details_with_retry session exc attempt wait c))
          (retry_reason exc attempt wait c))
        (transient_payload exc attempt) "session.status_rescheduled"
        (told "session.status_rescheduled" "rescheduling" (retry_reason exc attempt wait c)) c db

  -- The retries that the session has had are counted in its details.
  abbrev pub attempt_of : Session → Result ℤ
  attempt_of session = next_attempt (dict_or_empty (get "runtime_retry" session.status_details))

  abbrev pub give_up_or_reschedule : Session → Failure → ℤ → ℕ → Action (Unit {0})
  give_up_or_reschedule session exc attempt wait =
      if is_last_attempt attempt
      then give_up session exc attempt wait
      else reschedule session exc attempt wait

  -- `_mark_transient_runtime_failure`, where a wait that cannot be read raises before any write.
  unfoldable pub mark_transient_runtime_failure : Session → Failure → Action (Unit {0})
  mark_transient_runtime_failure session exc = do
    attempt ← check (attempt_of session)
    wait ← check (retry_after_seconds exc attempt)
    give_up_or_reschedule session exc attempt wait

  abbrev pub terminate : Session → Failure → Action (Unit {0})
  terminate session exc =
      leave_failed session (failed_changes terminated none (reason "error")) (error_payload exc)
        "session.status_terminated" (told "session.status_terminated" "terminated" (reason "error"))

  unfoldable pub fail_turn_found : Failure → Option Session → Action (Unit {0})
  fail_turn_found exc none = pure tt
  fail_turn_found exc (some session) =
      if is_transient exc then mark_transient_runtime_failure session exc else terminate session exc

  unfoldable pub fail_turn : String → Failure → Action (Unit {0})
  fail_turn session_id exc = get_session session_id none >>= fail_turn_found exc
