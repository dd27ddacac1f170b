-- ===== src/WorkQueue/Execute.antt =====
-- `execute_work_item` of app/runtime/work_queue.py: two transactions around the run of the session's
-- turn (`run_session_turn` of app/runtime/runner.py), which is an argument here.
use open_managed_agents.Prelude.{ℕ, String, false, Option, none, some, if◌then◌else◌, or_else}
use open_managed_agents.Json.{Dict, int, str, obj, empty, field, lookup, get, put, is_text}
use open_managed_agents.Runtime.{Runtime, to_str}
use open_managed_agents.Result.{Result, ok, err, map_ok}
use open_managed_agents.Db.{Db, Context, Resource, Status, Session, SessionStatus}
use open_managed_agents.Resources.Writes.{Changes, no_changes, update_resource}
use open_managed_agents.Resources.Queries.{get_resource}
use open_managed_agents.Sessions.Store.{get_session}
use open_managed_agents.Exec.{Action, ◌>>=◌, ◌>>◌, pure, check}
use open_managed_agents.WorkQueue.Defs.{
  work_type, is_held, next_attempt, now_iso, work_ready_for_execution, require_lease_owner,
  put_worker,
}

-- How the run of a turn ends: it returns, or it raises (class and message); it leaves a database
-- in both cases.
pub data Turn : Type 0 where
  returned : Db → Turn
  raised : String → String → Db → Turn

abbrev pub session_status_text : SessionStatus → String
session_status_text SessionStatus.idle = "idle"
session_status_text SessionStatus.running = "running"
session_status_text SessionStatus.rescheduling = "rescheduling"
session_status_text SessionStatus.terminated = "terminated"

module _ ⦃r : Runtime⦄ where
  -- The data with which the first transaction goes on: a held item is the caller's or raises, a
  -- ready one counts an attempt, and any other ends the call.
  unfoldable pub started_data : Resource → Option String → ℕ → Result (Option Dict)
  started_data work worker_id now =
      if is_held work.status
      then map_ok (λ _. some work.payload) (require_lease_owner work worker_id "execute")
      else if work_ready_for_execution work now
      then map_ok (λ attempt. some (put "attempt" (int attempt) work.payload))
          (next_attempt work.payload)
      else ok none

  abbrev pub start_changes : Option String → Context → Dict → Changes
  start_changes worker_id c d = record no_changes {
    payload = some (put_worker "started_by" worker_id (put "started_at" (now_iso c) d));
    status = some Status.running;
  }

  unfoldable pub mark_started : Resource → Option String → Option Dict → Action (Option Dict)
  mark_started work worker_id none c db = ok (none, db)
  mark_started work worker_id (some d) c db =
      (do work' ← update_resource work (start_changes worker_id c d); pure (some work'.payload)) c
        db

  unfoldable pub begin_found : Option String → Option Resource → Action (Option Dict)
  begin_found worker_id none c db = ok (none, db)
  begin_found worker_id (some work) c db =
      (do d ← check (started_data work worker_id c.now); mark_started work worker_id d) c db

  -- The first transaction: the data of the item that is now running, or nothing to do.
  unfoldable pub begin_execution : String → Option String → Action (Option Dict)
  begin_execution work_id worker_id = do
    found ← get_resource work_id (some work_type) none false none
    begin_found worker_id found

  abbrev pub failure_changes : String → String → Context → Resource → Changes
  failure_changes type message c work = record no_changes {
    payload = some (
        put "finished_at" (now_iso c) (
          put "error" (obj (field "type" (str type) (field "message" (str message) empty)))
            work.payload));
    status = some Status.error;
  }

  unfoldable pub fail_found : String → String → Option Resource → Action (Unit {0})
  fail_found type message none c db = ok (tt, db)
  fail_found type message (some work) c db =
      (do update_resource work (failure_changes type message c work); pure tt) c db

  -- The transaction after a turn that raised.
  unfoldable pub record_failure : String → String → String → Action (Unit {0})
  record_failure work_id type message = do
    found ← get_resource work_id (some work_type) none false none
    fail_found type message found

  abbrev reason_of : Session → Dict
  reason_of session = or_else session.stop_reason empty

  -- The status that the item ends with, from the session's and its own.
  unfoldable pub finished_status : Option Session → Status → Status
  finished_status none Status.stopped = Status.stopped
  finished_status none _ = Status.completed
  finished_status (some session) Status.stopped = Status.stopped
  finished_status (some session) _ = elim session.status [
    | SessionStatus.rescheduling ↦ Status.rescheduling
    | SessionStatus.terminated ↦
        if is_text (get "type" (reason_of session)) "error" then Status.error else Status.completed
    | _ ↦ Status.completed
  ]

  -- `if session is not None and session.status == SESSION_RESCHEDULING: …`
  abbrev put_retry : Option Session → Context → Dict → Dict
  put_retry none c d = d
  put_retry (some session) c d = elim session.status [
    | SessionStatus.rescheduling ↦
        let reason = reason_of session in
        put "stop_reason" (obj reason) (
          put "retry_after_seconds" (get "retry_after_seconds" reason)
            (put "retry_at" (get "retry_at" reason) (put "rescheduled_at" (now_iso c) d)))
    | _ ↦ d
  ]

  unfoldable pub finished_data : Option Session → Context → Dict → Dict
  finished_data session c d =
      let status : String = elim session [
        | none ↦ "missing"
        | some s ↦ session_status_text s.status
      ] in
      put_retry session c (put "session_status" (str status) (put "finished_at" (now_iso c) d))

  abbrev pub finish_changes : Option Session → Context → Resource → Changes
  finish_changes session c work = record no_changes {
    payload = some (finished_data session c work.payload);
    status = some (finished_status session work.status);
  }

  unfoldable pub close_work : Resource → Option Session → Action (Unit {0})
  close_work work session c db =
      (do update_resource work (finish_changes session c work); pure tt) c db

  unfoldable pub finish_found : Option Resource → Action (Unit {0})
  finish_found none c db = ok (tt, db)
  finish_found (some work) c db =
      (do
        session ← get_session (to_str (get "session_id" work.payload)) none
        close_work work session)
        c db

  -- The transaction after a turn that returned.
  unfoldable pub finish_execution : String → Action (Unit {0})
  finish_execution work_id = do
    found ← get_resource work_id (some work_type) none false none
    finish_found found

  -- What the `try` runs: a missing session id is a KeyError there.
  abbrev run_turn : (String → Db → Turn) → Dict → Db → Turn
  run_turn run d db = elim (lookup "session_id" d) [
    | none ↦ raised "KeyError" "'session_id'" db
    | some v ↦ run (to_str v) db
  ]

  abbrev after_turn : String → Context → Turn → Result (Unit {0} × Db)
  after_turn work_id c (returned db) = finish_execution work_id c db
  after_turn work_id c (raised type message db) = record_failure work_id type message c db

  -- `before` and `after` are the contexts of the first and the last transaction.
  unfoldable pub execute_work_item :
      (String → Db → Turn)
      → String
      → Option String
      → Context
      → Context
      → Db
      → Result (Unit {0} × Db)
  execute_work_item run work_id worker_id before after db =
      elim (begin_execution work_id worker_id before db) [
        | err e ↦ err e
        | ok (none, db') ↦ ok (tt, db')
        | ok (some d, db') ↦ after_turn work_id after (run_turn run d db')
      ]
