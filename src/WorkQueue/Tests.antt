-- ===== src/WorkQueue/Tests.antt =====
-- Runs of the queue on a small database, and each property at an input where its hypotheses hold.
use mathlib.Core.Path.{subst}
use open_managed_agents.Memories.View.Writes.{ids, Distinct}
use open_managed_agents.WorkQueue.Enqueue.{enqueue_session_run-IsEnqueued, IsEnqueued}
use open_managed_agents.WorkQueue.Finish.{IsFreeFrom, finish_execution-reschedules}
use open_managed_agents.Runtime.{to_str}
use open_managed_agents.WorkQueue.Next.{lease_next_work-Outcome, Outcome}
use open_managed_agents.Sessions.Store.{get_session}
use open_managed_agents.Resources.Queries.{get_resource, list_resources}
use open_managed_agents.WorkQueue.Ownership.{
  require_lease_owner_iff, MayAct, lease_work-admits, lease_work-excludes,
}
use open_managed_agents.WorkQueue.Execute.{finish_execution, started_data}
use open_managed_agents.WorkQueue.Lease.{available-heartbeat_work, available-lease_work}
use open_managed_agents.Json.{int, get, empty, lookup, str, put, Dict, field}
use open_managed_agents.Resources.Writes.{write_row, update_resource, changed}
use open_managed_agents.Result.{ok, err, lease_error, Error}
use open_managed_agents.Prelude.{
  ◌==◌, ◌↔◌, refl, true, none, ◌-◌, false, ◌≡◌, pos, [], eq_iff, some, arith, ◌*◌, ◌∷◌, ◌≢◌, String,
}
use open_managed_agents.Db.{
  SessionStatus, workspace_id_or_default, running, Session, Status, Db, Resource,
}
use open_managed_agents.WorkQueue.Defs.{
  lease_first, work_type, ack_changes, lease_next_work, heartbeat_data, require_lease_owner, to_int,
  heartbeat_work, lease_of, second, lease_changes, next_attempt, work_available_for_lease,
  lease_work, ack_work,
}
use open_managed_agents.Fixtures.{
  blank_session, sample_runtime, blank_resource, empty_db, at, print, read,
}

abbrev env_work : String → Status → Dict → Resource
env_work id status payload = record (blank_resource id "environment_work" status payload) {
  parent_id = some "env_1";
}

abbrev fresh : Resource
fresh =
    record (env_work "work_1" Status.queued
      (field "session_id" (str "sess_1") (field "attempt" (int (pos 0)) empty))) { created_at = 2 }

abbrev done : Resource
done = env_work "work_0" Status.completed (field "session_id" (str "sess_1") empty)

abbrev queue_db : Db
queue_db = record empty_db { resources = done ∷ fresh ∷ [] }

-- `fresh` as "w1" leases it at second 5 for a minute.
abbrev held : Resource
held = changed (lease_changes fresh "w1" 60 (5 * second) (pos 1)) (5 * second) fresh

abbrev held_db : Db
held_db = record queue_db { resources = done ∷ held ∷ [] }

free_from_expiry :
    (work_available_for_lease held (65 * second - 1) ≡ false)
    × (work_available_for_lease held (65 * second) ≡ true)
unfolding work_available_for_lease changed print read put lookup get lease_of
free_from_expiry = (refl, refl)

leases_fresh : lease_work fresh "w1" 60 (5 * second) (at (5 * second)) queue_db ≡ ok (held, held_db)
unfolding lease_work next_attempt update_resource changed write_row get lookup to_int
leases_fresh = refl

available-lease_work_example : work_available_for_lease held (64 * second) ≡ false
available-lease_work_example =
    available-lease_work fresh "w1" 60 (5 * second) (at (5 * second)) queue_db leases_fresh
      (64 * second)

w1_not_w2 : ◌≢◌ {A = String} "w2" "w1"
w1_not_w2 = ground (arith, eq_iff "w2" "w1")

w1_not_empty : ◌≢◌ {A = String} "w1" ""
w1_not_empty = ground (arith, eq_iff "w1" "")

w2_not_empty : ◌≢◌ {A = String} "w2" ""
w2_not_empty = ground (arith, eq_iff "w2" "")

abbrev refusal : Error
refusal = lease_error "Worker w2 does not own this work lease"

lease_work-excludes_example :
    (ack_work held (some "w2") (at (6 * second)) held_db ≡ err refusal)
    × (heartbeat_work held (some "w2") 60 none (at (6 * second)) held_db ≡ err refusal)
    × (started_data held (some "w2") (6 * second) ≡ err refusal)
lease_work-excludes_example =
    lease_work-excludes fresh "w1" "w2" 60 (5 * second) (at (5 * second)) queue_db leases_fresh
      w1_not_empty w2_not_empty w1_not_w2 (at (6 * second)) held_db 60 none

abbrev acked : Resource
acked = changed (ack_changes held (some "w1") (at (6 * second))) (6 * second) held

lease_work-admits_example :
    (work₂ : Resource) × (db₃ : Db) × (ack_work held (some "w1") (at (6 * second)) held_db
      ≡ ok (work₂, db₃))
    × (work₂.status ≡ running)
    × (lease_of work₂.payload ≡ lease_of held.payload)
lease_work-admits_example =
    lease_work-admits fresh "w1" 60 (5 * second) (at (5 * second)) queue_db leases_fresh
      w1_not_empty (at (6 * second)) held_db

require_lease_owner_iff_example :
    (require_lease_owner held (some "w1") "ack" ≡ ok tt) ↔ MayAct held (some "w1")
require_lease_owner_iff_example = require_lease_owner_iff held (some "w1") "ack"

abbrev beaten : Resource
beaten = record held {
  payload = heartbeat_data held.payload (some "w1") 30 none (20 * second);
  status = running;
  updated_at = 20 * second;
}

heartbeats_held :
    heartbeat_work held (some "w1") 30 none (at (20 * second)) held_db
    ≡ ok (beaten, record queue_db { resources = done ∷ beaten ∷ [] })
unfolding heartbeat_work require_lease_owner update_resource changed write_row get lookup put
    lease_of
heartbeats_held = refl

available-heartbeat_work_example : work_available_for_lease beaten (49 * second) ≡ false
available-heartbeat_work_example =
    available-heartbeat_work held (some "w1") 30 none (at (20 * second)) held_db heartbeats_held
      (49 * second)

lists_queue :
    list_resources work_type (some "env_1") 1000 true false none (at (5 * second)) queue_db
    ≡ ok (fresh ∷ done ∷ [], queue_db)
unfolding list_resources workspace_id_or_default
lists_queue = refl

polls_fresh : lease_next_work "env_1" "w1" 60 (at (5 * second)) queue_db ≡ ok (some held, held_db)
unfolding lease_next_work lease_first list_resources workspace_id_or_default lease_work next_attempt
    update_resource changed write_row get lookup to_int work_available_for_lease
polls_fresh = refl

lease_next_work-Outcome_example :
    Outcome (fresh ∷ done ∷ []) "w1" 60 (at (5 * second)) queue_db (some held, held_db)
lease_next_work-Outcome_example =
    lease_next_work-Outcome "env_1" "w1" 60 (at (5 * second)) queue_db (fresh ∷ done ∷ [])
      (some held, held_db) lists_queue polls_fresh

abbrev wait_reason : Dict
wait_reason =
    field "type" (str "transient_error") (field "retry_at" (str (print (70 * second))) empty)

abbrev waiting : Session
waiting = blank_session "sess_1" SessionStatus.rescheduling (some wait_reason)

abbrev running_db : Db
running_db = record held_db { sessions = waiting ∷ [] }

finds_held :
    get_resource "work_1" (some work_type) none false none (at (9 * second)) running_db
    ≡ ok (some held, running_db)
unfolding get_resource workspace_id_or_default changed
finds_held = refl

finds_waiting :
    get_session (to_str (get "session_id" held.payload)) none (at (9 * second)) running_db
    ≡ ok (some waiting, running_db)
unfolding get_session workspace_id_or_default changed get lookup put
finds_waiting = refl

retry_reason_at : get "retry_at" wait_reason ≡ str (print (70 * second))
unfolding get lookup
retry_reason_at = refl

two_rows : Distinct (ids running_db.resources)
unfolding changed
two_rows = (
  (λ e. let q : false ≡ true = subst (λ i. ("work_0" == i) ≡ true) e refl in absurd cc, tt),
  (tt, tt),
)

finish_execution-reschedules_example :
    (db' : Db) × (finish_execution "work_1" (at (9 * second)) running_db ≡ ok (tt, db'))
    × IsFreeFrom (70 * second) "work_1" held (at (9 * second)) db'
unfolding changed
finish_execution-reschedules_example =
    finish_execution-reschedules "work_1" (at (9 * second)) running_db held waiting wait_reason
      (70 * second) two_rows finds_held finds_waiting refl refl retry_reason_at refl

enqueue_session_run-IsEnqueued_example :
    IsEnqueued
      (blank_session "sess_1" SessionStatus.idle none)
      "session.resume"
      none
      (at 5)
      queue_db
enqueue_session_run-IsEnqueued_example =
    enqueue_session_run-IsEnqueued (blank_session "sess_1" SessionStatus.idle none) "session.resume"
      none (at 5) queue_db
