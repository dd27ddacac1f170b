-- ===== src/WorkQueue/Defs.antt =====
-- Enqueueing, leasing and the lease holder's calls (app/runtime/work_queue.py).
use mathlib.Core.List.{reverse}
use open_managed_agents.Prelude.{
  ℕ, ◌+◌, ◌*◌, String, Bool, true, false, not, ◌||◌, Option, none, some, List, ℤ, pos, ◌==◌, leb,
  if◌then◌else◌, first, or_else,
}
use Prim.Native.String.{◌++◌}
use open_managed_agents.Prelude.Int.{succ_ℤ}
use open_managed_agents.Json.{
  Value, Dict, bool, int, str, obj, empty, field, get, put, truthy, as_str, as_dict, is_text,
}
use open_managed_agents.Runtime.{Runtime, to_str}
use open_managed_agents.Result.{Result, ok, err, lease_error, crash, map_ok}
use open_managed_agents.Db.{
  Context, Resource, Status, Session, queued, rescheduling, leased, running, stopped, active,
  paused, stopping, completed, error, idle, archived, deleted,
}
use open_managed_agents.Resources.Writes.{
  NewResource, Changes, new_resource, no_changes, create_resource, update_resource,
}
use open_managed_agents.Resources.Queries.{list_resources}
use open_managed_agents.Exec.{Action, ◌>>=◌, ◌>>◌, pure, check}

abbrev pub work_type : String
work_type = "environment_work"

-- A second of the clock, in microseconds.
abbrev pub second : ℕ
second = 1_000_000

-- LEASED_WORK_STATUSES
abbrev pub is_held : Status → Bool
is_held leased = true
is_held running = true
is_held _ = false

abbrev pub status_text : Status → String
status_text active = "active"
status_text paused = "paused"
status_text queued = "queued"
status_text rescheduling = "rescheduling"
status_text leased = "leased"
status_text running = "running"
status_text stopping = "stopping"
status_text completed = "completed"
status_text error = "error"
status_text stopped = "stopped"
status_text idle = "idle"
status_text archived = "archived"
status_text deleted = "deleted"

-- `dict(value or {})`: where the program calls it, the value is a dict, None or missing.
abbrev pub dict_or_empty : Value → Dict
dict_or_empty v = elim (as_dict v) [ none ↦ empty | some d ↦ d ]

-- `int(v)`
unfoldable pub to_int : ⦃r : Runtime⦄ → Value → Result ℤ
to_int ⦃r⦄ (int z) = ok z
to_int ⦃r⦄ (bool b) = ok (pos (if b then 1 else 0))
to_int ⦃r⦄ (str s) = elim (r.int_of_text s) [ none ↦ err (crash "ValueError") | some z ↦ ok z ]
to_int ⦃r⦄ _ = err (crash "TypeError")

-- `int(data.get("attempt") or 0) + 1`
unfoldable pub next_attempt : ⦃r : Runtime⦄ → Dict → Result ℤ
unfolding to_int
next_attempt d =
    let v = get "attempt" d in if truthy v then map_ok succ_ℤ (to_int v) else ok (pos 1)

unfoldable pub should_execute_inline : Dict → Bool
should_execute_inline config = not (is_text (get "type" config) "self_hosted")

-- `_work_ready_for_execution`
abbrev pub ready_by_status : Status → Bool → Bool
ready_by_status queued due = true
ready_by_status rescheduling due = due
ready_by_status _ due = false

-- The lease of a work item, empty where it has none.
unfoldable pub lease_of : Dict → Dict
lease_of d = dict_or_empty (get "lease" d)

-- `lease.get("worker_id")`
abbrev pub owner_of : Resource → Value
owner_of work = get "worker_id" (lease_of work.payload)

-- `not worker_id`, with the id where there is one.
abbrev pub given : Option String → Option String
given none = none
given (some w) = if w == "" then none else some w

-- `if worker_id: data[key] = worker_id`
abbrev pub put_worker : String → Option String → Dict → Dict
put_worker key worker_id d = elim (given worker_id) [ none ↦ d | some w ↦ put key (str w) d ]

module _ ⦃r : Runtime⦄ where
  -- `_utcnow_iso()`
  abbrev pub now_iso : Context → Value
  now_iso c = str (r.isoformat c.now)

  -- The arguments that `enqueue_session_run` gives to `create_resource`.
  abbrev pub new_run : Session → String → Option Dict → Context → NewResource
  new_run session trigger metadata c = record (new_resource work_type) {
    parent_id = some session.environment_id;
    name = some ("session:" ++ session.id);
    status = queued;
    payload = some (
        field "session_id" (str session.id) (
          field "trigger" (str trigger) (
            field "attempt" (int (pos 0)) (
              field "metadata" (obj (or_else metadata empty))
                (field "queued_at" (now_iso c) empty)))));
  }

  unfoldable pub enqueue_session_run : Session → String → Option Dict → Action Resource
  enqueue_session_run session trigger metadata c db =
      create_resource (new_run session trigger metadata c) c db

  -- `_retry_at_due`
  unfoldable pub retry_at_due : Resource → ℕ → Bool
  retry_at_due work now = elim (as_str (get "retry_at" work.payload)) [
    | none ↦ true
    | some t ↦
        if t == "" then true else (elim (r.fromisoformat t) [ none ↦ true | some at ↦ leb at now ])
  ]

  unfoldable pub work_ready_for_execution : Resource → ℕ → Bool
  unfolding retry_at_due
  work_ready_for_execution work now = ready_by_status work.status (retry_at_due work now)

  unfoldable pub lease_expired : Resource → ℕ → Bool
  lease_expired work now =
      if not (is_held work.status)
      then false
      else (elim (as_str (get "expires_at" (lease_of work.payload))) [
        | none ↦ true
        | some t ↦ elim (r.fromisoformat t) [ none ↦ true | some at ↦ leb at now ]
      ])

  -- `_work_available_for_lease`
  unfoldable pub work_available_for_lease : Resource → ℕ → Bool
  unfolding work_ready_for_execution lease_expired
  work_available_for_lease work now = work_ready_for_execution work now || lease_expired work now

  -- What a lease by `worker_id` at `now` writes into the item.
  abbrev pub leased_data : Dict → ℤ → String → ℕ → ℕ → Dict
  leased_data d attempt worker_id lease_seconds now =
      put "lease"
        (obj (
          field "worker_id" (str worker_id) (
            field "leased_at" (str (r.isoformat now))
              (field "expires_at" (str (r.isoformat (now + lease_seconds * second))) empty))))
        (put "attempt" (int attempt) d)

  abbrev pub lease_changes : Resource → String → ℕ → ℕ → ℤ → Changes
  lease_changes work worker_id lease_seconds now attempt = record no_changes {
    payload = some (leased_data work.payload attempt worker_id lease_seconds now);
    status = some leased;
  }

  unfoldable pub lease_work : Resource → String → ℕ → ℕ → Action Resource
  lease_work work worker_id lease_seconds now = do
    attempt ← check (next_attempt work.payload)
    update_resource work (lease_changes work worker_id lease_seconds now attempt)

  -- The loop of `lease_next_work` over the candidates, newest first, from their end.
  unfoldable pub lease_first : List Resource → String → ℕ → Action (Option Resource)
  lease_first candidates worker_id lease_seconds c db =
      elim (first (λ work. work_available_for_lease work c.now) (reverse candidates)) [
        | none ↦ ok (none, db)
        | some work ↦
            (do work' ← lease_work work worker_id lease_seconds c.now; pure (some work')) c db
      ]

  unfoldable pub lease_next_work : String → String → ℕ → Action (Option Resource)
  unfolding lease_first
  lease_next_work environment_id worker_id lease_seconds = do
    candidates ← list_resources work_type (some environment_id) 1000 true false none
    lease_first candidates worker_id lease_seconds

  -- `_require_lease_owner`
  unfoldable pub require_lease_owner : Resource → Option String → String → Result (Unit {0})
  require_lease_owner work worker_id action =
      if not (is_held work.status)
      then err (
          lease_error
            ("Cannot " ++ action ++ " work item while status is " ++ status_text work.status))
      else (let owner = owner_of work in
          if not (truthy owner) then ok tt else (elim (given worker_id) [
            | none ↦
                err
                  (lease_error ("worker_id is required to " ++ action ++ " this leased work item"))
            | some w ↦
                if to_str owner == w
                then ok tt
                else err (lease_error ("Worker " ++ w ++ " does not own this work lease"))
          ]))

  abbrev pub ack_changes : Resource → Option String → Context → Changes
  ack_changes work worker_id c = record no_changes {
    payload = some (put_worker "acked_by" worker_id (put "acked_at" (now_iso c) work.payload));
    status = some running;
  }

  unfoldable pub ack_work : Resource → Option String → Action Resource
  ack_work work worker_id c db =
      (do
        check (require_lease_owner work worker_id "ack")
        update_resource work (ack_changes work worker_id c))
        c db

  -- What a heartbeat writes into the item.
  abbrev pub heartbeat_data : Dict → Option String → ℕ → Option Dict → ℕ → Dict
  heartbeat_data d worker_id lease_seconds payload now =
      let d' =
        put "last_heartbeat" (obj (or_else payload empty))
          (put "last_heartbeat_at" (str (r.isoformat now)) d) in
      put "lease"
        (obj (
          put "expires_at" (str (r.isoformat (now + lease_seconds * second)))
            (put_worker "worker_id" worker_id (lease_of d'))))
        d'

  unfoldable pub heartbeat_work : Resource → Option String → ℕ → Option Dict → Action Resource
  heartbeat_work work worker_id lease_seconds payload c db =
      (do
        check (require_lease_owner work worker_id "heartbeat")
        update_resource work (record no_changes {
          payload = some (heartbeat_data work.payload worker_id lease_seconds payload c.now);
          status = some running;
        }))
        c db

  unfoldable pub stop_work : Resource → Dict → Action Resource
  stop_work work payload c db =
      update_resource work
        (record no_changes {
          payload = some (put "stopped_at" (now_iso c) (put "stop" (obj payload) work.payload));
          status = some stopped;
        })
        c db
