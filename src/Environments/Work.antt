-- ===== src/Environments/Work.antt =====
-- app/routers/environments.py: the calls of a worker on one work item. What a handler returns here
-- is the row; the response is made from it.
pub mod Heartbeats
use open_managed_agents.Metadata.{merge_metadata}
use open_managed_agents.Resources.Writes.{no_changes, update_resource}
use open_managed_agents.WorkQueue.Defs.{
  dict_or_empty, owner_of, work_type, ack_work, heartbeat_work, stop_work, given,
}
use open_managed_agents.Resources.Queries.{get_resource}
use open_managed_agents.Sessions.Handlers.{must_get_environment}
use open_managed_agents.Prelude.{
  none, false, ◌==◌, not, some, if◌then◌else◌, Bool, or_else, String, Option, ℕ,
}
use open_managed_agents.Db.{stopping, running, leased, rescheduling, queued, Resource, Status}
use open_managed_agents.Result.{
  map_ok, or_raise, runtime_error, crash, http, ok, lease_error, err, Result,
}
use open_managed_agents.Json.{
  obj, put, or_value, empty, get, as_dict, str, truthy, is_null, field, bool, Dict,
}
use open_managed_agents.Runtime.{to_str, Runtime}
use open_managed_agents.Exec.{check, Action, ◌>>=◌}

-- `except WorkLeaseError as exc: raise HTTPException(status_code=409, …)`
abbrev pub as_conflict {ℓ} : {A : Type ℓ} → Result A → Result A
as_conflict (err (lease_error message)) = err (http 409 message)
as_conflict (err (http code detail)) = err (http code detail)
as_conflict (err (crash class)) = err (crash class)
as_conflict (err (runtime_error message)) = err (runtime_error message)
as_conflict (ok a) = ok a

abbrev pub catch_lease_error {ℓ} : {A : Type ℓ} → Action A → Action A
catch_lease_error m c db = as_conflict (m c db)

abbrev pub work_state : Status → String
work_state queued = "queued"
work_state rescheduling = "queued"
work_state leased = "starting"
work_state running = "active"
work_state stopping = "stopping"
work_state _ = "stopped"

-- `set(patch) == {"metadata"}`
abbrev pub only_metadata : Dict → Bool
only_metadata (field k v empty) = k == "metadata"
only_metadata _ = false

module _ ⦃r : Runtime⦄ where
  unfoldable pub must_get_work : String → String → Action Resource
  must_get_work environment_id work_id = do
    found ← get_resource work_id (some work_type) (some environment_id) false none
    check (or_raise found (http 404 "Environment work item not found"))

  unfoldable pub string_metadata : Dict → Dict
  string_metadata empty = empty
  string_metadata (field k v d) =
      let rest = string_metadata d in if is_null v then rest else field k (str (to_str v)) rest

  -- `_worker_id_for_work`: the parameter, or the header, or else the lease's own worker.
  unfoldable pub worker_id_for_work : Resource → Option String → Option String → Option String
  worker_id_for_work work worker_id header = elim (given worker_id) [
    | some w ↦ some w
    | none ↦ elim (given header) [
      | some w ↦ some w
      | none ↦ if truthy (owner_of work) then some (to_str (owner_of work)) else none
    ]
  ]

  unfoldable pub check_heartbeat_precondition : Resource → Option String → Result (Unit {0})
  check_heartbeat_precondition work none = ok tt
  check_heartbeat_precondition work (some expected) =
      let last = get "last_heartbeat_at" work.payload in
      let failed = err (http 412 "Heartbeat precondition failed") in
      if expected == "NO_HEARTBEAT"
      then (if truthy last then failed else ok tt)
      else if to_str (or_value last (str "")) == expected
      then ok tt
      else failed

  unfoldable pub retrieve_environment_work : String → String → Action Resource
  retrieve_environment_work environment_id work_id = do
    _ ← must_get_environment environment_id
    must_get_work environment_id work_id

  unfoldable pub ack_environment_work :
      String → String → Option String → Option String → Action Resource
  ack_environment_work environment_id work_id worker_id header = do
    _ ← must_get_environment environment_id
    work ← must_get_work environment_id work_id
    catch_lease_error (ack_work work (worker_id_for_work work worker_id header))

  -- The parameters of a heartbeat.
  pub record Heartbeat : Type 0 where
    pub worker_id : Option String
    pub header : Option String
    pub lease_seconds : ℕ
    pub desired_ttl_seconds : Option ℕ
    pub expected_last_heartbeat : Option String
    pub payload : Dict

  -- `desired_ttl_seconds or lease_seconds`; a ttl that is given is positive.
  abbrev pub ttl_seconds : Heartbeat → ℕ
  ttl_seconds h = or_else h.desired_ttl_seconds h.lease_seconds

  -- The rest of the handler, on the item.
  unfoldable pub beat : Heartbeat → Resource → Action Resource
  beat h work = do
    _ ← check (check_heartbeat_precondition work h.expected_last_heartbeat)
    catch_lease_error (
        heartbeat_work work (worker_id_for_work work h.worker_id h.header) (ttl_seconds h)
          (some h.payload))

  unfoldable pub heartbeat_environment_work : String → String → Heartbeat → Action Resource
  heartbeat_environment_work environment_id work_id h = do
    _ ← must_get_environment environment_id
    work ← must_get_work environment_id work_id
    beat h work

  unfoldable pub stop_environment_work : String → String → Dict → Action Resource
  stop_environment_work environment_id work_id body = do
    _ ← must_get_environment environment_id
    work ← must_get_work environment_id work_id
    stop_work work body

  unfoldable pub patched_work : Resource → Dict → Result Dict
  patched_work work patch =
      if not (only_metadata patch)
      then err (http 422 "work updates only support metadata")
      else elim (as_dict (get "metadata" patch)) [
        | none ↦ err (http 422 "work metadata must be an object")
        | some d ↦
            map_ok (λ merged. put "metadata" (obj merged) work.payload)
              (merge_metadata (obj (string_metadata (dict_or_empty (get "metadata" work.payload))))
                (obj d))
      ]

  unfoldable pub update_environment_work : String → String → Dict → Action Resource
  update_environment_work environment_id work_id patch = do
    _ ← must_get_environment environment_id
    work ← must_get_work environment_id work_id
    payload ← check (patched_work work patch)
    update_resource work (record no_changes { payload = some payload; status = some work.status })
