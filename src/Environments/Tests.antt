-- ===== src/Environments/Tests.antt =====
-- Runs of the environments' handlers, and each property at an input where its hypotheses hold.
use open_managed_agents.Resources.Writes.{write_row, changed, update_resource}
use open_managed_agents.Environments.Work.Heartbeats.{beat-excludes}
use open_managed_agents.Environments.Table.Steps.{by_archiving, Step-keeps_valid}
use open_managed_agents.Sessions.Store.{get_environment}
use open_managed_agents.Environments.Poll.Ends.{reclaim-silent, poll_next_work_ends}
use open_managed_agents.Sessions.Handlers.{present_environment, must_get_environment}
use open_managed_agents.WorkQueue.Defs.{
  work_available_for_lease, require_lease_owner, heartbeat_work, heartbeat_data, lease_of,
}
use open_managed_agents.Result.{http, ok, err, Result}
use open_managed_agents.Environments.Config.{
  check_object, validate_sandbox, validate_resources, validate_packages, validate_networking,
  is_member, require_member, environment_config_with_scope, validate_environment_config,
}
use open_managed_agents.Environments.Table.Valid.{AllValid}
use open_managed_agents.Environments.Config.Scope.{environment_config_with_scope-IsScoped, IsScoped}
use open_managed_agents.Environments.Work.{
  worker_id_for_work, check_heartbeat_precondition, Heartbeat, beat,
}
use open_managed_agents.Json.{put, str, empty, obj, lookup, field, Dict, Value, get}
use open_managed_agents.Environments.Poll.{reclaim, poll_next_work, is_silent}
use open_managed_agents.Environments.Table.{
  write_environment, archive_environment, archive_environment_by_id,
}
use open_managed_agents.Db.{workspace_id_or_default, Status, Resource, Environment, Db}
use open_managed_agents.Fixtures.{empty_db, blank_resource, at, bits, print, sample_runtime}
use open_managed_agents.Prelude.{
  eq_iff, arith, refl, leb, [], ◌≢◌, ◌≡◌, ◌*◌, ◌∷◌, ◌+◌, ◌-◌, Option, ℕ, none, some, true,
}

abbrev busy_work : Dict → Resource
busy_work payload = record (blank_resource "work_1" "environment_work" Status.running payload) {
  parent_id = some "env_1";
}

abbrev lease_of_w1 : Value
lease_of_w1 = obj (field "worker_id" (str "w1") empty)

abbrev item : Resource
item = busy_work (field "lease" lease_of_w1 empty)

-- A clock that moves on by 50 milliseconds from round to round.
abbrev steady : ℕ → ℕ
steady i = 5 + i * 50_000

poll_next_work_ends_example :
    (a : Result (Option Resource × Db)) × (poll_next_work 21 steady "env_1" "w1" 60
        (some 999)
        (some 1)
        (at 5)
        empty_db
      ≡ some a)
poll_next_work_ends_example =
    poll_next_work_ends steady "env_1" "w1" 60 999 (some 1) (at 5) empty_db (omega arith)
      (λ i. omega arith)

abbrev beaten_at : ℕ → Resource
beaten_at t =
    busy_work (field "last_heartbeat_at" (str (print t)) (field "lease" lease_of_w1 empty))

last_beat : get "last_heartbeat_at" (beaten_at 5_000_000).payload ≡ str (print 5_000_000)
unfolding get lookup
last_beat = refl

reclaim-silent_example :
    (is_silent (9_000_000 - 2_000 * 1_000) (beaten_at 5_000_000)
      ≡ leb (5_000_000 + 2_000 * 1_000) 9_000_000)
    × (work' : Resource) × (db' : Db) × (reclaim 2_000 (beaten_at 5_000_000) (at 9_000_000) empty_db
        ≡ ok (work', db'))
    × (work_available_for_lease work' 9_000_000 ≡ true)
reclaim-silent_example =
    reclaim-silent (beaten_at 5_000_000) 5_000_000 2_000 (at 9_000_000) empty_db refl last_beat
      (omega arith)

abbrev first_beat : Heartbeat
first_beat = record {
  worker_id = some "w1";
  header = none;
  lease_seconds = 60;
  desired_ttl_seconds = none;
  expected_last_heartbeat = some "NO_HEARTBEAT";
  payload = empty;
}

abbrev beaten_item : Resource
beaten_item = record item {
  payload = heartbeat_data item.payload (some "w1") 60 (some empty) 5;
  status = Status.running;
  updated_at = 5;
}

beats : beat first_beat item (at 5) empty_db ≡ ok (beaten_item, empty_db)
unfolding beat check_heartbeat_precondition worker_id_for_work heartbeat_work require_lease_owner
    update_resource changed write_row get lookup put lease_of
beats = refl

not_a_moment : "NO_HEARTBEAT" ≢ print 5
unfolding print bits
not_a_moment = λ e. ground (arith, eq_iff "NO_HEARTBEAT" "T101", e)

beat-excludes_example :
    beat first_beat beaten_item (at 6) empty_db ≡ err (http 412 "Heartbeat precondition failed")
beat-excludes_example =
    beat-excludes first_beat first_beat item beaten_item (at 5) (at 6) empty_db empty_db empty_db
      "NO_HEARTBEAT" beats refl not_a_moment

abbrev hosted : Dict
hosted = field "type" (str "self_hosted") empty

hosted_valid : validate_environment_config hosted ≡ ok tt
unfolding validate_environment_config require_member is_member get lookup validate_networking
    validate_packages validate_resources validate_sandbox check_object
hosted_valid = refl

environment_config_with_scope-IsScoped_example :
    IsScoped hosted "account" (environment_config_with_scope (some hosted) (some "account"))
environment_config_with_scope-IsScoped_example =
    environment_config_with_scope-IsScoped "type" (str "self_hosted") empty "account" hosted_valid
      refl

abbrev env : Environment
env = record {
  id = "env_1";
  workspace_id = "wrkspc_default";
  name = "env";
  description = "";
  config = hosted;
  metadata = empty;
  archived_at = none;
  deleted_at = none;
  created_at = 1;
  updated_at = 1;
}

abbrev env_db : Db
env_db = record empty_db { environments = env ∷ [] }

abbrev archived_env : Environment
archived_env = record env { archived_at = some 5; updated_at = 5 }

archives :
    archive_environment_by_id "env_1" (at 5) env_db
    ≡ ok (archived_env, record empty_db { environments = archived_env ∷ [] })
unfolding archive_environment_by_id archive_environment must_get_environment get_environment
    workspace_id_or_default present_environment write_environment
archives = refl

Step-keeps_valid_example : AllValid (record empty_db { environments = archived_env ∷ [] })
Step-keeps_valid_example =
    Step-keeps_valid env_db (record empty_db { environments = archived_env ∷ [] })
      (by_archiving "env_1" (at 5) archived_env archives) (hosted_valid, tt)
