-- ===== src/Memories/Changes.antt =====
-- The handlers that change a memory, delete it, and redact a version of it.
use open_managed_agents.Prelude.Int.{succ_ℤ}
use open_managed_agents.Json.Equal.{same_int, same_value}
use open_managed_agents.Resources.Writes.{delete_resource, no_changes, update_resource}
use open_managed_agents.WorkQueue.Defs.{to_int}
use open_managed_agents.Memories.Data.{
  current_version, memory_has_material_change, merge_memory_data,
  memory_requested_state_matches_current,
}
use open_managed_agents.Memories.Paths.{Unicode}
use open_managed_agents.Runtime.{to_str, Runtime}
use open_managed_agents.Prelude.{
  ◌&&◌, ◌==◌, not, ℤ, Bool, Option, ℕ, if◌then◌else◌, String, or_else, none, some, false,
}
use open_managed_agents.Json.{
  is_null, or_value, truthy, is_text, Value, Dict, str, obj, int, null, lookup, get, put, remove,
}
use open_managed_agents.Result.{Error, Result, err, ok, http, raise_if, map_ok}
use open_managed_agents.Exec.{Action, check, pure, raise, ◌>>=◌}
use open_managed_agents.Db.{Resource}
use open_managed_agents.Memories.Calls.{
  add_memory_version, must_write_memory_store, find_memory_by_path, create_memory_version,
  path_key_of, path_exists, normalize_memory_view, Mapper, must_exist,
}

-- `update.pop("if_version", update.pop("expected_version", None))`
abbrev pub expected_version : Dict → Value
expected_version update = or_else (lookup "if_version" update) (get "expected_version" update)

abbrev pub without_conditions : Dict → Dict
without_conditions update =
    remove "precondition" (remove "if_version" (remove "expected_version" update))

-- The hash that a precondition of the known type asks for, if it does.
abbrev pub expected_sha : Value → Value
expected_sha (obj d) =
    if is_text (get "type" d) "content_sha256" then get "content_sha256" d else null
expected_sha _ = null

abbrev pub version_failed : Error
version_failed = http 409 "Memory version precondition failed"

abbrev pub content_failed : Error
content_failed = http 409 "Memory content precondition failed"

-- `existing is not None and existing.id != memory.id`
abbrev pub is_other : String → Option Resource → Bool
is_other id none = false
is_other id (some existing) = not (existing.id == id)

module _ ⦃r : Runtime⦄ where
  -- `expected_version is not None and int(expected_version) != current_version`
  unfoldable pub judge_version : Value → ℤ → Result (Unit {0})
  judge_version expected current = if is_null expected then ok tt else elim (to_int expected) [
    | err e ↦ err e
    | ok version ↦ raise_if (not (same_int version current)) version_failed
  ]

  unfoldable pub check_version : Value → Dict → Result (Unit {0})
  check_version expected payload = elim (current_version payload) [
    | err e ↦ err e
    | ok current ↦ judge_version expected current
  ]

  -- `dict(memory.data)` of a deletion, with its fields stamped.
  unfoldable pub deletion_data : ℕ → Dict → Result (Dict × ℤ)
  deletion_data now payload =
      map_ok
        (λ version. (
          put "updated_at" (str (r.isoformat now)) (
              put "updated_by" (str (to_str (or_value (get "updated_by" payload) (str "api"))))
                (put "version" (int (succ_ℤ version)) payload)),
          succ_ℤ version,
        ))
        (current_version payload)

module _ ⦃r : Runtime⦄ ⦃u : Unicode⦄ ⦃m : Mapper⦄ where
  -- The first write of an update, its version, and the second write.
  unfoldable pub write_memory : Resource → Dict → String → ℤ → Action Resource
  write_memory memory payload key version =
      update_resource memory (record no_changes { payload = some payload; name = some key })
      >>= add_memory_version "modified" version payload key

  abbrev pub write_unless_taken : Resource → Dict → String → ℤ → Option Resource → Action Resource
  write_unless_taken memory payload key version existing =
      if is_other memory.id existing
      then raise path_exists
      else write_memory memory payload key version

  -- The rest of `update_memory` from the new path's key on.
  unfoldable pub write_at : String → Resource → Dict → ℤ → String → Action Resource
  write_at store_id memory payload version key =
      if is_text (get "path_key" memory.payload) key
      then write_memory memory payload key version
      else find_memory_by_path store_id key >>= write_unless_taken memory payload key version

  abbrev pub write_keyed : String → Resource → Dict → ℤ → Action Resource
  write_keyed store_id memory payload version =
      check (path_key_of payload) >>= write_at store_id memory payload version

  abbrev pub write_versioned : String → Resource → Dict → Action Resource
  write_versioned store_id memory payload =
      check (to_int (get "version" payload)) >>= write_keyed store_id memory payload

  -- The rest of `update_memory` from the merged dict on.
  unfoldable pub write_if_changed : String → Resource → Dict → Action Resource
  write_if_changed store_id memory payload =
      if memory_has_material_change memory.payload payload
      then write_versioned store_id memory payload
      else pure memory

  abbrev pub merge_now : Resource → Dict → Action Dict
  merge_now memory update c db = check (merge_memory_data c.now memory.payload update) c db

  abbrev pub merge_and_write : String → Resource → Dict → Action Resource
  merge_and_write store_id memory update =
      merge_now memory update >>= write_if_changed store_id memory

  -- `expected_sha and expected_sha != memory.data.get("content_sha256")`
  abbrev pub content_differs : Value → Dict → Bool
  content_differs sha payload = truthy sha && not (same_value sha (get "content_sha256" payload))

  abbrev pub if_matching : Resource → Bool → Action Resource
  if_matching memory matches = if matches then pure memory else raise content_failed

  -- The rest of `update_memory` behind the check of the version.
  unfoldable pub update_checked : String → Resource → Dict → Value → Action Resource
  update_checked store_id memory update sha =
      if content_differs sha memory.payload
      then check (memory_requested_state_matches_current memory.payload update)
        >>= if_matching memory
      else merge_and_write store_id memory update

  unfoldable pub update_memory_found : String → Dict → Resource → Action Resource
  update_memory_found store_id body memory =
      check (check_version (expected_version body) memory.payload) >>= λ _.
      update_checked store_id memory (without_conditions body)
        (expected_sha (get "precondition" body))

  unfoldable pub update_memory : String → String → Option String → Dict → Action Resource
  update_memory store_id memory_id view body = check (normalize_memory_view view) >>= λ _.
      must_exist memory_id "memory" (some store_id) >>= update_memory_found store_id body

module _ ⦃r : Runtime⦄ where
  -- `expected_content_sha256 is not None and …`
  abbrev pub sha_differs : Option String → Dict → Bool
  sha_differs none payload = false
  sha_differs (some sha) payload = not (is_text (get "content_sha256" payload) sha)

  abbrev pub delete_noted : Resource → Dict → Resource → Action Resource
  delete_noted memory payload version =
      update_resource memory
        (record no_changes { payload = some (put "memory_version_id" (str version.id) payload) })
      >>= delete_resource

  unfoldable pub delete_with : Resource → Dict × ℤ → Action Resource
  delete_with memory (payload, version) =
      create_memory_version memory version (to_str (get "updated_by" payload)) "deleted" payload
      >>= delete_noted memory payload

  abbrev pub deletion_now : Resource → Action (Dict × ℤ)
  deletion_now memory c db = check (deletion_data c.now memory.payload) c db

  unfoldable pub delete_found : Option String → Resource → Action Resource
  delete_found sha memory =
      check (raise_if (sha_differs sha memory.payload) content_failed) >>= λ _.
      deletion_now memory >>= delete_with memory

  unfoldable pub delete_memory : String → String → Option String → Action Resource
  delete_memory store_id memory_id sha = must_write_memory_store store_id >>= λ _.
      must_exist memory_id "memory" (some store_id) >>= delete_found sha
