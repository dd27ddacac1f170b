-- ===== src/Memories/Calls.antt =====
-- The handlers on memories that write. A handler returns the row from which its response is made.
use open_managed_agents.Resources.Queries.{get_resource, get_resource_by_name, list_resources}
use open_managed_agents.Resources.Writes.{
  no_changes, update_resource, new_resource, create_resource,
}
use open_managed_agents.Memories.Paths.{Unicode}
use open_managed_agents.Runtime.{to_str, Runtime}
use open_managed_agents.Memories.Data.{memory_payload, memory_snapshot}
use open_managed_agents.Prelude.{
  [], joined, length, ◌∷◌, one_of, ◌+◌, leb, Option, is_some, List, if◌then◌else◌, negsuc, String,
  ℕ, ℤ, Bool, none, some, true, false, pos,
}
use open_managed_agents.Json.{opt_str, as_str, Dict, str, obj, int, bool, empty, field, get, put}
use open_managed_agents.Result.{Error, Result, err, ok, http, crash, or_raise, raise_if, map_ok}
use open_managed_agents.Exec.{Action, check, raise, ◌>>=◌}
use open_managed_agents.Db.{Resource}

-- What the program takes from its object-relational mapper: whether a flush writes a JSON column
-- that is given the very dict it holds, changed in place (SQLAlchemy documents that it does not).
pub record Mapper : Type 0 where
  pub writes_mutated : Bool

abbrev pub max_memories_per_store : ℕ
max_memories_per_store = 2000

abbrev pub path_exists : Error
path_exists = http 409 "Memory path already exists in this memory store"

-- `data["path_key"]`
unfoldable pub path_key_of : Dict → Result String
path_key_of payload = or_raise (as_str (get "path_key" payload)) (crash "KeyError")

-- The body of a version, from the dict of the memory.
unfoldable pub version_data : Resource → ℤ → String → String → Dict → Dict
unfolding memory_snapshot
version_data memory version actor operation d =
    let snapshot = memory_snapshot d in
    field "memory_store_id" (opt_str memory.parent_id) (
      field "memory_id" (str memory.id) (
        field "memory_version" (int version) (
          field "path" (get "path" d) (
            field "path_key" (get "path_key" d) (
              field "content" (get "content" snapshot) (
                field "content_sha256" (get "content_sha256" snapshot) (
                  field "content_size_bytes" (get "content_size_bytes" snapshot) (
                    field "snapshot" (obj snapshot) (
                      field "actor" (str actor) (
                        field "created_by"
                          (obj
                            (field "type" (str "api_actor") (field "api_key_id" (str actor) empty)))
                          (field "session_id" (get "session_id" d) (
                            field "operation" (str operation)
                              (field "redacted" (bool false) empty)))))))))))))

-- The column of a version's number, which is no less than one.
abbrev pub column_of : ℤ → ℕ
column_of (pos n) = n
column_of (negsuc n) = 0

unfoldable pub must_exist : String → String → Option String → Action Resource
must_exist id type parent = get_resource id (some type) parent false none >>= λ found.
    check (or_raise found (http 404 (joined type " not found")))

abbrev pub refuse_archived : Resource → Action Resource
refuse_archived store = check (
    map_ok (λ _. store)
      (raise_if (is_some store.archived_at) (http 409 "Memory store is archived")))

unfoldable pub must_write_memory_store : String → Action Resource
must_write_memory_store store_id = must_exist store_id "memory_store" none >>= refuse_archived

abbrev pub refuse_full : List Resource → Action (Unit {0})
refuse_full memories = check (
    raise_if (leb max_memories_per_store (length memories))
      (http 409 "Memory store has reached the 2000 memory limit"))

unfoldable pub find_memory_by_path : String → String → Action (Option Resource)
find_memory_by_path store_id key = get_resource_by_name "memory" key (some store_id) false none

module _ ⦃r : Runtime⦄ where
  unfoldable pub normalize_memory_view : Option String → Result (Option String)
  normalize_memory_view none = ok none
  normalize_memory_view (some view) =
      if one_of (r.lower view) ("basic" ∷ "full" ∷ [])
      then ok (some (r.lower view))
      else err (http 422 "view must be basic or full")

  unfoldable pub ensure_memory_store_capacity : String → Action (Unit {0})
  ensure_memory_store_capacity store_id =
      list_resources "memory" (some store_id) (max_memories_per_store + 1) true false none
      >>= refuse_full

  unfoldable pub create_memory_version : Resource → ℤ → String → String → Dict → Action Resource
  unfolding version_data
  create_memory_version memory version actor operation d =
      create_resource (record (new_resource "memory_version") {
        parent_id = some memory.id;
        version = some (column_of version);
        payload = some (version_data memory version actor operation d);
      })

module _ ⦃m : Mapper⦄ where
  -- `data["memory_version_id"] = version.id`, and the write of the row with that dict, which is the
  -- one that it was given before.
  unfoldable pub note_version : Resource → Dict → String → Resource → Action Resource
  note_version memory payload key version c db =
      let noted = put "memory_version_id" (str version.id) payload in
      if m.writes_mutated
      then update_resource memory (record no_changes { payload = some noted; name = some key }) c db
      else ok (record memory { payload = noted }, db)

module _ ⦃r : Runtime⦄ ⦃m : Mapper⦄ where
  -- The version of a memory that has just been written, and its id in the memory's dict.
  unfoldable pub add_memory_version : String → ℤ → Dict → String → Resource → Action Resource
  add_memory_version operation version payload key memory =
      create_memory_version memory version (to_str (get "updated_by" payload)) operation payload
      >>= note_version memory payload key

  unfoldable pub insert_memory : String → Dict → String → Action Resource
  insert_memory store_id payload key =
      create_resource (record (new_resource "memory") {
        parent_id = some store_id;
        name = some key;
        payload = some payload;
      })
      >>= add_memory_version "created" (pos 1) payload key

  abbrev pub insert_new : String → Dict → String → Option Resource → Action Resource
  insert_new store_id payload key existing =
      if is_some existing then raise path_exists else insert_memory store_id payload key

  abbrev pub insert_at : String → Dict → String → Action Resource
  insert_at store_id payload key =
      find_memory_by_path store_id key >>= insert_new store_id payload key

  abbrev pub insert_payload : String → Dict → Action Resource
  insert_payload store_id payload = check (path_key_of payload) >>= insert_at store_id payload

module _ ⦃r : Runtime⦄ ⦃u : Unicode⦄ ⦃m : Mapper⦄ where
  -- `_memory_payload`, at the moment of the request.
  abbrev pub payload_now : Dict → Action Dict
  payload_now body c db = check (memory_payload c.now body) c db

  abbrev pub create_in_store : String → Dict → Resource → Action Resource
  create_in_store store_id body store =
      ensure_memory_store_capacity store_id >>= λ _. payload_now body >>= insert_payload store_id

  unfoldable pub create_memory : String → Option String → Dict → Action Resource
  create_memory store_id view body = check (normalize_memory_view view) >>= λ _.
      must_write_memory_store store_id >>= create_in_store store_id body
