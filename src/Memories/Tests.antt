-- ===== src/Memories/Tests.antt =====
-- Memories at concrete inputs.
use open_managed_agents.Resources.Writes.{same_version, created, create_resource}
use open_managed_agents.Memories.Data.{
  without_keys, memory_snapshot, enforce_memory_content_limit, put_content_metadata, stamped,
  payload_at, memory_payload,
}
use open_managed_agents.Memories.Paths.Keys.{normalize_memory_path_round}
use open_managed_agents.Memories.View.Creation.{create_memory-adds}
use open_managed_agents.Memories.View.Run.{left}
use open_managed_agents.Memories.View.Spec.{creation, update, deletion, Call}
use open_managed_agents.Memories.View.{set, view}
use open_managed_agents.Memories.View.Sound.{IsSound}
use open_managed_agents.Resources.Queries.{
  get_resource_by_name, is_newer, is_listed, list_resources, is_wanted, get_resource, is_named,
}
use open_managed_agents.Memories.Paths.{
  array_parts, raise_first, has_control_or_format_characters, utf8_length, join_slashes,
  split_slashes, trim_slashes, path_key, validate_memory_path_text, joined_path,
  normalize_memory_path, Unicode,
}
use open_managed_agents.Memories.Calls.{
  version_data, version_data, note_version, create_memory_version, add_memory_version,
  insert_memory, find_memory_by_path, path_key_of, ensure_memory_store_capacity, must_exist,
  must_write_memory_store, normalize_memory_view, create_memory, Mapper,
}
use open_managed_agents.Runtime.{Runtime}
use open_managed_agents.Fixtures.{
  bits, print, counting_runtime, tally, tally_injective, blank_resource, empty_db, at,
}
use open_managed_agents.Prelude.{List, refl, arith, ◌≡◌, ℕ, String, none, some, [], ◌∷◌, false}
use open_managed_agents.Result.{Result, ok, err}
use open_managed_agents.Json.{from_items, arr, remove, put, lookup, get, Dict, empty, field, str}
use open_managed_agents.Db.{Db, workspace_id_or_default, Resource, active}

instance abbrev test_runtime : Runtime
test_runtime = counting_runtime

instance abbrev test_unicode : Unicode
test_unicode = record {
  nfc = λ s. s;
  is_control = λ c. false;
  is_format = λ c. false;
  sha256_of = λ s. s;
}

instance abbrev test_mapper : Mapper
test_mapper = record { writes_mutated = false }

abbrev store : Resource
store = blank_resource "x" "memory_store" active empty

abbrev store_db : Db
store_db = record empty_db { resources = store ∷ []; drawn = 2 }

abbrev body : Dict
body = field "path" (str "/notes/today") (field "content" (str "hello") empty)

abbrev row_of : Result (Resource × Db) → Resource
row_of (ok (x, db)) = x
row_of (err e) = store

unique_ids : (p q : String) (m n : ℕ) → tally m ≡ tally n → m ≡ n
unique_ids p q m n h = tally_injective m n h

store_db-IsSound : IsSound "wrkspc_default" store_db
unfolding is_named tally
store_db-IsSound = record {
  distinct = (tt, tt);
  drawn = λ p n le. (λ h. let q = tally_injective 1 n h in absurd (omega arith), tt);
  single = λ s k. omega arith;
  keyed = (λ t. absurd cc, tt);
}

normalize_memory_path_round_example : normalize_memory_path (str "/notes/today") ≡ ok "/notes/today"
unfolding normalize_memory_path joined_path validate_memory_path_text path_key trim_slashes
    split_slashes join_slashes utf8_length has_control_or_format_characters raise_first array_parts
normalize_memory_path_round_example =
    normalize_memory_path_round (arr (from_items (str "notes" ∷ str "" ∷ str "today" ∷ [])))
      "/notes/today" refl

abbrev creation_result : Result (Resource × Db)
creation_result = create_memory "x" none body (at 5) store_db

creates : creation_result ≡ ok (row_of creation_result, left store_db creation_result)
unfolding workspace_id_or_default get lookup create_memory normalize_memory_view
    must_write_memory_store must_exist get_resource is_wanted ensure_memory_store_capacity
    list_resources is_listed is_newer memory_payload payload_at stamped put_content_metadata
    enforce_memory_content_limit normalize_memory_path joined_path validate_memory_path_text
    path_key trim_slashes split_slashes join_slashes utf8_length has_control_or_format_characters
    raise_first path_key_of find_memory_by_path get_resource_by_name is_named insert_memory
    create_resource created same_version add_memory_version create_memory_version note_version
    version_data memory_snapshot without_keys put remove tally print bits
creates = refl

create_memory-adds_example :
    (path : String) × (normalize_memory_path (str "/notes/today") ≡ ok path)
    × (view "wrkspc_default" store_db "x" (path_key path) ≡ none)
    × (view "wrkspc_default" (left store_db creation_result)
        ≡ set
            (view "wrkspc_default" store_db)
            "x"
            (path_key path)
            (some ((row_of creation_result).id, str "hello")))
    × IsSound "wrkspc_default" (left store_db creation_result)
unfolding workspace_id_or_default get lookup
create_memory-adds_example =
    create_memory-adds unique_ids "x" none body (at 5) store_db (row_of creation_result)
      (left store_db creation_result) store_db-IsSound creates

abbrev calls : List (ℕ × Call)
calls =
    (9, deletion "x" "xx" none)
    ∷ (
      7,
      update "x" "xx" none
          (field "path" (str " /notes/later ") (field "content" (str "bye") empty)),
    )
    ∷ (5, creation "x" none body)
    ∷ []
