-- ===== src/SessionResources/Tests.antt =====
-- Resources of a session at concrete inputs.
use open_managed_agents.Json.Fields.{HasDistinctKeys}
use open_managed_agents.SessionResources.Release.{
  delete_session_resource_file-IsReleased, IsReleased,
}
use open_managed_agents.Memories.View.Writes.{ids, Distinct}
use open_managed_agents.Memories.Paths.{split_slashes}
use open_managed_agents.Resources.Writes.{
  write_row, delete_resource, same_version, created, create_resource,
}
use open_managed_agents.Prelude.Sort.{sort_by}
use open_managed_agents.SessionResources.Limits.{create_session_resource_limit, attached}
use open_managed_agents.SessionResources.{
  split_slashes, trim_dashes, memory_store_mount_path, drop_dashes, attached_store, replace_unsafe,
  safe_mount_segment, without_git, github_repo_name, default_github_mount_path, validate_mount_path,
  normalize_github_session_resource, Urls,
}
use open_managed_agents.SessionResources.Handlers.{
  rotate_session_resource_token, release_file, delete_session_resource_file, Deleted,
  session_resource_name, insert_session_resource, normalize_session_resource_data,
  create_session_resource,
}
use open_managed_agents.SessionResources.Tokens.{
  rotate_session_resource_token-HidesToken, create_session_resource-HidesToken, HidesToken,
}
use open_managed_agents.SessionResources.Calls.{
  is_object_storage_backend, normalize_memory_store_session_resource, has_type, session_resources,
  ensure_memory_store_resource_capacity, ensure_capacity, Objects,
}
use open_managed_agents.Resources.Queries.{
  is_stored_at, count_resources_by_storage_key, is_wanted, get_resource, is_newer, list_resources,
  is_listed,
}
use open_managed_agents.Fixtures.{
  print, sample_runtime, blank_resource, blank_session, empty_db, at, bits,
}
use open_managed_agents.Prelude.{
  true, eq_iff, some, ◌≡◌, ◌≤◌, keep, length, refl, none, [], ◌∷◌, List, String, arith,
}
use open_managed_agents.Result.{Result, ok, err}
use open_managed_agents.Json.{remove, bool, empty, field, str, obj, get, lookup, put, Dict}
use open_managed_agents.Db.{workspace_id_or_default, active, idle, Session, Resource, Db}

instance abbrev test_urls : Urls
test_urls = record { path_of = λ url. url }

instance abbrev test_objects : Objects
test_objects = record {
  object_key = λ namespace filename sha workspace. filename;
  public_url = λ key. key;
  copy = λ source key type. none;
}

abbrev attached_to : Session
attached_to = blank_session "s1" idle none

abbrev kinds : List String
kinds = "file" ∷ "github_repository" ∷ "memory_store" ∷ []

abbrev repository : Dict
repository =
    field "type" (str "github_repository")
      (field "url" (str "org/App.git") (field "authorization_token" (str "t0k3n") empty))

abbrev notes : Resource
notes = blank_resource "m1" "memory_store" active (field "name" (str "Notes") empty)

abbrev notes_db : Db
notes_db = record empty_db { resources = notes ∷ [] }

abbrev store_request : Dict
store_request = field "type" (str "memory_store") (field "memory_store_id" (str "m1") empty)

abbrev added_row : Result (Resource × Db) → Resource
added_row (ok (x, db)) = x
added_row (err e) = notes

abbrev added_db : Result (Resource × Db) → Db
added_db (ok (x, db)) = db
added_db (err e) = empty_db

abbrev with_repository : Result (Resource × Db)
with_repository = create_session_resource attached_to (obj repository) kinds (at 5) notes_db

abbrev with_store : Result (Resource × Db)
with_store = create_session_resource attached_to (obj store_request) kinds (at 5) notes_db

adds_repository : with_repository ≡ ok (added_row with_repository, added_db with_repository)
unfolding create_session_resource ensure_capacity normalize_session_resource_data
    normalize_github_session_resource validate_mount_path default_github_mount_path github_repo_name
    without_git safe_mount_segment replace_unsafe drop_dashes trim_dashes split_slashes get lookup
    put insert_session_resource session_resource_name create_resource created same_version
    workspace_id_or_default bits print
adds_repository = refl

adds_store : with_store ≡ ok (added_row with_store, added_db with_store)
unfolding create_session_resource ensure_capacity ensure_memory_store_resource_capacity
    session_resources list_resources is_listed is_newer sort_by normalize_session_resource_data
    normalize_memory_store_session_resource get_resource is_wanted attached_store
    memory_store_mount_path safe_mount_segment replace_unsafe drop_dashes trim_dashes get lookup put
    insert_session_resource session_resource_name create_resource created same_version
    workspace_id_or_default bits print
adds_store = refl

create_session_resource-HidesToken_example : HidesToken (added_row with_repository).payload
unfolding get lookup
create_session_resource-HidesToken_example =
    create_session_resource-HidesToken attached_to repository kinds (at 5) notes_db
      (added_row with_repository) (added_db with_repository) refl adds_repository

create_session_resource_limit_example :
    length (keep (has_type "memory_store") (attached (at 5) attached_to (added_db with_store))) ≤ 8
unfolding get lookup is_listed workspace_id_or_default
create_session_resource_limit_example =
    create_session_resource_limit attached_to store_request kinds (at 5) notes_db
      (added_row with_store) (added_db with_store) refl (omega arith) adds_store

abbrev upload : Resource
upload =
    record (blank_resource "f1" "file" active
      (field "scope" (obj (field "type" (str "session") (field "id" (str "s1") empty))) empty)) {
        storage_backend = some "s3";
        storage_key = some "k1";
      }

abbrev mounted : Resource
mounted =
    record (blank_resource "r1" "session_resource" active
      (field "type" (str "file") (field "file_id" (str "f1") empty))) { parent_id = some "s1" }

abbrev upload_db : Db
upload_db = record empty_db { resources = upload ∷ mounted ∷ [] }

abbrev removed_db : Result (Deleted × Db) → Db
removed_db (ok (deleted, db)) = db
removed_db (err e) = empty_db

abbrev removal : Result (Deleted × Db)
removal = delete_session_resource_file mounted (at 5) upload_db

releases : removal ≡ ok (some "k1", removed_db removal)
unfolding delete_session_resource_file release_file is_object_storage_backend get_resource is_wanted
    count_resources_by_storage_key is_stored_at delete_resource write_row get lookup
    workspace_id_or_default
releases = refl

upload_ids : Distinct (ids upload_db.resources)
upload_ids = ((ground (arith, eq_iff "f1" "r1"), tt), (tt, tt))

delete_session_resource_file-IsReleased_example :
    IsReleased "wrkspc_default" "k1" upload_db (removed_db removal)
unfolding workspace_id_or_default
delete_session_resource_file-IsReleased_example =
    delete_session_resource_file-IsReleased mounted "k1" (at 5) upload_db (removed_db removal)
      upload_ids releases

-- A stored repository that has a token.
abbrev held : Dict
held = field "type" (str "github_repository") (field "authorization_token" (str "t1") empty)

held_keys : HasDistinctKeys held
unfolding lookup
held_keys = (refl, (refl, tt))

abbrev rotated : Dict
rotated = field "type" (str "github_repository") (
    field "authorization_token_present" (bool true)
      (field "authorization_token_updated_at" (str (print 5)) empty))

rotate_session_resource_token-HidesToken_example : HidesToken rotated
unfolding lookup rotate_session_resource_token get put remove
rotate_session_resource_token-HidesToken_example =
    rotate_session_resource_token-HidesToken 5 held (field "authorization_token" (str "t2") empty)
      rotated held_keys refl
