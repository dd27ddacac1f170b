-- ===== src/SessionResources/Calls.antt =====
-- The calls of app/session_resources.py on the rows, and the handlers of app/routers/sessions.py
-- that use them.
use open_managed_agents.Resources.Queries.{get_resource, list_resources}
use open_managed_agents.SessionResources.{attached_store, or_text, text_or}
use open_managed_agents.Runtime.{Runtime}
use open_managed_agents.Prelude.{
  ◌&&◌, keep, not, [], length, joined, ◌∷◌, ◌==◌, or_else, leb, is_some, one_of, pos, Bool,
  if◌then◌else◌, List, Option, ℕ, String, none, some, true, false,
}
use open_managed_agents.Result.{Result, err, ok, http, raise_if}
use open_managed_agents.Json.{
  Value, Dict, null, str, bool, int, obj, empty, field, get, is_text, opt_str,
}
use open_managed_agents.Exec.{Action, check, pure, raise, ◌>>=◌}
use open_managed_agents.Db.{Resource, Session}
use open_managed_agents.Resources.Writes.{create_resource, new_resource}

-- The object storage (app/storage.py): the key of an object, the address of a key, and the copy of
-- one object to another key, which may fail with the text of a StorageConfigurationError.
pub record Objects : Type 0 where
  pub object_key : String → String → Option String → String → String
  pub public_url : String → String
  pub copy : String → String → Option String → Option String

abbrev pub max_session_file_resources : ℕ
max_session_file_resources = 100

abbrev pub max_session_memory_store_resources : ℕ
max_session_memory_store_resources = 8

abbrev pub has_type : String → Resource → Bool
has_type type row = is_text (get "type" row.payload) type

-- A file's object under a session's key.
pub record Copied : Type 0 where
  pub filename : String
  pub mime_type : String
  pub size_bytes : Option ℕ
  pub sha256 : Option String
  pub backend : Option String
  pub key : String

abbrev pub opt_int : Option ℕ → Value
opt_int none = null
opt_int (some n) = int (pos n)

module _ ⦃r : Runtime⦄ where
  unfoldable pub session_resources : Session → Action (List Resource)
  session_resources session =
      list_resources "session_resource" (some session.id) 1000 true false
        (some session.workspace_id)

  abbrev pub refuse_more : String → ℕ → String → List Resource → Action (Unit {0})
  refuse_more type most detail rows =
      check (raise_if (leb most (length (keep (has_type type) rows))) (http 422 detail))

  unfoldable pub ensure_file_resource_capacity : Session → Action (Unit {0})
  ensure_file_resource_capacity session =
      session_resources session
      >>= refuse_more "file" max_session_file_resources
          "A session can have at most 100 file resources"

  unfoldable pub ensure_memory_store_resource_capacity : Session → Action (Unit {0})
  ensure_memory_store_resource_capacity session =
      session_resources session
      >>= refuse_more "memory_store" max_session_memory_store_resources
          "A session can have at most 8 memory store resources"

  -- The capacity checks of `create_session_resource`.
  unfoldable pub ensure_capacity : Session → Value → Action (Unit {0})
  ensure_capacity session (obj d) =
      if is_text (get "type" d) "file"
      then ensure_file_resource_capacity session
      else if is_text (get "type" d) "memory_store"
      then ensure_memory_store_resource_capacity session
      else pure tt
  ensure_capacity session _ = pure tt

  -- `is_object_storage_backend`
  unfoldable pub is_object_storage_backend : Option String → Bool
  is_object_storage_backend none = false
  is_object_storage_backend (some backend) = one_of (r.lower backend) ("s3" ∷ [])

  abbrev pub attach : Dict → String → Resource → Action Dict
  attach d store_id store =
      if is_some store.archived_at
      then raise (http 404 "Memory store not found")
      else check (attached_store d store_id store)

  abbrev pub attach_present : Dict → String → Option Resource → Action Dict
  attach_present d store_id none = raise (http 404 "Memory store not found")
  attach_present d store_id (some store) = attach d store_id store

  unfoldable pub normalize_memory_store_session_resource : Dict → String → Action Dict
  normalize_memory_store_session_resource d workspace_id =
      let store_id = text_or "memory_store_id" "" d in
      if store_id == ""
      then raise (http 422 "memory_store session resources require memory_store_id")
      else get_resource store_id (some "memory_store") none false (some workspace_id)
        >>= attach_present d store_id

  module _ ⦃o : Objects⦄ where
    unfoldable pub copy_file_for_session_resource :
        Resource → String → String → Result (Option Copied)
    copy_file_for_session_resource file session_id workspace_id =
        let filename =
          or_text (or_text (or_else file.filename "") (or_else file.name "")) file.id in
        let key = o.object_key (joined "sessions_" session_id) filename file.sha256 workspace_id in
        let source = or_else file.storage_key "" in
        if not (is_object_storage_backend file.storage_backend && not (source == ""))
        then ok none
        else elim (o.copy source key file.content_type) [
          | some message ↦ err (http 500 message)
          | none ↦ ok (
              some (record {
                filename = filename;
                mime_type = or_text (or_else file.content_type "") "application/octet-stream";
                size_bytes = file.size_bytes;
                sha256 = file.sha256;
                backend = file.storage_backend;
                key = key;
              }))
        ]

    abbrev pub copied_dict : String → Copied → Dict
    copied_dict source_id copied = field "source_file_id" (str source_id) (
        field "filename" (str copied.filename) (
          field "mime_type" (str copied.mime_type) (
            field "size_bytes" (opt_int copied.size_bytes) (
              field "sha256" (opt_str copied.sha256) (
                field "storage"
                  (obj (
                    field "backend" (opt_str copied.backend) (
                      field "key" (str copied.key)
                        (field "url" (str (o.public_url copied.key)) empty))))
                  empty)))))

    unfoldable pub create_session_scoped_file :
        Resource → Copied → String → String → Action Resource
    create_session_scoped_file file copied session_id workspace_id =
        create_resource (record (new_resource "file") {
          name = some copied.filename;
          filename = some copied.filename;
          content_type = some copied.mime_type;
          payload = some (
              field "filename" (str copied.filename) (
                field "mime_type" (str copied.mime_type) (
                  field "source_file_id" (str file.id) (
                    field "scope"
                      (obj (field "type" (str "session") (field "id" (str session_id) empty)))
                      empty))));
          storage_backend = copied.backend;
          storage_key = some copied.key;
          storage_url = some (o.public_url copied.key);
          size_bytes = copied.size_bytes;
          sha256 = copied.sha256;
          workspace_id = some workspace_id;
        })

    abbrev pub file_dict : String → String → Copied → Resource → Dict
    file_dict file_id mount_path copied session_file = field "type" (str "file") (
        field "file_id" (str session_file.id) (
          field "source_file_id" (str file_id) (
            field "mount_path" (str mount_path) (
              field "read_only" (bool true)
                (field "session_file" (obj (copied_dict file_id copied)) empty)))))
