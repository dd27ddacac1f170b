-- ===== src/SessionResources/Handlers.antt =====
-- Creating, changing and removing a session's resource.
use open_managed_agents.Sessions.Handlers.{must_get_session}
use open_managed_agents.Resources.Queries.{count_resources_by_storage_key, get_resource}
use open_managed_agents.Resources.Writes.{
  new_resource, create_resource, no_changes, update_resource, delete_resource,
}
use open_managed_agents.SessionResources.{
  validate_mount_path, normalize_github_session_resource, unprocessed, text_or, github_repo_name,
  Urls,
}
use open_managed_agents.SessionResources.Calls.{
  copy_file_for_session_resource, file_dict, normalize_memory_store_session_resource,
  create_session_scoped_file, Copied, ensure_capacity, is_object_storage_backend, Objects, has_type,
}
use open_managed_agents.Runtime.{Runtime}
use open_managed_agents.Prelude.{
  leb, one_of, [], joined, ◌&&◌, not, ◌==◌, Bool, or_else, ◌∷◌, if◌then◌else◌, String, ℕ, Option,
  List, none, some, true, false,
}
use open_managed_agents.Result.{Result, ok, http, raise_if, or_raise}
use open_managed_agents.Json.{
  Value, Dict, str, bool, obj, get, put, remove, as_dict, as_str, or_value, is_text,
}
use open_managed_agents.Exec.{Action, check, pure, raise, ◌>>=◌}
use open_managed_agents.Db.{Resource, Session}

-- `if not isinstance(file_id, str) or not file_id: return`
abbrev pub text_value : Value → Option String
text_value (str s) = if s == "" then none else some s
text_value _ = none

-- `isinstance(scope, dict) and scope.get("type") == "session" and scope.get("id") == …`
abbrev pub is_scoped_to : Option String → Value → Bool
is_scoped_to (some id) (obj d) = is_text (get "type" d) "session" && is_text (get "id" d) id
is_scoped_to _ _ = false

unfoldable pub ensure_session_resource_deletable : Resource → Result (Unit {0})
ensure_session_resource_deletable row =
    raise_if (has_type "memory_store" row)
      (http 422 "memory_store session resources cannot be removed after creation")

-- `", ".join(texts)`
abbrev pub join_commas : List String → String
join_commas [] = ""
join_commas (t ∷ []) = t
join_commas (t ∷ s ∷ texts) = joined t (joined ", " (join_commas (s ∷ texts)))

-- The key of the object that a removal deletes from the object storage, if it deletes one.
abbrev pub Deleted : Type 0
Deleted = Option String

module _ ⦃r : Runtime⦄ where
  unfoldable pub rotate_session_resource_token : ℕ → Dict → Dict → Result Dict
  rotate_session_resource_token now current d =
      if not (is_text (get "type" current) "github_repository")
      then unprocessed "Only github_repository session resources support token rotation"
      else if text_or "authorization_token" "" d == ""
      then unprocessed "authorization_token is required"
      else ok (
          remove "authorization_token" (
            put "authorization_token_updated_at" (str (r.isoformat now))
              (put "authorization_token_present" (bool true) current)))

  abbrev pub present_resource : Option Resource → Action Resource
  present_resource found = check (or_raise found (http 404 "Session resource not found"))

  unfoldable pub must_get_session_resource : String → String → Action Resource
  must_get_session_resource session_id resource_id =
      get_resource resource_id (some "session_resource") (some session_id) false none
      >>= present_resource

  abbrev pub write_rotated : Resource → Dict → Action Resource
  write_rotated row payload = update_resource row (record no_changes { payload = some payload })

  abbrev pub rotate : Dict → Resource → Action Resource
  rotate d row c db =
      (check (rotate_session_resource_token c.now row.payload d) >>= write_rotated row) c db

  unfoldable pub update_session_resource : String → String → Dict → Action Resource
  update_session_resource session_id resource_id d = must_get_session session_id >>= λ _.
      must_get_session_resource session_id resource_id >>= rotate d

  abbrev pub release_counted : Resource → String → ℕ → Action Deleted
  release_counted file key references =
      delete_resource file >>= λ _. pure (if leb references 1 then some key else none)

  -- The object is deleted where no other live file has its key; then the file's row is.
  unfoldable pub release_file : Resource → String → Action Deleted
  release_file file workspace_id =
      let key = or_else file.storage_key "" in
      let backend = or_else file.storage_backend "" in
      if is_object_storage_backend file.storage_backend && not (key == "")
      then (count_resources_by_storage_key "file" backend key false (some workspace_id)
          >>= release_counted file key)
      else (delete_resource file >>= λ _. pure none)

  abbrev pub release_scoped : Resource → Option Resource → Action Deleted
  release_scoped row none = pure none
  release_scoped row (some file) =
      if is_scoped_to row.parent_id (get "scope" file.payload)
      then release_file file row.workspace_id
      else pure none

  abbrev pub release_named : Resource → Option String → Action Deleted
  release_named row none = pure none
  release_named row (some file_id) =
      get_resource file_id (some "file") none false (some row.workspace_id) >>= release_scoped row

  unfoldable pub delete_session_resource_file : Resource → Action Deleted
  delete_session_resource_file row =
      if has_type "file" row
      then release_named row (text_value (get "file_id" row.payload))
      else pure none

  abbrev pub remove_row : Resource → Action Deleted
  remove_row row = check (ensure_session_resource_deletable row) >>= λ _.
      delete_session_resource_file row >>= λ deleted. delete_resource row >>= λ _. pure deleted

  unfoldable pub delete_session_resource : String → String → Action Deleted
  delete_session_resource session_id resource_id = must_get_session session_id >>= λ _.
      must_get_session_resource session_id resource_id >>= remove_row

  module _ ⦃u : Urls⦄ ⦃o : Objects⦄ where
    abbrev pub scoped : String → String → Resource → String → String → Copied → Action Dict
    scoped file_id mount_path file session_id workspace_id copied =
        create_session_scoped_file file copied session_id workspace_id >>= λ session_file.
        pure (file_dict file_id mount_path copied session_file)

    abbrev pub copied_or_raise : Option Copied → Result Copied
    copied_or_raise copied =
        or_raise copied (http 500 "File object is not stored in object storage")

    -- `_normalize_file_session_resource` from the file's row on.
    abbrev pub mount_file : Dict → String → String → String → Resource → Action Dict
    mount_file d file_id session_id workspace_id file =
        let mount_path = text_or "mount_path" (joined "/mnt/session/uploads/" file_id) d in
        check (validate_mount_path mount_path) >>= λ _.
        check (copy_file_for_session_resource file session_id workspace_id) >>= λ copied.
        check (copied_or_raise copied) >>= scoped file_id mount_path file session_id workspace_id

    abbrev pub mount_present : Dict → String → String → String → Option Resource → Action Dict
    mount_present d file_id session_id workspace_id found =
        check (or_raise found (http 404 "File not found"))
        >>= mount_file d file_id session_id workspace_id

    unfoldable pub normalize_file_session_resource : Dict → String → String → Action Dict
    normalize_file_session_resource d workspace_id session_id =
        let file_id = text_or "file_id" "" d in
        if file_id == ""
        then raise (http 422 "file session resources require file_id")
        else get_resource file_id (some "file") none false (some workspace_id)
          >>= mount_present d file_id session_id workspace_id

    abbrev pub github_now : Dict → Action Dict
    github_now d c db = check (normalize_github_session_resource c.now d) c db

    -- The set of the allowed types is given in sorted order.
    abbrev pub normalize_typed : Dict → List String → String → String → String → Action Dict
    normalize_typed d allowed workspace_id session_id type =
        if not (one_of type allowed)
        then raise
            (http 422 (joined "Session resource type must be one of: " (join_commas allowed)))
        else if type == "file"
        then normalize_file_session_resource d workspace_id session_id
        else if type == "github_repository"
        then github_now d
        else if type == "memory_store"
        then normalize_memory_store_session_resource d workspace_id
        else raise (http 422 (joined "Unsupported session resource type: " type))

    unfoldable pub normalize_session_resource_data :
        Value → List String → String → String → Action Dict
    normalize_session_resource_data v allowed workspace_id session_id = elim (as_dict v) [
      | none ↦ raise (http 422 "Session resource must be an object")
      | some d ↦ normalize_typed d allowed workspace_id session_id (text_or "type" "" d)
    ]

    unfoldable pub session_resource_name : Dict → Option String
    session_resource_name d =
        if is_text (get "type" d) "file"
        then as_str (get "file_id" d)
        else if is_text (get "type" d) "github_repository"
        then some (github_repo_name (text_or "url" "" d))
        else if is_text (get "type" d) "memory_store"
        then as_str (or_value (get "name" d) (get "memory_store_id" d))
        else as_str (get "name" d)

    unfoldable pub insert_session_resource : Session → Dict → Action Resource
    insert_session_resource session normalized =
        create_resource (record (new_resource "session_resource") {
          parent_id = some session.id;
          name = session_resource_name normalized;
          payload = some normalized;
          workspace_id = some session.workspace_id;
        })

    unfoldable pub create_session_resource : Session → Value → List String → Action Resource
    create_session_resource session v allowed = ensure_capacity session v >>= λ _.
        normalize_session_resource_data v allowed session.workspace_id session.id
        >>= insert_session_resource session
