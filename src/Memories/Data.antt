-- ===== src/Memories/Data.antt =====
-- The dict of a memory: how a creation and an update make it, and what a version of it keeps.
pub mod Payload
use open_managed_agents.Prelude.Int.{succ_ℤ}
use open_managed_agents.WorkQueue.Defs.{to_int}
use open_managed_agents.Json.Equal.{same_dict}
use open_managed_agents.Memories.Paths.{normalize_memory_path, utf8_length, path_key, Unicode}
use open_managed_agents.Runtime.{to_str, Runtime}
use open_managed_agents.Prelude.{
  ◌==◌, ◌&&◌, or_else, ltb, ℤ, Option, one_of, is_some, not, [], ◌*◌, ℕ, Bool, ◌∷◌, if◌then◌else◌,
  String, List, none, some, false, pos,
}
use open_managed_agents.Json.{
  Value, Dict, str, obj, int, bool, empty, field, lookup, get, put, remove, is_null, is_text,
  or_value,
}
use open_managed_agents.Result.{raise_if, Result, ok, http, map_ok, ◌>>=◌}

abbrev pub max_memory_content_bytes : ℕ
max_memory_content_bytes = 100 * 1024

-- `d.setdefault(key, v)`
abbrev pub put_default : String → Value → Dict → Dict
put_default key v d = if is_some (lookup key d) then d else put key v d

-- `{key: value for key, value in d.items() if key not in keys}`
unfoldable pub without_keys : List String → Dict → Dict
without_keys keys empty = empty
without_keys keys (field k v d) =
    let rest = without_keys keys d in if one_of k keys then rest else field k v rest

-- `"" if v is None else str(v)`
abbrev pub content_text : ⦃r : Runtime⦄ → Value → String
content_text v = if is_null v then "" else to_str v

unfoldable pub enforce_memory_content_limit : String → Result (Unit {0})
enforce_memory_content_limit content =
    raise_if (ltb max_memory_content_bytes (utf8_length content))
      (http 413 "Memory content exceeds maximum size of 102400 bytes")

unfoldable pub memory_snapshot : Dict → Dict
unfolding without_keys
memory_snapshot d = without_keys ("path_key" ∷ []) d

-- The columns that do not make a change of a memory.
abbrev pub ignored : List String
ignored =
    "content_sha256" ∷ "content_size_bytes" ∷ "created_at" ∷ "created_by" ∷ "memory_version_id"
    ∷ "session_id" ∷ "updated_at" ∷ "updated_by" ∷ "version" ∷ []

unfoldable pub memory_has_material_change : Dict → Dict → Bool
unfolding without_keys
memory_has_material_change existing merged =
    not (same_dict (without_keys ignored existing) (without_keys ignored merged))

-- The keys of an update's body that the merge leaves out.
abbrev pub kept_keys : List String
kept_keys = "path_key" ∷ "version" ∷ "created_at" ∷ "created_by" ∷ "memory_version_id" ∷ []

-- The loop of `_merge_memory_data`.
unfoldable pub merge_memory_fields : Dict → Dict → Dict
merge_memory_fields empty merged = merged
merge_memory_fields (field key v rest) merged = merge_memory_fields rest (
    if one_of key kept_keys
    then merged
    else if is_text v ""
    then remove key merged
    else put key v merged)

-- `int(d.get("version") or 1)`
abbrev pub current_version : ⦃r : Runtime⦄ → Dict → Result ℤ
current_version d = to_int (or_value (get "version" d) (int (pos 1)))

-- `update.pop("actor", update.pop("updated_by", merged.get("updated_by", "api")))`
abbrev pub actor_of : Dict → Dict → Value
actor_of update merged =
    or_else (lookup "actor" update)
      (or_else (lookup "updated_by" update) (or_else (lookup "updated_by" merged) (str "api")))

abbrev pub without_actor : Dict → Dict
without_actor update = remove "actor" (remove "updated_by" update)

module _ ⦃r : Runtime⦄ ⦃u : Unicode⦄ where
  -- `d.update(_content_metadata(content))`
  unfoldable pub put_content_metadata : String → Dict → Dict
  put_content_metadata content d =
      put "content_size_bytes" (int (pos (utf8_length content)))
        (put "content_sha256" (str (u.sha256_of content)) d)

  -- `d["path"] = path; d["path_key"] = _path_key(path)`
  abbrev pub put_path : String → Dict → Dict
  put_path path d = put "path_key" (str (path_key path)) (put "path" (str path) d)

  -- `d["content"] = content; d.update(_content_metadata(content))`
  abbrev pub put_content : String → Dict → Dict
  put_content content d = put_content_metadata content (put "content" (str content) d)

  -- The fields that a creation stamps.
  unfoldable pub stamped : ℕ → String → Dict → Dict
  stamped now actor memory = remove "actor" (
      put_default "redacted" (bool false) (
        put_default "metadata" (obj empty) (
          put "updated_at" (str (r.isoformat now)) (
            put "created_at" (str (r.isoformat now)) (
              put "updated_by" (str actor)
                (put "created_by" (str actor) (put "version" (int (pos 1)) memory)))))))

  -- The rest of `_memory_payload` from the path on.
  unfoldable pub payload_at : ℕ → Dict → String → Result Dict
  unfolding put_content_metadata stamped enforce_memory_content_limit
  payload_at now body path =
      let actor =
        to_str (or_value (or_value (get "actor" body) (get "updated_by" body)) (str "api")) in
      let memory = put_path path body in
      let content = content_text (get "content" memory) in
      map_ok (λ _. stamped now actor (put_content content memory))
        (enforce_memory_content_limit content)

  unfoldable pub memory_payload : ℕ → Dict → Result Dict
  memory_payload now body = normalize_memory_path (get "path" body) >>= payload_at now body

  -- `if "path" in update: …`
  abbrev pub merged_path : Option Value → Dict → Result Dict
  merged_path none merged = ok merged
  merged_path (some v) merged = map_ok (λ path. put_path path merged) (normalize_memory_path v)

  -- `if "content" in update: …`
  unfoldable pub merged_content : Option Value → Dict → Result Dict
  unfolding put_content_metadata enforce_memory_content_limit
  merged_content none merged = ok merged
  merged_content (some v) merged =
      let content = content_text (get "content" merged) in
      map_ok (λ _. put_content content merged) (enforce_memory_content_limit content)

  -- The fields that an update stamps.
  unfoldable pub restamped : ℕ → String → Dict → ℤ → Dict
  restamped now actor merged version = put_default "metadata" (obj empty) (
      put "updated_at" (str (r.isoformat now))
        (put "updated_by" (str actor) (put "version" (int (succ_ℤ version)) merged)))

  abbrev pub merged_version : ℕ → String → Dict → Result Dict
  merged_version now actor merged = map_ok (restamped now actor merged) (current_version merged)

  unfoldable pub merge_memory_data : ℕ → Dict → Dict → Result Dict
  unfolding merge_memory_fields merged_content restamped
  merge_memory_data now existing update =
      let actor = to_str (actor_of update existing) in
      let fields = without_actor update in
      merged_path (lookup "path" fields) existing
      >>= (λ merged. merged_content (lookup "content" fields) (merge_memory_fields fields merged))
      >>= merged_version now actor

  abbrev pub requested_path : Option Value → Dict → Result Value
  requested_path none current = ok (get "path" current)
  requested_path (some v) current = map_ok str (normalize_memory_path v)

  abbrev pub requested_content : Option Value → Dict → String
  requested_content none current = content_text (get "content" current)
  requested_content (some v) current = content_text v

  -- Whether an update whose precondition fails asks for what is there.
  unfoldable pub memory_requested_state_matches_current : Dict → Dict → Result Bool
  memory_requested_state_matches_current current update =
      let current_content = content_text (get "content" current) in
      let content = requested_content (lookup "content" update) current in
      requested_path (lookup "path" update) current >>= λ requested.
      normalize_memory_path (get "path" current) >>= λ path.
      ok (is_text requested path && current_content == content)
