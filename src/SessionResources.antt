-- ===== src/SessionResources.antt =====
-- app/session_resources.py: what a session is given besides its environment, as rows of type
-- session_resource. Here the mount paths, and the dict of a repository and of a memory store.
use open_managed_agents.Db.{Resource}
pub mod Calls
pub mod Handlers
pub mod Tokens
pub mod Limits
pub mod Release
mod Tests
use open_managed_agents.Memories.Paths.{split_slashes}
use open_managed_agents.Runtime.{to_str, Runtime}
use open_managed_agents.Prelude.{
  one_of, leb, has_prefix, ◌||◌, or_else, [], ◌&&◌, ltb, drop_slashes, joined, if◌then◌else◌, eqb,
  ◌∷◌, ◌==◌, not, ℕ, List, Bool, none, some, true, false,
}
use open_managed_agents.Result.{Result, err, ok, http, raise_if, map_ok, ◌>>◌}
use open_managed_agents.Json.{
  Value, Dict, str, bool, obj, empty, field, get, put, as_dict, or_value, is_null,
}
use Prim.Native.String.{String, count}
use Prim.Native.Char.{code}

-- What the program takes from `urllib.parse`: `urlparse(url).path`.
pub record Urls : Type 0 where
  pub path_of : String → String

abbrev pub unprocessed {ℓ} : {A : Type ℓ} → String → Result A
unprocessed detail = err (http 422 detail)

-- `[A-Za-z0-9._-]`
abbrev pub is_safe : ℕ → Bool
is_safe n =
    (leb 65 n && leb n 90) || (leb 97 n && leb n 122) || (leb 48 n && leb n 57) || one_code n
  where
    one_code : ℕ → Bool
    one_code n = eqb n b'.' || eqb n b'_' || eqb n b'-'

-- `re.sub(r"[^A-Za-z0-9._-]+", "-", s)`; the flag tells that the character before was replaced.
unfoldable pub replace_unsafe : Bool → String → String
replace_unsafe replaced String.[] = ""
replace_unsafe replaced (String.◌∷◌ c s) =
    let kept = replace_unsafe false s in
    let rest = replace_unsafe true s in
    if is_safe (code c) then String.◌∷◌ c kept else if replaced then rest else String.◌∷◌ "-" rest

-- `s.strip("-")`
unfoldable pub drop_dashes : String → String
drop_dashes String.[] = ""
drop_dashes (String.◌∷◌ c s) =
    let rest = drop_dashes s in if rest == "" && eqb (code c) b'-' then "" else String.◌∷◌ c rest

unfoldable pub trim_dashes : String → String
trim_dashes String.[] = ""
trim_dashes (String.◌∷◌ c s) =
    let rest = trim_dashes s in if eqb (code c) b'-' then rest else String.◌∷◌ c s

-- `parts[-1]`
abbrev pub last_part : List String → String
last_part [] = ""
last_part (part ∷ []) = part
last_part (part ∷ other ∷ parts) = last_part (other ∷ parts)

-- `s[:-4]` where `s.endswith(".git")`.
unfoldable pub without_git : String → String
without_git String.[] = ""
without_git (String.◌∷◌ c s) =
    let rest = without_git s in if String.◌∷◌ c s == ".git" then "" else String.◌∷◌ c rest

-- `a or b` of texts.
abbrev pub or_text : String → String → String
or_text s t = if s == "" then t else s

unfoldable pub validate_mount_path : String → Result (Unit {0})
validate_mount_path path =
    raise_if (not (has_prefix "/" path)) (http 422 "mount_path must be absolute")

module _ ⦃r : Runtime⦄ where
  -- `str(d.get(key) or default)`
  abbrev pub text_or : String → String → Dict → String
  text_or key default d = to_str (or_value (get key d) (str default))

  unfoldable pub safe_mount_segment : String → String
  unfolding replace_unsafe drop_dashes trim_dashes
  safe_mount_segment value =
      r.lower (trim_dashes (drop_dashes (replace_unsafe false (r.strip value))))

  unfoldable pub memory_store_mount_path : String → String → String
  memory_store_mount_path name fallback =
      joined "/mnt/memory/"
        (or_text (or_text (safe_mount_segment name) (safe_mount_segment fallback)) "memory")

  unfoldable pub normalize_github_checkout : Value → Result Dict
  normalize_github_checkout v = elim (as_dict v) [
    | none ↦ unprocessed "github_repository checkout must be an object"
    | some d ↦
        if text_or "type" "" d == "branch"
        then (if text_or "name" "" d == ""
            then unprocessed "branch checkout requires name"
            else ok (field "type" (str "branch") (field "name" (str (text_or "name" "" d)) empty)))
        else if text_or "type" "" d == "commit"
        then (if text_or "sha" "" d == ""
            then unprocessed "commit checkout requires sha"
            else ok (field "type" (str "commit") (field "sha" (str (text_or "sha" "" d)) empty)))
        else unprocessed "checkout type must be branch or commit"
  ]

  -- `if data.get("checkout") is not None: …`
  abbrev pub with_checkout : Value → Dict → Result Dict
  with_checkout v normalized =
      if is_null v
      then ok normalized
      else map_ok (λ checkout. put "checkout" (obj checkout) normalized)
          (normalize_github_checkout v)

  abbrev pub github_fields : ℕ → String → String → Dict
  github_fields now url mount_path = field "type" (str "github_repository") (
      field "url" (str url) (
        field "mount_path" (str mount_path) (
          field "authorization_token_present" (bool true)
            (field "authorization_token_updated_at" (str (r.isoformat now)) empty))))

  module _ ⦃u : Urls⦄ where
    unfoldable pub github_repo_name : String → String
    unfolding without_git
    github_repo_name url =
        let path = or_text (u.path_of url) url in
        let name = or_text (last_part (split_slashes (drop_slashes path))) "repository" in
        or_text (safe_mount_segment (without_git name)) "repository"

    unfoldable pub default_github_mount_path : String → String
    default_github_mount_path url =
        joined "/workspace/" (or_text (github_repo_name url) "repository")

    unfoldable pub normalize_github_session_resource : ℕ → Dict → Result Dict
    normalize_github_session_resource now d =
        let url = text_or "url" "" d in
        let mount_path = text_or "mount_path" (default_github_mount_path url) d in
        raise_if (url == "") (http 422 "github_repository session resources require url")
        >> (raise_if (text_or "authorization_token" "" d == "")
              (http 422 "github_repository session resources require authorization_token")
            >> (validate_mount_path mount_path
                >> with_checkout (get "checkout" d) (github_fields now url mount_path)))

  -- The instructions of an attached store.
  abbrev pub with_instructions : Value → Dict → Result Dict
  with_instructions v normalized =
      let instructions = to_str (or_value v (str "")) in
      if is_null v
      then ok normalized
      else if ltb 4096 (count instructions)
      then unprocessed "memory_store instructions must be 4096 characters or fewer"
      else ok (put "instructions" (str instructions) normalized)

  -- The dict of an attached store, from the request and the store's row.
  unfoldable pub attached_store : Dict → String → Resource → Result Dict
  attached_store d store_id store =
      let access = text_or "access" "read_write" d in
      let name =
        or_text (or_text (or_else store.name "") (text_or "name" "" store.payload)) store_id in
      if not (one_of access ("read_write" ∷ "read_only" ∷ []))
      then unprocessed "memory_store access must be read_write or read_only"
      else with_instructions (get "instructions" d) (
          field "type" (str "memory_store") (
            field "memory_store_id" (str store_id) (
              field "access" (str access) (
                field "name" (str name) (
                  field "description" (str (text_or "description" "" store.payload))
                    (field "mount_path" (str (memory_store_mount_path name store_id)) empty))))))
