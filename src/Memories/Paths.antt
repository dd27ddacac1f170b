-- ===== src/Memories/Paths.antt =====
-- Paths of memories: `_normalize_memory_path` and the helpers around it.
mod Slashes
pub mod Keys
use Prim.Native.Char.{Char, code}
use open_managed_agents.Prelude.{
  [], ◌||◌, Bool, eqb, ◌+◌, ◌∷◌, ◌==◌, ltb, not, List, String, if◌then◌else◌, ℕ, true, false,
  has_prefix, has_part, joined, drop_slashes, one_of, any,
}
use open_managed_agents.Result.{map_ok, Result, Error, err, ok, http, raise_if, ◌>>◌}
use open_managed_agents.Runtime.{Runtime, to_str}
use open_managed_agents.Json.{Value, null, str, arr, items}

-- What the program takes from `unicodedata` and `hashlib`.
pub record Unicode : Type 0 where
  -- `unicodedata.normalize("NFC", s)`
  pub nfc : String → String
  -- `unicodedata.category(char)` is "Cc", and "Cf".
  pub is_control : Char → Bool
  pub is_format : Char → Bool
  -- `hashlib.sha256(s.encode("utf-8")).hexdigest()`
  pub sha256_of : String → String

-- The bytes of a character in UTF-8.
abbrev pub char_bytes : ℕ → ℕ
char_bytes n = if ltb n 128 then 1 else if ltb n 2048 then 2 else if ltb n 65536 then 3 else 4

-- `len(s.encode("utf-8"))`
unfoldable pub utf8_length : String → ℕ
utf8_length String.[] = 0
utf8_length (String.◌∷◌ c s) = char_bytes (code c) + utf8_length s

abbrev pub max_memory_path_bytes : ℕ
max_memory_path_bytes = 1024

abbrev pub push_char : Char → List String → List String
push_char c [] = String.◌∷◌ c "" ∷ []
push_char c (part ∷ parts) = String.◌∷◌ c part ∷ parts

-- `s.split("/")`
unfoldable pub split_slashes : String → List String
split_slashes String.[] = "" ∷ []
split_slashes (String.◌∷◌ c s) =
    let parts = split_slashes s in if eqb (code c) b'/' then "" ∷ parts else push_char c parts

-- `"/".join(parts)`
unfoldable pub join_slashes : List String → String
join_slashes [] = ""
join_slashes (part ∷ []) = part
join_slashes (part ∷ other ∷ parts) = joined part (String.◌∷◌ "/" (join_slashes (other ∷ parts)))

-- `s.lstrip("/")`
unfoldable pub trim_slashes : String → String
trim_slashes String.[] = ""
trim_slashes (String.◌∷◌ c s) =
    let rest = trim_slashes s in if eqb (code c) b'/' then rest else String.◌∷◌ c s

-- `_path_key`: `path.strip("/")`
unfoldable pub path_key : String → String
unfolding trim_slashes
path_key path = trim_slashes (drop_slashes path)

-- `parts[1:]`
abbrev pub later : List String → List String
later [] = []
later (part ∷ parts) = parts

-- `text.removeprefix("/")`
abbrev pub without_slash : String → String
without_slash String.[] = ""
without_slash (String.◌∷◌ c s) = if eqb (code c) b'/' then s else String.◌∷◌ c s

abbrev pub bad_path : String → Error
bad_path detail = http 422 detail

-- `if bad: raise HTTPException(422, detail)`, one after the other.
unfoldable pub raise_first : List (Bool × String) → Result (Unit {0})
raise_first [] = ok tt
raise_first ((bad, detail) ∷ checks) =
    let rest = raise_first checks in if bad then err (bad_path detail) else rest

module _ ⦃u : Unicode⦄ where
  unfoldable pub has_control_or_format_characters : String → Bool
  has_control_or_format_characters String.[] = false
  has_control_or_format_characters (String.◌∷◌ c s) =
      (u.is_control c || u.is_format c) || has_control_or_format_characters s

  -- `len(parts) == 1 or parts[1:] == [""]`
  abbrev pub has_no_parts : List String → Bool
  has_no_parts [] = true
  has_no_parts (part ∷ []) = part == ""
  has_no_parts (part ∷ other ∷ parts) = false

  unfoldable pub validate_memory_path_text : String → Result (Unit {0})
  unfolding has_control_or_format_characters
  validate_memory_path_text path =
      let parts = later (split_slashes path) in
      raise_first (
        (not (has_prefix "/" path), "Memory path must start with '/'")
        ∷ (ltb max_memory_path_bytes (utf8_length path), "Memory path must be at most 1024 bytes")
        ∷ (not (u.nfc path == path), "Memory path must be NFC-normalized")
        ∷ (has_no_parts parts, "Memory path cannot be empty")
        ∷ (any (λ part. part == "") parts, "Memory path must not contain empty segments")
        ∷ (
          any (λ part. one_of part ("." ∷ ".." ∷ [])) parts,
          "Memory path must not contain '.' or '..' segments",
        )
        ∷ (
          any has_control_or_format_characters parts,
          "Memory path must not contain control or format characters",
        )
        ∷ [])

  -- The rest of `_normalize_memory_path` from its parts on.
  unfoldable pub joined_path : List String → Result String
  joined_path [] = err (bad_path "Memory path cannot be empty")
  joined_path (part ∷ parts) =
      let path = String.◌∷◌ "/" (join_slashes (part ∷ parts)) in
      if any (has_part "/") (part ∷ parts)
      then err (bad_path "Memory path array items cannot contain '/'")
      else map_ok (λ _. path) (validate_memory_path_text path)

  module _ ⦃r : Runtime⦄ where
    -- The parts of an array: without the empty ones.
    unfoldable pub array_parts : List Value → List String
    array_parts [] = []
    array_parts (v ∷ vs) =
        let rest = array_parts vs in
        let part = r.strip (to_str v) in if part == "" then rest else part ∷ rest

    unfoldable pub normalize_memory_path : Value → Result String
    normalize_memory_path null = err (bad_path "Memory path is required")
    normalize_memory_path (str s) =
        let text = r.strip s in
        validate_memory_path_text text >> joined_path (split_slashes (without_slash text))
    normalize_memory_path (arr vs) = joined_path (array_parts (items vs))
    normalize_memory_path _ = err (bad_path "Memory path must be a string or array")

    unfoldable pub normalize_memory_path_prefix : String → Result String
    normalize_memory_path_prefix value =
        let text = r.strip value in
        if text == "/" then ok "/" else normalize_memory_path (str (drop_slashes text))
