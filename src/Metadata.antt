-- ===== src/Metadata.antt =====
-- app/metadata.py: the metadata of a row, a small dict from texts to texts.
pub mod Limits
pub mod Merge
mod Tests
use Prim.Native.String.{count}
use open_managed_agents.Result.{raise_if, ◌>>◌, http, ◌>>=◌, ok, err, Result}
use open_managed_agents.Prelude.{some, none, ltb, ◌||◌, ◌==◌, if◌then◌else◌, Bool, ℕ, String}
use open_managed_agents.Json.{
  is_text, size, null, str, remove, obj, field, empty, put, is_null, as_str, Dict, Value,
}

abbrev pub max_metadata_keys : ℕ
max_metadata_keys = 16

abbrev pub max_metadata_key_chars : ℕ
max_metadata_key_chars = 64

abbrev pub max_metadata_value_chars : ℕ
max_metadata_value_chars = 512

abbrev pub refuse {ℓ} : {A : Type ℓ} → String → Result A
refuse detail = err (http 422 detail)

-- `_metadata_key`, on the keys of a JSON object, which are texts.
unfoldable pub metadata_key : String → Result String
metadata_key key =
    if key == ""
    then refuse "metadata keys must not be empty"
    else if ltb max_metadata_key_chars (count key)
    then refuse "metadata keys must be at most 64 characters"
    else ok key

unfoldable pub metadata_value : Value → Result String
metadata_value v = elim (as_str v) [
  | none ↦ refuse "metadata values must be strings"
  | some s ↦
      if ltb max_metadata_value_chars (count s)
      then refuse "metadata values must be at most 512 characters"
      else ok s
]

unfoldable pub validate_metadata_size : Dict → Result (Unit {0})
validate_metadata_size d =
    if ltb max_metadata_keys (size d) then refuse "metadata supports at most 16 keys" else ok tt

-- `d[key] = value`, with the checks on both.
unfoldable pub put_checked : String → Value → Dict → Result Dict
put_checked raw_key raw_value d =
    metadata_key raw_key >>= λ key. metadata_value raw_value >>= λ value. ok (put key (str value) d)

-- One round of the loop of `normalize_metadata`.
unfoldable pub put_normalized : String → Value → Dict → Result Dict
put_normalized raw_key raw_value d = metadata_key raw_key >>= λ key.
    raise_if (is_null raw_value) (http 422 "metadata values must be strings")
    >> (metadata_value raw_value >>= λ value. ok (put key (str value) d))

unfoldable pub normalize_fields : Dict → Dict → Result Dict
normalize_fields empty normalized = ok normalized
normalize_fields (field key v rest) normalized =
    put_normalized key v normalized >>= normalize_fields rest

unfoldable pub normalize_metadata : Value → Result Dict
normalize_metadata null = ok empty
normalize_metadata (obj d) =
    normalize_fields d empty >>= λ normalized. validate_metadata_size normalized >> ok normalized
normalize_metadata _ = refuse "metadata must be an object"

-- `raw_value is None or raw_value == ""`
abbrev pub removes : Value → Bool
removes v = is_null v || is_text v ""

-- What one round of the loop of `merge_metadata` does to the dict, before its size is checked.
unfoldable pub patched : String → Value → Dict → Result Dict
patched raw_key v merged =
    if removes v
    then metadata_key raw_key >>= (λ key. ok (remove key merged))
    else put_checked raw_key v merged

unfoldable pub merge_field : String → Value → Dict → Result Dict
merge_field raw_key v merged =
    patched raw_key v merged >>= λ merged'. validate_metadata_size merged' >> ok merged'

unfoldable pub merge_fields : Dict → Dict → Result Dict
merge_fields empty merged = ok merged
merge_fields (field key v rest) merged = merge_field key v merged >>= merge_fields rest

unfoldable pub apply_patch : Value → Dict → Result Dict
apply_patch null merged = ok merged
apply_patch (obj d) merged = merge_fields d merged
apply_patch _ merged = refuse "metadata must be an object"

unfoldable pub merge_metadata : Value → Value → Result Dict
merge_metadata current patch = normalize_metadata current >>= apply_patch patch
