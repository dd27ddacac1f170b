-- ===== src/Metadata/Tests.antt =====
-- Metadata that is merged, and each property at an input where its hypotheses hold.
use open_managed_agents.Metadata.Merge.{merge_metadata-IsMetadata, IsUntouched}
use open_managed_agents.Prelude.{refl, ◌≡◌}
use open_managed_agents.Metadata.Limits.{IsMetadata}
use open_managed_agents.Json.{empty, str, null, obj, field, Dict, Value, put, remove, lookup}
use open_managed_agents.Metadata.{
  String, ok, normalize_metadata, merge_metadata, metadata_value, put_checked, merge_field,
  merge_fields, patched, put_normalized, metadata_key, validate_metadata_size, normalize_fields,
  apply_patch,
}

abbrev old : Value
old = obj (field "team" (str "a") (field "stage" (str "dev") empty))

abbrev change : Value
change = obj (field "stage" (str "prod") (field "owner" (str "me") empty))

abbrev new : Dict
new = field "team" (str "a") (field "stage" (str "prod") (field "owner" (str "me") empty))

merges : merge_metadata old change ≡ ok new
unfolding merge_metadata apply_patch merge_fields merge_field patched put_checked normalize_metadata
    normalize_fields put_normalized metadata_key metadata_value validate_metadata_size put
merges = refl

drops : merge_metadata old (obj (field "team" null empty)) ≡ ok (field "stage" (str "dev") empty)
unfolding merge_metadata apply_patch merge_fields merge_field patched put_checked normalize_metadata
    normalize_fields put_normalized metadata_key metadata_value validate_metadata_size put remove
drops = refl

merge_metadata-IsMetadata_example :
    IsMetadata new
    × ((n : Dict) × (normalize_metadata old ≡ ok n)
        × ((k : String) → IsUntouched k change → lookup k new ≡ lookup k n))
merge_metadata-IsMetadata_example = merge_metadata-IsMetadata old change new merges
