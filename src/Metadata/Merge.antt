-- ===== src/Metadata/Merge.antt =====
-- What a patch does to metadata.
use open_managed_agents.Json.Fields.{lookup-put, lookup-remove_ne}
use mathlib.Core.Path.{sym, ap, subst}
use open_managed_agents.Result.{ok_injective, next-eq-ok}
use open_managed_agents.Json.{put, null, arr, str, int, bool, remove, lookup, empty}
use open_managed_agents.Metadata.Limits.{
  put_checked-HasFields, HasFields-remove, sized, normalize_metadata-IsMetadata, IsMetadata,
  HasFields,
}
use open_managed_agents.Prelude.{
  ne→not-eq, false, refl, ◌∙◌, inr, inl, ◌==◌, Bool-cases, ◌≢◌, ◌≡◌, String,
}
use open_managed_agents.Metadata.{
  metadata_value, count, max_metadata_key_chars, ltb, validate_metadata_size, removes,
  normalize_metadata, obj, ok, field, put_checked, Dict, Value, metadata_key, merge_metadata,
  patched, apply_patch, merge_field, merge_fields,
}

patched-HasFields :
    (k : String) (v : Value) (d d' : Dict) → patched k v d ≡ ok d' → HasFields d → HasFields d'
unfolding patched
patched-HasFields k v d d' h l = elim (Bool-cases (removes v)) [
  | inl e ↦
      let (key, _, same) = next-eq-ok (metadata_key k) (λ j. ok (remove j d)) (rw e at h) in
      subst HasFields (ok_injective same) (HasFields-remove key d l)
  | inr e ↦ put_checked-HasFields k v d d' (rw e at h) l
]

same_key : (raw key : String) → metadata_key raw ≡ ok key → key ≡ raw
unfolding metadata_key
same_key raw key h = elim (Bool-cases (raw == "")) [
  | inl e ↦ cc (rw e at h)
  | inr e ↦ elim (Bool-cases (ltb max_metadata_key_chars (count raw))) [
    | inl l ↦ cc (rw (e, l) at h)
    | inr l ↦ sym (ok_injective (rw (e, l) at h))
  ]
]

lookup-put_ne :
    (k key : String) (v : Value) (d : Dict) → k ≢ key → lookup k (put key v d) ≡ lookup k d
lookup-put_ne k key v d ne =
    let other : (key == k) ≡ false = ne→not-eq key k (λ q. ne (sym q)) in
    lookup-put k key v d ∙ rw other

patched-lookup :
    (j : String) (v : Value) (d d' : Dict) (k : String)
    → patched j v d ≡ ok d'
    → j ≢ k
    → lookup k d' ≡ lookup k d
unfolding patched put_checked
patched-lookup j v d d' k h ne = elim (Bool-cases (removes v)) [
  | inl e ↦
      let (key, key_h, same) = next-eq-ok (metadata_key j) (λ i. ok (remove i d)) (rw e at h) in
      ap (lookup k) (sym (ok_injective same))
      ∙ lookup-remove_ne k key d (λ q. ne (sym (q ∙ same_key j key key_h)))
  | inr e ↦
      let (key, key_h, rest) = next-eq-ok (metadata_key j) _ (rw e at h) in
      let (value, _, same) = next-eq-ok (metadata_value v) _ rest in
      ap (lookup k) (sym (ok_injective same))
      ∙ lookup-put_ne k key (str value) d (λ q. ne (sym (q ∙ same_key j key key_h)))
]

merge_field-lookup :
    (j : String) (v : Value) (d m : Dict) (k : String)
    → merge_field j v d ≡ ok m
    → j ≢ k
    → lookup k m ≡ lookup k d
unfolding merge_field
merge_field-lookup j v d m k h ne =
    let (d', patch_h, rest) = next-eq-ok (patched j v d) _ h in
    let (_, _, same) = next-eq-ok (validate_metadata_size d') (λ _. ok d') rest in
    ap (lookup k) (sym (ok_injective same)) ∙ patched-lookup j v d d' k patch_h ne

merge_field-IsMetadata :
    (k : String) (v : Value) (d m : Dict) → merge_field k v d ≡ ok m → IsMetadata d → IsMetadata m
unfolding merge_field
merge_field-IsMetadata k v d m h l =
    let (d', patch_h, rest) = next-eq-ok (patched k v d) _ h in
    sized d' m rest (patched-HasFields k v d d' patch_h l.0)

-- The key is none of the dict's.
abbrev pub IsAbsent : String → Dict → Type 0
IsAbsent k empty = Unit
IsAbsent k (field j v d) = (j ≢ k) × IsAbsent k d

merge_fields_lem :
    (p d m : Dict)
    → merge_fields p d ≡ ok m
    → IsMetadata d
    → IsMetadata m × ((k : String) → IsAbsent k p → lookup k m ≡ lookup k d)
unfolding merge_fields
merge_fields_lem empty d m h l =
    subst (λ x. IsMetadata x × ((k : String) → IsAbsent k empty → lookup k x ≡ lookup k d))
      (ok_injective h) (l, λ k a. refl)
merge_fields_lem (field j v p) d m h l =
    let (d', here, rest) = next-eq-ok (merge_field j v d) (merge_fields p) h in
    let (limits, kept) = merge_fields_lem p d' m rest (merge_field-IsMetadata j v d d' here l) in
    (limits, λ k absent. kept k absent.1 ∙ merge_field-lookup j v d d' k here absent.0)

-- The keys of a patch; a missing patch has none.
abbrev pub IsUntouched : String → Value → Type 0
IsUntouched k (obj p) = IsAbsent k p
IsUntouched k _ = Unit

apply_patch_lem :
    (patch : Value) (d m : Dict)
    → apply_patch patch d ≡ ok m
    → IsMetadata d
    → IsMetadata m × ((k : String) → IsUntouched k patch → lookup k m ≡ lookup k d)
unfolding apply_patch
apply_patch_lem (obj p) d m h l = merge_fields_lem p d m h l
apply_patch_lem null d m h l =
    subst (λ x. IsMetadata x × ((k : String) → Unit → lookup k x ≡ lookup k d)) (ok_injective h)
      (l, λ k a. refl)
apply_patch_lem (bool b) d m h l = cc
apply_patch_lem (int z) d m h l = cc
apply_patch_lem (str s) d m h l = cc
apply_patch_lem (arr vs) d m h l = cc

-- Where a merge returns, the result is within the limits on metadata, and every key that the patch
-- does not name has the value that it had in the normalised metadata.
pub merge_metadata-IsMetadata :
    (current patch : Value) (m : Dict)
    → merge_metadata current patch ≡ ok m
    → IsMetadata m
      × ((n : Dict) × (normalize_metadata current ≡ ok n)
          × ((k : String) → IsUntouched k patch → lookup k m ≡ lookup k n))
unfolding merge_metadata
merge_metadata-IsMetadata current patch m h =
    let (n, start, rest) = next-eq-ok (normalize_metadata current) (apply_patch patch) h in
    let (limits, kept) =
      apply_patch_lem patch n m rest (normalize_metadata-IsMetadata current n start) in
    (limits, (n, start, kept))
