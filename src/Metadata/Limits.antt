-- ===== src/Metadata/Limits.antt =====
-- The limits on metadata, which every result of app/metadata.py keeps.
use mathlib.Core.Path.{sym, subst}
use open_managed_agents.Result.{ok_injective, next-eq-ok}
use open_managed_agents.Json.{
  is_null, null, obj, arr, int, bool, str, empty, size, field, Value, remove, Dict, put,
}
use open_managed_agents.Metadata.{
  raise_if, put_normalized, put_checked, ltb, ◌>>◌, normalize_metadata, normalize_fields,
  max_metadata_value_chars, max_metadata_key_chars, max_metadata_keys, count, ok, metadata_key,
  metadata_value, validate_metadata_size,
}
use open_managed_agents.Prelude.{
  refl, true, arith, false, eq_iff, inr, inl, ◌==◌, Bool-cases, ◌≤◌, ◌≢◌, ◌≡◌, String,
}

-- A field within the limits: a key that is not empty, and a text.
abbrev pub IsField : String → Value → Type 0
IsField k v =
    (k ≢ "")
    × (count k ≤ max_metadata_key_chars)
    × ((s : String) × (v ≡ str s) × (count s ≤ max_metadata_value_chars))

abbrev pub HasFields : Dict → Type 0
HasFields empty = Unit
HasFields (field k v d) = IsField k v × HasFields d

abbrev pub IsMetadata : Dict → Type 0
IsMetadata d = HasFields d × (size d ≤ max_metadata_keys)

eq-IsField : (j k : String) (v : Value) → (j == k) ≡ true → IsField k v → IsField j v
eq-IsField j k v e f = subst (λ i. IsField i v) (sym ((eq_iff j k).0 e)) f

not_empty : (s : String) → (s == "") ≡ false → s ≢ ""
not_empty s e h = ground (arith, eq_iff s "")

HasFields-put :
    (k : String) (v : Value) (d : Dict) → IsField k v → HasFields d → HasFields (put k v d)
unfolding put
HasFields-put k v empty f h = (f, tt)
HasFields-put k v (field j w d) f h = elim (Bool-cases (j == k)) [
  | inl e ↦ rw e (eq-IsField j k v e f, h.1)
  | inr e ↦ rw e (h.0, HasFields-put k v d f h.1)
]

pub HasFields-remove : (k : String) (d : Dict) → HasFields d → HasFields (remove k d)
unfolding remove
HasFields-remove k empty h = tt
HasFields-remove k (field j w d) h = elim (Bool-cases (j == k)) [
  | inl e ↦ rw e h.1
  | inr e ↦ rw e (h.0, HasFields-remove k d h.1)
]

key_ok :
    (raw key : String)
    → metadata_key raw ≡ ok key
    → (key ≢ "") × (count key ≤ max_metadata_key_chars)
unfolding metadata_key
key_ok raw key h = elim (Bool-cases (raw == "")) [
  | inl e ↦ cc (rw e at h)
  | inr e ↦ elim (Bool-cases (ltb max_metadata_key_chars (count raw))) [
    | inl l ↦ cc (rw (e, l) at h)
    | inr l ↦
        let same : raw ≡ key = ok_injective (rw (e, l) at h) in
        rw⁻¹ same (not_empty raw e, ground arith)
  ]
]

text_ok : (t s : String) → metadata_value (str t) ≡ ok s → count s ≤ max_metadata_value_chars
unfolding metadata_value
text_ok t s h = elim (Bool-cases (ltb max_metadata_value_chars (count t))) [
  | inl l ↦ cc (rw l at h)
  | inr l ↦
      let same : t ≡ s = ok_injective (rw l at h) in
      rw⁻¹ same (let fits : count t ≤ max_metadata_value_chars = ground arith in fits)
]

value_ok : (v : Value) (s : String) → metadata_value v ≡ ok s → count s ≤ max_metadata_value_chars
unfolding metadata_value
value_ok (str t) s h = text_ok t s h
value_ok null s h = cc
value_ok (bool b) s h = cc
value_ok (int z) s h = cc
value_ok (arr vs) s h = cc
value_ok (obj d) s h = cc

size_ok : (d : Dict) {u : Unit} → validate_metadata_size d ≡ ok u → size d ≤ max_metadata_keys
unfolding validate_metadata_size
size_ok d h = ground arith

pub put_checked-HasFields :
    (k : String) (v : Value) (d d' : Dict) → put_checked k v d ≡ ok d' → HasFields d → HasFields d'
unfolding put_checked
put_checked-HasFields k v d d' h l =
    let (key, key_h, rest) = next-eq-ok (metadata_key k) _ h in
    let (value, value_h, last) = next-eq-ok (metadata_value v) _ rest in
    let (ne, fits) = key_ok k key key_h in
    subst HasFields (ok_injective last)
      (HasFields-put key (str value) d (ne, fits, (value, refl, value_ok v value value_h)) l)

put_normalized-HasFields :
    (k : String) (v : Value) (d d' : Dict)
    → put_normalized k v d ≡ ok d'
    → HasFields d
    → HasFields d'
unfolding put_normalized
put_normalized-HasFields k v d d' h l =
    let (key, key_h, rest) = next-eq-ok (metadata_key k) _ h in
    let (_, _, rest1) = next-eq-ok (raise_if (is_null v) _) _ rest in
    let (value, value_h, last) = next-eq-ok (metadata_value v) _ rest1 in
    let (ne, fits) = key_ok k key key_h in
    subst HasFields (ok_injective last)
      (HasFields-put key (str value) d (ne, fits, (value, refl, value_ok v value value_h)) l)

normalize_fields-HasFields :
    (d acc m : Dict) → normalize_fields d acc ≡ ok m → HasFields acc → HasFields m
unfolding normalize_fields
normalize_fields-HasFields empty acc m h l = subst HasFields (ok_injective h) l
normalize_fields-HasFields (field k v rest) acc m h l =
    let (d', put_h, rest_h) = next-eq-ok (put_normalized k v acc) (normalize_fields rest) h in
    normalize_fields-HasFields rest d' m rest_h (put_normalized-HasFields k v acc d' put_h l)

pub sized : (d m : Dict) → (validate_metadata_size d >> ok d) ≡ ok m → HasFields d → IsMetadata m
sized d m h l =
    let (u, size_h, same) = next-eq-ok (validate_metadata_size d) (λ _. ok d) h in
    subst IsMetadata (ok_injective same) (l, size_ok d size_h)

-- Metadata that has been normalised is within the limits: at most sixteen fields, each a text of at
-- most 512 characters under a key of one to 64 characters.
pub normalize_metadata-IsMetadata :
    (v : Value) (m : Dict) → normalize_metadata v ≡ ok m → IsMetadata m
unfolding normalize_metadata
normalize_metadata-IsMetadata null m h = subst IsMetadata (ok_injective h) (tt, omega arith)
normalize_metadata-IsMetadata (obj d) m h =
    let (n, fields, rest) = next-eq-ok (normalize_fields d empty) _ h in
    sized n m rest (normalize_fields-HasFields d empty n fields tt)
normalize_metadata-IsMetadata (bool b) m h = cc
normalize_metadata-IsMetadata (int z) m h = cc
normalize_metadata-IsMetadata (str s) m h = cc
normalize_metadata-IsMetadata (arr vs) m h = cc
