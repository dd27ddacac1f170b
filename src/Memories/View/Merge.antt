-- ===== src/Memories/View/Merge.antt =====
-- What an update's body makes of the key and the content of a memory.
use mathlib.Core.Path.{subst}
use open_managed_agents.Runtime.{to_str, Runtime}
use open_managed_agents.Prelude.{
  sym, ℤ, ℕ, Option, ap, arith, refl, String, ◌∙◌, false, true, ◌==◌, inr, one_of, some, Bool-cases,
  if◌then◌else◌, ◌⊎◌, none, inl, ◌≡◌,
}
use open_managed_agents.Json.{str, empty, put, remove, is_text, field, Value, get, Dict, lookup}
use open_managed_agents.Memories.View.Keys.{same_keys}
use open_managed_agents.Memories.View.Finding.{same_text}
use open_managed_agents.Memories.View.Spec.{given_value, IsNewKey, IsNewContent}
use open_managed_agents.Memories.Data.{
  merge_memory_fields, merged_path, merged_content, merged_version, merge_memory_data, restamped,
  put_content, put_content_metadata, put_path, content_text, actor_of, without_actor, kept_keys,
  current_version, enforce_memory_content_limit,
}
use open_managed_agents.Memories.Data.Payload.{get-put_default, content_under}
use open_managed_agents.Memories.Paths.{path_key, normalize_memory_path, Unicode}
use open_managed_agents.Result.{ok_injective, ok, next-eq-ok, map_ok-eq-ok, ◌>>=◌, map_ok}
use open_managed_agents.Json.Fields.{get-put, get-remove_other}

not_kept : (k : String) → one_of k kept_keys ≡ false → (k == "path_key") ≡ false
not_kept k h = ground arith

-- One field of the loop.
abbrev step : String → Value → Dict → Dict
step k v m = if one_of k kept_keys then m else if is_text v "" then remove k m else put k v m

content_set :
    (k : String) (v : Value) (m : Dict)
    → (k == "content") ≡ true
    → (get "content" (step k v m) ≡ v) ⊎ (is_text v "" ≡ true)
content_set k v m t = elim (Bool-cases (is_text v "")) [
  | inl e ↦ inr e
  | inr q ↦
      let free : one_of k kept_keys ≡ false =
        ap (λ j. one_of j kept_keys) (same_text "content" k t) in
      inl (rw free (rw q (get-put "content" k v m ∙ rw t refl)))
]

content_kept :
    (k : String) (v : Value) (m : Dict)
    → (k == "content") ≡ false
    → get "content" (step k v m) ≡ get "content" m
content_kept k v m p = elim (Bool-cases (one_of k kept_keys)) [
  | inl t ↦ rw t refl
  | inr f ↦ elim (Bool-cases (is_text v "")) [
    | inl t ↦ rw f (rw t (get-remove_other "content" k m p))
    | inr q ↦ rw f (rw q (get-put "content" k v m ∙ rw p refl))
  ]
]

-- The loop over the fields leaves the key alone.
merge-path_key :
    (fields m : Dict) → get "path_key" (merge_memory_fields fields m) ≡ get "path_key" m
unfolding merge_memory_fields
merge-path_key empty m = refl
merge-path_key (field k v d) m = elim (Bool-cases (one_of k kept_keys)) [
  | inl t ↦ rw t (merge-path_key d m)
  | inr p ↦
      let other : (k == "path_key") ≡ false = not_kept k p in
      elim (Bool-cases (is_text v "")) [
        | inl t ↦
            rw p (rw t (merge-path_key d (remove k m) ∙ get-remove_other "path_key" k m other))
        | inr q ↦
            rw p (rw q (merge-path_key d (put k v m) ∙ get-put "path_key" k v m ∙ (rw other refl)))
      ]
]

-- What the loop does to the content: nothing, or the last value given is there, unless that is an
-- empty text.
abbrev IsGiven : Dict → Value → Value → Type 0
IsGiven fields old new =
    ((given_value "content" fields ≡ none) × (lookup "content" fields ≡ none) × (new ≡ old))
    ⊎ ((v w : Value) × (given_value "content" fields ≡ some v)
        × (lookup "content" fields ≡ some w)
        × ((new ≡ v) ⊎ (is_text v "" ≡ true)))

merge-content :
    (fields m : Dict)
    → IsGiven fields (get "content" m) (get "content" (merge_memory_fields fields m))
unfolding merge_memory_fields given_value lookup
merge-content empty m = inl (refl, refl, refl)
merge-content (field k v d) m =
    let m' = step k v m in
    elim (Bool-cases (k == "content")) [
      | inl t ↦ elim (merge-content d m') [
        | inr (v', w, last, first, e) ↦ inr (v', v, rw last refl, rw t refl, e)
        | inl (last, first, e) ↦ inr (
          v,
          v,
          rw (last, t) refl,
          rw t refl,
          elim (content_set k v m t) [ inl q ↦ inl (e ∙ q) | inr q ↦ inr q ],
        )
      ]
      | inr p ↦ elim (merge-content d m') [
        | inr (v', w, last, first, e) ↦ inr (v', w, rw last refl, rw p first, e)
        | inl (last, first, e) ↦ inl (rw (last, p) refl, rw p first, e ∙ content_kept k v m p)
      ]
    ]

module _ ⦃r : Runtime⦄ ⦃u : Unicode⦄ where
  restamped_keeps :
      (now : ℕ) (actor : String) (d : Dict) (version : ℤ)
      → (get "path_key" (restamped now actor d version) ≡ get "path_key" d)
        × (get "content" (restamped now actor d version) ≡ get "content" d)
  unfolding restamped
  restamped_keeps now actor d version =
      (simp (get-put, get-put_default), simp (get-put, get-put_default))

  content_put :
      (content : String) (d : Dict)
      → (get "path_key" (put_content content d) ≡ get "path_key" d)
        × (get "content" (put_content content d) ≡ str content)
  unfolding put_content_metadata
  content_put content d = (simp get-put, simp get-put)

  path_put : (path : String) (d : Dict) → get "path_key" (put_path path d) ≡ str (path_key path)
  path_put path d = simp get-put

  -- The dict with the path of the body.
  merged_path_lem :
      (given : Option Value) (existing merged : Dict) (old key : String)
      → merged_path given existing ≡ ok merged
      → is_text (get "path_key" existing) old ≡ true
      → is_text (get "path_key" merged) key ≡ true
      → IsNewKey given old key × (get "content" merged ≡ get "content" existing)
  merged_path_lem none existing merged old key h was told =
      let e : existing ≡ merged = ok_injective h in
      (
        same_keys (get "path_key" merged) key old told
            (subst (λ d. is_text (get "path_key" d) old ≡ true) e was),
        ap (get "content") (sym e),
      )
  merged_path_lem (some v) existing merged old key h was told =
      let (path, normal, e) =
        map_ok-eq-ok (λ path. put_path path existing) (normalize_memory_path v) h in
      let there : get "path_key" merged ≡ str (path_key path) =
        ap (get "path_key") (sym e) ∙ path_put path existing in
      (
        (
          path,
          normal,
          sym (same_text key (path_key path) (ap (λ w. is_text w key) (sym there) ∙ told)),
        ),
        ap (get "content") (sym e) ∙ content_under path existing,
      )

  merged_content_lem :
      (fields m merged : Dict) (old : Value)
      → merged_content (lookup "content" fields) m ≡ ok merged
      → IsGiven fields old (get "content" m)
      → (get "path_key" merged ≡ get "path_key" m)
        × IsNewContent (given_value "content" fields) old (get "content" merged)
  unfolding merged_content
  merged_content_lem fields m merged old h (inl (last, first, same)) =
      let e : m ≡ merged = ok_injective (sym (rw first refl) ∙ h) in
      (
        ap (get "path_key") (sym e),
        subst (λ g. IsNewContent g old (get "content" merged)) (sym last)
            (ap (get "content") (sym e) ∙ same),
      )
  merged_content_lem fields m merged old h (inr (v, w, last, first, is)) =
      let content = content_text (get "content" m) in
      let checked = map_ok (λ _. put_content content m) (enforce_memory_content_limit content) in
      let q : checked ≡ ok merged = sym (rw first refl) ∙ h in
      let (_, _, e) =
        map_ok-eq-ok (λ _. put_content content m) (enforce_memory_content_limit content) q in
      let there : get "content" merged ≡ str content =
        ap (get "content") (sym e) ∙ (content_put content m).1 in
      (
        ap (get "path_key") (sym e) ∙ (content_put content m).0,
        subst (λ g. IsNewContent g old (get "content" merged)) (sym last)
            (elim is [
              | inl same ↦ inl (there ∙ ap (λ (z : Value). str (content_text z)) same)
              | inr blank ↦ inr (blank, (content, there))
            ]),
      )

  -- The key and the content that a merge gives.
  pub merge_memory_data_lem :
      (now : ℕ) (existing update merged : Dict) (old key : String)
      → merge_memory_data now existing update ≡ ok merged
      → is_text (get "path_key" existing) old ≡ true
      → is_text (get "path_key" merged) key ≡ true
      → IsNewKey (lookup "path" (without_actor update)) old key
        × IsNewContent
            (given_value "content" (without_actor update))
            (get "content" existing)
            (get "content" merged)
  unfolding merge_memory_data
  merge_memory_data_lem now existing update merged old key h was told =
      let actor = to_str (actor_of update existing) in
      let fields = without_actor update in
      let contents =
        λ (m : Dict). merged_content (lookup "content" fields) (merge_memory_fields fields m) in
      let (m2, h2, h3) =
        next-eq-ok (merged_path (lookup "path" fields) existing >>= contents)
          (merged_version now actor) h in
      let (m1, at_path, at_content) =
        next-eq-ok (merged_path (lookup "path" fields) existing) contents h2 in
      let (version, _, e) = map_ok-eq-ok (restamped now actor m2) (current_version m2) h3 in
      let (key_kept, content_same) = restamped_keeps now actor m2 version in
      let (key_left, new) =
        merged_content_lem fields (merge_memory_fields fields m1) m2 (get "content" m1) at_content
          (merge-content fields m1) in
      let there : get "path_key" merged ≡ get "path_key" m1 =
        ap (get "path_key") (sym e) ∙ key_kept ∙ key_left ∙ merge-path_key fields m1 in
      let (new_key, content_there) =
        merged_path_lem (lookup "path" fields) existing m1 old key at_path was
          (ap (λ v. is_text v key) (sym there) ∙ told) in
      (
        new_key,
        subst (IsNewContent (given_value "content" fields) (get "content" existing))
            (sym (ap (get "content") (sym e) ∙ content_same))
            (subst (λ o. IsNewContent (given_value "content" fields) o (get "content" m2))
              content_there new),
      )
