-- ===== src/SessionResources/Limits.antt =====
-- A session's memory stores stay within their limit.
use open_managed_agents.Resources.Rows.{create_resource-eq-ok}
use open_managed_agents.SessionResources.Tokens.{type_read}
use mathlib.Core.Path.{subst}
use open_managed_agents.SessionResources.Handlers.{
  insert_session_resource, normalize_typed, normalize_session_resource_data,
  create_session_resource,
}
use open_managed_agents.SessionResources.{text_or, attached_store, Urls}
use open_managed_agents.SessionResources.Calls.{
  ensure_capacity, attach_present, normalize_memory_store_session_resource, Objects,
  max_session_memory_store_resources, refuse_more, has_type, ensure_memory_store_resource_capacity,
  session_resources,
}
use open_managed_agents.Resources.Queries.{
  is_wanted, one_or_none, get_resource, is_newer, list_resources, is_listed,
}
use open_managed_agents.Runtime.{Runtime}
use open_managed_agents.Prelude.Sort.{sort_by, insert_by}
use open_managed_agents.Prelude.{
  length-append, keep-append, ◌==◌, one_of, not, is_some, ◌∙◌, Option, ◌++◌, sym, Bool-cases, zero,
  ◌<◌, refl, ap, leb, [], eq_iff, suc, ◌∷◌, arith, ◌≤◌, ℕ, keep, ◌≡◌, none, some, true, false, inl,
  inr, String, List, Bool, length, take,
}
use open_managed_agents.Result.{raise_if, Error, err, ok, ok_injective}
use open_managed_agents.Json.{Value, Dict, null, str, bool, int, arr, obj, get, is_text}
use open_managed_agents.Exec.{bind-eq-ok, check, ◌>>=◌, check_keeps}
use open_managed_agents.Reads.{
  read_same, IsRead, check-IsRead, bind-IsRead, if-IsRead, read-bind-eq-ok,
}
use open_managed_agents.Db.{workspace_id_or_default, Resource, Session, Context, Db}

take_all {ℓ} : {A : Type ℓ} (n : ℕ) (xs : List A) → length xs ≤ n → take n xs ≡ xs
take_all zero [] h = refl
take_all zero (x ∷ xs) h = absurd (omega arith)
take_all (suc n) [] h = refl
take_all (suc n) (x ∷ xs) h = ap (◌∷◌ x) (take_all n xs (omega arith))

module _ {ℓ} {A : Type ℓ} (before : A → A → Bool) (test : A → Bool) where
  length-insert_by : (x : A) (xs : List A) → length (insert_by before x xs) ≡ suc (length xs)
  unfolding insert_by
  length-insert_by x [] = refl
  length-insert_by x (y ∷ ys) = ground (arith, length-insert_by x ys)

  length-sort_by : (xs : List A) → length (sort_by before xs) ≡ length xs
  unfolding sort_by
  length-sort_by [] = refl
  length-sort_by (x ∷ xs) = omega (arith, length-insert_by x (sort_by before xs), length-sort_by xs)

  count-insert_by :
      (x : A) (xs : List A)
      → length (keep test (insert_by before x xs)) ≡ length (keep test (x ∷ xs))
  unfolding insert_by
  count-insert_by x [] = refl
  count-insert_by x (y ∷ ys) = ground (arith, count-insert_by x ys)

  count-sort_by : (xs : List A) → length (keep test (sort_by before xs)) ≡ length (keep test xs)
  unfolding sort_by
  count-sort_by [] = refl
  count-sort_by (x ∷ xs) = ground (arith, count-insert_by x (sort_by before xs), count-sort_by xs)

other_type : (v : Value) → is_text v "memory_store" ≡ true → is_text v "file" ≡ false
other_type null h = refl
other_type (bool b) h = refl
other_type (int z) h = refl
other_type (arr vs) h = refl
other_type (obj d) h = refl
other_type (str s) h =
    ground (arith, eq_iff s "memory_store", eq_iff s "file", eq_iff "memory_store" "file")

below :
    (n : ℕ) (e : Error) (c : Context) (db db' : Db)
    → check (raise_if (leb 8 n) e) c db ≡ ok (tt, db')
    → n < 8
below n e c db db' h = elim (Bool-cases (leb 8 n)) [
  | inl t ↦ let q : err e ≡ ok (tt, db') = sym (rw t refl) ∙ h in absurd cc
  | inr p ↦ ground arith
]

one_kept : (p : Resource → Bool) (row : Resource) → length (keep p (row ∷ [])) ≤ 1
one_kept p row = elim (Bool-cases (p row)) [
  | inl t ↦ rw t (omega arith)
  | inr f ↦ rw f (omega arith)
]

one_at_most :
    (p test : Resource → Bool) (row : Resource) → length (keep p (keep test (row ∷ []))) ≤ 1
one_at_most p test row = elim (Bool-cases (test row)) [
  | inr f ↦ rw f (omega arith)
  | inl t ↦ rw t (one_kept p row)
]

one_more :
    (p test : Resource → Bool) (rows : List Resource) (row : Resource) (n : ℕ)
    → length (keep p (keep test rows)) < n
    → length (keep p (keep test (rows ++ row ∷ []))) ≤ n
one_more p test rows row n h =
    let new = keep test (row ∷ []) in
    let e =
      ap (λ (xs : List Resource). length (keep p xs)) (keep-append test rows (row ∷ []))
      ∙ ap (λ (xs : List Resource). length xs) (keep-append p (keep test rows) new)
      ∙ length-append (keep p (keep test rows)) (keep p new) in
    let few = one_at_most p test row in omega (arith, e, few)

-- The live resources of a session, archived ones included.
abbrev pub attached : Context → Session → Db → List Resource
attached c session db =
    keep
      (is_listed "session_resource" (some session.id) true false
        (workspace_id_or_default c (some session.workspace_id)))
      db.resources

module _ ⦃r : Runtime⦄ where
  session_resources-IsRead : (session : Session) → IsRead (session_resources session)
  unfolding session_resources list_resources
  session_resources-IsRead session c db = inl (_, refl)

  store_capacity :
      (session : Session) (c : Context) (db : Db) (db' : Db)
      → length (attached c session db) ≤ 1000
      → ensure_memory_store_resource_capacity session c db ≡ ok (tt, db')
      → (length (keep (has_type "memory_store") (attached c session db)) < 8) × (db' ≡ db)
  unfolding ensure_memory_store_resource_capacity session_resources list_resources
  store_capacity session c db db' few h =
      let test = has_type "memory_store" in
      let live = attached c session db in
      let (rows, read, rest) =
        read-bind-eq-ok (session_resources session)
          (refuse_more "memory_store" max_session_memory_store_resources
            "A session can have at most 8 memory store resources")
          c db (session_resources-IsRead session) h in
      let e : take 1000 (sort_by is_newer live) ≡ rows =
        ap (λ (x : List Resource × Db). x.0) (ok_injective read) in
      let whole =
        take_all 1000 (sort_by is_newer live)
          (let q = length-sort_by is_newer test live in omega (arith, q)) in
      let same : length (keep test rows) ≡ length (keep test live) =
        ap (λ (xs : List Resource). length (keep test xs)) (sym e ∙ whole)
        ∙ count-sort_by is_newer test live in
      (
        subst (λ (n : ℕ). n < 8) same (below (length (keep test rows)) _ c db db' rest),
        (check_keeps _ c db db' rest).1,
      )

  module _ ⦃u : Urls⦄ ⦃o : Objects⦄ where
    attach-IsRead :
        (d : Dict) (store_id : String) (found : Option Resource)
        → IsRead (attach_present d store_id found)
    attach-IsRead d store_id none = λ c db. inr (_, refl)
    attach-IsRead d store_id (some store) =
        if-IsRead (is_some store.archived_at) _ _ (λ c db. inr (_, refl))
          (check-IsRead (attached_store d store_id store))

    typed-IsRead :
        (d : Dict) (allowed : List String) (ws id : String)
        → IsRead (normalize_typed d allowed ws id "memory_store")
    unfolding normalize_memory_store_session_resource get_resource
    typed-IsRead d allowed ws id =
        if-IsRead (not (one_of "memory_store" allowed)) _ _ (λ c db. inr (_, refl))
          (if-IsRead (text_or "memory_store_id" "" d == "") _ _ (λ c db. inr (_, refl))
            (bind-IsRead
              (get_resource (text_or "memory_store_id" "" d) (some "memory_store") none false
                (some ws))
              (attach_present d (text_or "memory_store_id" "" d))
              (λ c db.
                check-IsRead
                  (one_or_none (
                    keep
                      (is_wanted (text_or "memory_store_id" "" d) (some "memory_store") none false
                        (workspace_id_or_default c (some ws)))
                      db.resources))
                  c db)
              (attach-IsRead d (text_or "memory_store_id" "" d))))

    -- A memory store is added to a session that has at most a thousand resources only if the session
    -- then has at most eight memory stores.
    pub create_session_resource_limit :
        (session : Session) (d : Dict) (allowed : List String) (c : Context) (db : Db)
        (row : Resource) (db' : Db)
        → is_text (get "type" d) "memory_store" ≡ true
        → length (attached c session db) ≤ 1000
        → create_session_resource session (obj d) allowed c db ≡ ok (row, db')
        → length (keep (has_type "memory_store") (attached c session db')) ≤ 8
    unfolding create_session_resource normalize_session_resource_data insert_session_resource
        ensure_capacity
    create_session_resource_limit session d allowed c db row db' h few done =
        let (_, db1, guarded, h1) =
          bind-eq-ok (ensure_capacity session (obj d))
            (λ _.
              normalize_session_resource_data (obj d) allowed session.workspace_id session.id
              >>= insert_session_resource session)
            c db done in
        let (normalized, db2, made, h2) =
          bind-eq-ok
            (normalize_session_resource_data (obj d) allowed session.workspace_id session.id)
            (insert_session_resource session) c db1 h1 in
        let checked : ensure_memory_store_resource_capacity session c db ≡ ok (tt, db1) =
          sym (rw (other_type (get "type" d) h) (rw h refl)) ∙ guarded in
        let (fewer, same) = store_capacity session c db db1 few checked in
        let (_, same') =
          read_same db1 _ normalized db2
            (typed-IsRead d allowed session.workspace_id session.id c db1)
            (subst
              (λ t.
                normalize_typed d allowed session.workspace_id session.id t c db1
                ≡ ok (normalized, db2))
              (type_read (get "type" d) "memory_store" h refl) made) in
        let (_, added) = create_resource-eq-ok _ c db2 row db' h2 in
        let rows = added ∙ ap (λ (x : Db). x.resources ++ row ∷ []) (same' ∙ same) in
        let test =
          is_listed "session_resource" (some session.id) true false
            (workspace_id_or_default c (some session.workspace_id)) in
        subst (λ (xs : List Resource). length (keep (has_type "memory_store") (keep test xs)) ≤ 8)
          (sym rows) (one_more (has_type "memory_store") test db.resources row 8 fewer)
