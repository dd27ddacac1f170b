-- ===== src/SessionResources/Tokens.antt =====
-- A repository's token is not stored.
use open_managed_agents.Resources.Rows.{create_resource-eq-ok}
use open_managed_agents.Resources.Writes.{created}
use open_managed_agents.Json.Fields.{
  get-remove_other, lookup-remove_self, put-HasDistinctKeys, HasDistinctKeys, get-put,
}
use mathlib.Core.Path.{ap, subst}
use open_managed_agents.SessionResources.Calls.{ensure_capacity, Objects}
use open_managed_agents.SessionResources.{
  validate_mount_path, default_github_mount_path, text_or, normalize_github_checkout, github_fields,
  with_checkout, normalize_github_session_resource, Urls,
}
use open_managed_agents.SessionResources.Handlers.{
  join_commas, github_now, normalize_typed, insert_session_resource,
  normalize_session_resource_data, create_session_resource, rotate_session_resource_token,
}
use open_managed_agents.Runtime.{to_str, Runtime}
use open_managed_agents.Prelude.{
  joined, eq_iff, arith, not, one_of, if◌then◌else◌, ◌==◌, refl, ◌∙◌, sym, Bool-cases, ℕ, ◌≡◌, none,
  true, false, inl, inr, String, List, Bool,
}
use open_managed_agents.Result.{
  http, map_ok, raise_if, Error, ◌>>◌, Result, err, ok, map_ok-eq-ok, ok_injective,
}
use open_managed_agents.Json.{
  arr, int, or_value, is_null, Value, Dict, null, str, bool, obj, get, put, remove, lookup, is_text,
}
use open_managed_agents.Exec.{bind-eq-ok, ◌>>=◌, check_keeps}
use open_managed_agents.Db.{Resource, Session, Context, Db}

-- What a stored repository tells of its token.
abbrev pub HidesToken : Dict → Type 0
HidesToken d =
    (lookup "authorization_token" d ≡ none) × (get "authorization_token_present" d ≡ bool true)

passed :
    (bad : Bool) (e : Error) (rest : Result Dict) (d : Dict)
    → (raise_if bad e >> rest) ≡ ok d
    → rest ≡ ok d
passed true e rest d h = absurd cc
passed false e rest d h = h

passed_check :
    (q : Result (Unit {0})) (rest : Result Dict) (d : Dict) → (q >> rest) ≡ ok d → rest ≡ ok d
passed_check (err e) rest d h = absurd cc
passed_check (ok t) rest d h = h

module _ ⦃r : Runtime⦄ where
  -- The type of a request's dict, as `str(data.get("type") or "")` reads it.
  pub type_read :
      (v : Value) (type : String)
      → is_text v type ≡ true
      → (type == "") ≡ false
      → to_str (or_value v (str "")) ≡ type
  type_read null type h k = absurd cc
  type_read (bool b) type h k = absurd cc
  type_read (int z) type h k = absurd cc
  type_read (arr vs) type h k = absurd cc
  type_read (obj d) type h k = absurd cc
  type_read (str s) type h k =
      let e : s ≡ type = ground (arith, eq_iff s type) in
      subst (λ t. to_str (or_value (str t) (str "")) ≡ type) (sym e) (rw k refl)

  with_checkout-HidesToken :
      (v : Value) (now : ℕ) (url mount_path : String) (d : Dict)
      → with_checkout v (github_fields now url mount_path) ≡ ok d
      → HidesToken d
  unfolding lookup get put
  with_checkout-HidesToken v now url mount_path d h = elim (Bool-cases (is_null v)) [
    | inl t ↦
        let q : ok (github_fields now url mount_path) ≡ ok d = sym (rw t refl) ∙ h in
        subst HidesToken (ok_injective q) (refl, refl)
    | inr p ↦
        let add =
          λ (checkout : Dict). put "checkout" (obj checkout) (github_fields now url mount_path) in
        let q : map_ok add (normalize_github_checkout v) ≡ ok d = sym (rw p refl) ∙ h in
        let (checkout, _, e) = map_ok-eq-ok add (normalize_github_checkout v) q in
        subst HidesToken e (refl, refl)
  ]

  rotated_from :
      (a b : Bool) (e f : Error) (d rotated : Dict)
      → HidesToken d
      → (if a then err e else if b then err f else ok d) ≡ ok rotated
      → HidesToken rotated
  rotated_from true b e f d rotated h done = absurd cc
  rotated_from false true e f d rotated h done = absurd cc
  rotated_from false false e f d rotated h done = subst HidesToken (ok_injective done) h

  -- A rotation that passes gives a dict that tells that there is a token, and does not have one,
  -- also where the dict that it started from has: no key stands twice in that.
  pub rotate_session_resource_token-HidesToken :
      (now : ℕ) (current d rotated : Dict)
      → HasDistinctKeys current
      → rotate_session_resource_token now current d ≡ ok rotated
      → HidesToken rotated
  unfolding rotate_session_resource_token
  rotate_session_resource_token-HidesToken now current d rotated h done =
      let told = put "authorization_token_present" (bool true) current in
      let changed = put "authorization_token_updated_at" (str (r.isoformat now)) told in
      let keys : HasDistinctKeys changed =
        put-HasDistinctKeys "authorization_token_updated_at" (str (r.isoformat now)) told
          (put-HasDistinctKeys "authorization_token_present" (bool true) current h) in
      let present : get "authorization_token_present" changed ≡ bool true = simp get-put in
      rotated_from (not (is_text (get "type" current) "github_repository"))
        (text_or "authorization_token" "" d == "") _ _ (remove "authorization_token" changed)
        rotated
        (
          lookup-remove_self "authorization_token" changed keys,
          get-remove_other "authorization_token_present" "authorization_token" changed refl
              ∙ present,
        )
        done

  module _ ⦃u : Urls⦄ where
    normalize_github-HidesToken :
        (now : ℕ) (d normalized : Dict)
        → normalize_github_session_resource now d ≡ ok normalized
        → HidesToken normalized
    unfolding normalize_github_session_resource
    normalize_github-HidesToken now d normalized h =
        let url = text_or "url" "" d in
        let mount_path = text_or "mount_path" (default_github_mount_path url) d in
        let fields = with_checkout (get "checkout" d) (github_fields now url mount_path) in
        with_checkout-HidesToken (get "checkout" d) now url mount_path normalized (
          passed_check (validate_mount_path mount_path) fields normalized (
            passed (text_or "authorization_token" "" d == "") _ _ normalized
              (passed (url == "") _ _ normalized h)))

    module _ ⦃o : Objects⦄ where
      github_typed :
          (d : Dict) (allowed : List String) (ws id : String) (normalized : Dict) (c : Context)
          (db db' : Db)
          → normalize_typed d allowed ws id "github_repository" c db ≡ ok (normalized, db')
          → HidesToken normalized
      github_typed d allowed ws id normalized c db db' h =
          elim (Bool-cases (one_of "github_repository" allowed)) [
            | inl t ↦
                let q : github_now d c db ≡ ok (normalized, db') = sym (rw t refl) ∙ h in
                normalize_github-HidesToken c.now d normalized
                  (check_keeps (normalize_github_session_resource c.now d) c db db' q).0
            | inr p ↦
                let q : err (
                      http 422
                        (joined "Session resource type must be one of: " (join_commas allowed)))
                    ≡ ok (normalized, db') =
                  sym (rw p refl) ∙ h in
                absurd cc
          ]

      stored_payload :
          (session : Session) (normalized : Dict) (c : Context) (db : Db) (row : Resource)
          (db' : Db)
          → HidesToken normalized
          → insert_session_resource session normalized c db ≡ ok (row, db')
          → HidesToken row.payload
      unfolding insert_session_resource created
      stored_payload session normalized c db row db' h done =
          let (e, _) = create_resource-eq-ok _ c db row db' done in
          subst HidesToken (sym (ap (λ (x : Resource). x.payload) e)) h

      -- The row of a repository that was added to a session tells that there is a token, and does
      -- not have it.
      pub create_session_resource-HidesToken :
          (session : Session) (d : Dict) (allowed : List String) (c : Context) (db : Db)
          (row : Resource) (db' : Db)
          → is_text (get "type" d) "github_repository" ≡ true
          → create_session_resource session (obj d) allowed c db ≡ ok (row, db')
          → HidesToken row.payload
      unfolding create_session_resource normalize_session_resource_data insert_session_resource
      create_session_resource-HidesToken session d allowed c db row db' h done =
          let (_, db1, _, h1) =
            bind-eq-ok (ensure_capacity session (obj d))
              (λ _.
                normalize_session_resource_data (obj d) allowed session.workspace_id session.id
                >>= insert_session_resource session)
              c db done in
          let (normalized, db2, made, h2) =
            bind-eq-ok
              (normalize_session_resource_data (obj d) allowed session.workspace_id session.id)
              (insert_session_resource session) c db1 h1 in
          let typed =
            subst
              (λ t.
                normalize_typed d allowed session.workspace_id session.id t c db1
                ≡ ok (normalized, db2))
              (type_read (get "type" d) "github_repository" h refl) made in
          let hidden =
            github_typed d allowed session.workspace_id session.id normalized c db1 db2 typed in
          stored_payload session normalized c db2 row db' hidden h2
