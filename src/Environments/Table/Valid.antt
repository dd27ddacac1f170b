-- ===== src/Environments/Table/Valid.antt =====
-- Environments whose config passes the checks, in the table and through the writes.
use open_managed_agents.Sessions.Store.{is_environment, get_environment, one_or_none}
use open_managed_agents.Sessions.Handlers.{must_get_environment, present_environment}
use open_managed_agents.Environments.Config.Scope.{validated-put_scope}
use mathlib.Core.Path.{ap, sym, subst}
use open_managed_agents.Environments.Table.{
  map_ok, Result, config_or, suc, crash, same_name, clashes, any, EnvironmentChanges,
  changed_environment, or_else, created_environment, update_environment, new_config,
  insert_environment, check, must_get_environment, [], keep, ◌∷◌, http, err, write_environment,
  List, Bool, empty, field, validate_config,
}
use open_managed_agents.Result.{ok_injective, ok}
use open_managed_agents.Json.{put, str, is_text, lookup, get, Dict}
use open_managed_agents.Environments.Config.{
  environment_scope, check_object, validate_sandbox, get_or, validate_resources, validate_packages,
  validate_networking, config_or_cloud, is_member, require_member, environment_config_with_scope,
  validate_environment_config,
}
use open_managed_agents.Db.{workspace_id_or_default, Context, Db, Environment}
use open_managed_agents.Runtime.{Runtime}
use open_managed_agents.Exec.{check_keeps, bind-eq-ok}
use open_managed_agents.Prelude.{
  [], ◌==◌, ◌++◌, is_some, All, inr, ◌∙◌, refl, inl, Bool-cases, String, ◌≡◌, Option, none, some,
}

module _ ⦃r : Runtime⦄ where
  abbrev pub HasValidConfig : Environment → Type 0
  HasValidConfig e = validate_environment_config e.config ≡ ok tt

  default_valid : validate_environment_config (field "type" (str "cloud") empty) ≡ ok tt
  unfolding validate_environment_config require_member is_member get lookup validate_networking
      validate_packages validate_resources validate_sandbox check_object
  default_valid = refl

  config_or_cloud-valid :
      (config : Option Dict)
      → validate_config config ≡ ok tt
      → validate_environment_config (config_or_cloud config) ≡ ok tt
  config_or_cloud-valid none h = default_valid
  config_or_cloud-valid (some empty) h = default_valid
  config_or_cloud-valid (some (field k v d)) h = h

  pub scope_valid :
      (config : Option Dict) (scope : Option String) (d : Dict)
      → validate_config config ≡ ok tt
      → environment_config_with_scope config scope ≡ ok d
      → validate_environment_config d ≡ ok tt
  unfolding environment_config_with_scope
  scope_valid config none d valid h =
      subst (λ x. validate_environment_config x ≡ ok tt) (ok_injective h)
        (config_or_cloud-valid config valid)
  scope_valid config (some scope) d valid h =
      elim (Bool-cases
        (is_text (get_or "type" (str "cloud") (config_or_cloud config)) "self_hosted")) [
          | inl hosted ↦
              let e : put "_scope" (str scope) (config_or_cloud config) ≡ d =
                ok_injective (sym (rw hosted refl) ∙ h) in
              subst (λ x. validate_environment_config x ≡ ok tt) e
                (validated-put_scope (config_or_cloud config) scope
                  ∙ config_or_cloud-valid config valid)
          | inr p ↦
              let e : err
                    (http 422 "environment scope is only supported for self_hosted environments")
                  ≡ ok d =
                sym (rw p refl) ∙ h in
              absurd cc
        ]

  abbrev pub AllValid : Db → Type 0
  AllValid db = All HasValidConfig db.environments

  pub All-write :
      (e : Environment) (xs : List Environment)
      → HasValidConfig e
      → All HasValidConfig xs
      → All HasValidConfig (write_environment e xs)
  unfolding write_environment
  All-write e [] h hs = tt
  All-write e (x ∷ xs) h hs = elim (Bool-cases (x.id == e.id)) [
    | inl t ↦ rw t (h, All-write e xs h hs.1)
    | inr p ↦ rw p (hs.0, All-write e xs h hs.1)
  ]

  All-add :
      (e : Environment) (xs : List Environment)
      → HasValidConfig e
      → All HasValidConfig xs
      → All HasValidConfig (xs ++ e ∷ [])
  All-add e [] h hs = (h, tt)
  All-add e (x ∷ xs) h hs = (hs.0, All-add e xs h hs.1)

  All-keep :
      (p : Environment → Bool) (xs : List Environment)
      → All HasValidConfig xs
      → All HasValidConfig (keep p xs)
  All-keep p [] hs = tt
  All-keep p (x ∷ xs) hs = elim (Bool-cases (p x)) [
    | inl t ↦ rw t (hs.0, All-keep p xs hs.1)
    | inr q ↦ rw q (All-keep p xs hs.1)
  ]

  one_valid :
      (xs : List Environment) (e : Environment)
      → All HasValidConfig xs
      → one_or_none xs ≡ ok (some e)
      → HasValidConfig e
  one_valid [] e hs h = absurd cc
  one_valid (x ∷ []) e hs h = let q : x ≡ e = cc in subst HasValidConfig q hs.0
  one_valid (x ∷ y ∷ xs) e hs h = absurd cc

  present_same :
      (found : Option Environment) (e : Environment)
      → present_environment found ≡ ok e
      → found ≡ some e
  unfolding present_environment
  present_same none e h = absurd cc
  present_same (some x) e h = elim (Bool-cases (is_some x.deleted_at)) [
    | inl t ↦
        let q : err (http 404 "Environment not found") ≡ ok e = sym (rw t refl) ∙ h in absurd cc
    | inr p ↦ ap some (ok_injective (sym (rw p refl) ∙ h))
  ]

  pub found_valid :
      (id : String) (c : Context) (db : Db) (e : Environment) (db' : Db)
      → AllValid db
      → must_get_environment id c db ≡ ok (e, db')
      → HasValidConfig e × (db' ≡ db)
  unfolding must_get_environment get_environment
  found_valid id c db e db' hs h =
      let rows : List Environment =
        keep (is_environment id (workspace_id_or_default c none)) db.environments in
      let (found, db1, read, rest) =
        bind-eq-ok (get_environment id none) (λ x. check (present_environment x)) c db h in
      let (its, same) = check_keeps (one_or_none rows) c db db1 read in
      let (there, same') = check_keeps (present_environment found) c db1 db' rest in
      (
        one_valid rows e (All-keep _ db.environments hs) (its ∙ ap ok (present_same found e there)),
        same' ∙ same,
      )

  pub insert_valid :
      (name : String) (config : Dict) (description : Option String) (metadata : Dict) (c : Context)
      (db : Db) (e : Environment) (db' : Db)
      → AllValid db
      → validate_environment_config config ≡ ok tt
      → insert_environment name config description metadata c db ≡ ok (e, db')
      → AllValid db'
  unfolding insert_environment
  insert_valid name config description metadata c db e db' hs valid h =
      let new : Environment = created_environment name config description metadata c db in
      elim (Bool-cases (any (same_name new.workspace_id name) db.environments)) [
        | inl t ↦
            let q : err (crash "IntegrityError") ≡ ok (e, db') = sym (rw t refl) ∙ h in absurd cc
        | inr p ↦
            let q : (
              new,
              record db { environments = db.environments ++ new ∷ []; drawn = suc db.drawn },
            )
                ≡ (e, db') =
              ok_injective (sym (rw p refl) ∙ h) in
            subst (λ (x : Environment × Db). AllValid x.1) q (All-add new db.environments valid hs)
      ]

  map_ok-some :
      (q : Result Dict) (new : Option Dict)
      → map_ok some q ≡ ok new
      → (d : Dict) × (q ≡ ok d) × (some d ≡ new)
  map_ok-some (ok d) new h = (d, refl, ok_injective h)
  map_ok-some (err e) new h = absurd cc

  config_or-valid :
      (config : Option Dict) (old : Dict)
      → validate_config config ≡ ok tt
      → validate_environment_config old ≡ ok tt
      → validate_environment_config (config_or config old) ≡ ok tt
  config_or-valid none old valid was = was
  config_or-valid (some empty) old valid was = was
  config_or-valid (some (field k v d)) old valid was = valid

  pub new_config_valid :
      (config : Option Dict) (scope : Option String) (old : Dict) (new : Option Dict)
      → validate_config config ≡ ok tt
      → validate_environment_config old ≡ ok tt
      → new_config config scope old ≡ ok new
      → validate_environment_config (or_else new old) ≡ ok tt
  unfolding new_config
  new_config_valid none none old new valid was h =
      subst (λ n. validate_environment_config (or_else n old) ≡ ok tt) (ok_injective h) was
  new_config_valid (some config) none old new valid was h =
      let (d, scoped, e) =
        map_ok-some (environment_config_with_scope (some config) (environment_scope old)) new h in
      subst (λ n. validate_environment_config (or_else n old) ≡ ok tt) e
        (scope_valid (some config) (environment_scope old) d valid scoped)
  new_config_valid config (some scope) old new valid was h =
      let (d, scoped, e) =
        map_ok-some (environment_config_with_scope (some (config_or config old)) (some scope)) new
          h in
      subst (λ n. validate_environment_config (or_else n old) ≡ ok tt) e
        (scope_valid (some (config_or config old)) (some scope) d
          (config_or-valid config old valid was) scoped)

  pub change_valid :
      (e x : Environment) (ch : EnvironmentChanges) (c : Context) (db db' : Db)
      → AllValid db
      → validate_environment_config (or_else ch.config e.config) ≡ ok tt
      → update_environment e ch c db ≡ ok (x, db')
      → AllValid db'
  unfolding update_environment changed_environment
  change_valid e x ch c db db' hs valid h =
      let e' : Environment = changed_environment ch c.now e in
      elim (Bool-cases (clashes e' db.environments)) [
        | inl t ↦
            let q : err (crash "IntegrityError") ≡ ok (x, db') = sym (rw t refl) ∙ h in absurd cc
        | inr p ↦
            let q : (e', record db { environments = write_environment e' db.environments })
                ≡ (x, db') =
              ok_injective (sym (rw p refl) ∙ h) in
            subst (λ (y : Environment × Db). AllValid y.1) q (All-write e' db.environments valid hs)
      ]
