-- ===== src/Environments/Table/Steps.antt =====
-- The handlers on environments as steps of the table, and the invariant of its configs.
use open_managed_agents.Result.{ok_injective}
use mathlib.Core.Path.{sym, subst}
use open_managed_agents.Environments.Table.Valid.{
  scope_valid, new_config_valid, insert_valid, change_valid, All-write, found_valid, AllValid,
}
use open_managed_agents.Environments.Table.{
  insert_environment, update_configured, obj, new_metadata, update_named, normalize_metadata,
  new_config, create_configured, update_with_name, environment_config_with_scope, new_name,
  create_named, normalize_environment_name, update_found, update_validated, create_validated,
  validate_config, must_get_environment, ok, EnvironmentUpdate, EnvironmentCreate,
  archive_environment, delete_environment, String, create_environment, delete_environment_by_id,
  update_environment_by_id, archive_environment_by_id,
}
use open_managed_agents.Db.{Environment, Context, Db}
use open_managed_agents.Runtime.{Runtime}
use open_managed_agents.Exec.{bind-eq-ok, check-bind-eq-ok}
use open_managed_agents.Prelude.{◌≡◌, some}

-- The calls that write environments.
pub data Step ⦃r : Runtime⦄ (db db' : Db) : Type 0 where
  by_creation :
      (body : EnvironmentCreate) (c : Context) (e : Environment)
      → create_environment body c db ≡ ok (e, db')
      → Step db db'
  by_update :
      (id : String) (body : EnvironmentUpdate) (c : Context) (e : Environment)
      → update_environment_by_id id body c db ≡ ok (e, db')
      → Step db db'
  by_archiving :
      (id : String) (c : Context) (e : Environment)
      → archive_environment_by_id id c db ≡ ok (e, db')
      → Step db db'
  by_deletion :
      (id : String) (c : Context) (e : Environment)
      → delete_environment_by_id id c db ≡ ok (e, db')
      → Step db db'

module _ ⦃r : Runtime⦄ where
  create_valid :
      (body : EnvironmentCreate) (c : Context) (db : Db) (e : Environment) (db' : Db)
      → AllValid db
      → create_environment body c db ≡ ok (e, db')
      → AllValid db'
  unfolding create_environment
  create_valid body c db e db' hs h =
      let (_, valid, h1) =
        check-bind-eq-ok (validate_config body.config) (create_validated body) c db h in
      let (name, _, h2) =
        check-bind-eq-ok (normalize_environment_name body.name) (create_named body) c db h1 in
      let (config, scoped, h3) =
        check-bind-eq-ok (environment_config_with_scope body.config body.scope)
          (create_configured body name) c db h2 in
      let (metadata, _, h4) =
        check-bind-eq-ok (normalize_metadata (obj body.metadata))
          (insert_environment name config body.description) c db h3 in
      insert_valid name config body.description metadata c db e db' hs
        (scope_valid body.config body.scope config valid scoped) h4

  update_valid :
      (id : String) (body : EnvironmentUpdate) (c : Context) (db : Db) (x : Environment) (db' : Db)
      → AllValid db
      → update_environment_by_id id body c db ≡ ok (x, db')
      → AllValid db'
  unfolding update_environment_by_id
  update_valid id body c db x db' hs h =
      let (_, valid, h1) =
        check-bind-eq-ok (validate_config body.config) (update_validated id body) c db h in
      let (e, db1, read, h2) = bind-eq-ok (must_get_environment id) (update_found body) c db h1 in
      let (was, same) = found_valid id c db e db1 hs read in
      let (name, _, h3) =
        check-bind-eq-ok (new_name body.name) (update_with_name body e) c db1 h2 in
      let (config, made, h4) =
        check-bind-eq-ok (new_config body.config body.scope e.config) (update_named body e name) c
          db1 h3 in
      let (metadata, _, h5) =
        check-bind-eq-ok (new_metadata body.metadata e.metadata)
          (update_configured body e name config) c db1 h4 in
      change_valid e x _ c db1 db' (subst AllValid (sym same) hs)
        (new_config_valid body.config body.scope e.config config valid was made) h5

  archive_valid :
      (id : String) (c : Context) (db : Db) (x : Environment) (db' : Db)
      → AllValid db
      → archive_environment_by_id id c db ≡ ok (x, db')
      → AllValid db'
  unfolding archive_environment_by_id archive_environment
  archive_valid id c db x db' hs h =
      let (e, db1, read, done) = bind-eq-ok (must_get_environment id) archive_environment c db h in
      let (was, same) = found_valid id c db e db1 hs read in
      subst (λ (y : Environment × Db). AllValid y.1) (ok_injective done)
        (All-write (record e { archived_at = some c.now; updated_at = c.now }) db1.environments was
          (subst AllValid (sym same) hs))

  delete_valid :
      (id : String) (c : Context) (db : Db) (x : Environment) (db' : Db)
      → AllValid db
      → delete_environment_by_id id c db ≡ ok (x, db')
      → AllValid db'
  unfolding delete_environment_by_id delete_environment
  delete_valid id c db x db' hs h =
      let (e, db1, read, done) = bind-eq-ok (must_get_environment id) delete_environment c db h in
      let (was, same) = found_valid id c db e db1 hs read in
      subst (λ (y : Environment × Db). AllValid y.1) (ok_injective done)
        (All-write (record e { deleted_at = some c.now; updated_at = c.now }) db1.environments was
          (subst AllValid (sym same) hs))

  -- Each call that writes environments (a creation, an update, an archiving, a deletion) keeps it so
  -- that every stored environment has a config that passes the checks of the request's body.
  pub Step-keeps_valid : (db db' : Db) → Step db db' → AllValid db → AllValid db'
  Step-keeps_valid db db' (by_creation body c e h) hs = create_valid body c db e db' hs h
  Step-keeps_valid db db' (by_update id body c e h) hs = update_valid id body c db e db' hs h
  Step-keeps_valid db db' (by_archiving id c e h) hs = archive_valid id c db e db' hs h
  Step-keeps_valid db db' (by_deletion id c e h) hs = delete_valid id c db e db' hs h
