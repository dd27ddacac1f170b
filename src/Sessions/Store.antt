-- ===== src/Sessions/Store.antt =====
-- app/db/queries/sessions.py: the queries on the table `sessions`, and
-- app/db/queries/environments.py: those on `environments` that the queue and the sessions use.
pub mod Rows
use open_managed_agents.Prelude.{
  ℕ, String, Bool, ◌&&◌, Option, none, some, List, [], ◌∷◌, ◌==◌, if◌then◌else◌, keep, or_else,
}
use open_managed_agents.Json.{Dict}
use open_managed_agents.Result.{Result, ok, err, crash}
use open_managed_agents.Db.{
  Session, SessionStatus, Environment, workspace_id_or_default, terminated,
}
use open_managed_agents.Resources.Writes.{given_or}
use open_managed_agents.Exec.{Action, check}

-- `scalar_one_or_none`
abbrev pub one_or_none {ℓ} : {A : Type ℓ} → List A → Result (Option A)
one_or_none [] = ok none
one_or_none (a ∷ []) = ok (some a)
one_or_none (a ∷ b ∷ as') = err (crash "MultipleResultsFound")

unfoldable pub is_session : String → String → Session → Bool
is_session id ws s = s.id == id && s.workspace_id == ws

-- An explicit workspace is taken as it is, also an empty one.
unfoldable pub get_session : String → Option String → Action (Option Session)
unfolding is_session
get_session id ws c db =
    check
      (one_or_none (keep (is_session id (or_else ws (workspace_id_or_default c none))) db.sessions))
      c db

-- The arguments of `update_session`; what is None leaves its column alone.
pub record SessionChanges : Type 0 where
  pub title : Option String
  pub metadata : Option Dict
  pub status : Option SessionStatus
  pub status_details : Option Dict
  pub stop_reason : Option Dict
  pub run_state : Option Dict
  pub sandbox_state : Option Dict

abbrev pub no_session_changes : SessionChanges
no_session_changes = record {
  title = none;
  metadata = none;
  status = none;
  status_details = none;
  stop_reason = none;
  run_state = none;
  sandbox_state = none;
}

unfoldable pub changed_session : SessionChanges → ℕ → Session → Session
changed_session ch now s = record s {
  title = given_or ch.title s.title;
  metadata = or_else ch.metadata s.metadata;
  status = or_else ch.status s.status;
  status_details = or_else ch.status_details s.status_details;
  stop_reason = given_or ch.stop_reason s.stop_reason;
  run_state = given_or ch.run_state s.run_state;
  sandbox_state = given_or ch.sandbox_state s.sandbox_state;
  updated_at = now;
}

unfoldable pub write_session : Session → List Session → List Session
write_session s [] = []
write_session s (x ∷ xs) = (if x.id == s.id then s else x) ∷ write_session s xs

unfoldable pub update_session : Session → SessionChanges → Action Session
unfolding changed_session write_session
update_session s ch c db =
    let s' = changed_session ch c.now s in
    ok (s', record db { sessions = write_session s' db.sessions })

unfoldable pub archive_session : Session → Action Session
unfolding write_session
archive_session s c db =
    let s' = record s { archived_at = some c.now; updated_at = c.now } in
    ok (s', record db { sessions = write_session s' db.sessions })

unfoldable pub delete_session : Session → Action Session
unfolding write_session
delete_session s c db =
    let s' = record s { deleted_at = some c.now; status = terminated; updated_at = c.now } in
    ok (s', record db { sessions = write_session s' db.sessions })

unfoldable pub is_environment : String → String → Environment → Bool
is_environment id ws e = e.id == id && e.workspace_id == ws

unfoldable pub get_environment : String → Option String → Action (Option Environment)
unfolding is_environment
get_environment id ws c db =
    check (one_or_none (keep (is_environment id (workspace_id_or_default c ws)) db.environments)) c
      db
