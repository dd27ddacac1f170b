-- ===== src/Sessions/Handlers/Cancel.antt =====
-- The end of a session by `cancel_session`.
use open_managed_agents.Sessions.Store.{update_session, changed_session}
use open_managed_agents.Exec.{pure, check, bind-ok}
use open_managed_agents.Sessions.Events.Log.{append_event-logged, IsLogged}
use open_managed_agents.Sessions.Events.{append_event, logged, counted, new_event}
use open_managed_agents.Sessions.Store.Rows.{get_session-stored, IsStored-write_session, IsStored}
use open_managed_agents.Prelude.{refl, arith, ◌∙◌, ℕ, ◌+◌, none, ◌≡◌}
use open_managed_agents.Sessions.Store.{write_session, changed_session}
use open_managed_agents.Json.{Dict}
use open_managed_agents.Db.{terminated, Event, Db, workspace_id_or_default, Context, Session}
use open_managed_agents.Sessions.Handlers.{
  send_found, resume_found, http, get_session, err, ok, EventInput, cancelled, List,
  present_session, may_resume, update_session, open_for_events, status_payload, cancel_session,
  must_get_session, cancel_found, send_events, resume_session,
}
use open_managed_agents.Runtime.{Runtime}

module _ ⦃r : Runtime⦄ where
  -- What a session was after its cancellation.
  abbrev pub cancelled_at : Session → Context → Session
  cancelled_at s c = changed_session cancelled c.now s

  abbrev pub farewell : Dict
  farewell = status_payload "session.status_terminated" "terminated" "cancelled"

  abbrev pub farewell_event : Session → Context → Db → Event
  farewell_event s c db = new_event (cancelled_at s c) "session.status_terminated" farewell c db

  abbrev pub written : Session → Context → Db → Db
  written s c db = record db { sessions = write_session (cancelled_at s c) db.sessions }

  cancel_found_returns :
      (s : Session) (c : Context) (db : Db)
      → IsLogged s db.events
      → cancel_found s c db
        ≡ ok (
          counted (cancelled_at s c) c,
          logged (cancelled_at s c) (farewell_event s c (written s c db)) c (written s c db),
        )
  unfolding cancel_found update_session changed_session
  cancel_found_returns s c db h =
      bind-ok (append_event (cancelled_at s c) "session.status_terminated" farewell) (λ x. pure x.1)
        c (written s c db)
        (append_event-logged (cancelled_at s c) "session.status_terminated" farewell c
          (written s c db) h).0

  found_session :
      (s : Session) (c : Context) (db : Db)
      → IsStored s db.sessions
      → s.workspace_id ≡ workspace_id_or_default c none
      → s.deleted_at ≡ none
      → must_get_session s.id c db ≡ ok (s, db)
  unfolding must_get_session present_session
  found_session s c db h w d =
      bind-ok (get_session s.id none) (λ o. check (present_session o)) c db
        (get_session-stored s c db h w)
      ∙ rw d

  send_to_terminated :
      (s : Session) (inputs : List EventInput) (c : Context) (db : Db)
      → IsStored s db.sessions
      → s.workspace_id ≡ workspace_id_or_default c none
      → s.deleted_at ≡ none
      → s.status ≡ terminated
      → s.archived_at ≡ none
      → send_events s.id inputs c db ≡ err (http 409 "Session is terminated")
  unfolding send_events send_found open_for_events
  send_to_terminated s inputs c db h w d t a =
      bind-ok (must_get_session s.id) (send_found inputs) c db (found_session s c db h w d)
      ∙ rw (a, t)

  resume_terminated :
      (s : Session) (c : Context) (db : Db)
      → IsStored s db.sessions
      → s.workspace_id ≡ workspace_id_or_default c none
      → s.deleted_at ≡ none
      → s.status ≡ terminated
      → resume_session s.id c db ≡ err (http 409 "Terminated sessions cannot be resumed")
  unfolding resume_session resume_found may_resume
  resume_terminated s c db h w d t =
      bind-ok (must_get_session s.id) resume_found c db (found_session s c db h w d) ∙ rw t

  -- What `cancel_session` leaves.
  abbrev pub IsEnded : Session → Context → Db → Type 0
  IsEnded s c db =
      (s' : Session) × (db' : Db) × (cancel_session s.id c db ≡ ok (s', db'))
      × IsStored s' db'.sessions
      × IsLogged s' db'.events
      × (s'.last_event_seq ≡ s.last_event_seq + 1)
      × ((now : ℕ) (inputs : List EventInput)
          → let later = record c { now = now } in
            (send_events s.id inputs later db' ≡ err (http 409 "Session is terminated"))
            × (resume_session s.id later db'
                ≡ err (http 409 "Terminated sessions cannot be resumed")))

  -- On a session that is stored once, in the request's workspace, neither deleted nor archived,
  -- with its events numbered up to its counter: the cancellation returns, whatever the session's
  -- status; it has logged one event; and on the database that it leaves every later batch of events
  -- and every later resumption is refused.
  pub cancel_session-IsEnded :
      (s : Session) (c : Context) (db : Db)
      → IsStored s db.sessions
      → IsLogged s db.events
      → s.workspace_id ≡ workspace_id_or_default c none
      → s.deleted_at ≡ none
      → s.archived_at ≡ none
      → IsEnded s c db
  unfolding cancel_session changed_session workspace_id_or_default
  cancel_session-IsEnded s c db h l w d a =
      let s1 = cancelled_at s c in
      let s' = counted s1 c in
      let db1 = written s c db in
      let db' = logged s1 (farewell_event s c db1) c db1 in
      let stored1 : IsStored s1 db1.sessions = IsStored-write_session s s1 db.sessions h refl in
      let stored : IsStored s' db'.sessions =
        IsStored-write_session s1 s' db1.sessions stored1 refl in
      (
        s',
        db',
        bind-ok (must_get_session s.id) cancel_found c db (found_session s c db h w d)
            ∙ cancel_found_returns s c db l,
        stored,
        (append_event-logged s1 "session.status_terminated" farewell c db1 l).2,
        omega arith,
        λ now inputs. (
          send_to_terminated s' inputs (record c { now = now }) db' stored w d refl a,
          resume_terminated s' (record c { now = now }) db' stored w d refl,
        ),
      )
