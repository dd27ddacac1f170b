-- ===== src/WorkQueue/Finish.antt =====
-- How an execution ends: what the last transaction of `execute_work_item` leaves of the item.
use open_managed_agents.Resources.Rereads.{get_resource-write_row}
use open_managed_agents.Memories.View.Writes.{ids, Distinct}
use open_managed_agents.Exec.{bind-ok}
use open_managed_agents.Sessions.Store.{get_session}
use open_managed_agents.Result.{ok}
use open_managed_agents.Json.Fields.{get-put}
use open_managed_agents.WorkQueue.Defs.{work_available_for_lease, is_held, work_type}
use open_managed_agents.Resources.Queries.{is_wanted, get_resource}
use open_managed_agents.Json.{str, empty, get, Dict}
use open_managed_agents.Prelude.{
  refl, eq_iff, arith, ap, ◌∙◌, leb, true, false, none, or_else, some, ℕ, ◌≡◌, String,
}
use open_managed_agents.Db.{Status, SessionStatus, Resource, Db, Context, Session}
use open_managed_agents.Runtime.{to_str, Runtime}
use open_managed_agents.WorkQueue.Execute.{
  close_work, finish_found, finish_execution, finish_changes, finished_data, finished_status,
}
use open_managed_agents.Resources.Writes.{update_resource, changed, write_row}

module _ ⦃r : Runtime⦄ where
  retry_at-finished_data :
      (session : Session) (c : Context) (d : Dict)
      → session.status ≡ SessionStatus.rescheduling
      → get "retry_at" (finished_data (some session) c d)
        ≡ get "retry_at" (or_else session.stop_reason empty)
  unfolding finished_data
  retry_at-finished_data session c d e = rw e (simp get-put)

  available-of_retry :
      (work : Resource) (at now : ℕ)
      → work.status ≡ Status.rescheduling
      → get "retry_at" work.payload ≡ str (r.isoformat at)
      → work_available_for_lease work now ≡ leb at now
  unfolding work_available_for_lease
  available-of_retry work at now e due =
      ground (arith, r.iso_round at, r.iso_ne at, eq_iff (r.isoformat at) "")

  finished_status-rescheduling :
      (session : Session) (status : Status)
      → session.status ≡ SessionStatus.rescheduling
      → is_held status ≡ true
      → finished_status (some session) status ≡ Status.rescheduling
  unfolding finished_status
  finished_status-rescheduling session Status.leased e h = rw e
  finished_status-rescheduling session _ e h = ground arith

  available-finished :
      (work : Resource) (session : Session) (reason : Dict) (at : ℕ) (c : Context) (now : ℕ)
      → session.status ≡ SessionStatus.rescheduling
      → session.stop_reason ≡ some reason
      → get "retry_at" reason ≡ str (r.isoformat at)
      → is_held work.status ≡ true
      → work_available_for_lease (changed (finish_changes (some session) c work) c.now work) now
        ≡ leb at now
  unfolding changed
  available-finished work session reason at c now status why due held =
      available-of_retry _ at now (finished_status-rescheduling session work.status status held) (
        retry_at-finished_data session c work.payload status
        ∙ ap (λ o. get "retry_at" (or_else o empty)) why
        ∙ due)

  session_id-finished_data :
      (session : Session) (c : Context) (d : Dict)
      → session.status ≡ SessionStatus.rescheduling
      → get "session_id" (finished_data (some session) c d) ≡ get "session_id" d
  unfolding finished_data
  session_id-finished_data session c d e = rw e (simp get-put)

  -- Of the database that a call leaves: the item is there, of the same session as before, and can be
  -- leased exactly from the moment on.
  abbrev pub IsFreeFrom : ℕ → String → Resource → Context → Db → Type 0
  IsFreeFrom at id work c db =
      (work' : Resource) × (get_resource id (some work_type) none false none c db
        ≡ ok (some work', db))
      × (get "session_id" work'.payload ≡ get "session_id" work.payload)
      × ((now : ℕ) → work_available_for_lease work' now ≡ leb at now)

  -- After a turn that left its session rescheduling with a moment to retry at, the last transaction
  -- returns, and the item that was not stopped meanwhile is then found again under its id, of the
  -- same session, and is free exactly from that moment on, where the table's ids are distinct.
  pub finish_execution-reschedules :
      (id : String) (c : Context) (db : Db) (work : Resource) (session : Session) (reason : Dict)
      (at : ℕ)
      → Distinct (ids db.resources)
      → get_resource id (some work_type) none false none c db ≡ ok (some work, db)
      → get_session (to_str (get "session_id" work.payload)) none c db ≡ ok (some session, db)
      → session.status ≡ SessionStatus.rescheduling
      → session.stop_reason ≡ some reason
      → get "retry_at" reason ≡ str (r.isoformat at)
      → is_held work.status ≡ true
      → (db' : Db) × (finish_execution id c db ≡ ok (tt, db')) × IsFreeFrom at id work c db'
  unfolding finish_execution finish_found close_work update_resource changed is_wanted
  finish_execution-reschedules id c db work session reason at distinct found its status why due
        held =
      let work' = changed (finish_changes (some session) c work) c.now work in
      (
        record db { resources = write_row work' db.resources },
        bind-ok (get_resource id (some work_type) none false none) finish_found c db found
            ∙ bind-ok (get_session (to_str (get "session_id" work.payload)) none) (close_work work)
                c db its,
        (
          work',
          get_resource-write_row id (some work_type) none false c db work work' found distinct refl
              refl,
          session_id-finished_data session c work.payload status,
          λ now. available-finished work session reason at c now status why due held,
        ),
      )
