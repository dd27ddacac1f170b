-- ===== src/Runner/Turn/Steps.antt =====
-- The two transactions of a turn before the model's run: what they leave of the session.
use open_managed_agents.Runner.Turn.Reading.{gather-IsRead}
use open_managed_agents.Exec.{◌>>=◌, bind-err, bind-ok, Action, pure, when_false}
use open_managed_agents.Result.{err, Error}
use mathlib.Core.Path.{ap, sym, subst}
use open_managed_agents.Runner.Finish.Blockers.{Same-trans, counted-Same, Same-refl, Same}
use open_managed_agents.Sessions.Live.{
  update_session-live, weaken-Leaves, append_event-live, with_session, at-Leaves, bind-Leaves,
  pure-Leaves, Leaves, IsLive,
}
use open_managed_agents.Sessions.Events.{counted}
use open_managed_agents.Sessions.Store.{changed_session}
use open_managed_agents.Prelude.{
  ◌∷◌, refl, inr, not, inl, ◌||◌, [], ◌∙◌, Option, is_some, false, ◌⊎◌, true, none, some, List, ◌≡◌,
}
use open_managed_agents.Db.{workspace_id_or_default, running, Db, Context, Session}
use open_managed_agents.Runner.Turn.{
  gather, Prepared, running_changes, update_session, missing_auth_payload, append_event, empty, str,
  can_start_work, field, reason, Dict, String, prepare_found, begin_turn_found, prepare_turn,
  begin_turn, append_context_errors, start_turn,
}
use open_managed_agents.Runtime.{Runtime}

module _ ⦃r : Runtime⦄ where
  counted-Same' : (s t : Session) (c : Context) → t ≡ counted s c → Same s t
  counted-Same' s t c e = subst (λ t. Same s t) (sym e) (counted-Same s c)

  append_context_errors-Same :
      {id ws : String} (s : Session) (errors : List Dict) (c : Context) (db : Db)
      → IsLive id ws s db
      → Leaves id ws (λ _ t _. Same s t) (append_context_errors s errors c db)
  unfolding append_context_errors
  append_context_errors-Same s [] c db h = pure-Leaves tt s db h (Same-refl s)
  append_context_errors-Same s (e ∷ errors) c db h =
      bind-Leaves (append_event s "session.error" (missing_auth_payload e))
        (λ x. append_context_errors x.1 errors) c db
        (append_event-live s "session.error" (missing_auth_payload e) c db h)
        (λ x1 t1 db1 live1 (same1, has1). rw same1 (
          weaken-Leaves (append_context_errors-Same t1 errors c db1 live1)
            (λ _ t2 _ same2. Same-trans s t1 t2 (counted-Same' s t1 c has1.counts) same2)))

  -- The session that a turn has set to running, with the details that it had.
  pub record IsStarted (s t : Session) : Type 0 where
    pub status : t.status ≡ running
    pub why : t.stop_reason ≡ some (reason "in_progress")
    pub details : t.status_details ≡ s.status_details

  start_turn-IsStarted :
      {id ws : String} (s : Session) (c : Context) (db : Db)
      → IsLive id ws s db
      → Leaves id ws (λ b t _. (b ≡ true) × IsStarted s t) (start_turn s c db)
  unfolding start_turn changed_session
  start_turn-IsStarted s c db h =
      let payload : Dict =
        field "type" (str "session.status_running") (field "status" (str "running") empty) in
      bind-Leaves (update_session s running_changes)
        (λ s1. append_event s1 "session.status_running" payload >>= λ _. pure true) c db
        (update_session-live s running_changes c db h)
        (λ s1 t1 db1 live1 (same1, is1, _). rw same1 (
          bind-Leaves (append_event t1 "session.status_running" payload) (λ _. pure true) c db1
            (append_event-live t1 "session.status_running" payload c db1 live1)
            (λ x2 t2 db2 live2 (same2, has2). pure-Leaves true t2 db2 live2 (
              refl,
              subst (IsStarted s) (sym (has2.counts ∙ ap (λ t. counted t c) is1))
                  (record { status = refl; why = refl; details = refl }),
            ))))

  -- A session that may start is set to running.
  pub begin_turn-IsStarted :
      (id : String) (s : Session) (c : Context) (db : Db)
      → IsLive id (workspace_id_or_default c none) s db
      → s.deleted_at ≡ none
      → can_start_work s.status s.stop_reason ≡ true
      → Leaves id
          (workspace_id_or_default c none)
          (λ b t _. (b ≡ true) × IsStarted s t)
          (begin_turn id c db)
  unfolding begin_turn begin_turn_found
  begin_turn-IsStarted id s c db h there may =
      at-Leaves (with_session id s begin_turn_found c db h) (
        at-Leaves
          (when_false (pure false) (start_turn s) c db
            (is_some s.deleted_at || not (can_start_work s.status s.stop_reason))
            (rw (there, may) refl))
          (start_turn-IsStarted s c db h))

  -- The second transaction raises, or prepares the run and leaves the session as it is but for the
  -- events of its context.
  pub prepare_turn-Same :
      (id : String) (s : Session) (c : Context) (db : Db)
      → IsLive id (workspace_id_or_default c none) s db
      → ((e : Error) × (prepare_turn id c db ≡ err e))
        ⊎ Leaves id
            (workspace_id_or_default c none)
            (λ x t _. ((p : Prepared) × (x ≡ some p)) × Same s t)
            (prepare_turn id c db)
  unfolding prepare_turn prepare_found
  prepare_turn-Same id s c db h =
      let rest : Prepared → Action (Option Prepared) =
        λ p. append_context_errors s p.context.errors >>= λ _. pure (some p) in
      elim (gather-IsRead s c db) [
        | inl (p, e) ↦ inr (
            at-Leaves (with_session id s prepare_found c db h ∙ bind-ok (gather s) rest c db e) (
              bind-Leaves (append_context_errors s p.context.errors) (λ _. pure (some p)) c db
                (append_context_errors-Same s p.context.errors c db h)
                (λ _ t1 db1 live1 same1. pure-Leaves (some p) t1 db1 live1 ((p, refl), same1))))
        | inr (e, failed) ↦
            inl (e, with_session id s prepare_found c db h ∙ bind-err (gather s) rest c db failed)
      ]
