-- ===== src/Sessions/Handlers/Guards.antt =====
-- What has been checked where `send_events` returns.
use open_managed_agents.Sessions.Handlers.Suits.{suits, SuitsState}
use open_managed_agents.Sessions.Store.Rows.{get_session_keeps, get_environment_keeps}
use open_managed_agents.EventValidation.{validate_system_message_batch}
use open_managed_agents.Sessions.Handlers.{
  store_batch, send_checked, send_open, send_found, open_for_events, must_get_session,
  must_get_environment, send_events, present_environment, present_session,
}
use open_managed_agents.Exec.{check_keeps, ◌>>=◌}
use mathlib.Core.Path.{sym, ap, subst}
use open_managed_agents.Exec.{check, bind-eq-ok, check-bind-eq-ok}
use open_managed_agents.EventValidation.Batch.{validate_system_message_batch_iff, IsWellPlaced}
use open_managed_agents.Sessions.Store.{get_environment, get_session}
use open_managed_agents.Result.{ok_injective, http, err, ok}
use open_managed_agents.Db.{Event, terminated, Environment, Db, Context, Session}
use open_managed_agents.Sessions.Actions.{
  validate_event_batch, validate_outcomes, types_of, EventInput, judge_for_session,
}
use open_managed_agents.Prelude.{
  is_some, ◌∙◌, Option-cases, Option, inr, inl, false, ◌≢◌, some, none, ◌≡◌, List, String,
}
use open_managed_agents.Runtime.{Runtime}

module _ ⦃r : Runtime⦄ where
  -- What holds where a batch goes through.
  abbrev pub IsAccepted : String → List EventInput → Context → Db → Type 0
  IsAccepted id inputs c db =
      (s : Session) × (e : Environment) × (get_session id none c db ≡ ok (some s, db))
      × (s.deleted_at ≡ none)
      × (s.archived_at ≡ none)
      × (s.status ≢ terminated)
      × (get_environment s.environment_id none c db ≡ ok (some e, db))
      × (e.deleted_at ≡ none)
      × IsWellPlaced (types_of inputs)
      × (validate_outcomes inputs ≡ ok tt)
      × SuitsState s inputs c db

  not_some {ℓ} : {A : Type ℓ} {o : Option A} → o ≡ none → is_some o ≡ false
  not_some e = ap is_some e

  is_present :
      (o : Option Session) (s : Session)
      → present_session o ≡ ok s
      → (o ≡ some s) × (s.deleted_at ≡ none)
  unfolding present_session
  is_present none s h = cc
  is_present (some t) s h = elim (Option-cases t.deleted_at) [
    | inl e ↦
        let same : t ≡ s = ok_injective (rw (not_some e) at h) in
        (ap some same, sym (ap (λ x. x.deleted_at) same) ∙ e)
    | inr (at, e) ↦ cc (rw e at h)
  ]

  is_present_environment :
      (o : Option Environment) (s : Environment)
      → present_environment o ≡ ok s
      → (o ≡ some s) × (s.deleted_at ≡ none)
  unfolding present_environment
  is_present_environment none s h = cc
  is_present_environment (some t) s h = elim (Option-cases t.deleted_at) [
    | inl e ↦
        let same : t ≡ s = ok_injective (rw (not_some e) at h) in
        (ap some same, sym (ap (λ x. x.deleted_at) same) ∙ e)
    | inr (at, e) ↦ cc (rw e at h)
  ]

  session_of :
      (id : String) (c : Context) (db db' : Db) (s : Session)
      → must_get_session id c db ≡ ok (s, db')
      → (db' ≡ db) × (get_session id none c db ≡ ok (some s, db)) × (s.deleted_at ≡ none)
  unfolding must_get_session
  session_of id c db db' s h =
      let (o, db1, found, present) =
        bind-eq-ok (get_session id none) (λ o. check (present_session o)) c db h in
      let (there, same) = check_keeps (present_session o) c db1 db' present in
      let same1 = get_session_keeps id c db db1 o found in
      let (is_it, deleted) = is_present o s there in
      (
        same ∙ same1,
        subst (λ p. get_session id none c db ≡ ok (p, db)) is_it
            (subst (λ d. get_session id none c db ≡ ok (o, d)) same1 found),
        deleted,
      )

  environment_of :
      (id : String) (c : Context) (db db' : Db) (e : Environment)
      → must_get_environment id c db ≡ ok (e, db')
      → (db' ≡ db) × (get_environment id none c db ≡ ok (some e, db)) × (e.deleted_at ≡ none)
  unfolding must_get_environment
  environment_of id c db db' e h =
      let (o, db1, found, present) =
        bind-eq-ok (get_environment id none) (λ o. check (present_environment o)) c db h in
      let (there, same) = check_keeps (present_environment o) c db1 db' present in
      let same1 = get_environment_keeps id c db db1 o found in
      let (is_it, deleted) = is_present_environment o e there in
      (
        same ∙ same1,
        subst (λ p. get_environment id none c db ≡ ok (p, db)) is_it
            (subst (λ d. get_environment id none c db ≡ ok (o, d)) same1 found),
        deleted,
      )

  not_terminated :
      (s : Session) → s.archived_at ≡ none → open_for_events s ≡ ok tt → ¬ (s.status ≡ terminated)
  unfolding open_for_events
  not_terminated s e h t =
      let refused : err (http 409 "Session is terminated") ≡ ok tt = rw (e, t) at h in cc refused

  is_open :
      (s : Session) → open_for_events s ≡ ok tt → (s.archived_at ≡ none) × (s.status ≢ terminated)
  unfolding open_for_events
  is_open s h = elim (Option-cases s.archived_at) [
    | inl e ↦ (e, λ t. not_terminated s e h t)
    | inr (at, e) ↦ cc (rw e at h)
  ]

  valid_batch :
      (s : Session) (inputs : List EventInput) (c : Context) (db : Db) {u : Unit × Db}
      → validate_event_batch s inputs c db ≡ ok u
      → IsWellPlaced (types_of inputs)
        × (validate_outcomes inputs ≡ ok tt)
        × SuitsState s inputs c db
  unfolding validate_event_batch
  valid_batch s inputs c db h =
      let (_, placed, rest) =
        check-bind-eq-ok (validate_system_message_batch (types_of inputs))
          (λ _. check (validate_outcomes inputs) >>= λ _. judge_for_session s inputs) c db h in
      let (_, outcomes, rest1) =
        check-bind-eq-ok (validate_outcomes inputs) (λ _. judge_for_session s inputs) c db rest in
      (
        (validate_system_message_batch_iff (types_of inputs)).0 placed,
        outcomes,
        suits s inputs c db rest1,
      )

  -- Where `send_events` returns, the session is there, neither deleted nor archived nor
  -- terminated; its environment is there and not deleted; the batch's system messages and outcomes
  -- are valid; and the batch suits the session's state: a single interrupt for an active session,
  -- an interrupt or an answer to pending actions for one that waits, no results for any other.
  pub send_events-IsAccepted :
      (id : String) (inputs : List EventInput) (c : Context) (db : Db)
      (out : (List Event × Option String) × Db)
      → send_events id inputs c db ≡ ok out
      → IsAccepted id inputs c db
  unfolding send_events send_found send_open send_checked
  send_events-IsAccepted id inputs c db out h =
      let (s, db1, got, rest) = bind-eq-ok (must_get_session id) (send_found inputs) c db h in
      let (same1, found, deleted) = session_of id c db db1 s got in
      let (_, opened, rest1) =
        check-bind-eq-ok (open_for_events s) (λ _. send_open inputs s) c db1 rest in
      let (archived, status) = is_open s opened in
      let (e, db2, got_e, rest2) =
        bind-eq-ok (must_get_environment s.environment_id) (send_checked s inputs) c db1 rest1 in
      let (same2, found_e, deleted_e) = environment_of s.environment_id c db1 db2 e got_e in
      let (_, db3, valid, _) =
        bind-eq-ok (validate_event_batch s inputs) (λ _. store_batch s e inputs) c db2 rest2 in
      let (placed, outcomes, suited) = valid_batch s inputs c db2 valid in
      (
        s,
        e,
        found,
        deleted,
        archived,
        status,
        subst (λ d. get_environment s.environment_id none c d ≡ ok (some e, d)) same1 found_e,
        deleted_e,
        placed,
        outcomes,
        subst (SuitsState s inputs c) (same2 ∙ same1) suited,
      )
