-- ===== src/Sessions/Handlers/Suits.antt =====
-- Which batches suit a session's state.
use mathlib.Core.Path.{subst}
use open_managed_agents.Exec.{check, bind-eq-ok}
use open_managed_agents.Sessions.Actions.Results.{judge_results_iff, AreDistinct, AreAnswers}
use open_managed_agents.Sessions.Events.{list_events}
use open_managed_agents.SessionState.{
  pending_action_ids, is_action_result, is_waiting_for_action, is_active,
}
use open_managed_agents.Result.{err, Result, ok}
use open_managed_agents.Db.{Event, Db, Context, Session}
use open_managed_agents.Sessions.Actions.{
  judge_results, validate_action_results, is_empty, action_result_inputs, is_interrupt, EventInput,
  judge_for_session,
}
use open_managed_agents.Prelude.{
  refl, [], inr, inl, Bool-cases, any, all, false, ◌⊎◌, true, none, ◌≡◌, List, String,
}
use open_managed_agents.Runtime.{Runtime}

module _ ⦃r : Runtime⦄ where
  -- The results answer the actions for which the session waits, each another one.
  abbrev pub IsAnswered : Session → List EventInput → Context → Db → Type 0
  IsAnswered s results c db =
      (history : List Event) × (targets : List String) × (list_events s.id 0 1000 none c db
        ≡ ok (history, db))
      × AreAnswers (pending_action_ids s.stop_reason) history results targets
      × AreDistinct (pending_action_ids s.stop_reason) history targets

  -- The rule for the session's own state: an active session takes a single interrupt; a session
  -- that waits for results takes an interrupt, or their results next to system messages; any other
  -- session takes no results.
  abbrev pub SuitsState : Session → List EventInput → Context → Db → Type 0
  SuitsState s inputs c db =
      ((is_active s.status ≡ true) × (is_interrupt inputs ≡ true))
      ⊎ ((is_active s.status ≡ false)
          × (is_waiting_for_action s.stop_reason ≡ true)
          × ((is_interrupt inputs ≡ true)
              ⊎ ((all (λ i. is_action_result i.type) (action_result_inputs inputs) ≡ true)
                  × (is_empty (action_result_inputs inputs) ≡ false)
                  × IsAnswered s (action_result_inputs inputs) c db)))
      ⊎ ((is_active s.status ≡ false)
          × (is_waiting_for_action s.stop_reason ≡ false)
          × (any (λ i. is_action_result i.type) inputs ≡ false))

  same_db :
      (s : Session) (c : Context) (db db' : Db) (history : List Event)
      → list_events s.id 0 1000 none c db ≡ ok (history, db')
      → db' ≡ db
  unfolding list_events
  same_db s c db db' history h = cc

  passed_check :
      (q : Result (Unit {0})) (c : Context) (db : Db) {u : Unit × Db}
      → check q c db ≡ ok u
      → q ≡ ok tt
  passed_check (ok x) c db h = refl
  passed_check (err e) c db h = cc

  answered :
      (s : Session) (results : List EventInput) (c : Context) (db : Db) {u : Unit × Db}
      → validate_action_results s results c db ≡ ok u
      → IsAnswered s results c db
  unfolding validate_action_results
  answered s results c db h =
      let pending = pending_action_ids s.stop_reason in
      let (history, db', listed, rest) =
        bind-eq-ok (list_events s.id 0 1000 none)
          (λ history. check (judge_results pending history [] results)) c db h in
      let passed = passed_check (judge_results pending history [] results) c db' rest in
      let (ts, answers, distinct) = (judge_results_iff pending history results).0 passed in
      (
        history,
        ts,
        subst (λ d. list_events s.id 0 1000 none c db ≡ ok (history, d))
            (same_db s c db db' history listed) listed,
        answers,
        distinct,
      )

  waiting :
      (s : Session) (inputs : List EventInput) (c : Context) (db : Db) {u : Unit × Db}
      → is_active s.status ≡ false
      → is_waiting_for_action s.stop_reason ≡ true
      → judge_for_session s inputs c db ≡ ok u
      → (is_interrupt inputs ≡ true)
        ⊎ ((all (λ i. is_action_result i.type) (action_result_inputs inputs) ≡ true)
            × (is_empty (action_result_inputs inputs) ≡ false)
            × IsAnswered s (action_result_inputs inputs) c db)
  unfolding judge_for_session
  waiting s inputs c db e w h = elim (Bool-cases (is_interrupt inputs)) [
    | inl i ↦ inl i
    | inr i ↦ elim (Bool-cases (is_empty (action_result_inputs inputs))) [
      | inl n ↦ cc (rw (e, w, i, n) at h)
      | inr n ↦
          elim (Bool-cases (all (λ i. is_action_result i.type) (action_result_inputs inputs))) [
            | inl a ↦
                inr (a, n, answered s (action_result_inputs inputs) c db (rw (e, w, i, n, a) at h))
            | inr a ↦ cc (rw (e, w, i, n, a) at h)
          ]
    ]
  ]

  pub suits :
      (s : Session) (inputs : List EventInput) (c : Context) (db : Db) {u : Unit × Db}
      → judge_for_session s inputs c db ≡ ok u
      → SuitsState s inputs c db
  unfolding judge_for_session
  suits s inputs c db h = elim (Bool-cases (is_active s.status)) [
    | inl e ↦ elim (Bool-cases (is_interrupt inputs)) [
      | inl i ↦ inl (e, i)
      | inr i ↦ cc (rw (e, i) at h)
    ]
    | inr e ↦ elim (Bool-cases (is_waiting_for_action s.stop_reason)) [
      | inl w ↦ inr (inl (e, w, waiting s inputs c db e w h))
      | inr w ↦ elim (Bool-cases (any (λ i. is_action_result i.type) inputs)) [
        | inl a ↦ cc (rw (e, w, a) at h)
        | inr a ↦ inr (inr (e, w, a))
      ]
    ]
  ]
