-- ===== src/Runner/Finish/Ends.antt =====
-- How a turn that returned leaves its session.
use open_managed_agents.Exec.{when_false, when_true}
use mathlib.Core.Path.{sym, subst}
use open_managed_agents.Sessions.Events.{counted}
use open_managed_agents.Sessions.Live.{
  with_session, at-Leaves, pure-Leaves, append_event-live, update_session-live, bind-Leaves,
  weaken-Leaves, Leaves, IsLive,
}
use open_managed_agents.Json.{put, field, str, get, lookup, from_items, items}
use open_managed_agents.Runner.Finish.Blockers.{
  AreBlockers-append, append_tool_events-HasStored, AreBlockers-grow, AreBlockers,
}
use open_managed_agents.Sessions.Store.{changed_session}
use open_managed_agents.Prelude.{
  ◌⊎◌, inr, inl, Bool-cases, any, ◌&&◌, ◌==◌, not, Bool, none, Option, ◌++◌, ◌∙◌, refl, [], ap, ◌∷◌,
  map, false, some, true, ◌≡◌, String, List,
}
use open_managed_agents.SessionState.{
  is_waiting_for_action, texts_of, stop_reason_type, can_start_work, pending_action_ids,
}
use open_managed_agents.Runner.Finish.{
  has_moved_on, append_tool_events, finish_turn_found, asks_confirmation, store_result, conclude,
  finish_turn, without_runtime_retry, with_outcome_evaluation, message_payload, Action,
  outcome_evaluation, append_evaluation, append_final_text, end_turn, pure, ◌>>=◌, idle_payload,
  append_event, update_session, idle_changes, action_reason, reason, RuntimeResult, get, Dict,
  is_waiting_for_action, await_action, go_idle,
}
use open_managed_agents.Db.{workspace_id_or_default, Event, Context, idle, Session, Db}
use open_managed_agents.Runtime.{Runtime}

module _ ⦃r : Runtime⦄ where
  -- The blockers of a log are still in it.
  abbrev KeepsBlockers : Db → Db → Type 0
  KeepsBlockers db db' =
      (ids : List String) → AreBlockers ids db.events → AreBlockers ids db'.events

  go_idle-Leaves :
      {id ws : String} (s : Session) (why details : Dict) (result : RuntimeResult) (c : Context)
      (db : Db)
      → IsLive id ws s db
      → Leaves id ws
          (λ _ t db'.
            (t ≡ counted (changed_session (idle_changes why details result) c.now s) c)
            × KeepsBlockers db db')
          (go_idle s why details result c db)
  unfolding go_idle
  go_idle-Leaves s why details result c db h =
      let ch = idle_changes why details result in
      bind-Leaves (update_session s ch)
        (λ s1. append_event s1 "session.status_idle" (idle_payload why result) >>= λ _. pure tt) c
        db (update_session-live s ch c db h)
        (λ s1 t1 db1 live1 (same1, is1, log1). rw same1 (
          bind-Leaves (append_event t1 "session.status_idle" (idle_payload why result))
            (λ _. pure tt) c db1
            (append_event-live t1 "session.status_idle" (idle_payload why result) c db1 live1)
            (λ x2 t2 db2 live2 (same2, has2). pure-Leaves tt t2 db2 live2 (
              has2.counts ∙ ap (λ t. counted t c) is1,
              λ ids b.
                  subst (AreBlockers ids) (sym (has2.events ∙ ap (λ l. l ++ x2.0 ∷ []) log1))
                    (AreBlockers-grow ids db.events (x2.0 ∷ []) b),
            ))))

  texts_of-map : (ids : List String) → texts_of (items (from_items (map str ids))) ≡ ids
  texts_of-map [] = refl
  texts_of-map (i ∷ is) = ap (λ l. i ∷ l) (texts_of-map is)

  pending-action_reason : (ids : List String) → pending_action_ids (some (action_reason ids)) ≡ ids
  unfolding pending_action_ids is_waiting_for_action stop_reason_type get lookup
  pending-action_reason ids = texts_of-map ids

  -- The session waits for actions: all that it waits for are events of the log that ask for one.
  abbrev pub IsWaiting : Session → Db → Type 0
  IsWaiting t db' =
      (t.status ≡ idle)
      × (is_waiting_for_action t.stop_reason ≡ true)
      × (can_start_work t.status t.stop_reason ≡ false)
      × AreBlockers (pending_action_ids t.stop_reason) db'.events

  -- The turn is over, and another can start.
  abbrev pub IsOver : Session → Type 0
  IsOver t =
      (t.status ≡ idle)
      × (t.stop_reason ≡ some (reason "end_turn"))
      × (can_start_work t.status t.stop_reason ≡ true)

  await_action-IsWaiting :
      {id ws : String} (s : Session) (ids : List String) (result : RuntimeResult) (c : Context)
      (db : Db)
      → IsLive id ws s db
      → AreBlockers ids db.events
      → Leaves id ws (λ _ t db'. IsWaiting t db') (await_action s ids result c db)
  unfolding await_action changed_session can_start_work is_waiting_for_action stop_reason_type get
      lookup
  await_action-IsWaiting s ids result c db h b =
      weaken-Leaves (go_idle-Leaves s _ _ result c db h) (λ _ t db' (e, kept). rw e (
        refl,
        refl,
        refl,
        subst (λ l. AreBlockers l db'.events) (sym (pending-action_reason ids)) (kept ids b),
      ))

  append_final_text-Leaves :
      {id ws : String} (s : Session) (result : RuntimeResult) (c : Context) (db : Db)
      → IsLive id ws s db
      → Leaves id ws (λ s' t _. s' ≡ t) (append_final_text s result c db)
  unfolding append_final_text
  append_final_text-Leaves s result c db h =
      let speak : Action Session =
        append_event s "agent.message" (message_payload result.final_text) >>= λ x. pure x.1 in
      let test : Bool =
        not (result.final_text == "")
        && not (any (λ e. e.type == "agent.message") result.tool_events) in
      elim (Bool-cases test) [
        | inl t ↦ at-Leaves (when_true speak (pure s) c db test t) (
            bind-Leaves (append_event s "agent.message" (message_payload result.final_text))
              (λ x. pure x.1) c db
              (append_event-live s _ (message_payload result.final_text) c db h)
              (λ x1 t1 db1 live1 (same1, has1). pure-Leaves x1.1 t1 db1 live1 same1))
        | inr p ↦ at-Leaves (when_false speak (pure s) c db test p) (pure-Leaves s s db h refl)
      ]

  append_evaluation-Leaves :
      {id ws : String} (s : Session) (evaluation : Option Dict) (c : Context) (db : Db)
      → IsLive id ws s db
      → Leaves id ws (λ x t _. x.0 ≡ t) (append_evaluation s evaluation c db)
  unfolding append_evaluation
  append_evaluation-Leaves s none c db h = pure-Leaves _ s db h refl
  append_evaluation-Leaves s (some evaluation) c db h =
      let payload : Dict = field "type" (str "span.outcome_evaluation_end") evaluation in
      let next : Event × Session → Session × Dict = λ x. (
        x.1,
        with_outcome_evaluation (without_runtime_retry s.status_details)
            (put "event_id" (str x.0.id) evaluation),
      ) in
      bind-Leaves (append_event s "span.outcome_evaluation_end" payload) (λ x. pure (next x)) c db
        (append_event-live s "span.outcome_evaluation_end" payload c db h)
        (λ x1 t1 db1 live1 (same1, has1). pure-Leaves (next x1) t1 db1 live1 same1)

  end_turn-IsOver :
      {id ws : String} (s : Session) (history : List Event) (result : RuntimeResult) (c : Context)
      (db : Db)
      → IsLive id ws s db
      → Leaves id ws (λ _ t _. IsOver t) (end_turn s history result c db)
  unfolding end_turn changed_session can_start_work is_waiting_for_action stop_reason_type get
      lookup
  end_turn-IsOver s history result c db h =
      let evaluation : Option Dict = outcome_evaluation history result.final_text in
      bind-Leaves (append_final_text s result)
        (λ s1.
          append_evaluation s1 evaluation >>= λ x2. go_idle x2.0 (reason "end_turn") x2.1 result)
        c db (append_final_text-Leaves s result c db h)
        (λ s1 t1 db1 live1 same1. rw same1 (
          bind-Leaves (append_evaluation t1 evaluation)
            (λ x2. go_idle x2.0 (reason "end_turn") x2.1 result) c db1
            (append_evaluation-Leaves t1 evaluation c db1 live1)
            (λ x2 t2 db2 live2 same2. rw same2 (
              weaken-Leaves (go_idle-Leaves t2 (reason "end_turn") x2.1 result c db2 live2)
                (λ _ t db' (e, _). rw e (refl, refl, refl))))))

  -- How the turn ends, by whether its run requires an action.
  abbrev pub HasEnded : RuntimeResult → Session → Db → Type 0
  HasEnded result t db' =
      ((result.requires_action ≡ true) × IsWaiting t db')
      ⊎ ((result.requires_action ≡ false) × IsOver t)

  conclude-HasEnded :
      {id ws : String} (history : List Event) (result : RuntimeResult) (ids : List String)
      (s : Session) (c : Context) (db : Db)
      → IsLive id ws s db
      → AreBlockers ids db.events
      → Leaves id ws (λ _ t db'. HasEnded result t db') (conclude history result (ids, s) c db)
  unfolding conclude
  conclude-HasEnded history result ids s c db h b =
      let wait : Action (Unit {0}) = await_action s ids result in
      let over : Action (Unit {0}) = end_turn s history result in
      elim (Bool-cases result.requires_action) [
        | inl t ↦
            at-Leaves (when_true wait over c db result.requires_action t)
              (weaken-Leaves (await_action-IsWaiting s ids result c db h b) (λ _ _ _ w. inl (t, w)))
        | inr p ↦
            at-Leaves (when_false wait over c db result.requires_action p)
              (weaken-Leaves (end_turn-IsOver s history result c db h) (λ _ _ _ w. inr (p, w)))
      ]

  store_result-HasEnded :
      {id ws : String} (s : Session) (history : List Event) (result : RuntimeResult) (c : Context)
      (db : Db)
      → IsLive id ws s db
      → Leaves id ws (λ _ t db'. HasEnded result t db') (store_result s history result c db)
  unfolding store_result
  store_result-HasEnded s history result c db h =
      let explicit : Bool = any asks_confirmation result.tool_events in
      bind-Leaves (append_tool_events result explicit s result.tool_events)
        (conclude history result) c db
        (append_tool_events-HasStored result explicit s result.tool_events c db h)
        (λ x1 t1 db1 live1 (same1, has1).
          at-Leaves (ap (λ t. conclude history result (x1.0, t) c db1) same1) (
            conclude-HasEnded history result x1.0 t1 c db1 live1 (
              subst (AreBlockers x1.0) (sym has1.stored)
                (AreBlockers-append x1.0 db.events has1.new has1.blocked))))

  -- The transaction after a run that returned always returns. When the session that it finds stored
  -- is no longer running, or already waits for an action, it changes nothing. Otherwise it leaves the
  -- session idle: if the run requires an action, the session waits, no work can start, and each id it
  -- waits for is that of a stored event of one of the three kinds of tool use; if not, the reason is
  -- the end of the turn, and work can start.
  pub finish_turn-HasEnded :
      (id : String) (s : Session) (history : List Event) (result : RuntimeResult) (c : Context)
      (db : Db)
      → IsLive id (workspace_id_or_default c none) s db
      → Leaves id
          (workspace_id_or_default c none)
          (λ _ t db'.
            ((has_moved_on s ≡ true) × (t ≡ s) × (db' ≡ db))
            ⊎ ((has_moved_on s ≡ false) × HasEnded result t db'))
          (finish_turn id history result c db)
  unfolding finish_turn finish_turn_found
  finish_turn-HasEnded id s history result c db h =
      let store : Action (Unit {0}) = store_result s history result in
      at-Leaves (with_session id s (finish_turn_found history result) c db h)
        (elim (Bool-cases (has_moved_on s)) [
          | inl t ↦
              at-Leaves (when_true (pure tt) store c db (has_moved_on s) t)
                (pure-Leaves tt s db h (inl (t, refl, refl)))
          | inr p ↦ at-Leaves (when_false (pure tt) store c db (has_moved_on s) p) (
              weaken-Leaves (store_result-HasEnded s history result c db h) (λ _ _ _ w. inr (p, w)))
        ])
