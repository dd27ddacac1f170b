-- ===== src/Sessions/Handlers/Numbers.antt =====
-- The loop of `send_events` that stores a batch: every event gets its number.
use mathlib.Core.List.{append_assoc, append-nil}
use open_managed_agents.Exec.{◌>>=◌}
use open_managed_agents.Exec.{bind-ok}
use open_managed_agents.SessionState.{is_action_result, starts_work, pending_action_ids}
use open_managed_agents.Sessions.Events.Log.{append_event-logged, IsLogged}
use open_managed_agents.Sessions.Events.{append_event, counted, new_event, logged, list_events}
use open_managed_agents.Sessions.Handlers.{Action, pure, ok, Sent, note_event, append_all}
use open_managed_agents.Db.{Db, Context, Event, Session}
use open_managed_agents.Sessions.Actions.{
  model_dump, types_of, is_empty, EventInput, all_pending_actions_resolved,
}
use open_managed_agents.Runtime.{Runtime}
use open_managed_agents.Prelude.{
  ◌∙◌, ap, true, ◌==◌, sym, if◌then◌else◌, inr, refl, false, inl, length, ◌+◌, arith, ◌++◌,
  Bool-cases, Bool, suc, ◌≡◌, [], ◌∷◌, String, List, ℕ,
}

-- The numbers `n`, `n + 1`, … in order.
abbrev pub AreNumbered : ℕ → List Event → Type 0
AreNumbered n [] = Unit
AreNumbered n (e ∷ es) = (e.seq ≡ n) × AreNumbered (suc n) es

-- The types of the stored events.
abbrev pub types_in : List Event → List String
types_in [] = []
types_in (e ∷ es) = e.type ∷ types_in es

module _ ⦃r : Runtime⦄ where
  chosen :
      (b x y : Bool) (f : Action Bool) (c : Context) (db : Db)
      → f c db ≡ ok (y, db)
      → (v : Bool) × ((if b then pure x else f) c db ≡ ok (v, db))
  chosen true x y f c db h = (x, refl)
  chosen false x y f c db h = (y, h)

  resolved_returns :
      (s : Session) (c : Context) (db : Db)
      → (b : Bool) × (all_pending_actions_resolved s c db ≡ ok (b, db))
  unfolding all_pending_actions_resolved list_events
  resolved_returns s c db = chosen (is_empty (pending_action_ids s.stop_reason)) false _ _ c db refl

  note_event_returns :
      (s : Session) (type : String) (sent : Sent) (c : Context) (db : Db)
      → (sent' : Sent) × (note_event s type sent c db ≡ ok (sent', db))
        × (sent'.appended ≡ sent.appended)
  unfolding note_event
  note_event_returns s type sent c db = elim (Bool-cases (type == "user.interrupt")) [
    | inl e ↦ (record sent { should_interrupt = true }, rw e, refl)
    | inr e ↦ elim (Bool-cases (starts_work type)) [
      | inl f ↦ (record sent { should_run = true }, rw (e, f), refl)
      | inr f ↦ elim (Bool-cases (is_action_result type)) [
        | inl g ↦
            let (b, r) = resolved_returns s c db in
            (
              record sent { should_run = b; resolved_required_actions = b },
              rw (e, f, g)
                  (bind-ok (all_pending_actions_resolved s)
                    (λ resolved.
                      pure (record sent {
                        should_run = resolved;
                        resolved_required_actions = resolved;
                      }))
                    c db r),
              refl,
            )
        | inr g ↦ (sent, rw (e, f, g), refl)
      ]
    ]
  ]

  -- One round that returned, and the rest of the loop.
  round :
      (s s1 : Session) (i : EventInput) (is : List EventInput) (sent sent2 : Sent) (e : Event)
      (c : Context) (db db1 : Db) {out : (Sent × Session) × Db}
      → append_event s i.type (model_dump i) c db ≡ ok ((e, s1), db1)
      → note_event s1 i.type (record sent { appended = sent.appended ++ e ∷ [] }) c db1
        ≡ ok (sent2, db1)
      → append_all s1 is sent2 c db1 ≡ ok out
      → append_all s (i ∷ is) sent c db ≡ ok out
  unfolding append_all
  round s s1 i is sent sent2 e c db db1 stored noted rest =
      bind-ok (append_event s i.type (model_dump i))
        (λ x.
          note_event x.1 i.type (record sent { appended = sent.appended ++ x.0 ∷ [] }) >>= λ sent''.
          append_all x.1 is sent'')
        c db stored
      ∙ bind-ok (note_event s1 i.type (record sent { appended = sent.appended ++ e ∷ [] }))
          (λ t. append_all s1 is t) c db1 noted
      ∙ rest

  -- What `append_all` comes to.
  abbrev pub Stores : Session → List EventInput → Sent → Context → Db → Type 0
  Stores s inputs sent c db =
      (sent' : Sent) × (s' : Session) × (db' : Db) × (new : List Event) × (append_all s inputs sent
          c db
        ≡ ok ((sent', s'), db'))
      × (sent'.appended ≡ sent.appended ++ new)
      × (db'.events ≡ db.events ++ new)
      × AreNumbered (suc s.last_event_seq) new
      × (types_in new ≡ types_of inputs)
      × (s'.last_event_seq ≡ s.last_event_seq + length inputs)
      × IsLogged s' db'.events

  -- On a session whose events are numbered up to its counter, the loop that stores a batch
  -- returns. It has added one event for each input, in their order and with their types, numbered
  -- from the counter on without a gap; the counter has moved by the length of the batch, and the
  -- numbering holds for the session that is left.
  pub append_all-Stores :
      (s : Session) (inputs : List EventInput) (sent : Sent) (c : Context) (db : Db)
      → IsLogged s db.events
      → Stores s inputs sent c db
  unfolding append_all new_event
  append_all-Stores s [] sent c db h = (
    sent,
    s,
    db,
    [],
    refl,
    sym (append-nil sent.appended),
    sym (append-nil db.events),
    tt,
    refl,
    omega arith,
    h,
  )
  append_all-Stores s (i ∷ is) sent c db h =
      let e = new_event s i.type (model_dump i) c db in
      let s1 = counted s c in
      let db1 = logged s e c db in
      let (stored, numbered, logged1) = append_event-logged s i.type (model_dump i) c db h in
      let sent1 = record sent { appended = sent.appended ++ e ∷ [] } in
      let (sent2, noted, same) = note_event_returns s1 i.type sent1 c db1 in
      let (sent', s', db', new, rest, appended, events, numbers, types, counter, logged') =
        append_all-Stores s1 is sent2 c db1 logged1 in
      (
        sent',
        s',
        db',
        e ∷ new,
        round s s1 i is sent sent2 e c db db1 stored noted rest,
        appended ∙ ap (λ es. es ++ new) same ∙ append_assoc sent.appended (e ∷ []) new,
        events ∙ append_assoc db.events (e ∷ []) new,
        (numbered, numbers),
        ap (◌∷◌ i.type) types,
        omega (arith, counter),
        logged',
      )
