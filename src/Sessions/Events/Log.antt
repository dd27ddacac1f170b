-- ===== src/Sessions/Events/Log.antt =====
-- The log of one session: numbers grow by one, and a reader's cursor misses nothing.
use open_managed_agents.Prelude.{
  keep-append, lt→ltb, eq_self, take-nil, true, ◌++◌, ◌+◌, none, ℕ, eq_iff, arith, false, refl, any,
  ◌∷◌, ◌≤◌, suc, [], All, ◌≡◌,
}
use open_managed_agents.Sessions.Events.{
  logged, ok, workspace_id_or_default, Db, counted, Context, Dict, keep, Event, List, String,
  Runtime, Session, append_event, new_event, same_place, list_events, is_after,
}
use open_managed_agents.Prelude.Sort.{sort_by}

-- Every event of the session has a number up to the session's counter.
abbrev pub IsLogged : Session → List Event → Type 0
IsLogged s events = All (λ e. e.session_id ≡ s.id → e.seq ≤ s.last_event_seq) events

module _ ⦃r : Runtime⦄ where
  place_free :
      (s : Session) (e : Event) (events : List Event)
      → e.session_id ≡ s.id
      → e.seq ≡ suc s.last_event_seq
      → IsLogged s events
      → any (same_place e) events ≡ false
  place_free s e [] i n h = refl
  place_free s e (x ∷ xs) i n h =
      ground (arith, eq_iff x.session_id e.session_id, h.0, place_free s e xs i n h.1)

  nothing_after :
      (s : Session) (ws : String) (events : List Event)
      → IsLogged s events
      → keep (is_after s.id ws s.last_event_seq) events ≡ []
  nothing_after s ws [] h = refl
  nothing_after s ws (x ∷ xs) h =
      ground (arith, eq_iff x.session_id s.id, h.0, nothing_after s ws xs h.1)

  IsLogged-counted :
      (s : Session) (c : Context) (e : Event) (events : List Event)
      → e.seq ≡ suc s.last_event_seq
      → IsLogged s events
      → IsLogged (counted s c) (events ++ e ∷ [])
  IsLogged-counted s c e [] n h = ((λ same. omega arith), tt)
  IsLogged-counted s c e (x ∷ xs) n h =
      ((λ same. omega (arith, h.0 same)), IsLogged-counted s c e xs n h.1)

  is_after-new_event :
      (s : Session) (type : String) (payload : Dict) (c : Context) (db : Db)
      → s.workspace_id ≡ workspace_id_or_default c none
      → is_after s.id
          (workspace_id_or_default c none)
          s.last_event_seq
          (new_event s type payload c db)
        ≡ true
  unfolding new_event
  is_after-new_event s type payload c db w = rw (
    eq_self s.id,
    w,
    eq_self (workspace_id_or_default c none),
    lt→ltb s.last_event_seq (suc s.last_event_seq) (omega arith),
  )

  -- The storing alone, in any workspace.
  pub append_event-logged :
      (s : Session) (type : String) (payload : Dict) (c : Context) (db : Db)
      → IsLogged s db.events
      → let e = new_event s type payload c db in
        (append_event s type payload c db ≡ ok ((e, counted s c), logged s e c db))
        × (e.seq ≡ suc s.last_event_seq)
        × IsLogged (counted s c) (logged s e c db).events
  unfolding append_event new_event
  append_event-logged s type payload c db h =
      let e = new_event s type payload c db in
      (rw (place_free s e db.events refl refl h), refl, IsLogged-counted s c e db.events refl h)

  -- On a session whose events are numbered up to its counter, appending an event succeeds; the
  -- numbering still holds for the session that it leaves; and a reader whose cursor stood at the
  -- old counter, in the session's workspace, gets exactly the new event, with the next number.
  pub append_event-listed :
      (s : Session) (type : String) (payload : Dict) (limit : ℕ) (c : Context) (db : Db)
      → IsLogged s db.events
      → s.workspace_id ≡ workspace_id_or_default c none
      → let e = new_event s type payload c db in
        (append_event s type payload c db ≡ ok ((e, counted s c), logged s e c db))
        × (e.seq ≡ s.last_event_seq + 1)
        × IsLogged (counted s c) (logged s e c db).events
        × (list_events s.id s.last_event_seq (suc limit) none c (logged s e c db)
            ≡ ok (e ∷ [], logged s e c db))
  unfolding append_event new_event list_events sort_by
  append_event-listed s type payload limit c db h w =
      let e = new_event s type payload c db in
      (
        rw (place_free s e db.events refl refl h),
        omega arith,
        IsLogged-counted s c e db.events refl h,
        rw
            (
              keep-append (is_after s.id (workspace_id_or_default c none) s.last_event_seq)
                  db.events (e ∷ []),
              nothing_after s (workspace_id_or_default c none) db.events h,
            )
            (rw (is_after-new_event s type payload c db w, take-nil limit)),
      )
