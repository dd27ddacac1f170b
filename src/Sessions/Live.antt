-- ===== src/Sessions/Live.antt =====
-- A session row and its log, through the writes: what a chain of handlers keeps of them.
use open_managed_agents.Exec.{◌>>=◌, Action, bind-ok}
use mathlib.Core.Path.{sym, subst}
use open_managed_agents.Sessions.Events.Log.{append_event-logged, IsLogged}
use open_managed_agents.Sessions.Store.Rows.{get_session-stored, IsStored-write_session, IsStored}
use open_managed_agents.Result.{ok, Result}
use open_managed_agents.Sessions.Events.{counted, new_event, append_event, logged}
use open_managed_agents.Json.{Dict}
use open_managed_agents.Sessions.Store.{
  get_session, write_session, changed_session, SessionChanges, update_session,
}
use open_managed_agents.Db.{Event, workspace_id_or_default, Db, Context, Session}
use open_managed_agents.Prelude.{Option, [], ◌∷◌, ◌∙◌, ◌++◌, some, refl, none, ◌≡◌, String}
use open_managed_agents.Runtime.{Runtime}

-- The session is stored once under its id, in the workspace, and its events are numbered up to its
-- counter.
pub record IsLive (id : String) (ws : String) (s : Session) (db : Db) : Type 0 where
  pub named : s.id ≡ id
  pub stored : IsStored s db.sessions
  pub log : IsLogged s db.events
  pub placed : s.workspace_id ≡ ws

-- The call returns, and leaves a live session with the property.
pub record Leaves {ℓ} {A : Type ℓ} (id ws : String) (P : A → Session → Db → Type 0)
    (q : Result (A × Db)) : Type ℓ where
  pub value : A
  pub session : Session
  pub after : Db
  pub returns : q ≡ ok (value, after)
  pub live : IsLive id ws session after
  pub post : P value session after

module _ {ℓ κ} {A : Type ℓ} {B : Type κ} {id ws : String} where
  -- The rule of a bind.
  pub bind-Leaves :
      {Q : A → Session → Db → Type 0} {P : B → Session → Db → Type 0} (m : Action A)
      (f : A → Action B) (c : Context) (db : Db)
      → Leaves id ws Q (m c db)
      → ((a : A) (s : Session) (db' : Db)
          → IsLive id ws s db'
          → Q a s db'
          → Leaves id ws P (f a c db'))
      → Leaves id ws P ((m >>= f) c db)
  bind-Leaves m f c db h k =
      let next = k h.value h.session h.after h.live h.post in
      record {
        value = next.value;
        session = next.session;
        after = next.after;
        returns = bind-ok m f c db h.returns ∙ next.returns;
        live = next.live;
        post = next.post;
      }

module _ {ℓ} {A : Type ℓ} {id ws : String} where
  pub pure-Leaves :
      {P : A → Session → Db → Type 0} (a : A) (s : Session) (db : Db)
      → IsLive id ws s db
      → P a s db
      → Leaves id ws P (ok (a, db))
  pure-Leaves a s db live p = record {
    value = a;
    session = s;
    after = db;
    returns = refl;
    live = live;
    post = p;
  }

  -- What a call comes to by an equation.
  pub at-Leaves :
      {P : A → Session → Db → Type 0} {q q' : Result (A × Db)}
      → q ≡ q'
      → Leaves id ws P q'
      → Leaves id ws P q
  at-Leaves {P = P} e h = subst (λ x. Leaves id ws P x) (sym e) h

  -- A weaker property.
  pub weaken-Leaves :
      {P Q : A → Session → Db → Type 0} {q : Result (A × Db)}
      → Leaves id ws P q
      → ((a : A) (s : Session) (db : Db) → P a s db → Q a s db)
      → Leaves id ws Q q
  weaken-Leaves h k = record {
    value = h.value;
    session = h.session;
    after = h.after;
    returns = h.returns;
    live = h.live;
    post = k h.value h.session h.after h.post;
  }

module _ ⦃r : Runtime⦄ where
  pub get_session-live :
      (id : String) (s : Session) (c : Context) (db : Db)
      → IsLive id (workspace_id_or_default c none) s db
      → get_session id none c db ≡ ok (some s, db)
  get_session-live id s c db h =
      subst (λ i. get_session i none c db ≡ ok (some s, db)) h.named
        (get_session-stored s c db h.stored h.placed)

  -- A call that starts by reading the live session.
  pub with_session {ℓ} :
      {A : Type ℓ} (id : String) (s : Session) (f : Option Session → Action A) (c : Context)
      (db : Db)
      → IsLive id (workspace_id_or_default c none) s db
      → (get_session id none >>= f) c db ≡ f (some s) c db
  with_session id s f c db h = bind-ok (get_session id none) f c db (get_session-live id s c db h)

  changed-IsLive :
      {id ws : String} (s : Session) (ch : SessionChanges) (c : Context) (db : Db)
      → IsLive id ws s db
      → let s' = changed_session ch c.now s in
        IsLive id ws s' (record db { sessions = write_session s' db.sessions })
  unfolding changed_session
  changed-IsLive s ch c db h = record {
    named = h.named;
    stored = IsStored-write_session s (changed_session ch c.now s) db.sessions h.stored refl;
    log = h.log;
    placed = h.placed;
  }

  -- Both writes leave the session object that they return.
  pub update_session-live :
      {id ws : String} (s : Session) (ch : SessionChanges) (c : Context) (db : Db)
      → IsLive id ws s db
      → Leaves id ws
          (λ s' t db'. (s' ≡ t) × (t ≡ changed_session ch c.now s) × (db'.events ≡ db.events))
          (update_session s ch c db)
  unfolding update_session
  update_session-live s ch c db h =
      let s' = changed_session ch c.now s in
      pure-Leaves s' s' (record db { sessions = write_session s' db.sessions })
        (changed-IsLive s ch c db h) (refl, refl, refl)

  -- What storing an event has done.
  pub record HasAppended (s : Session) (type : String) (c : Context) (db : Db) (e : Event)
      (t : Session) (db' : Db) : Type 0 where
    pub counts : t ≡ counted s c
    pub typed : e.type ≡ type
    pub events : db'.events ≡ db.events ++ e ∷ []

  pub append_event-live :
      {id ws : String} (s : Session) (type : String) (payload : Dict) (c : Context) (db : Db)
      → IsLive id ws s db
      → Leaves id ws
          (λ (e, s') t db'. (s' ≡ t) × HasAppended s type c db e t db')
          (append_event s type payload c db)
  unfolding new_event
  append_event-live s type payload c db h =
      let e = new_event s type payload c db in
      let (stored, numbered, kept) = append_event-logged s type payload c db h.log in
      record {
        value = (e, counted s c);
        session = counted s c;
        after = logged s e c db;
        returns = stored;
        live = record {
          named = h.named;
          stored = IsStored-write_session s (counted s c) db.sessions h.stored refl;
          log = kept;
          placed = h.placed;
        };
        post = (refl, record { counts = refl; typed = refl; events = refl });
      }
