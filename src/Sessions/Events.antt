-- ===== src/Sessions/Events.antt =====
-- app/db/queries/events.py: the append-only events of a session.
pub mod Log
use open_managed_agents.Sessions.Store.{write_session}
use open_managed_agents.Result.{crash, err, ok}
use open_managed_agents.Json.{null, str, put, lookup, Value, Dict}
use open_managed_agents.Db.{workspace_id_or_default, Db, Session, Context, Event}
use open_managed_agents.Runtime.{Runtime}
use open_managed_agents.Prelude.{
  ◌++◌, keep, [], some, ◌∷◌, take, ◌&&◌, eqb, one_of, any, is_some, ◌==◌, ltb, suc, if◌then◌else◌,
  none, List, ℕ, Bool, or_else, Option, String,
}
use Prim.Native.Char.{code}
use open_managed_agents.Prelude.Sort.{sort_by}
use open_managed_agents.Exec.{Action, ◌>>=◌, ◌>>◌, pure}

-- `s.split(".", 1)[0]` where there is a dot.
unfoldable pub before_dot : String → Option String
before_dot String.[] = none
before_dot (String.◌∷◌ c s) =
    let rest = before_dot s in
    if eqb (code c) b'.'
    then some ""
    else elim rest [ none ↦ none | some t ↦ some (String.◌∷◌ c t) ]

unfoldable pub event_source : String → String
unfolding before_dot
event_source type = or_else (before_dot type) "system"

-- The unique constraint on (session_id, seq).
abbrev pub same_place : Event → Event → Bool
same_place e x = x.session_id == e.session_id && eqb x.seq e.seq

module _ ⦃r : Runtime⦄ where
  unfoldable pub default_processed_at : String → Context → Value
  default_processed_at type c =
      if one_of (event_source type) ("user" ∷ "system" ∷ []) then null else str (r.isoformat c.now)

  unfoldable pub normalize_payload : String → Dict → Context → Dict
  normalize_payload type payload c =
      let typed =
        (if is_some (lookup "type" payload) then payload else put "type" (str type) payload) in
      put "processed_at" (default_processed_at type c) typed

  -- The event that `append_event` adds to a session.
  unfoldable pub new_event : Session → String → Dict → Context → Db → Event
  new_event session type payload c db = record {
    id = r.new_id "evt" db.drawn;
    workspace_id = session.workspace_id;
    session_id = session.id;
    seq = suc session.last_event_seq;
    type = type;
    source = event_source type;
    payload = normalize_payload type payload c;
    created_at = c.now;
  }

  -- The session object after the call.
  abbrev pub counted : Session → Context → Session
  counted session c = record session {
    last_event_seq = suc session.last_event_seq;
    updated_at = c.now;
  }

  abbrev pub logged : Session → Event → Context → Db → Db
  logged session event c db = record db {
    events = db.events ++ event ∷ [];
    sessions = write_session (counted session c) db.sessions;
    drawn = suc db.drawn;
  }

  -- The event, and the session object with its counter moved. The flush fails on a number that is
  -- taken.
  unfoldable pub append_event : Session → String → Dict → Action (Event × Session)
  append_event session type payload c db =
      let event = new_event session type payload c db in
      if any (same_place event) db.events
      then err (crash "IntegrityError")
      else ok ((event, counted session c), logged session event c db)

abbrev pub is_after : String → String → ℕ → Event → Bool
is_after session_id ws after_seq e =
    e.session_id == session_id && e.workspace_id == ws && ltb after_seq e.seq

abbrev pub by_seq : Event → Event → Bool
by_seq a b = ltb a.seq b.seq

unfoldable pub list_events : String → ℕ → ℕ → Option String → Action (List Event)
list_events session_id after_seq limit ws c db = ok (
  take limit (
      sort_by by_seq
        (keep (is_after session_id (workspace_id_or_default c ws) after_seq) db.events)),
  db,
)
