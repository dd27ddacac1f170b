-- ===== src/Runner/Finish/Blockers.antt =====
-- The events of a run that wait for an action: which they are, and that they are stored.
use mathlib.Core.Path.{subst}
use mathlib.Core.List.{append-nil, append_assoc}
use open_managed_agents.Sessions.Live.{append_event-live, bind-Leaves, pure-Leaves, Leaves, IsLive}
use open_managed_agents.Sessions.Events.{counted}
use open_managed_agents.Runtime.{Runtime}
use open_managed_agents.Db.{Db, Context, Event, Session}
use open_managed_agents.Runner.Finish.{
  pure, ◌>>=◌, tool_payload, append_event, action_event_types, ToolEvent, RuntimeResult,
  append_tool_events, is_required_action_event,
}
use open_managed_agents.Prelude.{
  ◌++◌, inr, inl, Bool-cases, ap, if◌then◌else◌, sym, eq_self, one_of, [], arith, refl, ◌&&◌, ◌||◌,
  ◌∷◌, true, All, ◌==◌, any, ◌≡◌, ◌∙◌, List, Bool, String,
}

-- The row is the same but for its counter and its time.
pub record Same (s t : Session) : Type 0 where
  pub status : t.status ≡ s.status
  pub status_details : t.status_details ≡ s.status_details
  pub stop_reason : t.stop_reason ≡ s.stop_reason
  pub deleted_at : t.deleted_at ≡ s.deleted_at

pub Same-refl : (s : Session) → Same s s
Same-refl s = record { status = refl; status_details = refl; stop_reason = refl; deleted_at = refl }

pub Same-trans : (s t u : Session) → Same s t → Same t u → Same s u
Same-trans s t u p q = record {
  status = q.status ∙ p.status;
  status_details = q.status_details ∙ p.status_details;
  stop_reason = q.stop_reason ∙ p.stop_reason;
  deleted_at = q.deleted_at ∙ p.deleted_at;
}

-- An event of the id that waits for an action.
abbrev pub is_blocker : String → Event → Bool
is_blocker id e = e.id == id && one_of e.type action_event_types

abbrev pub AreBlockers : List String → List Event → Type 0
AreBlockers ids events = All (λ id. any (is_blocker id) events ≡ true) ids

any-append {ℓ} :
    {A : Type ℓ} (p : A → Bool) (xs ys : List A) → any p (xs ++ ys) ≡ (any p xs || any p ys)
any-append p [] ys = refl
any-append p (x ∷ xs) ys = ground (arith, any-append p xs ys)

pub AreBlockers-append :
    (ids : List String) (old new : List Event) → AreBlockers ids new → AreBlockers ids (old ++ new)
AreBlockers-append [] old new h = tt
AreBlockers-append (i ∷ is) old new h =
    (ground (arith, any-append (is_blocker i) old new, h.0), AreBlockers-append is old new h.1)

pub AreBlockers-grow :
    (ids : List String) (old new : List Event) → AreBlockers ids old → AreBlockers ids (old ++ new)
AreBlockers-grow [] old new h = tt
AreBlockers-grow (i ∷ is) old new h =
    (ground (arith, any-append (is_blocker i) old new, h.0), AreBlockers-grow is old new h.1)

AreBlockers-cons :
    (ids : List String) (e : Event) (new : List Event)
    → AreBlockers ids new
    → AreBlockers ids (e ∷ new)
AreBlockers-cons ids e new h = AreBlockers-append ids (e ∷ []) new h

blocks_self :
    (result : RuntimeResult) (event : ToolEvent) (explicit : Bool) (e : Event) (new : List Event)
    → is_required_action_event result event explicit ≡ true
    → e.type ≡ event.type
    → any (is_blocker e.id) (e ∷ new) ≡ true
unfolding is_required_action_event
blocks_self result event explicit e new h t = ground (arith, eq_self e.id)

module _ ⦃r : Runtime⦄ where
  -- What the loop over the run's events has done: the events that it stored, and the ids it gives.
  pub record HasStored (s : Session) (events : List ToolEvent) (db : Db) (ids : List String)
      (t : Session) (db' : Db) : Type 0 where
    pub same : Same s t
    pub new : List Event
    pub stored : db'.events ≡ db.events ++ new
    pub blocked : AreBlockers ids new

  pub counted-Same : (s : Session) (c : Context) → Same s (counted s c)
  counted-Same s c = record {
    status = refl;
    status_details = refl;
    stop_reason = refl;
    deleted_at = refl;
  }

  -- One more event before those that the rest of the loop stores.
  HasStored-cons :
      (result : RuntimeResult) (explicit : Bool) (s s1 t : Session) (event : ToolEvent)
      (events : List ToolEvent) (e : Event) (db db1 db' : Db) (ids : List String)
      → Same s s1
      → e.type ≡ event.type
      → db1.events ≡ db.events ++ e ∷ []
      → HasStored s1 events db1 ids t db'
      → HasStored s
          (event ∷ events)
          db
          (if is_required_action_event result event explicit then e.id ∷ ids else ids)
          t
          db'
  HasStored-cons result explicit s s1 t event events e db db1 db' ids same typed here rest =
      record {
        same = Same-trans s s1 t same rest.same;
        new = e ∷ rest.new;
        stored =
            rest.stored ∙ ap (λ l. l ++ rest.new) here ∙ append_assoc db.events (e ∷ []) rest.new;
        blocked = elim (Bool-cases (is_required_action_event result event explicit)) [
          | inl needs ↦ rw needs (
            blocks_self result event explicit e rest.new needs typed,
            AreBlockers-cons ids e rest.new rest.blocked,
          )
          | inr p ↦ rw p (AreBlockers-cons ids e rest.new rest.blocked)
        ];
      }

  pub append_tool_events-HasStored :
      {id ws : String} (result : RuntimeResult) (explicit : Bool) (s : Session)
      (events : List ToolEvent) (c : Context) (db : Db)
      → IsLive id ws s db
      → Leaves id ws
          (λ x t db'. (x.1 ≡ t) × HasStored s events db x.0 t db')
          (append_tool_events result explicit s events c db)
  unfolding append_tool_events
  append_tool_events-HasStored result explicit s [] c db h =
      pure-Leaves ([], s) s db h
        (
          refl,
          record {
            same = Same-refl s;
            new = [];
            stored = sym (append-nil db.events);
            blocked = tt;
          },
        )
  append_tool_events-HasStored result explicit s (event ∷ events) c db h =
      bind-Leaves (append_event s event.type (tool_payload event))
        (λ x1. append_tool_events result explicit x1.1 events >>= λ x2.
          pure (
            (if is_required_action_event result event explicit then x1.0.id ∷ x2.0 else x2.0),
            x2.1,
          ))
        c db (append_event-live s event.type (tool_payload event) c db h)
        (λ x1 t1 db1 live1 (same1, has1). rw same1 (
          bind-Leaves (append_tool_events result explicit t1 events)
            (λ x2. pure (
              (if is_required_action_event result event explicit then x1.0.id ∷ x2.0 else x2.0),
              x2.1,
            ))
            c db1 (append_tool_events-HasStored result explicit t1 events c db1 live1)
            (λ x2 t2 db2 live2 (same2, has2).
              pure-Leaves
                (
                  (if is_required_action_event result event explicit then x1.0.id ∷ x2.0 else x2.0),
                  x2.1,
                )
                t2 db2 live2
                (
                  same2,
                  HasStored-cons result explicit s t1 t2 event events x1.0 db db1 db2 x2.0
                      (subst (λ t. Same s t) (sym has1.counts) (counted-Same s c)) has1.typed
                      has1.events has2,
                ))))
