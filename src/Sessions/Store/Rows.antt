-- ===== src/Sessions/Store/Rows.antt =====
-- One session row under its id, through the writes.
use open_managed_agents.Exec.{check_keeps}
use mathlib.Core.Path.{sym, subst}
use open_managed_agents.Prelude.{
  Option, true, ap, ◌&&◌, eq_self, Bool, refl, some, inr, inl, none, Bool-cases, [], ◌∷◌, ◌==◌, ◌≡◌,
}
use open_managed_agents.Db.{Environment, workspace_id_or_default, Db, Context, Session}
use open_managed_agents.Sessions.Store.{
  get_environment, is_session, ok, keep, String, List, write_session, get_session,
}

-- The table has exactly one row of the session's id, and it is this one.
abbrev pub IsStored : Session → List Session → Type 0
IsStored s rows = keep (λ x. x.id == s.id) rows ≡ s ∷ []

none_written :
    (s : Session) (id : String) (rows : List Session)
    → s.id ≡ id
    → keep (λ x. x.id == id) rows ≡ []
    → keep (λ x. x.id == id) (write_session s rows) ≡ []
unfolding write_session
none_written s id [] e h = refl
none_written s id (x ∷ xs) e h = elim (Bool-cases (x.id == id)) [
  | inl same ↦ cc (rw same at h)
  | inr other ↦ rw (e, other) (rw other (none_written s id xs e (rw other at h)))
]

row_written :
    (s s' : Session) (id : String) (rows : List Session)
    → s'.id ≡ id
    → (s'.id == id) ≡ true
    → keep (λ x. x.id == id) rows ≡ s ∷ []
    → keep (λ x. x.id == id) (write_session s' rows) ≡ s' ∷ []
unfolding write_session
row_written s s' id [] e t h = cc
row_written s s' id (x ∷ xs) e t h =
    let test : (x.id == s'.id) ≡ (x.id == id) = ap (λ k. x.id == k) e in
    elim (Bool-cases (x.id == id)) [
      | inl same ↦
          let rest : keep (λ y. y.id == id) xs ≡ [] = cc (rw same at h) in
          rw (test, same) (rw t (ap (◌∷◌ s') (none_written s' id xs e rest)))
      | inr other ↦ rw (test, other) (rw other (row_written s s' id xs e t (rw other at h)))
    ]

pub IsStored-write_session :
    (s s' : Session) (rows : List Session)
    → IsStored s rows
    → s'.id ≡ s.id
    → IsStored s' (write_session s' rows)
IsStored-write_session s s' rows h e =
    row_written s s' s'.id rows refl (eq_self s'.id)
      (subst (λ id. keep (λ x. x.id == id) rows ≡ s ∷ []) (sym e) h)

keep_and {ℓ} :
    {A : Type ℓ} (p q : A → Bool) (xs : List A) → keep (λ x. p x && q x) xs ≡ keep q (keep p xs)
keep_and p q [] = refl
keep_and p q (x ∷ xs) = elim (Bool-cases (p x)) [
  | inl e ↦ elim (Bool-cases (q x)) [
    | inl f ↦ rw (e, f) (ap (◌∷◌ x) (keep_and p q xs))
    | inr f ↦ rw (e, f) (keep_and p q xs)
  ]
  | inr e ↦ rw e (keep_and p q xs)
]

pub get_session-stored :
    (s : Session) (c : Context) (db : Db)
    → IsStored s db.sessions
    → s.workspace_id ≡ workspace_id_or_default c none
    → get_session s.id none c db ≡ ok (some s, db)
unfolding get_session is_session
get_session-stored s c db h w =
    let ws : String = workspace_id_or_default c none in
    rw (keep_and (λ x. x.id == s.id) (λ x. x.workspace_id == ws) db.sessions, h)
      (rw (w, eq_self ws))

pub get_session_keeps :
    (id : String) (c : Context) (db db' : Db) (o : Option Session)
    → get_session id none c db ≡ ok (o, db')
    → db' ≡ db
unfolding get_session
get_session_keeps id c db db' o h = (check_keeps _ c db db' h).1

pub get_environment_keeps :
    (id : String) (c : Context) (db db' : Db) (o : Option Environment)
    → get_environment id none c db ≡ ok (o, db')
    → db' ≡ db
unfolding get_environment
get_environment_keeps id c db db' o h = (check_keeps _ c db db' h).1
