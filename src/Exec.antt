-- ===== src/Exec.antt =====
-- Handlers: code that reads and writes the database under one request's context, and may raise.
-- A handler commits at its end and nowhere before, so a raise leaves the database as it was (the
-- session of app/db/engine.py is closed without a commit): an error carries no database.
use open_managed_agents.Prelude.{if◌then◌else◌, true, false, Bool, ◌≡◌, refl}
use open_managed_agents.Result.{Error, Result, ok, err}
use open_managed_agents.Db.{Db, Context}

abbrev pub Action {ℓ} : Type ℓ → Type ℓ
Action A = Context → Db → Result (A × Db)

infixl 5 ◌>>=◌ ◌>>◌
abbrev pub ◌>>=◌ {ℓ κ} : {A : Type ℓ} {B : Type κ} → Action A → (A → Action B) → Action B
◌>>=◌ m f c db = elim (m c db) [ ok (a, db') ↦ f a c db' | err e ↦ err e ]

abbrev pub ◌>>◌ {ℓ κ} : {A : Type ℓ} {B : Type κ} → Action A → Action B → Action B
m >> k = m >>= λ _. k

abbrev pub pure {ℓ} : {A : Type ℓ} → A → Action A
pure a c db = ok (a, db)

abbrev pub raise {ℓ} : {A : Type ℓ} → Error → Action A
raise e c db = err e

-- A check among a handler's steps.
abbrev pub check {ℓ} : {A : Type ℓ} → Result A → Action A
check r c db = elim r [ ok a ↦ ok (a, db) | err e ↦ err e ]

module _ {ℓ κ} {A : Type ℓ} {B : Type κ} where
  continue-eq-ok :
      (q : Result (A × Db)) (f : A → Action B) (c : Context) {b : B × Db}
      → (elim q [ ok (a, db') ↦ f a c db' | err e ↦ err e ]) ≡ ok b
      → (a : A) × (db' : Db) × (q ≡ ok (a, db')) × (f a c db' ≡ ok b)
  continue-eq-ok (ok (a, db')) f c h = (a, db', refl, h)
  continue-eq-ok (err e) f c h = cc

  continue-ok :
      (q : Result (A × Db)) (f : A → Action B) (c : Context) {a : A} {db' : Db}
      → q ≡ ok (a, db')
      → (elim q [ ok (b, db'') ↦ f b c db'' | err e ↦ err e ]) ≡ f a c db'
  continue-ok (ok (b, db'')) f c h = cc
  continue-ok (err e) f c h = cc

  -- A bind after a call that returned goes on from what that left.
  pub bind-ok :
      (m : Action A) (f : A → Action B) (c : Context) (db : Db) {a : A} {db' : Db}
      → m c db ≡ ok (a, db')
      → (m >>= f) c db ≡ f a c db'
  bind-ok m f c db h = continue-ok (m c db) f c h

  stop-err :
      (q : Result (A × Db)) (f : A → Action B) (c : Context) {e : Error}
      → q ≡ err e
      → (elim q [ ok (b, db'') ↦ f b c db'' | err e ↦ err e ]) ≡ err e
  stop-err (ok (b, db'')) f c h = cc
  stop-err (err e) f c h = cc

  -- A bind after a call that raised raises the same.
  pub bind-err :
      (m : Action A) (f : A → Action B) (c : Context) (db : Db) {e : Error}
      → m c db ≡ err e
      → (m >>= f) c db ≡ err e
  bind-err m f c db h = stop-err (m c db) f c h

  -- Inversion of a bind that returned.
  pub bind-eq-ok :
      (m : Action A) (f : A → Action B) (c : Context) (db : Db) {b : B × Db}
      → (m >>= f) c db ≡ ok b
      → (a : A) × (db' : Db) × (m c db ≡ ok (a, db')) × (f a c db' ≡ ok b)
  bind-eq-ok m f c db h = continue-eq-ok (m c db) f c h

  -- A check that passed, and the rest that returned, on the same database.
  pub check-bind-eq-ok :
      (q : Result A) (f : A → Action B) (c : Context) (db : Db) {b : B × Db}
      → (check q >>= f) c db ≡ ok b
      → (a : A) × (q ≡ ok a) × (f a c db ≡ ok b)
  check-bind-eq-ok (ok a) f c db h = (a, refl, h)
  check-bind-eq-ok (err e) f c db h = cc

-- A check leaves the database alone.
pub check_keeps {ℓ} :
    {A : Type ℓ} (q : Result A) (c : Context) (db db' : Db) {a : A}
    → check q c db ≡ ok (a, db')
    → (q ≡ ok a) × (db' ≡ db)
check_keeps (ok x) c db db' h = (cc, cc)
check_keeps (err e) c db db' h = cc

-- A test that is known decides which call is made.
module _ {ℓ} {A : Type ℓ} (m k : Action A) (c : Context) (db : Db) where
  pub when_true : (b : Bool) → b ≡ true → (if b then m else k) c db ≡ m c db
  when_true b h = rw h

  pub when_false : (b : Bool) → b ≡ false → (if b then m else k) c db ≡ k c db
  when_false b h = rw h
