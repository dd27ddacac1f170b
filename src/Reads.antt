-- ===== src/Reads.antt =====
-- Calls that only read: they return and leave the database as it is, or they raise.
use open_managed_agents.Exec.{bind-eq-ok, ◌>>=◌}
use open_managed_agents.Prelude.{◌∙◌, true, false}
use mathlib.Core.Path.{ap, sym, subst}
use open_managed_agents.Prelude.{refl, inr, ◌⊎◌, true, inl, if◌then◌else◌, ◌≡◌, Bool}
use open_managed_agents.Result.{ok_injective, Error, err, ok, Result}
use open_managed_agents.Db.{Context, Db}
use open_managed_agents.Exec.{check, Action, pure}

-- What one run of such a call has done.
abbrev pub HasRead {ℓ} : {A : Type ℓ} → Db → Result (A × Db) → Type ℓ
HasRead db q = ((a : _) × (q ≡ ok (a, db))) ⊎ ((e : Error) × (q ≡ err e))

abbrev pub IsRead {ℓ} : {A : Type ℓ} → Action A → Type ℓ
IsRead m = (c : Context) (db : Db) → HasRead db (m c db)

module _ {ℓ} {A : Type ℓ} where
  pub pure-IsRead : (a : A) → IsRead (pure a)
  pure-IsRead a c db = inl (a, refl)

  read_result : (q : Result A) (c : Context) (db : Db) → HasRead db (check q c db)
  read_result (ok a) c db = inl (a, refl)
  read_result (err e) c db = inr (e, refl)

  pub check-IsRead : (q : Result A) → IsRead (check q)
  check-IsRead q c db = read_result q c db

  -- The choice between two reads.
  pub if-IsRead : (b : Bool) (m k : Action A) → IsRead m → IsRead k → IsRead (if b then m else k)
  if-IsRead true m k p q c db = p c db
  if-IsRead false m k p q c db = q c db

pub read_same {ℓ} :
    {A : Type ℓ} (db : Db) (q : Result (A × Db)) (a : A) (db' : Db)
    → HasRead db q
    → q ≡ ok (a, db')
    → (q ≡ ok (a, db)) × (db' ≡ db)
read_same db q a db' (inl (b, e)) h =
    let same : ok (b, db) ≡ ok (a, db') = sym e ∙ h in
    (e ∙ ap (λ x. ok (x.0, db)) (ok_injective same), sym (ap (λ x. x.1) (ok_injective same)))
read_same db q a db' (inr (e, f)) h = let same : err e ≡ ok (a, db') = sym f ∙ h in absurd cc

module _ {ℓ κ} {A : Type ℓ} {B : Type κ} where
  bound_read :
      (q : Result (A × Db)) (f : A → Action B) (c : Context) (db : Db)
      → HasRead db q
      → ((a : A) → IsRead (f a))
      → HasRead db (elim q [ ok (a, db') ↦ f a c db' | err e ↦ err e ])
  bound_read q f c db (inl (a, h)) k =
      subst (λ x. HasRead db (elim x [ ok (b, db') ↦ f b c db' | err e ↦ err e ])) (sym h)
        (k a c db)
  bound_read q f c db (inr (e, h)) k = inr (e, rw h refl)

  pub bind-IsRead :
      (m : Action A) (f : A → Action B) → IsRead m → ((a : A) → IsRead (f a)) → IsRead (m >>= f)
  bind-IsRead m f p k c db = bound_read (m c db) f c db (p c db) k

  -- A bind after a read that returned goes on from the same database.
  pub read-bind-eq-ok :
      (m : Action A) (f : A → Action B) (c : Context) (db : Db) {b : B × Db}
      → IsRead m
      → (m >>= f) c db ≡ ok b
      → (a : A) × (m c db ≡ ok (a, db)) × (f a c db ≡ ok b)
  read-bind-eq-ok m f c db {b} p h =
      let (a, db', read, rest) = bind-eq-ok m f c db h in
      let (was, same) = read_same db (m c db) a db' (p c db) read in
      (a, was, subst (λ x. f a c x ≡ ok b) same rest)
