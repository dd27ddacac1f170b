-- ===== src/Result.antt =====
-- Checks that may raise: what a raise carries out of the program (app/errors.py turns an
-- HTTPException into a response, and `WorkLeaseError` is of app/runtime/work_queue.py).
use open_managed_agents.Prelude.{ℕ, String, Bool, true, false, Option, none, some, ◌≡◌, refl}

pub data Error : Type 0 where
  -- `HTTPException(status_code=…, detail=…)`
  http : ℕ → String → Error
  -- `WorkLeaseError(…)`
  lease_error : String → Error
  -- An exception that no handler expects: a server error, with the class's name.
  crash : String → Error
  -- `RuntimeError(…)`
  runtime_error : String → Error

-- A check raises, or passes with a value.
pub data Result {ℓ} (A : Type ℓ) : Type ℓ where
  err : Error → Result A
  ok : A → Result A

infixl 6 ◌>>◌ ◌>>=◌
abbrev pub ◌>>=◌ {ℓ κ} : {A : Type ℓ} {B : Type κ} → Result A → (A → Result B) → Result B
checked >>= next = elim checked [ err e ↦ err e | ok value ↦ next value ]

abbrev pub ◌>>◌ {ℓ κ} : {A : Type ℓ} {B : Type κ} → Result A → Result B → Result B
checked >> next = elim checked [ err e ↦ err e | ok _ ↦ next ]

-- `if bad: raise e`
abbrev pub raise_if : Bool → Error → Result (Unit {0})
raise_if true e = err e
raise_if false e = ok tt

-- The value, or a raise where there is none.
abbrev pub or_raise {ℓ} : {A : Type ℓ} → Option A → Error → Result A
or_raise none e = err e
or_raise (some a) e = ok a

abbrev pub map_ok {ℓ κ} : {A : Type ℓ} {B : Type κ} → (A → B) → Result A → Result B
map_ok f (ok a) = ok (f a)
map_ok f (err e) = err e

pub ok_injective {ℓ} : {A : Type ℓ} {a b : A} → ok a ≡ ok b → a ≡ b
ok_injective h = cc

-- In a chain that passed, the first check passed, and so did the rest on its value.
pub next-eq-ok {ℓ κ} :
    {First : Type ℓ} {Last : Type κ} (checked : Result First) (rest : First → Result Last)
    {last : Last}
    → (checked >>= rest) ≡ ok last
    → (found : First) × (checked ≡ ok found) × (rest found ≡ ok last)
next-eq-ok (err refusal) rest passed = cc
next-eq-ok (ok found) rest passed = (found, refl, passed)

pub map_ok-eq-ok {ℓ κ} :
    {A : Type ℓ} {B : Type κ} (f : A → B) (checked : Result A) {b : B}
    → map_ok f checked ≡ ok b
    → (a : A) × (checked ≡ ok a) × (f a ≡ b)
map_ok-eq-ok f (ok a) h = (a, refl, ok_injective h)
map_ok-eq-ok f (err e) h = cc
