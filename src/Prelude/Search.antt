-- ===== src/Prelude/Search.antt =====
-- The search for an element from the end of a list, as `for x in reversed(xs)` makes it.
use mathlib.Core.List.{reverse, reverse-cons}
use mathlib.Core.Path.{◌≡◌, refl, ap}
use mathlib.Core.Logic.{inl, inr}
use mathlib.Core.Bool.{Bool, true, false}
use mathlib.Core.Option.{Option, none, some}
use mathlib.Core.List.{List, [], ◌∷◌, ◌++◌}
use native.Mathlib.Omega.{arith}
use open_managed_agents.Prelude.Tests.{if◌then◌else◌, Bool-cases}
use open_managed_agents.Prelude.Lists.{All, first}

module _ {ℓ} {A : Type ℓ} (p : A → Bool) where
  -- The element found is the last that passes: none behind it does.
  pub data FoundLast (xs : List A) : Option A → Type ℓ where
    nowhere : All (λ x. p x ≡ false) xs → FoundLast xs none
    found :
        (newer : List A) (x : A) (older : List A)
        → xs ≡ newer ++ x ∷ older
        → p x ≡ true
        → All (λ y. p y ≡ false) older
        → FoundLast xs (some x)

  first-append :
      (x : A) (ys : List A)
      → first p (ys ++ x ∷ [])
        ≡ (elim (first p ys) [ none ↦ if p x then some x else none | some y ↦ some y ])
  first-append x [] = refl
  first-append x (y ∷ ys) = ground (arith, first-append x ys)

  FoundLast-cons :
      (x : A) (xs : List A) (o : Option A)
      → FoundLast xs o
      → FoundLast (x ∷ xs) (elim o [ none ↦ if p x then some x else none | some y ↦ some y ])
  FoundLast-cons x xs none (nowhere h) = elim (Bool-cases (p x)) [
    | inl e ↦ rw e (found [] x xs refl e h)
    | inr e ↦ rw e (nowhere (e, h))
  ]
  FoundLast-cons x xs (some y) (found newer _ older e t h) =
      found (x ∷ newer) y older (ap (◌∷◌ x) e) t h

  pub first-reverse : (xs : List A) → FoundLast xs (first p (reverse xs))
  first-reverse [] = nowhere tt
  first-reverse (x ∷ xs) =
      rw (reverse-cons x xs, first-append x (reverse xs))
        (FoundLast-cons x xs (first p (reverse xs)) (first-reverse xs))
