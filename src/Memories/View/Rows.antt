-- ===== src/Memories/View/Rows.antt =====
-- The view of the rows when one row takes another's place.
use open_managed_agents.Memories.View.{entry_of, content_in, [], pick}
use open_managed_agents.Db.{Resource}
use open_managed_agents.Prelude.{
  length-append, if◌then◌else◌, refl, arith, ◌≤◌, ◌∷◌, ◌≡◌, length, ◌++◌, Bool, List, none, some,
  true, false,
}

pub alone_among :
    (xs ys : List Resource) (x : Resource) → length (xs ++ x ∷ ys) ≤ 1 → (xs ≡ []) × (ys ≡ [])
alone_among [] [] x h = (refl, refl)
alone_among [] (b ∷ ys) x h = absurd (omega arith)
alone_among (a ∷ xs) ys x h = let q = length-append xs (x ∷ ys) in absurd (omega (arith, q))

parts_empty : (xs ys : List Resource) → xs ++ ys ≡ [] → (xs ≡ []) × (ys ≡ [])
parts_empty [] ys h = (refl, h)
parts_empty (a ∷ xs) ys h = absurd cc

-- Between the same rows, one row, if it counts, in the place of another.
pub swapped :
    (was is_now : Bool) (xs ys : List Resource) (x y : Resource)
    → length (xs ++ (pick was x ++ ys)) ≤ 1
    → (is_now ≡ true → was ≡ false → xs ++ (pick was x ++ ys) ≡ [])
    → (length (xs ++ (pick is_now y ++ ys)) ≤ 1)
      × (content_in (xs ++ (pick is_now y ++ ys)) ≡ (
          if is_now
          then some (entry_of y)
          else if was
          then none
          else content_in (xs ++ (pick was x ++ ys))))
swapped true true xs ys x y h free =
    let (e, e') = alone_among xs ys x h in rw e (rw e' (omega arith, refl))
swapped true false xs ys x y h free =
    let (e, e') = alone_among xs ys x h in rw e (rw e' (omega arith, refl))
swapped false true xs ys x y h free =
    let (e, e') = parts_empty xs ys (free refl refl) in rw e (rw e' (omega arith, refl))
swapped false false xs ys x y h free = (h, refl)
