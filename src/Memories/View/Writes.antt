-- ===== src/Memories/View/Writes.antt =====
-- Writing one row: where it stands among the others, and what the write does to the view.
use mathlib.Core.List.{head-eq_of_cons-eq}
use mathlib.Core.Path.{subst}
use open_managed_agents.Memories.View.Rows.{swapped}
use open_managed_agents.Resources.Writes.{write_row}
use open_managed_agents.Memories.View.{
  entry_of, Entry, content_in, pick, [], keep, matching, at_spot, Bool, is_named, View, ◌∷◌, IsAt,
  Spot,
}
use open_managed_agents.Db.{Resource}
use open_managed_agents.Prelude.{
  eq_self, ◌==◌, ne→not-eq, keep-append, ap, ◌∙◌, sym, length, Bool-cases, refl, [], ◌≤◌, ◌≡◌, ◌≢◌,
  if◌then◌else◌, ◌++◌, All, map, String, List, none, some, true, false, inl, inr,
}

abbrev pub Distinct : List String → Type 0
Distinct [] = Unit
Distinct (i ∷ is) = All (λ j. i ≢ j) is × Distinct is

abbrev pub ids : List Resource → List String
ids rows = map (λ (x : Resource). x.id) rows

-- The view when a row goes from one spot to another, where it has the content.
unfoldable pub after : Spot → Spot → Entry → View → View
after was spot v f store_id key =
    if at_spot spot store_id key
    then some v
    else if at_spot was store_id key
    then none
    else f store_id key

-- The spot to which a row goes is free, unless it is there.
abbrev pub IsFree : Spot → Spot → View → Type 0
IsFree was spot f =
    (store_id key : String)
    → at_spot spot store_id key ≡ true
    → at_spot was store_id key ≡ false
    → f store_id key ≡ none

pub split_one :
    (test : Resource → Bool) (rows : List Resource) (x : Resource)
    → keep test rows ≡ x ∷ []
    → (pre post : List Resource) × (rows ≡ pre ++ x ∷ post) × (test x ≡ true)
split_one test [] x h = absurd cc
split_one test (y ∷ ys) x h = elim (Bool-cases (test y)) [
  | inl t ↦
      let q : y ∷ keep test ys ≡ x ∷ [] = sym (rw t refl) ∙ h in
      let e : y ≡ x = head-eq_of_cons-eq q in ([], ys, ap (λ z. z ∷ ys) e, ap test (sym e) ∙ t)
  | inr p ↦
      let q : keep test ys ≡ x ∷ [] = sym (rw p refl) ∙ h in
      let (pre, post, e, t) = split_one test ys x q in (y ∷ pre, post, ap (◌∷◌ y) e, t)
]

write_row-absent :
    (y : Resource) (rows : List Resource) → All (λ i. y.id ≢ i) (ids rows) → write_row y rows ≡ rows
unfolding write_row
write_row-absent y [] h = refl
write_row-absent y (x ∷ xs) h =
    rw (ne→not-eq x.id y.id (λ q. h.0 (sym q))) (ap (◌∷◌ x) (write_row-absent y xs h.1))

pub id_at :
    (P : String → Type 0) (x : Resource) (pre post : List Resource)
    → All P (ids (pre ++ x ∷ post))
    → P x.id
id_at P x [] post h = h.0
id_at P x (p ∷ pre) post h = id_at P x pre post h.1

pub write_row-split :
    (y x : Resource) (pre post : List Resource)
    → Distinct (ids (pre ++ x ∷ post))
    → y.id ≡ x.id
    → write_row y (pre ++ x ∷ post) ≡ pre ++ y ∷ post
unfolding write_row
write_row-split y x [] post h e =
    rw (ap (λ i. x.id == i) e ∙ eq_self x.id)
      (ap (◌∷◌ y) (write_row-absent y post (subst (λ i. All (λ j. i ≢ j) (ids post)) (sym e) h.0)))
write_row-split y x (p ∷ pre) post h e =
    rw (ne→not-eq p.id y.id (λ q. id_at (λ j. p.id ≢ j) x pre post h.0 (q ∙ e)))
      (ap (◌∷◌ p) (write_row-split y x pre post h.1 e))

pick_cons :
    (b : Bool) (x : Resource) (rows : List Resource)
    → (if b then x ∷ rows else rows) ≡ pick b x ++ rows
pick_cons true x rows = refl
pick_cons false x rows = refl

pub matching-split :
    (ws store_id key : String) (x : Resource) (spot : Spot) (pre post : List Resource)
    → IsAt ws spot x
    → matching ws store_id key (pre ++ x ∷ post)
      ≡ matching ws store_id key pre
        ++ (pick (at_spot spot store_id key) x ++ matching ws store_id key post)
matching-split ws store_id key x spot pre post h =
    keep-append (is_named "memory" key (some store_id) false ws) pre (x ∷ post)
    ∙ ap (λ rows. matching ws store_id key pre ++ rows)
        (ap (λ b. if b then x ∷ matching ws store_id key post else matching ws store_id key post)
            (h store_id key)
          ∙ pick_cons (at_spot spot store_id key) x (matching ws store_id key post))

pub nothing_matching : (rows : List Resource) → content_in rows ≡ none → rows ≡ []
nothing_matching [] h = refl
nothing_matching (x ∷ xs) h = absurd cc

-- Between the same rows, a row at one spot in the place of a row at another.
pub swap_rows :
    (ws : String) (pre post : List Resource) (x y : Resource) (was spot : Spot)
    → IsAt ws was x
    → IsAt ws spot y
    → ((s k : String) → length (matching ws s k (pre ++ x ∷ post)) ≤ 1)
    → IsFree was spot (λ s k. content_in (matching ws s k (pre ++ x ∷ post)))
    → (s k : String)
    → (length (matching ws s k (pre ++ y ∷ post)) ≤ 1)
      × (content_in (matching ws s k (pre ++ y ∷ post))
          ≡ after was spot (entry_of y) (λ s k. content_in (matching ws s k (pre ++ x ∷ post))) s k)
unfolding after
swap_rows ws pre post x y was spot hx hy single free s k =
    let ex = matching-split ws s k x was pre post hx in
    let ey = matching-split ws s k y spot pre post hy in
    rw ey (
      rw ex (
        swapped (at_spot was s k) (at_spot spot s k) (matching ws s k pre) (matching ws s k post) x
          y (subst (λ rows. length rows ≤ 1) ex (single s k))
          (λ t p. sym ex ∙ nothing_matching _ (free s k t p))))
