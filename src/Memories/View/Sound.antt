-- ===== src/Memories/View/Sound.antt =====
-- The invariant of the rows, kept where a row is written or added, with the view that it leaves.
use open_managed_agents.Resources.Rows.{ids-write_row}
use open_managed_agents.Json.{is_text, get}
use open_managed_agents.Memories.View.{entry_of, at_spot, content_in, matching, IsAt, view, Spot}
use open_managed_agents.Memories.View.Writes.{
  nothing_matching, matching-split, swap_rows, write_row-split, IsFree, after, ids, Distinct,
}
use open_managed_agents.Db.{Db, Resource}
use open_managed_agents.Resources.Writes.{write_row}
use open_managed_agents.Runtime.{Runtime}
use mathlib.Core.Path.{sym, ap, fun_ext, subst}
use mathlib.Core.List.{[], ◌∷◌, List, append-nil}
use open_managed_agents.Prelude.{
  refl, if◌then◌else◌, All-append, arith, length, ◌∙◌, inr, suc, inl, ◌==◌, ◌≤◌, ◌++◌, Bool-cases,
  ◌≢◌, All, ◌≡◌, ℕ, String, none, some, true, false,
}
use open_managed_agents.Memories.View.Rows.{swapped}

-- A memory has a name, which its dict tells.
abbrev pub IsKeyed : Resource → Type 0
IsKeyed x =
    (x.resource_type == "memory") ≡ true
    → (key : String) × (x.name ≡ some key) × (is_text (get "path_key" x.payload) key ≡ true)

-- Ids are distinct and drawn, a key of a store has one live memory at most, and a
-- memory tells its key.
pub record IsSound ⦃r : Runtime⦄ (ws : String) (db : Db) : Type 0 where
  pub distinct : Distinct (ids db.resources)
  pub drawn :
      (prefix : String) (n : ℕ) → db.drawn ≤ n → All (λ i. i ≢ r.new_id prefix n) (ids db.resources)
  pub single : (store_id key : String) → length (matching ws store_id key db.resources) ≤ 1
  pub keyed : All IsKeyed db.resources

All-add :
    (P : String → Type 0) (rows : List Resource) (y : Resource)
    → All P (ids rows)
    → P y.id
    → All P (ids (rows ++ y ∷ []))
All-add P [] y h k = (k, tt)
All-add P (x ∷ xs) y h k = (h.0, All-add P xs y h.1 k)

Distinct-add :
    (rows : List Resource) (y : Resource)
    → Distinct (ids rows)
    → All (λ i. i ≢ y.id) (ids rows)
    → Distinct (ids (rows ++ y ∷ []))
Distinct-add [] y h k = (tt, tt)
Distinct-add (x ∷ xs) y h k = (All-add (λ j. x.id ≢ j) xs y h.0 k.0, Distinct-add xs y h.1 k.1)

All-write :
    (P : Resource → Type 0) (y : Resource) (rows : List Resource)
    → P y
    → All P rows
    → All P (write_row y rows)
unfolding write_row
All-write P y [] h hs = tt
All-write P y (x ∷ xs) h hs = elim (Bool-cases (x.id == y.id)) [
  | inl t ↦ rw t (h, All-write P y xs h hs.1)
  | inr p ↦ rw p (hs.0, All-write P y xs h hs.1)
]

-- The rows after a write to the row with the id.
pub rows_written :
    ⦃r : Runtime⦄
    → (ws : String) (db : Db) (y x : Resource) (pre post : List Resource) → IsSound ws db
    → db.resources ≡ pre ++ x ∷ post
    → y.id ≡ x.id
    → write_row y db.resources ≡ pre ++ y ∷ post
rows_written ws db y x pre post h e same =
    ap (write_row y) e
    ∙ write_row-split y x pre post (subst (λ rows. Distinct (ids rows)) e h.distinct) same

module _ ⦃r : Runtime⦄ (ws : String) (db : Db) (y : Resource) (was spot : Spot) where
  -- A row takes the place of the one with its id.
  pub write-IsSound :
      (x : Resource) (pre post : List Resource)
      → IsSound ws db
      → db.resources ≡ pre ++ x ∷ post
      → y.id ≡ x.id
      → IsAt ws was x
      → IsAt ws spot y
      → IsKeyed y
      → IsFree was spot (view ws db)
      → IsSound ws (record db { resources = write_row y db.resources })
        × (view ws (record db { resources = write_row y db.resources })
            ≡ after was spot (entry_of y) (view ws db))
  unfolding view
  write-IsSound x pre post h e same hx hy keyed free =
      let c = entry_of y in
      let er : write_row y db.resources ≡ pre ++ y ∷ post =
        rows_written ws db y x pre post h e same in
      let swap =
        swap_rows ws pre post x y was spot hx hy
          (subst (λ rows. (s k : String) → length (matching ws s k rows) ≤ 1) e h.single)
          (subst (λ rows. IsFree was spot (λ s k. content_in (matching ws s k rows))) e free) in
      let kept = ids-write_row y db.resources in
      (
        record {
          distinct = subst Distinct (sym kept) h.distinct;
          drawn = λ p n le. subst (All (λ i. i ≢ r.new_id p n)) (sym kept) (h.drawn p n le);
          single = λ s k. subst (λ rows. length (matching ws s k rows) ≤ 1) (sym er) (swap s k).0;
          keyed = All-write IsKeyed y db.resources keyed h.keyed;
        },
        fun_ext λ s. fun_ext λ k.
            ap (λ rows. content_in (matching ws s k rows)) er
            ∙ (swap s k).1
            ∙ ap (λ rows. after was spot c (λ s k. content_in (matching ws s k rows)) s k) (sym e),
      )

module _ ⦃r : Runtime⦄ (unique : (p q : String) (m n : ℕ) → r.new_id p m ≡ r.new_id q n → m ≡ n)
    (ws : String) (db : Db) (y : Resource) (spot : Spot) where
  -- A row with a new id is added.
  pub add-IsSound :
      (prefix : String)
      → IsSound ws db
      → y.id ≡ r.new_id prefix db.drawn
      → IsAt ws spot y
      → IsKeyed y
      → IsFree none spot (view ws db)
      → IsSound ws (record db { resources = db.resources ++ y ∷ []; drawn = suc db.drawn })
        × (view ws (record db { resources = db.resources ++ y ∷ []; drawn = suc db.drawn })
            ≡ after none spot (entry_of y) (view ws db))
  unfolding view after
  add-IsSound prefix h e hy keyed free =
      let c = entry_of y in
      let em = λ (s k : String). matching-split ws s k y spot db.resources [] hy in
      let swap = λ (s k : String).
        swapped false (at_spot spot s k) (matching ws s k db.resources) [] y y
          (subst (λ rows. length rows ≤ 1) (sym (append-nil (matching ws s k db.resources)))
            (h.single s k))
          (λ t p.
            append-nil (matching ws s k db.resources) ∙ nothing_matching _ (free s k t refl)) in
      (
        record {
          distinct = Distinct-add db.resources y h.distinct (
              subst (λ i. All (λ j. j ≢ i) (ids db.resources)) (sym e)
                (h.drawn prefix db.drawn (omega arith)));
          drawn = λ p n le.
              All-add (λ i. i ≢ r.new_id p n) db.resources y (h.drawn p n (omega arith))
                (λ q. let same = unique prefix p db.drawn n (sym e ∙ q) in omega arith);
          single = λ s k. subst (λ rows. length rows ≤ 1) (sym (em s k)) (swap s k).0;
          keyed = All-append IsKeyed db.resources (y ∷ []) h.keyed (keyed, tt);
        },
        fun_ext λ s. fun_ext λ k.
            ap content_in (em s k)
            ∙ (swap s k).1
            ∙ ap (λ v. if at_spot spot s k then some c else v)
                (ap content_in (append-nil (matching ws s k db.resources))),
      )
