-- ===== src/Resources/Rows.antt =====
-- Writing one row of the table, and reading it back.
use mathlib.Core.Path.{subst}
use open_managed_agents.Runtime.{Runtime}
use open_managed_agents.Result.{ok, err, crash, ok_injective}
use open_managed_agents.Resources.Writes.{created, create_resource, same_version, NewResource}
use open_managed_agents.Prelude.{
  suc, ◌∙◌, sym, Bool-cases, ◌++◌, any, inl, inr, ◌≡◌, refl, List, [], ◌∷◌, arith, eq_iff, map,
}
use open_managed_agents.Db.{Db, Context, Resource}
use open_managed_agents.Resources.Writes.{write_row}

-- A write keeps every id in its place.
pub ids-write_row :
    (row : Resource) (rows : List Resource)
    → map (λ (x : Resource). x.id) (write_row row rows) ≡ map (λ (x : Resource). x.id) rows
unfolding write_row
ids-write_row row [] = refl
ids-write_row row (x ∷ xs) = ground (arith, eq_iff x.id row.id, ids-write_row row xs)

-- What a creation that returned has added.
pub create_resource-eq-ok :
    ⦃r : Runtime⦄
    → (new : NewResource) (c : Context) (db : Db) (row : Resource) (db' : Db)
    → create_resource new c db ≡ ok (row, db')
    → (row ≡ created new c db) × (db'.resources ≡ db.resources ++ row ∷ [])
unfolding create_resource
create_resource-eq-ok new c db row db' made =
    elim (Bool-cases (any (same_version new) db.resources)) [
      | inl t ↦
          let q : err (crash "IntegrityError") ≡ ok (row, db') = sym (rw t refl) ∙ made in absurd cc
      | inr p ↦
          let stored = record db {
            resources = db.resources ++ created new c db ∷ [];
            drawn = suc db.drawn;
          } in
          let q : ok (created new c db, stored) ≡ ok (row, db') = sym (rw p refl) ∙ made in
          subst
            (λ (x : Resource × Db).
              (x.0 ≡ created new c db) × (x.1.resources ≡ db.resources ++ x.0 ∷ []))
            (ok_injective q) (refl, refl)
    ]
