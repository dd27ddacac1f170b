-- ===== src/WorkQueue/Next.antt =====
-- `lease_next_work` of app/runtime/work_queue.py takes the oldest item that is available, among the
-- thousand newest of its environment.
use mathlib.Core.Path.{subst}
use open_managed_agents.Exec.{pure, bind-eq-ok, ◌>>=◌}
use open_managed_agents.Prelude.Search.{nowhere, found, first-reverse, FoundLast}
use open_managed_agents.Resources.Queries.{list_resources}
use open_managed_agents.Result.{ok_injective, ok, Result}
use open_managed_agents.Db.{Db, Context, Resource}
use open_managed_agents.Prelude.{
  ◌∙◌, sym, ◌∷◌, none, ◌++◌, true, false, some, ◌≡◌, All, Option, ℕ, List, String,
}
use open_managed_agents.Runtime.{Runtime}
use open_managed_agents.WorkQueue.Defs.{
  work_available_for_lease, lease_work, lease_first, lease_next_work, work_type,
}

module _ ⦃r : Runtime⦄ where
  -- What a poll at `c` over the rows, newest first, gives.
  abbrev pub Outcome : List Resource → String → ℕ → Context → Db → Option Resource × Db → Type 0
  Outcome rows w seconds c db (none, db') =
      All (λ work. work_available_for_lease work c.now ≡ false) rows × (db' ≡ db)
  Outcome rows w seconds c db (some work', db') =
      (newer : List Resource) × (work : Resource) × (older : List Resource) × (rows
        ≡ newer ++ work ∷ older)
      × (work_available_for_lease work c.now ≡ true)
      × All (λ item. work_available_for_lease item c.now ≡ false) older
      × (lease_work work w seconds c.now c db ≡ ok (work', db'))

  abbrev grant : String → ℕ → Context → Db → Option Resource → Result (Option Resource × Db)
  grant w seconds c db o = elim o [
    | none ↦ ok (none, db)
    | some work ↦ (do work' ← lease_work work w seconds c.now; pure (some work')) c db
  ]

  grant-Outcome :
      (rows : List Resource) (w : String) (seconds : ℕ) (c : Context) (db : Db)
      (o : Option Resource) (out : Option Resource × Db)
      → FoundLast (λ work. work_available_for_lease work c.now) rows o
      → grant w seconds c db o ≡ ok out
      → Outcome rows w seconds c db out
  grant-Outcome rows w seconds c db none (none, db') (nowhere h) e = (h, cc)
  grant-Outcome rows w seconds c db none (some work', db') (nowhere h) e = cc
  grant-Outcome rows w seconds c db (some work) (o, db') (found newer _ older e t h) q =
      let (work', db1, leased, same) =
        bind-eq-ok (lease_work work w seconds c.now) (λ x. pure (some x)) c db q in
      subst (Outcome rows w seconds c db) (ok_injective same) (newer, work, older, e, t, h, leased)

  -- A poll that finds nothing leaves the database alone, and none of the thousand newest items of the
  -- environment is available. A poll that finds an item leases one that is available, and no older
  -- one among them is.
  pub lease_next_work-Outcome :
      (environment_id w : String) (seconds : ℕ) (c : Context) (db : Db) (rows : List Resource)
      (out : Option Resource × Db)
      → list_resources work_type (some environment_id) 1000 true false none c db ≡ ok (rows, db)
      → lease_next_work environment_id w seconds c db ≡ ok out
      → Outcome rows w seconds c db out
  unfolding lease_next_work lease_first
  lease_next_work-Outcome environment_id w seconds c db rows out e h =
      let (rows', db1, e', q) =
        bind-eq-ok (list_resources work_type (some environment_id) 1000 true false none)
          (λ found. lease_first found w seconds) c db h in
      let same : ◌≡◌ {A = Result (List Resource × Db)} (ok (rows', db1)) (ok (rows, db)) =
        sym e' ∙ e in
      let q' : lease_first rows w seconds c db ≡ ok out = cc in
      grant-Outcome rows w seconds c db _ out
        (first-reverse (λ work. work_available_for_lease work c.now) rows) q'
