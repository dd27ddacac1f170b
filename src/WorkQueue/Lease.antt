-- ===== src/WorkQueue/Lease.antt =====
-- What a lease and a heartbeat secure: the item is free again from the expiry on, and not before.
use open_managed_agents.Exec.{check-bind-eq-ok}
use open_managed_agents.Result.{ok}
use open_managed_agents.Resources.Writes.{changed, update_resource}
use open_managed_agents.Prelude.{
  Option, ◌==◌, if◌then◌else◌, ℕ, ◌+◌, ◌*◌, ◌≡◌, String, true, ℤ, arith, leb,
}
use open_managed_agents.Json.{put, Value, Dict, get, str}
use open_managed_agents.Json.Fields.{get-put}
use open_managed_agents.Runtime.{Runtime}
use open_managed_agents.Db.{running, leased, Db, Context, Resource}
use open_managed_agents.WorkQueue.Defs.{
  heartbeat_data, require_lease_owner, heartbeat_work, lease_changes, next_attempt, lease_work,
  second, dict_or_empty, is_held, lease_of, leased_data, work_available_for_lease,
}

module _ ⦃r : Runtime⦄ where
  -- A held item with a printed expiry is available exactly from that moment on.
  pub available-of_expiry :
      (work : Resource) (expiry t : ℕ)
      → is_held work.status ≡ true
      → get "expires_at" (lease_of work.payload) ≡ str (r.isoformat expiry)
      → work_available_for_lease work t ≡ leb expiry t
  unfolding work_available_for_lease
  available-of_expiry work expiry t h e = ground (arith, r.iso_round expiry)

  -- The lease that was written is the lease that is read; other keys do not matter.
  pub lease_of-put :
      (k : String) (v : Value) (d : Dict)
      → lease_of (put k v d) ≡ (if k == "lease" then dict_or_empty v else lease_of d)
  unfolding lease_of
  lease_of-put k v d = ground (arith, get-put "lease" k v d)

  -- The lease that a leased item's data holds.
  pub lease_of-leased_data :
      (d : Dict) (attempt : ℤ) (w : String) (seconds now : ℕ)
      → get "expires_at" (lease_of (leased_data d attempt w seconds now))
        ≡ str (r.isoformat (now + seconds * second))
  unfolding get
  lease_of-leased_data d attempt w seconds now = simp lease_of-put

  -- A lease that is granted, with what it wrote.
  pub lease_work-eq-ok :
      (work : Resource) (w : String) (seconds now : ℕ) (c : Context) (db : Db) {work' : Resource}
      {db' : Db}
      → lease_work work w seconds now c db ≡ ok (work', db')
      → (attempt : ℤ) × (next_attempt work.payload ≡ ok attempt)
        × (work'.payload ≡ leased_data work.payload attempt w seconds now)
        × (work'.status ≡ leased)
  unfolding lease_work update_resource changed
  lease_work-eq-ok work w seconds now c db h =
      let (attempt, e, q) =
        check-bind-eq-ok (next_attempt work.payload)
          (λ n. update_resource work (lease_changes work w seconds now n)) c db h in
      (attempt, e, cc q, cc q)

  -- An item that has just been leased at `now` can be leased again exactly from `now` plus the
  -- lease's seconds on.
  pub available-lease_work :
      (work : Resource) (w : String) (seconds now : ℕ) (c : Context) (db : Db) {work' : Resource}
      {db' : Db}
      → lease_work work w seconds now c db ≡ ok (work', db')
      → (t : ℕ) → work_available_for_lease work' t ≡ leb (now + seconds * second) t
  available-lease_work work w seconds now c db {work'} h t =
      let (attempt, _, data', status') = lease_work-eq-ok work w seconds now c db h in
      available-of_expiry work' (now + seconds * second) t (rw status')
        (rw data' (lease_of-leased_data work.payload attempt w seconds now))

  -- What a heartbeat that returned wrote.
  pub heartbeat_work-eq-ok :
      (work : Resource) (worker : Option String) (seconds : ℕ) (payload : Option Dict) (c : Context)
      (db : Db) {work' : Resource} {db' : Db}
      → heartbeat_work work worker seconds payload c db ≡ ok (work', db')
      → (require_lease_owner work worker "heartbeat" ≡ ok tt)
        × (work'.payload ≡ heartbeat_data work.payload worker seconds payload c.now)
        × (work'.status ≡ running)
  unfolding heartbeat_work update_resource changed
  heartbeat_work-eq-ok work worker seconds payload c db h = ground arith

  -- A heartbeat moves the end of the lease to its own moment plus the seconds asked for.
  pub available-heartbeat_work :
      (work : Resource) (worker : Option String) (seconds : ℕ) (payload : Option Dict) (c : Context)
      (db : Db) {work' : Resource} {db' : Db}
      → heartbeat_work work worker seconds payload c db ≡ ok (work', db')
      → (t : ℕ) → work_available_for_lease work' t ≡ leb (c.now + seconds * second) t
  available-heartbeat_work work worker seconds payload c db {work'} h t =
      let (_, data', status') = heartbeat_work-eq-ok work worker seconds payload c db h in
      available-of_expiry work' (c.now + seconds * second) t (rw status')
        (rw data' (simp (lease_of-put, get-put)))
