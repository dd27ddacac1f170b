-- ===== src/Environments/Poll/Ends.antt =====
-- A poll that blocks comes to an end, and what it takes back can be leased.
use open_managed_agents.Json.Fields.{get-put}
use open_managed_agents.WorkQueue.Lease.{lease_of-put, available-of_expiry}
use open_managed_agents.WorkQueue.Defs.{work_available_for_lease}
use open_managed_agents.Resources.Writes.{update_resource, changed}
use open_managed_agents.Environments.Poll.{
  second, reclaimed_data, no_changes, true, is_held, str, millisecond, poll_round, get,
  update_resource, String, reclaim, parse_datetime, is_silent, poll_next_work, last_sign, Runtime,
  leb, ok, err, next_round, some, suc, longest_sleep, Result, min, Rounds, poll_rounds,
}
use open_managed_agents.Db.{Db, Context, Resource}
use open_managed_agents.Prelude.{
  ◌∙◌, eq_iff, refl, inr, Bool-cases, arith, inl, ◌*◌, ◌≡◌, ◌-◌, ◌⊎◌, ◌≤◌, ◌+◌, ℕ, Option,
}
use open_managed_agents.Exec.{Action}
use open_managed_agents.Prelude.{none, some, zero, suc}

module _ (round : Action (Option Resource)) (clock : ℕ → ℕ) (c : Context) (deadline : ℕ) where
  next_round_ends :
      (now : ℕ) (again : Db → Rounds) (q : Result (Option Resource × Db))
      → ((db : Db) → deadline ≤ now ⊎ (a : Result (Option Resource × Db)) × (again db ≡ some a))
      → (a : Result (Option Resource × Db)) × (next_round (some deadline) now again q ≡ some a)
  next_round_ends now again (err e) h = (err e, refl)
  next_round_ends now again (ok (some work, db)) h = (ok (some work, db), refl)
  next_round_ends now again (ok (none, db)) h = elim (Bool-cases (leb deadline now)) [
    | inl t ↦ (ok (none, db), rw t refl)
    | inr p ↦ elim (h db) [ inl over ↦ absurd (ground arith) | inr (a, e) ↦ (a, rw p e) ]
  ]

  poll_rounds_end :
      ((i : ℕ) → clock i + min longest_sleep (deadline - clock i) ≤ clock (suc i))
      → (n i : ℕ) (db : Db) → deadline ≤ clock i + n * longest_sleep
      → (a : Result (Option Resource × Db)) × (poll_rounds round clock c
            (some deadline)
            (suc n)
            i
            db
          ≡ some a)
  unfolding poll_rounds
  poll_rounds_end sleeps zero i db h =
      next_round_ends (clock i) (poll_rounds round clock c (some deadline) zero (suc i))
        (round (record c { now = clock i }) db) (λ db'. inl (omega arith))
  poll_rounds_end sleeps (suc n) i db h =
      next_round_ends (clock i) (poll_rounds round clock c (some deadline) (suc n) (suc i))
        (round (record c { now = clock i }) db)
        (λ db'. inr (poll_rounds_end sleeps n (suc i) db' (let s = sleeps i in omega arith)))

module _ ⦃r : Runtime⦄ where
  -- A poll that blocks for at most 999 milliseconds ends within 21 rounds, whatever the table holds,
  -- if a sleep takes at least as long as it is asked to: 50 milliseconds, or what is left of the
  -- time to block.
  pub poll_next_work_ends :
      (clock : ℕ → ℕ) (environment_id worker_id : String) (lease_seconds block_ms : ℕ)
      (reclaim_ms : Option ℕ) (c : Context) (db : Db)
      → block_ms ≤ 999
      → ((i : ℕ) → clock i + min 50_000 (clock 0 + block_ms * 1_000 - clock i) ≤ clock (suc i))
      → (a : Result (Option Resource × Db)) × (poll_next_work 21 clock environment_id worker_id
            lease_seconds
            (some block_ms)
            reclaim_ms
            c
            db
          ≡ some a)
  unfolding poll_next_work
  poll_next_work_ends clock environment_id worker_id lease_seconds block_ms reclaim_ms c db short
        sleeps =
      poll_rounds_end (poll_round environment_id worker_id lease_seconds reclaim_ms) clock c
        (clock 0 + block_ms * millisecond) sleeps 20 0 db (omega arith)

  -- The moment that the last heartbeat of an item tells.
  last_sign-heartbeat :
      (work : Resource) (t : ℕ)
      → get "last_heartbeat_at" work.payload ≡ str (r.isoformat t)
      → last_sign work ≡ some t
  unfolding last_sign parse_datetime
  last_sign-heartbeat work t e =
      ground (arith, e, r.iso_ne t, eq_iff (r.isoformat t) "", r.iso_no_zulu t, r.iso_round t)

  -- A held item whose last heartbeat is a known moment counts as silent exactly if that moment is at
  -- least as far back as asked. Taking an item back always returns, and the item can then be leased.
  pub reclaim-silent :
      (work : Resource) (t ms : ℕ) (c : Context) (db : Db)
      → is_held work.status ≡ true
      → get "last_heartbeat_at" work.payload ≡ str (r.isoformat t)
      → ms * 1_000 ≤ c.now
      → (is_silent (c.now - ms * 1_000) work ≡ leb (t + ms * 1_000) c.now)
        × (work' : Resource) × (db' : Db) × (reclaim ms work c db ≡ ok (work', db'))
        × (work_available_for_lease work' c.now ≡ true)
  unfolding is_silent reclaim update_resource changed
  reclaim-silent work t ms c db held beat there =
      let work' : Resource =
        changed (record no_changes { payload = some (reclaimed_data work.payload ms c.now) }) c.now
          work in
      (
        rw (held, last_sign-heartbeat work t beat) (ground arith),
        work',
        _,
        refl,
        available-of_expiry work' (c.now - second) c.now held (simp (lease_of-put, get-put))
            ∙ ground arith,
      )
