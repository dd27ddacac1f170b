-- ===== src/WorkQueue/Ownership.antt =====
-- Who may acknowledge, extend or run a held work item (`_require_lease_owner`).
use open_managed_agents.WorkQueue.Execute.{started_data}
use open_managed_agents.Resources.Writes.{write_row, changed, update_resource}
use open_managed_agents.Result.{lease_error, err, Result, ok}
use open_managed_agents.Prelude.{
  ◌∙◌, ap, eq_self, sym, ne→not-eq, ◌≢◌, ◌==◌, if◌then◌else◌, none, eq_iff, arith, inl, inr, refl,
  Bool-cases, some, ◌⊎◌, false, ◌↔◌, true, ◌≡◌, ℕ, Option,
}
use open_managed_agents.Db.{running, Db, Context, Resource}
use open_managed_agents.Json.{Dict, str, truthy, lookup, get}
use open_managed_agents.Runtime.{to_str, Runtime}
use open_managed_agents.WorkQueue.Defs.{
  put_worker, ack_changes, lease_of, heartbeat_work, ack_work, owner_of, given, lease_work, is_held,
  require_lease_owner,
}
use open_managed_agents.WorkQueue.Lease.{lease_work-eq-ok, lease_of-put}
use Prim.Native.String.{String, ◌++◌}

-- The last test, on the name that the caller gives.
abbrev named : String → String → Option String → Result (Unit {0})
named action owner o = elim o [
  | none ↦ err (lease_error ("worker_id is required to " ++ action ++ " this leased work item"))
  | some w ↦
      if owner == w
      then ok tt
      else err (lease_error ("Worker " ++ w ++ " does not own this work lease"))
]

named_iff :
    (action owner : String) (o : Option String)
    → (named action owner o ≡ ok tt) ↔ ((w : String) × (o ≡ some w) × (owner ≡ w))
named_iff action owner none = ((λ h. cc), (λ h. cc h.1))
named_iff action owner (some w) =
    ((λ h. (w, refl, ground (arith, eq_iff owner w))), (λ h. ground (arith, eq_iff owner w)))

module _ ⦃r : Runtime⦄ where
  -- The caller may act: the item is held, by nobody or by the caller, who gives a name.
  abbrev pub MayAct : Resource → Option String → Type 0
  MayAct work worker =
      (is_held work.status ≡ true)
      × ((truthy (owner_of work) ≡ false)
          ⊎ ((w : String) × (given worker ≡ some w) × (to_str (owner_of work) ≡ w)))

  -- The check passes exactly for a held item that has no owner, or whose owner's name the caller
  -- gives.
  pub require_lease_owner_iff :
      (work : Resource) (worker : Option String) (action : String)
      → (require_lease_owner work worker action ≡ ok tt) ↔ MayAct work worker
  unfolding require_lease_owner
  require_lease_owner_iff work worker action = elim (Bool-cases (is_held work.status)) [
    | inr e ↦ rw e ((λ h. cc), (λ h. cc h.0))
    | inl e ↦ rw e (elim (Bool-cases (truthy (owner_of work))) [
      | inr f ↦ rw f ((λ h. (refl, inl refl)), (λ h. refl))
      | inl f ↦ rw f (
          let same = named_iff action (to_str (owner_of work)) (given worker) in
          ((λ h. (refl, inr (same.0 h))), λ h. elim h.1 [ inl g ↦ cc | inr g ↦ same.1 g ]))
    ])
  ]

  -- An item that has just been leased is the lessee's.
  pub owner_of-lease_work :
      (work : Resource) (w : String) (seconds now : ℕ) (c : Context) (db : Db) {work' : Resource}
      {db' : Db}
      → lease_work work w seconds now c db ≡ ok (work', db')
      → (owner_of work' ≡ str w) × (is_held work'.status ≡ true)
  unfolding get lookup
  owner_of-lease_work work w seconds now c db {work'} h =
      let (attempt, _, data', status') = lease_work-eq-ok work w seconds now c db h in
      (rw data' (rw lease_of-put refl), rw status' refl)

  foreign :
      (work : Resource) (w v action : String)
      → is_held work.status ≡ true
      → owner_of work ≡ str w
      → w ≢ ""
      → v ≢ ""
      → v ≢ w
      → require_lease_owner work (some v) action
        ≡ err (lease_error ("Worker " ++ v ++ " does not own this work lease"))
  unfolding require_lease_owner
  foreign work w v action held owner nw nv ne =
      rw (held, owner, ne→not-eq w "" nw, ne→not-eq v "" nv)
        (rw (ap to_str owner, ne→not-eq w v (λ e. ne (sym e))))

  own :
      (work : Resource) (w action : String)
      → is_held work.status ≡ true
      → owner_of work ≡ str w
      → w ≢ ""
      → require_lease_owner work (some w) action ≡ ok tt
  unfolding require_lease_owner
  own work w action held owner nw =
      rw (held, owner, ne→not-eq w "" nw) (rw (ap to_str owner, eq_self w))

  -- After a lease by `w`, another worker's acknowledgement, heartbeat and execution of that item
  -- all raise, whenever they come and whatever the database is.
  pub lease_work-excludes :
      (work : Resource) (w v : String) (seconds now : ℕ) (c : Context) (db : Db) {work' : Resource}
      {db' : Db}
      → lease_work work w seconds now c db ≡ ok (work', db')
      → w ≢ ""
      → v ≢ ""
      → v ≢ w
      → (later : Context) (db₂ : Db) (ttl : ℕ) (body : Option Dict)
      → let refusal = lease_error ("Worker " ++ v ++ " does not own this work lease") in
        (ack_work work' (some v) later db₂ ≡ err refusal)
        × (heartbeat_work work' (some v) ttl body later db₂ ≡ err refusal)
        × (started_data work' (some v) later.now ≡ err refusal)
  unfolding ack_work heartbeat_work started_data
  lease_work-excludes work w v seconds now c db {work'} h nw nv ne later db₂ ttl body =
      let (owner, held) = owner_of-lease_work work w seconds now c db h in
      let no_one = λ (action : String). foreign work' w v action held owner nw nv ne in
      (rw (no_one "ack"), rw (no_one "heartbeat"), rw (held, no_one "execute"))

  lease_of-put_worker :
      (worker : Option String) (d : Dict) → lease_of (put_worker "acked_by" worker d) ≡ lease_of d
  lease_of-put_worker none d = refl
  lease_of-put_worker (some w) d = elim (Bool-cases (w == "")) [
    | inl e ↦ rw (e, put_worker)
    | inr e ↦ rw (e, put_worker) (lease_of-put "acked_by" (str w) d)
  ]

  -- The lessee's own acknowledgement goes through at any time while the item stands as leased: the
  -- item is running then, and still the lessee's, with the same expiry.
  pub lease_work-admits :
      (work : Resource) (w : String) (seconds now : ℕ) (c : Context) (db : Db) {work' : Resource}
      {db' : Db}
      → lease_work work w seconds now c db ≡ ok (work', db')
      → w ≢ ""
      → (later : Context) (db₂ : Db)
      → (work₂ : Resource) × (db₃ : Db) × (ack_work work' (some w) later db₂ ≡ ok (work₂, db₃))
        × (work₂.status ≡ running)
        × (lease_of work₂.payload ≡ lease_of work'.payload)
  unfolding ack_work update_resource changed
  lease_work-admits work w seconds now c db {work'} h nw later db₂ =
      let (owner, held) = owner_of-lease_work work w seconds now c db h in
      let acked = changed (ack_changes work' (some w) later) later.now work' in
      (
        acked,
        record db₂ { resources = write_row acked db₂.resources },
        rw (own work' w "ack" held owner nw),
        refl,
        lease_of-put_worker (some w) _ ∙ lease_of-put "acked_at" _ work'.payload,
      )
