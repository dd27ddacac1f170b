-- ===== src/WorkQueue/Enqueue.antt =====
-- What `enqueue_session_run` leaves for the workers.
use open_managed_agents.Resources.Queries.{column_is}
use open_managed_agents.Result.{ok}
use open_managed_agents.Prelude.{
  and_false, ◌&&◌, suc, ◌==◌, pos, true, ℕ, some, refl, ◌++◌, [], ◌∷◌, false, any, Option, ◌≡◌,
  String, List,
}
use open_managed_agents.Db.{Db, Context, Resource, Session}
use open_managed_agents.Runtime.{Runtime}
use open_managed_agents.Json.{Dict, get, lookup, str}
use open_managed_agents.WorkQueue.Defs.{
  enqueue_session_run, work_available_for_lease, next_attempt, work_type, new_run,
  work_ready_for_execution,
}
use open_managed_agents.Resources.Writes.{created, create_resource, same_version}

module _ ⦃r : Runtime⦄ where
  no_version_clash :
      (s : Session) (trigger : String) (metadata : Option Dict) (c : Context) (rows : List Resource)
      → any (same_version (new_run s trigger metadata c)) rows ≡ false
  unfolding same_version
  no_version_clash s trigger metadata c [] = refl
  no_version_clash s trigger metadata c (x ∷ xs) =
      rw (and_false (x.resource_type == work_type && column_is x.parent_id s.environment_id))
        (no_version_clash s trigger metadata c xs)

  -- What the call comes to.
  abbrev pub IsEnqueued : Session → String → Option Dict → Context → Db → Type 0
  IsEnqueued s trigger metadata c db =
      (work : Resource) × (db' : Db) × (enqueue_session_run s trigger metadata c db
        ≡ ok (work, db'))
      × (db'.resources ≡ db.resources ++ work ∷ [])
      × (work.resource_type ≡ work_type)
      × (work.parent_id ≡ some s.environment_id)
      × (get "session_id" work.payload ≡ str s.id)
      × ((now : ℕ) → work_available_for_lease work now ≡ true)
      × (next_attempt work.payload ≡ ok (pos 1))

  -- Enqueueing a run always returns. It adds one work item, of the session's environment and for
  -- the session, which any worker may lease at any moment, and whose first lease is attempt one.
  pub enqueue_session_run-IsEnqueued :
      (s : Session) (trigger : String) (metadata : Option Dict) (c : Context) (db : Db)
      → IsEnqueued s trigger metadata c db
  unfolding enqueue_session_run create_resource get lookup next_attempt work_available_for_lease
      work_ready_for_execution created
  enqueue_session_run-IsEnqueued s trigger metadata c db =
      let work = created (new_run s trigger metadata c) c db in
      (
        work,
        record db { resources = db.resources ++ work ∷ []; drawn = suc db.drawn },
        rw (no_version_clash s trigger metadata c db.resources),
        refl,
        refl,
        refl,
        refl,
        λ now. refl,
        refl,
      )
