-- ===== src/Memories/View/Run.antt =====
-- Runs of calls on the memories of a workspace, against what they mean for a client.
use open_managed_agents.Memories.Changes.{delete_memory, update_memory}
use open_managed_agents.Memories.View.Spec.{Call, creation, update, deletion}
use open_managed_agents.Exec.{Action}
use open_managed_agents.Memories.Calls.{create_memory, Mapper}
use open_managed_agents.Memories.Paths.{Unicode}
use open_managed_agents.Runtime.{Runtime}
use open_managed_agents.Db.{Resource, Db}
use open_managed_agents.Prelude.{ℕ, String, none, some, Option, List, [], ◌∷◌}
use open_managed_agents.Result.{ok, err, Result}

-- The database after a call: the handler's, or the same where it raised.
abbrev pub left : Db → Result (Resource × Db) → Db
left db (ok (x, db')) = db'
left db (err e) = db

-- The id of the memory that a call answers with, if it does not raise.
abbrev pub answer_of : Result (Resource × Db) → Option String
answer_of (ok (x, db')) = some x.id
answer_of (err e) = none

module _ ⦃r : Runtime⦄ ⦃u : Unicode⦄ ⦃m : Mapper⦄ where
  abbrev pub called : Call → Action Resource
  called (creation store_id display body) = create_memory store_id display body
  called (update store_id memory_id display body) = update_memory store_id memory_id display body
  called (deletion store_id memory_id sha) = delete_memory store_id memory_id sha

  -- The calls of a workspace, the last one first, each at its moment.
  unfoldable pub run : Option String → List (ℕ × Call) → Db → Db
  run workspace [] db = db
  run workspace ((now, call) ∷ calls) db =
      let before = run workspace calls db in
      left before (called call (record { workspace = workspace; now = now }) before)

  -- The same calls with the answers that they get.
  unfoldable pub answered : Option String → List (ℕ × Call) → Db → List (Call × Option String)
  unfolding run
  answered workspace [] db = []
  answered workspace ((now, call) ∷ calls) db =
      let before = run workspace calls db in
      let answer = answer_of (called call (record { workspace = workspace; now = now }) before) in
      let others = answered workspace calls db in (call, answer) ∷ others
