-- ===== src/Environments/Poll.antt =====
-- app/routers/environments.py: a worker's poll for work, with the items that it takes back from
-- silent workers, and the queue's statistics.
pub mod Ends
use open_managed_agents.Resources.Queries.{list_resources}
use open_managed_agents.Sessions.Handlers.{must_get_environment}
use open_managed_agents.WorkQueue.Defs.{
  second, lease_of, work_type, given, is_held, lease_next_work, status_text,
}
use open_managed_agents.Result.{crash, ok, err, Result}
use open_managed_agents.Resources.Writes.{no_changes, is_child, update_resource}
use open_managed_agents.Json.{str, obj, get, int, as_str, or_value, put, Value, Dict}
use open_managed_agents.Runtime.{Runtime}
use open_managed_agents.Db.{Environment, Context, Db, Status, Resource}
use open_managed_agents.Prelude.{
  ◌-◌, false, leb, true, zero, pos, ◌*◌, ◌&&◌, suc, ◌==◌, ltb, [], min, keep, if◌then◌else◌, ◌∷◌,
  none, some, or_else, ◌||◌, Bool, length, ◌+◌, Option, String, List, ℕ,
}
use open_managed_agents.Exec.{check, pure, Action, ◌>>=◌}

-- The moments of the rounds of a poll are `clock 0`, `clock 1`, and so on.
abbrev pub Rounds : Type 0
Rounds = Option (Result (Option Resource × Db))

-- A millisecond and the longest sleep between two rounds, in microseconds.
abbrev pub millisecond : ℕ
millisecond = 1_000

abbrev pub longest_sleep : ℕ
longest_sleep = 50_000

-- What follows a round of the loop: its end, or the next round.
abbrev pub next_round : Option ℕ → ℕ → (Db → Rounds) → Result (Option Resource × Db) → Rounds
next_round deadline now again (err e) = some (err e)
next_round deadline now again (ok (some work, db)) = some (ok (some work, db))
next_round none now again (ok (none, db)) = some (ok (none, db))
next_round (some deadline) now again (ok (none, db)) =
    if leb deadline now then some (ok (none, db)) else again db

module _ (round : Action (Option Resource)) (clock : ℕ → ℕ) (c : Context)
    (deadline : Option ℕ) where
  -- The rounds from the `i`-th on; `none` when the count of rounds allowed is used up.
  unfoldable pub poll_rounds : ℕ → ℕ → Db → Rounds
  poll_rounds zero i db = none
  poll_rounds (suc n) i db =
      next_round deadline (clock i) (poll_rounds n (suc i)) (round (record c { now = clock i }) db)

abbrev pub deadline_of : ℕ → Option ℕ → Option ℕ
deadline_of start none = none
deadline_of start (some block_ms) = some (start + block_ms * millisecond)

abbrev pub has_status : Status → Resource → Bool
has_status status work = status_text work.status == status_text status

-- The counters of `environment_work_stats`.
pub record WorkStats : Type 0 where
  pub queued : ℕ
  pub leased : ℕ
  pub running : ℕ
  pub rescheduling : ℕ
  pub completed : ℕ
  pub failed : ℕ
  pub stopped : ℕ
  pub depth : ℕ
  pub pending : ℕ
  pub oldest_queued_at : Option ℕ

abbrev pub count_status : Status → List Resource → ℕ
count_status status works = length (keep (has_status status) works)

abbrev pub waits : Resource → Bool
waits work = has_status Status.queued work || has_status Status.rescheduling work

-- `min(queued) if queued else None`
abbrev pub earliest : Option ℕ → ℕ → ℕ
earliest none t = t
earliest (some u) t = min t u

unfoldable pub oldest_queued_at : List Resource → Option ℕ
oldest_queued_at [] = none
oldest_queued_at (work ∷ works) =
    let rest = oldest_queued_at works in
    if waits work then some (earliest rest work.created_at) else rest

unfoldable pub work_stats : List Resource → WorkStats
work_stats works = record {
  queued = count_status Status.queued works;
  leased = count_status Status.leased works;
  running = count_status Status.running works;
  rescheduling = count_status Status.rescheduling works;
  completed = count_status Status.completed works;
  failed = count_status Status.error works;
  stopped = count_status Status.stopped works;
  depth = count_status Status.queued works + count_status Status.rescheduling works;
  pending = count_status Status.leased works + count_status Status.running works;
  oldest_queued_at = oldest_queued_at works;
}

module _ ⦃r : Runtime⦄ where
  unfoldable pub environment_work_stats : String → Action WorkStats
  environment_work_stats environment_id = do
    _ ← must_get_environment environment_id
    queued ← list_resources work_type (some environment_id) 1000 true false none
    pure (work_stats queued)

  -- `_parse_datetime` of a JSON value, which is no datetime.
  unfoldable pub parse_datetime : Value → Option ℕ
  parse_datetime v = elim (as_str v) [
    | none ↦ none
    | some t ↦ if t == "" then none else r.fromisoformat (r.expand_zulu t)
  ]

  -- The last sign of life of the item's worker.
  unfoldable pub last_sign : Resource → Option ℕ
  last_sign work =
      parse_datetime
        (or_value (get "last_heartbeat_at" work.payload) (get "leased_at" (lease_of work.payload)))

  unfoldable pub is_silent : ℕ → Resource → Bool
  is_silent threshold work =
      is_held work.status
      && (elim (last_sign work) [ none ↦ false | some sign ↦ leb sign threshold ])

  -- A moment before `datetime.min` is an OverflowError.
  unfoldable pub threshold_of : ℕ → ℕ → Result ℕ
  threshold_of now ms =
      if ltb now (ms * millisecond)
      then err (crash "OverflowError")
      else ok (now - ms * millisecond)

  abbrev pub reclaimed_data : Dict → ℕ → ℕ → Dict
  reclaimed_data d ms now =
      put "reclaim_older_than_ms" (int (pos ms))
        (put "lease" (obj (put "expires_at" (str (r.isoformat (now - second))) (lease_of d))) d)

  unfoldable pub reclaim : ℕ → Resource → Action Resource
  reclaim ms work c db =
      update_resource work
        (record no_changes { payload = some (reclaimed_data work.payload ms c.now) }) c db

  -- The loop of `_expire_reclaimable_work`.
  unfoldable pub reclaim_each : ℕ → ℕ → List Resource → Action (Unit {0})
  reclaim_each threshold ms [] = pure tt
  reclaim_each threshold ms (work ∷ works) =
      let others = reclaim_each threshold ms works in
      if is_silent threshold work then (reclaim ms work >>= λ _. others) else others

  unfoldable pub expire_reclaimable_work : String → ℕ → Action (Unit {0})
  expire_reclaimable_work environment_id ms c db =
      (do
        threshold ← check (threshold_of c.now ms)
        works ← list_resources work_type (some environment_id) 1000 true false none
        reclaim_each threshold ms works)
        c db

  unfoldable pub reclaim_if_asked : String → Option ℕ → Action (Unit {0})
  reclaim_if_asked environment_id none = pure tt
  reclaim_if_asked environment_id (some ms) = expire_reclaimable_work environment_id ms

  -- One round of the loop of `_poll_next_work`.
  unfoldable pub poll_round : String → String → ℕ → Option ℕ → Action (Option Resource)
  poll_round environment_id worker_id lease_seconds reclaim_ms = do
    _ ← reclaim_if_asked environment_id reclaim_ms
    lease_next_work environment_id worker_id lease_seconds

  -- `_poll_next_work`, with at most as many rounds as given.
  unfoldable pub poll_next_work :
      ℕ → (ℕ → ℕ) → String → String → ℕ → Option ℕ → Option ℕ → Context → Db → Rounds
  poll_next_work rounds clock environment_id worker_id lease_seconds block_ms reclaim_ms c db =
      poll_rounds (poll_round environment_id worker_id lease_seconds reclaim_ms) clock c
        (deadline_of (clock 0) block_ms) rounds 0 db

  -- `anthropic_worker_id or worker_id or "anonymous"`
  abbrev pub polling_worker : Option String → String → String
  polling_worker header worker_id =
      or_else (given header) (or_else (given (some worker_id)) "anonymous")

  -- Without an item the handler returns before its commit.
  abbrev pub committed : Db → Rounds → Rounds
  committed db none = none
  committed db (some (err e)) = some (err e)
  committed db (some (ok (some work, db'))) = some (ok (some work, db'))
  committed db (some (ok (none, db'))) = some (ok (none, db))

  -- The parameters of a poll.
  pub record Poll : Type 0 where
    pub worker_id : String
    pub header : Option String
    pub lease_seconds : ℕ
    pub block_ms : Option ℕ
    pub reclaim_older_than_ms : Option ℕ

  abbrev pub poll_open : ℕ → (ℕ → ℕ) → String → Poll → Context → Result (Environment × Db) → Rounds
  poll_open rounds clock environment_id p c (err e) = some (err e)
  poll_open rounds clock environment_id p c (ok (environment, db)) = committed db (
      poll_next_work rounds clock environment_id (polling_worker p.header p.worker_id)
        p.lease_seconds p.block_ms p.reclaim_older_than_ms c db)

  unfoldable pub poll_environment_work : ℕ → (ℕ → ℕ) → String → Poll → Context → Db → Rounds
  poll_environment_work rounds clock environment_id p c db =
      poll_open rounds clock environment_id p c (must_get_environment environment_id c db)
