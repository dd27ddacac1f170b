-- ===== src/Runner/Run/Settles.antt =====
-- The whole of a turn: how it leaves its session, and the one exception that leaves it running.
use open_managed_agents.Runner.Retry.Waits.{HasHugeHint}
use open_managed_agents.Runner.Retry.{attempt_of}
use open_managed_agents.Sessions.Live.{IsLive}
use open_managed_agents.Db.{Session}
use open_managed_agents.Runner.Failures.{is_transient, Failure}
use open_managed_agents.Runner.Run.{raised, ok, failed, returned, Db, Turn, Execution}
use open_managed_agents.Runner.Finish.{has_moved_on}
use open_managed_agents.Prelude.{suc, pos, true, ◌≡◌, ℕ, String}
use open_managed_agents.Runner.Turn.{Prepared}
use open_managed_agents.Runtime.{Runtime}

module _ ⦃r : Runtime⦄ where
  -- The session is stored, with a count of its attempts that can be read.
  abbrev pub IsReady : String → String → Db → Type 0
  IsReady id ws db = (t : Session) × (n : ℕ) × IsLive id ws t db × (attempt_of t ≡ ok (pos (suc n)))

  -- The turn has come back, and its session is live and has moved on.
  abbrev pub HasSettled : String → String → Turn → Type 0
  HasSettled id ws turn =
      (t : Session) × (db' : Db) × (turn ≡ returned db')
      × IsLive id ws t db'
      × (has_moved_on t ≡ true)

  -- The model's run failed, and reading how long to wait raised: the turn is over without a write.
  abbrev pub IsAbandoned : (Prepared → Execution) → String → String → Turn → Type 0
  IsAbandoned execute id ws turn =
      (prepared : Prepared) × (exc : Failure) × (db' : Db) × (execute prepared ≡ failed exc)
      × (is_transient exc ≡ true)
      × HasHugeHint exc
      × (turn ≡ raised "OverflowError" (r.message_of "OverflowError") db')
      × IsReady id ws db'
