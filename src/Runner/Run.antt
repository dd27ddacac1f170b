-- ===== src/Runner/Run.antt =====
-- app/runtime/runner.py: `run_session_turn`, its transactions in their order. The model's run is an
-- argument, and so is what other requests do to the database while it goes on.
pub mod Settles
use open_managed_agents.Runner.Retry.{fail_turn}
use open_managed_agents.Db.{Event, Context, Db}
use open_managed_agents.Runner.Failures.{failure_of, Failure}
use open_managed_agents.Prelude.{Bool, true, none, some, Option, List, String}
use open_managed_agents.Runner.Turn.{begin_turn, prepare_turn, Prepared}
use open_managed_agents.Result.{Result, err, ok, Error}
use open_managed_agents.Runner.Finish.{finish_turn, RuntimeResult}
use open_managed_agents.Runtime.{Runtime}
use open_managed_agents.Prelude.{true, false}
use open_managed_agents.WorkQueue.Execute.{Turn, returned, raised}

-- How the model's run ends.
pub data Execution : Type 0 where
  finished : RuntimeResult → Execution
  failed : Failure → Execution

module _ ⦃r : Runtime⦄ where
  -- An exception that leaves `run_session_turn`.
  abbrev pub leaves : Error → Db → Turn
  leaves e db = raised (failure_of e).class_name (failure_of e).message db

  -- The `except` clause, on the database as the failed transaction found it.
  abbrev pub after_failure : Db → Result (Unit {0} × Db) → Turn
  after_failure db (ok (done, db')) = returned db'
  after_failure db (err e) = leaves e db

  abbrev pub on_failure : String → Failure → Context → Db → Turn
  on_failure session_id exc c db = after_failure db (fail_turn session_id exc c db)

  -- The end of the last transaction of the `try`.
  abbrev pub after_finish : String → Context → Db → Result (Unit {0} × Db) → Turn
  after_finish session_id c db (ok (done, db')) = returned db'
  after_finish session_id c db (err e) = on_failure session_id (failure_of e) c db

  -- After the model's run.
  unfoldable pub after_execution : String → List Event → Execution → Context → Db → Turn
  after_execution session_id history (failed exc) c db = on_failure session_id exc c db
  after_execution session_id history (finished result) c db =
      after_finish session_id c db (finish_turn session_id history result c db)

  module _ (execute : Prepared → Execution) (meanwhile : Db → Db) where
    abbrev pub run_prepared : String → Context → Context → Db → Result (Option Prepared × Db) → Turn
    run_prepared session_id before after db (ok (none, db')) = returned db'
    run_prepared session_id before after db (ok (some prepared, db')) =
        after_execution session_id prepared.history (execute prepared) after (meanwhile db')
    run_prepared session_id before after db (err e) = on_failure session_id (failure_of e) before db

    -- The `try` of `_run_session_turn`.
    unfoldable pub attempt_turn : String → Context → Context → Db → Turn
    attempt_turn session_id before after db =
        run_prepared session_id before after db (prepare_turn session_id before db)

    abbrev pub run_begun : String → Context → Context → Db → Result (Bool × Db) → Turn
    run_begun session_id before after db (ok (true, db')) = attempt_turn session_id before after db'
    run_begun session_id before after db (ok (false, db')) = returned db'
    run_begun session_id before after db (err e) = leaves e db

    -- `_run_session_turn`, at one moment before the model's run and one after it.
    unfoldable pub run_session_turn : Context → Context → String → Db → Turn
    run_session_turn before after session_id db =
        run_begun session_id before after db (begin_turn session_id before db)
