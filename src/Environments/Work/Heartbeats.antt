-- ===== src/Environments/Work/Heartbeats.antt =====
-- The preconditions of heartbeats.
use open_managed_agents.Json.Fields.{get-put}
use open_managed_agents.WorkQueue.Lease.{heartbeat_work-eq-ok}
use open_managed_agents.Db.{Db, Context}
use open_managed_agents.Environments.Work.{
  ttl_seconds, heartbeat_work, runtime_error, catch_lease_error, crash, http, Option, str,
  lease_error, get, err, ℕ, ok, String, Resource, Heartbeat, worker_id_for_work,
  check_heartbeat_precondition, as_conflict, beat,
}
use open_managed_agents.Runtime.{Runtime}
use open_managed_agents.Result.{Result}
use open_managed_agents.Exec.{check-bind-eq-ok}
use open_managed_agents.Prelude.{eq_iff, arith, refl, ◌≢◌, ◌≡◌, some}

as_conflict-eq-ok {ℓ} : {A : Type ℓ} (q : Result A) {a : A} → as_conflict q ≡ ok a → q ≡ ok a
as_conflict-eq-ok (ok a) h = h
as_conflict-eq-ok (err (lease_error m)) h = absurd cc
as_conflict-eq-ok (err (http n m)) h = absurd cc
as_conflict-eq-ok (err (crash m)) h = absurd cc
as_conflict-eq-ok (err (runtime_error m)) h = absurd cc

module _ ⦃r : Runtime⦄ where
  beat-eq-ok :
      (h : Heartbeat) (work : Resource) (c : Context) (db : Db) {work' : Resource} {db' : Db}
      → beat h work c db ≡ ok (work', db')
      → get "last_heartbeat_at" work'.payload ≡ str (r.isoformat c.now)
  unfolding beat
  beat-eq-ok h work c db {work'} passed =
      let worker : Option String = worker_id_for_work work h.worker_id h.header in
      let (_, _, q) =
        check-bind-eq-ok (check_heartbeat_precondition work h.expected_last_heartbeat)
          (λ _. catch_lease_error (heartbeat_work work worker (ttl_seconds h) (some h.payload))) c
          db passed in
      let (_, payload', _) =
        heartbeat_work-eq-ok work worker (ttl_seconds h) (some h.payload) c db
          (as_conflict-eq-ok _ q) in
      rw payload' (simp get-put)

  precondition_fails :
      (work : Resource) (t : ℕ) (e : String)
      → get "last_heartbeat_at" work.payload ≡ str (r.isoformat t)
      → e ≢ r.isoformat t
      → check_heartbeat_precondition work (some e) ≡ err (http 412 "Heartbeat precondition failed")
  unfolding check_heartbeat_precondition
  precondition_fails work t e last other =
      ground (arith, last, other, r.iso_ne t, eq_iff (r.isoformat t) "", eq_iff (r.isoformat t) e)

  -- Of two heartbeats that expect the same last one, the second is refused: after a heartbeat that
  -- returned, each other that does not expect just that one's moment is answered with 412.
  pub beat-excludes :
      (h h' : Heartbeat) (work work' : Resource) (c c' : Context) (db db' db'' : Db) (e : String)
      → beat h work c db ≡ ok (work', db')
      → h'.expected_last_heartbeat ≡ some e
      → e ≢ r.isoformat c.now
      → beat h' work' c' db'' ≡ err (http 412 "Heartbeat precondition failed")
  unfolding beat
  beat-excludes h h' work work' c c' db db' db'' e passed expects other =
      let failed = precondition_fails work' c.now e (beat-eq-ok h work c db passed) other in
      rw (expects, failed) refl
