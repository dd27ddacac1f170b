-- ===== src/Runner/Retry/Due.antt =====
-- A turn that failed, and the work item that carried it: when the item can be leased again.
use open_managed_agents.Memories.View.Writes.{ids, Distinct}
use open_managed_agents.Runner.Retry.Waits.{retry_after_seconds_bounds}
use mathlib.Core.Path.{subst}
use open_managed_agents.Prelude.{◌∙◌, sym, ◌*◌, ◌+◌}
use open_managed_agents.WorkQueue.Execute.{finish_execution}
use open_managed_agents.WorkQueue.Defs.{is_held, work_type}
use open_managed_agents.Resources.Queries.{get_resource}
use open_managed_agents.Result.{err, Error, ok_injective, ok}
use open_managed_agents.Sessions.Live.{get_session-live, IsLive}
use open_managed_agents.Runner.Retry.{
  get_session, second, fail_turn, attempt_of, retry_at, retry_reason,
}
use open_managed_agents.Db.{workspace_id_or_default, Resource, Db, Context, Session}
use open_managed_agents.Prelude.{
  ◌≤◌, false, some, suc, pos, arith, inr, refl, none, inl, ◌<◌, true, ◌≡◌, ℤ, ℕ, String,
}
use open_managed_agents.Runner.Failures.{retry_after_seconds, is_transient, Failure}
use open_managed_agents.Json.{str, lookup, get}
use open_managed_agents.Runtime.{to_str, Runtime}
use open_managed_agents.Runner.Retry.Outcome.{fail_turn-HasFailed, HasFailed, IsRescheduled}
use open_managed_agents.WorkQueue.Finish.{IsFreeFrom, finish_execution-reschedules}

module _ ⦃r : Runtime⦄ where
  retry_at-retry_reason :
      (exc : Failure) (n : ℤ) (wait : ℕ) (c : Context)
      → get "retry_at" (retry_reason exc n wait c) ≡ str (r.isoformat (retry_at wait c.now))
  unfolding get lookup
  retry_at-retry_reason exc n wait c = refl

  rescheduled :
      (exc : Failure) (n wait : ℕ) (c : Context) (t : Session)
      → is_transient exc ≡ true
      → n < 2
      → retry_after_seconds exc (pos (suc n)) ≡ ok wait
      → HasFailed exc n c t
      → IsRescheduled exc n wait c t
  rescheduled exc n wait c t transient few is (inl (_, (wait', is', inl (_, left)))) =
      let same : wait' ≡ wait = ok_injective (sym is' ∙ is) in
      subst (λ w. IsRescheduled exc n w c t) same left
  rescheduled exc n wait c t transient few is (inl (_, (_, _, inr (many, _)))) =
      absurd (omega arith)
  rescheduled exc n wait c t transient few is (inr (p, _)) = absurd cc

  no_wait :
      (exc : Failure) (n : ℕ) (c : Context) (t : Session) (e : Error)
      → is_transient exc ≡ true
      → HasFailed exc n c t
      → ¬ (retry_after_seconds exc (pos (suc n)) ≡ err e)
  no_wait exc n c t e transient (inl (_, (wait, is, _))) raises =
      let q : ok wait ≡ err e = sym is ∙ raises in absurd cc
  no_wait exc n c t e transient (inr (p, _)) raises = absurd cc

  -- After a transient failure that found fewer than two attempts counted, and whose transaction
  -- returned, the transaction that ends the run of the work item returns too, and the item, held
  -- until then, is found again under its id, of the same session: it can be leased exactly from the
  -- moment of the retry on, between one second and five minutes after the failure, where the table's
  -- ids are distinct.
  pub fail_turn_due :
      (id work_id : String) (s : Session) (exc : Failure) (n : ℕ) (c c' : Context) (db db' : Db)
      (work : Resource)
      → IsLive id (workspace_id_or_default c none) s db
      → attempt_of s ≡ ok (pos (suc n))
      → is_transient exc ≡ true
      → n < 2
      → fail_turn id exc c db ≡ ok (tt, db')
      → workspace_id_or_default c' none ≡ workspace_id_or_default c none
      → Distinct (ids db'.resources)
      → get_resource work_id (some work_type) none false none c' db' ≡ ok (some work, db')
      → to_str (get "session_id" work.payload) ≡ id
      → is_held work.status ≡ true
      → (wait : ℕ) × (retry_after_seconds exc (pos (suc n)) ≡ ok wait)
        × (1 ≤ wait)
        × (wait ≤ 300)
        × (db'' : Db) × (finish_execution work_id c' db' ≡ ok (tt, db''))
        × IsFreeFrom (c.now + wait * second) work_id work c' db''
  fail_turn_due id work_id s exc n c c' db db' work live has_counted transient few done same
        distinct found its held =
      elim (fail_turn-HasFailed id s exc n c db live has_counted) [
        | inr (_, _, raises) ↦ absurd cc
        | inl left ↦ elim (retry_after_seconds_bounds exc (pos (suc n))) [
          | inr (_, raises) ↦ absurd (no_wait exc n c left.session _ transient left.post raises)
          | inl (_, (wait, is, low, high)) ↦
              let t : Session = left.session in
              let (status, why, _) = rescheduled exc n wait c t transient few is left.post in
              let after : left.after ≡ db' = cc (ok_injective (sym left.returns ∙ done)) in
              let live' : IsLive id (workspace_id_or_default c' none) t db' =
                subst (λ w. IsLive id w t db') (sym same)
                  (subst (IsLive id (workspace_id_or_default c none) t) after left.live) in
              let (db'', ends, free) =
                finish_execution-reschedules work_id c' db' work t
                  (retry_reason exc (pos (suc n)) wait c) (retry_at wait c.now) distinct found
                  (subst (λ i. get_session i none c' db' ≡ ok (some t, db')) (sym its)
                    (get_session-live id t c' db' live'))
                  status why (retry_at-retry_reason exc (pos (suc n)) wait c) held in
              (wait, is, low, high, db'', ends, free)
        ]
      ]
