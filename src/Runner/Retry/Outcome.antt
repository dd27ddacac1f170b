-- ===== src/Runner/Retry/Outcome.antt =====
-- How a failed turn leaves its session.
use open_managed_agents.Runner.Retry.Waits.{HasHugeHint, retry_after_seconds_bounds}
use open_managed_agents.Json.Fields.{get-put}
use open_managed_agents.Result.{crash, err, Result, ok}
use open_managed_agents.SessionState.{stop_reason_type}
use open_managed_agents.Json.{int, obj, get, lookup}
use open_managed_agents.WorkQueue.Defs.{next_attempt, to_int}
use open_managed_agents.Exec.{when_false, when_true, Action, pure}
use open_managed_agents.Sessions.Store.{changed_session}
use open_managed_agents.Sessions.Events.{counted}
use open_managed_agents.Prelude.{
  ◌+◌, inr, arith, none, inl, ltb, Bool-cases, zero, false, ◌≤◌, ◌⊎◌, ◌<◌, suc, pos, true, refl, ℤ,
  some, ℕ, ap, ◌∙◌, ◌≡◌,
}
use open_managed_agents.Sessions.Live.{
  with_session, at-Leaves, weaken-Leaves, pure-Leaves, append_event-live, update_session-live,
  bind-Leaves, IsLive, Leaves,
}
use open_managed_agents.Exec.{◌>>=◌}
use open_managed_agents.Db.{workspace_id_or_default, rescheduling, terminated, Db}
use open_managed_agents.Runner.Retry.{
  give_up_or_reschedule, retry_after_seconds, fail_turn_found, fail_turn, dict_or_empty,
  mark_transient_runtime_failure, retry_details, attempt_of, retry_reason, is_transient, reschedule,
  details_with_retry, give_up, terminate, Failure, next_attempt, append_event, update_session,
  Context, Dict, SessionChanges, Session, String, leave_failed,
}
use open_managed_agents.Runtime.{Runtime}

module _ ⦃r : Runtime⦄ where
  leave_failed-Leaves :
      (id ws : String) (s : Session) (ch : SessionChanges) (error : Dict) (type : String)
      (status : Dict) (c : Context) (db : Db)
      → IsLive id ws s db
      → Leaves id ws
          (λ _ s' _. s' ≡ counted (counted (changed_session ch c.now s) c) c)
          (leave_failed s ch error type status c db)
  unfolding leave_failed
  leave_failed-Leaves id ws s ch error type status c db h =
      bind-Leaves (update_session s ch)
        (λ s1. append_event s1 "session.error" error >>= λ x2.
          append_event x2.1 type status >>= λ _. pure tt)
        c db (update_session-live s ch c db h)
        (λ s1 t1 db1 live1 (same1, is1, _). rw same1 (
          bind-Leaves (append_event t1 "session.error" error)
            (λ x2. append_event x2.1 type status >>= λ _. pure tt) c db1
            (append_event-live t1 "session.error" error c db1 live1)
            (λ x2 t2 db2 live2 (same2, has2). rw same2 (
              bind-Leaves (append_event t2 type status) (λ _. pure tt) c db2
                (append_event-live t2 type status c db2 live2)
                (λ x3 t3 db3 live3 (same3, has3). pure-Leaves tt t3 db3 live3 (
                  has3.counts
                  ∙ ap (λ t. counted t c) (has2.counts ∙ ap (λ t. counted t c) is1)))))))

  -- Another attempt is to come, and is counted.
  abbrev pub IsRescheduled : Failure → ℕ → ℕ → Context → Session → Type 0
  IsRescheduled exc n wait c s =
      (s.status ≡ rescheduling)
      × (s.stop_reason ≡ some (retry_reason exc (pos (suc n)) wait c))
      × (attempt_of s ≡ ok (pos (suc (suc n))))

  -- The session is at its end, with an error as the reason.
  abbrev pub IsFailed : Session → Type 0
  IsFailed s = (s.status ≡ terminated) × (stop_reason_type s.stop_reason ≡ some "error")

  -- The end of a failed turn, which found `n` attempts counted.
  abbrev pub HasFailed : Failure → ℕ → Context → Session → Type 0
  HasFailed exc n c s =
      ((is_transient exc ≡ true)
        × ((wait : ℕ) × (retry_after_seconds exc (pos (suc n)) ≡ ok wait)
            × (((n < 2) × IsRescheduled exc n wait c s) ⊎ ((2 ≤ n) × IsFailed s))))
      ⊎ ((is_transient exc ≡ false) × IsFailed s)

  -- A transient failure whose hint to wait does not fit, and the error that it makes of the call.
  abbrev pub IsLost : Failure → Result (Unit {0} × Db) → Type 0
  IsLost exc q = (is_transient exc ≡ true) × HasHugeHint exc × (q ≡ err (crash "OverflowError"))

  next_attempt_pos :
      (n : ℕ) (d : Dict) → get "attempt" d ≡ int (pos n) → next_attempt d ≡ ok (pos (suc n))
  unfolding next_attempt to_int
  next_attempt_pos zero d e = rw e
  next_attempt_pos (suc n) d e =
      rw e (let q : suc n + 1 ≡ suc (suc n) = omega arith in ap (λ (k : ℕ). ok (pos k)) q)

  attempt-retry_details :
      (exc : Failure) (n : ℤ) (wait : ℕ) (c : Context)
      → get "attempt" (retry_details exc n wait c) ≡ int n
  unfolding get lookup
  attempt-retry_details exc n wait c = refl

  counted_attempt :
      (s : Session) (exc : Failure) (n wait : ℕ) (c : Context)
      → next_attempt (dict_or_empty (get "runtime_retry" (details_with_retry s exc (pos n) wait c)))
        ≡ ok (pos (suc n))
  counted_attempt s exc n wait c =
      rw
        (get-put "runtime_retry" "runtime_retry" (obj (retry_details exc (pos n) wait c))
          s.status_details)
        (next_attempt_pos n (retry_details exc (pos n) wait c)
          (attempt-retry_details exc (pos n) wait c))

  reschedule-IsRescheduled :
      (id ws : String) (s : Session) (exc : Failure) (n wait : ℕ) (c : Context) (db : Db)
      → IsLive id ws s db
      → Leaves id ws
          (λ _ s' _. IsRescheduled exc n wait c s')
          (reschedule s exc (pos (suc n)) wait c db)
  unfolding changed_session
  reschedule-IsRescheduled id ws s exc n wait c db h =
      weaken-Leaves (leave_failed-Leaves id ws s _ _ _ _ c db h)
        (λ _ s' db' e. rw e (refl, refl, counted_attempt s exc (suc n) wait c))

  give_up-IsFailed :
      (id ws : String) (s : Session) (exc : Failure) (n : ℤ) (wait : ℕ) (c : Context) (db : Db)
      → IsLive id ws s db
      → Leaves id ws (λ _ s' _. IsFailed s') (give_up s exc n wait c db)
  unfolding changed_session stop_reason_type get lookup
  give_up-IsFailed id ws s exc n wait c db h =
      weaken-Leaves (leave_failed-Leaves id ws s _ _ _ _ c db h) (λ _ s' db' e. rw e (refl, refl))

  terminate-IsFailed :
      (id ws : String) (s : Session) (exc : Failure) (c : Context) (db : Db)
      → IsLive id ws s db
      → Leaves id ws (λ _ s' _. IsFailed s') (terminate s exc c db)
  unfolding changed_session stop_reason_type get lookup
  terminate-IsFailed id ws s exc c db h =
      weaken-Leaves (leave_failed-Leaves id ws s _ _ _ _ c db h) (λ _ s' db' e. rw e (refl, refl))

  attempted-HasFailed :
      (id ws : String) (s : Session) (exc : Failure) (n wait : ℕ) (c : Context) (db : Db)
      → IsLive id ws s db
      → is_transient exc ≡ true
      → retry_after_seconds exc (pos (suc n)) ≡ ok wait
      → Leaves id ws
          (λ _ s' _. HasFailed exc n c s')
          (give_up_or_reschedule s exc (pos (suc n)) wait c db)
  attempted-HasFailed id ws s exc n wait c db h t found = elim (Bool-cases (ltb (suc n) 3)) [
    | inl more ↦ rw more (
        weaken-Leaves (reschedule-IsRescheduled id ws s exc n wait c db h)
          (λ _ s' _ left. inl (t, (wait, found, inl (ground arith, left)))))
    | inr last ↦ rw last (
        weaken-Leaves (give_up-IsFailed id ws s exc (pos (suc n)) wait c db h)
          (λ _ s' _ left. inl (t, (wait, found, inr (ground arith, left)))))
  ]

  mark_transient-HasFailed :
      (id ws : String) (s : Session) (exc : Failure) (n : ℕ) (c : Context) (db : Db)
      → IsLive id ws s db
      → attempt_of s ≡ ok (pos (suc n))
      → is_transient exc ≡ true
      → Leaves id ws (λ _ s' _. HasFailed exc n c s') (mark_transient_runtime_failure s exc c db)
        ⊎ IsLost exc (mark_transient_runtime_failure s exc c db)
  unfolding mark_transient_runtime_failure
  mark_transient-HasFailed id ws s exc n c db h has_counted t =
      elim (retry_after_seconds_bounds exc (pos (suc n))) [
        | inl (_, (wait, found, _, _)) ↦
            let e : mark_transient_runtime_failure s exc c db
                ≡ give_up_or_reschedule s exc (pos (suc n)) wait c db =
              rw (has_counted, found) refl in
            inl (at-Leaves e (attempted-HasFailed id ws s exc n wait c db h t found))
        | inr (huge, raises) ↦ inr (t, huge, rw (has_counted, raises) refl)
      ]

  -- A failed turn of a stored session ends in one of three ways, or raises: a transient failure that
  -- found fewer than two attempts counted leaves the session rescheduling, with the moment to retry
  -- at in its reason and the attempt counted; one that found two or more, and any other failure,
  -- leave it terminated with an error. A transient failure whose hint to wait is a number that does
  -- not fit raises an OverflowError, whatever was counted.
  pub fail_turn-HasFailed :
      (id : String) (s : Session) (exc : Failure) (n : ℕ) (c : Context) (db : Db)
      → IsLive id (workspace_id_or_default c none) s db
      → attempt_of s ≡ ok (pos (suc n))
      → Leaves id
          (workspace_id_or_default c none)
          (λ _ s' _. HasFailed exc n c s')
          (fail_turn id exc c db)
        ⊎ IsLost exc (fail_turn id exc c db)
  unfolding fail_turn fail_turn_found
  fail_turn-HasFailed id s exc n c db h counted =
      let ws : String = workspace_id_or_default c none in
      let retry : Action (Unit {0}) = mark_transient_runtime_failure s exc in
      let found = with_session id s (fail_turn_found exc) c db h in
      elim (Bool-cases (is_transient exc)) [
        | inl t ↦
            let e = found ∙ when_true retry (terminate s exc) c db (is_transient exc) t in
            elim (mark_transient-HasFailed id ws s exc n c db h counted t) [
              | inl left ↦ inl (at-Leaves e left)
              | inr (_, huge, raises) ↦ inr (t, huge, e ∙ raises)
            ]
        | inr p ↦ inl (
            at-Leaves (found ∙ when_false retry (terminate s exc) c db (is_transient exc) p) (
              weaken-Leaves (terminate-IsFailed id ws s exc c db h) (λ _ s' _ left. inr (p, left))))
      ]
