-- ===== src/Runner/Retry/Revives.antt =====
-- What a transient failure lets the session do meanwhile.
use open_managed_agents.Runner.Retry.Waits.{HasHugeHint}
use open_managed_agents.Runner.Retry.Outcome.{fail_turn-HasFailed}
use open_managed_agents.Result.{ok}
use open_managed_agents.Runner.Retry.{fail_turn, attempt_of}
use open_managed_agents.Sessions.Live.{weaken-Leaves, Leaves, IsLive}
use open_managed_agents.Db.{workspace_id_or_default, Db, Context, Session}
use open_managed_agents.Json.{lookup, get}
use open_managed_agents.SessionState.{stop_reason_type, is_waiting_for_action, can_start_work}
use open_managed_agents.Runtime.{Runtime}
use open_managed_agents.Prelude.{refl, inl, arith, inr, ◌<◌, true, suc, pos, ◌≡◌, none, String, ℕ}
use open_managed_agents.Runner.Failures.{is_transient, Failure}

module _ ⦃r : Runtime⦄ where
  -- A transient failure that found fewer than two attempts counted, and whose hint to wait is no
  -- number that does not fit, lets work start again, whatever the session's status and stop reason
  -- are that the transaction finds: also that of a session that was cancelled while the turn ran.
  pub fail_turn_revives :
      (id : String) (s : Session) (exc : Failure) (n : ℕ) (c : Context) (db : Db)
      → IsLive id (workspace_id_or_default c none) s db
      → attempt_of s ≡ ok (pos (suc n))
      → is_transient exc ≡ true
      → n < 2
      → ¬ HasHugeHint exc
      → Leaves id
          (workspace_id_or_default c none)
          (λ _ s' _. can_start_work s'.status s'.stop_reason ≡ true)
          (fail_turn id exc c db)
  unfolding can_start_work is_waiting_for_action stop_reason_type get lookup
  fail_turn_revives id s exc n c db h counted t few fits =
      elim (fail_turn-HasFailed id s exc n c db h counted) [
        | inl left ↦ weaken-Leaves left (λ _ s' _ failed. elim failed [
          | inl (_, (_, _, inl (_, (its, why, _)))) ↦ rw (its, why) refl
          | inl (_, (_, _, inr (many, _))) ↦ absurd (omega arith)
          | inr (p, _) ↦ absurd cc
        ])
        | inr (_, huge, _) ↦ absurd (fits huge)
      ]
