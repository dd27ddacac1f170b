-- ===== src/Runner/Retry/Waits.antt =====
-- How long a transient failure waits.
use open_managed_agents.Result.{crash, err, Result, ok}
use open_managed_agents.Prelude.{
  ◌≢◌, refl, ◌⊎◌, some, ◌*◌, zero, negsuc, ◌-◌, inl, arith, ◌^◌, inr, suc, pos, ◌≡◌, none, min, ◌≤◌,
  ℤ, ℕ,
}
use open_managed_agents.Runner.Failures.{
  positive_int, not_number, overflows, whole, Parsed, doublings, Failure, retry_after_seconds,
}

min_bounds : (k m : ℕ) → 1 ≤ k → 1 ≤ m → (1 ≤ min k m) × (min k m ≤ m)
min_bounds k m p q = omega arith

power_pos : (n : ℕ) → 1 ≤ 2 ^ n
power_pos zero = omega arith
power_pos (suc n) = let h : 1 ≤ 2 ^ n = power_pos n in omega arith

doublings_pos : (z : ℤ) → 1 ≤ doublings z
doublings_pos (pos n) = power_pos (n - 1)
doublings_pos (negsuc n) = omega arith

-- What a hint to wait gives: a positive number, nothing, or the error that is not caught.
positive_int-cases :
    (v : Parsed)
    → ((n : ℕ) × (v ≢ overflows) × (positive_int v ≡ ok (some (suc n))))
      ⊎ ((v ≢ overflows) × (positive_int v ≡ ok none))
      ⊎ ((v ≡ overflows) × (positive_int v ≡ err (crash "OverflowError")))
positive_int-cases not_number = inr (inl (λ e. absurd cc, refl))
positive_int-cases overflows = inr (inr (refl, refl))
positive_int-cases (whole (pos zero)) = inr (inl (λ e. absurd cc, refl))
positive_int-cases (whole (pos (suc n))) = inl (n, λ e. absurd cc, refl)
positive_int-cases (whole (negsuc n)) = inr (inl (λ e. absurd cc, refl))

bounded :
    (k : ℕ) → 1 ≤ k → (wait : ℕ) × (Result.ok (min k 300) ≡ ok wait) × (1 ≤ wait) × (wait ≤ 300)
bounded k h = let (low, high) = min_bounds k 300 h (omega arith) in (min k 300, refl, low, high)

-- The hint that is read is a number that does not fit: the exception's own, or the header's where
-- the exception has none.
abbrev pub HasHugeHint : Failure → Type 0
HasHugeHint exc =
    (exc.retry_after ≡ overflows)
    ⊎ ((positive_int exc.retry_after ≡ ok none) × (exc.retry_header ≡ overflows))

-- How the wait of an attempt is found.
abbrev pub IsWait : Failure → Result ℕ → Type 0
IsWait exc found =
    (¬ HasHugeHint exc × ((wait : ℕ) × (found ≡ ok wait) × (1 ≤ wait) × (wait ≤ 300)))
    ⊎ (HasHugeHint exc × (found ≡ err (crash "OverflowError")))

-- The wait before another attempt is at least a second and at most five minutes, unless the hint
-- that is read is a number that does not fit, infinity for one: then an OverflowError comes instead
-- of a wait.
pub retry_after_seconds_bounds :
    (exc : Failure) (attempt : ℤ) → IsWait exc (retry_after_seconds exc attempt)
unfolding retry_after_seconds
retry_after_seconds_bounds exc attempt = elim (positive_int-cases exc.retry_after) [
  | inl (n, fits, e) ↦
      rw e (
        inl
          (λ h. elim h [ inl p ↦ fits p | inr (p, _) ↦ absurd cc ], bounded (suc n) (omega arith)))
  | inr (inr (huge, e)) ↦ rw e (inr (inl huge, refl))
  | inr (inl (fits, e)) ↦ rw e (elim (positive_int-cases exc.retry_header) [
    | inl (n, small, e') ↦
        rw e' (
          inl
            (λ h. elim h [ inl p ↦ fits p | inr (_, p) ↦ small p ], bounded (suc n) (omega arith)))
    | inr (inl (small, e')) ↦ rw e' (
        inl (
          λ h. elim h [ inl p ↦ fits p | inr (_, p) ↦ small p ],
          bounded (5 * doublings attempt)
              (let h : 1 ≤ doublings attempt = doublings_pos attempt in omega arith),
        ))
    | inr (inr (huge, e')) ↦ rw e' (inr (inr (refl, huge), refl))
  ])
]
