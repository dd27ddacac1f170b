-- ===== src/Sessions/Actions/Results.antt =====
-- Which batches of action results pass.
use open_managed_agents.Sessions.Actions.{
  judge_results, err, map_ok, Result, judge_blocker, target_of,
  validate_action_result_matches_blocker, reverse, resolved_action_ids, model_dump, ok,
  judge_result, EventInput,
}
use open_managed_agents.Db.{Event}
use open_managed_agents.Prelude.{
  ◌∙◌, ap, eq_iff, ◌↔◌, All, arith, refl, none, Option, ◌==◌, first, true, some, [], false, ◌≡◌,
  one_of, ◌∷◌, String, List,
}
use open_managed_agents.Runtime.{Runtime}

matched : (q : Result (Unit {0})) {t u : String} → map_ok (λ _. t) q ≡ ok u → (u ≡ t) × (q ≡ ok tt)
matched (ok x) h = (cc, refl)
matched (err e) h = cc

module _ ⦃r : Runtime⦄ (pending : List String) (history : List Event) where
  -- The input answers the blocking event `t`: it names it, `t` is pending and not resolved by the
  -- history, and the latest event of that id is one that such a result may answer.
  abbrev pub IsAnswer : EventInput → String → Type 0
  IsAnswer i t =
      (target_of i ≡ some t)
      × (one_of t pending ≡ true)
      × (one_of t (resolved_action_ids history) ≡ false)
      × ((blocker : Event) × (first (λ e. e.id == t) (reverse history) ≡ some blocker)
          × (validate_action_result_matches_blocker i.type (model_dump i) blocker.type ≡ ok tt))

  -- One target for each input.
  abbrev pub AreAnswers : List EventInput → List String → Type 0
  AreAnswers [] [] = Unit
  AreAnswers [] (t ∷ ts) = ⊥
  AreAnswers (i ∷ is) [] = ⊥
  AreAnswers (i ∷ is) (t ∷ ts) = IsAnswer i t × AreAnswers is ts

  abbrev pub AreDistinct : List String → Type 0
  AreDistinct [] = Unit
  AreDistinct (t ∷ ts) = (one_of t ts ≡ false) × AreDistinct ts

  blocker_found :
      (i : EventInput) (t u : String) (o : Option Event)
      → judge_blocker i t o ≡ ok u
      → (u ≡ t)
        × ((blocker : Event) × (o ≡ some blocker)
            × (validate_action_result_matches_blocker i.type (model_dump i) blocker.type ≡ ok tt))
  unfolding judge_blocker
  blocker_found i t u none h = cc
  blocker_found i t u (some blocker) h =
      let (same, passed) =
        matched (validate_action_result_matches_blocker i.type (model_dump i) blocker.type) h in
      (same, (blocker, refl, passed))

  no_target :
      (batch : List String) (i : EventInput) (t : String)
      → judge_result pending history batch i none ≡ ok t
      → ⊥
  unfolding judge_result
  no_target batch i t h = cc

  guards :
      (batch : List String) (i : EventInput) (t u : String)
      → judge_result pending history batch i (some u) ≡ ok t
      → (one_of u pending ≡ true)
        × (one_of u (resolved_action_ids history) ≡ false)
        × (one_of u batch ≡ false)
        × (judge_blocker i u (first (λ e. e.id == u) (reverse history)) ≡ ok t)
  unfolding judge_result
  guards batch i t u h = ground arith

  judge_result-IsAnswer :
      (batch : List String) (i : EventInput) (t : String) (o : Option String)
      → target_of i ≡ o
      → judge_result pending history batch i o ≡ ok t
      → IsAnswer i t × (one_of t batch ≡ false)
  judge_result-IsAnswer batch i t none e h = absurd (no_target batch i t h)
  judge_result-IsAnswer batch i t (some u) e h =
      let (p, fresh, new, found) = guards batch i t u h in
      let (same, blocker) = blocker_found i u t (first (λ e. e.id == u) (reverse history)) found in
      rw same ((e, p, fresh, blocker), new)

  judged_answer :
      (batch : List String) (i : EventInput) (t : String)
      → IsAnswer i t
      → one_of t batch ≡ false
      → judge_result pending history batch i (target_of i) ≡ ok t
  unfolding judge_result judge_blocker
  judged_answer batch i t (target, p, fresh, (blocker, there, matches)) new =
      rw (target, p, fresh, new, there, matches)

  -- The targets are pairwise distinct, and none stands in `batch`.
  abbrev AreNew : List String → List String → Type 0
  AreNew batch ts = AreDistinct ts × All (λ t. one_of t batch ≡ false) ts

  new_cons :
      (batch : List String) (t : String) (ts : List String)
      → All (λ u. one_of u (t ∷ batch) ≡ false) ts
      → (one_of t ts ≡ false) × All (λ u. one_of u batch ≡ false) ts
  new_cons batch t [] h = (refl, tt)
  new_cons batch t (x ∷ xs) h =
      let (not_in, rest) = new_cons batch t xs h.1 in
      (ground (arith, eq_iff x t, eq_iff t x, h.0, not_in), (ground (arith, h.0), rest))

  new_tail :
      (batch : List String) (t : String) (ts : List String)
      → one_of t ts ≡ false
      → All (λ u. one_of u batch ≡ false) ts
      → All (λ u. one_of u (t ∷ batch) ≡ false) ts
  new_tail batch t [] e h = tt
  new_tail batch t (x ∷ xs) e h =
      (ground (arith, eq_iff x t, eq_iff t x, h.0), new_tail batch t xs (ground arith) h.1)

  new_to_none : (ts : List String) → All (λ u. one_of u [] ≡ false) ts
  new_to_none [] = tt
  new_to_none (t ∷ ts) = (refl, new_to_none ts)

  next_result :
      (batch : List String) (is : List EventInput) (q : Result String)
      → (elim q [ err e ↦ err e | ok t ↦ judge_results pending history (t ∷ batch) is ]) ≡ ok tt
      → (t : String) × (q ≡ ok t) × (judge_results pending history (t ∷ batch) is ≡ ok tt)
  next_result batch is (err e) h = cc
  next_result batch is (ok t) h = (t, refl, h)

  judge_results-AreAnswers :
      (batch : List String) (is : List EventInput)
      → judge_results pending history batch is ≡ ok tt
      → (ts : List String) × AreAnswers is ts × AreNew batch ts
  unfolding judge_results
  judge_results-AreAnswers batch [] h = ([], tt, (tt, tt))
  judge_results-AreAnswers batch (i ∷ is) h =
      let (t, here, rest) =
        next_result batch is (judge_result pending history batch i (target_of i)) h in
      let (ts, answers, (distinct, new)) = judge_results-AreAnswers (t ∷ batch) is rest in
      let (not_in, new_here) = new_cons batch t ts new in
      let (answer, fresh) = judge_result-IsAnswer batch i t (target_of i) refl here in
      (t ∷ ts, (answer, answers), ((not_in, distinct), (fresh, new_here)))

  judged_answers :
      (batch : List String) (is : List EventInput) (ts : List String)
      → AreAnswers is ts
      → AreNew batch ts
      → judge_results pending history batch is ≡ ok tt
  unfolding judge_results
  judged_answers batch [] [] h new = refl
  judged_answers batch [] (t ∷ ts) h new = absurd h
  judged_answers batch (i ∷ is) [] h new = absurd h
  judged_answers batch (i ∷ is) (t ∷ ts) h new =
      ap
        (λ (q : Result String). elim q [
          | err e ↦ err e
          | ok u ↦ judge_results pending history (u ∷ batch) is
        ])
        (judged_answer batch i t h.0 new.1.0)
      ∙ judged_answers (t ∷ batch) is ts h.1 (new.0.1, new_tail batch t ts new.0.0 new.1.1)

  -- A batch of action results passes, against the pending ids and the events of the session,
  -- exactly if each result has its own target: no two have the same; each target is a pending id
  -- that no result of the history has resolved; and the latest event of that id is of a type that
  -- the result may answer.
  pub judge_results_iff :
      (is : List EventInput)
      → (judge_results pending history [] is ≡ ok tt)
        ↔ ((ts : List String) × AreAnswers is ts × AreDistinct ts)
  judge_results_iff is = (
    λ h.
        let (ts, answers, (distinct, _)) = judge_results-AreAnswers [] is h in
        (ts, answers, distinct),
    λ (ts, answers, distinct). judged_answers [] is ts answers (distinct, new_to_none ts),
  )
