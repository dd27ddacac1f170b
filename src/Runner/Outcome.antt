-- ===== src/Runner/Outcome.antt =====
-- app/runtime/runner.py: what a session's last outcome asks for, and its grading by the text that
-- the turn ended with. The score is 1.0 or 0.0; it stands here as an integer.
use open_managed_agents.Result.{ok, err}
use mathlib.Core.List.{reverse}
use open_managed_agents.WorkQueue.Defs.{to_int}
use open_managed_agents.Db.{Event}
use open_managed_agents.Json.{
  bool, empty, as_str, items, or_value, obj, arr, int, str, get, field, Value, Dict,
}
use open_managed_agents.Runtime.{to_str, Runtime}
use open_managed_agents.Prelude.{
  ltb, negsuc, if◌then◌else◌, not, or_else, some, ◌==◌, pos, first, none, [], joined, Option, ◌∷◌,
  String, ℕ, List,
}

-- `"\n".join(parts)`
abbrev pub join_lines : List String → String
join_lines [] = ""
join_lines (p ∷ []) = p
join_lines (p ∷ q ∷ ps) = joined p (joined "\n" (join_lines (q ∷ ps)))

-- The texts among the blocks of a content.
abbrev pub block_texts : List Value → List String
block_texts [] = []
block_texts (str s ∷ vs) = s ∷ block_texts vs
block_texts (obj d ∷ vs) = elim (as_str (get "text" d)) [
  | none ↦ block_texts vs
  | some t ↦ t ∷ block_texts vs
]
block_texts (_ ∷ vs) = block_texts vs

unfoldable pub text_from_payload : Dict → String
text_from_payload payload = elim (get "content" payload) [
  | str s ↦ s
  | arr vs ↦ join_lines (block_texts (items vs))
  | _ ↦ or_else (as_str (or_value (get "text" payload) (get "message" payload))) ""
]

abbrev pub latest_outcome_event : List Event → Option Event
latest_outcome_event history = first (λ e. e.type == "user.define_outcome") (reverse history)

module _ ⦃r : Runtime⦄ where
  -- `int(payload.get("max_iterations") or payload.get("max_turns") or 3)`, within 1 and 20.
  unfoldable pub max_iterations_of : Dict → ℕ
  max_iterations_of payload =
      elim (to_int (
        or_value (or_value (get "max_iterations" payload) (get "max_turns" payload))
          (int (pos 3)))) [
            | err _ ↦ 3
            | ok (negsuc n) ↦ 1
            | ok (pos n) ↦ if ltb n 1 then 1 else if ltb 20 n then 20 else n
          ]

  -- `a or b or …`
  abbrev pub first_of : List Value → Value → Value
  first_of [] last = last
  first_of (v ∷ vs) last = or_value v (first_of vs last)

  unfoldable pub objective_of : Dict → String
  objective_of payload = to_str (
      first_of
        (get "description" payload
          ∷ get "objective" payload
          ∷ get "goal" payload
          ∷ get "name" payload
          ∷ str (text_from_payload payload)
          ∷ [])
        (str "Complete the requested outcome."))

  abbrev pub rubric_of : Dict → Value
  rubric_of payload =
      first_of (get "rubric" payload ∷ get "criteria" payload ∷ []) (get "success_criteria" payload)

  unfoldable pub outcome_spec : Dict → Dict
  outcome_spec payload = field "objective" (str (objective_of payload)) (
      field "rubric" (rubric_of payload)
        (field "max_iterations" (int (pos (max_iterations_of payload))) empty))

  -- `_outcome_evaluation_from_history`, of the turn's final text.
  unfoldable pub outcome_evaluation : List Event → String → Option Dict
  outcome_evaluation history final_text = elim (latest_outcome_event history) [
    | none ↦ none
    | some event ↦
        let passed = not (r.strip final_text == "") in
        some (
          field "outcome" (obj (outcome_spec event.payload)) (
            field "result"
              (obj (
                field "type" (str "deterministic_local_grader") (
                  field "passed" (bool passed) (
                    field "score" (int (pos (if passed then 1 else 0))) (
                      field "summary"
                        (str (
                          if passed
                          then "Final response was produced."
                          else "No final response was produced."))
                        empty)))))
              (field "grader_context"
                (obj (
                  field "type" (str "local_deterministic") (
                    field "max_iterations" (int (pos (max_iterations_of event.payload)))
                      (field "rubric" (rubric_of event.payload) empty))))
                empty)))
  ]
