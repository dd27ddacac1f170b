-- ===== src/EventValidation.antt =====
-- app/event_validation.py: the checks on a batch of events before any is stored.
pub mod Batch
mod Tests
use open_managed_agents.Prelude.Int.{ltb_ℤ}
use open_managed_agents.Result.{◌>>◌, http, ok, err, Result}
use open_managed_agents.Prelude.{
  zero, [], one_of, ◌||◌, pos, ◌-◌, length, false, eqb, some, ltb, ◌==◌, not, none, if◌then◌else◌,
  suc, Option, ◌∷◌, Bool, ℕ, List,
}
use open_managed_agents.Runtime.{Runtime}
use open_managed_agents.Json.{as_dict, or_value, is_null, is_text, as_str, get, Value, Dict}
use Prim.Native.String.{String, count}
use open_managed_agents.WorkQueue.Defs.{to_int}

abbrev pub system_message_predecessors : List String
system_message_predecessors = "user.custom_tool_result" ∷ "user.message" ∷ "user.tool_result" ∷ []

-- The positions, from `i` on, at which the text stands.
unfoldable pub indexes_of : String → ℕ → List String → List ℕ
indexes_of t i [] = []
indexes_of t i (x ∷ xs) = let rest = indexes_of t (suc i) xs in if x == t then i ∷ rest else rest

-- `event_types[i]`, where the index is in range.
abbrev pub type_at : List String → ℕ → String
type_at [] i = ""
type_at (x ∷ xs) zero = x
type_at (x ∷ xs) (suc i) = type_at xs i

abbrev pub unprocessable : String → Result (Unit {0})
unprocessable detail = err (http 422 detail)

-- The checks on the positions of the system messages.
unfoldable pub judge_system : List String → List ℕ → Result (Unit {0})
judge_system types [] = ok tt
judge_system types (i ∷ j ∷ is) =
    unprocessable "At most one system.message event is allowed per request"
judge_system types (i ∷ []) =
    if not (eqb i (length types - 1))
    then unprocessable "system.message must be the final event in the request"
    else if eqb i 0 || not (one_of (type_at types (i - 1)) system_message_predecessors)
    then unprocessable
        "system.message must immediately follow user.message, user.tool_result, or user.custom_tool_result"
    else ok tt

unfoldable pub validate_system_message_batch : List String → Result (Unit {0})
validate_system_message_batch types = judge_system types (indexes_of "system.message" 0 types)

abbrev pub max_outcome_rubric_text_chars : ℕ
max_outcome_rubric_text_chars = 262_144

abbrev pub max_outcome_iterations : ℕ
max_outcome_iterations = 20

-- A text that is not empty.
abbrev pub full_text : Value → Option String
full_text v = elim (as_str v) [ none ↦ none | some s ↦ if s == "" then none else some s ]

unfoldable pub validate_rubric : Dict → Result (Unit {0})
validate_rubric rubric =
    let kind = get "type" rubric in
    if is_text kind "text"
    then (elim (full_text (get "content" rubric)) [
      | none ↦ unprocessable "user.define_outcome rubric.content must be a non-empty string"
      | some content ↦
          if ltb max_outcome_rubric_text_chars (count content)
          then unprocessable "user.define_outcome rubric.content is too long"
          else ok tt
    ])
    else if is_text kind "file"
    then (elim (full_text (get "file_id" rubric)) [
      | none ↦ unprocessable "user.define_outcome rubric.file_id must be a non-empty string"
      | some id ↦ ok tt
    ])
    else unprocessable "user.define_outcome rubric.type must be \"text\" or \"file\""

module _ ⦃r : Runtime⦄ where
  unfoldable pub validate_iterations : Value → Result (Unit {0})
  validate_iterations v = if is_null v then ok tt else (elim (to_int v) [
    | err e ↦ unprocessable "user.define_outcome max_iterations must be an integer"
    | ok z ↦
        if ltb_ℤ z (pos 1) || ltb_ℤ (pos max_outcome_iterations) z
        then unprocessable "user.define_outcome max_iterations must be between 1 and 20"
        else ok tt
  ])

  -- `isinstance(description, str)` and not blank.
  abbrev pub is_described : Value → Bool
  is_described v = elim (as_str v) [ none ↦ false | some s ↦ not (r.strip s == "") ]

  unfoldable pub validate_user_define_outcome_event : Dict → Result (Unit {0})
  validate_user_define_outcome_event payload =
      if not (is_described (or_value (get "description" payload) (get "objective" payload)))
      then unprocessable "user.define_outcome requires a non-empty description"
      else (elim (as_dict (get "rubric" payload)) [
        | none ↦ unprocessable "user.define_outcome requires a rubric object"
        | some rubric ↦ validate_rubric rubric >> validate_iterations (get "max_iterations" payload)
      ])
