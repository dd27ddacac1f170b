-- ===== src/EventValidation/Tests.antt =====
-- Batches of events that pass, and batches that do not.
use open_managed_agents.Fixtures.{sample_runtime}
use open_managed_agents.Json.{get, lookup}
use open_managed_agents.WorkQueue.Defs.{to_int}
use open_managed_agents.EventValidation.Batch.{validate_system_message_batch_iff, IsWellPlaced}
use open_managed_agents.Prelude.{◌↔◌, refl, ◌≡◌}
use open_managed_agents.Result.{Result}
use open_managed_agents.EventValidation.{
  pos, none, to_int, ok, http, some, get, err, judge_system, ℕ, [], validate_iterations, indexes_of,
  ◌∷◌, validate_rubric, Option, validate_user_define_outcome_event, validate_system_message_batch,
}
use open_managed_agents.Json.{int, empty, lookup, obj, str, field, Dict}

passes : validate_system_message_batch ("user.message" ∷ "system.message" ∷ []) ≡ ok tt
unfolding validate_system_message_batch indexes_of judge_system
passes = refl

abbrev status_of : Result (Unit {0}) → Option ℕ
status_of (err (http code detail)) = some code
status_of _ = none

alone : status_of (validate_system_message_batch ("system.message" ∷ [])) ≡ some 422
unfolding validate_system_message_batch indexes_of judge_system
alone = refl

too_early :
    status_of
      (validate_system_message_batch ("user.message" ∷ "system.message" ∷ "user.message" ∷ []))
    ≡ some 422
unfolding validate_system_message_batch indexes_of judge_system
too_early = refl

abbrev outcome : Dict
outcome = field "description" (str "ship it") (
    field "rubric" (obj (field "type" (str "text") (field "content" (str "works") empty)))
      (field "max_iterations" (int (pos 20)) empty))

outcome_passes : validate_user_define_outcome_event outcome ≡ ok tt
unfolding validate_user_define_outcome_event validate_rubric validate_iterations get lookup to_int
outcome_passes = refl

validate_system_message_batch_iff_example :
    (validate_system_message_batch ("user.message" ∷ "system.message" ∷ []) ≡ ok tt)
    ↔ IsWellPlaced ("user.message" ∷ "system.message" ∷ [])
validate_system_message_batch_iff_example =
    validate_system_message_batch_iff ("user.message" ∷ "system.message" ∷ [])
