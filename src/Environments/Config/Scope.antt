-- ===== src/Environments/Config/Scope.antt =====
-- The scope in an environment's config.
use mathlib.Core.Path.{sym, subst}
use open_managed_agents.Json.Fields.{get-put, lookup-put}
use open_managed_agents.Prelude.{refl, eq_iff, arith, inr, ◌∙◌, Bool-cases, inl, ◌⊎◌, ◌≢◌, ◌∷◌, ◌≡◌}
use open_managed_agents.Environments.Config.{
  http, false, Result, err, get, some, [], one_of, ok, true, field, str, Value, put, String, get_or,
  environment_scope, environment_config_with_scope, validate_environment_config,
}
use open_managed_agents.Runtime.{Runtime}
use open_managed_agents.Json.{is_text, Dict}
use open_managed_agents.Result.{Error}

-- The config allows the scope: it is for self-hosted environments.
abbrev pub IsSelfHosted : Dict → Type 0
IsSelfHosted d = is_text (get_or "type" (str "cloud") d) "self_hosted" ≡ true

module _ ⦃r : Runtime⦄ where
  pub validated-put_scope :
      (d : Dict) (scope : String)
      → validate_environment_config (put "_scope" (str scope) d) ≡ validate_environment_config d
  unfolding validate_environment_config
  validated-put_scope d scope = simp (lookup-put, get-put)

  -- What putting a scope into a config comes to.
  abbrev pub IsScoped : Dict → String → Result Dict → Type 0
  IsScoped d scope q =
      ((stored : Dict) × (q ≡ ok stored)
        × IsSelfHosted stored
        × (validate_environment_config stored ≡ ok tt)
        × (environment_scope stored ≡ some scope)
        × ((j : String) → j ≢ "_scope" → get j stored ≡ get j d))
      ⊎ ((e : Error) × (q ≡ err e)
          × (is_text (get_or "type" (str "cloud") d) "self_hosted" ≡ false))

  put_scope-IsScoped :
      (d : Dict) (scope : String)
      → validate_environment_config d ≡ ok tt
      → one_of scope ("organization" ∷ "account" ∷ []) ≡ true
      → IsSelfHosted d
      → IsScoped d scope (ok (put "_scope" (str scope) d))
  unfolding environment_scope
  put_scope-IsScoped d scope valid known hosted = inl (
    put "_scope" (str scope) d,
    refl,
    rw (lookup-put "type" "_scope" (str scope) d) hosted,
    validated-put_scope d scope ∙ valid,
    ground (arith, get-put "_scope" "_scope" (str scope) d, known),
    λ j other. ground (arith, get-put j "_scope" (str scope) d, eq_iff "_scope" j),
  )

  -- Where a scope is put into a config that passes the checks, the config is for a self-hosted
  -- environment, what is stored passes them too, and the scope that is read back is the one put
  -- there; every other key reads as before. Where it is refused, the config is for another kind of
  -- environment.
  pub environment_config_with_scope-IsScoped :
      (k : String) (v : Value) (d : Dict) (scope : String)
      → validate_environment_config (field k v d) ≡ ok tt
      → one_of scope ("organization" ∷ "account" ∷ []) ≡ true
      → IsScoped
          (field k v d)
          scope
          (environment_config_with_scope (some (field k v d)) (some scope))
  unfolding environment_config_with_scope
  environment_config_with_scope-IsScoped k v d scope valid known =
      let whole : Dict = field k v d in
      let q : Result Dict = environment_config_with_scope (some whole) (some scope) in
      elim (Bool-cases (is_text (get_or "type" (str "cloud") whole) "self_hosted")) [
        | inl hosted ↦
            let e : q ≡ ok (put "_scope" (str scope) whole) = rw hosted refl in
            subst (IsScoped whole scope) (sym e) (put_scope-IsScoped whole scope valid known hosted)
        | inr p ↦ inr (
          http 422 "environment scope is only supported for self_hosted environments",
          rw p refl,
          p,
        )
      ]
