-- ===== src/Agents/Update/Merge.antt =====
-- What the configuration of an update keeps of the active version.
use mathlib.Core.Path.{ap, subst}
use open_managed_agents.Json.{null, bool, Dict}
use open_managed_agents.Db.{AgentVersion}
use open_managed_agents.Agents.Update.{
  unprocessable, arr, int, present_or, str, obj, merge_metadata, normalize_agent_model,
  normalize_agent_name, merged_config, merged_metadata, merged_model, merged_name, if_present, ok,
  lookup, Result, AgentConfig, Value, merge_agent_update,
}
use open_managed_agents.Runtime.{Runtime}
use open_managed_agents.Result.{ok_injective, ◌>>=◌, next-eq-ok}
use open_managed_agents.Prelude.{
  refl, eq_iff, arith, inr, inl, ◌==◌, Bool-cases, ◌∙◌, sym, ◌≢◌, ◌≡◌, String, none, some,
}

absent {ℓ} :
    {A : Type ℓ} (key : String) (update : Dict) (old : A) (new : Value → A)
    → lookup key update ≡ none
    → if_present key update old new ≡ old
absent key update old new h = ap (λ o. present_or o old new) h

module _ ⦃r : Runtime⦄ where
  -- A field that the update does not name keeps its value.
  pub record KeepsAbsent (active : AgentVersion) (update : Dict) (cfg : AgentConfig) : Type 0 where
    pub name : lookup "name" update ≡ none → cfg.name ≡ active.name
    pub model : lookup "model" update ≡ none → cfg.model ≡ active.model
    pub system : lookup "system" update ≡ none → cfg.system ≡ active.system
    pub description : lookup "description" update ≡ none → cfg.description ≡ active.description
    pub tools : lookup "tools" update ≡ none → cfg.tools ≡ active.tools
    pub mcp_servers : lookup "mcp_servers" update ≡ none → cfg.mcp_servers ≡ active.mcp_servers
    pub skills : lookup "skills" update ≡ none → cfg.skills ≡ active.skills
    pub multiagent : lookup "multiagent" update ≡ none → cfg.multiagent ≡ active.multiagent
    pub metadata : lookup "metadata" update ≡ none → cfg.metadata ≡ active.metadata
    pub runtime : lookup "runtime" update ≡ none → cfg.runtime ≡ active.runtime

  kept {ℓ} :
      {A : Type ℓ} (key : String) (update : Dict) (old : A) (new : Value → Result A) (a : A)
      → if_present key update (ok old) new ≡ ok a
      → lookup key update ≡ none
      → a ≡ old
  kept key update old new a h e = ok_injective (sym h ∙ absent key update (ok old) new e)

  full_name : (v : Value) (name : String) → normalize_agent_name v ≡ ok name → name ≢ ""
  unfolding normalize_agent_name
  full_name (str s) name h = elim (Bool-cases (r.strip s == "")) [
    | inl t ↦
        let q : unprocessable "name must be a non-empty string" ≡ ok name = sym (rw t refl) ∙ h in
        absurd cc
    | inr p ↦
        let q : ok (r.strip s) ≡ ok name = sym (rw p refl) ∙ h in
        let same : r.strip s ≡ name = ok_injective q in
        λ e. ground (arith, eq_iff (r.strip s) "", same, e)
  ]
  full_name null name h = absurd cc
  full_name (bool b) name h = absurd cc
  full_name (int z) name h = absurd cc
  full_name (arr vs) name h = absurd cc
  full_name (obj d) name h = absurd cc

  -- Where the configuration of an update is accepted, each field that the update does not name has
  -- the active version's value, and the name is not empty if the update names it.
  pub merge_agent_update-Keeps :
      (active : AgentVersion) (update : Dict) (cfg : AgentConfig)
      → merge_agent_update active update ≡ ok cfg
      → KeepsAbsent active update cfg
        × ((v : Value) → lookup "name" update ≡ some v → cfg.name ≢ "")
  unfolding merge_agent_update
  merge_agent_update-Keeps active update cfg h =
      let (name, n, h1) =
        next-eq-ok (merged_name active update)
          (λ name. merged_model active update >>= λ model.
            merged_metadata active update >>= λ metadata.
            ok (merged_config active update name model metadata))
          h in
      let (model, m, h2) =
        next-eq-ok (merged_model active update)
          (λ model. merged_metadata active update >>= λ metadata.
            ok (merged_config active update name model metadata))
          h1 in
      let (metadata, d, h3) =
        next-eq-ok (merged_metadata active update)
          (λ metadata. ok (merged_config active update name model metadata)) h2 in
      subst
        (λ (x : AgentConfig).
          KeepsAbsent active update x × ((v : Value) → lookup "name" update ≡ some v → x.name ≢ ""))
        (ok_injective h3)
        (
          record {
            name = kept "name" update active.name normalize_agent_name name n;
            model = kept "model" update active.model normalize_agent_model model m;
            system = absent "system" update _ _;
            description = absent "description" update _ _;
            tools = absent "tools" update _ _;
            mcp_servers = absent "mcp_servers" update _ _;
            skills = absent "skills" update _ _;
            multiagent = absent "multiagent" update _ _;
            metadata =
                kept "metadata" update active.metadata (merge_metadata (obj active.metadata))
                  metadata d;
            runtime = absent "runtime" update _ _;
          },
          λ v e.
              full_name v name
                (sym (ap (λ o. present_or o (ok active.name) normalize_agent_name) e) ∙ n),
        )
