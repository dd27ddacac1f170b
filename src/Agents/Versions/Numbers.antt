-- ===== src/Agents/Versions/Numbers.antt =====
-- What an update of an agent does to its versions.
use mathlib.Core.Path.{sym, subst}
use open_managed_agents.Result.{Result}
use open_managed_agents.Agents.Versions.{
  pure, update_active, version_row, update_agent, get_active_agent_version, next_agent, crash,
  write_agent, err, [], ok, has_number, same_config, suc, any, Db, Context, AgentConfig, List,
  add_version,
}
use open_managed_agents.Agents.{
  one_or_none, check, workspace_id_or_default, Option, ℕ, keep, String, is_agent_version,
  get_agent_version,
}
use open_managed_agents.Runtime.{Runtime}
use open_managed_agents.Db.{workspace_id_or_default, Agent, AgentVersion}
use open_managed_agents.Exec.{when_false, bind-ok, check_keeps}
use open_managed_agents.Prelude.{
  eq_self, eq_iff, ◌≢◌, refl, ◌∙◌, arith, inr, ap, inl, Bool-cases, ◌⊎◌, ◌∷◌, ◌++◌, ◌≡◌, Bool, some,
  true, false,
}

keep-refused :
    (p : AgentVersion → Bool) (v : AgentVersion) (xs : List AgentVersion)
    → p v ≡ false
    → keep p (xs ++ v ∷ []) ≡ keep p xs
keep-refused p v [] h = rw h refl
keep-refused p v (x ∷ xs) h = elim (Bool-cases (p x)) [
  | inl t ↦ rw t (ap (λ l. x ∷ l) (keep-refused p v xs h))
  | inr q ↦ rw q (keep-refused p v xs h)
]

keep-only :
    (p q : AgentVersion → Bool) (v : AgentVersion) (xs : List AgentVersion)
    → p v ≡ true
    → ((x : AgentVersion) → p x ≡ true → q x ≡ true)
    → any q xs ≡ false
    → keep p (xs ++ v ∷ []) ≡ v ∷ []
keep-only p q v [] h implied free = rw h refl
keep-only p q v (x ∷ xs) h implied free = elim (Bool-cases (p x)) [
  | inl t ↦ absurd (ground (arith, implied x t, free))
  | inr n ↦ rw n (keep-only p q v xs h implied (ground (arith, free)))
]

module _ ⦃r : Runtime⦄ where
  -- The version was added: its number is the next one, it is the active one of the agent's new row,
  -- and every other version reads as before.
  pub record IsAdded (agent : Agent) (cfg : AgentConfig) (c : Context) (db : Db) (v : AgentVersion)
      (db' : Db) : Type 0 where
    pub number : v.version ≡ suc agent.active_version
    pub versions : db'.agent_versions ≡ db.agent_versions ++ v ∷ []
    pub agents : db'.agents ≡ write_agent (next_agent agent cfg c) db.agents
    pub now_active :
        (c' : Context) → get_active_agent_version (next_agent agent cfg c) c' db' ≡ ok (some v, db')
    pub others_stay :
        (id : String) (n : ℕ) (ws : Option String) (c' : Context) (found : Option AgentVersion)
        → has_number id n v ≡ false
        → get_agent_version id n ws c' db ≡ ok (found, db)
        → get_agent_version id n ws c' db' ≡ ok (found, db')

  -- How an update ends, where the agent has its active version.
  abbrev pub HasUpdated :
      Agent
      → AgentConfig
      → AgentVersion
      → Context
      → Db
      → Result ((AgentVersion × Bool) × Db)
      → Type 0
  HasUpdated agent cfg active c db q =
      ((same_config active cfg ≡ true) × (q ≡ ok ((active, false), db)))
      ⊎ ((same_config active cfg ≡ false)
          × (any (has_number agent.id (suc agent.active_version)) db.agent_versions ≡ true)
          × (q ≡ err (crash "IntegrityError")))
      ⊎ ((same_config active cfg ≡ false)
          × ((v : AgentVersion) × (db' : Db) × (q ≡ ok ((v, true), db'))
              × IsAdded agent cfg c db v db'))

  others-stay :
      (id : String) (n : ℕ) (ws : Option String) (c : Context) (v : AgentVersion) (db db' : Db)
      (found : Option AgentVersion)
      → db'.agent_versions ≡ db.agent_versions ++ v ∷ []
      → has_number id n v ≡ false
      → get_agent_version id n ws c db ≡ ok (found, db)
      → get_agent_version id n ws c db' ≡ ok (found, db')
  unfolding get_agent_version is_agent_version
  others-stay id n ws c v db db' found grown other read =
      let p : AgentVersion → Bool = is_agent_version id n (workspace_id_or_default c ws) in
      let same : keep p db'.agent_versions ≡ keep p db.agent_versions =
        ap (keep p) grown ∙ keep-refused p v db.agent_versions (ground (arith, other)) in
      ap (λ q. check q c db')
        (ap one_or_none same
          ∙ (check_keeps (one_or_none (keep p db.agent_versions)) c db db read).0)

  reads-added :
      (agent : Agent) (n : ℕ) (v : AgentVersion) (c : Context) (db db' : Db)
      → agent.workspace_id ≢ ""
      → v.agent_id ≡ agent.id
      → v.version ≡ n
      → v.workspace_id ≡ agent.workspace_id
      → db'.agent_versions ≡ db.agent_versions ++ v ∷ []
      → any (has_number agent.id n) db.agent_versions ≡ false
      → get_agent_version agent.id n (some agent.workspace_id) c db' ≡ ok (some v, db')
  unfolding get_agent_version is_agent_version workspace_id_or_default
  reads-added agent n v c db db' placed its numbered there grown free =
      let ws : String = workspace_id_or_default c (some agent.workspace_id) in
      let p : AgentVersion → Bool = is_agent_version agent.id n ws in
      let mine : p v ≡ true = ground (
        arith,
        its,
        numbered,
        there,
        eq_iff agent.workspace_id "",
        placed,
        eq_self agent.id,
        eq_self agent.workspace_id,
      ) in
      ap (λ q. check q c db')
        (ap one_or_none (
          ap (keep p) grown
          ∙ keep-only p (has_number agent.id n) v db.agent_versions mine (λ x t. ground (arith, t))
              free))

  refused :
      (agent : Agent) (cfg : AgentConfig) (c : Context) (db : Db)
      → any (has_number agent.id (suc agent.active_version)) db.agent_versions ≡ true
      → add_version agent cfg c db ≡ err (crash "IntegrityError")
  unfolding add_version
  refused agent cfg c db taken = rw taken refl

  add_version-HasUpdated :
      (agent : Agent) (cfg : AgentConfig) (active : AgentVersion) (c : Context) (db : Db)
      → agent.workspace_id ≢ ""
      → same_config active cfg ≡ false
      → any (has_number agent.id (suc agent.active_version)) db.agent_versions ≡ false
      → HasUpdated agent cfg active c db (add_version agent cfg c db)
  unfolding add_version get_active_agent_version
  add_version-HasUpdated agent cfg active c db placed differs free =
      let n : ℕ = suc agent.active_version in
      let v : AgentVersion = version_row agent n cfg db.drawn c in
      let db' : Db = record db {
        agents = write_agent (next_agent agent cfg c) db.agents;
        agent_versions = db.agent_versions ++ v ∷ [];
        drawn = suc db.drawn;
      } in
      inr (
        inr (
          differs,
          (
            v,
            db',
            rw free refl,
            record {
              number = refl;
              versions = refl;
              agents = refl;
              now_active = λ c'.
                  reads-added (next_agent agent cfg c) n v c' db db' placed refl refl refl refl
                    free;
              others_stay = λ id m ws c' found other read.
                  others-stay id m ws c' v db db' found refl other read;
            },
          ),
        ))

  -- An update of an agent that has its active version returns that version and changes nothing, if
  -- the configuration is the same; otherwise it is refused if the next number is taken, or adds
  -- the version with the next number, which is then the active one, while every other version of
  -- every agent reads as before.
  pub update_agent-HasUpdated :
      (agent : Agent) (cfg : AgentConfig) (active : AgentVersion) (c : Context) (db : Db)
      → agent.workspace_id ≢ ""
      → get_active_agent_version agent c db ≡ ok (some active, db)
      → HasUpdated agent cfg active c db (update_agent agent cfg c db)
  unfolding update_agent update_active
  update_agent-HasUpdated agent cfg active c db placed there =
      let e = bind-ok (get_active_agent_version agent) (update_active agent cfg) c db there in
      subst (HasUpdated agent cfg active c db) (sym e) (elim (Bool-cases (same_config active cfg)) [
        | inl t ↦ inl (t, rw t refl)
        | inr p ↦
            elim (Bool-cases
              (any (has_number agent.id (suc agent.active_version)) db.agent_versions)) [
                | inl taken ↦ inr (inl (p, taken, rw p (refused agent cfg c db taken)))
                | inr free ↦
                    let added =
                      when_false (pure (active, false)) (add_version agent cfg) c db
                        (same_config active cfg) p in
                    subst (HasUpdated agent cfg active c db) (sym added)
                      (add_version-HasUpdated agent cfg active c db placed p free)
              ]
      ])
