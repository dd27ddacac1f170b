-- ===== src/Runner/Turn/Reading.antt =====
-- What the second transaction of a turn reads, it reads without a change of the database.
use open_managed_agents.Sessions.Store.{one_or_none}
use open_managed_agents.Reads.{check-IsRead, bind-IsRead, if-IsRead, pure-IsRead, IsRead}
use open_managed_agents.Sessions.Events.{list_events}
use open_managed_agents.Prelude.{keep, none, [], refl, ◌∷◌, inl, Bool, ℕ}
use open_managed_agents.Sessions.Store.{is_environment, get_environment}
use open_managed_agents.Agents.{is_agent, is_agent_version, get_agent_version, get_agent}
use open_managed_agents.Db.{workspace_id_or_default, Resource}
use open_managed_agents.Resources.Queries.{list_resources}
use open_managed_agents.Runner.Turn.{
  version_for_run, agent_for_run, present_for_run, check, Value, Option, list_events, List,
  get_agent_version, get_agent, get_environment, String, Session, find_version, gather,
}
use open_managed_agents.Runner.Context.{
  memory_stores_of, vault_credentials, mcp_auth_context, runtime_context_for_session,
}
use open_managed_agents.Runtime.{Runtime}

module _ ⦃r : Runtime⦄ where
  list_resources-IsRead :
      (type : String) (parent : Option String) (limit : ℕ) (archived deleted : Bool)
      (ws : Option String)
      → IsRead (list_resources type parent limit archived deleted ws)
  unfolding list_resources
  list_resources-IsRead type parent limit archived deleted ws c db = inl (_, refl)

  memory_stores_of-IsRead : (ws : String) (rows : List Resource) → IsRead (memory_stores_of ws rows)
  unfolding memory_stores_of
  memory_stores_of-IsRead ws [] = pure-IsRead []
  memory_stores_of-IsRead ws (row ∷ rows) = if-IsRead _ _ _ (memory_stores_of-IsRead ws rows) (
      bind-IsRead _ _ (list_resources-IsRead _ _ _ _ _ _)
        (λ memories. bind-IsRead _ _ (memory_stores_of-IsRead ws rows) (λ entries. pure-IsRead _)))

  vault_credentials-IsRead :
      (ws : String) (vaults : List Value) → IsRead (vault_credentials ws vaults)
  unfolding vault_credentials
  vault_credentials-IsRead ws [] = pure-IsRead []
  vault_credentials-IsRead ws (vault ∷ vaults) =
      bind-IsRead _ _ (list_resources-IsRead _ _ _ _ _ _)
        (λ here. bind-IsRead _ _ (vault_credentials-IsRead ws vaults) (λ others. pure-IsRead _))

  mcp_auth_context-IsRead :
      (s : Session) (servers : List Value) → IsRead (mcp_auth_context s servers)
  unfolding mcp_auth_context
  mcp_auth_context-IsRead s servers =
      if-IsRead _ _ _ (pure-IsRead _)
        (bind-IsRead _ _ (vault_credentials-IsRead _ _) (λ credentials. pure-IsRead _))

  runtime_context-IsRead :
      (s : Session) (servers : List Value) → IsRead (runtime_context_for_session s servers)
  unfolding runtime_context_for_session
  runtime_context-IsRead s servers = bind-IsRead _ _ (list_resources-IsRead _ _ _ _ _ _) (λ rows.
      bind-IsRead _ _ (memory_stores_of-IsRead _ _)
        (λ stores. bind-IsRead _ _ (mcp_auth_context-IsRead s servers) (λ auth. pure-IsRead _)))

  get_agent-IsRead : (id : String) → IsRead (get_agent id)
  unfolding get_agent
  get_agent-IsRead id c db =
      check-IsRead (one_or_none (keep (is_agent id (workspace_id_or_default c none)) db.agents)) c
        db

  get_agent_version-IsRead : (id : String) (n : ℕ) → IsRead (get_agent_version id n none)
  unfolding get_agent_version
  get_agent_version-IsRead id n c db =
      check-IsRead
        (one_or_none
          (keep (is_agent_version id n (workspace_id_or_default c none)) db.agent_versions))
        c db

  get_environment-IsRead : (id : String) → IsRead (get_environment id none)
  unfolding get_environment
  get_environment-IsRead id c db =
      check-IsRead
        (one_or_none (keep (is_environment id (workspace_id_or_default c none)) db.environments)) c
        db

  list_events-IsRead : (id : String) (after limit : ℕ) → IsRead (list_events id after limit none)
  unfolding list_events
  list_events-IsRead id after limit c db = inl (_, refl)

  find_version-IsRead : (s : Session) → IsRead (find_version s)
  unfolding find_version
  find_version-IsRead s =
      bind-IsRead (get_agent s.agent_id) _ (get_agent-IsRead s.agent_id) (λ agent.
        bind-IsRead (check (agent_for_run s agent)) _ (check-IsRead (agent_for_run s agent)) (λ _.
          bind-IsRead (get_agent_version s.agent_id s.agent_version none) _
            (get_agent_version-IsRead s.agent_id s.agent_version)
            (λ found. check-IsRead (version_for_run s found))))

  pub gather-IsRead : (s : Session) → IsRead (gather s)
  unfolding gather
  gather-IsRead s = bind-IsRead (find_version s) _ (find_version-IsRead s) (λ version.
      bind-IsRead (get_environment s.environment_id none) _
        (get_environment-IsRead s.environment_id)
        (λ place.
          bind-IsRead (check (present_for_run s place)) _ (check-IsRead (present_for_run s place))
            (λ environment.
              bind-IsRead (list_events s.id 0 500 none) _ (list_events-IsRead s.id 0 500)
                (λ history.
                  bind-IsRead _ _ (runtime_context-IsRead s _) (λ context. pure-IsRead _)))))
