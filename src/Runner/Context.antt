-- ===== src/Runner/Context.antt =====
-- app/runtime/runner.py: what a turn is given beside the history: the memories of the session's
-- stores, and the credentials of its MCP servers.
use open_managed_agents.Resources.Queries.{list_resources}
use open_managed_agents.Exec.{◌>>=◌}
use Prim.Native.String.{count}
use open_managed_agents.Sessions.Actions.{is_empty}
use open_managed_agents.Exec.{pure, Action}
use open_managed_agents.Db.{Resource, Session}
use open_managed_agents.Prelude.{
  take, false, true, joined, not, take_text, keep, first, ◌++◌, map, ltb, ◌==◌, [], none,
  if◌then◌else◌, drop_slashes, or_else, ◌∷◌, some, String, ℕ, Option, List,
}
use open_managed_agents.Runtime.{to_str, Runtime}
use open_managed_agents.Json.{
  is_text, truthy, put, opt_str, obj, or_value, empty, from_items, str, as_dict, arr, field, get,
  null, Dict, as_list, Value,
}

abbrev pub max_memory_context_stores : ℕ
max_memory_context_stores = 8

abbrev pub max_memory_context_items_per_store : ℕ
max_memory_context_items_per_store = 20

abbrev pub max_memory_context_content_chars : ℕ
max_memory_context_content_chars = 1000

-- `value or []` where the program stores a list.
abbrev pub elements : Value → List Value
elements v = elim (as_list v) [ none ↦ [] | some vs ↦ vs ]

-- The dicts among the values.
abbrev pub dicts_in : List Value → List Dict
dicts_in [] = []
dicts_in (v ∷ vs) = elim (as_dict v) [ none ↦ dicts_in vs | some d ↦ d ∷ dicts_in vs ]

-- A JSON list of objects.
abbrev pub objects : List Dict → Value
objects ds = arr (from_items (map obj ds))

-- What `_runtime_context_for_session` gives.
pub record RuntimeContext : Type 0 where
  pub memory_stores : List Dict
  pub servers : List Dict
  pub errors : List Dict

module _ ⦃r : Runtime⦄ where
  -- `str(value or "")`
  abbrev pub text_or_empty : Value → String
  text_or_empty v = to_str (or_value v (str ""))

  unfoldable pub normalized_mcp_url : Value → String
  normalized_mcp_url v = drop_slashes (r.strip (text_or_empty v))

  unfoldable pub memory_context_item : Resource → Dict
  memory_context_item memory =
      let content = text_or_empty (get "content" memory.payload) in
      field "memory_id" (str memory.id) (
        field "path" (get "path" memory.payload) (
          field "path_key" (get "path_key" memory.payload) (
            field "version" (get "version" memory.payload) (
              field "content"
                (str (
                  if ltb max_memory_context_content_chars (count content)
                  then joined (take_text max_memory_context_content_chars content) "..."
                  else content))
                empty))))

  -- The entry of one store, with its memories.
  abbrev pub store_entry : String → Dict → List Resource → Dict
  store_entry id d memories = field "memory_store_id" (str id) (
      field "name" (get "name" d) (
        field "mount_path" (get "mount_path" d) (
          field "access" (get "access" d) (
            field "instructions" (get "instructions" d) (
              field "memories"
                (objects (
                  map memory_context_item
                    (keep (λ m. not (truthy (get "redacted" m.payload))) memories)))
                empty)))))

  -- The loop over the session's memory resources.
  unfoldable pub memory_stores_of : String → List Resource → Action (List Dict)
  memory_stores_of ws [] = pure []
  memory_stores_of ws (resource ∷ rest) =
      let id = text_or_empty (get "memory_store_id" resource.payload) in
      let others = memory_stores_of ws rest in
      if id == "" then others else (do
        memories ←
            list_resources "memory" (some id) max_memory_context_items_per_store true false
              (some ws)
        entries ← others
        pure (store_entry id resource.payload memories ∷ entries))

  -- `credential.data["auth"]`, where it is a dict.
  abbrev pub auth_of : Resource → Option Dict
  auth_of credential = as_dict (or_value (get "auth" credential.payload) (obj empty))

  abbrev pub credential_url : Resource → String
  credential_url credential = elim (auth_of credential) [
    | none ↦ ""
    | some auth ↦ normalized_mcp_url (get "mcp_server_url" auth)
  ]

  -- `by_url.get(url)`: the first credential of the url; an empty url is no key.
  unfoldable pub credential_for : String → List Resource → Option Resource
  credential_for url credentials =
      if url == "" then none else first (λ credential. credential_url credential == url) credentials

  abbrev pub missing_auth : Dict → Dict
  missing_auth server = field "type" (str "mcp_auth_missing") (
      field "mcp_server_name" (str (text_or_empty (get "name" server)))
        (field "mcp_server_url" (str (text_or_empty (get "url" server))) empty))

  abbrev pub matched_auth : Dict → Resource → Dict
  matched_auth server credential =
      let auth = or_else (auth_of credential) empty in
      field "type" (str "mcp_auth") (
        field "status" (str "matched") (
          field "mcp_server_name" (str (text_or_empty (get "name" server))) (
            field "mcp_server_url" (str (text_or_empty (get "url" server))) (
              field "credential_id" (str credential.id) (
                field "vault_id" (opt_str credential.parent_id) (
                  field "auth_type" (str (to_str (or_value (get "type" auth) (str "mcp_oauth"))))
                    empty))))))

  -- The loop over the servers: their entries, and the errors among them.
  unfoldable pub resolve_servers : List Resource → List Dict → List Dict × List Dict
  resolve_servers credentials [] = ([], [])
  resolve_servers credentials (server ∷ servers) =
      let rest = resolve_servers credentials servers in
      elim (credential_for (normalized_mcp_url (str (text_or_empty (get "url" server))))
        credentials) [
          | none ↦ (
            put "vault_id" null
                  (put "credential_id" null (put "status" (str "missing") (missing_auth server)))
                ∷ rest.0,
            missing_auth server ∷ rest.1,
          )
          | some credential ↦ (matched_auth server credential ∷ rest.0, rest.1)
        ]

  -- The loop over the vaults.
  unfoldable pub vault_credentials : String → List Value → Action (List Resource)
  vault_credentials ws [] = pure []
  vault_credentials ws (vault ∷ vaults) = do
    credentials ← list_resources "credential" (some (to_str vault)) 1000 false false (some ws)
    others ← vault_credentials ws vaults
    pure (credentials ++ others)

  -- `_mcp_auth_context_for_session`: the servers' entries and the errors.
  unfoldable pub mcp_auth_context : Session → List Value → Action (List Dict × List Dict)
  mcp_auth_context session mcp_servers =
      let servers = dicts_in mcp_servers in
      if is_empty servers then pure ([], []) else (do
        credentials ←
            vault_credentials session.workspace_id
              (elements (get "vault_ids" session.status_details))
        pure (resolve_servers credentials servers))

  unfoldable pub runtime_context_for_session : Session → List Value → Action RuntimeContext
  runtime_context_for_session session mcp_servers = do
    resources ←
        list_resources "session_resource" (some session.id) 1000 true false
          (some session.workspace_id)
    stores ← memory_stores_of session.workspace_id (
        take max_memory_context_stores
          (keep (λ row. is_text (get "type" row.payload) "memory_store") resources))
    auth ← mcp_auth_context session mcp_servers
    pure (record { memory_stores = stores; servers = auth.0; errors = auth.1 })

  -- `_append_runtime_context_events`: the session after it, and whether there was an event.
  abbrev pub missing_auth_payload : Dict → Dict
  missing_auth_payload error = field "type" (get "type" error) (
      field "error_type" (str "mcp_auth_missing") (
        field "message"
          (str (
            joined "MCP credential not found for "
              (to_str (or_value (get "mcp_server_name" error) (get "mcp_server_url" error)))))
          (field "mcp_server_name" (get "mcp_server_name" error)
            (field "mcp_server_url" (get "mcp_server_url" error) empty))))
