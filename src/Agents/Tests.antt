-- ===== src/Agents/Tests.antt =====
-- An update of an agent at a concrete input.
use open_managed_agents.Agents.Update.{normalize_agent_name, merge_agent_update}
use open_managed_agents.Agents.Update.Merge.{merge_agent_update-Keeps, KeepsAbsent}
use open_managed_agents.Result.{ok}
use open_managed_agents.Json.{Value, Dict, int, bool, empty, str, field, lookup}
use open_managed_agents.Agents.{is_agent_version, get_agent_version}
use open_managed_agents.Json.Equal.{same_dict, has_fields, same_value}
use open_managed_agents.Agents.Versions.{
  update_agent, version_row, agent_row, AgentConfig, get_active_agent_version,
}
use open_managed_agents.Agents.Versions.Numbers.{update_agent-HasUpdated, HasUpdated}
use open_managed_agents.Db.{Agent, AgentVersion, Db, workspace_id_or_default}
use open_managed_agents.Fixtures.{bits, at, empty_db, sample_runtime}
use open_managed_agents.Prelude.{
  pos, refl, ◌≡◌, eq_iff, [], ◌∷◌, arith, ◌≢◌, String, none, some, true,
}

abbrev settings : String → AgentConfig
settings name = record {
  name = name;
  model = field "id" (str "m1") empty;
  system = none;
  description = none;
  tools = [];
  mcp_servers = [];
  skills = [];
  multiagent = none;
  metadata = empty;
  runtime = empty;
}

abbrev coder : Agent
coder = agent_row (settings "coder") none (at 1) empty_db

abbrev first_version : AgentVersion
first_version = version_row coder 1 (settings "coder") 1 (at 1)

abbrev agent_db : Db
agent_db = record empty_db { agents = coder ∷ []; agent_versions = first_version ∷ []; drawn = 2 }

coder_placed : coder.workspace_id ≢ ""
unfolding workspace_id_or_default
coder_placed = ground (arith, eq_iff "wrkspc_default" "")

finds_first : get_active_agent_version coder (at 5) agent_db ≡ ok (some first_version, agent_db)
unfolding get_active_agent_version get_agent_version is_agent_version workspace_id_or_default bits
finds_first = refl

update_agent-HasUpdated_example :
    HasUpdated coder
      (settings "coder 2")
      first_version
      (at 5)
      agent_db
      (update_agent coder (settings "coder 2") (at 5) agent_db)
update_agent-HasUpdated_example =
    update_agent-HasUpdated coder (settings "coder 2") first_version (at 5) agent_db coder_placed
      finds_first

-- The order of the keys does not count, and true is 1.
same_dicts :
    same_dict
      (field "a" (bool true) (field "b" (str "x") empty))
      (field "b" (str "x") (field "a" (int (pos 1)) empty))
    ≡ true
unfolding same_value has_fields lookup
same_dicts = refl

abbrev renaming : Dict
renaming = field "name" (str "coder 2") empty

renames : merge_agent_update first_version renaming ≡ ok (settings "coder 2")
unfolding merge_agent_update normalize_agent_name lookup
renames = refl

merge_agent_update-Keeps_example :
    KeepsAbsent first_version renaming (settings "coder 2")
    × ((v : Value) → lookup "name" renaming ≡ some v → (settings "coder 2").name ≢ "")
merge_agent_update-Keeps_example =
    merge_agent_update-Keeps first_version renaming (settings "coder 2") renames
