-- ===== src/Generated/Rpc/Api/Answers.antt =====
-- All typed calls, answered by the server.
use copilot_sdk.Prelude.{String, ◌≡◌}
use copilot_sdk.Wire.Convert.{Numbers}
use copilot_sdk.Generated.Rpc.Api.{
  models_list, tools_list, account_get_quota, ping, model_get_current, model_switch_to, mode_get,
  mode_set, plan_read, plan_update, plan_delete, workspace_list_files, workspace_read_file,
  workspace_create_file, fleet_start, agent_list, agent_get_current, agent_select, agent_deselect,
  compaction_compact,
}
use copilot_sdk.Generated.Rpc.Api.Serving.{Server, respond}
use copilot_sdk.Generated.Rpc.Models.{PingParams}
use copilot_sdk.Generated.Rpc.Tools.{ToolsListParams}
use copilot_sdk.Generated.Rpc.Modes.{
  SessionModelSwitchToParams, SessionModeSetParams, SessionPlanUpdateParams,
}
use copilot_sdk.Generated.Rpc.Workspace.{
  SessionWorkspaceReadFileParams, SessionWorkspaceCreateFileParams, SessionFleetStartParams,
}
use copilot_sdk.Generated.Rpc.Agents.{SessionAgentSelectParams}
use copilot_sdk.Generated.Rpc.Api.Orders.{
  tools_list-respond, ping-respond, model_switch_to-respond, mode_set-respond, plan_update-respond,
  workspace_read_file-respond, workspace_create_file-respond, fleet_start-respond,
  agent_select-respond,
}
use copilot_sdk.Generated.Rpc.Api.Questions.{
  models_list-respond, account_get_quota-respond, model_get_current-respond, mode_get-respond,
  plan_read-respond, plan_delete-respond, workspace_list_files-respond, agent_list-respond,
  agent_get_current-respond, agent_deselect-respond, compaction_compact-respond,
}

-- Each of the twenty typed calls, given `respond s` as its `request`, gives what `s` computes.
abbrev pub CallsAgree :
    Numbers
    → Server
    → String
    → ToolsListParams
    → PingParams
    → SessionModelSwitchToParams
    → SessionModeSetParams
    → SessionPlanUpdateParams
    → SessionWorkspaceReadFileParams
    → SessionWorkspaceCreateFileParams
    → SessionFleetStartParams
    → SessionAgentSelectParams
    → Type 0
CallsAgree numbers s id tools greeting model new_mode update old_file new_file fleet agent =
    (models_list numbers (respond s) ≡ s.serve_models_list)
    × (tools_list (respond s) tools ≡ s.serve_tools_list tools)
    × (account_get_quota numbers (respond s) ≡ s.serve_account_get_quota)
    × (ping numbers (respond s) greeting ≡ s.serve_ping greeting)
    × (model_get_current (respond s) id ≡ s.serve_model_get_current id)
    × (model_switch_to (respond s) id model ≡ s.serve_model_switch_to id model)
    × (mode_get (respond s) id ≡ s.serve_mode_get id)
    × (mode_set (respond s) id new_mode ≡ s.serve_mode_set id new_mode)
    × (plan_read (respond s) id ≡ s.serve_plan_read id)
    × (plan_update (respond s) id update ≡ s.serve_plan_update id update)
    × (plan_delete (respond s) id ≡ s.serve_plan_delete id)
    × (workspace_list_files (respond s) id ≡ s.serve_workspace_list_files id)
    × (workspace_read_file (respond s) id old_file ≡ s.serve_workspace_read_file id old_file)
    × (workspace_create_file (respond s) id new_file ≡ s.serve_workspace_create_file id new_file)
    × (fleet_start (respond s) id fleet ≡ s.serve_fleet_start id fleet)
    × (agent_list (respond s) id ≡ s.serve_agent_list id)
    × (agent_get_current (respond s) id ≡ s.serve_agent_get_current id)
    × (agent_select (respond s) id agent ≡ s.serve_agent_select id agent)
    × (agent_deselect (respond s) id ≡ s.serve_agent_deselect id)
    × (compaction_compact numbers (respond s) id ≡ s.serve_compaction_compact id)

-- When the other side reads parameters and writes results with the same classes, every typed call gives its
-- caller exactly what that side computes for it, a failure included: it is asked for the session that the
-- caller is bound to, with the parameters that the caller gave.
pub calls-respond :
    (numbers : Numbers) (s : Server) (id : String) (tools : ToolsListParams) (greeting : PingParams)
    (model : SessionModelSwitchToParams) (new_mode : SessionModeSetParams)
    (update : SessionPlanUpdateParams) (old_file : SessionWorkspaceReadFileParams)
    (new_file : SessionWorkspaceCreateFileParams) (fleet : SessionFleetStartParams)
    (agent : SessionAgentSelectParams)
    → CallsAgree numbers s id tools greeting model new_mode update old_file new_file fleet agent
calls-respond numbers s id tools greeting model new_mode update old_file new_file fleet agent = (
  models_list-respond numbers s,
  tools_list-respond s tools,
  account_get_quota-respond numbers s,
  ping-respond numbers s greeting,
  model_get_current-respond s id,
  model_switch_to-respond s id model,
  mode_get-respond s id,
  mode_set-respond s id new_mode,
  plan_read-respond s id,
  plan_update-respond s id update,
  plan_delete-respond s id,
  workspace_list_files-respond s id,
  workspace_read_file-respond s id old_file,
  workspace_create_file-respond s id new_file,
  fleet_start-respond s id fleet,
  agent_list-respond s id,
  agent_get_current-respond s id,
  agent_select-respond s id agent,
  agent_deselect-respond s id,
  compaction_compact-respond numbers s id,
)
