-- ===== src/Generated/Rpc/Api.antt =====
-- The typed remote calls: the classes `ModelsApi` to `SessionRpc` of python/copilot/generated/rpc.py. Each
-- call takes the client's `request`; those of a session take its id as well.
pub mod Sent
pub mod Serving
pub mod Replies
pub mod Questions
pub mod Orders
pub mod Answers
use copilot_sdk.Prelude.{String, [], ◌∷◌, Result, ◌>>=◌, str_eq, if◌then◌else◌}
use copilot_sdk.Value.{Value, Fields, obj, str, end, field, is_none, dict}
use copilot_sdk.Wire.{unless_none}
use copilot_sdk.Wire.Convert.{Numbers}
use copilot_sdk.Session.Waiting.{Request}
use copilot_sdk.Generated.Rpc.Models.{
  ModelsListResult, models_list_result_from_dict, PingParams, ping_params_to_dict, PingResult,
  ping_result_from_dict,
}
use copilot_sdk.Generated.Rpc.Tools.{
  ToolsListParams, tools_list_params_to_dict, ToolsListResult, tools_list_result_from_dict,
  AccountGetQuotaResult, account_get_quota_result_from_dict,
}
use copilot_sdk.Generated.Rpc.Modes.{
  SessionModelGetCurrentResult, session_model_get_current_result_from_dict,
  SessionModelSwitchToParams, session_model_switch_to_params_to_dict, SessionModelSwitchToResult,
  session_model_switch_to_result_from_dict, SessionModeGetResult, session_mode_get_result_from_dict,
  SessionModeSetParams, session_mode_set_params_to_dict, SessionModeSetResult,
  session_mode_set_result_from_dict, SessionPlanReadResult, session_plan_read_result_from_dict,
  SessionPlanUpdateParams, session_plan_update_params_to_dict, SessionPlanUpdateResult,
  session_plan_update_result_from_dict, SessionPlanDeleteResult,
  session_plan_delete_result_from_dict,
}
use copilot_sdk.Generated.Rpc.Workspace.{
  SessionWorkspaceListFilesResult, session_workspace_list_files_result_from_dict,
  SessionWorkspaceReadFileParams, session_workspace_read_file_params_to_dict,
  SessionWorkspaceReadFileResult, session_workspace_read_file_result_from_dict,
  SessionWorkspaceCreateFileParams, session_workspace_create_file_params_to_dict,
  SessionWorkspaceCreateFileResult, session_workspace_create_file_result_from_dict,
  SessionFleetStartParams, session_fleet_start_params_to_dict, SessionFleetStartResult,
  session_fleet_start_result_from_dict, SessionCompactionCompactResult,
  session_compaction_compact_result_from_dict,
}
use copilot_sdk.Generated.Rpc.Agents.{
  SessionAgentListResult, session_agent_list_result_from_dict, SessionAgentGetCurrentResult,
  session_agent_get_current_result_from_dict, SessionAgentSelectParams,
  session_agent_select_params_to_dict, SessionAgentSelectResult,
  session_agent_select_result_from_dict, SessionAgentDeselectResult,
  session_agent_deselect_result_from_dict,
}

-- `{k: v for k, v in fs.items() if v is not None}`
unfoldable pub without_none : Fields → Fields
without_none end = end
without_none (field k v fs) = unless_none (is_none v) k v (without_none fs)

-- `d[k] = v`
unfoldable pub set_field : String → Value → Fields → Fields
set_field k v end = field k v end
set_field k v (field j w fs) =
    let rest = set_field k v fs in if str_eq j k then field j v fs else field j w rest

-- The parameters of a call, from what `to_dict` gives
unfoldable pub call_params : Value → Value
unfolding without_none
call_params (obj fs) = obj (without_none fs)
call_params v = v

-- The parameters of a call to a session
unfoldable pub session_params : String → Value → Value
unfolding without_none set_field
session_params id (obj fs) = obj (set_field "sessionId" (str id) (without_none fs))
session_params id v = v

-- The parameters of a call to a session that has no parameters of its own
abbrev pub only_session : String → Value
only_session id = dict (("sessionId", str id) ∷ [])

-- `ModelsApi.list`
unfoldable pub models_list : Numbers → Request → Result ModelsListResult
models_list numbers request =
    request "models.list" (dict []) >>= models_list_result_from_dict numbers

-- `ToolsApi.list`
unfoldable pub tools_list : Request → ToolsListParams → Result ToolsListResult
unfolding call_params
tools_list request params =
    request "tools.list" (call_params (tools_list_params_to_dict params))
    >>= tools_list_result_from_dict

-- `AccountApi.get_quota`
unfoldable pub account_get_quota : Numbers → Request → Result AccountGetQuotaResult
account_get_quota numbers request =
    request "account.getQuota" (dict []) >>= account_get_quota_result_from_dict numbers

-- `ServerRpc.ping`
unfoldable pub ping : Numbers → Request → PingParams → Result PingResult
unfolding call_params
ping numbers request params =
    request "ping" (call_params (ping_params_to_dict params)) >>= ping_result_from_dict numbers

-- `ModelApi.get_current`
unfoldable pub model_get_current : Request → String → Result SessionModelGetCurrentResult
model_get_current request id =
    request "session.model.getCurrent" (only_session id)
    >>= session_model_get_current_result_from_dict

-- `ModelApi.switch_to`
unfoldable pub model_switch_to :
    Request → String → SessionModelSwitchToParams → Result SessionModelSwitchToResult
unfolding session_params
model_switch_to request id params =
    request "session.model.switchTo"
      (session_params id (session_model_switch_to_params_to_dict params))
    >>= session_model_switch_to_result_from_dict

-- `ModeApi.get`
unfoldable pub mode_get : Request → String → Result SessionModeGetResult
mode_get request id =
    request "session.mode.get" (only_session id) >>= session_mode_get_result_from_dict

-- `ModeApi.set`
unfoldable pub mode_set : Request → String → SessionModeSetParams → Result SessionModeSetResult
unfolding session_params
mode_set request id params =
    request "session.mode.set" (session_params id (session_mode_set_params_to_dict params))
    >>= session_mode_set_result_from_dict

-- `PlanApi.read`
unfoldable pub plan_read : Request → String → Result SessionPlanReadResult
plan_read request id =
    request "session.plan.read" (only_session id) >>= session_plan_read_result_from_dict

-- `PlanApi.update`
unfoldable pub plan_update :
    Request → String → SessionPlanUpdateParams → Result SessionPlanUpdateResult
unfolding session_params
plan_update request id params =
    request "session.plan.update" (session_params id (session_plan_update_params_to_dict params))
    >>= session_plan_update_result_from_dict

-- `PlanApi.delete`
unfoldable pub plan_delete : Request → String → Result SessionPlanDeleteResult
plan_delete request id =
    request "session.plan.delete" (only_session id) >>= session_plan_delete_result_from_dict

-- `WorkspaceApi.list_files`
unfoldable pub workspace_list_files : Request → String → Result SessionWorkspaceListFilesResult
workspace_list_files request id =
    request "session.workspace.listFiles" (only_session id)
    >>= session_workspace_list_files_result_from_dict

-- `WorkspaceApi.read_file`
unfoldable pub workspace_read_file :
    Request → String → SessionWorkspaceReadFileParams → Result SessionWorkspaceReadFileResult
unfolding session_params
workspace_read_file request id params =
    request "session.workspace.readFile"
      (session_params id (session_workspace_read_file_params_to_dict params))
    >>= session_workspace_read_file_result_from_dict

-- `WorkspaceApi.create_file`
unfoldable pub workspace_create_file :
    Request → String → SessionWorkspaceCreateFileParams → Result SessionWorkspaceCreateFileResult
unfolding session_params
workspace_create_file request id params =
    request "session.workspace.createFile"
      (session_params id (session_workspace_create_file_params_to_dict params))
    >>= session_workspace_create_file_result_from_dict

-- `FleetApi.start`
unfoldable pub fleet_start :
    Request → String → SessionFleetStartParams → Result SessionFleetStartResult
unfolding session_params
fleet_start request id params =
    request "session.fleet.start" (session_params id (session_fleet_start_params_to_dict params))
    >>= session_fleet_start_result_from_dict

-- `AgentApi.list`
unfoldable pub agent_list : Request → String → Result SessionAgentListResult
agent_list request id =
    request "session.agent.list" (only_session id) >>= session_agent_list_result_from_dict

-- `AgentApi.get_current`
unfoldable pub agent_get_current : Request → String → Result SessionAgentGetCurrentResult
agent_get_current request id =
    request "session.agent.getCurrent" (only_session id)
    >>= session_agent_get_current_result_from_dict

-- `AgentApi.select`
unfoldable pub agent_select :
    Request → String → SessionAgentSelectParams → Result SessionAgentSelectResult
unfolding session_params
agent_select request id params =
    request "session.agent.select" (session_params id (session_agent_select_params_to_dict params))
    >>= session_agent_select_result_from_dict

-- `AgentApi.deselect`
unfoldable pub agent_deselect : Request → String → Result SessionAgentDeselectResult
agent_deselect request id =
    request "session.agent.deselect" (only_session id) >>= session_agent_deselect_result_from_dict

-- `CompactionApi.compact`
unfoldable pub compaction_compact :
    Numbers → Request → String → Result SessionCompactionCompactResult
compaction_compact numbers request id =
    request "session.compaction.compact" (only_session id)
    >>= session_compaction_compact_result_from_dict numbers
