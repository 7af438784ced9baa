-- ===== src/Generated/Rpc/Api/Serving.antt =====
-- A server that speaks the same protocol, for the calls of the parent: it reads the parameters with their
-- `from_dict`, computes, and writes the result with its `to_dict`.
use copilot_sdk.Prelude.{String, Result, ok, ◌>>=◌, raise, value_error, str_eq, if◌then◌else◌}
use copilot_sdk.Value.{Value}
use copilot_sdk.Wire.{of_class}
use copilot_sdk.Wire.Convert.{from_str}
use copilot_sdk.Session.Waiting.{Request}
use copilot_sdk.Generated.Rpc.Models.{
  ModelsListResult, models_list_result_to_dict, PingParams, ping_params_from_dict, PingResult,
  ping_result_to_dict,
}
use copilot_sdk.Generated.Rpc.Tools.{
  ToolsListParams, tools_list_params_from_dict, ToolsListResult, tools_list_result_to_dict,
  AccountGetQuotaResult, account_get_quota_result_to_dict,
}
use copilot_sdk.Generated.Rpc.Modes.{
  SessionModelGetCurrentResult, session_model_get_current_result_to_dict,
  SessionModelSwitchToParams, session_model_switch_to_params_from_dict, SessionModelSwitchToResult,
  session_model_switch_to_result_to_dict, SessionModeGetResult, session_mode_get_result_to_dict,
  SessionModeSetParams, session_mode_set_params_from_dict, SessionModeSetResult,
  session_mode_set_result_to_dict, SessionPlanReadResult, session_plan_read_result_to_dict,
  SessionPlanUpdateParams, session_plan_update_params_from_dict, SessionPlanUpdateResult,
  session_plan_update_result_to_dict, SessionPlanDeleteResult, session_plan_delete_result_to_dict,
}
use copilot_sdk.Generated.Rpc.Workspace.{
  SessionWorkspaceListFilesResult, session_workspace_list_files_result_to_dict,
  SessionWorkspaceReadFileParams, session_workspace_read_file_params_from_dict,
  SessionWorkspaceReadFileResult, session_workspace_read_file_result_to_dict,
  SessionWorkspaceCreateFileParams, session_workspace_create_file_params_from_dict,
  SessionWorkspaceCreateFileResult, session_workspace_create_file_result_to_dict,
  SessionFleetStartParams, session_fleet_start_params_from_dict, SessionFleetStartResult,
  session_fleet_start_result_to_dict, SessionCompactionCompactResult,
  session_compaction_compact_result_to_dict,
}
use copilot_sdk.Generated.Rpc.Agents.{
  SessionAgentListResult, session_agent_list_result_to_dict, SessionAgentGetCurrentResult,
  session_agent_get_current_result_to_dict, SessionAgentSelectParams,
  session_agent_select_params_from_dict, SessionAgentSelectResult,
  session_agent_select_result_to_dict, SessionAgentDeselectResult,
  session_agent_deselect_result_to_dict,
}

-- What the server computes for each method. It may fail.
pub record Server : Type 0 where
  pub serve_models_list : Result ModelsListResult
  pub serve_tools_list : ToolsListParams → Result ToolsListResult
  pub serve_account_get_quota : Result AccountGetQuotaResult
  pub serve_ping : PingParams → Result PingResult
  pub serve_model_get_current : String → Result SessionModelGetCurrentResult
  pub serve_model_switch_to :
      String → SessionModelSwitchToParams → Result SessionModelSwitchToResult
  pub serve_mode_get : String → Result SessionModeGetResult
  pub serve_mode_set : String → SessionModeSetParams → Result SessionModeSetResult
  pub serve_plan_read : String → Result SessionPlanReadResult
  pub serve_plan_update : String → SessionPlanUpdateParams → Result SessionPlanUpdateResult
  pub serve_plan_delete : String → Result SessionPlanDeleteResult
  pub serve_workspace_list_files : String → Result SessionWorkspaceListFilesResult
  pub serve_workspace_read_file :
      String → SessionWorkspaceReadFileParams → Result SessionWorkspaceReadFileResult
  pub serve_workspace_create_file :
      String → SessionWorkspaceCreateFileParams → Result SessionWorkspaceCreateFileResult
  pub serve_fleet_start : String → SessionFleetStartParams → Result SessionFleetStartResult
  pub serve_agent_list : String → Result SessionAgentListResult
  pub serve_agent_get_current : String → Result SessionAgentGetCurrentResult
  pub serve_agent_select : String → SessionAgentSelectParams → Result SessionAgentSelectResult
  pub serve_agent_deselect : String → Result SessionAgentDeselectResult
  pub serve_compaction_compact : String → Result SessionCompactionCompactResult

-- The session that a request names
abbrev pub named_session : Value → Result String
named_session v = of_class (λ get. from_str (get "sessionId")) v

module _ {R : Type 0} where
  -- What the server answers, from what it computes
  abbrev pub reply : (R → Value) → Result R → Result Value
  reply write result = result >>= λ r. ok (write r)

  -- The same for a request with parameters
  abbrev pub reply_to :
      {P : Type 0} → (Value → Result P) → (R → Value) → (P → Result R) → Value → Result Value
  reply_to read write serve v = read v >>= λ params. reply write (serve params)

-- The server's side of `request`
unfoldable pub respond : Server → Request
respond s m v =
    if str_eq m "models.list"
    then (reply models_list_result_to_dict s.serve_models_list)
    else if str_eq m "tools.list"
    then (reply_to tools_list_params_from_dict tools_list_result_to_dict s.serve_tools_list v)
    else if str_eq m "account.getQuota"
    then (reply account_get_quota_result_to_dict s.serve_account_get_quota)
    else if str_eq m "ping"
    then (reply_to ping_params_from_dict ping_result_to_dict s.serve_ping v)
    else if str_eq m "session.model.getCurrent"
    then (named_session v >>= λ id.
        reply session_model_get_current_result_to_dict (s.serve_model_get_current id))
    else if str_eq m "session.model.switchTo"
    then (named_session v >>= λ id.
        reply_to session_model_switch_to_params_from_dict session_model_switch_to_result_to_dict
          (s.serve_model_switch_to id) v)
    else if str_eq m "session.mode.get"
    then (named_session v >>= λ id. reply session_mode_get_result_to_dict (s.serve_mode_get id))
    else if str_eq m "session.mode.set"
    then (named_session v >>= λ id.
        reply_to session_mode_set_params_from_dict session_mode_set_result_to_dict
          (s.serve_mode_set id) v)
    else if str_eq m "session.plan.read"
    then (named_session v >>= λ id. reply session_plan_read_result_to_dict (s.serve_plan_read id))
    else if str_eq m "session.plan.update"
    then (named_session v >>= λ id.
        reply_to session_plan_update_params_from_dict session_plan_update_result_to_dict
          (s.serve_plan_update id) v)
    else if str_eq m "session.plan.delete"
    then (named_session v >>= λ id.
        reply session_plan_delete_result_to_dict (s.serve_plan_delete id))
    else if str_eq m "session.workspace.listFiles"
    then (named_session v >>= λ id.
        reply session_workspace_list_files_result_to_dict (s.serve_workspace_list_files id))
    else if str_eq m "session.workspace.readFile"
    then (named_session v >>= λ id.
        reply_to session_workspace_read_file_params_from_dict
          session_workspace_read_file_result_to_dict (s.serve_workspace_read_file id) v)
    else if str_eq m "session.workspace.createFile"
    then (named_session v >>= λ id.
        reply_to session_workspace_create_file_params_from_dict
          session_workspace_create_file_result_to_dict (s.serve_workspace_create_file id) v)
    else if str_eq m "session.fleet.start"
    then (named_session v >>= λ id.
        reply_to session_fleet_start_params_from_dict session_fleet_start_result_to_dict
          (s.serve_fleet_start id) v)
    else if str_eq m "session.agent.list"
    then (named_session v >>= λ id. reply session_agent_list_result_to_dict (s.serve_agent_list id))
    else if str_eq m "session.agent.getCurrent"
    then (named_session v >>= λ id.
        reply session_agent_get_current_result_to_dict (s.serve_agent_get_current id))
    else if str_eq m "session.agent.select"
    then (named_session v >>= λ id.
        reply_to session_agent_select_params_from_dict session_agent_select_result_to_dict
          (s.serve_agent_select id) v)
    else if str_eq m "session.agent.deselect"
    then (named_session v >>= λ id.
        reply session_agent_deselect_result_to_dict (s.serve_agent_deselect id))
    else if str_eq m "session.compaction.compact"
    then (named_session v >>= λ id.
        reply session_compaction_compact_result_to_dict (s.serve_compaction_compact id))
    else raise value_error "unknown method"
