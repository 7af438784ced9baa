-- ===== src/Generated/Rpc/Api/Orders.antt =====
-- The calls with parameters, answered by the server.
use copilot_sdk.Prelude.{String, ◌≡◌, refl, ◌∙◌}
use copilot_sdk.Wire.Convert.{Numbers, from_str, reads_back}
use copilot_sdk.Generated.Rpc.Api.{
  call_params, session_params, tools_list, ping, model_switch_to, mode_set, plan_update,
  workspace_read_file, workspace_create_file, fleet_start, agent_select,
}
use copilot_sdk.Generated.Rpc.Api.Sent.{of_class-call_params, of_class-session_params}
use copilot_sdk.Generated.Rpc.Api.Serving.{Server, respond}
use copilot_sdk.Generated.Rpc.Api.Replies.{reply_to-read, session-reply_to-read}
use copilot_sdk.Generated.Rpc.Models.{
  PingParams, ping_params_from_dict, ping_params_to_dict, read_ping_params, ping_params_entries,
  ping_result_from_dict, ping_result_to_dict,
}
use copilot_sdk.Generated.Rpc.Tools.{
  ToolsListParams, tools_list_params_from_dict, tools_list_params_to_dict, read_tools_list_params,
  tools_list_params_entries, tools_list_result_from_dict, tools_list_result_to_dict,
}
use copilot_sdk.Generated.Rpc.Modes.{
  SessionModelSwitchToParams, session_model_switch_to_params_from_dict,
  session_model_switch_to_params_to_dict, read_session_model_switch_to_params,
  session_model_switch_to_params_entries, session_model_switch_to_result_from_dict,
  session_model_switch_to_result_to_dict, SessionModeSetParams, session_mode_set_params_from_dict,
  session_mode_set_params_to_dict, read_session_mode_set_params, session_mode_set_params_entries,
  session_mode_set_result_from_dict, session_mode_set_result_to_dict, SessionPlanUpdateParams,
  session_plan_update_params_from_dict, session_plan_update_params_to_dict,
  read_session_plan_update_params, session_plan_update_params_entries,
  session_plan_update_result_from_dict, session_plan_update_result_to_dict,
}
use copilot_sdk.Generated.Rpc.Workspace.{
  SessionWorkspaceReadFileParams, session_workspace_read_file_params_from_dict,
  session_workspace_read_file_params_to_dict, read_session_workspace_read_file_params,
  session_workspace_read_file_params_entries, session_workspace_read_file_result_from_dict,
  session_workspace_read_file_result_to_dict, SessionWorkspaceCreateFileParams,
  session_workspace_create_file_params_from_dict, session_workspace_create_file_params_to_dict,
  read_session_workspace_create_file_params, session_workspace_create_file_params_entries,
  session_workspace_create_file_result_from_dict, session_workspace_create_file_result_to_dict,
  SessionFleetStartParams, session_fleet_start_params_from_dict, session_fleet_start_params_to_dict,
  read_session_fleet_start_params, session_fleet_start_params_entries,
  session_fleet_start_result_from_dict, session_fleet_start_result_to_dict,
}
use copilot_sdk.Generated.Rpc.Agents.{
  SessionAgentSelectParams, session_agent_select_params_from_dict,
  session_agent_select_params_to_dict, read_session_agent_select_params,
  session_agent_select_params_entries, session_agent_select_result_from_dict,
  session_agent_select_result_to_dict,
}
use copilot_sdk.Generated.Rpc.Models.RoundTrip.{ping_result_from_dict-ReadsBack}
use copilot_sdk.Generated.Rpc.Tools.RoundTrip.{tools_list_result_from_dict-ReadsBack}
use copilot_sdk.Generated.Rpc.Modes.RoundTrip.{
  session_model_switch_to_result_from_dict-ReadsBack, session_mode_set_result_from_dict-ReadsBack,
  session_plan_update_result_from_dict-ReadsBack, mode_of-ReadsBack,
}
use copilot_sdk.Generated.Rpc.Workspace.RoundTrip.{
  session_workspace_read_file_result_from_dict-ReadsBack,
  session_workspace_create_file_result_from_dict-ReadsBack,
  session_fleet_start_result_from_dict-ReadsBack,
}
use copilot_sdk.Generated.Rpc.Agents.RoundTrip.{session_agent_select_result_from_dict-ReadsBack}

pub tools_list-respond :
    (s : Server) (params : ToolsListParams)
    → tools_list (respond s) params ≡ s.serve_tools_list params
unfolding tools_list respond tools_list_params_from_dict tools_list_params_to_dict
tools_list-respond s params =
    reply_to-read tools_list_result_from_dict tools_list_result_to_dict
      tools_list_result_from_dict-ReadsBack tools_list_params_from_dict s.serve_tools_list
      (call_params (tools_list_params_to_dict params)) params
      (of_class-call_params read_tools_list_params (tools_list_params_entries params) refl
        ∙ simp (reads_back))

pub ping-respond :
    (numbers : Numbers) (s : Server) (params : PingParams)
    → ping numbers (respond s) params ≡ s.serve_ping params
unfolding ping respond ping_params_from_dict ping_params_to_dict
ping-respond numbers s params =
    reply_to-read (ping_result_from_dict numbers) ping_result_to_dict
      (ping_result_from_dict-ReadsBack numbers) ping_params_from_dict s.serve_ping
      (call_params (ping_params_to_dict params)) params
      (of_class-call_params read_ping_params (ping_params_entries params) refl ∙ simp (reads_back))

pub model_switch_to-respond :
    (s : Server) (id : String) (params : SessionModelSwitchToParams)
    → model_switch_to (respond s) id params ≡ s.serve_model_switch_to id params
unfolding model_switch_to respond session_model_switch_to_params_from_dict
    session_model_switch_to_params_to_dict from_str
model_switch_to-respond s id params =
    session-reply_to-read session_model_switch_to_result_from_dict
      session_model_switch_to_result_to_dict session_model_switch_to_result_from_dict-ReadsBack
      session_model_switch_to_params_from_dict s.serve_model_switch_to
      (session_params id (session_model_switch_to_params_to_dict params)) id params
      (of_class-session_params (λ get. from_str (get "sessionId")) id
        (session_model_switch_to_params_entries params) refl)
      (of_class-session_params read_session_model_switch_to_params id
        (session_model_switch_to_params_entries params) refl)

pub mode_set-respond :
    (s : Server) (id : String) (params : SessionModeSetParams)
    → mode_set (respond s) id params ≡ s.serve_mode_set id params
unfolding mode_set respond session_mode_set_params_from_dict session_mode_set_params_to_dict
    from_str
mode_set-respond s id params =
    session-reply_to-read session_mode_set_result_from_dict session_mode_set_result_to_dict
      session_mode_set_result_from_dict-ReadsBack session_mode_set_params_from_dict s.serve_mode_set
      (session_params id (session_mode_set_params_to_dict params)) id params
      (of_class-session_params (λ get. from_str (get "sessionId")) id
        (session_mode_set_params_entries params) refl)
      (of_class-session_params read_session_mode_set_params id
          (session_mode_set_params_entries params) refl
        ∙ simp (mode_of-ReadsBack))

pub plan_update-respond :
    (s : Server) (id : String) (params : SessionPlanUpdateParams)
    → plan_update (respond s) id params ≡ s.serve_plan_update id params
unfolding plan_update respond session_plan_update_params_from_dict
    session_plan_update_params_to_dict from_str
plan_update-respond s id params =
    session-reply_to-read session_plan_update_result_from_dict session_plan_update_result_to_dict
      session_plan_update_result_from_dict-ReadsBack session_plan_update_params_from_dict
      s.serve_plan_update (session_params id (session_plan_update_params_to_dict params)) id params
      (of_class-session_params (λ get. from_str (get "sessionId")) id
        (session_plan_update_params_entries params) refl)
      (of_class-session_params read_session_plan_update_params id
        (session_plan_update_params_entries params) refl)

pub workspace_read_file-respond :
    (s : Server) (id : String) (params : SessionWorkspaceReadFileParams)
    → workspace_read_file (respond s) id params ≡ s.serve_workspace_read_file id params
unfolding workspace_read_file respond session_workspace_read_file_params_from_dict
    session_workspace_read_file_params_to_dict from_str
workspace_read_file-respond s id params =
    session-reply_to-read session_workspace_read_file_result_from_dict
      session_workspace_read_file_result_to_dict
      session_workspace_read_file_result_from_dict-ReadsBack
      session_workspace_read_file_params_from_dict s.serve_workspace_read_file
      (session_params id (session_workspace_read_file_params_to_dict params)) id params
      (of_class-session_params (λ get. from_str (get "sessionId")) id
        (session_workspace_read_file_params_entries params) refl)
      (of_class-session_params read_session_workspace_read_file_params id
        (session_workspace_read_file_params_entries params) refl)

pub workspace_create_file-respond :
    (s : Server) (id : String) (params : SessionWorkspaceCreateFileParams)
    → workspace_create_file (respond s) id params ≡ s.serve_workspace_create_file id params
unfolding workspace_create_file respond session_workspace_create_file_params_from_dict
    session_workspace_create_file_params_to_dict from_str
workspace_create_file-respond s id params =
    session-reply_to-read session_workspace_create_file_result_from_dict
      session_workspace_create_file_result_to_dict
      session_workspace_create_file_result_from_dict-ReadsBack
      session_workspace_create_file_params_from_dict s.serve_workspace_create_file
      (session_params id (session_workspace_create_file_params_to_dict params)) id params
      (of_class-session_params (λ get. from_str (get "sessionId")) id
        (session_workspace_create_file_params_entries params) refl)
      (of_class-session_params read_session_workspace_create_file_params id
        (session_workspace_create_file_params_entries params) refl)

pub fleet_start-respond :
    (s : Server) (id : String) (params : SessionFleetStartParams)
    → fleet_start (respond s) id params ≡ s.serve_fleet_start id params
unfolding fleet_start respond session_fleet_start_params_from_dict
    session_fleet_start_params_to_dict from_str
fleet_start-respond s id params =
    session-reply_to-read session_fleet_start_result_from_dict session_fleet_start_result_to_dict
      session_fleet_start_result_from_dict-ReadsBack session_fleet_start_params_from_dict
      s.serve_fleet_start (session_params id (session_fleet_start_params_to_dict params)) id params
      (of_class-session_params (λ get. from_str (get "sessionId")) id
        (session_fleet_start_params_entries params) refl)
      (of_class-session_params read_session_fleet_start_params id
          (session_fleet_start_params_entries params) refl
        ∙ simp (reads_back))

pub agent_select-respond :
    (s : Server) (id : String) (params : SessionAgentSelectParams)
    → agent_select (respond s) id params ≡ s.serve_agent_select id params
unfolding agent_select respond session_agent_select_params_from_dict
    session_agent_select_params_to_dict from_str
agent_select-respond s id params =
    session-reply_to-read session_agent_select_result_from_dict session_agent_select_result_to_dict
      session_agent_select_result_from_dict-ReadsBack session_agent_select_params_from_dict
      s.serve_agent_select (session_params id (session_agent_select_params_to_dict params)) id
      params
      (of_class-session_params (λ get. from_str (get "sessionId")) id
        (session_agent_select_params_entries params) refl)
      (of_class-session_params read_session_agent_select_params id
        (session_agent_select_params_entries params) refl)
