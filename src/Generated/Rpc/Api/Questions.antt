-- ===== src/Generated/Rpc/Api/Questions.antt =====
-- The calls without parameters, answered by the server.
use copilot_sdk.Prelude.{String, ◌≡◌}
use copilot_sdk.Value.{get?, of_dict}
use copilot_sdk.Wire.{of_class}
use copilot_sdk.Wire.Convert.{Numbers, from_str}
use copilot_sdk.Generated.Rpc.Api.{
  models_list, account_get_quota, model_get_current, mode_get, plan_read, plan_delete,
  workspace_list_files, agent_list, agent_get_current, agent_deselect, compaction_compact,
}
use copilot_sdk.Generated.Rpc.Api.Serving.{Server, respond}
use copilot_sdk.Generated.Rpc.Api.Replies.{reply-read}
use copilot_sdk.Generated.Rpc.Models.{models_list_result_from_dict, models_list_result_to_dict}
use copilot_sdk.Generated.Rpc.Tools.{
  account_get_quota_result_from_dict, account_get_quota_result_to_dict,
}
use copilot_sdk.Generated.Rpc.Modes.{
  session_model_get_current_result_from_dict, session_model_get_current_result_to_dict,
  session_mode_get_result_from_dict, session_mode_get_result_to_dict,
  session_plan_read_result_from_dict, session_plan_read_result_to_dict,
  session_plan_delete_result_from_dict, session_plan_delete_result_to_dict,
}
use copilot_sdk.Generated.Rpc.Workspace.{
  session_workspace_list_files_result_from_dict, session_workspace_list_files_result_to_dict,
  session_compaction_compact_result_from_dict, session_compaction_compact_result_to_dict,
}
use copilot_sdk.Generated.Rpc.Agents.{
  session_agent_list_result_from_dict, session_agent_list_result_to_dict,
  session_agent_get_current_result_from_dict, session_agent_get_current_result_to_dict,
  session_agent_deselect_result_from_dict, session_agent_deselect_result_to_dict,
}
use copilot_sdk.Generated.Rpc.Models.RoundTrip.{models_list_result_from_dict-ReadsBack}
use copilot_sdk.Generated.Rpc.Tools.RoundTrip.{account_get_quota_result_from_dict-ReadsBack}
use copilot_sdk.Generated.Rpc.Modes.RoundTrip.{
  session_model_get_current_result_from_dict-ReadsBack, session_mode_get_result_from_dict-ReadsBack,
  session_plan_read_result_from_dict-ReadsBack, session_plan_delete_result_from_dict-ReadsBack,
}
use copilot_sdk.Generated.Rpc.Workspace.RoundTrip.{
  session_workspace_list_files_result_from_dict-ReadsBack,
  session_compaction_compact_result_from_dict-ReadsBack,
}
use copilot_sdk.Generated.Rpc.Agents.RoundTrip.{
  session_agent_list_result_from_dict-ReadsBack,
  session_agent_get_current_result_from_dict-ReadsBack,
  session_agent_deselect_result_from_dict-ReadsBack,
}

pub models_list-respond :
    (numbers : Numbers) (s : Server) → models_list numbers (respond s) ≡ s.serve_models_list
unfolding models_list respond
models_list-respond numbers s =
    reply-read (models_list_result_from_dict numbers) models_list_result_to_dict
      (models_list_result_from_dict-ReadsBack numbers) s.serve_models_list

pub account_get_quota-respond :
    (numbers : Numbers) (s : Server)
    → account_get_quota numbers (respond s) ≡ s.serve_account_get_quota
unfolding account_get_quota respond
account_get_quota-respond numbers s =
    reply-read (account_get_quota_result_from_dict numbers) account_get_quota_result_to_dict
      (account_get_quota_result_from_dict-ReadsBack numbers) s.serve_account_get_quota

pub model_get_current-respond :
    (s : Server) (id : String) → model_get_current (respond s) id ≡ s.serve_model_get_current id
unfolding model_get_current respond from_str of_class get? of_dict
model_get_current-respond s id =
    reply-read session_model_get_current_result_from_dict session_model_get_current_result_to_dict
      session_model_get_current_result_from_dict-ReadsBack (s.serve_model_get_current id)

pub mode_get-respond : (s : Server) (id : String) → mode_get (respond s) id ≡ s.serve_mode_get id
unfolding mode_get respond from_str of_class get? of_dict
mode_get-respond s id =
    reply-read session_mode_get_result_from_dict session_mode_get_result_to_dict
      session_mode_get_result_from_dict-ReadsBack (s.serve_mode_get id)

pub plan_read-respond : (s : Server) (id : String) → plan_read (respond s) id ≡ s.serve_plan_read id
unfolding plan_read respond from_str of_class get? of_dict
plan_read-respond s id =
    reply-read session_plan_read_result_from_dict session_plan_read_result_to_dict
      session_plan_read_result_from_dict-ReadsBack (s.serve_plan_read id)

pub plan_delete-respond :
    (s : Server) (id : String) → plan_delete (respond s) id ≡ s.serve_plan_delete id
unfolding plan_delete respond from_str of_class get? of_dict
plan_delete-respond s id =
    reply-read session_plan_delete_result_from_dict session_plan_delete_result_to_dict
      session_plan_delete_result_from_dict-ReadsBack (s.serve_plan_delete id)

pub workspace_list_files-respond :
    (s : Server) (id : String)
    → workspace_list_files (respond s) id ≡ s.serve_workspace_list_files id
unfolding workspace_list_files respond from_str of_class get? of_dict
workspace_list_files-respond s id =
    reply-read session_workspace_list_files_result_from_dict
      session_workspace_list_files_result_to_dict
      session_workspace_list_files_result_from_dict-ReadsBack (s.serve_workspace_list_files id)

pub agent_list-respond :
    (s : Server) (id : String) → agent_list (respond s) id ≡ s.serve_agent_list id
unfolding agent_list respond from_str of_class get? of_dict
agent_list-respond s id =
    reply-read session_agent_list_result_from_dict session_agent_list_result_to_dict
      session_agent_list_result_from_dict-ReadsBack (s.serve_agent_list id)

pub agent_get_current-respond :
    (s : Server) (id : String) → agent_get_current (respond s) id ≡ s.serve_agent_get_current id
unfolding agent_get_current respond from_str of_class get? of_dict
agent_get_current-respond s id =
    reply-read session_agent_get_current_result_from_dict session_agent_get_current_result_to_dict
      session_agent_get_current_result_from_dict-ReadsBack (s.serve_agent_get_current id)

pub agent_deselect-respond :
    (s : Server) (id : String) → agent_deselect (respond s) id ≡ s.serve_agent_deselect id
unfolding agent_deselect respond from_str of_class get? of_dict
agent_deselect-respond s id =
    reply-read session_agent_deselect_result_from_dict session_agent_deselect_result_to_dict
      session_agent_deselect_result_from_dict-ReadsBack (s.serve_agent_deselect id)

pub compaction_compact-respond :
    (numbers : Numbers) (s : Server) (id : String)
    → compaction_compact numbers (respond s) id ≡ s.serve_compaction_compact id
unfolding compaction_compact respond from_str of_class get? of_dict
compaction_compact-respond numbers s id =
    reply-read (session_compaction_compact_result_from_dict numbers)
      session_compaction_compact_result_to_dict
      (session_compaction_compact_result_from_dict-ReadsBack numbers)
      (s.serve_compaction_compact id)
