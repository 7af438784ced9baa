-- ===== src/Generated/Rpc/Workspace/RoundTrip.antt =====
-- What the classes of the parent write, they read back.
use copilot_sdk.Prelude.{refl, [], ◌∙◌}
use copilot_sdk.Value.{str}
use copilot_sdk.Wire.{of_class-to_fields}
use copilot_sdk.Wire.Convert.{
  Numbers, from_str, ReadsBack, reads_back, from_list-ReadsBack, from_str-ReadsBack,
}
use copilot_sdk.Generated.Rpc.Workspace.{
  read_session_compaction_compact_result, read_session_fleet_start_params,
  read_session_fleet_start_result, read_session_workspace_create_file_params,
  read_session_workspace_create_file_result, read_session_workspace_list_files_result,
  read_session_workspace_read_file_params, read_session_workspace_read_file_result,
  session_compaction_compact_result_entries, session_compaction_compact_result_from_dict,
  session_compaction_compact_result_to_dict, session_fleet_start_params_entries,
  session_fleet_start_params_from_dict, session_fleet_start_params_to_dict,
  session_fleet_start_result_entries, session_fleet_start_result_from_dict,
  session_fleet_start_result_to_dict, session_workspace_create_file_params_entries,
  session_workspace_create_file_params_from_dict, session_workspace_create_file_params_to_dict,
  session_workspace_create_file_result, session_workspace_create_file_result_from_dict,
  session_workspace_create_file_result_to_dict, session_workspace_list_files_result_entries,
  session_workspace_list_files_result_from_dict, session_workspace_list_files_result_to_dict,
  session_workspace_read_file_params_entries, session_workspace_read_file_params_from_dict,
  session_workspace_read_file_params_to_dict, session_workspace_read_file_result_entries,
  session_workspace_read_file_result_from_dict, session_workspace_read_file_result_to_dict,
}

pub session_workspace_list_files_result_from_dict-ReadsBack :
    ReadsBack session_workspace_list_files_result_from_dict
      session_workspace_list_files_result_to_dict
unfolding session_workspace_list_files_result_from_dict session_workspace_list_files_result_to_dict
session_workspace_list_files_result_from_dict-ReadsBack x =
    of_class-to_fields (read_session_workspace_list_files_result)
      (session_workspace_list_files_result_entries x) refl
    ∙ simp (from_list-ReadsBack from_str str from_str-ReadsBack)

pub session_workspace_read_file_result_from_dict-ReadsBack :
    ReadsBack session_workspace_read_file_result_from_dict
      session_workspace_read_file_result_to_dict
unfolding session_workspace_read_file_result_from_dict session_workspace_read_file_result_to_dict
session_workspace_read_file_result_from_dict-ReadsBack x =
    of_class-to_fields (read_session_workspace_read_file_result)
      (session_workspace_read_file_result_entries x) refl
    ∙ simp (reads_back)

pub session_workspace_read_file_params_from_dict-ReadsBack :
    ReadsBack session_workspace_read_file_params_from_dict
      session_workspace_read_file_params_to_dict
unfolding session_workspace_read_file_params_from_dict session_workspace_read_file_params_to_dict
session_workspace_read_file_params_from_dict-ReadsBack x =
    of_class-to_fields (read_session_workspace_read_file_params)
      (session_workspace_read_file_params_entries x) refl
    ∙ simp (reads_back)

pub session_workspace_create_file_result_from_dict-ReadsBack :
    ReadsBack session_workspace_create_file_result_from_dict
      session_workspace_create_file_result_to_dict
unfolding session_workspace_create_file_result_from_dict
    session_workspace_create_file_result_to_dict
session_workspace_create_file_result_from_dict-ReadsBack session_workspace_create_file_result =
    of_class-to_fields read_session_workspace_create_file_result [] refl

pub session_workspace_create_file_params_from_dict-ReadsBack :
    ReadsBack session_workspace_create_file_params_from_dict
      session_workspace_create_file_params_to_dict
unfolding session_workspace_create_file_params_from_dict
    session_workspace_create_file_params_to_dict
session_workspace_create_file_params_from_dict-ReadsBack x =
    of_class-to_fields (read_session_workspace_create_file_params)
      (session_workspace_create_file_params_entries x) refl
    ∙ simp (reads_back)

pub session_fleet_start_result_from_dict-ReadsBack :
    ReadsBack session_fleet_start_result_from_dict session_fleet_start_result_to_dict
unfolding session_fleet_start_result_from_dict session_fleet_start_result_to_dict
session_fleet_start_result_from_dict-ReadsBack x =
    of_class-to_fields (read_session_fleet_start_result) (session_fleet_start_result_entries x) refl
    ∙ simp (reads_back)

pub session_fleet_start_params_from_dict-ReadsBack :
    ReadsBack session_fleet_start_params_from_dict session_fleet_start_params_to_dict
unfolding session_fleet_start_params_from_dict session_fleet_start_params_to_dict
session_fleet_start_params_from_dict-ReadsBack x =
    of_class-to_fields (read_session_fleet_start_params) (session_fleet_start_params_entries x) refl
    ∙ simp (reads_back)

pub session_compaction_compact_result_from_dict-ReadsBack :
    (numbers : Numbers)
    → ReadsBack
        (session_compaction_compact_result_from_dict numbers)
        session_compaction_compact_result_to_dict
unfolding session_compaction_compact_result_from_dict session_compaction_compact_result_to_dict
session_compaction_compact_result_from_dict-ReadsBack numbers x =
    of_class-to_fields (read_session_compaction_compact_result numbers)
      (session_compaction_compact_result_entries x) refl
    ∙ simp (reads_back)
