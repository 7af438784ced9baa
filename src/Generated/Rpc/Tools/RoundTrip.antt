-- ===== src/Generated/Rpc/Tools/RoundTrip.antt =====
-- What the classes of the parent write, they read back.
use copilot_sdk.Prelude.{refl, ok, ◌∙◌}
use copilot_sdk.Wire.{of_class-to_fields}
use copilot_sdk.Wire.Convert.{
  Numbers, from_dict, write_dict, ReadsBack, reads_back, optional-ReadsBack, from_list-ReadsBack,
  from_dict-ReadsBack, ok-ReadsBack, from_dict-RefusesNone,
}
use copilot_sdk.Generated.Rpc.Tools.{
  account_get_quota_result_entries, account_get_quota_result_from_dict,
  account_get_quota_result_to_dict, quota_snapshot_entries, quota_snapshot_from_dict,
  quota_snapshot_to_dict, read_account_get_quota_result, read_quota_snapshot, read_tool,
  read_tools_list_params, read_tools_list_result, tool_entries, tool_from_dict, tool_to_dict,
  tools_list_params_entries, tools_list_params_from_dict, tools_list_params_to_dict,
  tools_list_result_entries, tools_list_result_from_dict, tools_list_result_to_dict,
}

pub tool_from_dict-ReadsBack : ReadsBack tool_from_dict tool_to_dict
unfolding tool_from_dict tool_to_dict
tool_from_dict-ReadsBack x =
    of_class-to_fields (read_tool) (tool_entries x) refl
    ∙ simp (
      reads_back,
      optional-ReadsBack (from_dict ok) (write_dict (λ v. v))
          (from_dict-ReadsBack ok (λ v. v) ok-ReadsBack) (from_dict-RefusesNone ok),
    )

pub tools_list_result_from_dict-ReadsBack :
    ReadsBack tools_list_result_from_dict tools_list_result_to_dict
unfolding tools_list_result_from_dict tools_list_result_to_dict
tools_list_result_from_dict-ReadsBack x =
    of_class-to_fields (read_tools_list_result) (tools_list_result_entries x) refl
    ∙ simp (from_list-ReadsBack tool_from_dict tool_to_dict tool_from_dict-ReadsBack)

pub tools_list_params_from_dict-ReadsBack :
    ReadsBack tools_list_params_from_dict tools_list_params_to_dict
unfolding tools_list_params_from_dict tools_list_params_to_dict
tools_list_params_from_dict-ReadsBack x =
    of_class-to_fields (read_tools_list_params) (tools_list_params_entries x) refl
    ∙ simp (reads_back)

pub quota_snapshot_from_dict-ReadsBack :
    (numbers : Numbers) → ReadsBack (quota_snapshot_from_dict numbers) quota_snapshot_to_dict
unfolding quota_snapshot_from_dict quota_snapshot_to_dict
quota_snapshot_from_dict-ReadsBack numbers x =
    of_class-to_fields (read_quota_snapshot numbers) (quota_snapshot_entries x) refl
    ∙ simp (reads_back)

pub account_get_quota_result_from_dict-ReadsBack :
    (numbers : Numbers)
    → ReadsBack (account_get_quota_result_from_dict numbers) account_get_quota_result_to_dict
unfolding account_get_quota_result_from_dict account_get_quota_result_to_dict
account_get_quota_result_from_dict-ReadsBack numbers x =
    of_class-to_fields (read_account_get_quota_result numbers) (account_get_quota_result_entries x)
      refl
    ∙ simp (
        from_dict-ReadsBack (quota_snapshot_from_dict numbers) quota_snapshot_to_dict
          (quota_snapshot_from_dict-ReadsBack numbers))
