-- ===== src/Generated/Rpc/Modes/RoundTrip.antt =====
-- What the classes of the parent write, they read back.
use copilot_sdk.Prelude.{refl, [], ◌∙◌}
use copilot_sdk.Value.{str}
use copilot_sdk.Wire.{of_class-to_fields}
use copilot_sdk.Wire.Convert.{
  from_str, ReadsBack, reads_back, none_or-ReadsBack, from_str-ReadsBack,
}
use copilot_sdk.Generated.Rpc.Modes.{
  autopilot, interactive, mode_of, mode_to_enum, mode_value, plan, read_session_mode_get_result,
  read_session_mode_set_params, read_session_mode_set_result, read_session_model_get_current_result,
  read_session_model_switch_to_params, read_session_model_switch_to_result,
  read_session_plan_delete_result, read_session_plan_read_result, read_session_plan_update_params,
  read_session_plan_update_result, session_mode_get_result_entries,
  session_mode_get_result_from_dict, session_mode_get_result_to_dict,
  session_mode_set_params_entries, session_mode_set_params_from_dict,
  session_mode_set_params_to_dict, session_mode_set_result_entries,
  session_mode_set_result_from_dict, session_mode_set_result_to_dict,
  session_model_get_current_result_entries, session_model_get_current_result_from_dict,
  session_model_get_current_result_to_dict, session_model_switch_to_params_entries,
  session_model_switch_to_params_from_dict, session_model_switch_to_params_to_dict,
  session_model_switch_to_result_entries, session_model_switch_to_result_from_dict,
  session_model_switch_to_result_to_dict, session_plan_delete_result,
  session_plan_delete_result_from_dict, session_plan_delete_result_to_dict,
  session_plan_read_result_entries, session_plan_read_result_from_dict,
  session_plan_read_result_to_dict, session_plan_update_params_entries,
  session_plan_update_params_from_dict, session_plan_update_params_to_dict,
  session_plan_update_result, session_plan_update_result_from_dict,
  session_plan_update_result_to_dict,
}

pub session_model_get_current_result_from_dict-ReadsBack :
    ReadsBack session_model_get_current_result_from_dict session_model_get_current_result_to_dict
unfolding session_model_get_current_result_from_dict session_model_get_current_result_to_dict
session_model_get_current_result_from_dict-ReadsBack x =
    of_class-to_fields (read_session_model_get_current_result)
      (session_model_get_current_result_entries x) refl
    ∙ simp (reads_back)

pub session_model_switch_to_result_from_dict-ReadsBack :
    ReadsBack session_model_switch_to_result_from_dict session_model_switch_to_result_to_dict
unfolding session_model_switch_to_result_from_dict session_model_switch_to_result_to_dict
session_model_switch_to_result_from_dict-ReadsBack x =
    of_class-to_fields (read_session_model_switch_to_result)
      (session_model_switch_to_result_entries x) refl
    ∙ simp (reads_back)

pub session_model_switch_to_params_from_dict-ReadsBack :
    ReadsBack session_model_switch_to_params_from_dict session_model_switch_to_params_to_dict
unfolding session_model_switch_to_params_from_dict session_model_switch_to_params_to_dict
session_model_switch_to_params_from_dict-ReadsBack x =
    of_class-to_fields (read_session_model_switch_to_params)
      (session_model_switch_to_params_entries x) refl
    ∙ simp (reads_back)

pub mode_of-ReadsBack : ReadsBack mode_of mode_to_enum
unfolding mode_of mode_to_enum mode_value
mode_of-ReadsBack autopilot = refl
mode_of-ReadsBack interactive = refl
mode_of-ReadsBack plan = refl

pub session_mode_get_result_from_dict-ReadsBack :
    ReadsBack session_mode_get_result_from_dict session_mode_get_result_to_dict
unfolding session_mode_get_result_from_dict session_mode_get_result_to_dict
session_mode_get_result_from_dict-ReadsBack x =
    of_class-to_fields (read_session_mode_get_result) (session_mode_get_result_entries x) refl
    ∙ simp (mode_of-ReadsBack)

pub session_mode_set_result_from_dict-ReadsBack :
    ReadsBack session_mode_set_result_from_dict session_mode_set_result_to_dict
unfolding session_mode_set_result_from_dict session_mode_set_result_to_dict
session_mode_set_result_from_dict-ReadsBack x =
    of_class-to_fields (read_session_mode_set_result) (session_mode_set_result_entries x) refl
    ∙ simp (mode_of-ReadsBack)

pub session_mode_set_params_from_dict-ReadsBack :
    ReadsBack session_mode_set_params_from_dict session_mode_set_params_to_dict
unfolding session_mode_set_params_from_dict session_mode_set_params_to_dict
session_mode_set_params_from_dict-ReadsBack x =
    of_class-to_fields (read_session_mode_set_params) (session_mode_set_params_entries x) refl
    ∙ simp (mode_of-ReadsBack)

pub session_plan_read_result_from_dict-ReadsBack :
    ReadsBack session_plan_read_result_from_dict session_plan_read_result_to_dict
unfolding session_plan_read_result_from_dict session_plan_read_result_to_dict
session_plan_read_result_from_dict-ReadsBack x =
    of_class-to_fields (read_session_plan_read_result) (session_plan_read_result_entries x) refl
    ∙ simp (reads_back, none_or-ReadsBack from_str str from_str-ReadsBack (λ a. refl))

pub session_plan_update_result_from_dict-ReadsBack :
    ReadsBack session_plan_update_result_from_dict session_plan_update_result_to_dict
unfolding session_plan_update_result_from_dict session_plan_update_result_to_dict
session_plan_update_result_from_dict-ReadsBack session_plan_update_result =
    of_class-to_fields read_session_plan_update_result [] refl

pub session_plan_update_params_from_dict-ReadsBack :
    ReadsBack session_plan_update_params_from_dict session_plan_update_params_to_dict
unfolding session_plan_update_params_from_dict session_plan_update_params_to_dict
session_plan_update_params_from_dict-ReadsBack x =
    of_class-to_fields (read_session_plan_update_params) (session_plan_update_params_entries x) refl
    ∙ simp (reads_back)

pub session_plan_delete_result_from_dict-ReadsBack :
    ReadsBack session_plan_delete_result_from_dict session_plan_delete_result_to_dict
unfolding session_plan_delete_result_from_dict session_plan_delete_result_to_dict
session_plan_delete_result_from_dict-ReadsBack session_plan_delete_result =
    of_class-to_fields read_session_plan_delete_result [] refl
