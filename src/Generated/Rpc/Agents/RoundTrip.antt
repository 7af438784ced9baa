-- ===== src/Generated/Rpc/Agents/RoundTrip.antt =====
-- What the classes of the parent write, they read back.
use copilot_sdk.Prelude.{refl, [], ◌∙◌}
use copilot_sdk.Wire.{of_class-to_fields}
use copilot_sdk.Wire.Convert.{
  ReadsBack, RefusesNone, reads_back, of_class-RefusesNone, optional-ReadsBack, from_list-ReadsBack,
}
use copilot_sdk.Generated.Rpc.Agents.{
  agent_element_entries, agent_element_from_dict, agent_element_to_dict, read_agent_element,
  read_session_agent_deselect_result, read_session_agent_get_current_result,
  read_session_agent_get_current_result_agent, read_session_agent_list_result,
  read_session_agent_select_params, read_session_agent_select_result,
  read_session_agent_select_result_agent, session_agent_deselect_result,
  session_agent_deselect_result_from_dict, session_agent_deselect_result_to_dict,
  session_agent_get_current_result_agent_entries, session_agent_get_current_result_agent_from_dict,
  session_agent_get_current_result_agent_to_dict, session_agent_get_current_result_entries,
  session_agent_get_current_result_from_dict, session_agent_get_current_result_to_dict,
  session_agent_list_result_entries, session_agent_list_result_from_dict,
  session_agent_list_result_to_dict, session_agent_select_params_entries,
  session_agent_select_params_from_dict, session_agent_select_params_to_dict,
  session_agent_select_result_agent_entries, session_agent_select_result_agent_from_dict,
  session_agent_select_result_agent_to_dict, session_agent_select_result_entries,
  session_agent_select_result_from_dict, session_agent_select_result_to_dict,
}

pub agent_element_from_dict-ReadsBack : ReadsBack agent_element_from_dict agent_element_to_dict
unfolding agent_element_from_dict agent_element_to_dict
agent_element_from_dict-ReadsBack x =
    of_class-to_fields (read_agent_element) (agent_element_entries x) refl ∙ simp (reads_back)

pub session_agent_list_result_from_dict-ReadsBack :
    ReadsBack session_agent_list_result_from_dict session_agent_list_result_to_dict
unfolding session_agent_list_result_from_dict session_agent_list_result_to_dict
session_agent_list_result_from_dict-ReadsBack x =
    of_class-to_fields (read_session_agent_list_result) (session_agent_list_result_entries x) refl
    ∙ simp (
        from_list-ReadsBack agent_element_from_dict agent_element_to_dict
          agent_element_from_dict-ReadsBack)

pub session_agent_get_current_result_agent_from_dict-ReadsBack :
    ReadsBack session_agent_get_current_result_agent_from_dict
      session_agent_get_current_result_agent_to_dict
unfolding session_agent_get_current_result_agent_from_dict
    session_agent_get_current_result_agent_to_dict
session_agent_get_current_result_agent_from_dict-ReadsBack x =
    of_class-to_fields (read_session_agent_get_current_result_agent)
      (session_agent_get_current_result_agent_entries x) refl
    ∙ simp (reads_back)

pub session_agent_get_current_result_agent_from_dict-RefusesNone :
    RefusesNone session_agent_get_current_result_agent_from_dict
unfolding session_agent_get_current_result_agent_from_dict
session_agent_get_current_result_agent_from_dict-RefusesNone =
    of_class-RefusesNone (read_session_agent_get_current_result_agent)

pub session_agent_get_current_result_from_dict-ReadsBack :
    ReadsBack session_agent_get_current_result_from_dict session_agent_get_current_result_to_dict
unfolding session_agent_get_current_result_from_dict session_agent_get_current_result_to_dict
session_agent_get_current_result_from_dict-ReadsBack x =
    of_class-to_fields (read_session_agent_get_current_result)
      (session_agent_get_current_result_entries x) refl
    ∙ simp (
        optional-ReadsBack session_agent_get_current_result_agent_from_dict
          session_agent_get_current_result_agent_to_dict
          session_agent_get_current_result_agent_from_dict-ReadsBack
          session_agent_get_current_result_agent_from_dict-RefusesNone)

pub session_agent_select_result_agent_from_dict-ReadsBack :
    ReadsBack session_agent_select_result_agent_from_dict session_agent_select_result_agent_to_dict
unfolding session_agent_select_result_agent_from_dict session_agent_select_result_agent_to_dict
session_agent_select_result_agent_from_dict-ReadsBack x =
    of_class-to_fields (read_session_agent_select_result_agent)
      (session_agent_select_result_agent_entries x) refl
    ∙ simp (reads_back)

pub session_agent_select_result_from_dict-ReadsBack :
    ReadsBack session_agent_select_result_from_dict session_agent_select_result_to_dict
unfolding session_agent_select_result_from_dict session_agent_select_result_to_dict
session_agent_select_result_from_dict-ReadsBack x =
    of_class-to_fields (read_session_agent_select_result) (session_agent_select_result_entries x)
      refl
    ∙ simp (session_agent_select_result_agent_from_dict-ReadsBack)

pub session_agent_select_params_from_dict-ReadsBack :
    ReadsBack session_agent_select_params_from_dict session_agent_select_params_to_dict
unfolding session_agent_select_params_from_dict session_agent_select_params_to_dict
session_agent_select_params_from_dict-ReadsBack x =
    of_class-to_fields (read_session_agent_select_params) (session_agent_select_params_entries x)
      refl
    ∙ simp (reads_back)

pub session_agent_deselect_result_from_dict-ReadsBack :
    ReadsBack session_agent_deselect_result_from_dict session_agent_deselect_result_to_dict
unfolding session_agent_deselect_result_from_dict session_agent_deselect_result_to_dict
session_agent_deselect_result_from_dict-ReadsBack session_agent_deselect_result =
    of_class-to_fields read_session_agent_deselect_result [] refl
