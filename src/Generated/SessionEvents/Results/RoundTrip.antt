-- ===== src/Generated/SessionEvents/Results/RoundTrip.antt =====
-- What the classes of the parent write, they read back.
use copilot_sdk.Prelude.{refl, ◌∙◌}
use copilot_sdk.Wire.{of_class-to_fields}
use copilot_sdk.Wire.Convert.{
  from_list, write_list, ReadsBack, RefusesNone, reads_back, of_class-RefusesNone,
  optional-ReadsBack, from_list-ReadsBack, from_list-RefusesNone,
}
use copilot_sdk.Generated.SessionEvents.{Library}
use copilot_sdk.Generated.SessionEvents.Contents.{content_from_dict, content_to_dict}
use copilot_sdk.Generated.SessionEvents.Contents.RoundTrip.{content_from_dict-ReadsBack}
use copilot_sdk.Generated.SessionEvents.Results.{
  custom, developer, error, function, local, read_result_class, read_tool_request, remote,
  result_class_entries, result_class_from_dict, result_class_to_dict, role_of, role_to_enum,
  role_value, routine, shutdown_type_of, shutdown_type_to_enum, shutdown_type_value, source_type_of,
  source_type_to_enum, source_type_value, system, tool_request_entries, tool_request_from_dict,
  tool_request_to_dict, tool_request_type_of, tool_request_type_to_enum, tool_request_type_value,
}

pub result_class_from_dict-ReadsBack :
    (lib : Library) → ReadsBack (result_class_from_dict lib) result_class_to_dict
unfolding result_class_from_dict result_class_to_dict
result_class_from_dict-ReadsBack lib x =
    of_class-to_fields (read_result_class lib) (result_class_entries x) refl
    ∙ simp (
      reads_back,
      optional-ReadsBack (from_list (content_from_dict lib)) (write_list content_to_dict)
          (from_list-ReadsBack (content_from_dict lib) content_to_dict
            (content_from_dict-ReadsBack lib))
          (from_list-RefusesNone (content_from_dict lib)),
    )

pub result_class_from_dict-RefusesNone : (lib : Library) → RefusesNone (result_class_from_dict lib)
unfolding result_class_from_dict
result_class_from_dict-RefusesNone lib = of_class-RefusesNone (read_result_class lib)

pub role_of-ReadsBack : ReadsBack role_of role_to_enum
unfolding role_of role_to_enum role_value
role_of-ReadsBack developer = refl
role_of-ReadsBack system = refl

pub role_of-RefusesNone : RefusesNone role_of
unfolding role_of
role_of-RefusesNone = (_, refl)

pub shutdown_type_of-ReadsBack : ReadsBack shutdown_type_of shutdown_type_to_enum
unfolding shutdown_type_of shutdown_type_to_enum shutdown_type_value
shutdown_type_of-ReadsBack error = refl
shutdown_type_of-ReadsBack routine = refl

pub shutdown_type_of-RefusesNone : RefusesNone shutdown_type_of
unfolding shutdown_type_of
shutdown_type_of-RefusesNone = (_, refl)

pub source_type_of-ReadsBack : ReadsBack source_type_of source_type_to_enum
unfolding source_type_of source_type_to_enum source_type_value
source_type_of-ReadsBack local = refl
source_type_of-ReadsBack remote = refl

pub source_type_of-RefusesNone : RefusesNone source_type_of
unfolding source_type_of
source_type_of-RefusesNone = (_, refl)

pub tool_request_type_of-ReadsBack : ReadsBack tool_request_type_of tool_request_type_to_enum
unfolding tool_request_type_of tool_request_type_to_enum tool_request_type_value
tool_request_type_of-ReadsBack custom = refl
tool_request_type_of-ReadsBack function = refl

pub tool_request_type_of-RefusesNone : RefusesNone tool_request_type_of
unfolding tool_request_type_of
tool_request_type_of-RefusesNone = (_, refl)

pub tool_request_from_dict-ReadsBack : ReadsBack tool_request_from_dict tool_request_to_dict
unfolding tool_request_from_dict tool_request_to_dict
tool_request_from_dict-ReadsBack x =
    of_class-to_fields (read_tool_request) (tool_request_entries x) refl
    ∙ simp (
      reads_back,
      optional-ReadsBack tool_request_type_of tool_request_type_to_enum
          tool_request_type_of-ReadsBack tool_request_type_of-RefusesNone,
    )
