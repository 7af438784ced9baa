-- ===== src/Generated/SessionEvents/Data/RoundTrip.antt =====
-- What the classes of the parent write, they read back.
use copilot_sdk.Prelude.{refl, ok, ◌∙◌}
use copilot_sdk.Value.{str, int}
use copilot_sdk.Wire.{of_class-to_fields}
use copilot_sdk.Wire.Convert.{
  from_str, from_int, from_list, from_dict, write_list, write_dict, ReadsBack, reads_back,
  optional-ReadsBack, optional_or_text-ReadsBack, from_list-ReadsBack, from_dict-ReadsBack,
  from_str-ReadsBack, from_int-ReadsBack, ok-ReadsBack, from_int-RefusesNone, from_list-RefusesNone,
  from_dict-RefusesNone,
}
use copilot_sdk.Generated.SessionEvents.{Library, Lawful, write_datetime}
use copilot_sdk.Generated.SessionEvents.Attachments.{
  agent_mode_of, agent_mode_to_enum, attachment_from_dict, attachment_to_dict,
}
use copilot_sdk.Generated.SessionEvents.Attachments.RoundTrip.{
  agent_mode_of-ReadsBack, agent_mode_of-RefusesNone, attachment_from_dict-ReadsBack,
}
use copilot_sdk.Generated.SessionEvents.Usage.{
  code_changes_from_dict, code_changes_to_dict, compaction_tokens_used_from_dict,
  compaction_tokens_used_to_dict, context_class_from_dict, context_class_to_dict,
  error_class_from_dict, error_class_to_dict, metadata_from_dict, metadata_to_dict,
}
use copilot_sdk.Generated.SessionEvents.Usage.RoundTrip.{
  code_changes_from_dict-ReadsBack, code_changes_from_dict-RefusesNone,
  compaction_tokens_used_from_dict-ReadsBack, compaction_tokens_used_from_dict-RefusesNone,
  context_class_from_dict-ReadsBack, context_class_from_dict-RefusesNone,
  context_class_from_dict-RefusesTexts, error_class_from_dict-ReadsBack,
  error_class_from_dict-RefusesNone, error_class_from_dict-RefusesTexts,
  metadata_from_dict-ReadsBack, metadata_from_dict-RefusesNone,
}
use copilot_sdk.Generated.SessionEvents.Quota.{
  model_metric_from_dict, model_metric_to_dict, operation_of, operation_to_enum,
  quota_snapshot_from_dict, quota_snapshot_to_dict, repository_class_from_dict,
  repository_class_to_dict,
}
use copilot_sdk.Generated.SessionEvents.Quota.RoundTrip.{
  model_metric_from_dict-ReadsBack, operation_of-ReadsBack, operation_of-RefusesNone,
  quota_snapshot_from_dict-ReadsBack, repository_class_from_dict-ReadsBack,
  repository_class_from_dict-RefusesNone, repository_class_from_dict-RefusesTexts,
}
use copilot_sdk.Generated.SessionEvents.Results.{
  result_class_from_dict, result_class_to_dict, role_of, role_to_enum, shutdown_type_of,
  shutdown_type_to_enum, source_type_of, source_type_to_enum, tool_request_from_dict,
  tool_request_to_dict,
}
use copilot_sdk.Generated.SessionEvents.Results.RoundTrip.{
  result_class_from_dict-ReadsBack, result_class_from_dict-RefusesNone, role_of-ReadsBack,
  role_of-RefusesNone, shutdown_type_of-ReadsBack, shutdown_type_of-RefusesNone,
  source_type_of-ReadsBack, source_type_of-RefusesNone, tool_request_from_dict-ReadsBack,
}
use copilot_sdk.Generated.SessionEvents.Data.{data_entries, data_from_dict, data_to_dict, read_data}

pub data_from_dict-ReadsBack :
    (lib : Library) → Lawful lib → ReadsBack (data_from_dict lib) (data_to_dict lib)
unfolding data_from_dict data_to_dict
data_from_dict-ReadsBack lib laws x =
    of_class-to_fields (read_data lib) (data_entries lib x) refl
    ∙ simp (
      reads_back,
      optional_or_text-ReadsBack context_class_from_dict context_class_to_dict
          context_class_from_dict-ReadsBack context_class_from_dict-RefusesNone
          context_class_from_dict-RefusesTexts,
      optional-ReadsBack lib.parse_datetime (write_datetime lib) laws.datetime_back
          laws.datetime_refuses,
      optional-ReadsBack from_int int from_int-ReadsBack from_int-RefusesNone,
      optional-ReadsBack operation_of operation_to_enum operation_of-ReadsBack
          operation_of-RefusesNone,
      optional_or_text-ReadsBack repository_class_from_dict repository_class_to_dict
          repository_class_from_dict-ReadsBack repository_class_from_dict-RefusesNone
          repository_class_from_dict-RefusesTexts,
      optional-ReadsBack source_type_of source_type_to_enum source_type_of-ReadsBack
          source_type_of-RefusesNone,
      optional-ReadsBack (code_changes_from_dict lib) code_changes_to_dict
          (code_changes_from_dict-ReadsBack lib) (code_changes_from_dict-RefusesNone lib),
      optional-ReadsBack (from_dict (model_metric_from_dict lib)) (write_dict model_metric_to_dict)
          (from_dict-ReadsBack (model_metric_from_dict lib) model_metric_to_dict
            (model_metric_from_dict-ReadsBack lib))
          (from_dict-RefusesNone (model_metric_from_dict lib)),
      optional-ReadsBack shutdown_type_of shutdown_type_to_enum shutdown_type_of-ReadsBack
          shutdown_type_of-RefusesNone,
      optional-ReadsBack (compaction_tokens_used_from_dict lib) compaction_tokens_used_to_dict
          (compaction_tokens_used_from_dict-ReadsBack lib)
          (compaction_tokens_used_from_dict-RefusesNone lib),
      optional_or_text-ReadsBack error_class_from_dict error_class_to_dict
          error_class_from_dict-ReadsBack error_class_from_dict-RefusesNone
          error_class_from_dict-RefusesTexts,
      optional-ReadsBack agent_mode_of agent_mode_to_enum agent_mode_of-ReadsBack
          agent_mode_of-RefusesNone,
      optional-ReadsBack (from_list (attachment_from_dict lib)) (write_list attachment_to_dict)
          (from_list-ReadsBack (attachment_from_dict lib) attachment_to_dict
            (attachment_from_dict-ReadsBack lib))
          (from_list-RefusesNone (attachment_from_dict lib)),
      optional-ReadsBack (from_list tool_request_from_dict) (write_list tool_request_to_dict)
          (from_list-ReadsBack tool_request_from_dict tool_request_to_dict
            tool_request_from_dict-ReadsBack)
          (from_list-RefusesNone tool_request_from_dict),
      optional-ReadsBack (from_dict (quota_snapshot_from_dict lib))
          (write_dict (quota_snapshot_to_dict lib))
          (from_dict-ReadsBack (quota_snapshot_from_dict lib) (quota_snapshot_to_dict lib)
            (quota_snapshot_from_dict-ReadsBack lib laws))
          (from_dict-RefusesNone (quota_snapshot_from_dict lib)),
      optional-ReadsBack (result_class_from_dict lib) result_class_to_dict
          (result_class_from_dict-ReadsBack lib) (result_class_from_dict-RefusesNone lib),
      optional-ReadsBack (from_dict ok) (write_dict (λ v. v))
          (from_dict-ReadsBack ok (λ v. v) ok-ReadsBack) (from_dict-RefusesNone ok),
      optional-ReadsBack (from_list from_str) (write_list str)
          (from_list-ReadsBack from_str str from_str-ReadsBack) (from_list-RefusesNone from_str),
      optional-ReadsBack metadata_from_dict metadata_to_dict metadata_from_dict-ReadsBack
          metadata_from_dict-RefusesNone,
      optional-ReadsBack role_of role_to_enum role_of-ReadsBack role_of-RefusesNone,
    )
