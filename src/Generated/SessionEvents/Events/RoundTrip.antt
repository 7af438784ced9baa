-- ===== src/Generated/SessionEvents/Events/RoundTrip.antt =====
-- What the classes of the parent write, they read back.
use copilot_sdk.Prelude.{◌≡◌, refl, ok, ◌∙◌}
use copilot_sdk.Wire.{of_class-to_fields}
use copilot_sdk.Wire.Convert.{ReadsBack, reads_back, none_or-ReadsBack}
use copilot_sdk.Generated.SessionEvents.{Library, Lawful, write_uuid}
use copilot_sdk.Generated.SessionEvents.Data.RoundTrip.{data_from_dict-ReadsBack}
use copilot_sdk.Generated.SessionEvents.Events.{
  SessionEvent, abort, assistant_intent, assistant_message, assistant_message_delta,
  assistant_reasoning, assistant_reasoning_delta, assistant_streaming_delta, assistant_turn_end,
  assistant_turn_start, assistant_usage, hook_end, hook_start, pending_messages_modified,
  read_session_event, session_compaction_complete, session_compaction_start,
  session_context_changed, session_error, session_event_entries, session_event_from_dict,
  session_event_to_dict, session_event_type_of, session_event_type_to_enum,
  session_event_type_value, session_handoff, session_idle, session_info, session_mode_changed,
  session_model_change, session_plan_changed, session_resume, session_shutdown,
  session_snapshot_rewind, session_start, session_task_complete, session_title_changed,
  session_truncation, session_usage_info, session_warning, session_workspace_file_changed,
  skill_invoked, subagent_completed, subagent_failed, subagent_selected, subagent_started,
  system_message, tool_execution_complete, tool_execution_partial_result, tool_execution_progress,
  tool_execution_start, tool_user_requested, unknown, user_message,
}

pub session_event_type_of-ReadsBack : ReadsBack session_event_type_of session_event_type_to_enum
unfolding session_event_type_of session_event_type_to_enum session_event_type_value
session_event_type_of-ReadsBack abort = refl
session_event_type_of-ReadsBack assistant_intent = refl
session_event_type_of-ReadsBack assistant_message = refl
session_event_type_of-ReadsBack assistant_message_delta = refl
session_event_type_of-ReadsBack assistant_reasoning = refl
session_event_type_of-ReadsBack assistant_reasoning_delta = refl
session_event_type_of-ReadsBack assistant_streaming_delta = refl
session_event_type_of-ReadsBack assistant_turn_end = refl
session_event_type_of-ReadsBack assistant_turn_start = refl
session_event_type_of-ReadsBack assistant_usage = refl
session_event_type_of-ReadsBack hook_end = refl
session_event_type_of-ReadsBack hook_start = refl
session_event_type_of-ReadsBack pending_messages_modified = refl
session_event_type_of-ReadsBack session_compaction_complete = refl
session_event_type_of-ReadsBack session_compaction_start = refl
session_event_type_of-ReadsBack session_context_changed = refl
session_event_type_of-ReadsBack session_error = refl
session_event_type_of-ReadsBack session_handoff = refl
session_event_type_of-ReadsBack session_idle = refl
session_event_type_of-ReadsBack session_info = refl
session_event_type_of-ReadsBack session_model_change = refl
session_event_type_of-ReadsBack session_mode_changed = refl
session_event_type_of-ReadsBack session_plan_changed = refl
session_event_type_of-ReadsBack session_resume = refl
session_event_type_of-ReadsBack session_shutdown = refl
session_event_type_of-ReadsBack session_snapshot_rewind = refl
session_event_type_of-ReadsBack session_start = refl
session_event_type_of-ReadsBack session_task_complete = refl
session_event_type_of-ReadsBack session_title_changed = refl
session_event_type_of-ReadsBack session_truncation = refl
session_event_type_of-ReadsBack session_usage_info = refl
session_event_type_of-ReadsBack session_warning = refl
session_event_type_of-ReadsBack session_workspace_file_changed = refl
session_event_type_of-ReadsBack skill_invoked = refl
session_event_type_of-ReadsBack subagent_completed = refl
session_event_type_of-ReadsBack subagent_failed = refl
session_event_type_of-ReadsBack subagent_selected = refl
session_event_type_of-ReadsBack subagent_started = refl
session_event_type_of-ReadsBack system_message = refl
session_event_type_of-ReadsBack tool_execution_complete = refl
session_event_type_of-ReadsBack tool_execution_partial_result = refl
session_event_type_of-ReadsBack tool_execution_progress = refl
session_event_type_of-ReadsBack tool_execution_start = refl
session_event_type_of-ReadsBack tool_user_requested = refl
session_event_type_of-ReadsBack user_message = refl
session_event_type_of-ReadsBack unknown = refl

pub session_event_from_dict-ReadsBack :
    (lib : Library)
    → Lawful lib
    → ReadsBack (session_event_from_dict lib) (session_event_to_dict lib)
unfolding session_event_from_dict session_event_to_dict
session_event_from_dict-ReadsBack lib laws x =
    of_class-to_fields (read_session_event lib) (session_event_entries lib x) refl
    ∙ simp (
      reads_back,
      data_from_dict-ReadsBack lib laws,
      laws.uuid_back,
      laws.datetime_back,
      session_event_type_of-ReadsBack,
      none_or-ReadsBack lib.parse_uuid (write_uuid lib) laws.uuid_back (λ a. refl),
    )

-- An event is read back, with everything in its data, from the dict that it writes, if dates and UUIDs are
-- parsed from what they print as and None is no date.
pub session_event-round_trip :
    (lib : Library)
    → Lawful lib
    → (x : SessionEvent lib) → session_event_from_dict lib (session_event_to_dict lib x) ≡ ok x
session_event-round_trip = session_event_from_dict-ReadsBack
