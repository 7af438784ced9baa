-- ===== src/Generated/SessionEvents/Events.antt =====
-- Events: `SessionEventType` and `SessionEvent` of python/copilot/generated/session_events.py.
pub mod RoundTrip
use copilot_sdk.Prelude.{
  String, Option, List, [], ◌∷◌, Bool, Result, ok, str_eq, if◌then◌else◌, ◌>>=◌,
}
use copilot_sdk.Value.{Value, str, bool, obj}
use copilot_sdk.Wire.{Entry, always, given, to_fields, of_class}
use copilot_sdk.Wire.Convert.{from_bool, optional, none_or, write_optional}
use copilot_sdk.Generated.SessionEvents.{Library, write_datetime, write_uuid}
use copilot_sdk.Generated.SessionEvents.Data.{Data, data_from_dict, data_to_dict}

-- `SessionEventType`
pub data SessionEventType : Type 0 where
  abort : SessionEventType
  assistant_intent : SessionEventType
  assistant_message : SessionEventType
  assistant_message_delta : SessionEventType
  assistant_reasoning : SessionEventType
  assistant_reasoning_delta : SessionEventType
  assistant_streaming_delta : SessionEventType
  assistant_turn_end : SessionEventType
  assistant_turn_start : SessionEventType
  assistant_usage : SessionEventType
  hook_end : SessionEventType
  hook_start : SessionEventType
  pending_messages_modified : SessionEventType
  session_compaction_complete : SessionEventType
  session_compaction_start : SessionEventType
  session_context_changed : SessionEventType
  session_error : SessionEventType
  session_handoff : SessionEventType
  session_idle : SessionEventType
  session_info : SessionEventType
  session_model_change : SessionEventType
  session_mode_changed : SessionEventType
  session_plan_changed : SessionEventType
  session_resume : SessionEventType
  session_shutdown : SessionEventType
  session_snapshot_rewind : SessionEventType
  session_start : SessionEventType
  session_task_complete : SessionEventType
  session_title_changed : SessionEventType
  session_truncation : SessionEventType
  session_usage_info : SessionEventType
  session_warning : SessionEventType
  session_workspace_file_changed : SessionEventType
  skill_invoked : SessionEventType
  subagent_completed : SessionEventType
  subagent_failed : SessionEventType
  subagent_selected : SessionEventType
  subagent_started : SessionEventType
  system_message : SessionEventType
  tool_execution_complete : SessionEventType
  tool_execution_partial_result : SessionEventType
  tool_execution_progress : SessionEventType
  tool_execution_start : SessionEventType
  tool_user_requested : SessionEventType
  user_message : SessionEventType
  unknown : SessionEventType

-- The value of a member
unfoldable pub session_event_type_value : SessionEventType → String
session_event_type_value abort = "abort"
session_event_type_value assistant_intent = "assistant.intent"
session_event_type_value assistant_message = "assistant.message"
session_event_type_value assistant_message_delta = "assistant.message_delta"
session_event_type_value assistant_reasoning = "assistant.reasoning"
session_event_type_value assistant_reasoning_delta = "assistant.reasoning_delta"
session_event_type_value assistant_streaming_delta = "assistant.streaming_delta"
session_event_type_value assistant_turn_end = "assistant.turn_end"
session_event_type_value assistant_turn_start = "assistant.turn_start"
session_event_type_value assistant_usage = "assistant.usage"
session_event_type_value hook_end = "hook.end"
session_event_type_value hook_start = "hook.start"
session_event_type_value pending_messages_modified = "pending_messages.modified"
session_event_type_value session_compaction_complete = "session.compaction_complete"
session_event_type_value session_compaction_start = "session.compaction_start"
session_event_type_value session_context_changed = "session.context_changed"
session_event_type_value session_error = "session.error"
session_event_type_value session_handoff = "session.handoff"
session_event_type_value session_idle = "session.idle"
session_event_type_value session_info = "session.info"
session_event_type_value session_model_change = "session.model_change"
session_event_type_value session_mode_changed = "session.mode_changed"
session_event_type_value session_plan_changed = "session.plan_changed"
session_event_type_value session_resume = "session.resume"
session_event_type_value session_shutdown = "session.shutdown"
session_event_type_value session_snapshot_rewind = "session.snapshot_rewind"
session_event_type_value session_start = "session.start"
session_event_type_value session_task_complete = "session.task_complete"
session_event_type_value session_title_changed = "session.title_changed"
session_event_type_value session_truncation = "session.truncation"
session_event_type_value session_usage_info = "session.usage_info"
session_event_type_value session_warning = "session.warning"
session_event_type_value session_workspace_file_changed = "session.workspace_file_changed"
session_event_type_value skill_invoked = "skill.invoked"
session_event_type_value subagent_completed = "subagent.completed"
session_event_type_value subagent_failed = "subagent.failed"
session_event_type_value subagent_selected = "subagent.selected"
session_event_type_value subagent_started = "subagent.started"
session_event_type_value system_message = "system.message"
session_event_type_value tool_execution_complete = "tool.execution_complete"
session_event_type_value tool_execution_partial_result = "tool.execution_partial_result"
session_event_type_value tool_execution_progress = "tool.execution_progress"
session_event_type_value tool_execution_start = "tool.execution_start"
session_event_type_value tool_user_requested = "tool.user_requested"
session_event_type_value user_message = "user.message"
session_event_type_value unknown = "unknown"

-- `SessionEventType(x)`, with its `_missing_`
unfoldable pub session_event_type_of : Value → Result SessionEventType
session_event_type_of (str s) =
    if str_eq s "abort"
    then ok abort
    else if str_eq s "assistant.intent"
    then ok assistant_intent
    else if str_eq s "assistant.message"
    then ok assistant_message
    else if str_eq s "assistant.message_delta"
    then ok assistant_message_delta
    else if str_eq s "assistant.reasoning"
    then ok assistant_reasoning
    else if str_eq s "assistant.reasoning_delta"
    then ok assistant_reasoning_delta
    else if str_eq s "assistant.streaming_delta"
    then ok assistant_streaming_delta
    else if str_eq s "assistant.turn_end"
    then ok assistant_turn_end
    else if str_eq s "assistant.turn_start"
    then ok assistant_turn_start
    else if str_eq s "assistant.usage"
    then ok assistant_usage
    else if str_eq s "hook.end"
    then ok hook_end
    else if str_eq s "hook.start"
    then ok hook_start
    else if str_eq s "pending_messages.modified"
    then ok pending_messages_modified
    else if str_eq s "session.compaction_complete"
    then ok session_compaction_complete
    else if str_eq s "session.compaction_start"
    then ok session_compaction_start
    else if str_eq s "session.context_changed"
    then ok session_context_changed
    else if str_eq s "session.error"
    then ok session_error
    else if str_eq s "session.handoff"
    then ok session_handoff
    else if str_eq s "session.idle"
    then ok session_idle
    else if str_eq s "session.info"
    then ok session_info
    else if str_eq s "session.model_change"
    then ok session_model_change
    else if str_eq s "session.mode_changed"
    then ok session_mode_changed
    else if str_eq s "session.plan_changed"
    then ok session_plan_changed
    else if str_eq s "session.resume"
    then ok session_resume
    else if str_eq s "session.shutdown"
    then ok session_shutdown
    else if str_eq s "session.snapshot_rewind"
    then ok session_snapshot_rewind
    else if str_eq s "session.start"
    then ok session_start
    else if str_eq s "session.task_complete"
    then ok session_task_complete
    else if str_eq s "session.title_changed"
    then ok session_title_changed
    else if str_eq s "session.truncation"
    then ok session_truncation
    else if str_eq s "session.usage_info"
    then ok session_usage_info
    else if str_eq s "session.warning"
    then ok session_warning
    else if str_eq s "session.workspace_file_changed"
    then ok session_workspace_file_changed
    else if str_eq s "skill.invoked"
    then ok skill_invoked
    else if str_eq s "subagent.completed"
    then ok subagent_completed
    else if str_eq s "subagent.failed"
    then ok subagent_failed
    else if str_eq s "subagent.selected"
    then ok subagent_selected
    else if str_eq s "subagent.started"
    then ok subagent_started
    else if str_eq s "system.message"
    then ok system_message
    else if str_eq s "tool.execution_complete"
    then ok tool_execution_complete
    else if str_eq s "tool.execution_partial_result"
    then ok tool_execution_partial_result
    else if str_eq s "tool.execution_progress"
    then ok tool_execution_progress
    else if str_eq s "tool.execution_start"
    then ok tool_execution_start
    else if str_eq s "tool.user_requested"
    then ok tool_user_requested
    else if str_eq s "user.message"
    then ok user_message
    else if str_eq s "unknown"
    then ok unknown
    else ok unknown
session_event_type_of v = ok unknown

-- `to_enum`
unfoldable pub session_event_type_to_enum : SessionEventType → Value
unfolding session_event_type_value
session_event_type_to_enum x = str (session_event_type_value x)

-- `SessionEvent`
pub record SessionEvent (lib : Library) : Type 0 where
  pub data' : Data lib
  pub id : lib.Uuid
  pub timestamp : lib.Datetime
  pub type : SessionEventType
  pub ephemeral : Option Bool
  pub parent_id : Option lib.Uuid

-- What `SessionEvent.from_dict` reads
abbrev pub read_session_event : (lib : Library) → (String → Value) → Result (SessionEvent lib)
read_session_event lib get = do
  data' ← data_from_dict lib (get "data")
  id ← lib.parse_uuid (get "id")
  timestamp ← lib.parse_datetime (get "timestamp")
  type ← session_event_type_of (get "type")
  ephemeral ← optional from_bool (get "ephemeral")
  parent_id ← none_or lib.parse_uuid (get "parentId")
  ok (record {
    data' = data';
    id = id;
    timestamp = timestamp;
    type = type;
    ephemeral = ephemeral;
    parent_id = parent_id;
  })

-- `SessionEvent.from_dict`
unfoldable pub session_event_from_dict : (lib : Library) → Value → Result (SessionEvent lib)
session_event_from_dict lib v = of_class (read_session_event lib) v

abbrev session_event_entries : (lib : Library) → (SessionEvent lib) → List Entry
session_event_entries lib x =
    always "data" (data_to_dict lib x.data')
    ∷ always "id" (write_uuid lib x.id)
    ∷ always "timestamp" (write_datetime lib x.timestamp)
    ∷ always "type" (session_event_type_to_enum x.type)
    ∷ given "ephemeral" (write_optional bool x.ephemeral)
    ∷ always "parentId" (write_optional (write_uuid lib) x.parent_id)
    ∷ []

-- `SessionEvent.to_dict`
unfoldable pub session_event_to_dict : (lib : Library) → (SessionEvent lib) → Value
session_event_to_dict lib x = obj (to_fields (session_event_entries lib x))
