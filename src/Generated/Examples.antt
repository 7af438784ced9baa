-- ===== src/Generated/Examples.antt =====
-- Tests of the generated classes (python/copilot/generated) on concrete values.
use copilot_sdk.Prelude.{
  ◌≡◌, refl, [], ◌∷◌, lookup, String, inr, true, none, some, Result, ok, raise, value_error,
  runtime_error,
}
use copilot_sdk.Value.{null}
use copilot_sdk.Wire.Convert.{Numbers, from_str, from_str-ReadsBack, from_str-RefusesNone}
use copilot_sdk.Generated.Rpc.Modes.{plan}
use copilot_sdk.Generated.Rpc.Api.Serving.{Server}
use copilot_sdk.Generated.Rpc.Api.Answers.{CallsAgree, calls-respond}
use copilot_sdk.Generated.SessionEvents.{Library, Lawful}
use copilot_sdk.Generated.SessionEvents.Data.{Data}
use copilot_sdk.Generated.SessionEvents.Events.{SessionEvent, session_idle, session_event_from_dict}
use copilot_sdk.Session.{Session, new as new_session}
use copilot_sdk.Session.Events.{Calls, subscribe, dispatch_event}
use copilot_sdk.Session.Waiting.{Request}
use copilot_sdk.Session.Lifecycle.{get_messages}
use copilot_sdk.CopilotClient.State.{Client}
use copilot_sdk.CopilotClient.Lifecycle.{handle_notification}
use copilot_sdk.CopilotClient.Examples.{running}
use copilot_sdk.Generated.SessionEvents.Delivered.{notified, recorded, events-delivered}

abbrev numbers : Numbers
numbers = record { float_of_int = λ n. raise value_error "" }

-- Dates and UUIDs that are texts
abbrev texts : Library
texts = record {
  numbers = numbers;
  Datetime = String;
  parse_datetime = from_str;
  isoformat = λ d. d;
  Uuid = String;
  parse_uuid = from_str;
  str_of_uuid = λ u. u;
}

texts-Lawful : Lawful texts
texts-Lawful = record {
  datetime_back = from_str-ReadsBack;
  datetime_refuses = from_str-RefusesNone;
  uuid_back = from_str-ReadsBack;
}

abbrev hello : Data texts
hello = record {
  context = none;
  copilot_version = none;
  producer = none;
  selected_model = none;
  session_id = none;
  start_time = none;
  version = none;
  event_count = none;
  resume_time = none;
  error_type = none;
  message = none;
  provider_call_id = none;
  stack = none;
  status_code = none;
  title = none;
  info_type = none;
  warning_type = none;
  new_model = none;
  previous_model = none;
  new_mode = none;
  previous_mode = none;
  operation = none;
  path = none;
  handoff_time = none;
  remote_session_id = none;
  repository = none;
  source_type = none;
  summary = none;
  messages_removed_during_truncation = none;
  performed_by = none;
  post_truncation_messages_length = none;
  post_truncation_tokens_in_messages = none;
  pre_truncation_messages_length = none;
  pre_truncation_tokens_in_messages = none;
  token_limit = none;
  tokens_removed_during_truncation = none;
  events_removed = none;
  up_to_event_id = none;
  code_changes = none;
  current_model = none;
  error_reason = none;
  model_metrics = none;
  session_start_time = none;
  shutdown_type = none;
  total_api_duration_ms = none;
  total_premium_requests = none;
  branch = none;
  cwd = none;
  git_root = none;
  current_tokens = none;
  messages_length = some "12.0";
  checkpoint_number = none;
  checkpoint_path = none;
  compaction_tokens_used = none;
  error = some (inr "refused");
  messages_removed = none;
  post_compaction_tokens = none;
  pre_compaction_messages_length = none;
  pre_compaction_tokens = none;
  request_id = none;
  success = some true;
  summary_content = none;
  tokens_removed = none;
  agent_mode = none;
  attachments = none;
  content = some "hello";
  source = none;
  transformed_content = none;
  turn_id = none;
  intent = none;
  reasoning_id = none;
  delta_content = none;
  total_response_size_bytes = none;
  encrypted_content = none;
  message_id = none;
  parent_tool_call_id = none;
  phase = none;
  reasoning_opaque = none;
  reasoning_text = none;
  tool_requests = none;
  api_call_id = none;
  cache_read_tokens = none;
  cache_write_tokens = none;
  cost = none;
  duration = none;
  initiator = none;
  input_tokens = none;
  model = none;
  output_tokens = none;
  quota_snapshots = none;
  reason = none;
  arguments = null;
  tool_call_id = none;
  tool_name = none;
  mcp_server_name = none;
  mcp_tool_name = none;
  partial_output = none;
  progress_message = none;
  is_user_requested = none;
  result = none;
  tool_telemetry = none;
  allowed_tools = none;
  name = none;
  agent_description = none;
  agent_display_name = none;
  agent_name = none;
  tools = none;
  hook_invocation_id = none;
  hook_type = none;
  input = null;
  output = null;
  metadata = none;
  role = none;
}

abbrev idle : SessionEvent texts
idle = record {
  data' = hello;
  id = "e1";
  timestamp = "2025-01-01T00:00:00";
  type = session_idle;
  ephemeral = some true;
  parent_id = none;
}

abbrev listener : Session
listener = subscribe 7 (new_session "s1" none)

abbrev listening : Client
listening = record running { sessions = ("s1", listener) ∷ [] }

listener-listed : lookup "s1" listening.sessions ≡ some listener
unfolding lookup
listener-listed = refl

abbrev called : Calls (SessionEvent texts) Client
called h e c = (ok tt, c)

abbrev history : Request
history method params = ok (recorded texts (idle ∷ idle ∷ []))

events-delivered_example :
    let r =
      handle_notification
        (session_event_from_dict texts)
        (λ hs. hs)
        called
        (λ h e c. (ok tt, c))
        "session.event"
        (notified texts "s1" idle)
        listening in
    let d = dispatch_event (λ hs. hs) called idle listener listening in
    (r ≡ (ok d.0, d.1))
    × (get_messages history (session_event_from_dict texts) listener ≡ ok (idle ∷ idle ∷ []))
events-delivered_example =
    events-delivered texts texts-Lawful (λ hs. hs) called (λ h e c. (ok tt, c)) history listening
      "s1" listener idle (idle ∷ idle ∷ []) listener-listed refl

abbrev not_served {ℓ} : {A : Type ℓ} → Result A
not_served = raise runtime_error "not served"

-- A server that switches models and lists the files of a workspace
abbrev server : Server
server = record {
  serve_models_list = not_served;
  serve_tools_list = λ params. not_served;
  serve_account_get_quota = not_served;
  serve_ping = λ params. not_served;
  serve_model_get_current = λ id. not_served;
  serve_model_switch_to = λ id params. ok (record { model_id = some params.model_id });
  serve_mode_get = λ id. not_served;
  serve_mode_set = λ id params. not_served;
  serve_plan_read = λ id. not_served;
  serve_plan_update = λ id params. not_served;
  serve_plan_delete = λ id. not_served;
  serve_workspace_list_files = λ id. ok (record { files = id ∷ "plan.md" ∷ [] });
  serve_workspace_read_file = λ id params. not_served;
  serve_workspace_create_file = λ id params. not_served;
  serve_fleet_start = λ id params. not_served;
  serve_agent_list = λ id. not_served;
  serve_agent_get_current = λ id. not_served;
  serve_agent_select = λ id params. not_served;
  serve_agent_deselect = λ id. not_served;
  serve_compaction_compact = λ id. not_served;
}

calls-respond_example :
    CallsAgree numbers server "s1"
      (record { model = none })
      (record { message = some "hi" })
      (record { model_id = "gpt-5" })
      (record { mode = plan })
      (record { content = "1. read" })
      (record { path = "plan.md" })
      (record { content = "x"; path = "a.txt" })
      (record { prompt = none })
      (record { name = "reviewer" })
calls-respond_example =
    calls-respond numbers server "s1" (record { model = none }) (record { message = some "hi" })
      (record { model_id = "gpt-5" }) (record { mode = plan }) (record { content = "1. read" })
      (record { path = "plan.md" }) (record { content = "x"; path = "a.txt" })
      (record { prompt = none }) (record { name = "reviewer" })
