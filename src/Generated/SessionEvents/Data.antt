-- ===== src/Generated/SessionEvents/Data.antt =====
-- The data of an event: `Data` of python/copilot/generated/session_events.py.
pub mod RoundTrip
use copilot_sdk.Prelude.{String, ◌⊎◌, Option, List, [], ◌∷◌, Dict, Bool, Result, ok, ◌>>=◌}
use copilot_sdk.Prelude.Int.{ℤ}
use copilot_sdk.Value.{Value, str, float, bool, int, obj}
use copilot_sdk.Wire.{Entry, given, to_fields, of_class}
use copilot_sdk.Wire.Convert.{
  from_str, from_float, from_bool, from_int, from_list, from_dict, optional, optional_or_text,
  write_optional, write_or_text, write_list, write_dict,
}
use copilot_sdk.Generated.SessionEvents.{Library, write_datetime}
use copilot_sdk.Generated.SessionEvents.Attachments.{
  AgentMode, Attachment, agent_mode_of, agent_mode_to_enum, attachment_from_dict,
  attachment_to_dict,
}
use copilot_sdk.Generated.SessionEvents.Usage.{
  CodeChanges, CompactionTokensUsed, ContextClass, ErrorClass, Metadata, code_changes_from_dict,
  code_changes_to_dict, compaction_tokens_used_from_dict, compaction_tokens_used_to_dict,
  context_class_from_dict, context_class_to_dict, error_class_from_dict, error_class_to_dict,
  metadata_from_dict, metadata_to_dict,
}
use copilot_sdk.Generated.SessionEvents.Quota.{
  ModelMetric, Operation, QuotaSnapshot, RepositoryClass, model_metric_from_dict,
  model_metric_to_dict, operation_of, operation_to_enum, quota_snapshot_from_dict,
  quota_snapshot_to_dict, repository_class_from_dict, repository_class_to_dict,
}
use copilot_sdk.Generated.SessionEvents.Results.{
  ResultClass, Role, ShutdownType, SourceType, ToolRequest, result_class_from_dict,
  result_class_to_dict, role_of, role_to_enum, shutdown_type_of, shutdown_type_to_enum,
  source_type_of, source_type_to_enum, tool_request_from_dict, tool_request_to_dict,
}

-- `Data`
pub record Data (lib : Library) : Type 0 where
  pub context : Option (ContextClass ⊎ String)
  pub copilot_version : Option String
  pub producer : Option String
  pub selected_model : Option String
  pub session_id : Option String
  pub start_time : Option lib.Datetime
  pub version : Option String
  pub event_count : Option String
  pub resume_time : Option lib.Datetime
  pub error_type : Option String
  pub message : Option String
  pub provider_call_id : Option String
  pub stack : Option String
  pub status_code : Option ℤ
  pub title : Option String
  pub info_type : Option String
  pub warning_type : Option String
  pub new_model : Option String
  pub previous_model : Option String
  pub new_mode : Option String
  pub previous_mode : Option String
  pub operation : Option Operation
  pub path : Option String
  pub handoff_time : Option lib.Datetime
  pub remote_session_id : Option String
  pub repository : Option (RepositoryClass ⊎ String)
  pub source_type : Option SourceType
  pub summary : Option String
  pub messages_removed_during_truncation : Option String
  pub performed_by : Option String
  pub post_truncation_messages_length : Option String
  pub post_truncation_tokens_in_messages : Option String
  pub pre_truncation_messages_length : Option String
  pub pre_truncation_tokens_in_messages : Option String
  pub token_limit : Option String
  pub tokens_removed_during_truncation : Option String
  pub events_removed : Option String
  pub up_to_event_id : Option String
  pub code_changes : Option CodeChanges
  pub current_model : Option String
  pub error_reason : Option String
  pub model_metrics : Option (Dict ModelMetric)
  pub session_start_time : Option String
  pub shutdown_type : Option ShutdownType
  pub total_api_duration_ms : Option String
  pub total_premium_requests : Option String
  pub branch : Option String
  pub cwd : Option String
  pub git_root : Option String
  pub current_tokens : Option String
  pub messages_length : Option String
  pub checkpoint_number : Option String
  pub checkpoint_path : Option String
  pub compaction_tokens_used : Option CompactionTokensUsed
  pub error : Option (ErrorClass ⊎ String)
  pub messages_removed : Option String
  pub post_compaction_tokens : Option String
  pub pre_compaction_messages_length : Option String
  pub pre_compaction_tokens : Option String
  pub request_id : Option String
  pub success : Option Bool
  pub summary_content : Option String
  pub tokens_removed : Option String
  pub agent_mode : Option AgentMode
  pub attachments : Option (List Attachment)
  pub content : Option String
  pub source : Option String
  pub transformed_content : Option String
  pub turn_id : Option String
  pub intent : Option String
  pub reasoning_id : Option String
  pub delta_content : Option String
  pub total_response_size_bytes : Option String
  pub encrypted_content : Option String
  pub message_id : Option String
  pub parent_tool_call_id : Option String
  pub phase : Option String
  pub reasoning_opaque : Option String
  pub reasoning_text : Option String
  pub tool_requests : Option (List ToolRequest)
  pub api_call_id : Option String
  pub cache_read_tokens : Option String
  pub cache_write_tokens : Option String
  pub cost : Option String
  pub duration : Option String
  pub initiator : Option String
  pub input_tokens : Option String
  pub model : Option String
  pub output_tokens : Option String
  pub quota_snapshots : Option (Dict (QuotaSnapshot lib))
  pub reason : Option String
  pub arguments : Value
  pub tool_call_id : Option String
  pub tool_name : Option String
  pub mcp_server_name : Option String
  pub mcp_tool_name : Option String
  pub partial_output : Option String
  pub progress_message : Option String
  pub is_user_requested : Option Bool
  pub result : Option ResultClass
  pub tool_telemetry : Option (Dict Value)
  pub allowed_tools : Option (List String)
  pub name : Option String
  pub agent_description : Option String
  pub agent_display_name : Option String
  pub agent_name : Option String
  pub tools : Option (List String)
  pub hook_invocation_id : Option String
  pub hook_type : Option String
  pub input : Value
  pub output : Value
  pub metadata : Option Metadata
  pub role : Option Role

-- What `Data.from_dict` reads
abbrev pub read_data : (lib : Library) → (String → Value) → Result (Data lib)
read_data lib get = do
  context ← optional_or_text context_class_from_dict (get "context")
  copilot_version ← optional from_str (get "copilotVersion")
  producer ← optional from_str (get "producer")
  selected_model ← optional from_str (get "selectedModel")
  session_id ← optional from_str (get "sessionId")
  start_time ← optional lib.parse_datetime (get "startTime")
  version ← optional (from_float lib.numbers) (get "version")
  event_count ← optional (from_float lib.numbers) (get "eventCount")
  resume_time ← optional lib.parse_datetime (get "resumeTime")
  error_type ← optional from_str (get "errorType")
  message ← optional from_str (get "message")
  provider_call_id ← optional from_str (get "providerCallId")
  stack ← optional from_str (get "stack")
  status_code ← optional from_int (get "statusCode")
  title ← optional from_str (get "title")
  info_type ← optional from_str (get "infoType")
  warning_type ← optional from_str (get "warningType")
  new_model ← optional from_str (get "newModel")
  previous_model ← optional from_str (get "previousModel")
  new_mode ← optional from_str (get "newMode")
  previous_mode ← optional from_str (get "previousMode")
  operation ← optional operation_of (get "operation")
  path ← optional from_str (get "path")
  handoff_time ← optional lib.parse_datetime (get "handoffTime")
  remote_session_id ← optional from_str (get "remoteSessionId")
  repository ← optional_or_text repository_class_from_dict (get "repository")
  source_type ← optional source_type_of (get "sourceType")
  summary ← optional from_str (get "summary")
  messages_removed_during_truncation ←
      optional (from_float lib.numbers) (get "messagesRemovedDuringTruncation")
  performed_by ← optional from_str (get "performedBy")
  post_truncation_messages_length ←
      optional (from_float lib.numbers) (get "postTruncationMessagesLength")
  post_truncation_tokens_in_messages ←
      optional (from_float lib.numbers) (get "postTruncationTokensInMessages")
  pre_truncation_messages_length ←
      optional (from_float lib.numbers) (get "preTruncationMessagesLength")
  pre_truncation_tokens_in_messages ←
      optional (from_float lib.numbers) (get "preTruncationTokensInMessages")
  token_limit ← optional (from_float lib.numbers) (get "tokenLimit")
  tokens_removed_during_truncation ←
      optional (from_float lib.numbers) (get "tokensRemovedDuringTruncation")
  events_removed ← optional (from_float lib.numbers) (get "eventsRemoved")
  up_to_event_id ← optional from_str (get "upToEventId")
  code_changes ← optional (code_changes_from_dict lib) (get "codeChanges")
  current_model ← optional from_str (get "currentModel")
  error_reason ← optional from_str (get "errorReason")
  model_metrics ← optional (from_dict (model_metric_from_dict lib)) (get "modelMetrics")
  session_start_time ← optional (from_float lib.numbers) (get "sessionStartTime")
  shutdown_type ← optional shutdown_type_of (get "shutdownType")
  total_api_duration_ms ← optional (from_float lib.numbers) (get "totalApiDurationMs")
  total_premium_requests ← optional (from_float lib.numbers) (get "totalPremiumRequests")
  branch ← optional from_str (get "branch")
  cwd ← optional from_str (get "cwd")
  git_root ← optional from_str (get "gitRoot")
  current_tokens ← optional (from_float lib.numbers) (get "currentTokens")
  messages_length ← optional (from_float lib.numbers) (get "messagesLength")
  checkpoint_number ← optional (from_float lib.numbers) (get "checkpointNumber")
  checkpoint_path ← optional from_str (get "checkpointPath")
  compaction_tokens_used ←
      optional (compaction_tokens_used_from_dict lib) (get "compactionTokensUsed")
  error ← optional_or_text error_class_from_dict (get "error")
  messages_removed ← optional (from_float lib.numbers) (get "messagesRemoved")
  post_compaction_tokens ← optional (from_float lib.numbers) (get "postCompactionTokens")
  pre_compaction_messages_length ←
      optional (from_float lib.numbers) (get "preCompactionMessagesLength")
  pre_compaction_tokens ← optional (from_float lib.numbers) (get "preCompactionTokens")
  request_id ← optional from_str (get "requestId")
  success ← optional from_bool (get "success")
  summary_content ← optional from_str (get "summaryContent")
  tokens_removed ← optional (from_float lib.numbers) (get "tokensRemoved")
  agent_mode ← optional agent_mode_of (get "agentMode")
  attachments ← optional (from_list (attachment_from_dict lib)) (get "attachments")
  content ← optional from_str (get "content")
  source ← optional from_str (get "source")
  transformed_content ← optional from_str (get "transformedContent")
  turn_id ← optional from_str (get "turnId")
  intent ← optional from_str (get "intent")
  reasoning_id ← optional from_str (get "reasoningId")
  delta_content ← optional from_str (get "deltaContent")
  total_response_size_bytes ← optional (from_float lib.numbers) (get "totalResponseSizeBytes")
  encrypted_content ← optional from_str (get "encryptedContent")
  message_id ← optional from_str (get "messageId")
  parent_tool_call_id ← optional from_str (get "parentToolCallId")
  phase ← optional from_str (get "phase")
  reasoning_opaque ← optional from_str (get "reasoningOpaque")
  reasoning_text ← optional from_str (get "reasoningText")
  tool_requests ← optional (from_list tool_request_from_dict) (get "toolRequests")
  api_call_id ← optional from_str (get "apiCallId")
  cache_read_tokens ← optional (from_float lib.numbers) (get "cacheReadTokens")
  cache_write_tokens ← optional (from_float lib.numbers) (get "cacheWriteTokens")
  cost ← optional (from_float lib.numbers) (get "cost")
  duration ← optional (from_float lib.numbers) (get "duration")
  initiator ← optional from_str (get "initiator")
  input_tokens ← optional (from_float lib.numbers) (get "inputTokens")
  model ← optional from_str (get "model")
  output_tokens ← optional (from_float lib.numbers) (get "outputTokens")
  quota_snapshots ← optional (from_dict (quota_snapshot_from_dict lib)) (get "quotaSnapshots")
  reason ← optional from_str (get "reason")
  tool_call_id ← optional from_str (get "toolCallId")
  tool_name ← optional from_str (get "toolName")
  mcp_server_name ← optional from_str (get "mcpServerName")
  mcp_tool_name ← optional from_str (get "mcpToolName")
  partial_output ← optional from_str (get "partialOutput")
  progress_message ← optional from_str (get "progressMessage")
  is_user_requested ← optional from_bool (get "isUserRequested")
  result ← optional (result_class_from_dict lib) (get "result")
  tool_telemetry ← optional (from_dict ok) (get "toolTelemetry")
  allowed_tools ← optional (from_list from_str) (get "allowedTools")
  name ← optional from_str (get "name")
  agent_description ← optional from_str (get "agentDescription")
  agent_display_name ← optional from_str (get "agentDisplayName")
  agent_name ← optional from_str (get "agentName")
  tools ← optional (from_list from_str) (get "tools")
  hook_invocation_id ← optional from_str (get "hookInvocationId")
  hook_type ← optional from_str (get "hookType")
  metadata ← optional metadata_from_dict (get "metadata")
  role ← optional role_of (get "role")
  ok (record {
    context = context;
    copilot_version = copilot_version;
    producer = producer;
    selected_model = selected_model;
    session_id = session_id;
    start_time = start_time;
    version = version;
    event_count = event_count;
    resume_time = resume_time;
    error_type = error_type;
    message = message;
    provider_call_id = provider_call_id;
    stack = stack;
    status_code = status_code;
    title = title;
    info_type = info_type;
    warning_type = warning_type;
    new_model = new_model;
    previous_model = previous_model;
    new_mode = new_mode;
    previous_mode = previous_mode;
    operation = operation;
    path = path;
    handoff_time = handoff_time;
    remote_session_id = remote_session_id;
    repository = repository;
    source_type = source_type;
    summary = summary;
    messages_removed_during_truncation = messages_removed_during_truncation;
    performed_by = performed_by;
    post_truncation_messages_length = post_truncation_messages_length;
    post_truncation_tokens_in_messages = post_truncation_tokens_in_messages;
    pre_truncation_messages_length = pre_truncation_messages_length;
    pre_truncation_tokens_in_messages = pre_truncation_tokens_in_messages;
    token_limit = token_limit;
    tokens_removed_during_truncation = tokens_removed_during_truncation;
    events_removed = events_removed;
    up_to_event_id = up_to_event_id;
    code_changes = code_changes;
    current_model = current_model;
    error_reason = error_reason;
    model_metrics = model_metrics;
    session_start_time = session_start_time;
    shutdown_type = shutdown_type;
    total_api_duration_ms = total_api_duration_ms;
    total_premium_requests = total_premium_requests;
    branch = branch;
    cwd = cwd;
    git_root = git_root;
    current_tokens = current_tokens;
    messages_length = messages_length;
    checkpoint_number = checkpoint_number;
    checkpoint_path = checkpoint_path;
    compaction_tokens_used = compaction_tokens_used;
    error = error;
    messages_removed = messages_removed;
    post_compaction_tokens = post_compaction_tokens;
    pre_compaction_messages_length = pre_compaction_messages_length;
    pre_compaction_tokens = pre_compaction_tokens;
    request_id = request_id;
    success = success;
    summary_content = summary_content;
    tokens_removed = tokens_removed;
    agent_mode = agent_mode;
    attachments = attachments;
    content = content;
    source = source;
    transformed_content = transformed_content;
    turn_id = turn_id;
    intent = intent;
    reasoning_id = reasoning_id;
    delta_content = delta_content;
    total_response_size_bytes = total_response_size_bytes;
    encrypted_content = encrypted_content;
    message_id = message_id;
    parent_tool_call_id = parent_tool_call_id;
    phase = phase;
    reasoning_opaque = reasoning_opaque;
    reasoning_text = reasoning_text;
    tool_requests = tool_requests;
    api_call_id = api_call_id;
    cache_read_tokens = cache_read_tokens;
    cache_write_tokens = cache_write_tokens;
    cost = cost;
    duration = duration;
    initiator = initiator;
    input_tokens = input_tokens;
    model = model;
    output_tokens = output_tokens;
    quota_snapshots = quota_snapshots;
    reason = reason;
    arguments = get "arguments";
    tool_call_id = tool_call_id;
    tool_name = tool_name;
    mcp_server_name = mcp_server_name;
    mcp_tool_name = mcp_tool_name;
    partial_output = partial_output;
    progress_message = progress_message;
    is_user_requested = is_user_requested;
    result = result;
    tool_telemetry = tool_telemetry;
    allowed_tools = allowed_tools;
    name = name;
    agent_description = agent_description;
    agent_display_name = agent_display_name;
    agent_name = agent_name;
    tools = tools;
    hook_invocation_id = hook_invocation_id;
    hook_type = hook_type;
    input = get "input";
    output = get "output";
    metadata = metadata;
    role = role;
  })

-- `Data.from_dict`
unfoldable pub data_from_dict : (lib : Library) → Value → Result (Data lib)
data_from_dict lib v = of_class (read_data lib) v

abbrev data_entries : (lib : Library) → (Data lib) → List Entry
data_entries lib x =
    given "context" (write_or_text context_class_to_dict x.context)
    ∷ given "copilotVersion" (write_optional str x.copilot_version)
    ∷ given "producer" (write_optional str x.producer)
    ∷ given "selectedModel" (write_optional str x.selected_model)
    ∷ given "sessionId" (write_optional str x.session_id)
    ∷ given "startTime" (write_optional (write_datetime lib) x.start_time)
    ∷ given "version" (write_optional float x.version)
    ∷ given "eventCount" (write_optional float x.event_count)
    ∷ given "resumeTime" (write_optional (write_datetime lib) x.resume_time)
    ∷ given "errorType" (write_optional str x.error_type)
    ∷ given "message" (write_optional str x.message)
    ∷ given "providerCallId" (write_optional str x.provider_call_id)
    ∷ given "stack" (write_optional str x.stack)
    ∷ given "statusCode" (write_optional int x.status_code)
    ∷ given "title" (write_optional str x.title)
    ∷ given "infoType" (write_optional str x.info_type)
    ∷ given "warningType" (write_optional str x.warning_type)
    ∷ given "newModel" (write_optional str x.new_model)
    ∷ given "previousModel" (write_optional str x.previous_model)
    ∷ given "newMode" (write_optional str x.new_mode)
    ∷ given "previousMode" (write_optional str x.previous_mode)
    ∷ given "operation" (write_optional operation_to_enum x.operation)
    ∷ given "path" (write_optional str x.path)
    ∷ given "handoffTime" (write_optional (write_datetime lib) x.handoff_time)
    ∷ given "remoteSessionId" (write_optional str x.remote_session_id)
    ∷ given "repository" (write_or_text repository_class_to_dict x.repository)
    ∷ given "sourceType" (write_optional source_type_to_enum x.source_type)
    ∷ given "summary" (write_optional str x.summary)
    ∷ given "messagesRemovedDuringTruncation"
        (write_optional float x.messages_removed_during_truncation)
    ∷ given "performedBy" (write_optional str x.performed_by)
    ∷ given "postTruncationMessagesLength" (write_optional float x.post_truncation_messages_length)
    ∷ given "postTruncationTokensInMessages"
        (write_optional float x.post_truncation_tokens_in_messages)
    ∷ given "preTruncationMessagesLength" (write_optional float x.pre_truncation_messages_length)
    ∷ given "preTruncationTokensInMessages"
        (write_optional float x.pre_truncation_tokens_in_messages)
    ∷ given "tokenLimit" (write_optional float x.token_limit)
    ∷ given "tokensRemovedDuringTruncation"
        (write_optional float x.tokens_removed_during_truncation)
    ∷ given "eventsRemoved" (write_optional float x.events_removed)
    ∷ given "upToEventId" (write_optional str x.up_to_event_id)
    ∷ given "codeChanges" (write_optional code_changes_to_dict x.code_changes)
    ∷ given "currentModel" (write_optional str x.current_model)
    ∷ given "errorReason" (write_optional str x.error_reason)
    ∷ given "modelMetrics" (write_optional (write_dict model_metric_to_dict) x.model_metrics)
    ∷ given "sessionStartTime" (write_optional float x.session_start_time)
    ∷ given "shutdownType" (write_optional shutdown_type_to_enum x.shutdown_type)
    ∷ given "totalApiDurationMs" (write_optional float x.total_api_duration_ms)
    ∷ given "totalPremiumRequests" (write_optional float x.total_premium_requests)
    ∷ given "branch" (write_optional str x.branch)
    ∷ given "cwd" (write_optional str x.cwd)
    ∷ given "gitRoot" (write_optional str x.git_root)
    ∷ given "currentTokens" (write_optional float x.current_tokens)
    ∷ given "messagesLength" (write_optional float x.messages_length)
    ∷ given "checkpointNumber" (write_optional float x.checkpoint_number)
    ∷ given "checkpointPath" (write_optional str x.checkpoint_path)
    ∷ given "compactionTokensUsed"
        (write_optional compaction_tokens_used_to_dict x.compaction_tokens_used)
    ∷ given "error" (write_or_text error_class_to_dict x.error)
    ∷ given "messagesRemoved" (write_optional float x.messages_removed)
    ∷ given "postCompactionTokens" (write_optional float x.post_compaction_tokens)
    ∷ given "preCompactionMessagesLength" (write_optional float x.pre_compaction_messages_length)
    ∷ given "preCompactionTokens" (write_optional float x.pre_compaction_tokens)
    ∷ given "requestId" (write_optional str x.request_id)
    ∷ given "success" (write_optional bool x.success)
    ∷ given "summaryContent" (write_optional str x.summary_content)
    ∷ given "tokensRemoved" (write_optional float x.tokens_removed)
    ∷ given "agentMode" (write_optional agent_mode_to_enum x.agent_mode)
    ∷ given "attachments" (write_optional (write_list attachment_to_dict) x.attachments)
    ∷ given "content" (write_optional str x.content)
    ∷ given "source" (write_optional str x.source)
    ∷ given "transformedContent" (write_optional str x.transformed_content)
    ∷ given "turnId" (write_optional str x.turn_id)
    ∷ given "intent" (write_optional str x.intent)
    ∷ given "reasoningId" (write_optional str x.reasoning_id)
    ∷ given "deltaContent" (write_optional str x.delta_content)
    ∷ given "totalResponseSizeBytes" (write_optional float x.total_response_size_bytes)
    ∷ given "encryptedContent" (write_optional str x.encrypted_content)
    ∷ given "messageId" (write_optional str x.message_id)
    ∷ given "parentToolCallId" (write_optional str x.parent_tool_call_id)
    ∷ given "phase" (write_optional str x.phase)
    ∷ given "reasoningOpaque" (write_optional str x.reasoning_opaque)
    ∷ given "reasoningText" (write_optional str x.reasoning_text)
    ∷ given "toolRequests" (write_optional (write_list tool_request_to_dict) x.tool_requests)
    ∷ given "apiCallId" (write_optional str x.api_call_id)
    ∷ given "cacheReadTokens" (write_optional float x.cache_read_tokens)
    ∷ given "cacheWriteTokens" (write_optional float x.cache_write_tokens)
    ∷ given "cost" (write_optional float x.cost)
    ∷ given "duration" (write_optional float x.duration)
    ∷ given "initiator" (write_optional str x.initiator)
    ∷ given "inputTokens" (write_optional float x.input_tokens)
    ∷ given "model" (write_optional str x.model)
    ∷ given "outputTokens" (write_optional float x.output_tokens)
    ∷ given "quotaSnapshots"
        (write_optional (write_dict (quota_snapshot_to_dict lib)) x.quota_snapshots)
    ∷ given "reason" (write_optional str x.reason)
    ∷ given "arguments" x.arguments
    ∷ given "toolCallId" (write_optional str x.tool_call_id)
    ∷ given "toolName" (write_optional str x.tool_name)
    ∷ given "mcpServerName" (write_optional str x.mcp_server_name)
    ∷ given "mcpToolName" (write_optional str x.mcp_tool_name)
    ∷ given "partialOutput" (write_optional str x.partial_output)
    ∷ given "progressMessage" (write_optional str x.progress_message)
    ∷ given "isUserRequested" (write_optional bool x.is_user_requested)
    ∷ given "result" (write_optional result_class_to_dict x.result)
    ∷ given "toolTelemetry" (write_optional (write_dict (λ v. v)) x.tool_telemetry)
    ∷ given "allowedTools" (write_optional (write_list str) x.allowed_tools)
    ∷ given "name" (write_optional str x.name)
    ∷ given "agentDescription" (write_optional str x.agent_description)
    ∷ given "agentDisplayName" (write_optional str x.agent_display_name)
    ∷ given "agentName" (write_optional str x.agent_name)
    ∷ given "tools" (write_optional (write_list str) x.tools)
    ∷ given "hookInvocationId" (write_optional str x.hook_invocation_id)
    ∷ given "hookType" (write_optional str x.hook_type)
    ∷ given "input" x.input
    ∷ given "output" x.output
    ∷ given "metadata" (write_optional metadata_to_dict x.metadata)
    ∷ given "role" (write_optional role_to_enum x.role)
    ∷ []

-- `Data.to_dict`
unfoldable pub data_to_dict : (lib : Library) → (Data lib) → Value
data_to_dict lib x = obj (to_fields (data_entries lib x))
