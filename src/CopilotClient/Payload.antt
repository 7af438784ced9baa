-- ===== src/CopilotClient/Payload.antt =====
-- What a client sends to create or resume a session: the payloads of `create_session` and
-- `resume_session`, `_convert_provider_to_wire_format` and `_convert_custom_agent_to_wire_format` of
-- python/copilot/client.py.
pub mod Entries
pub mod Agreement
use copilot_sdk.Prelude.{
  ℕ, String, Bool, true, false, not, ◌&&◌, ◌||◌, Option, none, some, List, [], ◌∷◌, map, Dict,
  is_some, if◌then◌else◌, nonempty, or_else,
}
use copilot_sdk.Value.{
  Value, Fields, null, bool, str, arr, obj, of_list, of_dict, dict, get?, truthy,
}
use copilot_sdk.Session.{Hooks}
use copilot_sdk.Session.Tools.{Tool}
use copilot_sdk.CopilotClient.Payload.Entries.{put_all}

pub record Azure : Type 0 where
  pub api_version : Option Value

-- `ProviderConfig`; a key may be left out.
pub record Provider : Type 0 where
  pub type : Option Value
  pub base_url : Option Value
  pub api_key : Option Value
  pub wire_api : Option Value
  pub bearer_token : Option Value
  pub azure : Option Azure

-- `CustomAgentConfig`
pub record Agent : Type 0 where
  pub name : Option Value
  pub prompt : Option Value
  pub display_name : Option Value
  pub description : Option Value
  pub tools : Option Value
  pub mcp_servers : Option Value
  pub infer : Option Value

-- `InfiniteSessionConfig`
pub record InfiniteSessions : Type 0 where
  pub enabled : Option Value
  pub background_compaction_threshold : Option Value
  pub buffer_exhaustion_threshold : Option Value

-- `SessionConfig` and `ResumeSessionConfig`. The options that are plain data are in `values`.
pub record Config : Type 0 where
  pub values : Fields
  pub tools : Option (List Tool)
  pub on_permission_request : Option ℕ
  pub on_user_input_request : Option ℕ
  pub hooks : Option Hooks
  pub provider : Option Provider
  pub custom_agents : Option (List Agent)
  pub infinite_sessions : Option InfiniteSessions

abbrev when : Bool → Value → Option Value
when true v = some v
when false v = none

abbrev wire_azure : Option Azure → Option Value
wire_azure none = none
wire_azure (some a) = elim a.api_version [
  | none ↦ none
  | some v ↦ some (dict (("apiVersion", v) ∷ []))
]

-- `_convert_provider_to_wire_format`
unfoldable pub wire_provider : Provider → Value
wire_provider p = dict (
    put_all
      (("type", some (or_else p.type null))
        ∷ ("baseUrl", p.base_url)
        ∷ ("apiKey", p.api_key)
        ∷ ("wireApi", p.wire_api)
        ∷ ("bearerToken", p.bearer_token)
        ∷ ("azure", wire_azure p.azure)
        ∷ [])
      [])

-- `_convert_custom_agent_to_wire_format`
unfoldable pub wire_agent : Agent → Value
wire_agent a = dict (
    put_all
      (("name", some (or_else a.name null))
        ∷ ("prompt", some (or_else a.prompt null))
        ∷ ("displayName", a.display_name)
        ∷ ("description", a.description)
        ∷ ("tools", a.tools)
        ∷ ("mcpServers", a.mcp_servers)
        ∷ ("infer", a.infer)
        ∷ [])
      [])

-- The `wire_config` of the infinite sessions
unfoldable pub wire_infinite : InfiniteSessions → Value
wire_infinite i = dict (
    put_all
      (("enabled", i.enabled)
        ∷ ("backgroundCompactionThreshold", i.background_compaction_threshold)
        ∷ ("bufferExhaustionThreshold", i.buffer_exhaustion_threshold)
        ∷ [])
      [])

abbrev given_provider : Provider → Bool
given_provider p =
    is_some p.type
    || is_some p.base_url
    || is_some p.api_key
    || is_some p.wire_api
    || is_some p.bearer_token
    || is_some p.azure

abbrev given_infinite : InfiniteSessions → Bool
given_infinite i =
    is_some i.enabled
    || is_some i.background_compaction_threshold
    || is_some i.buffer_exhaustion_threshold

abbrev parameters_entry : Option Value → Option Value
parameters_entry none = none
parameters_entry (some v) = when (truthy v) v

-- One definition of `tool_defs`
unfoldable pub tool_definition : Tool → Value
tool_definition t = dict (
    put_all
      (("name", some (str t.name))
        ∷ ("description", some (str t.description))
        ∷ ("parameters", parameters_entry t.parameters)
        ∷ [])
      [])

abbrev nonempty_arr : List Value → Option Value
nonempty_arr [] = none
nonempty_arr (v ∷ vs) = some (arr (of_list (v ∷ vs)))

abbrev tools_entry : Option (List Tool) → Option Value
tools_entry none = none
tools_entry (some ts) = nonempty_arr (map tool_definition ts)

abbrev agents_entry : Option (List Agent) → Option Value
agents_entry none = none
agents_entry (some as') = nonempty_arr (map wire_agent as')

abbrev provider_entry : Option Provider → Option Value
provider_entry none = none
provider_entry (some p) = when (given_provider p) (wire_provider p)

abbrev infinite_entry : Option InfiniteSessions → Option Value
infinite_entry none = none
infinite_entry (some i) = when (given_infinite i) (wire_infinite i)

abbrev pub any_hook : Hooks → Bool
any_hook h =
    is_some h.on_pre_tool_use
    || is_some h.on_post_tool_use
    || is_some h.on_user_prompt_submitted
    || is_some h.on_session_start
    || is_some h.on_session_end
    || is_some h.on_error_occurred

abbrev hooks_entry : Option Hooks → Option Value
hooks_entry none = none
hooks_entry (some h) = when (any_hook h) (bool true)

abbrev truthy_only : Option Value → Option Value
truthy_only none = none
truthy_only (some v) = when (truthy v) v

abbrev none_for_null : Option Value → Option Value
none_for_null (some null) = none
none_for_null o = o

-- `if cfg.get(k): payload[w] = cfg[k]`
unfoldable pub truthy_entry : String → Fields → Option Value
truthy_entry k values = truthy_only (get? k values)

-- `if cfg.get(k) is not None: payload[w] = cfg[k]`
unfoldable pub given_entry : String → Fields → Option Value
given_entry k values = none_for_null (get? k values)

-- The assignments of `create_session` to its payload, in order.
unfoldable pub create_entries : Config → List (String × Option Value)
create_entries cfg =
    ("model", truthy_entry "model" cfg.values)
    ∷ ("sessionId", truthy_entry "session_id" cfg.values)
    ∷ ("clientName", truthy_entry "client_name" cfg.values)
    ∷ ("reasoningEffort", truthy_entry "reasoning_effort" cfg.values)
    ∷ ("tools", tools_entry cfg.tools)
    ∷ ("systemMessage", truthy_entry "system_message" cfg.values)
    ∷ ("availableTools", given_entry "available_tools" cfg.values)
    ∷ ("excludedTools", truthy_entry "excluded_tools" cfg.values)
    ∷ ("requestPermission", some (bool true))
    ∷ ("requestUserInput", when (is_some cfg.on_user_input_request) (bool true))
    ∷ ("hooks", hooks_entry cfg.hooks)
    ∷ ("workingDirectory", truthy_entry "working_directory" cfg.values)
    ∷ ("streaming", given_entry "streaming" cfg.values)
    ∷ ("provider", provider_entry cfg.provider)
    ∷ ("mcpServers", truthy_entry "mcp_servers" cfg.values)
    ∷ ("envValueMode", some (str "direct"))
    ∷ ("customAgents", agents_entry cfg.custom_agents)
    ∷ ("configDir", truthy_entry "config_dir" cfg.values)
    ∷ ("skillDirectories", truthy_entry "skill_directories" cfg.values)
    ∷ ("disabledSkills", truthy_entry "disabled_skills" cfg.values)
    ∷ ("infiniteSessions", infinite_entry cfg.infinite_sessions)
    ∷ []

-- The assignments of `resume_session` to its payload, in order.
unfoldable pub resume_entries : String → Config → List (String × Option Value)
resume_entries session_id cfg =
    ("sessionId", some (str session_id))
    ∷ ("clientName", truthy_entry "client_name" cfg.values)
    ∷ ("model", truthy_entry "model" cfg.values)
    ∷ ("reasoningEffort", truthy_entry "reasoning_effort" cfg.values)
    ∷ ("tools", tools_entry cfg.tools)
    ∷ ("systemMessage", truthy_entry "system_message" cfg.values)
    ∷ ("availableTools", given_entry "available_tools" cfg.values)
    ∷ ("excludedTools", truthy_entry "excluded_tools" cfg.values)
    ∷ ("provider", provider_entry cfg.provider)
    ∷ ("streaming", given_entry "streaming" cfg.values)
    ∷ ("requestPermission", some (bool true))
    ∷ ("requestUserInput", when (is_some cfg.on_user_input_request) (bool true))
    ∷ ("hooks", hooks_entry cfg.hooks)
    ∷ ("workingDirectory", truthy_entry "working_directory" cfg.values)
    ∷ ("configDir", truthy_entry "config_dir" cfg.values)
    ∷ ("disableResume", when (is_some (truthy_entry "disable_resume" cfg.values)) (bool true))
    ∷ ("mcpServers", truthy_entry "mcp_servers" cfg.values)
    ∷ ("envValueMode", some (str "direct"))
    ∷ ("customAgents", agents_entry cfg.custom_agents)
    ∷ ("skillDirectories", truthy_entry "skill_directories" cfg.values)
    ∷ ("disabledSkills", truthy_entry "disabled_skills" cfg.values)
    ∷ ("infiniteSessions", infinite_entry cfg.infinite_sessions)
    ∷ []

unfoldable pub create_payload : Config → Dict Value
create_payload cfg = put_all (create_entries cfg) []

unfoldable pub resume_payload : String → Config → Dict Value
resume_payload session_id cfg = put_all (resume_entries session_id cfg) []
