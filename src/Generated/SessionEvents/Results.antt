-- ===== src/Generated/SessionEvents/Results.antt =====
-- Results and requests of tools: the classes `Result` to `ToolRequest` of python/copilot/generated/session_events.py.
pub mod RoundTrip
use copilot_sdk.Prelude.{
  String, Option, List, [], ◌∷◌, Result, ok, raise, value_error, str_eq, if◌then◌else◌, ◌>>=◌,
}
use copilot_sdk.Value.{Value, str, obj}
use copilot_sdk.Wire.{Entry, always, given, to_fields, of_class}
use copilot_sdk.Wire.Convert.{from_str, from_list, optional, write_optional, write_list}
use copilot_sdk.Generated.SessionEvents.{Library}
use copilot_sdk.Generated.SessionEvents.Contents.{Content, content_from_dict, content_to_dict}

-- `Result`
pub record ResultClass : Type 0 where
  pub content : String
  pub contents : Option (List Content)
  pub detailed_content : Option String

-- What `Result.from_dict` reads
abbrev pub read_result_class : Library → (String → Value) → Result ResultClass
read_result_class lib get = do
  content ← from_str (get "content")
  contents ← optional (from_list (content_from_dict lib)) (get "contents")
  detailed_content ← optional from_str (get "detailedContent")
  ok (record { content = content; contents = contents; detailed_content = detailed_content })

-- `Result.from_dict`
unfoldable pub result_class_from_dict : Library → Value → Result ResultClass
result_class_from_dict lib v = of_class (read_result_class lib) v

abbrev result_class_entries : ResultClass → List Entry
result_class_entries x =
    always "content" (str x.content)
    ∷ given "contents" (write_optional (write_list content_to_dict) x.contents)
    ∷ given "detailedContent" (write_optional str x.detailed_content)
    ∷ []

-- `Result.to_dict`
unfoldable pub result_class_to_dict : ResultClass → Value
result_class_to_dict x = obj (to_fields (result_class_entries x))

-- `Role`
pub data Role : Type 0 where
  developer : Role
  system : Role

-- The value of a member
unfoldable pub role_value : Role → String
role_value developer = "developer"
role_value system = "system"

-- `Role(x)`
unfoldable pub role_of : Value → Result Role
role_of (str s) =
    if str_eq s "developer"
    then ok developer
    else if str_eq s "system"
    then ok system
    else raise value_error ""
role_of v = raise value_error ""

-- `to_enum`
unfoldable pub role_to_enum : Role → Value
unfolding role_value
role_to_enum x = str (role_value x)

-- `ShutdownType`
pub data ShutdownType : Type 0 where
  error : ShutdownType
  routine : ShutdownType

-- The value of a member
unfoldable pub shutdown_type_value : ShutdownType → String
shutdown_type_value error = "error"
shutdown_type_value routine = "routine"

-- `ShutdownType(x)`
unfoldable pub shutdown_type_of : Value → Result ShutdownType
shutdown_type_of (str s) =
    if str_eq s "error"
    then ok error
    else if str_eq s "routine"
    then ok routine
    else raise value_error ""
shutdown_type_of v = raise value_error ""

-- `to_enum`
unfoldable pub shutdown_type_to_enum : ShutdownType → Value
unfolding shutdown_type_value
shutdown_type_to_enum x = str (shutdown_type_value x)

-- `SourceType`
pub data SourceType : Type 0 where
  local : SourceType
  remote : SourceType

-- The value of a member
unfoldable pub source_type_value : SourceType → String
source_type_value local = "local"
source_type_value remote = "remote"

-- `SourceType(x)`
unfoldable pub source_type_of : Value → Result SourceType
source_type_of (str s) =
    if str_eq s "local"
    then ok local
    else if str_eq s "remote"
    then ok remote
    else raise value_error ""
source_type_of v = raise value_error ""

-- `to_enum`
unfoldable pub source_type_to_enum : SourceType → Value
unfolding source_type_value
source_type_to_enum x = str (source_type_value x)

-- `ToolRequestType`
pub data ToolRequestType : Type 0 where
  custom : ToolRequestType
  function : ToolRequestType

-- The value of a member
unfoldable pub tool_request_type_value : ToolRequestType → String
tool_request_type_value custom = "custom"
tool_request_type_value function = "function"

-- `ToolRequestType(x)`
unfoldable pub tool_request_type_of : Value → Result ToolRequestType
tool_request_type_of (str s) =
    if str_eq s "custom"
    then ok custom
    else if str_eq s "function"
    then ok function
    else raise value_error ""
tool_request_type_of v = raise value_error ""

-- `to_enum`
unfoldable pub tool_request_type_to_enum : ToolRequestType → Value
unfolding tool_request_type_value
tool_request_type_to_enum x = str (tool_request_type_value x)

-- `ToolRequest`
pub record ToolRequest : Type 0 where
  pub name : String
  pub tool_call_id : String
  pub arguments : Value
  pub type : Option ToolRequestType

-- What `ToolRequest.from_dict` reads
abbrev pub read_tool_request : (String → Value) → Result ToolRequest
read_tool_request get = do
  name ← from_str (get "name")
  tool_call_id ← from_str (get "toolCallId")
  type ← optional tool_request_type_of (get "type")
  ok (record { name = name; tool_call_id = tool_call_id; arguments = get "arguments"; type = type })

-- `ToolRequest.from_dict`
unfoldable pub tool_request_from_dict : Value → Result ToolRequest
tool_request_from_dict v = of_class (read_tool_request) v

abbrev tool_request_entries : ToolRequest → List Entry
tool_request_entries x =
    always "name" (str x.name)
    ∷ always "toolCallId" (str x.tool_call_id)
    ∷ given "arguments" x.arguments
    ∷ given "type" (write_optional tool_request_type_to_enum x.type)
    ∷ []

-- `ToolRequest.to_dict`
unfoldable pub tool_request_to_dict : ToolRequest → Value
tool_request_to_dict x = obj (to_fields (tool_request_entries x))
