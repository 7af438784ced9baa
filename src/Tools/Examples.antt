-- ===== src/Tools/Examples.antt =====
-- Tests of `define_tool` (python/copilot/tools.py) on a function with two parameters.
use copilot_sdk.Prelude.{
  String, ◌≡◌, ◌≤◌, refl, true, none, some, List, [], ◌∷◌, length, lookup, ok, err, Error, raise,
  type_error,
}
use copilot_sdk.Value.{Value, Fields, field, str, end, dict, get?, truthy, obj, of_dict}
use copilot_sdk.Session.{Session, new as new_session}
use copilot_sdk.Session.Tools.{get_tool_handler}
use copilot_sdk.CopilotClient.State.{Client}
use copilot_sdk.CopilotClient.Examples.{running}
use copilot_sdk.CopilotClient.Serving.{ToolCall, plain, failure, hidden, handle_tool_call_request}
use copilot_sdk.CopilotClient.Serving.Answers.{invocation_of, IsToolCall}
use copilot_sdk.Tools.{
  json, no_hint, tool_invocation, model, Library, is_tool_result, pydantic_model, success,
  normalize_result,
}
use copilot_sdk.Tools.DefineTool.{
  Argument, Function, wrapped_handler, params_args, detect, call_args, attempt, DefinedTool, made,
  decorator, tool, define_tool,
}
use copilot_sdk.Tools.DefineTool.Answers.{defined_tool-answered}

-- Python with one model, and no objects but its instances
abbrev library : Library
library = record {
  Model = String;
  Object = Value;
  model_json_schema = λ m. ok (str m);
  model_validate = λ m v. ok v;
  is_base_model = λ o. true;
  model_dump = ok;
  dumps = λ default o. raise type_error "not serializable";
}

abbrev reads_file : Function library
reads_file = record {
  name = some "read";
  parameters = ok (model "Path" ∷ tool_invocation ∷ []);
  call = λ args. ok (json (str "contents"));
}

abbrev read_tool : DefinedTool library
read_tool =
    made library (some "read") none reads_file
      (detect no_hint (model "Path" ∷ tool_invocation ∷ [])) (some (str "Path"))

read_tool-defined :
    define_tool library (some "read") none (some reads_file) no_hint ≡ ok (tool read_tool)
unfolding define_tool decorator detect pydantic_model
read_tool-defined = refl

abbrev session : Session
session = record (new_session "s1" none) { tool_handlers = ("read", 4) ∷ [] }

abbrev client : Client
client = record running { sessions = ("s1", session) ∷ [] }

abbrev params : Fields
params = field "sessionId" (str "s1") (
    field "toolCallId" (str "t1") (field "toolName" (str "read") (field "arguments" (obj end) end)))

params-IsToolCall : IsToolCall params client session "read"
unfolding get? truthy lookup
params-IsToolCall = record {
  session = record { id = "s1"; named = refl; listed = refl };
  id_given = refl;
  call_given = refl;
  name_given = refl;
  tool = refl;
}

abbrev calls : ToolCall
calls h v = ok (plain (read_tool.handler v))

found : get_tool_handler "read" session ≡ some 4
unfolding get_tool_handler lookup
found = refl

defined_tool-answered_example :
    (answer : Value) × (handle_tool_call_request (λ v. "value") calls params client
      ≡ ok (dict (("result", answer) ∷ [])))
    × (is_tool_result answer ≡ true)
    × ((v : Value)
        → attempt library reads_file
            (detect no_hint (model "Path" ∷ tool_invocation ∷ []))
            (invocation_of params)
          ≡ ok v
        → answer ≡ v)
    × ((e : Error)
        → attempt library reads_file
            (detect no_hint (model "Path" ∷ tool_invocation ∷ []))
            (invocation_of params)
          ≡ err e
        → answer ≡ failure hidden e.message)
    × (2 ≤ 2
        → (args : List (Argument Value))
        → call_args library
            (detect no_hint (model "Path" ∷ tool_invocation ∷ []))
            (invocation_of params)
          ≡ ok args
        → length args ≡ 2)
defined_tool-answered_example =
    defined_tool-answered library "read" none no_hint reads_file read_tool read_tool-defined
      (λ v. "value") calls params client session "read" 4 params-IsToolCall found (λ v. refl)
      (model "Path" ∷ tool_invocation ∷ []) refl

-- The tool of the test above gives the text that the function returns.
read_tool-success : read_tool.handler (invocation_of params) ≡ success "contents"
unfolding made wrapped_handler attempt call_args params_args pydantic_model detect normalize_result
    get? of_dict
read_tool-success = refl
