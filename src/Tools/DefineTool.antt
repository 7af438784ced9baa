-- ===== src/Tools/DefineTool.antt =====
-- `define_tool` of python/copilot/tools.py: how the parameters of a function are read, the handler that
-- wraps the function, and the tool.
pub mod Answers
use copilot_sdk.Prelude.{
  String, Bool, true, false, Option, none, some, List, [], ◌∷◌, ◌++◌, if◌then◌else◌, Result, ok,
  err, raise, value_error, ◌>>=◌,
}
use copilot_sdk.Value.{Value, obj, end, truthy}
use copilot_sdk.Session.Waiting.{item}
use copilot_sdk.CopilotClient.Serving.{failure, hidden}
use copilot_sdk.Tools.{
  Python, Hint, no_hint, tool_invocation, other_hint, model, Library, pydantic_model, default,
  normalize_result,
}

-- What a function is called with: the arguments as they came, an instance of a model that they were
-- validated as, or the invocation.
pub data Argument (O : Type 0) : Type 0 where
  raw : Value → Argument O
  validated : O → Argument O
  whole : Value → Argument O

-- A function, with the hints of its parameters as `inspect.signature` and `get_type_hints` give them. A
-- call is awaited if it has to be.
pub record Function (lib : Library) : Type 0 where
  pub name : Option String
  pub parameters : Result (List (Hint lib.Model))
  pub call : List (Argument lib.Object) → Result (Python lib.Object)

-- What is found out about a function
pub record Detected (M : Type 0) : Type 0 where
  pub takes_params : Bool
  pub takes_invocation : Bool
  pub ptype : Hint M

-- `params_type`, or a model that the first parameter has as its type
abbrev pub or_first : {M : Type 0} → Hint M → Hint M → Hint M
or_first no_hint (model m) = model m
or_first params_type _ = params_type

abbrev pub detect_one : {M : Type 0} → Hint M → Hint M → Detected M
detect_one params_type tool_invocation = record {
  takes_params = false;
  takes_invocation = true;
  ptype = params_type;
}
detect_one params_type first = record {
  takes_params = true;
  takes_invocation = false;
  ptype = or_first params_type first;
}

-- The detection of the signature
unfoldable pub detect : {M : Type 0} → Hint M → List (Hint M) → Detected M
detect params_type [] = record {
  takes_params = false;
  takes_invocation = false;
  ptype = params_type;
}
detect params_type (first ∷ []) = detect_one params_type first
detect params_type (first ∷ _ ∷ _) = record {
  takes_params = true;
  takes_invocation = true;
  ptype = or_first params_type first;
}

module _ (lib : Library) where
  abbrev pub validate : Option lib.Model → Value → Result (Argument lib.Object)
  validate none args = ok (raw args)
  validate (some m) args = lib.model_validate m args >>= λ o. ok (validated o)

  unfoldable pub params_args : Bool → Hint lib.Model → Value → Result (List (Argument lib.Object))
  unfolding pydantic_model
  params_args false ptype invocation = ok []
  params_args true ptype invocation = item "arguments" invocation >>= λ given.
      validate (pydantic_model ptype) (if truthy given then given else obj end) >>= λ a. ok (a ∷ [])

  abbrev pub invocation_args : Bool → Value → List (Argument lib.Object)
  invocation_args true invocation = whole invocation ∷ []
  invocation_args false invocation = []

  -- `call_args`
  unfoldable pub call_args : Detected lib.Model → Value → Result (List (Argument lib.Object))
  call_args d invocation = params_args d.takes_params d.ptype invocation >>= λ args.
      ok (args ++ invocation_args d.takes_invocation invocation)

  abbrev pub or_failure : Result Value → Value
  or_failure (ok result) = result
  or_failure (err e) = failure hidden e.message

  -- What stands under `try` in `wrapped_handler`
  unfoldable pub attempt : Function lib → Detected lib.Model → Value → Result Value
  unfolding call_args normalize_result
  attempt fn d invocation =
      call_args d invocation >>= λ args. fn.call args >>= λ result. normalize_result lib result

  -- `wrapped_handler`
  unfoldable pub wrapped_handler : Function lib → Detected lib.Model → Value → Value
  unfolding attempt
  wrapped_handler fn d invocation = or_failure (attempt fn d invocation)

  -- The `Tool` that is made
  pub record DefinedTool : Type 0 where
    pub name : String
    pub description : String
    pub parameters : Option Value
    pub handler : Value → Value

  abbrev tool_name : Option String → Option String → String
  tool_name (some name) _ = name
  tool_name none (some name) = name
  tool_name none none = "unknown"

  abbrev text_or_empty : Option String → String
  text_or_empty (some text) = text
  text_or_empty none = ""

  abbrev pub schema_of : Option lib.Model → Result (Option Value)
  schema_of (some m) = lib.model_json_schema m >>= λ schema. ok (some schema)
  schema_of none = ok none

  -- The tool for a name, a description, a function with what was found out about it, and a schema
  unfoldable pub made :
      Option String → Option String → Function lib → Detected lib.Model → Option Value → DefinedTool
  unfolding wrapped_handler
  made name description fn d schema = record {
    name = tool_name name fn.name;
    description = text_or_empty description;
    parameters = schema;
    handler = wrapped_handler fn d;
  }

  -- `decorator`
  unfoldable pub decorator :
      Option String → Option String → Hint lib.Model → Function lib → Result DefinedTool
  unfolding detect pydantic_model made
  decorator name description params_type fn = fn.parameters >>= λ hints.
      schema_of (pydantic_model ((detect params_type hints).ptype)) >>= λ schema.
      ok (made name description fn (detect params_type hints) schema)

  -- What `define_tool` gives: a tool, or a function that makes one.
  pub data Definition : Type 0 where
    tool : DefinedTool → Definition
    decorates : (Function lib → Result DefinedTool) → Definition

  -- `define_tool`
  unfoldable pub define_tool :
      Option String → Option String → Option (Function lib) → Hint lib.Model → Result Definition
  unfolding decorator
  define_tool name description none params_type =
      ok (decorates (decorator name description params_type))
  define_tool none description (some fn) params_type =
      raise value_error "name is required when using define_tool with handler="
  define_tool (some name) description (some fn) params_type =
      decorator (some name) description params_type fn >>= λ t. ok (tool t)
