-- ===== src/Tools.antt =====
-- Tools made from functions (python/copilot/tools.py): what the module needs of Python and pydantic, and
-- `_is_pydantic_model` and `_normalize_result`. `define_tool` is in the child DefineTool.
pub mod DefineTool
pub mod Examples
use Prim.Native.String.{◌++◌ as append}
use copilot_sdk.Prelude.{
  String, Bool, true, false, ◌&&◌, Option, none, some, [], ◌∷◌, if◌then◌else◌, Error, ErrorKind,
  Result, ok, err, raise, type_error, value_error, ◌>>=◌,
}
use copilot_sdk.Value.{Value, Fields, null, str, obj, has_field, dict}

-- A value that a function returns: one that JSON has, or an object of another kind, which is not None, no
-- text, and no dict that passes for a `ToolResult`: such a dict is taken to hold values of JSON only.
pub data Python (O : Type 0) : Type 0 where
  json : Value → Python O
  object : O → Python O

-- The type that `get_type_hints` gives for a parameter, if it gives one, as far as the module looks at it.
pub data Hint (M : Type 0) : Type 0 where
  no_hint tool_invocation other_hint : Hint M
  model : M → Hint M

-- The classes derived from pydantic's BaseModel, the objects that are not JSON, and `json.dumps` with the
-- function that it calls for an object.
pub record Library : Type 1 where
  pub Model : Type 0
  pub Object : Type 0
  pub model_json_schema : Model → Result Value
  pub model_validate : Model → Value → Result Object
  pub is_base_model : Object → Bool
  pub model_dump : Object → Result Value
  pub dumps : (Object → Result Value) → Python Object → Result String

-- `_is_pydantic_model`: the class, if it is one
unfoldable pub pydantic_model : {M : Type 0} → Hint M → Option M
pydantic_model (model m) = some m
pydantic_model _ = none

-- The test for a `ToolResult`
unfoldable pub is_tool_result : Value → Bool
is_tool_result (obj fs) = has_field "resultType" fs && has_field "textResultForLlm" fs
is_tool_result _ = false

abbrev pub success : String → Value
success text = dict (("textResultForLlm", str text) ∷ ("resultType", str "success") ∷ [])

-- `default` of `_normalize_result`
unfoldable pub default : (lib : Library) → lib.Object → Result Value
default lib o =
    if lib.is_base_model o
    then lib.model_dump o
    else raise type_error "object is not JSON serializable"

-- What the handler behind `json.dumps` raises: a TypeError and a ValueError become a TypeError.
abbrev serialize_error : ErrorKind → String → Error
serialize_error type_error m = record {
  kind = type_error;
  message = append "Failed to serialize tool result: " m;
}
serialize_error value_error m = record {
  kind = type_error;
  message = append "Failed to serialize tool result: " m;
}
serialize_error k m = record { kind = k; message = m }

abbrev pub serialized : Result String → Result Value
serialized (ok text) = ok (success text)
serialized (err e) = err (serialize_error e.kind e.message)

abbrev pub serialize : (lib : Library) → Python lib.Object → Result Value
serialize lib r = serialized (lib.dumps (default lib) r)

-- `_normalize_result`
unfoldable pub normalize_result : (lib : Library) → Python lib.Object → Result Value
unfolding is_tool_result default
normalize_result lib (json null) = ok (success "")
normalize_result lib (json (str text)) = ok (success text)
normalize_result lib (json (obj fs)) =
    if is_tool_result (obj fs) then ok (obj fs) else serialize lib (json (obj fs))
normalize_result lib r = serialize lib r
