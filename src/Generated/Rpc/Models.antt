-- ===== src/Generated/Rpc/Models.antt =====
-- Models and the ping: the classes `PingResult` to `ModelsListResult` of python/copilot/generated/rpc.py.
pub mod RoundTrip
use copilot_sdk.Prelude.{String, Option, List, [], ◌∷◌, Bool, Result, ok, ◌>>=◌}
use copilot_sdk.Value.{Value, str, float, bool, obj}
use copilot_sdk.Wire.{Entry, always, given, to_fields, of_class}
use copilot_sdk.Wire.Convert.{
  Numbers, from_str, from_float, from_bool, from_list, optional, write_optional, write_list,
}

-- `PingResult`
pub record PingResult : Type 0 where
  pub message : String
  pub protocol_version : String
  pub timestamp : String

-- What `PingResult.from_dict` reads
abbrev pub read_ping_result : Numbers → (String → Value) → Result PingResult
read_ping_result numbers get = do
  message ← from_str (get "message")
  protocol_version ← from_float numbers (get "protocolVersion")
  timestamp ← from_float numbers (get "timestamp")
  ok (record { message = message; protocol_version = protocol_version; timestamp = timestamp })

-- `PingResult.from_dict`
unfoldable pub ping_result_from_dict : Numbers → Value → Result PingResult
ping_result_from_dict numbers v = of_class (read_ping_result numbers) v

abbrev ping_result_entries : PingResult → List Entry
ping_result_entries x =
    always "message" (str x.message)
    ∷ always "protocolVersion" (float x.protocol_version)
    ∷ always "timestamp" (float x.timestamp)
    ∷ []

-- `PingResult.to_dict`
unfoldable pub ping_result_to_dict : PingResult → Value
ping_result_to_dict x = obj (to_fields (ping_result_entries x))

-- `PingParams`
pub record PingParams : Type 0 where
  pub message : Option String

-- What `PingParams.from_dict` reads
abbrev pub read_ping_params : (String → Value) → Result PingParams
read_ping_params get = do
  message ← optional from_str (get "message")
  ok (record { message = message })

-- `PingParams.from_dict`
unfoldable pub ping_params_from_dict : Value → Result PingParams
ping_params_from_dict v = of_class (read_ping_params) v

abbrev pub ping_params_entries : PingParams → List Entry
ping_params_entries x = given "message" (write_optional str x.message) ∷ []

-- `PingParams.to_dict`
unfoldable pub ping_params_to_dict : PingParams → Value
ping_params_to_dict x = obj (to_fields (ping_params_entries x))

-- `Billing`
pub record Billing : Type 0 where
  pub multiplier : String

-- What `Billing.from_dict` reads
abbrev pub read_billing : Numbers → (String → Value) → Result Billing
read_billing numbers get = do
  multiplier ← from_float numbers (get "multiplier")
  ok (record { multiplier = multiplier })

-- `Billing.from_dict`
unfoldable pub billing_from_dict : Numbers → Value → Result Billing
billing_from_dict numbers v = of_class (read_billing numbers) v

abbrev billing_entries : Billing → List Entry
billing_entries x = always "multiplier" (float x.multiplier) ∷ []

-- `Billing.to_dict`
unfoldable pub billing_to_dict : Billing → Value
billing_to_dict x = obj (to_fields (billing_entries x))

-- `Limits`
pub record Limits : Type 0 where
  pub max_context_window_tokens : String
  pub max_output_tokens : Option String
  pub max_prompt_tokens : Option String

-- What `Limits.from_dict` reads
abbrev pub read_limits : Numbers → (String → Value) → Result Limits
read_limits numbers get = do
  max_context_window_tokens ← from_float numbers (get "max_context_window_tokens")
  max_output_tokens ← optional (from_float numbers) (get "max_output_tokens")
  max_prompt_tokens ← optional (from_float numbers) (get "max_prompt_tokens")
  ok (record {
    max_context_window_tokens = max_context_window_tokens;
    max_output_tokens = max_output_tokens;
    max_prompt_tokens = max_prompt_tokens;
  })

-- `Limits.from_dict`
unfoldable pub limits_from_dict : Numbers → Value → Result Limits
limits_from_dict numbers v = of_class (read_limits numbers) v

abbrev limits_entries : Limits → List Entry
limits_entries x =
    always "max_context_window_tokens" (float x.max_context_window_tokens)
    ∷ given "max_output_tokens" (write_optional float x.max_output_tokens)
    ∷ given "max_prompt_tokens" (write_optional float x.max_prompt_tokens)
    ∷ []

-- `Limits.to_dict`
unfoldable pub limits_to_dict : Limits → Value
limits_to_dict x = obj (to_fields (limits_entries x))

-- `Supports`
pub record Supports : Type 0 where
  pub reasoning_effort : Bool
  pub vision : Bool

-- What `Supports.from_dict` reads
abbrev pub read_supports : (String → Value) → Result Supports
read_supports get = do
  reasoning_effort ← from_bool (get "reasoningEffort")
  vision ← from_bool (get "vision")
  ok (record { reasoning_effort = reasoning_effort; vision = vision })

-- `Supports.from_dict`
unfoldable pub supports_from_dict : Value → Result Supports
supports_from_dict v = of_class (read_supports) v

abbrev supports_entries : Supports → List Entry
supports_entries x =
    always "reasoningEffort" (bool x.reasoning_effort) ∷ always "vision" (bool x.vision) ∷ []

-- `Supports.to_dict`
unfoldable pub supports_to_dict : Supports → Value
supports_to_dict x = obj (to_fields (supports_entries x))

-- `Capabilities`
pub record Capabilities : Type 0 where
  pub limits : Limits
  pub supports : Supports

-- What `Capabilities.from_dict` reads
abbrev pub read_capabilities : Numbers → (String → Value) → Result Capabilities
read_capabilities numbers get = do
  limits ← limits_from_dict numbers (get "limits")
  supports ← supports_from_dict (get "supports")
  ok (record { limits = limits; supports = supports })

-- `Capabilities.from_dict`
unfoldable pub capabilities_from_dict : Numbers → Value → Result Capabilities
capabilities_from_dict numbers v = of_class (read_capabilities numbers) v

abbrev capabilities_entries : Capabilities → List Entry
capabilities_entries x =
    always "limits" (limits_to_dict x.limits) ∷ always "supports" (supports_to_dict x.supports) ∷ []

-- `Capabilities.to_dict`
unfoldable pub capabilities_to_dict : Capabilities → Value
capabilities_to_dict x = obj (to_fields (capabilities_entries x))

-- `Policy`
pub record Policy : Type 0 where
  pub state : String
  pub terms : String

-- What `Policy.from_dict` reads
abbrev pub read_policy : (String → Value) → Result Policy
read_policy get = do
  state ← from_str (get "state")
  terms ← from_str (get "terms")
  ok (record { state = state; terms = terms })

-- `Policy.from_dict`
unfoldable pub policy_from_dict : Value → Result Policy
policy_from_dict v = of_class (read_policy) v

abbrev policy_entries : Policy → List Entry
policy_entries x = always "state" (str x.state) ∷ always "terms" (str x.terms) ∷ []

-- `Policy.to_dict`
unfoldable pub policy_to_dict : Policy → Value
policy_to_dict x = obj (to_fields (policy_entries x))

-- `Model`
pub record Model : Type 0 where
  pub capabilities : Capabilities
  pub id : String
  pub name : String
  pub billing : Option Billing
  pub default_reasoning_effort : Option String
  pub policy : Option Policy
  pub supported_reasoning_efforts : Option (List String)

-- What `Model.from_dict` reads
abbrev pub read_model : Numbers → (String → Value) → Result Model
read_model numbers get = do
  capabilities ← capabilities_from_dict numbers (get "capabilities")
  id ← from_str (get "id")
  name ← from_str (get "name")
  billing ← optional (billing_from_dict numbers) (get "billing")
  default_reasoning_effort ← optional from_str (get "defaultReasoningEffort")
  policy ← optional policy_from_dict (get "policy")
  supported_reasoning_efforts ← optional (from_list from_str) (get "supportedReasoningEfforts")
  ok (record {
    capabilities = capabilities;
    id = id;
    name = name;
    billing = billing;
    default_reasoning_effort = default_reasoning_effort;
    policy = policy;
    supported_reasoning_efforts = supported_reasoning_efforts;
  })

-- `Model.from_dict`
unfoldable pub model_from_dict : Numbers → Value → Result Model
model_from_dict numbers v = of_class (read_model numbers) v

abbrev model_entries : Model → List Entry
model_entries x =
    always "capabilities" (capabilities_to_dict x.capabilities)
    ∷ always "id" (str x.id)
    ∷ always "name" (str x.name)
    ∷ given "billing" (write_optional billing_to_dict x.billing)
    ∷ given "defaultReasoningEffort" (write_optional str x.default_reasoning_effort)
    ∷ given "policy" (write_optional policy_to_dict x.policy)
    ∷ given "supportedReasoningEfforts"
        (write_optional (write_list str) x.supported_reasoning_efforts)
    ∷ []

-- `Model.to_dict`
unfoldable pub model_to_dict : Model → Value
model_to_dict x = obj (to_fields (model_entries x))

-- `ModelsListResult`
pub record ModelsListResult : Type 0 where
  pub models : List Model

-- What `ModelsListResult.from_dict` reads
abbrev pub read_models_list_result : Numbers → (String → Value) → Result ModelsListResult
read_models_list_result numbers get = do
  models ← from_list (model_from_dict numbers) (get "models")
  ok (record { models = models })

-- `ModelsListResult.from_dict`
unfoldable pub models_list_result_from_dict : Numbers → Value → Result ModelsListResult
models_list_result_from_dict numbers v = of_class (read_models_list_result numbers) v

abbrev models_list_result_entries : ModelsListResult → List Entry
models_list_result_entries x = always "models" (write_list model_to_dict x.models) ∷ []

-- `ModelsListResult.to_dict`
unfoldable pub models_list_result_to_dict : ModelsListResult → Value
models_list_result_to_dict x = obj (to_fields (models_list_result_entries x))
