-- ===== src/Types/Models.antt =====
-- What the client says of a model: `ModelVisionLimits`, `ModelLimits`, `ModelSupports`,
-- `ModelCapabilities`, `ModelPolicy`, `ModelBilling` and `ModelInfo` of python/copilot/types.py.
pub mod RoundTrip
use copilot_sdk.Prelude.{String, Bool, false, ◌||◌, Option, List, [], ◌∷◌, Result, ok, ◌>>=◌}
use copilot_sdk.Value.{Value, Fields, null, bool, float, str, obj, is_none, truthy, get_or}
use copilot_sdk.Wire.{Entry, always, given, to_fields, of_class, of_class_with_default}
use copilot_sdk.Types.{Conversions, to_str, to_float, required, if_truthy, write_part}

-- `ModelVisionLimits`
pub record ModelVisionLimits : Type 0 where
  pub supported_media_types : Value
  pub max_prompt_images : Value
  pub max_prompt_image_size : Value

abbrev pub read_vision_limits : (String → Value) → Result ModelVisionLimits
read_vision_limits get = ok (record {
  supported_media_types = get "supported_media_types";
  max_prompt_images = get "max_prompt_images";
  max_prompt_image_size = get "max_prompt_image_size";
})

-- `ModelVisionLimits.from_dict`
unfoldable pub model_vision_limits_from_dict : Value → Result ModelVisionLimits
model_vision_limits_from_dict v = of_class read_vision_limits v

abbrev pub vision_limits_entries : ModelVisionLimits → List Entry
vision_limits_entries x =
    given "supported_media_types" x.supported_media_types
    ∷ given "max_prompt_images" x.max_prompt_images
    ∷ given "max_prompt_image_size" x.max_prompt_image_size
    ∷ []

-- `ModelVisionLimits.to_dict`
unfoldable pub model_vision_limits_to_dict : ModelVisionLimits → Value
model_vision_limits_to_dict x = obj (to_fields (vision_limits_entries x))

-- `ModelLimits`
pub record ModelLimits : Type 0 where
  pub max_prompt_tokens : Value
  pub max_context_window_tokens : Value
  pub vision : Option ModelVisionLimits

abbrev pub read_limits : (String → Value) → Result ModelLimits
read_limits get = do
  vision ← if_truthy model_vision_limits_from_dict (get "vision")
  ok (record {
    max_prompt_tokens = get "max_prompt_tokens";
    max_context_window_tokens = get "max_context_window_tokens";
    vision = vision;
  })

-- `ModelLimits.from_dict`
unfoldable pub model_limits_from_dict : Value → Result ModelLimits
model_limits_from_dict v = of_class read_limits v

abbrev pub limits_entries : ModelLimits → List Entry
limits_entries x =
    given "max_prompt_tokens" x.max_prompt_tokens
    ∷ given "max_context_window_tokens" x.max_context_window_tokens
    ∷ given "vision" (write_part model_vision_limits_to_dict x.vision)
    ∷ []

-- `ModelLimits.to_dict`
unfoldable pub model_limits_to_dict : ModelLimits → Value
model_limits_to_dict x = obj (to_fields (limits_entries x))

-- `ModelSupports`
pub record ModelSupports : Type 0 where
  pub vision : Bool
  pub reasoning_effort : Bool

-- `ModelSupports.from_dict`; `reasoningEffort` has a default.
unfoldable pub read_supports : Fields → Result ModelSupports
read_supports fs = required (is_none (get_or "vision" null fs)) (
    ok (record {
      vision = truthy (get_or "vision" null fs);
      reasoning_effort = truthy (get_or "reasoningEffort" (bool false) fs);
    }))

unfoldable pub model_supports_from_dict : Value → Result ModelSupports
unfolding read_supports
model_supports_from_dict v = of_class_with_default read_supports v

abbrev pub supports_entries : ModelSupports → List Entry
supports_entries x =
    always "vision" (bool x.vision) ∷ always "reasoningEffort" (bool x.reasoning_effort) ∷ []

-- `ModelSupports.to_dict`
unfoldable pub model_supports_to_dict : ModelSupports → Value
model_supports_to_dict x = obj (to_fields (supports_entries x))

-- `ModelCapabilities`
pub record ModelCapabilities : Type 0 where
  pub supports : ModelSupports
  pub limits : ModelLimits

abbrev pub read_capabilities : (String → Value) → Result ModelCapabilities
read_capabilities get = required (is_none (get "supports") || is_none (get "limits")) (
    model_supports_from_dict (get "supports") >>= λ supports.
    model_limits_from_dict (get "limits") >>= λ limits.
    ok (record { supports = supports; limits = limits }))

-- `ModelCapabilities.from_dict`
unfoldable pub model_capabilities_from_dict : Value → Result ModelCapabilities
model_capabilities_from_dict v = of_class read_capabilities v

abbrev pub capabilities_entries : ModelCapabilities → List Entry
capabilities_entries x =
    always "supports" (model_supports_to_dict x.supports)
    ∷ always "limits" (model_limits_to_dict x.limits)
    ∷ []

-- `ModelCapabilities.to_dict`
unfoldable pub model_capabilities_to_dict : ModelCapabilities → Value
model_capabilities_to_dict x = obj (to_fields (capabilities_entries x))

-- `ModelPolicy`
pub record ModelPolicy : Type 0 where
  pub state : String
  pub terms : String

abbrev pub read_policy : Conversions → (String → Value) → Result ModelPolicy
read_policy c get =
    required (is_none (get "state") || is_none (get "terms"))
      (ok (record { state = to_str c (get "state"); terms = to_str c (get "terms") }))

-- `ModelPolicy.from_dict`
unfoldable pub model_policy_from_dict : Conversions → Value → Result ModelPolicy
model_policy_from_dict c v = of_class (read_policy c) v

abbrev pub policy_entries : ModelPolicy → List Entry
policy_entries x = always "state" (str x.state) ∷ always "terms" (str x.terms) ∷ []

-- `ModelPolicy.to_dict`
unfoldable pub model_policy_to_dict : ModelPolicy → Value
model_policy_to_dict x = obj (to_fields (policy_entries x))

-- `ModelBilling`
pub record ModelBilling : Type 0 where
  -- a float, held by its `repr`
  pub multiplier : String

abbrev pub read_billing : Conversions → (String → Value) → Result ModelBilling
read_billing c get =
    required (is_none (get "multiplier"))
      (to_float c (get "multiplier") >>= λ multiplier. ok (record { multiplier = multiplier }))

-- `ModelBilling.from_dict`
unfoldable pub model_billing_from_dict : Conversions → Value → Result ModelBilling
model_billing_from_dict c v = of_class (read_billing c) v

abbrev pub billing_entries : ModelBilling → List Entry
billing_entries x = always "multiplier" (float x.multiplier) ∷ []

-- `ModelBilling.to_dict`
unfoldable pub model_billing_to_dict : ModelBilling → Value
model_billing_to_dict x = obj (to_fields (billing_entries x))

-- `ModelInfo`
pub record ModelInfo : Type 0 where
  pub id : String
  pub name : String
  pub capabilities : ModelCapabilities
  pub policy : Option ModelPolicy
  pub billing : Option ModelBilling
  pub supported_reasoning_efforts : Value
  pub default_reasoning_effort : Value

abbrev pub read_info : Conversions → (String → Value) → Result ModelInfo
read_info c get =
    required (is_none (get "id") || is_none (get "name") || is_none (get "capabilities")) (
      model_capabilities_from_dict (get "capabilities") >>= λ capabilities.
      if_truthy (model_policy_from_dict c) (get "policy") >>= λ policy.
      if_truthy (model_billing_from_dict c) (get "billing") >>= λ billing. ok (record {
        id = to_str c (get "id");
        name = to_str c (get "name");
        capabilities = capabilities;
        policy = policy;
        billing = billing;
        supported_reasoning_efforts = get "supportedReasoningEfforts";
        default_reasoning_effort = get "defaultReasoningEffort";
      }))

-- `ModelInfo.from_dict`
unfoldable pub model_info_from_dict : Conversions → Value → Result ModelInfo
model_info_from_dict c v = of_class (read_info c) v

abbrev pub info_entries : ModelInfo → List Entry
info_entries x =
    always "id" (str x.id)
    ∷ always "name" (str x.name)
    ∷ always "capabilities" (model_capabilities_to_dict x.capabilities)
    ∷ given "policy" (write_part model_policy_to_dict x.policy)
    ∷ given "billing" (write_part model_billing_to_dict x.billing)
    ∷ given "supportedReasoningEfforts" x.supported_reasoning_efforts
    ∷ given "defaultReasoningEffort" x.default_reasoning_effort
    ∷ []

-- `ModelInfo.to_dict`
unfoldable pub model_info_to_dict : ModelInfo → Value
model_info_to_dict x = obj (to_fields (info_entries x))
