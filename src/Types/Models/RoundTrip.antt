-- ===== src/Types/Models/RoundTrip.antt =====
-- What a model is written as is read back, if its vision limits say something.
use copilot_sdk.Prelude.{◌≡◌, refl, ◌∙◌, true, false, some, ok}
use copilot_sdk.Value.{truthy, get?, is_none}
use copilot_sdk.Wire.{of_class-to_fields, of_class_with_default, to_fields}
use copilot_sdk.Types.{Conversions, required, to_str, to_float, if_truthy-write_part}
use copilot_sdk.Types.Models.{
  ModelVisionLimits, read_vision_limits, model_vision_limits_from_dict, vision_limits_entries,
  model_vision_limits_to_dict, ModelLimits, read_limits, model_limits_from_dict, limits_entries,
  model_limits_to_dict, ModelSupports, read_supports, model_supports_from_dict,
  model_supports_to_dict, ModelCapabilities, read_capabilities, model_capabilities_from_dict,
  capabilities_entries, model_capabilities_to_dict, ModelPolicy, read_policy,
  model_policy_from_dict, policy_entries, model_policy_to_dict, ModelBilling, read_billing,
  model_billing_from_dict, billing_entries, model_billing_to_dict, ModelInfo, read_info,
  model_info_from_dict, info_entries, model_info_to_dict,
}

-- The vision limits of a model, if there are any, have a field that is not None.
abbrev pub SaysSomething : ModelLimits → Type 0
SaysSomething x =
    (v : ModelVisionLimits) → x.vision ≡ some v → truthy (model_vision_limits_to_dict v) ≡ true

vision-round_trip :
    (x : ModelVisionLimits) → model_vision_limits_from_dict (model_vision_limits_to_dict x) ≡ ok x
unfolding model_vision_limits_from_dict model_vision_limits_to_dict
vision-round_trip x = of_class-to_fields read_vision_limits (vision_limits_entries x) refl

limits-round_trip :
    (x : ModelLimits) → SaysSomething x → model_limits_from_dict (model_limits_to_dict x) ≡ ok x
unfolding model_limits_from_dict model_limits_to_dict
limits-round_trip x s =
    of_class-to_fields read_limits (limits_entries x) refl
    ∙ simp (
        if_truthy-write_part model_vision_limits_from_dict model_vision_limits_to_dict
          vision-round_trip x.vision s)

supports-round_trip :
    (x : ModelSupports) → model_supports_from_dict (model_supports_to_dict x) ≡ ok x
unfolding model_supports_from_dict model_supports_to_dict of_class_with_default read_supports
    to_fields get? required truthy
supports-round_trip x = refl

supports-is_none : (x : ModelSupports) → is_none (model_supports_to_dict x) ≡ false
unfolding model_supports_to_dict
supports-is_none x = refl

limits-is_none : (x : ModelLimits) → is_none (model_limits_to_dict x) ≡ false
unfolding model_limits_to_dict
limits-is_none x = refl

capabilities-is_none : (x : ModelCapabilities) → is_none (model_capabilities_to_dict x) ≡ false
unfolding model_capabilities_to_dict
capabilities-is_none x = refl

capabilities-round_trip :
    (x : ModelCapabilities)
    → SaysSomething x.limits
    → model_capabilities_from_dict (model_capabilities_to_dict x) ≡ ok x
unfolding model_capabilities_from_dict model_capabilities_to_dict required
capabilities-round_trip x s =
    of_class-to_fields read_capabilities (capabilities_entries x) refl
    ∙ simp (supports-is_none, limits-is_none, supports-round_trip, limits-round_trip x.limits s)

policy-round_trip :
    (c : Conversions) (x : ModelPolicy) → model_policy_from_dict c (model_policy_to_dict x) ≡ ok x
unfolding model_policy_from_dict model_policy_to_dict required to_str
policy-round_trip c x = of_class-to_fields (read_policy c) (policy_entries x) refl

policy-truthy : (x : ModelPolicy) → truthy (model_policy_to_dict x) ≡ true
unfolding model_policy_to_dict truthy to_fields
policy-truthy x = refl

billing-round_trip :
    (c : Conversions) (x : ModelBilling)
    → model_billing_from_dict c (model_billing_to_dict x) ≡ ok x
unfolding model_billing_from_dict model_billing_to_dict required to_float
billing-round_trip c x = of_class-to_fields (read_billing c) (billing_entries x) refl

billing-truthy : (x : ModelBilling) → truthy (model_billing_to_dict x) ≡ true
unfolding model_billing_to_dict truthy to_fields
billing-truthy x = refl

-- A model is read back from the dict that it writes, if its vision limits, where it has any, have a field
-- that is not None: limits without one are written as {}, which is read as no vision limits at all.
pub model_info-round_trip :
    (c : Conversions) (x : ModelInfo)
    → SaysSomething x.capabilities.limits
    → model_info_from_dict c (model_info_to_dict x) ≡ ok x
unfolding model_info_from_dict model_info_to_dict required to_str
model_info-round_trip c x s =
    of_class-to_fields (read_info c) (info_entries x) refl
    ∙ simp (
      capabilities-is_none,
      capabilities-round_trip x.capabilities s,
      if_truthy-write_part (model_policy_from_dict c) model_policy_to_dict (policy-round_trip c)
          x.policy (λ a _. policy-truthy a),
      if_truthy-write_part (model_billing_from_dict c) model_billing_to_dict (billing-round_trip c)
          x.billing (λ a _. billing-truthy a),
    )
