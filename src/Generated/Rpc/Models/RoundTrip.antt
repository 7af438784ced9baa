-- ===== src/Generated/Rpc/Models/RoundTrip.antt =====
-- What the classes of the parent write, they read back.
use copilot_sdk.Prelude.{refl, ◌∙◌}
use copilot_sdk.Value.{str}
use copilot_sdk.Wire.{of_class-to_fields}
use copilot_sdk.Wire.Convert.{
  Numbers, from_str, from_list, write_list, ReadsBack, RefusesNone, reads_back,
  of_class-RefusesNone, optional-ReadsBack, from_list-ReadsBack, from_str-ReadsBack,
  from_list-RefusesNone,
}
use copilot_sdk.Generated.Rpc.Models.{
  billing_entries, billing_from_dict, billing_to_dict, capabilities_entries, capabilities_from_dict,
  capabilities_to_dict, limits_entries, limits_from_dict, limits_to_dict, model_entries,
  model_from_dict, model_to_dict, models_list_result_entries, models_list_result_from_dict,
  models_list_result_to_dict, ping_params_entries, ping_params_from_dict, ping_params_to_dict,
  ping_result_entries, ping_result_from_dict, ping_result_to_dict, policy_entries, policy_from_dict,
  policy_to_dict, read_billing, read_capabilities, read_limits, read_model, read_models_list_result,
  read_ping_params, read_ping_result, read_policy, read_supports, supports_entries,
  supports_from_dict, supports_to_dict,
}

pub ping_result_from_dict-ReadsBack :
    (numbers : Numbers) → ReadsBack (ping_result_from_dict numbers) ping_result_to_dict
unfolding ping_result_from_dict ping_result_to_dict
ping_result_from_dict-ReadsBack numbers x =
    of_class-to_fields (read_ping_result numbers) (ping_result_entries x) refl ∙ simp (reads_back)

pub ping_params_from_dict-ReadsBack : ReadsBack ping_params_from_dict ping_params_to_dict
unfolding ping_params_from_dict ping_params_to_dict
ping_params_from_dict-ReadsBack x =
    of_class-to_fields (read_ping_params) (ping_params_entries x) refl ∙ simp (reads_back)

pub billing_from_dict-ReadsBack :
    (numbers : Numbers) → ReadsBack (billing_from_dict numbers) billing_to_dict
unfolding billing_from_dict billing_to_dict
billing_from_dict-ReadsBack numbers x =
    of_class-to_fields (read_billing numbers) (billing_entries x) refl ∙ simp (reads_back)

pub billing_from_dict-RefusesNone : (numbers : Numbers) → RefusesNone (billing_from_dict numbers)
unfolding billing_from_dict
billing_from_dict-RefusesNone numbers = of_class-RefusesNone (read_billing numbers)

pub limits_from_dict-ReadsBack :
    (numbers : Numbers) → ReadsBack (limits_from_dict numbers) limits_to_dict
unfolding limits_from_dict limits_to_dict
limits_from_dict-ReadsBack numbers x =
    of_class-to_fields (read_limits numbers) (limits_entries x) refl ∙ simp (reads_back)

pub supports_from_dict-ReadsBack : ReadsBack supports_from_dict supports_to_dict
unfolding supports_from_dict supports_to_dict
supports_from_dict-ReadsBack x =
    of_class-to_fields (read_supports) (supports_entries x) refl ∙ simp (reads_back)

pub capabilities_from_dict-ReadsBack :
    (numbers : Numbers) → ReadsBack (capabilities_from_dict numbers) capabilities_to_dict
unfolding capabilities_from_dict capabilities_to_dict
capabilities_from_dict-ReadsBack numbers x =
    of_class-to_fields (read_capabilities numbers) (capabilities_entries x) refl
    ∙ simp (limits_from_dict-ReadsBack numbers, supports_from_dict-ReadsBack)

pub policy_from_dict-ReadsBack : ReadsBack policy_from_dict policy_to_dict
unfolding policy_from_dict policy_to_dict
policy_from_dict-ReadsBack x =
    of_class-to_fields (read_policy) (policy_entries x) refl ∙ simp (reads_back)

pub policy_from_dict-RefusesNone : RefusesNone policy_from_dict
unfolding policy_from_dict
policy_from_dict-RefusesNone = of_class-RefusesNone (read_policy)

pub model_from_dict-ReadsBack :
    (numbers : Numbers) → ReadsBack (model_from_dict numbers) model_to_dict
unfolding model_from_dict model_to_dict
model_from_dict-ReadsBack numbers x =
    of_class-to_fields (read_model numbers) (model_entries x) refl
    ∙ simp (
      reads_back,
      capabilities_from_dict-ReadsBack numbers,
      optional-ReadsBack (billing_from_dict numbers) billing_to_dict
          (billing_from_dict-ReadsBack numbers) (billing_from_dict-RefusesNone numbers),
      optional-ReadsBack policy_from_dict policy_to_dict policy_from_dict-ReadsBack
          policy_from_dict-RefusesNone,
      optional-ReadsBack (from_list from_str) (write_list str)
          (from_list-ReadsBack from_str str from_str-ReadsBack) (from_list-RefusesNone from_str),
    )

pub models_list_result_from_dict-ReadsBack :
    (numbers : Numbers)
    → ReadsBack (models_list_result_from_dict numbers) models_list_result_to_dict
unfolding models_list_result_from_dict models_list_result_to_dict
models_list_result_from_dict-ReadsBack numbers x =
    of_class-to_fields (read_models_list_result numbers) (models_list_result_entries x) refl
    ∙ simp (
        from_list-ReadsBack (model_from_dict numbers) model_to_dict
          (model_from_dict-ReadsBack numbers))
