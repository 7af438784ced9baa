-- ===== src/CopilotClient/Examples/Queries.antt =====
-- Tests of the questions of `CopilotClient` (python/copilot/client.py).
use copilot_sdk.Prelude.{All, String, ◌≡◌, refl, true, false, none, some, [], ◌∷◌, ok}
use copilot_sdk.Prelude.Int.{pos}
use copilot_sdk.Value.{Value, null, int, str, get?, truthy}
use copilot_sdk.Wire.{of_class}
use copilot_sdk.CopilotClient.Status.{ping}
use copilot_sdk.CopilotClient.Queries.{list_models, delete_session}
use copilot_sdk.CopilotClient.Queries.Answered.{
  AfterDeletion, delete_session-after, IsCached, list_models-IsCached,
}
use copilot_sdk.Wire.{to_fields}
use copilot_sdk.Types.{if_truthy, write_part}
use copilot_sdk.Types.Models.{
  ModelInfo, ModelLimits, model_limits_from_dict, model_limits_to_dict, model_vision_limits_to_dict,
}
use copilot_sdk.Types.Models.RoundTrip.{SaysSomething}
use copilot_sdk.CopilotClient.Status.{get_status, get_auth_status}
use copilot_sdk.CopilotClient.Queries.{list_sessions}
use copilot_sdk.CopilotClient.Queries.Served.{Facts, serve, queries-served}
use copilot_sdk.CopilotClient.Examples.{conversions, outside, running, with_session}

abbrev show_text : Value → String
show_text v = "value"

delete_session-after_example :
    AfterDeletion "s1" with_session (delete_session show_text outside.request "s1" with_session)
delete_session-after_example = delete_session-after show_text outside.request "s1" with_session

list_models-IsCached_example : IsCached (list_models conversions outside.request running)
list_models-IsCached_example = list_models-IsCached conversions outside.request running

-- Limits with an empty part, which is lost
abbrev empty_vision : ModelLimits
empty_vision = record {
  max_prompt_tokens = int (pos 100);
  max_context_window_tokens = null;
  vision = some (record {
    supported_media_types = null;
    max_prompt_images = null;
    max_prompt_image_size = null;
  });
}

vision-lost :
    model_limits_from_dict (model_limits_to_dict empty_vision)
    ≡ ok (record empty_vision { vision = none })
unfolding model_limits_from_dict model_limits_to_dict model_vision_limits_to_dict of_class to_fields
    get? if_truthy truthy write_part
vision-lost = refl

abbrev a_model : ModelInfo
a_model = record {
  id = "gpt-5";
  name = "GPT-5";
  capabilities = record {
    supports = record { vision = false; reasoning_effort = true };
    limits = record empty_vision { vision = none };
  };
  policy = some (record { state = "enabled"; terms = "" });
  billing = none;
  supported_reasoning_efforts = null;
  default_reasoning_effort = null;
}

abbrev facts : Facts
facts = record {
  pong = record { message = "pong"; timestamp = pos 1; protocol_version = pos 2 };
  status = record { version = "1.0"; protocol_version = pos 2 };
  auth_status = record {
    is_authenticated = true;
    auth_type = str "user";
    host = null;
    login = str "octocat";
    status_message = null;
  };
  models = a_model ∷ [];
  sessions =
      record {
        session_id = "s1";
        start_time = "now";
        modified_time = "now";
        is_remote = false;
        summary = null;
        context = none;
      }
      ∷ [];
}

no_vision : All (λ m. SaysSomething m.capabilities.limits) facts.models
no_vision = ((λ v e. cc), tt)

queries-served_example :
    (ping conversions (serve facts) (some "hi") running ≡ ok facts.pong)
    × (get_status conversions (serve facts) running ≡ ok facts.status)
    × (get_auth_status (serve facts) running ≡ ok facts.auth_status)
    × (list_models conversions (serve facts) running
        ≡ (ok facts.models, record running { models_cache = some facts.models }))
    × (list_sessions conversions (serve facts) none running ≡ ok facts.sessions)
queries-served_example =
    queries-served conversions facts (some "hi") none running refl refl no_vision
