-- ===== src/CopilotClient/Examples/Runs.antt =====
-- A life of a `CopilotClient` (python/copilot/client.py): started, used and stopped.
use copilot_sdk.Prelude.{List, [], ◌∷◌}
use copilot_sdk.CopilotClient.Connection.{World}
use copilot_sdk.CopilotClient.Connection.Sound.{IsSound}
use copilot_sdk.CopilotClient.Runs.{Action, starts, stops, lists_models, creates, perform_all}
use copilot_sdk.CopilotClient.Runs.Sound.{run-IsSound}
use copilot_sdk.CopilotClient.Examples.{outside, config, machine, given, fresh, new-given}

abbrev life : List (World × Action)
life =
    (outside, starts) ∷ (outside, creates config) ∷ (outside, lists_models) ∷ (outside, stops) ∷ []

run-IsSound_example : IsSound (perform_all life fresh)
run-IsSound_example = run-IsSound machine given fresh new-given life
