-- ===== src/CopilotClient/Runs.antt =====
-- The life of a `CopilotClient` (python/copilot/client.py): its operations one after the other, each with a
-- world of its own, whether they raise or not.
pub mod Sound
use copilot_sdk.Prelude.{String, List, [], ◌∷◌}
use copilot_sdk.CopilotClient.State.{Client}
use copilot_sdk.CopilotClient.Connection.{World, start, stop, force_stop}
use copilot_sdk.CopilotClient.Payload.{Config}
use copilot_sdk.CopilotClient.Sessions.{create_session, resume_session}
use copilot_sdk.CopilotClient.Queries.{list_models, delete_session}

-- The operations of the application that change the client
pub data Action : Type 0 where
  starts stops force_stops lists_models : Action
  creates : Config → Action
  resumes : String → Config → Action
  deletes : String → Action

-- The client after one operation
unfoldable pub perform : World → Action → Client → Client
perform w starts c = (start w c).1
perform w stops c = (stop w c).1
perform w force_stops c = force_stop w c
perform w lists_models c = (list_models w.conversions w.request c).1
perform w (creates cfg) c = (create_session w cfg c).1
perform w (resumes id cfg) c = (resume_session w id cfg c).1
perform w (deletes id) c = (delete_session w.conversions.str_of w.request id c).1

-- The client after operations, in worlds that may differ
unfoldable pub perform_all : List (World × Action) → Client → Client
unfolding perform
perform_all [] c = c
perform_all ((w, a) ∷ rest) c = perform_all rest (perform w a c)
