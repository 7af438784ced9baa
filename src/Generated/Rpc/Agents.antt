-- ===== src/Generated/Rpc/Agents.antt =====
-- The agents of a session: the classes `AgentElement` to `SessionAgentDeselectResult` of python/copilot/generated/rpc.py.
pub mod RoundTrip
use copilot_sdk.Prelude.{String, Option, List, [], ◌∷◌, Result, ok, ◌>>=◌}
use copilot_sdk.Value.{Value, str, obj}
use copilot_sdk.Wire.{Entry, always, to_fields, of_class}
use copilot_sdk.Wire.Convert.{from_str, from_list, optional, write_optional, write_list}

-- `AgentElement`
pub record AgentElement : Type 0 where
  pub description : String
  pub display_name : String
  pub name : String

-- What `AgentElement.from_dict` reads
abbrev pub read_agent_element : (String → Value) → Result AgentElement
read_agent_element get = do
  description ← from_str (get "description")
  display_name ← from_str (get "displayName")
  name ← from_str (get "name")
  ok (record { description = description; display_name = display_name; name = name })

-- `AgentElement.from_dict`
unfoldable pub agent_element_from_dict : Value → Result AgentElement
agent_element_from_dict v = of_class (read_agent_element) v

abbrev agent_element_entries : AgentElement → List Entry
agent_element_entries x =
    always "description" (str x.description)
    ∷ always "displayName" (str x.display_name)
    ∷ always "name" (str x.name)
    ∷ []

-- `AgentElement.to_dict`
unfoldable pub agent_element_to_dict : AgentElement → Value
agent_element_to_dict x = obj (to_fields (agent_element_entries x))

-- `SessionAgentListResult`
pub record SessionAgentListResult : Type 0 where
  pub agents : List AgentElement

-- What `SessionAgentListResult.from_dict` reads
abbrev pub read_session_agent_list_result : (String → Value) → Result SessionAgentListResult
read_session_agent_list_result get = do
  agents ← from_list agent_element_from_dict (get "agents")
  ok (record { agents = agents })

-- `SessionAgentListResult.from_dict`
unfoldable pub session_agent_list_result_from_dict : Value → Result SessionAgentListResult
session_agent_list_result_from_dict v = of_class (read_session_agent_list_result) v

abbrev session_agent_list_result_entries : SessionAgentListResult → List Entry
session_agent_list_result_entries x =
    always "agents" (write_list agent_element_to_dict x.agents) ∷ []

-- `SessionAgentListResult.to_dict`
unfoldable pub session_agent_list_result_to_dict : SessionAgentListResult → Value
session_agent_list_result_to_dict x = obj (to_fields (session_agent_list_result_entries x))

-- `SessionAgentGetCurrentResultAgent`
pub record SessionAgentGetCurrentResultAgent : Type 0 where
  pub description : String
  pub display_name : String
  pub name : String

-- What `SessionAgentGetCurrentResultAgent.from_dict` reads
abbrev pub read_session_agent_get_current_result_agent :
    (String → Value) → Result SessionAgentGetCurrentResultAgent
read_session_agent_get_current_result_agent get = do
  description ← from_str (get "description")
  display_name ← from_str (get "displayName")
  name ← from_str (get "name")
  ok (record { description = description; display_name = display_name; name = name })

-- `SessionAgentGetCurrentResultAgent.from_dict`
unfoldable pub session_agent_get_current_result_agent_from_dict :
    Value → Result SessionAgentGetCurrentResultAgent
session_agent_get_current_result_agent_from_dict v =
    of_class (read_session_agent_get_current_result_agent) v

abbrev session_agent_get_current_result_agent_entries :
    SessionAgentGetCurrentResultAgent → List Entry
session_agent_get_current_result_agent_entries x =
    always "description" (str x.description)
    ∷ always "displayName" (str x.display_name)
    ∷ always "name" (str x.name)
    ∷ []

-- `SessionAgentGetCurrentResultAgent.to_dict`
unfoldable pub session_agent_get_current_result_agent_to_dict :
    SessionAgentGetCurrentResultAgent → Value
session_agent_get_current_result_agent_to_dict x =
    obj (to_fields (session_agent_get_current_result_agent_entries x))

-- `SessionAgentGetCurrentResult`
pub record SessionAgentGetCurrentResult : Type 0 where
  pub agent : Option SessionAgentGetCurrentResultAgent

-- What `SessionAgentGetCurrentResult.from_dict` reads
abbrev pub read_session_agent_get_current_result :
    (String → Value) → Result SessionAgentGetCurrentResult
read_session_agent_get_current_result get = do
  agent ← optional session_agent_get_current_result_agent_from_dict (get "agent")
  ok (record { agent = agent })

-- `SessionAgentGetCurrentResult.from_dict`
unfoldable pub session_agent_get_current_result_from_dict :
    Value → Result SessionAgentGetCurrentResult
session_agent_get_current_result_from_dict v = of_class (read_session_agent_get_current_result) v

abbrev session_agent_get_current_result_entries : SessionAgentGetCurrentResult → List Entry
session_agent_get_current_result_entries x =
    always "agent" (write_optional session_agent_get_current_result_agent_to_dict x.agent) ∷ []

-- `SessionAgentGetCurrentResult.to_dict`
unfoldable pub session_agent_get_current_result_to_dict : SessionAgentGetCurrentResult → Value
session_agent_get_current_result_to_dict x =
    obj (to_fields (session_agent_get_current_result_entries x))

-- `SessionAgentSelectResultAgent`
pub record SessionAgentSelectResultAgent : Type 0 where
  pub description : String
  pub display_name : String
  pub name : String

-- What `SessionAgentSelectResultAgent.from_dict` reads
abbrev pub read_session_agent_select_result_agent :
    (String → Value) → Result SessionAgentSelectResultAgent
read_session_agent_select_result_agent get = do
  description ← from_str (get "description")
  display_name ← from_str (get "displayName")
  name ← from_str (get "name")
  ok (record { description = description; display_name = display_name; name = name })

-- `SessionAgentSelectResultAgent.from_dict`
unfoldable pub session_agent_select_result_agent_from_dict :
    Value → Result SessionAgentSelectResultAgent
session_agent_select_result_agent_from_dict v = of_class (read_session_agent_select_result_agent) v

abbrev session_agent_select_result_agent_entries : SessionAgentSelectResultAgent → List Entry
session_agent_select_result_agent_entries x =
    always "description" (str x.description)
    ∷ always "displayName" (str x.display_name)
    ∷ always "name" (str x.name)
    ∷ []

-- `SessionAgentSelectResultAgent.to_dict`
unfoldable pub session_agent_select_result_agent_to_dict : SessionAgentSelectResultAgent → Value
session_agent_select_result_agent_to_dict x =
    obj (to_fields (session_agent_select_result_agent_entries x))

-- `SessionAgentSelectResult`
pub record SessionAgentSelectResult : Type 0 where
  pub agent : SessionAgentSelectResultAgent

-- What `SessionAgentSelectResult.from_dict` reads
abbrev pub read_session_agent_select_result : (String → Value) → Result SessionAgentSelectResult
read_session_agent_select_result get = do
  agent ← session_agent_select_result_agent_from_dict (get "agent")
  ok (record { agent = agent })

-- `SessionAgentSelectResult.from_dict`
unfoldable pub session_agent_select_result_from_dict : Value → Result SessionAgentSelectResult
session_agent_select_result_from_dict v = of_class (read_session_agent_select_result) v

abbrev session_agent_select_result_entries : SessionAgentSelectResult → List Entry
session_agent_select_result_entries x =
    always "agent" (session_agent_select_result_agent_to_dict x.agent) ∷ []

-- `SessionAgentSelectResult.to_dict`
unfoldable pub session_agent_select_result_to_dict : SessionAgentSelectResult → Value
session_agent_select_result_to_dict x = obj (to_fields (session_agent_select_result_entries x))

-- `SessionAgentSelectParams`
pub record SessionAgentSelectParams : Type 0 where
  pub name : String

-- What `SessionAgentSelectParams.from_dict` reads
abbrev pub read_session_agent_select_params : (String → Value) → Result SessionAgentSelectParams
read_session_agent_select_params get = do name ← from_str (get "name"); ok (record { name = name })

-- `SessionAgentSelectParams.from_dict`
unfoldable pub session_agent_select_params_from_dict : Value → Result SessionAgentSelectParams
session_agent_select_params_from_dict v = of_class (read_session_agent_select_params) v

abbrev pub session_agent_select_params_entries : SessionAgentSelectParams → List Entry
session_agent_select_params_entries x = always "name" (str x.name) ∷ []

-- `SessionAgentSelectParams.to_dict`
unfoldable pub session_agent_select_params_to_dict : SessionAgentSelectParams → Value
session_agent_select_params_to_dict x = obj (to_fields (session_agent_select_params_entries x))

-- `SessionAgentDeselectResult`, which has no fields
pub data SessionAgentDeselectResult : Type 0 where
  session_agent_deselect_result : SessionAgentDeselectResult

abbrev pub read_session_agent_deselect_result : (String → Value) → Result SessionAgentDeselectResult
read_session_agent_deselect_result get = ok session_agent_deselect_result

-- `SessionAgentDeselectResult.from_dict`
unfoldable pub session_agent_deselect_result_from_dict : Value → Result SessionAgentDeselectResult
session_agent_deselect_result_from_dict v = of_class (read_session_agent_deselect_result) v

abbrev session_agent_deselect_result_entries : SessionAgentDeselectResult → List Entry
session_agent_deselect_result_entries x = []

-- `SessionAgentDeselectResult.to_dict`
unfoldable pub session_agent_deselect_result_to_dict : SessionAgentDeselectResult → Value
session_agent_deselect_result_to_dict x = obj (to_fields (session_agent_deselect_result_entries x))
