-- ===== src/Generated/Rpc/Modes.antt =====
-- The model, the mode and the plan of a session: the classes `SessionModelGetCurrentResult` to `SessionPlanDeleteResult` of python/copilot/generated/rpc.py.
pub mod RoundTrip
use copilot_sdk.Prelude.{
  String, Option, List, [], ◌∷◌, Bool, Result, ok, raise, value_error, str_eq, if◌then◌else◌, ◌>>=◌,
}
use copilot_sdk.Value.{Value, str, bool, obj}
use copilot_sdk.Wire.{Entry, always, given, to_fields, of_class}
use copilot_sdk.Wire.Convert.{from_str, from_bool, optional, none_or, write_optional}

-- `SessionModelGetCurrentResult`
pub record SessionModelGetCurrentResult : Type 0 where
  pub model_id : Option String

-- What `SessionModelGetCurrentResult.from_dict` reads
abbrev pub read_session_model_get_current_result :
    (String → Value) → Result SessionModelGetCurrentResult
read_session_model_get_current_result get = do
  model_id ← optional from_str (get "modelId")
  ok (record { model_id = model_id })

-- `SessionModelGetCurrentResult.from_dict`
unfoldable pub session_model_get_current_result_from_dict :
    Value → Result SessionModelGetCurrentResult
session_model_get_current_result_from_dict v = of_class (read_session_model_get_current_result) v

abbrev session_model_get_current_result_entries : SessionModelGetCurrentResult → List Entry
session_model_get_current_result_entries x = given "modelId" (write_optional str x.model_id) ∷ []

-- `SessionModelGetCurrentResult.to_dict`
unfoldable pub session_model_get_current_result_to_dict : SessionModelGetCurrentResult → Value
session_model_get_current_result_to_dict x =
    obj (to_fields (session_model_get_current_result_entries x))

-- `SessionModelSwitchToResult`
pub record SessionModelSwitchToResult : Type 0 where
  pub model_id : Option String

-- What `SessionModelSwitchToResult.from_dict` reads
abbrev pub read_session_model_switch_to_result :
    (String → Value) → Result SessionModelSwitchToResult
read_session_model_switch_to_result get = do
  model_id ← optional from_str (get "modelId")
  ok (record { model_id = model_id })

-- `SessionModelSwitchToResult.from_dict`
unfoldable pub session_model_switch_to_result_from_dict : Value → Result SessionModelSwitchToResult
session_model_switch_to_result_from_dict v = of_class (read_session_model_switch_to_result) v

abbrev session_model_switch_to_result_entries : SessionModelSwitchToResult → List Entry
session_model_switch_to_result_entries x = given "modelId" (write_optional str x.model_id) ∷ []

-- `SessionModelSwitchToResult.to_dict`
unfoldable pub session_model_switch_to_result_to_dict : SessionModelSwitchToResult → Value
session_model_switch_to_result_to_dict x =
    obj (to_fields (session_model_switch_to_result_entries x))

-- `SessionModelSwitchToParams`
pub record SessionModelSwitchToParams : Type 0 where
  pub model_id : String

-- What `SessionModelSwitchToParams.from_dict` reads
abbrev pub read_session_model_switch_to_params :
    (String → Value) → Result SessionModelSwitchToParams
read_session_model_switch_to_params get = do
  model_id ← from_str (get "modelId")
  ok (record { model_id = model_id })

-- `SessionModelSwitchToParams.from_dict`
unfoldable pub session_model_switch_to_params_from_dict : Value → Result SessionModelSwitchToParams
session_model_switch_to_params_from_dict v = of_class (read_session_model_switch_to_params) v

abbrev pub session_model_switch_to_params_entries : SessionModelSwitchToParams → List Entry
session_model_switch_to_params_entries x = always "modelId" (str x.model_id) ∷ []

-- `SessionModelSwitchToParams.to_dict`
unfoldable pub session_model_switch_to_params_to_dict : SessionModelSwitchToParams → Value
session_model_switch_to_params_to_dict x =
    obj (to_fields (session_model_switch_to_params_entries x))

-- `Mode`
pub data Mode : Type 0 where
  autopilot : Mode
  interactive : Mode
  plan : Mode

-- The value of a member
unfoldable pub mode_value : Mode → String
mode_value autopilot = "autopilot"
mode_value interactive = "interactive"
mode_value plan = "plan"

-- `Mode(x)`
unfoldable pub mode_of : Value → Result Mode
mode_of (str s) =
    if str_eq s "autopilot"
    then ok autopilot
    else if str_eq s "interactive"
    then ok interactive
    else if str_eq s "plan"
    then ok plan
    else raise value_error ""
mode_of v = raise value_error ""

-- `to_enum`
unfoldable pub mode_to_enum : Mode → Value
unfolding mode_value
mode_to_enum x = str (mode_value x)

-- `SessionModeGetResult`
pub record SessionModeGetResult : Type 0 where
  pub mode : Mode

-- What `SessionModeGetResult.from_dict` reads
abbrev pub read_session_mode_get_result : (String → Value) → Result SessionModeGetResult
read_session_mode_get_result get = do mode ← mode_of (get "mode"); ok (record { mode = mode })

-- `SessionModeGetResult.from_dict`
unfoldable pub session_mode_get_result_from_dict : Value → Result SessionModeGetResult
session_mode_get_result_from_dict v = of_class (read_session_mode_get_result) v

abbrev session_mode_get_result_entries : SessionModeGetResult → List Entry
session_mode_get_result_entries x = always "mode" (mode_to_enum x.mode) ∷ []

-- `SessionModeGetResult.to_dict`
unfoldable pub session_mode_get_result_to_dict : SessionModeGetResult → Value
session_mode_get_result_to_dict x = obj (to_fields (session_mode_get_result_entries x))

-- `SessionModeSetResult`
pub record SessionModeSetResult : Type 0 where
  pub mode : Mode

-- What `SessionModeSetResult.from_dict` reads
abbrev pub read_session_mode_set_result : (String → Value) → Result SessionModeSetResult
read_session_mode_set_result get = do mode ← mode_of (get "mode"); ok (record { mode = mode })

-- `SessionModeSetResult.from_dict`
unfoldable pub session_mode_set_result_from_dict : Value → Result SessionModeSetResult
session_mode_set_result_from_dict v = of_class (read_session_mode_set_result) v

abbrev session_mode_set_result_entries : SessionModeSetResult → List Entry
session_mode_set_result_entries x = always "mode" (mode_to_enum x.mode) ∷ []

-- `SessionModeSetResult.to_dict`
unfoldable pub session_mode_set_result_to_dict : SessionModeSetResult → Value
session_mode_set_result_to_dict x = obj (to_fields (session_mode_set_result_entries x))

-- `SessionModeSetParams`
pub record SessionModeSetParams : Type 0 where
  pub mode : Mode

-- What `SessionModeSetParams.from_dict` reads
abbrev pub read_session_mode_set_params : (String → Value) → Result SessionModeSetParams
read_session_mode_set_params get = do mode ← mode_of (get "mode"); ok (record { mode = mode })

-- `SessionModeSetParams.from_dict`
unfoldable pub session_mode_set_params_from_dict : Value → Result SessionModeSetParams
session_mode_set_params_from_dict v = of_class (read_session_mode_set_params) v

abbrev pub session_mode_set_params_entries : SessionModeSetParams → List Entry
session_mode_set_params_entries x = always "mode" (mode_to_enum x.mode) ∷ []

-- `SessionModeSetParams.to_dict`
unfoldable pub session_mode_set_params_to_dict : SessionModeSetParams → Value
session_mode_set_params_to_dict x = obj (to_fields (session_mode_set_params_entries x))

-- `SessionPlanReadResult`
pub record SessionPlanReadResult : Type 0 where
  pub exists : Bool
  pub content : Option String

-- What `SessionPlanReadResult.from_dict` reads
abbrev pub read_session_plan_read_result : (String → Value) → Result SessionPlanReadResult
read_session_plan_read_result get = do
  exists ← from_bool (get "exists")
  content ← none_or from_str (get "content")
  ok (record { exists = exists; content = content })

-- `SessionPlanReadResult.from_dict`
unfoldable pub session_plan_read_result_from_dict : Value → Result SessionPlanReadResult
session_plan_read_result_from_dict v = of_class (read_session_plan_read_result) v

abbrev session_plan_read_result_entries : SessionPlanReadResult → List Entry
session_plan_read_result_entries x =
    always "exists" (bool x.exists) ∷ always "content" (write_optional str x.content) ∷ []

-- `SessionPlanReadResult.to_dict`
unfoldable pub session_plan_read_result_to_dict : SessionPlanReadResult → Value
session_plan_read_result_to_dict x = obj (to_fields (session_plan_read_result_entries x))

-- `SessionPlanUpdateResult`, which has no fields
pub data SessionPlanUpdateResult : Type 0 where
  session_plan_update_result : SessionPlanUpdateResult

abbrev pub read_session_plan_update_result : (String → Value) → Result SessionPlanUpdateResult
read_session_plan_update_result get = ok session_plan_update_result

-- `SessionPlanUpdateResult.from_dict`
unfoldable pub session_plan_update_result_from_dict : Value → Result SessionPlanUpdateResult
session_plan_update_result_from_dict v = of_class (read_session_plan_update_result) v

abbrev session_plan_update_result_entries : SessionPlanUpdateResult → List Entry
session_plan_update_result_entries x = []

-- `SessionPlanUpdateResult.to_dict`
unfoldable pub session_plan_update_result_to_dict : SessionPlanUpdateResult → Value
session_plan_update_result_to_dict x = obj (to_fields (session_plan_update_result_entries x))

-- `SessionPlanUpdateParams`
pub record SessionPlanUpdateParams : Type 0 where
  pub content : String

-- What `SessionPlanUpdateParams.from_dict` reads
abbrev pub read_session_plan_update_params : (String → Value) → Result SessionPlanUpdateParams
read_session_plan_update_params get = do
  content ← from_str (get "content")
  ok (record { content = content })

-- `SessionPlanUpdateParams.from_dict`
unfoldable pub session_plan_update_params_from_dict : Value → Result SessionPlanUpdateParams
session_plan_update_params_from_dict v = of_class (read_session_plan_update_params) v

abbrev pub session_plan_update_params_entries : SessionPlanUpdateParams → List Entry
session_plan_update_params_entries x = always "content" (str x.content) ∷ []

-- `SessionPlanUpdateParams.to_dict`
unfoldable pub session_plan_update_params_to_dict : SessionPlanUpdateParams → Value
session_plan_update_params_to_dict x = obj (to_fields (session_plan_update_params_entries x))

-- `SessionPlanDeleteResult`, which has no fields
pub data SessionPlanDeleteResult : Type 0 where
  session_plan_delete_result : SessionPlanDeleteResult

abbrev pub read_session_plan_delete_result : (String → Value) → Result SessionPlanDeleteResult
read_session_plan_delete_result get = ok session_plan_delete_result

-- `SessionPlanDeleteResult.from_dict`
unfoldable pub session_plan_delete_result_from_dict : Value → Result SessionPlanDeleteResult
session_plan_delete_result_from_dict v = of_class (read_session_plan_delete_result) v

abbrev session_plan_delete_result_entries : SessionPlanDeleteResult → List Entry
session_plan_delete_result_entries x = []

-- `SessionPlanDeleteResult.to_dict`
unfoldable pub session_plan_delete_result_to_dict : SessionPlanDeleteResult → Value
session_plan_delete_result_to_dict x = obj (to_fields (session_plan_delete_result_entries x))
