-- ===== src/Generated/Rpc/Tools.antt =====
-- Tools and quota: the classes `Tool` to `AccountGetQuotaResult` of python/copilot/generated/rpc.py.
pub mod RoundTrip
use copilot_sdk.Prelude.{String, Option, List, [], ◌∷◌, Dict, Bool, Result, ok, ◌>>=◌}
use copilot_sdk.Value.{Value, str, float, bool, obj}
use copilot_sdk.Wire.{Entry, always, given, to_fields, of_class}
use copilot_sdk.Wire.Convert.{
  Numbers, from_str, from_float, from_bool, from_list, from_dict, optional, write_optional,
  write_list, write_dict,
}

-- `Tool`
pub record Tool : Type 0 where
  pub description : String
  pub name : String
  pub instructions : Option String
  pub namespaced_name : Option String
  pub parameters : Option (Dict Value)

-- What `Tool.from_dict` reads
abbrev pub read_tool : (String → Value) → Result Tool
read_tool get = do
  description ← from_str (get "description")
  name ← from_str (get "name")
  instructions ← optional from_str (get "instructions")
  namespaced_name ← optional from_str (get "namespacedName")
  parameters ← optional (from_dict ok) (get "parameters")
  ok (record {
    description = description;
    name = name;
    instructions = instructions;
    namespaced_name = namespaced_name;
    parameters = parameters;
  })

-- `Tool.from_dict`
unfoldable pub tool_from_dict : Value → Result Tool
tool_from_dict v = of_class (read_tool) v

abbrev tool_entries : Tool → List Entry
tool_entries x =
    always "description" (str x.description)
    ∷ always "name" (str x.name)
    ∷ given "instructions" (write_optional str x.instructions)
    ∷ given "namespacedName" (write_optional str x.namespaced_name)
    ∷ given "parameters" (write_optional (write_dict (λ v. v)) x.parameters)
    ∷ []

-- `Tool.to_dict`
unfoldable pub tool_to_dict : Tool → Value
tool_to_dict x = obj (to_fields (tool_entries x))

-- `ToolsListResult`
pub record ToolsListResult : Type 0 where
  pub tools : List Tool

-- What `ToolsListResult.from_dict` reads
abbrev pub read_tools_list_result : (String → Value) → Result ToolsListResult
read_tools_list_result get = do
  tools ← from_list tool_from_dict (get "tools")
  ok (record { tools = tools })

-- `ToolsListResult.from_dict`
unfoldable pub tools_list_result_from_dict : Value → Result ToolsListResult
tools_list_result_from_dict v = of_class (read_tools_list_result) v

abbrev tools_list_result_entries : ToolsListResult → List Entry
tools_list_result_entries x = always "tools" (write_list tool_to_dict x.tools) ∷ []

-- `ToolsListResult.to_dict`
unfoldable pub tools_list_result_to_dict : ToolsListResult → Value
tools_list_result_to_dict x = obj (to_fields (tools_list_result_entries x))

-- `ToolsListParams`
pub record ToolsListParams : Type 0 where
  pub model : Option String

-- What `ToolsListParams.from_dict` reads
abbrev pub read_tools_list_params : (String → Value) → Result ToolsListParams
read_tools_list_params get = do
  model ← optional from_str (get "model")
  ok (record { model = model })

-- `ToolsListParams.from_dict`
unfoldable pub tools_list_params_from_dict : Value → Result ToolsListParams
tools_list_params_from_dict v = of_class (read_tools_list_params) v

abbrev pub tools_list_params_entries : ToolsListParams → List Entry
tools_list_params_entries x = given "model" (write_optional str x.model) ∷ []

-- `ToolsListParams.to_dict`
unfoldable pub tools_list_params_to_dict : ToolsListParams → Value
tools_list_params_to_dict x = obj (to_fields (tools_list_params_entries x))

-- `QuotaSnapshot`
pub record QuotaSnapshot : Type 0 where
  pub entitlement_requests : String
  pub overage : String
  pub overage_allowed_with_exhausted_quota : Bool
  pub remaining_percentage : String
  pub used_requests : String
  pub reset_date : Option String

-- What `QuotaSnapshot.from_dict` reads
abbrev pub read_quota_snapshot : Numbers → (String → Value) → Result QuotaSnapshot
read_quota_snapshot numbers get = do
  entitlement_requests ← from_float numbers (get "entitlementRequests")
  overage ← from_float numbers (get "overage")
  overage_allowed_with_exhausted_quota ← from_bool (get "overageAllowedWithExhaustedQuota")
  remaining_percentage ← from_float numbers (get "remainingPercentage")
  used_requests ← from_float numbers (get "usedRequests")
  reset_date ← optional from_str (get "resetDate")
  ok (record {
    entitlement_requests = entitlement_requests;
    overage = overage;
    overage_allowed_with_exhausted_quota = overage_allowed_with_exhausted_quota;
    remaining_percentage = remaining_percentage;
    used_requests = used_requests;
    reset_date = reset_date;
  })

-- `QuotaSnapshot.from_dict`
unfoldable pub quota_snapshot_from_dict : Numbers → Value → Result QuotaSnapshot
quota_snapshot_from_dict numbers v = of_class (read_quota_snapshot numbers) v

abbrev quota_snapshot_entries : QuotaSnapshot → List Entry
quota_snapshot_entries x =
    always "entitlementRequests" (float x.entitlement_requests)
    ∷ always "overage" (float x.overage)
    ∷ always "overageAllowedWithExhaustedQuota" (bool x.overage_allowed_with_exhausted_quota)
    ∷ always "remainingPercentage" (float x.remaining_percentage)
    ∷ always "usedRequests" (float x.used_requests)
    ∷ given "resetDate" (write_optional str x.reset_date)
    ∷ []

-- `QuotaSnapshot.to_dict`
unfoldable pub quota_snapshot_to_dict : QuotaSnapshot → Value
quota_snapshot_to_dict x = obj (to_fields (quota_snapshot_entries x))

-- `AccountGetQuotaResult`
pub record AccountGetQuotaResult : Type 0 where
  pub quota_snapshots : Dict QuotaSnapshot

-- What `AccountGetQuotaResult.from_dict` reads
abbrev pub read_account_get_quota_result : Numbers → (String → Value) → Result AccountGetQuotaResult
read_account_get_quota_result numbers get = do
  quota_snapshots ← from_dict (quota_snapshot_from_dict numbers) (get "quotaSnapshots")
  ok (record { quota_snapshots = quota_snapshots })

-- `AccountGetQuotaResult.from_dict`
unfoldable pub account_get_quota_result_from_dict : Numbers → Value → Result AccountGetQuotaResult
account_get_quota_result_from_dict numbers v = of_class (read_account_get_quota_result numbers) v

abbrev account_get_quota_result_entries : AccountGetQuotaResult → List Entry
account_get_quota_result_entries x =
    always "quotaSnapshots" (write_dict quota_snapshot_to_dict x.quota_snapshots) ∷ []

-- `AccountGetQuotaResult.to_dict`
unfoldable pub account_get_quota_result_to_dict : AccountGetQuotaResult → Value
account_get_quota_result_to_dict x = obj (to_fields (account_get_quota_result_entries x))
