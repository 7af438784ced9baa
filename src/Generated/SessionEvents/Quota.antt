-- ===== src/Generated/SessionEvents/Quota.antt =====
-- Requests and quota: the classes `Requests` to `RepositoryClass` of python/copilot/generated/session_events.py.
pub mod RoundTrip
use copilot_sdk.Prelude.{
  String, Option, List, [], ◌∷◌, Bool, Result, ok, raise, value_error, str_eq, if◌then◌else◌, ◌>>=◌,
}
use copilot_sdk.Value.{Value, str, float, bool, obj}
use copilot_sdk.Wire.{Entry, always, given, to_fields, of_class}
use copilot_sdk.Wire.Convert.{from_str, from_float, from_bool, optional, write_optional}
use copilot_sdk.Generated.SessionEvents.{Library, write_datetime}

-- `Requests`
pub record Requests : Type 0 where
  pub cost : String
  pub count : String

-- What `Requests.from_dict` reads
abbrev pub read_requests : Library → (String → Value) → Result Requests
read_requests lib get = do
  cost ← from_float lib.numbers (get "cost")
  count ← from_float lib.numbers (get "count")
  ok (record { cost = cost; count = count })

-- `Requests.from_dict`
unfoldable pub requests_from_dict : Library → Value → Result Requests
requests_from_dict lib v = of_class (read_requests lib) v

abbrev requests_entries : Requests → List Entry
requests_entries x = always "cost" (float x.cost) ∷ always "count" (float x.count) ∷ []

-- `Requests.to_dict`
unfoldable pub requests_to_dict : Requests → Value
requests_to_dict x = obj (to_fields (requests_entries x))

-- `Usage`
pub record Usage : Type 0 where
  pub cache_read_tokens : String
  pub cache_write_tokens : String
  pub input_tokens : String
  pub output_tokens : String

-- What `Usage.from_dict` reads
abbrev pub read_usage : Library → (String → Value) → Result Usage
read_usage lib get = do
  cache_read_tokens ← from_float lib.numbers (get "cacheReadTokens")
  cache_write_tokens ← from_float lib.numbers (get "cacheWriteTokens")
  input_tokens ← from_float lib.numbers (get "inputTokens")
  output_tokens ← from_float lib.numbers (get "outputTokens")
  ok (record {
    cache_read_tokens = cache_read_tokens;
    cache_write_tokens = cache_write_tokens;
    input_tokens = input_tokens;
    output_tokens = output_tokens;
  })

-- `Usage.from_dict`
unfoldable pub usage_from_dict : Library → Value → Result Usage
usage_from_dict lib v = of_class (read_usage lib) v

abbrev usage_entries : Usage → List Entry
usage_entries x =
    always "cacheReadTokens" (float x.cache_read_tokens)
    ∷ always "cacheWriteTokens" (float x.cache_write_tokens)
    ∷ always "inputTokens" (float x.input_tokens)
    ∷ always "outputTokens" (float x.output_tokens)
    ∷ []

-- `Usage.to_dict`
unfoldable pub usage_to_dict : Usage → Value
usage_to_dict x = obj (to_fields (usage_entries x))

-- `ModelMetric`
pub record ModelMetric : Type 0 where
  pub requests : Requests
  pub usage : Usage

-- What `ModelMetric.from_dict` reads
abbrev pub read_model_metric : Library → (String → Value) → Result ModelMetric
read_model_metric lib get = do
  requests ← requests_from_dict lib (get "requests")
  usage ← usage_from_dict lib (get "usage")
  ok (record { requests = requests; usage = usage })

-- `ModelMetric.from_dict`
unfoldable pub model_metric_from_dict : Library → Value → Result ModelMetric
model_metric_from_dict lib v = of_class (read_model_metric lib) v

abbrev model_metric_entries : ModelMetric → List Entry
model_metric_entries x =
    always "requests" (requests_to_dict x.requests) ∷ always "usage" (usage_to_dict x.usage) ∷ []

-- `ModelMetric.to_dict`
unfoldable pub model_metric_to_dict : ModelMetric → Value
model_metric_to_dict x = obj (to_fields (model_metric_entries x))

-- `Operation`
pub data Operation : Type 0 where
  create : Operation
  delete : Operation
  update : Operation

-- The value of a member
unfoldable pub operation_value : Operation → String
operation_value create = "create"
operation_value delete = "delete"
operation_value update = "update"

-- `Operation(x)`
unfoldable pub operation_of : Value → Result Operation
operation_of (str s) =
    if str_eq s "create"
    then ok create
    else if str_eq s "delete"
    then ok delete
    else if str_eq s "update"
    then ok update
    else raise value_error ""
operation_of v = raise value_error ""

-- `to_enum`
unfoldable pub operation_to_enum : Operation → Value
unfolding operation_value
operation_to_enum x = str (operation_value x)

-- `QuotaSnapshot`
pub record QuotaSnapshot (lib : Library) : Type 0 where
  pub entitlement_requests : String
  pub is_unlimited_entitlement : Bool
  pub overage : String
  pub overage_allowed_with_exhausted_quota : Bool
  pub remaining_percentage : String
  pub usage_allowed_with_exhausted_quota : Bool
  pub used_requests : String
  pub reset_date : Option lib.Datetime

-- What `QuotaSnapshot.from_dict` reads
abbrev pub read_quota_snapshot : (lib : Library) → (String → Value) → Result (QuotaSnapshot lib)
read_quota_snapshot lib get = do
  entitlement_requests ← from_float lib.numbers (get "entitlementRequests")
  is_unlimited_entitlement ← from_bool (get "isUnlimitedEntitlement")
  overage ← from_float lib.numbers (get "overage")
  overage_allowed_with_exhausted_quota ← from_bool (get "overageAllowedWithExhaustedQuota")
  remaining_percentage ← from_float lib.numbers (get "remainingPercentage")
  usage_allowed_with_exhausted_quota ← from_bool (get "usageAllowedWithExhaustedQuota")
  used_requests ← from_float lib.numbers (get "usedRequests")
  reset_date ← optional lib.parse_datetime (get "resetDate")
  ok (record {
    entitlement_requests = entitlement_requests;
    is_unlimited_entitlement = is_unlimited_entitlement;
    overage = overage;
    overage_allowed_with_exhausted_quota = overage_allowed_with_exhausted_quota;
    remaining_percentage = remaining_percentage;
    usage_allowed_with_exhausted_quota = usage_allowed_with_exhausted_quota;
    used_requests = used_requests;
    reset_date = reset_date;
  })

-- `QuotaSnapshot.from_dict`
unfoldable pub quota_snapshot_from_dict : (lib : Library) → Value → Result (QuotaSnapshot lib)
quota_snapshot_from_dict lib v = of_class (read_quota_snapshot lib) v

abbrev quota_snapshot_entries : (lib : Library) → (QuotaSnapshot lib) → List Entry
quota_snapshot_entries lib x =
    always "entitlementRequests" (float x.entitlement_requests)
    ∷ always "isUnlimitedEntitlement" (bool x.is_unlimited_entitlement)
    ∷ always "overage" (float x.overage)
    ∷ always "overageAllowedWithExhaustedQuota" (bool x.overage_allowed_with_exhausted_quota)
    ∷ always "remainingPercentage" (float x.remaining_percentage)
    ∷ always "usageAllowedWithExhaustedQuota" (bool x.usage_allowed_with_exhausted_quota)
    ∷ always "usedRequests" (float x.used_requests)
    ∷ given "resetDate" (write_optional (write_datetime lib) x.reset_date)
    ∷ []

-- `QuotaSnapshot.to_dict`
unfoldable pub quota_snapshot_to_dict : (lib : Library) → (QuotaSnapshot lib) → Value
quota_snapshot_to_dict lib x = obj (to_fields (quota_snapshot_entries lib x))

-- `RepositoryClass`
pub record RepositoryClass : Type 0 where
  pub name : String
  pub owner : String
  pub branch : Option String

-- What `RepositoryClass.from_dict` reads
abbrev pub read_repository_class : (String → Value) → Result RepositoryClass
read_repository_class get = do
  name ← from_str (get "name")
  owner ← from_str (get "owner")
  branch ← optional from_str (get "branch")
  ok (record { name = name; owner = owner; branch = branch })

-- `RepositoryClass.from_dict`
unfoldable pub repository_class_from_dict : Value → Result RepositoryClass
repository_class_from_dict v = of_class (read_repository_class) v

abbrev repository_class_entries : RepositoryClass → List Entry
repository_class_entries x =
    always "name" (str x.name)
    ∷ always "owner" (str x.owner)
    ∷ given "branch" (write_optional str x.branch)
    ∷ []

-- `RepositoryClass.to_dict`
unfoldable pub repository_class_to_dict : RepositoryClass → Value
repository_class_to_dict x = obj (to_fields (repository_class_entries x))
