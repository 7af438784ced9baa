-- ===== src/Types/Sessions.antt =====
-- What the client says of the sessions that the server knows: `SessionContext`, `SessionListFilter` and
-- `SessionMetadata` of python/copilot/types.py.
pub mod RoundTrip
use copilot_sdk.Prelude.{String, Bool, ◌||◌, Option, List, [], ◌∷◌, Result, ok, ◌>>=◌}
use copilot_sdk.Value.{Value, bool, str, obj, is_none, truthy}
use copilot_sdk.Wire.{Entry, always, given, to_fields, of_class}
use copilot_sdk.Types.{Conversions, to_str, required, if_truthy, write_part}

-- `SessionContext`
pub record SessionContext : Type 0 where
  pub cwd : String
  pub git_root : Value
  pub repository : Value
  pub branch : Value

abbrev pub read_context : Conversions → (String → Value) → Result SessionContext
read_context c get = required (is_none (get "cwd")) (
    ok (record {
      cwd = to_str c (get "cwd");
      git_root = get "gitRoot";
      repository = get "repository";
      branch = get "branch";
    }))

-- `SessionContext.from_dict`
unfoldable pub session_context_from_dict : Conversions → Value → Result SessionContext
session_context_from_dict c v = of_class (read_context c) v

abbrev pub context_entries : SessionContext → List Entry
context_entries x =
    always "cwd" (str x.cwd)
    ∷ given "gitRoot" x.git_root
    ∷ given "repository" x.repository
    ∷ given "branch" x.branch
    ∷ []

-- `SessionContext.to_dict`
unfoldable pub session_context_to_dict : SessionContext → Value
session_context_to_dict x = obj (to_fields (context_entries x))

-- `SessionListFilter`
pub record SessionListFilter : Type 0 where
  pub cwd : Value
  pub git_root : Value
  pub repository : Value
  pub branch : Value

-- `SessionListFilter.to_dict`
unfoldable pub session_list_filter_to_dict : SessionListFilter → Value
session_list_filter_to_dict x = obj (
    to_fields (
      given "cwd" x.cwd
      ∷ given "gitRoot" x.git_root
      ∷ given "repository" x.repository
      ∷ given "branch" x.branch
      ∷ []))

-- `SessionMetadata`
pub record SessionMetadata : Type 0 where
  pub session_id : String
  pub start_time : String
  pub modified_time : String
  pub is_remote : Bool
  pub summary : Value
  pub context : Option SessionContext

abbrev pub read_metadata : Conversions → (String → Value) → Result SessionMetadata
read_metadata c get =
    required
      (is_none (get "sessionId")
        || is_none (get "startTime")
        || is_none (get "modifiedTime")
        || is_none (get "isRemote"))
      (if_truthy (session_context_from_dict c) (get "context") >>= λ context. ok (record {
        session_id = to_str c (get "sessionId");
        start_time = to_str c (get "startTime");
        modified_time = to_str c (get "modifiedTime");
        is_remote = truthy (get "isRemote");
        summary = get "summary";
        context = context;
      }))

-- `SessionMetadata.from_dict`
unfoldable pub session_metadata_from_dict : Conversions → Value → Result SessionMetadata
session_metadata_from_dict c v = of_class (read_metadata c) v

abbrev pub metadata_entries : SessionMetadata → List Entry
metadata_entries x =
    always "sessionId" (str x.session_id)
    ∷ always "startTime" (str x.start_time)
    ∷ always "modifiedTime" (str x.modified_time)
    ∷ always "isRemote" (bool x.is_remote)
    ∷ given "summary" x.summary
    ∷ given "context" (write_part session_context_to_dict x.context)
    ∷ []

-- `SessionMetadata.to_dict`
unfoldable pub session_metadata_to_dict : SessionMetadata → Value
session_metadata_to_dict x = obj (to_fields (metadata_entries x))
