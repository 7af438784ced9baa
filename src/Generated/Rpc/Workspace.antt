-- ===== src/Generated/Rpc/Workspace.antt =====
-- The workspace, the fleet and the compaction of a session: the classes `SessionWorkspaceListFilesResult` to `SessionFleetStartParams`, and `SessionCompactionCompactResult`, of python/copilot/generated/rpc.py.
pub mod RoundTrip
use copilot_sdk.Prelude.{String, Option, List, [], ◌∷◌, Bool, Result, ok, ◌>>=◌}
use copilot_sdk.Value.{Value, str, float, bool, obj}
use copilot_sdk.Wire.{Entry, always, given, to_fields, of_class}
use copilot_sdk.Wire.Convert.{
  Numbers, from_str, from_float, from_bool, from_list, optional, write_optional, write_list,
}

-- `SessionWorkspaceListFilesResult`
pub record SessionWorkspaceListFilesResult : Type 0 where
  pub files : List String

-- What `SessionWorkspaceListFilesResult.from_dict` reads
abbrev pub read_session_workspace_list_files_result :
    (String → Value) → Result SessionWorkspaceListFilesResult
read_session_workspace_list_files_result get = do
  files ← from_list from_str (get "files")
  ok (record { files = files })

-- `SessionWorkspaceListFilesResult.from_dict`
unfoldable pub session_workspace_list_files_result_from_dict :
    Value → Result SessionWorkspaceListFilesResult
session_workspace_list_files_result_from_dict v =
    of_class (read_session_workspace_list_files_result) v

abbrev session_workspace_list_files_result_entries : SessionWorkspaceListFilesResult → List Entry
session_workspace_list_files_result_entries x = always "files" (write_list str x.files) ∷ []

-- `SessionWorkspaceListFilesResult.to_dict`
unfoldable pub session_workspace_list_files_result_to_dict : SessionWorkspaceListFilesResult → Value
session_workspace_list_files_result_to_dict x =
    obj (to_fields (session_workspace_list_files_result_entries x))

-- `SessionWorkspaceReadFileResult`
pub record SessionWorkspaceReadFileResult : Type 0 where
  pub content : String

-- What `SessionWorkspaceReadFileResult.from_dict` reads
abbrev pub read_session_workspace_read_file_result :
    (String → Value) → Result SessionWorkspaceReadFileResult
read_session_workspace_read_file_result get = do
  content ← from_str (get "content")
  ok (record { content = content })

-- `SessionWorkspaceReadFileResult.from_dict`
unfoldable pub session_workspace_read_file_result_from_dict :
    Value → Result SessionWorkspaceReadFileResult
session_workspace_read_file_result_from_dict v =
    of_class (read_session_workspace_read_file_result) v

abbrev session_workspace_read_file_result_entries : SessionWorkspaceReadFileResult → List Entry
session_workspace_read_file_result_entries x = always "content" (str x.content) ∷ []

-- `SessionWorkspaceReadFileResult.to_dict`
unfoldable pub session_workspace_read_file_result_to_dict : SessionWorkspaceReadFileResult → Value
session_workspace_read_file_result_to_dict x =
    obj (to_fields (session_workspace_read_file_result_entries x))

-- `SessionWorkspaceReadFileParams`
pub record SessionWorkspaceReadFileParams : Type 0 where
  pub path : String

-- What `SessionWorkspaceReadFileParams.from_dict` reads
abbrev pub read_session_workspace_read_file_params :
    (String → Value) → Result SessionWorkspaceReadFileParams
read_session_workspace_read_file_params get = do
  path ← from_str (get "path")
  ok (record { path = path })

-- `SessionWorkspaceReadFileParams.from_dict`
unfoldable pub session_workspace_read_file_params_from_dict :
    Value → Result SessionWorkspaceReadFileParams
session_workspace_read_file_params_from_dict v =
    of_class (read_session_workspace_read_file_params) v

abbrev pub session_workspace_read_file_params_entries : SessionWorkspaceReadFileParams → List Entry
session_workspace_read_file_params_entries x = always "path" (str x.path) ∷ []

-- `SessionWorkspaceReadFileParams.to_dict`
unfoldable pub session_workspace_read_file_params_to_dict : SessionWorkspaceReadFileParams → Value
session_workspace_read_file_params_to_dict x =
    obj (to_fields (session_workspace_read_file_params_entries x))

-- `SessionWorkspaceCreateFileResult`, which has no fields
pub data SessionWorkspaceCreateFileResult : Type 0 where
  session_workspace_create_file_result : SessionWorkspaceCreateFileResult

abbrev pub read_session_workspace_create_file_result :
    (String → Value) → Result SessionWorkspaceCreateFileResult
read_session_workspace_create_file_result get = ok session_workspace_create_file_result

-- `SessionWorkspaceCreateFileResult.from_dict`
unfoldable pub session_workspace_create_file_result_from_dict :
    Value → Result SessionWorkspaceCreateFileResult
session_workspace_create_file_result_from_dict v =
    of_class (read_session_workspace_create_file_result) v

abbrev session_workspace_create_file_result_entries : SessionWorkspaceCreateFileResult → List Entry
session_workspace_create_file_result_entries x = []

-- `SessionWorkspaceCreateFileResult.to_dict`
unfoldable pub session_workspace_create_file_result_to_dict :
    SessionWorkspaceCreateFileResult → Value
session_workspace_create_file_result_to_dict x =
    obj (to_fields (session_workspace_create_file_result_entries x))

-- `SessionWorkspaceCreateFileParams`
pub record SessionWorkspaceCreateFileParams : Type 0 where
  pub content : String
  pub path : String

-- What `SessionWorkspaceCreateFileParams.from_dict` reads
abbrev pub read_session_workspace_create_file_params :
    (String → Value) → Result SessionWorkspaceCreateFileParams
read_session_workspace_create_file_params get = do
  content ← from_str (get "content")
  path ← from_str (get "path")
  ok (record { content = content; path = path })

-- `SessionWorkspaceCreateFileParams.from_dict`
unfoldable pub session_workspace_create_file_params_from_dict :
    Value → Result SessionWorkspaceCreateFileParams
session_workspace_create_file_params_from_dict v =
    of_class (read_session_workspace_create_file_params) v

abbrev pub session_workspace_create_file_params_entries :
    SessionWorkspaceCreateFileParams → List Entry
session_workspace_create_file_params_entries x =
    always "content" (str x.content) ∷ always "path" (str x.path) ∷ []

-- `SessionWorkspaceCreateFileParams.to_dict`
unfoldable pub session_workspace_create_file_params_to_dict :
    SessionWorkspaceCreateFileParams → Value
session_workspace_create_file_params_to_dict x =
    obj (to_fields (session_workspace_create_file_params_entries x))

-- `SessionFleetStartResult`
pub record SessionFleetStartResult : Type 0 where
  pub started : Bool

-- What `SessionFleetStartResult.from_dict` reads
abbrev pub read_session_fleet_start_result : (String → Value) → Result SessionFleetStartResult
read_session_fleet_start_result get = do
  started ← from_bool (get "started")
  ok (record { started = started })

-- `SessionFleetStartResult.from_dict`
unfoldable pub session_fleet_start_result_from_dict : Value → Result SessionFleetStartResult
session_fleet_start_result_from_dict v = of_class (read_session_fleet_start_result) v

abbrev session_fleet_start_result_entries : SessionFleetStartResult → List Entry
session_fleet_start_result_entries x = always "started" (bool x.started) ∷ []

-- `SessionFleetStartResult.to_dict`
unfoldable pub session_fleet_start_result_to_dict : SessionFleetStartResult → Value
session_fleet_start_result_to_dict x = obj (to_fields (session_fleet_start_result_entries x))

-- `SessionFleetStartParams`
pub record SessionFleetStartParams : Type 0 where
  pub prompt : Option String

-- What `SessionFleetStartParams.from_dict` reads
abbrev pub read_session_fleet_start_params : (String → Value) → Result SessionFleetStartParams
read_session_fleet_start_params get = do
  prompt ← optional from_str (get "prompt")
  ok (record { prompt = prompt })

-- `SessionFleetStartParams.from_dict`
unfoldable pub session_fleet_start_params_from_dict : Value → Result SessionFleetStartParams
session_fleet_start_params_from_dict v = of_class (read_session_fleet_start_params) v

abbrev pub session_fleet_start_params_entries : SessionFleetStartParams → List Entry
session_fleet_start_params_entries x = given "prompt" (write_optional str x.prompt) ∷ []

-- `SessionFleetStartParams.to_dict`
unfoldable pub session_fleet_start_params_to_dict : SessionFleetStartParams → Value
session_fleet_start_params_to_dict x = obj (to_fields (session_fleet_start_params_entries x))

-- `SessionCompactionCompactResult`
pub record SessionCompactionCompactResult : Type 0 where
  pub messages_removed : String
  pub success : Bool
  pub tokens_removed : String

-- What `SessionCompactionCompactResult.from_dict` reads
abbrev pub read_session_compaction_compact_result :
    Numbers → (String → Value) → Result SessionCompactionCompactResult
read_session_compaction_compact_result numbers get = do
  messages_removed ← from_float numbers (get "messagesRemoved")
  success ← from_bool (get "success")
  tokens_removed ← from_float numbers (get "tokensRemoved")
  ok (record {
    messages_removed = messages_removed;
    success = success;
    tokens_removed = tokens_removed;
  })

-- `SessionCompactionCompactResult.from_dict`
unfoldable pub session_compaction_compact_result_from_dict :
    Numbers → Value → Result SessionCompactionCompactResult
session_compaction_compact_result_from_dict numbers v =
    of_class (read_session_compaction_compact_result numbers) v

abbrev session_compaction_compact_result_entries : SessionCompactionCompactResult → List Entry
session_compaction_compact_result_entries x =
    always "messagesRemoved" (float x.messages_removed)
    ∷ always "success" (bool x.success)
    ∷ always "tokensRemoved" (float x.tokens_removed)
    ∷ []

-- `SessionCompactionCompactResult.to_dict`
unfoldable pub session_compaction_compact_result_to_dict : SessionCompactionCompactResult → Value
session_compaction_compact_result_to_dict x =
    obj (to_fields (session_compaction_compact_result_entries x))
