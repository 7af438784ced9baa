-- ===== src/Generated/SessionEvents/Usage.antt =====
-- Usage: the classes `CodeChanges` to `Metadata` of python/copilot/generated/session_events.py.
pub mod RoundTrip
use copilot_sdk.Prelude.{String, Option, List, [], ◌∷◌, Dict, Result, ok, ◌>>=◌}
use copilot_sdk.Value.{Value, str, float, obj}
use copilot_sdk.Wire.{Entry, always, given, to_fields, of_class}
use copilot_sdk.Wire.Convert.{
  from_str, from_float, from_list, from_dict, optional, write_optional, write_list, write_dict,
}
use copilot_sdk.Generated.SessionEvents.{Library}

-- `CodeChanges`
pub record CodeChanges : Type 0 where
  pub files_modified : List String
  pub lines_added : String
  pub lines_removed : String

-- What `CodeChanges.from_dict` reads
abbrev pub read_code_changes : Library → (String → Value) → Result CodeChanges
read_code_changes lib get = do
  files_modified ← from_list from_str (get "filesModified")
  lines_added ← from_float lib.numbers (get "linesAdded")
  lines_removed ← from_float lib.numbers (get "linesRemoved")
  ok (record {
    files_modified = files_modified;
    lines_added = lines_added;
    lines_removed = lines_removed;
  })

-- `CodeChanges.from_dict`
unfoldable pub code_changes_from_dict : Library → Value → Result CodeChanges
code_changes_from_dict lib v = of_class (read_code_changes lib) v

abbrev code_changes_entries : CodeChanges → List Entry
code_changes_entries x =
    always "filesModified" (write_list str x.files_modified)
    ∷ always "linesAdded" (float x.lines_added)
    ∷ always "linesRemoved" (float x.lines_removed)
    ∷ []

-- `CodeChanges.to_dict`
unfoldable pub code_changes_to_dict : CodeChanges → Value
code_changes_to_dict x = obj (to_fields (code_changes_entries x))

-- `CompactionTokensUsed`
pub record CompactionTokensUsed : Type 0 where
  pub cached_input : String
  pub input : String
  pub output : String

-- What `CompactionTokensUsed.from_dict` reads
abbrev pub read_compaction_tokens_used : Library → (String → Value) → Result CompactionTokensUsed
read_compaction_tokens_used lib get = do
  cached_input ← from_float lib.numbers (get "cachedInput")
  input ← from_float lib.numbers (get "input")
  output ← from_float lib.numbers (get "output")
  ok (record { cached_input = cached_input; input = input; output = output })

-- `CompactionTokensUsed.from_dict`
unfoldable pub compaction_tokens_used_from_dict : Library → Value → Result CompactionTokensUsed
compaction_tokens_used_from_dict lib v = of_class (read_compaction_tokens_used lib) v

abbrev compaction_tokens_used_entries : CompactionTokensUsed → List Entry
compaction_tokens_used_entries x =
    always "cachedInput" (float x.cached_input)
    ∷ always "input" (float x.input)
    ∷ always "output" (float x.output)
    ∷ []

-- `CompactionTokensUsed.to_dict`
unfoldable pub compaction_tokens_used_to_dict : CompactionTokensUsed → Value
compaction_tokens_used_to_dict x = obj (to_fields (compaction_tokens_used_entries x))

-- `ContextClass`
pub record ContextClass : Type 0 where
  pub cwd : String
  pub branch : Option String
  pub git_root : Option String
  pub repository : Option String

-- What `ContextClass.from_dict` reads
abbrev pub read_context_class : (String → Value) → Result ContextClass
read_context_class get = do
  cwd ← from_str (get "cwd")
  branch ← optional from_str (get "branch")
  git_root ← optional from_str (get "gitRoot")
  repository ← optional from_str (get "repository")
  ok (record { cwd = cwd; branch = branch; git_root = git_root; repository = repository })

-- `ContextClass.from_dict`
unfoldable pub context_class_from_dict : Value → Result ContextClass
context_class_from_dict v = of_class (read_context_class) v

abbrev context_class_entries : ContextClass → List Entry
context_class_entries x =
    always "cwd" (str x.cwd)
    ∷ given "branch" (write_optional str x.branch)
    ∷ given "gitRoot" (write_optional str x.git_root)
    ∷ given "repository" (write_optional str x.repository)
    ∷ []

-- `ContextClass.to_dict`
unfoldable pub context_class_to_dict : ContextClass → Value
context_class_to_dict x = obj (to_fields (context_class_entries x))

-- `ErrorClass`
pub record ErrorClass : Type 0 where
  pub message : String
  pub code : Option String
  pub stack : Option String

-- What `ErrorClass.from_dict` reads
abbrev pub read_error_class : (String → Value) → Result ErrorClass
read_error_class get = do
  message ← from_str (get "message")
  code ← optional from_str (get "code")
  stack ← optional from_str (get "stack")
  ok (record { message = message; code = code; stack = stack })

-- `ErrorClass.from_dict`
unfoldable pub error_class_from_dict : Value → Result ErrorClass
error_class_from_dict v = of_class (read_error_class) v

abbrev error_class_entries : ErrorClass → List Entry
error_class_entries x =
    always "message" (str x.message)
    ∷ given "code" (write_optional str x.code)
    ∷ given "stack" (write_optional str x.stack)
    ∷ []

-- `ErrorClass.to_dict`
unfoldable pub error_class_to_dict : ErrorClass → Value
error_class_to_dict x = obj (to_fields (error_class_entries x))

-- `Metadata`
pub record Metadata : Type 0 where
  pub prompt_version : Option String
  pub variables : Option (Dict Value)

-- What `Metadata.from_dict` reads
abbrev pub read_metadata : (String → Value) → Result Metadata
read_metadata get = do
  prompt_version ← optional from_str (get "promptVersion")
  variables ← optional (from_dict ok) (get "variables")
  ok (record { prompt_version = prompt_version; variables = variables })

-- `Metadata.from_dict`
unfoldable pub metadata_from_dict : Value → Result Metadata
metadata_from_dict v = of_class (read_metadata) v

abbrev metadata_entries : Metadata → List Entry
metadata_entries x =
    given "promptVersion" (write_optional str x.prompt_version)
    ∷ given "variables" (write_optional (write_dict (λ v. v)) x.variables)
    ∷ []

-- `Metadata.to_dict`
unfoldable pub metadata_to_dict : Metadata → Value
metadata_to_dict x = obj (to_fields (metadata_entries x))
