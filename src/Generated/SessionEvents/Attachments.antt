-- ===== src/Generated/SessionEvents/Attachments.antt =====
-- Attachments: the classes `AgentMode` to `Attachment` of python/copilot/generated/session_events.py.
pub mod RoundTrip
use copilot_sdk.Prelude.{
  String, Option, List, [], ◌∷◌, Result, ok, raise, value_error, str_eq, if◌then◌else◌, ◌>>=◌,
}
use copilot_sdk.Value.{Value, str, float, obj}
use copilot_sdk.Wire.{Entry, always, given, to_fields, of_class}
use copilot_sdk.Wire.Convert.{from_str, from_float, optional, write_optional}
use copilot_sdk.Generated.SessionEvents.{Library}

-- `AgentMode`
pub data AgentMode : Type 0 where
  autopilot : AgentMode
  interactive : AgentMode
  plan : AgentMode
  shell : AgentMode

-- The value of a member
unfoldable pub agent_mode_value : AgentMode → String
agent_mode_value autopilot = "autopilot"
agent_mode_value interactive = "interactive"
agent_mode_value plan = "plan"
agent_mode_value shell = "shell"

-- `AgentMode(x)`
unfoldable pub agent_mode_of : Value → Result AgentMode
agent_mode_of (str s) =
    if str_eq s "autopilot"
    then ok autopilot
    else if str_eq s "interactive"
    then ok interactive
    else if str_eq s "plan"
    then ok plan
    else if str_eq s "shell"
    then ok shell
    else raise value_error ""
agent_mode_of v = raise value_error ""

-- `to_enum`
unfoldable pub agent_mode_to_enum : AgentMode → Value
unfolding agent_mode_value
agent_mode_to_enum x = str (agent_mode_value x)

-- `LineRange`
pub record LineRange : Type 0 where
  pub end : String
  pub start : String

-- What `LineRange.from_dict` reads
abbrev pub read_line_range : Library → (String → Value) → Result LineRange
read_line_range lib get = do
  end' ← from_float lib.numbers (get "end")
  start' ← from_float lib.numbers (get "start")
  ok (record { end = end'; start = start' })

-- `LineRange.from_dict`
unfoldable pub line_range_from_dict : Library → Value → Result LineRange
line_range_from_dict lib v = of_class (read_line_range lib) v

abbrev line_range_entries : LineRange → List Entry
line_range_entries x = always "end" (float x.end) ∷ always "start" (float x.start) ∷ []

-- `LineRange.to_dict`
unfoldable pub line_range_to_dict : LineRange → Value
line_range_to_dict x = obj (to_fields (line_range_entries x))

-- `End`
pub record End : Type 0 where
  pub character : String
  pub line : String

-- What `End.from_dict` reads
abbrev pub read_end : Library → (String → Value) → Result End
read_end lib get = do
  character ← from_float lib.numbers (get "character")
  line ← from_float lib.numbers (get "line")
  ok (record { character = character; line = line })

-- `End.from_dict`
unfoldable pub end_from_dict : Library → Value → Result End
end_from_dict lib v = of_class (read_end lib) v

abbrev end_entries : End → List Entry
end_entries x = always "character" (float x.character) ∷ always "line" (float x.line) ∷ []

-- `End.to_dict`
unfoldable pub end_to_dict : End → Value
end_to_dict x = obj (to_fields (end_entries x))

-- `Start`
pub record Start : Type 0 where
  pub character : String
  pub line : String

-- What `Start.from_dict` reads
abbrev pub read_start : Library → (String → Value) → Result Start
read_start lib get = do
  character ← from_float lib.numbers (get "character")
  line ← from_float lib.numbers (get "line")
  ok (record { character = character; line = line })

-- `Start.from_dict`
unfoldable pub start_from_dict : Library → Value → Result Start
start_from_dict lib v = of_class (read_start lib) v

abbrev start_entries : Start → List Entry
start_entries x = always "character" (float x.character) ∷ always "line" (float x.line) ∷ []

-- `Start.to_dict`
unfoldable pub start_to_dict : Start → Value
start_to_dict x = obj (to_fields (start_entries x))

-- `Selection`
pub record Selection : Type 0 where
  pub end : End
  pub start : Start

-- What `Selection.from_dict` reads
abbrev pub read_selection : Library → (String → Value) → Result Selection
read_selection lib get = do
  end' ← end_from_dict lib (get "end")
  start' ← start_from_dict lib (get "start")
  ok (record { end = end'; start = start' })

-- `Selection.from_dict`
unfoldable pub selection_from_dict : Library → Value → Result Selection
selection_from_dict lib v = of_class (read_selection lib) v

abbrev selection_entries : Selection → List Entry
selection_entries x = always "end" (end_to_dict x.end) ∷ always "start" (start_to_dict x.start) ∷ []

-- `Selection.to_dict`
unfoldable pub selection_to_dict : Selection → Value
selection_to_dict x = obj (to_fields (selection_entries x))

-- `AttachmentType`
pub data AttachmentType : Type 0 where
  directory : AttachmentType
  file : AttachmentType
  selection : AttachmentType

-- The value of a member
unfoldable pub attachment_type_value : AttachmentType → String
attachment_type_value directory = "directory"
attachment_type_value file = "file"
attachment_type_value selection = "selection"

-- `AttachmentType(x)`
unfoldable pub attachment_type_of : Value → Result AttachmentType
attachment_type_of (str s) =
    if str_eq s "directory"
    then ok directory
    else if str_eq s "file"
    then ok file
    else if str_eq s "selection"
    then ok selection
    else raise value_error ""
attachment_type_of v = raise value_error ""

-- `to_enum`
unfoldable pub attachment_type_to_enum : AttachmentType → Value
unfolding attachment_type_value
attachment_type_to_enum x = str (attachment_type_value x)

-- `Attachment`
pub record Attachment : Type 0 where
  pub display_name : String
  pub type : AttachmentType
  pub line_range : Option LineRange
  pub path : Option String
  pub file_path : Option String
  pub selection : Option Selection
  pub text : Option String

-- What `Attachment.from_dict` reads
abbrev pub read_attachment : Library → (String → Value) → Result Attachment
read_attachment lib get = do
  display_name ← from_str (get "displayName")
  type ← attachment_type_of (get "type")
  line_range ← optional (line_range_from_dict lib) (get "lineRange")
  path ← optional from_str (get "path")
  file_path ← optional from_str (get "filePath")
  selection' ← optional (selection_from_dict lib) (get "selection")
  text ← optional from_str (get "text")
  ok (record {
    display_name = display_name;
    type = type;
    line_range = line_range;
    path = path;
    file_path = file_path;
    selection = selection';
    text = text;
  })

-- `Attachment.from_dict`
unfoldable pub attachment_from_dict : Library → Value → Result Attachment
attachment_from_dict lib v = of_class (read_attachment lib) v

abbrev attachment_entries : Attachment → List Entry
attachment_entries x =
    always "displayName" (str x.display_name)
    ∷ always "type" (attachment_type_to_enum x.type)
    ∷ given "lineRange" (write_optional line_range_to_dict x.line_range)
    ∷ given "path" (write_optional str x.path)
    ∷ given "filePath" (write_optional str x.file_path)
    ∷ given "selection" (write_optional selection_to_dict x.selection)
    ∷ given "text" (write_optional str x.text)
    ∷ []

-- `Attachment.to_dict`
unfoldable pub attachment_to_dict : Attachment → Value
attachment_to_dict x = obj (to_fields (attachment_entries x))
