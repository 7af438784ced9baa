-- ===== src/Generated/SessionEvents/Contents.antt =====
-- Contents of results: the classes `Theme` to `Content` of python/copilot/generated/session_events.py.
pub mod RoundTrip
use copilot_sdk.Prelude.{
  String, Option, List, [], ◌∷◌, Result, ok, raise, value_error, str_eq, if◌then◌else◌, ◌>>=◌,
}
use copilot_sdk.Value.{Value, str, float, obj}
use copilot_sdk.Wire.{Entry, always, given, to_fields, of_class}
use copilot_sdk.Wire.Convert.{from_str, from_float, from_list, optional, write_optional, write_list}
use copilot_sdk.Generated.SessionEvents.{Library}

-- `Theme`
pub data Theme : Type 0 where
  dark : Theme
  light : Theme

-- The value of a member
unfoldable pub theme_value : Theme → String
theme_value dark = "dark"
theme_value light = "light"

-- `Theme(x)`
unfoldable pub theme_of : Value → Result Theme
theme_of (str s) =
    if str_eq s "dark" then ok dark else if str_eq s "light" then ok light else raise value_error ""
theme_of v = raise value_error ""

-- `to_enum`
unfoldable pub theme_to_enum : Theme → Value
unfolding theme_value
theme_to_enum x = str (theme_value x)

-- `Icon`
pub record Icon : Type 0 where
  pub src : String
  pub mime_type : Option String
  pub sizes : Option (List String)
  pub theme : Option Theme

-- What `Icon.from_dict` reads
abbrev pub read_icon : (String → Value) → Result Icon
read_icon get = do
  src ← from_str (get "src")
  mime_type ← optional from_str (get "mimeType")
  sizes ← optional (from_list from_str) (get "sizes")
  theme ← optional theme_of (get "theme")
  ok (record { src = src; mime_type = mime_type; sizes = sizes; theme = theme })

-- `Icon.from_dict`
unfoldable pub icon_from_dict : Value → Result Icon
icon_from_dict v = of_class (read_icon) v

abbrev icon_entries : Icon → List Entry
icon_entries x =
    always "src" (str x.src)
    ∷ given "mimeType" (write_optional str x.mime_type)
    ∷ given "sizes" (write_optional (write_list str) x.sizes)
    ∷ given "theme" (write_optional theme_to_enum x.theme)
    ∷ []

-- `Icon.to_dict`
unfoldable pub icon_to_dict : Icon → Value
icon_to_dict x = obj (to_fields (icon_entries x))

-- `Resource`
pub record Resource : Type 0 where
  pub uri : String
  pub mime_type : Option String
  pub text : Option String
  pub blob : Option String

-- What `Resource.from_dict` reads
abbrev pub read_resource : (String → Value) → Result Resource
read_resource get = do
  uri ← from_str (get "uri")
  mime_type ← optional from_str (get "mimeType")
  text' ← optional from_str (get "text")
  blob ← optional from_str (get "blob")
  ok (record { uri = uri; mime_type = mime_type; text = text'; blob = blob })

-- `Resource.from_dict`
unfoldable pub resource_from_dict : Value → Result Resource
resource_from_dict v = of_class (read_resource) v

abbrev resource_entries : Resource → List Entry
resource_entries x =
    always "uri" (str x.uri)
    ∷ given "mimeType" (write_optional str x.mime_type)
    ∷ given "text" (write_optional str x.text)
    ∷ given "blob" (write_optional str x.blob)
    ∷ []

-- `Resource.to_dict`
unfoldable pub resource_to_dict : Resource → Value
resource_to_dict x = obj (to_fields (resource_entries x))

-- `ContentType`
pub data ContentType : Type 0 where
  audio : ContentType
  image : ContentType
  resource : ContentType
  resource_link : ContentType
  terminal : ContentType
  text : ContentType

-- The value of a member
unfoldable pub content_type_value : ContentType → String
content_type_value audio = "audio"
content_type_value image = "image"
content_type_value resource = "resource"
content_type_value resource_link = "resource_link"
content_type_value terminal = "terminal"
content_type_value text = "text"

-- `ContentType(x)`
unfoldable pub content_type_of : Value → Result ContentType
content_type_of (str s) =
    if str_eq s "audio"
    then ok audio
    else if str_eq s "image"
    then ok image
    else if str_eq s "resource"
    then ok resource
    else if str_eq s "resource_link"
    then ok resource_link
    else if str_eq s "terminal"
    then ok terminal
    else if str_eq s "text"
    then ok text
    else raise value_error ""
content_type_of v = raise value_error ""

-- `to_enum`
unfoldable pub content_type_to_enum : ContentType → Value
unfolding content_type_value
content_type_to_enum x = str (content_type_value x)

-- `Content`
pub record Content : Type 0 where
  pub type : ContentType
  pub text : Option String
  pub cwd : Option String
  pub exit_code : Option String
  pub data' : Option String
  pub mime_type : Option String
  pub description : Option String
  pub icons : Option (List Icon)
  pub name : Option String
  pub size : Option String
  pub title : Option String
  pub uri : Option String
  pub resource : Option Resource

-- What `Content.from_dict` reads
abbrev pub read_content : Library → (String → Value) → Result Content
read_content lib get = do
  type ← content_type_of (get "type")
  text' ← optional from_str (get "text")
  cwd ← optional from_str (get "cwd")
  exit_code ← optional (from_float lib.numbers) (get "exitCode")
  data' ← optional from_str (get "data")
  mime_type ← optional from_str (get "mimeType")
  description ← optional from_str (get "description")
  icons ← optional (from_list icon_from_dict) (get "icons")
  name ← optional from_str (get "name")
  size ← optional (from_float lib.numbers) (get "size")
  title ← optional from_str (get "title")
  uri ← optional from_str (get "uri")
  resource' ← optional resource_from_dict (get "resource")
  ok (record {
    type = type;
    text = text';
    cwd = cwd;
    exit_code = exit_code;
    data' = data';
    mime_type = mime_type;
    description = description;
    icons = icons;
    name = name;
    size = size;
    title = title;
    uri = uri;
    resource = resource';
  })

-- `Content.from_dict`
unfoldable pub content_from_dict : Library → Value → Result Content
content_from_dict lib v = of_class (read_content lib) v

abbrev content_entries : Content → List Entry
content_entries x =
    always "type" (content_type_to_enum x.type)
    ∷ given "text" (write_optional str x.text)
    ∷ given "cwd" (write_optional str x.cwd)
    ∷ given "exitCode" (write_optional float x.exit_code)
    ∷ given "data" (write_optional str x.data')
    ∷ given "mimeType" (write_optional str x.mime_type)
    ∷ given "description" (write_optional str x.description)
    ∷ given "icons" (write_optional (write_list icon_to_dict) x.icons)
    ∷ given "name" (write_optional str x.name)
    ∷ given "size" (write_optional float x.size)
    ∷ given "title" (write_optional str x.title)
    ∷ given "uri" (write_optional str x.uri)
    ∷ given "resource" (write_optional resource_to_dict x.resource)
    ∷ []

-- `Content.to_dict`
unfoldable pub content_to_dict : Content → Value
content_to_dict x = obj (to_fields (content_entries x))
