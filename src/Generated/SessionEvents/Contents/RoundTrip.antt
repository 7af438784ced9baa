-- ===== src/Generated/SessionEvents/Contents/RoundTrip.antt =====
-- What the classes of the parent write, they read back.
use copilot_sdk.Prelude.{refl, ◌∙◌}
use copilot_sdk.Value.{str}
use copilot_sdk.Wire.{of_class-to_fields}
use copilot_sdk.Wire.Convert.{
  from_str, from_list, write_list, ReadsBack, RefusesNone, reads_back, of_class-RefusesNone,
  optional-ReadsBack, from_list-ReadsBack, from_str-ReadsBack, from_list-RefusesNone,
}
use copilot_sdk.Generated.SessionEvents.{Library}
use copilot_sdk.Generated.SessionEvents.Contents.{
  audio, content_entries, content_from_dict, content_to_dict, content_type_of, content_type_to_enum,
  content_type_value, dark, icon_entries, icon_from_dict, icon_to_dict, image, light, read_content,
  read_icon, read_resource, resource, resource_entries, resource_from_dict, resource_link,
  resource_to_dict, terminal, text, theme_of, theme_to_enum, theme_value,
}

pub theme_of-ReadsBack : ReadsBack theme_of theme_to_enum
unfolding theme_of theme_to_enum theme_value
theme_of-ReadsBack dark = refl
theme_of-ReadsBack light = refl

pub theme_of-RefusesNone : RefusesNone theme_of
unfolding theme_of
theme_of-RefusesNone = (_, refl)

pub icon_from_dict-ReadsBack : ReadsBack icon_from_dict icon_to_dict
unfolding icon_from_dict icon_to_dict
icon_from_dict-ReadsBack x =
    of_class-to_fields (read_icon) (icon_entries x) refl
    ∙ simp (
      reads_back,
      optional-ReadsBack (from_list from_str) (write_list str)
          (from_list-ReadsBack from_str str from_str-ReadsBack) (from_list-RefusesNone from_str),
      optional-ReadsBack theme_of theme_to_enum theme_of-ReadsBack theme_of-RefusesNone,
    )

pub resource_from_dict-ReadsBack : ReadsBack resource_from_dict resource_to_dict
unfolding resource_from_dict resource_to_dict
resource_from_dict-ReadsBack x =
    of_class-to_fields (read_resource) (resource_entries x) refl ∙ simp (reads_back)

pub resource_from_dict-RefusesNone : RefusesNone resource_from_dict
unfolding resource_from_dict
resource_from_dict-RefusesNone = of_class-RefusesNone (read_resource)

pub content_type_of-ReadsBack : ReadsBack content_type_of content_type_to_enum
unfolding content_type_of content_type_to_enum content_type_value
content_type_of-ReadsBack audio = refl
content_type_of-ReadsBack image = refl
content_type_of-ReadsBack resource = refl
content_type_of-ReadsBack resource_link = refl
content_type_of-ReadsBack terminal = refl
content_type_of-ReadsBack text = refl

pub content_from_dict-ReadsBack :
    (lib : Library) → ReadsBack (content_from_dict lib) content_to_dict
unfolding content_from_dict content_to_dict
content_from_dict-ReadsBack lib x =
    of_class-to_fields (read_content lib) (content_entries x) refl
    ∙ simp (
      reads_back,
      content_type_of-ReadsBack,
      optional-ReadsBack (from_list icon_from_dict) (write_list icon_to_dict)
          (from_list-ReadsBack icon_from_dict icon_to_dict icon_from_dict-ReadsBack)
          (from_list-RefusesNone icon_from_dict),
      optional-ReadsBack resource_from_dict resource_to_dict resource_from_dict-ReadsBack
          resource_from_dict-RefusesNone,
    )
