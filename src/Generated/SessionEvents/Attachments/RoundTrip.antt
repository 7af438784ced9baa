-- ===== src/Generated/SessionEvents/Attachments/RoundTrip.antt =====
-- What the classes of the parent write, they read back.
use copilot_sdk.Prelude.{refl, ◌∙◌}
use copilot_sdk.Wire.{of_class-to_fields}
use copilot_sdk.Wire.Convert.{
  ReadsBack, RefusesNone, reads_back, of_class-RefusesNone, optional-ReadsBack,
}
use copilot_sdk.Generated.SessionEvents.{Library}
use copilot_sdk.Generated.SessionEvents.Attachments.{
  agent_mode_of, agent_mode_to_enum, agent_mode_value, attachment_entries, attachment_from_dict,
  attachment_to_dict, attachment_type_of, attachment_type_to_enum, attachment_type_value, autopilot,
  directory, end_entries, end_from_dict, end_to_dict, file, interactive, line_range_entries,
  line_range_from_dict, line_range_to_dict, plan, read_attachment, read_end, read_line_range,
  read_selection, read_start, selection, selection_entries, selection_from_dict, selection_to_dict,
  shell, start_entries, start_from_dict, start_to_dict,
}

pub agent_mode_of-ReadsBack : ReadsBack agent_mode_of agent_mode_to_enum
unfolding agent_mode_of agent_mode_to_enum agent_mode_value
agent_mode_of-ReadsBack autopilot = refl
agent_mode_of-ReadsBack interactive = refl
agent_mode_of-ReadsBack plan = refl
agent_mode_of-ReadsBack shell = refl

pub agent_mode_of-RefusesNone : RefusesNone agent_mode_of
unfolding agent_mode_of
agent_mode_of-RefusesNone = (_, refl)

pub line_range_from_dict-ReadsBack :
    (lib : Library) → ReadsBack (line_range_from_dict lib) line_range_to_dict
unfolding line_range_from_dict line_range_to_dict
line_range_from_dict-ReadsBack lib x =
    of_class-to_fields (read_line_range lib) (line_range_entries x) refl ∙ simp (reads_back)

pub line_range_from_dict-RefusesNone : (lib : Library) → RefusesNone (line_range_from_dict lib)
unfolding line_range_from_dict
line_range_from_dict-RefusesNone lib = of_class-RefusesNone (read_line_range lib)

pub end_from_dict-ReadsBack : (lib : Library) → ReadsBack (end_from_dict lib) end_to_dict
unfolding end_from_dict end_to_dict
end_from_dict-ReadsBack lib x =
    of_class-to_fields (read_end lib) (end_entries x) refl ∙ simp (reads_back)

pub start_from_dict-ReadsBack : (lib : Library) → ReadsBack (start_from_dict lib) start_to_dict
unfolding start_from_dict start_to_dict
start_from_dict-ReadsBack lib x =
    of_class-to_fields (read_start lib) (start_entries x) refl ∙ simp (reads_back)

pub selection_from_dict-ReadsBack :
    (lib : Library) → ReadsBack (selection_from_dict lib) selection_to_dict
unfolding selection_from_dict selection_to_dict
selection_from_dict-ReadsBack lib x =
    of_class-to_fields (read_selection lib) (selection_entries x) refl
    ∙ simp (end_from_dict-ReadsBack lib, start_from_dict-ReadsBack lib)

pub selection_from_dict-RefusesNone : (lib : Library) → RefusesNone (selection_from_dict lib)
unfolding selection_from_dict
selection_from_dict-RefusesNone lib = of_class-RefusesNone (read_selection lib)

pub attachment_type_of-ReadsBack : ReadsBack attachment_type_of attachment_type_to_enum
unfolding attachment_type_of attachment_type_to_enum attachment_type_value
attachment_type_of-ReadsBack directory = refl
attachment_type_of-ReadsBack file = refl
attachment_type_of-ReadsBack selection = refl

pub attachment_from_dict-ReadsBack :
    (lib : Library) → ReadsBack (attachment_from_dict lib) attachment_to_dict
unfolding attachment_from_dict attachment_to_dict
attachment_from_dict-ReadsBack lib x =
    of_class-to_fields (read_attachment lib) (attachment_entries x) refl
    ∙ simp (
      reads_back,
      attachment_type_of-ReadsBack,
      optional-ReadsBack (line_range_from_dict lib) line_range_to_dict
          (line_range_from_dict-ReadsBack lib) (line_range_from_dict-RefusesNone lib),
      optional-ReadsBack (selection_from_dict lib) selection_to_dict
          (selection_from_dict-ReadsBack lib) (selection_from_dict-RefusesNone lib),
    )
