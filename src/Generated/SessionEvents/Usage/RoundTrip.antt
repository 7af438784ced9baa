-- ===== src/Generated/SessionEvents/Usage/RoundTrip.antt =====
-- What the classes of the parent write, they read back.
use copilot_sdk.Prelude.{refl, ok, ◌∙◌}
use copilot_sdk.Value.{str}
use copilot_sdk.Wire.{of_class-to_fields}
use copilot_sdk.Wire.Convert.{
  from_str, from_dict, write_dict, ReadsBack, RefusesNone, RefusesTexts, reads_back,
  of_class-RefusesNone, of_class-RefusesTexts, optional-ReadsBack, from_list-ReadsBack,
  from_dict-ReadsBack, from_str-ReadsBack, ok-ReadsBack, from_dict-RefusesNone,
}
use copilot_sdk.Generated.SessionEvents.{Library}
use copilot_sdk.Generated.SessionEvents.Usage.{
  code_changes_entries, code_changes_from_dict, code_changes_to_dict,
  compaction_tokens_used_entries, compaction_tokens_used_from_dict, compaction_tokens_used_to_dict,
  context_class_entries, context_class_from_dict, context_class_to_dict, error_class_entries,
  error_class_from_dict, error_class_to_dict, metadata_entries, metadata_from_dict,
  metadata_to_dict, read_code_changes, read_compaction_tokens_used, read_context_class,
  read_error_class, read_metadata,
}

pub code_changes_from_dict-ReadsBack :
    (lib : Library) → ReadsBack (code_changes_from_dict lib) code_changes_to_dict
unfolding code_changes_from_dict code_changes_to_dict
code_changes_from_dict-ReadsBack lib x =
    of_class-to_fields (read_code_changes lib) (code_changes_entries x) refl
    ∙ simp (reads_back, from_list-ReadsBack from_str str from_str-ReadsBack)

pub code_changes_from_dict-RefusesNone : (lib : Library) → RefusesNone (code_changes_from_dict lib)
unfolding code_changes_from_dict
code_changes_from_dict-RefusesNone lib = of_class-RefusesNone (read_code_changes lib)

pub compaction_tokens_used_from_dict-ReadsBack :
    (lib : Library)
    → ReadsBack (compaction_tokens_used_from_dict lib) compaction_tokens_used_to_dict
unfolding compaction_tokens_used_from_dict compaction_tokens_used_to_dict
compaction_tokens_used_from_dict-ReadsBack lib x =
    of_class-to_fields (read_compaction_tokens_used lib) (compaction_tokens_used_entries x) refl
    ∙ simp (reads_back)

pub compaction_tokens_used_from_dict-RefusesNone :
    (lib : Library) → RefusesNone (compaction_tokens_used_from_dict lib)
unfolding compaction_tokens_used_from_dict
compaction_tokens_used_from_dict-RefusesNone lib =
    of_class-RefusesNone (read_compaction_tokens_used lib)

pub context_class_from_dict-ReadsBack : ReadsBack context_class_from_dict context_class_to_dict
unfolding context_class_from_dict context_class_to_dict
context_class_from_dict-ReadsBack x =
    of_class-to_fields (read_context_class) (context_class_entries x) refl ∙ simp (reads_back)

pub context_class_from_dict-RefusesNone : RefusesNone context_class_from_dict
unfolding context_class_from_dict
context_class_from_dict-RefusesNone = of_class-RefusesNone (read_context_class)

pub context_class_from_dict-RefusesTexts : RefusesTexts context_class_from_dict
unfolding context_class_from_dict
context_class_from_dict-RefusesTexts = of_class-RefusesTexts (read_context_class)

pub error_class_from_dict-ReadsBack : ReadsBack error_class_from_dict error_class_to_dict
unfolding error_class_from_dict error_class_to_dict
error_class_from_dict-ReadsBack x =
    of_class-to_fields (read_error_class) (error_class_entries x) refl ∙ simp (reads_back)

pub error_class_from_dict-RefusesNone : RefusesNone error_class_from_dict
unfolding error_class_from_dict
error_class_from_dict-RefusesNone = of_class-RefusesNone (read_error_class)

pub error_class_from_dict-RefusesTexts : RefusesTexts error_class_from_dict
unfolding error_class_from_dict
error_class_from_dict-RefusesTexts = of_class-RefusesTexts (read_error_class)

pub metadata_from_dict-ReadsBack : ReadsBack metadata_from_dict metadata_to_dict
unfolding metadata_from_dict metadata_to_dict
metadata_from_dict-ReadsBack x =
    of_class-to_fields (read_metadata) (metadata_entries x) refl
    ∙ simp (
      reads_back,
      optional-ReadsBack (from_dict ok) (write_dict (λ v. v))
          (from_dict-ReadsBack ok (λ v. v) ok-ReadsBack) (from_dict-RefusesNone ok),
    )

pub metadata_from_dict-RefusesNone : RefusesNone metadata_from_dict
unfolding metadata_from_dict
metadata_from_dict-RefusesNone = of_class-RefusesNone (read_metadata)
