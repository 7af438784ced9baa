-- ===== src/Generated/SessionEvents/Quota/RoundTrip.antt =====
-- What the classes of the parent write, they read back.
use copilot_sdk.Prelude.{refl, ◌∙◌}
use copilot_sdk.Wire.{of_class-to_fields}
use copilot_sdk.Wire.Convert.{
  ReadsBack, RefusesNone, RefusesTexts, reads_back, of_class-RefusesNone, of_class-RefusesTexts,
  optional-ReadsBack,
}
use copilot_sdk.Generated.SessionEvents.{Library, Lawful, write_datetime}
use copilot_sdk.Generated.SessionEvents.Quota.{
  create, delete, model_metric_entries, model_metric_from_dict, model_metric_to_dict, operation_of,
  operation_to_enum, operation_value, quota_snapshot_entries, quota_snapshot_from_dict,
  quota_snapshot_to_dict, read_model_metric, read_quota_snapshot, read_repository_class,
  read_requests, read_usage, repository_class_entries, repository_class_from_dict,
  repository_class_to_dict, requests_entries, requests_from_dict, requests_to_dict, update,
  usage_entries, usage_from_dict, usage_to_dict,
}

pub requests_from_dict-ReadsBack :
    (lib : Library) → ReadsBack (requests_from_dict lib) requests_to_dict
unfolding requests_from_dict requests_to_dict
requests_from_dict-ReadsBack lib x =
    of_class-to_fields (read_requests lib) (requests_entries x) refl ∙ simp (reads_back)

pub usage_from_dict-ReadsBack : (lib : Library) → ReadsBack (usage_from_dict lib) usage_to_dict
unfolding usage_from_dict usage_to_dict
usage_from_dict-ReadsBack lib x =
    of_class-to_fields (read_usage lib) (usage_entries x) refl ∙ simp (reads_back)

pub model_metric_from_dict-ReadsBack :
    (lib : Library) → ReadsBack (model_metric_from_dict lib) model_metric_to_dict
unfolding model_metric_from_dict model_metric_to_dict
model_metric_from_dict-ReadsBack lib x =
    of_class-to_fields (read_model_metric lib) (model_metric_entries x) refl
    ∙ simp (requests_from_dict-ReadsBack lib, usage_from_dict-ReadsBack lib)

pub operation_of-ReadsBack : ReadsBack operation_of operation_to_enum
unfolding operation_of operation_to_enum operation_value
operation_of-ReadsBack create = refl
operation_of-ReadsBack delete = refl
operation_of-ReadsBack update = refl

pub operation_of-RefusesNone : RefusesNone operation_of
unfolding operation_of
operation_of-RefusesNone = (_, refl)

pub quota_snapshot_from_dict-ReadsBack :
    (lib : Library)
    → Lawful lib
    → ReadsBack (quota_snapshot_from_dict lib) (quota_snapshot_to_dict lib)
unfolding quota_snapshot_from_dict quota_snapshot_to_dict
quota_snapshot_from_dict-ReadsBack lib laws x =
    of_class-to_fields (read_quota_snapshot lib) (quota_snapshot_entries lib x) refl
    ∙ simp (
      reads_back,
      optional-ReadsBack lib.parse_datetime (write_datetime lib) laws.datetime_back
          laws.datetime_refuses,
    )

pub repository_class_from_dict-ReadsBack :
    ReadsBack repository_class_from_dict repository_class_to_dict
unfolding repository_class_from_dict repository_class_to_dict
repository_class_from_dict-ReadsBack x =
    of_class-to_fields (read_repository_class) (repository_class_entries x) refl ∙ simp (reads_back)

pub repository_class_from_dict-RefusesNone : RefusesNone repository_class_from_dict
unfolding repository_class_from_dict
repository_class_from_dict-RefusesNone = of_class-RefusesNone (read_repository_class)

pub repository_class_from_dict-RefusesTexts : RefusesTexts repository_class_from_dict
unfolding repository_class_from_dict
repository_class_from_dict-RefusesTexts = of_class-RefusesTexts (read_repository_class)
