-- ===== src/Types/Sessions/RoundTrip.antt =====
-- What the metadata of a session are written as is read back.
use copilot_sdk.Prelude.{◌≡◌, refl, ◌∙◌, true, ok}
use copilot_sdk.Value.{truthy}
use copilot_sdk.Wire.{of_class-to_fields, to_fields}
use copilot_sdk.Types.{Conversions, required, to_str, if_truthy-write_part}
use copilot_sdk.Types.Sessions.{
  SessionContext, read_context, session_context_from_dict, context_entries, session_context_to_dict,
  SessionMetadata, read_metadata, session_metadata_from_dict, metadata_entries,
  session_metadata_to_dict,
}

context-round_trip :
    (c : Conversions) (x : SessionContext)
    → session_context_from_dict c (session_context_to_dict x) ≡ ok x
unfolding session_context_from_dict session_context_to_dict required to_str
context-round_trip c x = of_class-to_fields (read_context c) (context_entries x) refl

context-truthy : (x : SessionContext) → truthy (session_context_to_dict x) ≡ true
unfolding session_context_to_dict truthy to_fields
context-truthy x = refl

-- The metadata of a session, with their context, are read back from the dict that they write.
pub session_metadata-round_trip :
    (c : Conversions) (x : SessionMetadata)
    → session_metadata_from_dict c (session_metadata_to_dict x) ≡ ok x
unfolding session_metadata_from_dict session_metadata_to_dict required to_str truthy
session_metadata-round_trip c x =
    of_class-to_fields (read_metadata c) (metadata_entries x) refl
    ∙ simp (
        if_truthy-write_part (session_context_from_dict c) session_context_to_dict
          (context-round_trip c) x.context (λ a _. context-truthy a))
