-- ===== src/Generated/SessionEvents.antt =====
-- The events of a session (python/copilot/generated/session_events.py). Dates and UUIDs are Python's.
pub mod Attachments
pub mod Usage
pub mod Quota
pub mod Contents
pub mod Results
pub mod Data
pub mod Events
pub mod Delivered
use copilot_sdk.Prelude.{String, Result}
use copilot_sdk.Value.{Value, str}
use copilot_sdk.Wire.Convert.{Numbers, ReadsBack, RefusesNone}

-- `dateutil.parser.parse` and `datetime.isoformat`, `uuid.UUID` and `str` of it
pub record Library : Type 1 where
  pub numbers : Numbers
  pub Datetime : Type 0
  pub parse_datetime : Value → Result Datetime
  pub isoformat : Datetime → String
  pub Uuid : Type 0
  pub parse_uuid : Value → Result Uuid
  pub str_of_uuid : Uuid → String

abbrev pub write_datetime : (lib : Library) → lib.Datetime → Value
write_datetime lib d = str (lib.isoformat d)

abbrev pub write_uuid : (lib : Library) → lib.Uuid → Value
write_uuid lib u = str (lib.str_of_uuid u)

-- What is relied on: a date and a UUID are parsed from what they print as, and None is refused.
pub record Lawful (lib : Library) : Type 0 where
  pub datetime_back : ReadsBack lib.parse_datetime (write_datetime lib)
  pub datetime_refuses : RefusesNone lib.parse_datetime
  pub uuid_back : ReadsBack lib.parse_uuid (write_uuid lib)
