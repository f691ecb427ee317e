-- ===== src/Foundation/ICal/Tests.antt =====
-- The calendar generator at small inputs, and the theorems at them.
use server_components.Common.Int.{ℤ, pos}
use server_components.Common.{
  ℕ, zero, suc, ◌≡◌, refl, true, List, [], ◌∷◌, ◌++◌, arith, All, Bytes, bytes,
}
use server_components.Foundation.Numbers.{digits_from, string_from_int}
use server_components.Foundation.ICal.{
  CivilDate, pad_left, two_digits, format_utc_date_time, floor_days, micros_of_day, is_continuation,
  fold_line, ICalEvent, ICalConfig, Readings, raw_document, generate_icalendar, day_name,
}
use server_components.Foundation.ICal.Folding.{FitsLine, unfold_lines, lines_of, fold_line_lem}
use server_components.Foundation.ICal.Octets.{
  StartsCharacter, join_segments, concat_segments, fold_line-StartsCharacter,
}
use server_components.Foundation.ICal.Recurrence.{weekdays, comma_separated}
use server_components.Foundation.ICal.Document.Contents.{generate_icalendar_lem}

-- A calendar that knows one day.
abbrev one_day : ℤ → CivilDate
one_day d = (pos 2024, 2, 9)

time_stamp : format_utc_date_time one_day (pos 1707440523000000) ≡ bytes "20240209T010203Z"
unfolding format_utc_date_time two_digits pad_left string_from_int digits_from floor_days
    micros_of_day
time_stamp = refl

abbrev long_line : Bytes
long_line =
    bytes "DESCRIPTION:"
    ++ (bytes "0123456789012345678901234567890123456789"
        ++ bytes "0123456789012345678901234567890123456789")

fold_line_lem_example :
    (unfold_lines (fold_line long_line) ≡ long_line) × All FitsLine (lines_of (fold_line long_line))
fold_line_lem_example = fold_line_lem long_line (ground arith)

-- Characters of two bytes, the first at an odd distance from the budget.
abbrev accents : ℕ → Bytes
accents zero = b'.' ∷ []
accents (suc n) = 195 ∷ 169 ∷ accents n

fold_line-StartsCharacter_example :
    (segments : List Bytes) × (fold_line (accents 38) ≡ join_segments true segments)
    × (concat_segments segments ≡ accents 38)
    × All StartsCharacter segments
unfolding is_continuation
fold_line-StartsCharacter_example =
    fold_line-StartsCharacter (accents 38) (omega arith) refl (ground arith)

repeated_day : comma_separated (weekdays (pos 1 ∷ pos 9 ∷ pos 1 ∷ [])) ≡ bytes "MO,MO"
unfolding comma_separated weekdays day_name
repeated_day = refl

abbrev yoga : ICalEvent
yoga = record {
  title = bytes "Yoga; with a break";
  start_time_us = pos 1707440523000000;
  end_time_us = pos 1707444123000000;
  timezone = bytes "Pacific/Honolulu";
  location = [];
  description = 13 ∷ [];
  uid = bytes "booking-7@example.org";
  status = bytes "CONFIRMED";
  rrule = [];
  organizer_email = [];
  organizer_name = [];
  attendee_email = [];
  attendee_name = [];
  sequence = [];
  floating_local = true;
}

abbrev config : ICalConfig
config = record {
  prod_id = bytes "-//x//y//EN";
  uid_domain = bytes "example.org";
  calendar_name = [];
  refresh_interval = bytes "PT1H";
}

abbrev clock : Readings
clock = record { uid_us = pos 1; stamp_us = pos 2 }

generate_icalendar_lem_example :
    (unfold_lines (generate_icalendar one_day ((yoga, clock) ∷ []) 0 config).0
      ≡ (raw_document one_day ((yoga, clock) ∷ []) 0 config).0)
    × All FitsLine (lines_of (generate_icalendar one_day ((yoga, clock) ∷ []) 0 config).0)
generate_icalendar_lem_example =
    generate_icalendar_lem one_day ((yoga, clock) ∷ []) 0 config (ground arith) (ground arith)
