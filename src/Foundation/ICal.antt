-- ===== src/Foundation/ICal.antt =====
-- components/foundation/util/ical_generator.cpp: iCalendar documents (RFC 5545).
--
-- The calendar of the `date` library (days since 1970 to year, month and day) is a parameter, and so
-- are the clock readings. `counter` is the static counter of `SyntheticUid`.
pub mod Escaping
pub mod Folding
pub mod Octets
pub mod Document
pub mod Recurrence
mod Tests
use server_components.Common.Int.{ℤ, pos, negsuc, leb_ℤ}
use server_components.Common.{
  ℕ, zero, suc, ◌+◌, ◌-◌, ◌*◌, ◌/◌, ◌%◌, Bool, true, false, ◌&&◌, not, Option, none, some, List, [],
  ◌∷◌, ◌++◌, if◌then◌else◌, leb, ltb, ◌==◌, min, length, take, drop, get_elem?, Bytes, bytes,
  is_empty,
}
use server_components.Foundation.Text.{find_bytes}
use server_components.Foundation.Numbers.{string_from_int}

abbrev pub CivilDate : Type 0
CivilDate = ℤ × ℕ × ℕ

abbrev pub micros_per_day : ℕ
micros_per_day = 86400000000

-- `date::floor<date::days>`, and the microseconds behind that midnight.
unfoldable pub floor_days : ℤ → ℤ
floor_days (pos us) = pos (us / micros_per_day)
floor_days (negsuc us) = negsuc (us / micros_per_day)

unfoldable pub micros_of_day : ℤ → ℕ
micros_of_day (pos us) = us % micros_per_day
micros_of_day (negsuc us) = micros_per_day - 1 - us % micros_per_day

-- `std::setfill('0') << std::setw(width)`: fill characters stand in front of the text.
unfoldable pub pad_left : ℕ → Bytes → Bytes
pad_left zero s = s
pad_left (suc width) s = if leb (suc width) (length s) then s else b'0' ∷ pad_left width s

unfoldable pub two_digits : ℕ → Bytes
unfolding pad_left
two_digits n = pad_left 2 (string_from_int (pos n))

module _ (year_month_day : ℤ → CivilDate) where
  -- "YYYYMMDDTHHMMSSZ"
  unfoldable pub format_utc_date_time : ℤ → Bytes
  format_utc_date_time us =
      let (year, month, day) = year_month_day (floor_days us) in
      let seconds = micros_of_day us / 1000000 in
      pad_left 4 (string_from_int year)
      ++ (two_digits month
          ++ (two_digits day
              ++ (bytes "T"
                  ++ (two_digits (seconds / 3600)
                      ++ (two_digits (seconds / 60 % 60)
                          ++ (two_digits (seconds % 60) ++ bytes "Z"))))))

-- `if (!utc.empty() && utc.back() == 'Z') utc.pop_back();`
unfoldable pub pop_z : Bytes → Bytes
pop_z [] = []
pop_z (c ∷ []) = if c == b'Z' then [] else c ∷ []
pop_z (c ∷ d ∷ s) = c ∷ pop_z (d ∷ s)

unfoldable pub escape_byte : ℕ → Bytes
escape_byte c =
    if c == 92
    then 92 ∷ 92 ∷ []
    else if c == b','
    then 92 ∷ b',' ∷ []
    else if c == b';'
    then 92 ∷ b';' ∷ []
    else if c == 10
    then 92 ∷ b'n' ∷ []
    else if c == 13
    then []
    else c ∷ []

unfoldable pub escape_ical_text : Bytes → Bytes
escape_ical_text [] = []
escape_ical_text (c ∷ text) = escape_byte c ++ escape_ical_text text

-- `(c & 0xC0) == 0x80` for a byte.
unfoldable pub is_continuation : ℕ → Bool
is_continuation c = c / 64 * 64 == 128

-- `line[pos + i]`, which the loop reads inside the line only.
abbrev pub byte_at : Bytes → ℕ → ℕ
byte_at s i = elim (get_elem? s i) [ some c ↦ c | none ↦ 0 ]

-- `while (take > 0 && line[pos + take] is a continuation byte) --take;`
unfoldable pub back_off : Bytes → ℕ → ℕ
back_off rest zero = zero
back_off rest (suc t) =
    let less = back_off rest t in if is_continuation (byte_at rest (suc t)) then less else suc t

abbrev pub max_octets : ℕ
max_octets = 75

abbrev pub budget : Bool → ℕ
budget first_segment = if first_segment then max_octets else max_octets - 1

-- How many bytes the next segment takes of what remains.
unfoldable pub segment_size : Bool → Bytes → ℕ
segment_size first_segment rest =
    let n = min (budget first_segment) (length rest) in
    if ltb n (length rest) then (if back_off rest n == 0 then n else back_off rest n) else n

-- The loop of `FoldLine` over what remains of the line, on fuel: each round takes at least one byte.
unfoldable pub fold_from : ℕ → Bool → Bytes → Bytes
fold_from zero first_segment rest = []
fold_from (suc fuel) first_segment [] = []
fold_from (suc fuel) first_segment (c ∷ s) =
    let n = segment_size first_segment (c ∷ s) in
    (if first_segment then [] else 13 ∷ 10 ∷ b' ' ∷ [])
    ++ (take n (c ∷ s) ++ fold_from fuel false (drop n (c ∷ s)))

unfoldable pub fold_line : Bytes → Bytes
fold_line line = if leb (length line) max_octets then line else fold_from (length line) true line

abbrev pub crlf : Bytes
crlf = 13 ∷ 10 ∷ []

-- The loop at the end of `GenerateImpl`: each line up to a CR LF is folded, and so is what follows the
-- last one. On fuel: each round passes at least two bytes.
unfoldable pub fold_all : ℕ → Bytes → Bytes
fold_all zero raw = []
fold_all (suc fuel) [] = []
fold_all (suc fuel) (c ∷ raw) = elim (find_bytes crlf (c ∷ raw)) [
  | none ↦ fold_line (c ∷ raw) ++ crlf
  | some eol ↦ fold_line (take eol (c ∷ raw)) ++ (crlf ++ fold_all fuel (drop (eol + 2) (c ∷ raw)))
]

pub record ICalEvent : Type 0 where
  pub title : Bytes
  pub start_time_us : ℤ
  pub end_time_us : ℤ
  pub timezone : Bytes
  pub location : Bytes
  pub description : Bytes
  pub uid : Bytes
  pub status : Bytes
  pub rrule : Bytes
  pub organizer_email : Bytes
  pub organizer_name : Bytes
  pub attendee_email : Bytes
  pub attendee_name : Bytes
  pub sequence : Bytes
  pub floating_local : Bool

pub record ICalConfig : Type 0 where
  pub prod_id : Bytes
  pub uid_domain : Bytes
  pub calendar_name : Bytes
  pub refresh_interval : Bytes

-- The clock as two calls of an event read it: for a synthetic identifier, and for the time stamp.
pub record Readings : Type 0 where
  pub uid_us : ℤ
  pub stamp_us : ℤ

unfoldable pub synthetic_uid : ℤ → ℕ → Bytes → Bytes
synthetic_uid now_us counter uid_domain =
    bytes "synthetic-"
    ++ (string_from_int now_us
        ++ (bytes "-" ++ (string_from_int (pos counter) ++ (bytes "@" ++ uid_domain))))

-- The identifier, and the counter afterwards.
unfoldable pub resolve_uid : ℤ → ℕ → Bytes → Bytes → Bytes × ℕ
resolve_uid now_us counter uid uid_domain =
    if not (is_empty uid)
    then (uid, counter)
    else (synthetic_uid now_us counter uid_domain, suc counter)

-- `oss << text << "\r\n"`
abbrev pub put_line : Bytes → Bytes
put_line text = text ++ crlf

-- A line that is left out when the field is empty.
abbrev pub put_optional : Bytes → Bytes → Bytes
put_optional field text = if is_empty field then [] else put_line text

module _ (year_month_day : ℤ → CivilDate) where
  abbrev pub event_time : Bool → ℤ → Bytes
  event_time floating us =
      if floating
      then pop_z (format_utc_date_time year_month_day us)
      else format_utc_date_time year_month_day us

  unfoldable pub emit_vevent : ICalEvent → Readings → ℕ → Bytes → Bytes × ℕ
  emit_vevent event clock counter uid_domain =
      let (uid, counter') = resolve_uid clock.uid_us counter event.uid uid_domain in
      (
        put_line (bytes "BEGIN:VEVENT")
            ++ (put_line (bytes "UID:" ++ uid)
                ++ (put_line
                      (bytes "DTSTAMP:" ++ format_utc_date_time year_month_day clock.stamp_us)
                    ++ (put_line (
                          bytes "SEQUENCE:"
                          ++ (if is_empty event.sequence then bytes "0" else event.sequence))
                        ++ (put_optional event.status (bytes "STATUS:" ++ event.status)
                            ++ (put_line (
                                  bytes "DTSTART:"
                                  ++ event_time event.floating_local event.start_time_us)
                                ++ (put_line (
                                      bytes "DTEND:"
                                      ++ event_time event.floating_local event.end_time_us)
                                    ++ (put_line (bytes "SUMMARY:" ++ escape_ical_text event.title)
                                        ++ (put_optional event.location
                                              (bytes "LOCATION:" ++ escape_ical_text event.location)
                                            ++ (put_optional event.description (
                                                  bytes "DESCRIPTION:"
                                                  ++ escape_ical_text event.description)
                                                ++ (put_optional event.rrule
                                                      (bytes "RRULE:" ++ event.rrule)
                                                    ++ (put_optional event.organizer_email (
                                                          bytes "ORGANIZER;CN="
                                                          ++ (escape_ical_text event.organizer_name
                                                            ++ (bytes ":mailto:"
                                                            ++ event.organizer_email)))
                                                        ++ (put_optional event.attendee_email (
                                                            bytes "ATTENDEE;CN="
                                                            ++ (escape_ical_text event.attendee_name
                                                            ++ (bytes ";RSVP=FALSE:mailto:"
                                                            ++ event.attendee_email)))
                                                            ++ put_line
                                                            (bytes "END:VEVENT"))))))))))))),
        counter',
      )

  unfoldable pub emit_events : List (ICalEvent × Readings) → ℕ → Bytes → Bytes × ℕ
  emit_events [] counter uid_domain = ([], counter)
  emit_events ((event, clock) ∷ events) counter uid_domain =
      let (text, counter') = emit_vevent event clock counter uid_domain in
      let (more, counter'') = emit_events events counter' uid_domain in (text ++ more, counter'')

  unfoldable pub raw_document : List (ICalEvent × Readings) → ℕ → ICalConfig → Bytes × ℕ
  raw_document events counter config =
      let (body, counter') = emit_events events counter config.uid_domain in
      (
        put_line (bytes "BEGIN:VCALENDAR")
            ++ (put_line (bytes "VERSION:2.0")
                ++ (put_line (bytes "PRODID:" ++ config.prod_id)
                    ++ (put_line (bytes "CALSCALE:GREGORIAN")
                        ++ (put_line (bytes "METHOD:PUBLISH")
                            ++ (put_optional config.calendar_name
                                  (bytes "X-WR-CALNAME:" ++ escape_ical_text config.calendar_name)
                                ++ (put_optional config.refresh_interval (
                                      bytes "REFRESH-INTERVAL;VALUE=DURATION:"
                                      ++ config.refresh_interval)
                                    ++ (put_optional config.refresh_interval
                                          (bytes "X-PUBLISHED-TTL:" ++ config.refresh_interval)
                                        ++ (body ++ put_line (bytes "END:VCALENDAR"))))))))),
        counter',
      )

  -- `GenerateICalendar`, with the counter afterwards.
  unfoldable pub generate_icalendar : List (ICalEvent × Readings) → ℕ → ICalConfig → Bytes × ℕ
  generate_icalendar events counter config =
      let (raw, counter') = raw_document events counter config in
      (fold_all (suc (length raw)) raw, counter')

-- "MO,TU,…" from day numbers; those that are no weekday are passed over.
unfoldable pub day_name : ℕ → Option Bytes
day_name d =
    get_elem?
      (bytes "SU"
        ∷ bytes "MO"
        ∷ bytes "TU"
        ∷ bytes "WE"
        ∷ bytes "TH"
        ∷ bytes "FR"
        ∷ bytes "SA"
        ∷ [])
      d

unfoldable pub join_by_day_from : Bytes → List ℤ → Bytes
join_by_day_from out [] = out
join_by_day_from out (negsuc d ∷ days) = join_by_day_from out days
join_by_day_from out (pos d ∷ days) =
    join_by_day_from
      (elim (day_name d) [
        | none ↦ out
        | some name ↦ (if not (is_empty out) then out ++ bytes "," else out) ++ name
      ])
      days

module _ (year_month_day : ℤ → CivilDate) where
  unfoldable pub until_clause : ℤ → Bytes
  until_clause until_us =
      if leb_ℤ until_us (pos 0)
      then []
      else bytes ";UNTIL=" ++ format_utc_date_time year_month_day until_us

  unfoldable pub build_weekly_rrule : List ℤ → ℤ → Bytes
  build_weekly_rrule days until_us =
      bytes "FREQ=WEEKLY;BYDAY=" ++ (join_by_day_from [] days ++ until_clause until_us)

  unfoldable pub build_biweekly_rrule : List ℤ → ℤ → Bytes
  build_biweekly_rrule days until_us =
      bytes "FREQ=WEEKLY;INTERVAL=2;BYDAY=" ++ (join_by_day_from [] days ++ until_clause until_us)

  unfoldable pub build_custom_rrule : ℤ → ℤ → Bytes
  build_custom_rrule interval_days until_us =
      bytes "FREQ=DAILY;INTERVAL=" ++ (string_from_int interval_days ++ until_clause until_us)

unfoldable pub build_booking_uid : ℤ → Bytes → Bytes
build_booking_uid booking_id uid_domain =
    bytes "booking-" ++ (string_from_int booking_id ++ (bytes "@" ++ uid_domain))

unfoldable pub build_session_uid : ℤ → Bytes → Bytes
build_session_uid session_id uid_domain =
    bytes "session-" ++ (string_from_int session_id ++ (bytes "@" ++ uid_domain))

unfoldable pub build_template_uid : ℤ → ℤ → Bytes → Bytes
build_template_uid schedule_id person_id uid_domain =
    bytes "schedule-"
    ++ (string_from_int schedule_id
        ++ (bytes "-person-" ++ (string_from_int person_id ++ (bytes "@" ++ uid_domain))))

unfoldable pub build_template_occurrence_uid : ℤ → ℤ → ℤ → Bytes → Bytes
build_template_occurrence_uid slot_id person_id occurrence_date_us uid_domain =
    bytes "slot-"
    ++ (string_from_int slot_id
        ++ (bytes "-person-"
            ++ (string_from_int person_id
                ++ (bytes "-occ-"
                    ++ (string_from_int occurrence_date_us ++ (bytes "@" ++ uid_domain))))))
