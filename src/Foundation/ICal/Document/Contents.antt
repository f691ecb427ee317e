-- ===== src/Foundation/ICal/Document/Contents.antt =====
-- What `EmitVEvent` and `GenerateImpl` write before folding is a document of plain lines.
use server_components.Common.Int.{ℤ, pos, negsuc}
use server_components.Common.{
  ℕ, zero, suc, ◌+◌, ◌/◌, ◌%◌, ◌≡◌, ◌≢◌, Bool, true, false, List, [], ◌∷◌, ◌++◌, arith,
  if◌then◌else◌, ltb, All, All-append, All-weaken, Bytes, bytes, is_empty, Without,
}
use server_components.Foundation.Numbers.{digits_from, string_from_int}
use server_components.Foundation.ICal.{
  CivilDate, pad_left, two_digits, format_utc_date_time, floor_days, micros_of_day, pop_z,
  escape_ical_text, ICalEvent, ICalConfig, Readings, synthetic_uid, resolve_uid, put_line,
  put_optional, event_time, emit_vevent, emit_events, raw_document, generate_icalendar,
}
use server_components.Foundation.ICal.Escaping.{escape_ical_text_lem}
use server_components.Foundation.ICal.Folding.{FitsLine, unfold_lines, lines_of}
use server_components.Foundation.ICal.Document.{
  PlainLine, IsDocument, IsDocument-append, IsDocument-nil, IsDocument-line, IsDocument-optional,
  fold_all_lem,
}

abbrev pub NoCr : Bytes → Type 0
NoCr s = Without 13 s

NoCr-append : (s t : Bytes) → NoCr s → NoCr t → NoCr (s ++ t)
NoCr-append s t h k = All-append _ s t h k

digits_from-NoCr : (fuel n : ℕ) → NoCr (digits_from fuel n)
unfolding digits_from
digits_from-NoCr zero n = tt
digits_from-NoCr (suc fuel) n =
    NoCr-append (if ltb n 10 then [] else digits_from fuel (n / 10)) ((b'0' + n % 10) ∷ [])
      (ground (arith, digits_from-NoCr fuel (n / 10))) (omega arith, tt)

string_from_int-NoCr : (v : ℤ) → NoCr (string_from_int v)
unfolding string_from_int
string_from_int-NoCr (pos n) = digits_from-NoCr (suc n) n
string_from_int-NoCr (negsuc n) = (omega arith, digits_from-NoCr (suc (suc n)) (suc n))

pad_left-NoCr : (width : ℕ) (s : Bytes) → NoCr s → NoCr (pad_left width s)
unfolding pad_left
pad_left-NoCr zero s h = h
pad_left-NoCr (suc width) s h = ground (arith, pad_left-NoCr width s h)

two_digits-NoCr : (n : ℕ) → NoCr (two_digits n)
unfolding two_digits
two_digits-NoCr n = pad_left-NoCr 2 (string_from_int (pos n)) (string_from_int-NoCr (pos n))

pop_z-NoCr : (s : Bytes) → NoCr s → NoCr (pop_z s)
unfolding pop_z
pop_z-NoCr [] h = tt
pop_z-NoCr (c ∷ []) h = ground arith
pop_z-NoCr (c ∷ d ∷ s) (n, h) = (n, pop_z-NoCr (d ∷ s) h)

escape_ical_text-NoCr : (text : Bytes) → NoCr (escape_ical_text text)
escape_ical_text-NoCr text =
    All-weaken _ _ (λ c h. h.0) (escape_ical_text text) (escape_ical_text_lem text).1

synthetic_uid-NoCr :
    (now : ℤ) (counter : ℕ) (uid_domain : Bytes)
    → NoCr uid_domain
    → NoCr (synthetic_uid now counter uid_domain)
unfolding synthetic_uid
synthetic_uid-NoCr now counter uid_domain h = NoCr-append (bytes "synthetic-") _ (ground arith) (
    NoCr-append (string_from_int now) _ (string_from_int-NoCr now) (
      NoCr-append (bytes "-") _ (ground arith) (
        NoCr-append (string_from_int (pos counter)) _ (string_from_int-NoCr (pos counter))
          (NoCr-append (bytes "@") _ (ground arith) h))))

resolve_uid-NoCr :
    (now : ℤ) (counter : ℕ) (uid uid_domain : Bytes)
    → NoCr uid
    → NoCr uid_domain
    → NoCr (resolve_uid now counter uid uid_domain).0
unfolding resolve_uid
resolve_uid-NoCr now counter [] uid_domain h k = synthetic_uid-NoCr now counter uid_domain k
resolve_uid-NoCr now counter (c ∷ uid) uid_domain h k = h

-- The fields that the code writes as they are, without escaping, hold no carriage return.
abbrev pub IsCleanEvent : ICalEvent → Type 0
IsCleanEvent event =
    NoCr event.uid
    × NoCr event.status
    × NoCr event.rrule
    × NoCr event.organizer_email
    × NoCr event.attendee_email
    × NoCr event.sequence

abbrev pub IsCleanConfig : ICalConfig → Type 0
IsCleanConfig config = NoCr config.prod_id × NoCr config.uid_domain × NoCr config.refresh_interval

sequence-NoCr : (s : Bytes) → NoCr s → NoCr (if is_empty s then bytes "0" else s)
sequence-NoCr [] h = ground arith
sequence-NoCr (c ∷ s) h = h

-- A name and its value make a plain line when the name does.
IsDocument-property :
    (c : ℕ) (name value : Bytes)
    → c ≢ b' '
    → NoCr (c ∷ name)
    → NoCr value
    → PlainLine ((c ∷ name) ++ value)
IsDocument-property c name value lead h k = (NoCr-append (c ∷ name) value h k, lead)

escaped-PlainLine :
    (c : ℕ) (name value : Bytes)
    → c ≢ b' '
    → NoCr (c ∷ name)
    → PlainLine ((c ∷ name) ++ escape_ical_text value)
escaped-PlainLine c name value lead h =
    IsDocument-property c name (escape_ical_text value) lead h (escape_ical_text-NoCr value)

-- The name of a person and the address behind it.
named-NoCr :
    (name separator address : Bytes)
    → NoCr separator
    → NoCr address
    → NoCr (escape_ical_text name ++ (separator ++ address))
named-NoCr name separator address h k =
    NoCr-append (escape_ical_text name) _ (escape_ical_text-NoCr name)
      (NoCr-append separator address h k)

IsDocument-put : (l t : Bytes) → PlainLine l → IsDocument t → IsDocument (put_line l ++ t)
IsDocument-put l t p d = IsDocument-append (put_line l) t (IsDocument-line l p) d

IsDocument-put_optional :
    (field l t : Bytes) → PlainLine l → IsDocument t → IsDocument (put_optional field l ++ t)
IsDocument-put_optional field l t p d =
    IsDocument-append (put_optional field l) t (IsDocument-optional field l p) d

module _ (year_month_day : ℤ → CivilDate) where
  format_utc_date_time-NoCr : (us : ℤ) → NoCr (format_utc_date_time year_month_day us)
  unfolding format_utc_date_time
  format_utc_date_time-NoCr us =
      let (year, month, day) = year_month_day (floor_days us) in
      let seconds = micros_of_day us / 1000000 in
      NoCr-append (pad_left 4 (string_from_int year)) _
        (pad_left-NoCr 4 (string_from_int year) (string_from_int-NoCr year))
        (NoCr-append (two_digits month) _ (two_digits-NoCr month) (
          NoCr-append (two_digits day) _ (two_digits-NoCr day) (
            NoCr-append (bytes "T") _ (ground arith) (
              NoCr-append (two_digits (seconds / 3600)) _ (two_digits-NoCr (seconds / 3600)) (
                NoCr-append (two_digits (seconds / 60 % 60)) _ (two_digits-NoCr (seconds / 60 % 60))
                  (NoCr-append (two_digits (seconds % 60)) _ (two_digits-NoCr (seconds % 60))
                    (ground arith)))))))

  event_time-NoCr : (floating : Bool) (us : ℤ) → NoCr (event_time year_month_day floating us)
  event_time-NoCr true us =
      pop_z-NoCr (format_utc_date_time year_month_day us) (format_utc_date_time-NoCr us)
  event_time-NoCr false us = format_utc_date_time-NoCr us

  emit_vevent-IsDocument :
      (event : ICalEvent) (clock : Readings) (counter : ℕ) (uid_domain : Bytes)
      → IsCleanEvent event
      → NoCr uid_domain
      → IsDocument (emit_vevent year_month_day event clock counter uid_domain).0
  unfolding emit_vevent
  emit_vevent-IsDocument event clock counter uid_domain
        (uid, status, rrule, organizer, attendee, sequence) domain =
      IsDocument-put (bytes "BEGIN:VEVENT") _ (ground arith) (
        IsDocument-put (bytes "UID:" ++ (resolve_uid clock.uid_us counter event.uid uid_domain).0) _
          (IsDocument-property b'U' (bytes "ID:") _ (omega arith) (ground arith)
            (resolve_uid-NoCr clock.uid_us counter event.uid uid_domain uid domain))
          (IsDocument-put (bytes "DTSTAMP:" ++ format_utc_date_time year_month_day clock.stamp_us) _
            (IsDocument-property b'D' (bytes "TSTAMP:") _ (omega arith) (ground arith)
              (format_utc_date_time-NoCr clock.stamp_us))
            (IsDocument-put
              (bytes "SEQUENCE:" ++ (if is_empty event.sequence then bytes "0" else event.sequence))
              _
              (IsDocument-property b'S' (bytes "EQUENCE:") _ (omega arith) (ground arith)
                (sequence-NoCr event.sequence sequence))
              (IsDocument-put_optional event.status (bytes "STATUS:" ++ event.status) _
                (IsDocument-property b'S' (bytes "TATUS:") _ (omega arith) (ground arith) status)
                (IsDocument-put
                  (bytes "DTSTART:"
                    ++ event_time year_month_day event.floating_local event.start_time_us)
                  _
                  (IsDocument-property b'D' (bytes "TSTART:") _ (omega arith) (ground arith)
                    (event_time-NoCr event.floating_local event.start_time_us))
                  (IsDocument-put
                    (bytes "DTEND:"
                      ++ event_time year_month_day event.floating_local event.end_time_us)
                    _
                    (IsDocument-property b'D' (bytes "TEND:") _ (omega arith) (ground arith)
                      (event_time-NoCr event.floating_local event.end_time_us))
                    (IsDocument-put (bytes "SUMMARY:" ++ escape_ical_text event.title) _
                      (escaped-PlainLine b'S' (bytes "UMMARY:") event.title (omega arith)
                        (ground arith))
                      (IsDocument-put_optional event.location
                        (bytes "LOCATION:" ++ escape_ical_text event.location) _
                        (escaped-PlainLine b'L' (bytes "OCATION:") event.location (omega arith)
                          (ground arith))
                        (IsDocument-put_optional event.description
                          (bytes "DESCRIPTION:" ++ escape_ical_text event.description) _
                          (escaped-PlainLine b'D' (bytes "ESCRIPTION:") event.description
                            (omega arith) (ground arith))
                          (IsDocument-put_optional event.rrule (bytes "RRULE:" ++ event.rrule) _
                            (IsDocument-property b'R' (bytes "RULE:") _ (omega arith) (ground arith)
                              rrule)
                            (IsDocument-put_optional event.organizer_email
                              (bytes "ORGANIZER;CN="
                                ++ (escape_ical_text event.organizer_name
                                    ++ (bytes ":mailto:" ++ event.organizer_email)))
                              _
                              (IsDocument-property b'O' (bytes "RGANIZER;CN=") _ (omega arith)
                                (ground arith)
                                (named-NoCr event.organizer_name (bytes ":mailto:")
                                  event.organizer_email (ground arith) organizer))
                              (IsDocument-put_optional event.attendee_email
                                (bytes "ATTENDEE;CN="
                                  ++ (escape_ical_text event.attendee_name
                                      ++ (bytes ";RSVP=FALSE:mailto:" ++ event.attendee_email)))
                                _
                                (IsDocument-property b'A' (bytes "TTENDEE;CN=") _ (omega arith)
                                  (ground arith)
                                  (named-NoCr event.attendee_name (bytes ";RSVP=FALSE:mailto:")
                                    event.attendee_email (ground arith) attendee))
                                (IsDocument-line (bytes "END:VEVENT") (ground arith))))))))))))))

  emit_events-IsDocument :
      (events : List (ICalEvent × Readings)) (counter : ℕ) (uid_domain : Bytes)
      → All (λ e. IsCleanEvent e.0) events
      → NoCr uid_domain
      → IsDocument (emit_events year_month_day events counter uid_domain).0
  unfolding emit_events
  emit_events-IsDocument [] counter uid_domain clean domain = IsDocument-nil
  emit_events-IsDocument ((event, clock) ∷ events) counter uid_domain (h, clean) domain =
      IsDocument-append _ _ (emit_vevent-IsDocument event clock counter uid_domain h domain) (
        emit_events-IsDocument events (emit_vevent year_month_day event clock counter uid_domain).1
          uid_domain clean domain)

  raw_document-IsDocument :
      (events : List (ICalEvent × Readings)) (counter : ℕ) (config : ICalConfig)
      → All (λ e. IsCleanEvent e.0) events
      → IsCleanConfig config
      → IsDocument (raw_document year_month_day events counter config).0
  unfolding raw_document
  raw_document-IsDocument events counter config clean (prod_id, domain, refresh) =
      IsDocument-put (bytes "BEGIN:VCALENDAR") _ (ground arith) (
        IsDocument-put (bytes "VERSION:2.0") _ (ground arith) (
          IsDocument-put (bytes "PRODID:" ++ config.prod_id) _
            (IsDocument-property b'P' (bytes "RODID:") _ (omega arith) (ground arith) prod_id)
            (IsDocument-put (bytes "CALSCALE:GREGORIAN") _ (ground arith) (
              IsDocument-put (bytes "METHOD:PUBLISH") _ (ground arith) (
                IsDocument-put_optional config.calendar_name
                  (bytes "X-WR-CALNAME:" ++ escape_ical_text config.calendar_name) _
                  (escaped-PlainLine b'X' (bytes "-WR-CALNAME:") config.calendar_name (omega arith)
                    (ground arith))
                  (IsDocument-put_optional config.refresh_interval
                    (bytes "REFRESH-INTERVAL;VALUE=DURATION:" ++ config.refresh_interval) _
                    (IsDocument-property b'R' (bytes "EFRESH-INTERVAL;VALUE=DURATION:") _
                      (omega arith) (ground arith) refresh)
                    (IsDocument-put_optional config.refresh_interval
                      (bytes "X-PUBLISHED-TTL:" ++ config.refresh_interval) _
                      (IsDocument-property b'X' (bytes "-PUBLISHED-TTL:") _ (omega arith)
                        (ground arith) refresh)
                      (IsDocument-append _ _
                        (emit_events-IsDocument events counter config.uid_domain clean domain)
                        (IsDocument-line (bytes "END:VCALENDAR") (ground arith))))))))))

  -- When the fields that are written without escaping hold no carriage return: every physical line of the
  -- generated calendar has at most 75 octets, and unfolding the calendar gives back the text that was to
  -- be folded, whatever the titles, names, places and descriptions hold.
  pub generate_icalendar_lem :
      (events : List (ICalEvent × Readings)) (counter : ℕ) (config : ICalConfig)
      → All (λ e. IsCleanEvent e.0) events
      → IsCleanConfig config
      → let calendar = (generate_icalendar year_month_day events counter config).0 in
        (unfold_lines calendar ≡ (raw_document year_month_day events counter config).0)
        × All FitsLine (lines_of calendar)
  unfolding generate_icalendar
  generate_icalendar_lem events counter config clean clean_config =
      fold_all_lem (raw_document year_month_day events counter config).0
        (raw_document-IsDocument events counter config clean clean_config)
