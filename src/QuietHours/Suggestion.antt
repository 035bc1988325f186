-- ===== src/QuietHours/Suggestion.antt =====
-- lib/quietHours.ts, `quietSuggestion`: what the reader is offered.
use aimail.Base.{
  ℕ, ◌≤◌, ◌*◌, ◌%◌, ◌<◌, ◌≡◌, true, false, some, none, Option, arith, nat_eq, Bool, refl, or_else,
  String,
}
use aimail.QuietHours.Clocks.{Offset, day_ms, shifted, utc_day, iso_weekday, clock_at}
use aimail.QuietHours.Windows.{in_window-end}
use aimail.QuietHours.Ends.{IsEnd, HasClock}
use aimail.QuietHours.NextEnd.{next_quiet_end-first}
use aimail.QuietHours.{
  QuietHours, QuietSuggestion, minutes_of, in_window?, is_quiet, next_quiet_end, suggestion_at,
  quiet_suggestion,
}

-- On a clock, the time of day in whole minutes.
on_time-minutes :
    (at : ℕ) (offset : Offset) (end : ℕ)
    → end < 1440
    → shifted at offset % day_ms ≡ end * 60000
    → (clock_at at offset).minutes ≡ end
unfolding clock_at
on_time-minutes at offset end he h = omega arith

in_window?-end : (start : Option ℕ) (end : ℕ) → in_window? start (some end) end ≡ false
unfolding in_window?
in_window?-end none end = refl
in_window?-end (some start) end = in_window-end start end

IsEnd-is_quiet :
    (now : ℕ) (offset : Offset) (hours : QuietHours) (end at : ℕ)
    → minutes_of hours.end ≡ some end
    → end < 1440
    → IsEnd now offset hours.weekend_days end at
    → is_quiet (clock_at at offset) hours ≡ false
unfolding is_quiet
IsEnd-is_quiet now offset hours end at p he e =
    rw (on_weekday, e.working, p, on_time-minutes at offset end he e.on_time)
      (in_window?-end (minutes_of hours.start) end)
  where
    on_weekday : (clock_at at offset).weekday ≡ iso_weekday (utc_day (shifted at offset))
    on_weekday = unfold clock_at in refl

suggestion_at-sends_later :
    (now : ℕ) (offset : Offset) (theirs : Bool) (hours : QuietHours) (end : ℕ) (s : QuietSuggestion)
    → HasClock now offset
    → minutes_of hours.end ≡ some end
    → end < 1440
    → suggestion_at now offset theirs hours ≡ some s
    → (s.offset ≡ offset)
      × (is_quiet (clock_at now offset) hours ≡ true)
      × (next_quiet_end now offset hours ≡ some s.send_at)
unfolding suggestion_at
suggestion_at-sends_later now offset theirs hours end s c p he h = ground arith

settled :
    (now : ℕ) (offset : Offset) (theirs : Bool) (hours : QuietHours) (end : ℕ) (s : QuietSuggestion)
    → HasClock now offset
    → minutes_of hours.end ≡ some end
    → end < 1440
    → suggestion_at now offset theirs hours ≡ some s
    → (s.offset ≡ offset)
      × (is_quiet (clock_at now s.offset) hours ≡ true)
      × IsEnd now s.offset hours.weekend_days end s.send_at
      × ((t : ℕ) → IsEnd now s.offset hours.weekend_days end t → s.send_at ≤ t)
      × (is_quiet (clock_at s.send_at s.offset) hours ≡ false)
settled now offset theirs hours end s c p he h =
    let (same, quiet, found) = suggestion_at-sends_later now offset theirs hours end s c p he h in
    let (ends, least) = next_quiet_end-first now offset hours end s.send_at c p he found in
    rw same (refl, quiet, ends, least, IsEnd-is_quiet now offset hours end s.send_at p he ends)

abbrev pub used_offset : (String → ℕ → Offset) → ℕ → Option Offset → QuietHours → Offset
used_offset zone_offset now theirs hours = or_else theirs (zone_offset hours.timezone now)

-- For quiet hours that end at a time of day, a suggestion is made only in quiet hours on the clock
-- of the recipient, or on the zone's where their offset is unknown. It is to send at the first
-- moment from now on at which quiet hours end on a day that is not a weekend day, and at that
-- moment it is no longer quiet.
quiet_suggestion-sends_later :
    (zone_offset : String → ℕ → Offset) (now : ℕ) (theirs : Option Offset) (hours : QuietHours)
    (end : ℕ) (s : QuietSuggestion)
    → HasClock now (used_offset zone_offset now theirs hours)
    → minutes_of hours.end ≡ some end
    → end < 1440
    → quiet_suggestion zone_offset now theirs hours ≡ some s
    → (s.offset ≡ used_offset zone_offset now theirs hours)
      × (is_quiet (clock_at now s.offset) hours ≡ true)
      × IsEnd now s.offset hours.weekend_days end s.send_at
      × ((t : ℕ) → IsEnd now s.offset hours.weekend_days end t → s.send_at ≤ t)
      × (is_quiet (clock_at s.send_at s.offset) hours ≡ false)
unfolding quiet_suggestion
quiet_suggestion-sends_later zone_offset now none hours end s c p he h =
    settled now _ false hours end s c p he h
quiet_suggestion-sends_later zone_offset now (some offset) hours end s c p he h =
    settled now offset true hours end s c p he h
