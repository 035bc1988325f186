-- ===== src/QuietHours.antt =====
-- lib/quietHours.ts: is it late for the person who receives the reply, and when do their quiet
-- hours end. A moment is the number of milliseconds since the earliest date that JavaScript has
-- (100,000,000 days before 1970-01-01 UTC, a Tuesday), so that every valid `Date` is a natural
-- number. An offset from UTC is in minutes, with a sign.
pub mod Clocks
pub mod Windows
pub mod Ends
pub mod NextEnd
pub mod Suggestion
pub mod Tests
pub use Clocks.{Offset, ahead, behind, day_ms, shifted, utc_day, iso_weekday, Clock, clock_at}
use aimail.Base.{
  ℕ, zero, suc, ◌+◌, ◌-◌, ◌*◌, ◌%◌, Bool, true, false, not, ◌&&◌, ◌||◌, Option, none, some, List,
  [], ◌∷◌, Text, String, ltb, leb, ◌==◌, if◌then◌else◌, includes, nat_eq,
}

-- `Number(text)` of a run of decimal digits; the empty text is 0, and anything else is NaN here.
-- (The times that the service sends are written in digits.)
number_from : ℕ → Text → Option ℕ
number_from n [] = some n
number_from n (c ∷ s) =
    let rest = number_from (10 * n + (c - 48)) s in if leb 48 c && leb c 57 then rest else none

-- The parts of `time.split(":")`.
split_colons : Text → List Text
split_colons [] = [] ∷ []
split_colons (c ∷ s) = elim (split_colons s) [
  | [] ↦ (c ∷ []) ∷ []
  | part ∷ parts ↦ if c == b':' then [] ∷ part ∷ parts else (c ∷ part) ∷ parts
]

-- The first two parts; a missing one is "0".
clock_time : List Text → Option ℕ
clock_time [] = some 0
clock_time (h ∷ []) = elim (number_from 0 h) [ none ↦ none | some n ↦ some (n * 60) ]
clock_time (h ∷ m ∷ parts) = elim (number_from 0 h) [
  | none ↦ none
  | some n ↦ elim (number_from 0 m) [ none ↦ none | some k ↦ some (n * 60 + k) ]
]

-- "21:00:00" or "21:00" is 1260; `none` is NaN.
pub minutes_of : Text → Option ℕ
minutes_of time = clock_time (split_colons time)

pub record QuietHours : Type 0 where
  pub start : Text
  pub end : Text
  pub timezone : String
  pub weekend_days : List ℕ

-- The comparisons of `isQuiet`, once both times are numbers.
pub in_window : ℕ → ℕ → ℕ → Bool
in_window start end minutes =
    if ltb end start
    then leb start minutes || ltb minutes end
    else leb start minutes && ltb minutes end

-- With a time that is NaN every comparison is false.
in_window? : Option ℕ → Option ℕ → ℕ → Bool
in_window? none end minutes = false
in_window? (some start) none minutes = false
in_window? (some start) (some end) minutes = in_window start end minutes

pub is_quiet : Clock → QuietHours → Bool
is_quiet clock hours =
    if includes hours.weekend_days clock.weekday
    then true
    else in_window? (minutes_of hours.start) (minutes_of hours.end) clock.minutes

abbrev pub max_days_ahead : ℕ
max_days_ahead = 14

-- The local time at which quiet hours end on the given day after `midnight`.
abbrev pub local_end : ℕ → ℕ → ℕ → ℕ
local_end midnight end day = midnight + (day * 1440 + end) * 60000

-- `at` less the offset. A moment before the earliest date is 0 here and no date in JavaScript;
-- neither is later than `now`.
pub unshifted : ℕ → Offset → ℕ
unshifted at (ahead m) = at - m * 60000
unshifted at (behind m) = at + m * 60000

-- The test of the loop: the end on that day is still ahead, and the day is no weekend day.
pub is_open_end : ℕ → Offset → List ℕ → ℕ → Bool
is_open_end now offset weekend at =
    ltb now (unshifted at offset) && not (includes weekend (iso_weekday (utc_day at)))

-- Rounds of the loop that are left, and the day that it stands at.
next_end_from : ℕ → Offset → List ℕ → ℕ → ℕ → ℕ → ℕ → Option ℕ
next_end_from now offset weekend midnight end zero day = none
next_end_from now offset weekend midnight end (suc rounds) day =
    let at = local_end midnight end day in
    let rest = next_end_from now offset weekend midnight end rounds (day + 1) in
    if is_open_end now offset weekend at then some (unshifted at offset) else rest

next_end? : ℕ → Offset → List ℕ → Option ℕ → Option ℕ
next_end? now offset weekend none = none
next_end? now offset weekend (some end) =
    let local = shifted now offset in
    next_end_from now offset weekend (local - local % day_ms) end (max_days_ahead + 1) 0

pub next_quiet_end : ℕ → Offset → QuietHours → Option ℕ
next_quiet_end now offset hours = next_end? now offset hours.weekend_days (minutes_of hours.end)

pub record QuietSuggestion : Type 0 where
  pub their_now : ℕ
  pub send_at : ℕ
  pub offset : Offset
  pub is_their_time : Bool

-- `Intl` gives the offset of a named zone at a moment; it is a parameter.
suggestion_at : ℕ → Offset → Bool → QuietHours → Option QuietSuggestion
suggestion_at now offset theirs hours =
    if is_quiet (clock_at now offset) hours
    then elim (next_quiet_end now offset hours) [
      | none ↦ none
      | some at ↦
          some (record { their_now = now; send_at = at; offset = offset; is_their_time = theirs })
    ]
    else none

pub quiet_suggestion :
    (String → ℕ → Offset) → ℕ → Option Offset → QuietHours → Option QuietSuggestion
quiet_suggestion zone_offset now none hours =
    suggestion_at now (zone_offset hours.timezone now) false hours
quiet_suggestion zone_offset now (some offset) hours = suggestion_at now offset true hours
