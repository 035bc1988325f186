-- ===== src/QuietHours/Tests.antt =====
-- lib/quietHours.ts at concrete hours: 21:00 to 07:30 in Kuala Lumpur, the weekend on Saturday and
-- Sunday.
use aimail.Base.{
  ◌+◌, ◌-◌, ◌≤◌, ◌≡◌, ◌↔◌, refl, false, none, some, ℕ, [], ◌∷◌, codes, arith, includes, nat_eq, ◌*◌,
}
use aimail.QuietHours.Clocks.{ahead, clock_at, shifted, utc_day, iso_weekday}
use aimail.QuietHours.{
  QuietHours, QuietSuggestion, minutes_of, clock_time, split_colons, number_from, is_quiet,
  in_window?, in_window, next_quiet_end, next_end?, next_end_from, is_open_end, unshifted,
  quiet_suggestion, suggestion_at,
}
use aimail.QuietHours.Ends.{IsEnd}
use aimail.QuietHours.NextEnd.{next_quiet_end-first, next_quiet_end-exists}

abbrev hours : QuietHours
hours = record {
  start = codes "21:00";
  end = codes "07:30:00";
  timezone = "Asia/Kuala_Lumpur";
  weekend_days = 6 ∷ 7 ∷ [];
}

-- 1970-01-01 00:00 UTC, a Thursday: 08:00 in Kuala Lumpur.
abbrev epoch : ℕ
epoch = 8640000000000000

-- The Friday after, at 23:40 in Kuala Lumpur, and the Monday after that at 07:30.
abbrev late : ℕ
late = epoch + (15 * 60 + 40 + 1440) * 60000

abbrev monday : ℕ
monday = epoch + (4 * 1440 - 30) * 60000

starts : minutes_of hours.start ≡ some 1260
unfolding minutes_of clock_time split_colons number_from
starts = refl

ends : minutes_of hours.end ≡ some 450
unfolding minutes_of clock_time split_colons number_from
ends = refl

friday_night : clock_at late (ahead 480) ≡ record { weekday = 5; minutes = 1420 }
unfolding clock_at shifted utc_day iso_weekday
friday_night = refl

next_end : next_quiet_end late (ahead 480) hours ≡ some monday
unfolding next_quiet_end next_end? next_end_from is_open_end unshifted shifted utc_day iso_weekday
    minutes_of clock_time split_colons number_from
next_end = refl

next_quiet_end-first_example :
    IsEnd late (ahead 480) hours.weekend_days 450 monday
    × ((t : ℕ) → IsEnd late (ahead 480) hours.weekend_days 450 t → monday ≤ t)
next_quiet_end-first_example =
    next_quiet_end-first late (ahead 480) hours 450 monday tt ends (omega arith) next_end

next_quiet_end-exists_example :
    ((at : ℕ) × (next_quiet_end late (ahead 480) hours ≡ some at))
    ↔ ((w : ℕ) × (1 ≤ w) × (w ≤ 7) × (includes hours.weekend_days w ≡ false))
next_quiet_end-exists_example = next_quiet_end-exists late (ahead 480) hours 450 ends (omega arith)

abbrev wait : QuietSuggestion
wait = record { their_now = late; send_at = monday; offset = ahead 480; is_their_time = false }

suggested : quiet_suggestion (λ zone at. ahead 480) late none hours ≡ some wait
unfolding quiet_suggestion suggestion_at is_quiet in_window? in_window clock_at next_quiet_end
    next_end? next_end_from is_open_end unshifted shifted utc_day iso_weekday minutes_of clock_time
    split_colons number_from
suggested = refl
