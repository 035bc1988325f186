-- ===== src/QuietHours/Windows.antt =====
-- lib/quietHours.ts, `isQuiet`: the window between two times of day, which may cross midnight.
use aimail.Base.{ℕ, ◌+◌, ◌-◌, ◌%◌, ◌<◌, ◌≡◌, ◌↔◌, ◌⊎◌, true, false, some, arith, includes, nat_eq}
use aimail.QuietHours.{QuietHours, Clock, minutes_of, in_window, in_window?, is_quiet}

-- The window is the arc of the day's circle that runs from `start` on to `end`.
in_window_iff :
    (start end minutes : ℕ)
    → start < 1440
    → end < 1440
    → minutes < 1440
    → (in_window start end minutes ≡ true)
      ↔ ((minutes + 1440 - start) % 1440 < (end + 1440 - start) % 1440)
unfolding in_window
in_window_iff start end minutes hs he hm = ground arith

-- For times within a day, it is quiet exactly on the weekend days and, on any day, when the clock
-- lies on the arc of the day's circle that starts at `start` and stops before `end`.
is_quiet_iff :
    (clock : Clock) (hours : QuietHours) (start end : ℕ)
    → minutes_of hours.start ≡ some start
    → minutes_of hours.end ≡ some end
    → start < 1440
    → end < 1440
    → clock.minutes < 1440
    → (is_quiet clock hours ≡ true) ↔ (
        (includes hours.weekend_days clock.weekday ≡ true)
        ⊎ ((clock.minutes + 1440 - start) % 1440 < (end + 1440 - start) % 1440))
unfolding is_quiet in_window?
is_quiet_iff clock hours start end ps pe hs he hm =
    ground (arith, in_window_iff start end clock.minutes hs he hm)

-- The moment at which quiet hours end is not in the window, whatever the start.
pub in_window-end : (start end : ℕ) → in_window start end end ≡ false
unfolding in_window
in_window-end start end = ground arith
