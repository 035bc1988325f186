-- ===== src/QuietHours/Ends.antt =====
-- lib/quietHours.ts, `nextQuietEnd`: one candidate of the loop, and the clock that it is read on.
use aimail.Base.{ℕ, ◌*◌, ◌%◌, ◌<◌, ◌≤◌, ◌≡◌, true, false, List, arith, includes, nat_eq}
use aimail.QuietHours.Clocks.{Offset, ahead, behind, day_ms, shifted, utc_day, iso_weekday}
use aimail.QuietHours.{local_end, unshifted, is_open_end}

-- A moment after `now` at which quiet hours end on the offset's clock, not on a weekend day.
pub record IsEnd (now : ℕ) (offset : Offset) (weekend : List ℕ) (end at : ℕ) : Type 0 where
  pub later : now < at
  pub on_time : shifted at offset % day_ms ≡ end * 60000
  pub working : includes weekend (iso_weekday (utc_day (shifted at offset))) ≡ false

-- The moment has a date on that clock.
abbrev pub HasClock : ℕ → Offset → Type 0
HasClock at (ahead m) = Unit {0}
HasClock at (behind m) = m * 60000 ≤ at

pub shifted-unshifted :
    (at : ℕ) (offset : Offset) → 0 < unshifted at offset → shifted (unshifted at offset) offset ≡ at
unfolding shifted unshifted
shifted-unshifted at (ahead m) h = omega arith
shifted-unshifted at (behind m) h = omega arith

pub unshifted_mono :
    (at later : ℕ) (offset : Offset) → at ≤ later → unshifted at offset ≤ unshifted later offset
unfolding unshifted
unshifted_mono at later (ahead m) h = omega arith
unshifted_mono at later (behind m) h = omega arith

pub unshifted-shifted :
    (at : ℕ) (offset : Offset) → HasClock at offset → unshifted (shifted at offset) offset ≡ at
unfolding shifted unshifted
unshifted-shifted at (ahead m) h = omega arith
unshifted-shifted at (behind m) h = omega arith

pub shifted_mono :
    (at later : ℕ) (offset : Offset) → at ≤ later → shifted at offset ≤ shifted later offset
unfolding shifted
shifted_mono at later (ahead m) h = omega arith
shifted_mono at later (behind m) h = omega arith

pub HasClock-mono :
    (at later : ℕ) (offset : Offset) → at ≤ later → HasClock at offset → HasClock later offset
HasClock-mono at later (ahead m) h c = tt
HasClock-mono at later (behind m) h c = omega arith

pub lt-unshifted :
    (now at : ℕ) (offset : Offset) → shifted now offset < at → now < unshifted at offset
unfolding shifted unshifted
lt-unshifted now at (ahead m) h = omega arith
lt-unshifted now at (behind m) h = omega arith

pub is_open_end-IsEnd :
    (now : ℕ) (offset : Offset) (weekend : List ℕ) (midnight end day : ℕ)
    → end < 1440
    → midnight % day_ms ≡ 0
    → is_open_end now offset weekend (local_end midnight end day) ≡ true
    → IsEnd now offset weekend end (unshifted (local_end midnight end day) offset)
unfolding is_open_end
is_open_end-IsEnd now offset weekend midnight end day he hm h =
    let ahead_of : now < unshifted at offset = ground arith in
    let back : shifted (unshifted at offset) offset ≡ at =
      shifted-unshifted at offset (omega arith) in
    record { later = ahead_of; on_time = rw back (omega arith); working = rw back (ground arith) }
  where
    at : ℕ
    at = local_end midnight end day

pub is_open_end-working :
    (now : ℕ) (offset : Offset) (weekend : List ℕ) (at : ℕ)
    → is_open_end now offset weekend at ≡ true
    → includes weekend (iso_weekday (utc_day at)) ≡ false
unfolding is_open_end
is_open_end-working now offset weekend at h = ground arith

pub is_open_end_of :
    (now : ℕ) (offset : Offset) (weekend : List ℕ) (at : ℕ)
    → now < unshifted at offset
    → includes weekend (iso_weekday (utc_day at)) ≡ false
    → is_open_end now offset weekend at ≡ true
unfolding is_open_end
is_open_end_of now offset weekend at h w = ground arith
