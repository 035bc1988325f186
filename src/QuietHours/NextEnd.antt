-- ===== src/QuietHours/NextEnd.antt =====
-- lib/quietHours.ts, `nextQuietEnd`: the loop finds the first end of quiet hours after `now` that
-- falls on a day which is not a weekend day, if any weekday is not one.
use aimail.Base.{
  ℕ, zero, suc, ◌+◌, ◌-◌, ◌/◌, ◌%◌, ◌<◌, ◌≤◌, ◌≡◌, refl, ◌↔◌, true, false, some, Option, List,
  arith, includes, nat_eq, Bool-cases, inl, inr, Bool, ap, dec_lt, sym, ◌∙◌,
}
use aimail.QuietHours.Clocks.{Offset, day_ms, shifted, utc_day, iso_weekday}
use aimail.QuietHours.{
  QuietHours, minutes_of, local_end, unshifted, is_open_end, next_end_from, next_quiet_end,
  next_end?,
}
use aimail.QuietHours.Ends.{
  IsEnd, HasClock, unshifted_mono, unshifted-shifted, shifted_mono, HasClock-mono, lt-unshifted,
  is_open_end-IsEnd, is_open_end-working, is_open_end_of,
}

iso_weekday_range : (at : ℕ) → (1 ≤ iso_weekday (utc_day at)) × (iso_weekday (utc_day at) ≤ 7)
unfolding iso_weekday utc_day
iso_weekday_range at = ground arith

-- The loop over the days.
module _ (now : ℕ) (offset : Offset) (weekend : List ℕ) (midnight end : ℕ) where
  abbrev instant : ℕ → ℕ
  instant day = unshifted (local_end midnight end day) offset

  abbrev passes : ℕ → Bool
  passes day = is_open_end now offset weekend (local_end midnight end day)

  abbrev loop : ℕ → ℕ → Option ℕ
  loop rounds day = next_end_from now offset weekend midnight end rounds day

  loop-hit :
      (rounds day : ℕ) {at : ℕ}
      → loop rounds day ≡ some at
      → (d : ℕ) × (day ≤ d) × (d < day + rounds) × (at ≡ instant d) × (passes d ≡ true)
  unfolding next_end_from
  loop-hit zero day h = cc
  loop-hit (suc rounds) day {at} h = elim (Bool-cases (passes day)) [
    | inl hit ↦ (day, omega arith, omega arith, ground arith, hit)
    | inr miss ↦
        let (d, low, high, same, pass) = loop-hit rounds (day + 1) {at = at} (ground arith) in
        (d, omega arith, omega arith, same, pass)
  ]

  loop-passes :
      (rounds day d : ℕ)
      → day ≤ d
      → d < day + rounds
      → passes d ≡ true
      → (at : ℕ) × (loop rounds day ≡ some at) × (at ≤ instant d)
  unfolding next_end_from
  loop-passes zero day d low high pass = absurd (omega arith)
  loop-passes (suc rounds) day d low high pass = elim (Bool-cases (passes day)) [
    | inl hit ↦ (instant day, rw hit refl, unshifted_mono _ _ offset (omega arith))
    | inr miss ↦
        let (at, found, least) = loop-passes rounds (day + 1) d (other miss) (omega arith) pass in
        (at, rw miss found, least)
  ]
    where
      other : passes day ≡ false → day + 1 ≤ d
      other miss = elim (dec_lt day d) [
        | yes past ↦ omega arith
        | no here ↦ let same : d ≡ day = omega arith in cc (ap passes same, pass, miss)
      ]

weekday_day : (midnight end w : ℕ) → ℕ
weekday_day midnight end w = 1 + (w + 14 - (midnight / day_ms + 3) % 7) % 7

-- Within a week after `midnight` every weekday comes up once.
weekday_day-iso :
    (midnight end w : ℕ)
    → midnight % day_ms ≡ 0
    → end < 1440
    → 1 ≤ w
    → w ≤ 7
    → (iso_weekday (utc_day (local_end midnight end (weekday_day midnight end w))) ≡ w)
      × (1 ≤ weekday_day midnight end w)
      × (weekday_day midnight end w ≤ 7)
unfolding iso_weekday utc_day weekday_day
weekday_day-iso midnight end w hm he h1 h7 = ground arith

abbrev midnight_of : ℕ → Offset → ℕ
midnight_of now offset = shifted now offset - shifted now offset % day_ms

next_quiet_end-loop :
    (now : ℕ) (offset : Offset) (hours : QuietHours) (end : ℕ)
    → minutes_of hours.end ≡ some end
    → next_quiet_end now offset hours
      ≡ loop now offset hours.weekend_days (midnight_of now offset) end 15 0
unfolding next_quiet_end next_end?
next_quiet_end-loop now offset hours end p = rw p refl

-- An end on the clock is the local end of one of the days that the loop may come to.
IsEnd-day :
    (now : ℕ) (offset : Offset) (weekend : List ℕ) (end t : ℕ)
    → HasClock now offset
    → end < 1440
    → IsEnd now offset weekend end t
    → (d : ℕ) × (instant now offset weekend (midnight_of now offset) end d ≡ t)
      × (passes now offset weekend (midnight_of now offset) end d ≡ true)
unfolding is_open_end
IsEnd-day now offset weekend end t c he e =
    let at : ℕ = shifted t offset in
    let d : ℕ = (at - midnight_of now offset) / day_ms in
    let same : local_end (midnight_of now offset) end d ≡ at =
      omega (arith, e.on_time, shifted_mono now t offset (omega (arith, e.later))) in
    let back : unshifted at offset ≡ t =
      unshifted-shifted t offset (HasClock-mono now t offset (omega (arith, e.later)) c) in
    (d, rw (same, back) refl, rw (same, back) (ground (arith, e.later, e.working)))

-- When quiet hours end at a time of day, `nextQuietEnd` gives the first moment after `now` at which
-- they end on a day that is not a weekend day, on the clock at the offset.
pub next_quiet_end-first :
    (now : ℕ) (offset : Offset) (hours : QuietHours) (end at : ℕ)
    → HasClock now offset
    → minutes_of hours.end ≡ some end
    → end < 1440
    → next_quiet_end now offset hours ≡ some at
    → IsEnd now offset hours.weekend_days end at
      × ((t : ℕ) → IsEnd now offset hours.weekend_days end t → at ≤ t)
next_quiet_end-first now offset hours end at c p he h =
    let found = sym (next_quiet_end-loop now offset hours end p) ∙ h in
    let (day, low, high, same, pass) = loop-hit now offset weekend midnight end 15 0 found in
    (
      rw same (is_open_end-IsEnd now offset weekend midnight end day he (omega arith) pass),
      λ t e. no_earlier found day high same t (IsEnd-day now offset weekend end t c he e),
    )
  where
    weekend : List ℕ
    weekend = hours.weekend_days

    midnight : ℕ
    midnight = midnight_of now offset

    no_earlier :
        loop now offset weekend midnight end 15 0 ≡ some at
        → (day : ℕ) → day < 0 + 15
        → at ≡ instant now offset weekend midnight end day
        → (t : ℕ)
        → (d : ℕ) × (instant now offset weekend midnight end d ≡ t)
          × (passes now offset weekend midnight end d ≡ true)
        → at ≤ t
    no_earlier found day high same t (d, on, pass) = elim (dec_lt d 15) [
      | yes near ↦
          let (other, found', least) =
            loop-passes now offset weekend midnight end 15 0 d (omega arith) (omega arith) pass in
          let one : other ≡ at = ground (arith, found, found') in omega (arith, one, least, on)
      | no far ↦ omega (
        arith,
        same,
        on,
        unshifted_mono (local_end midnight end day) (local_end midnight end d) offset (omega arith),
      )
    ]

-- There is an end to send at exactly when some weekday is not a weekend day: fourteen days ahead
-- are enough.
pub next_quiet_end-exists :
    (now : ℕ) (offset : Offset) (hours : QuietHours) (end : ℕ)
    → minutes_of hours.end ≡ some end
    → end < 1440
    → ((at : ℕ) × (next_quiet_end now offset hours ≡ some at))
      ↔ ((w : ℕ) × (1 ≤ w) × (w ≤ 7) × (includes hours.weekend_days w ≡ false))
next_quiet_end-exists now offset hours end p he = (there_is, found)
  where
    weekend : List ℕ
    weekend = hours.weekend_days

    midnight : ℕ
    midnight = midnight_of now offset

    there_is :
        (at : ℕ) × (next_quiet_end now offset hours ≡ some at)
        → (w : ℕ) × (1 ≤ w) × (w ≤ 7) × (includes hours.weekend_days w ≡ false)
    there_is (at, h) =
        let looped = sym (next_quiet_end-loop now offset hours end p) ∙ h in
        let (day, low, high, same, pass) = loop-hit now offset weekend midnight end 15 0 looped in
        let range = iso_weekday_range (local_end midnight end day) in
        (
          iso_weekday (utc_day (local_end midnight end day)),
          range.0,
          range.1,
          is_open_end-working now offset weekend _ pass,
        )

    found :
        (w : ℕ) × (1 ≤ w) × (w ≤ 7) × (includes hours.weekend_days w ≡ false)
        → (at : ℕ) × (next_quiet_end now offset hours ≡ some at)
    found (w, h1, h7, free) =
        let fits = weekday_day-iso midnight end w (omega arith) he h1 h7 in
        let day : ℕ = weekday_day midnight end w in
        let ahead_of =
          lt-unshifted now (local_end midnight end day) offset (omega (arith, fits.1)) in
        let (at, looped, least) =
          loop-passes now offset weekend midnight end 15 0 day (omega arith) (omega (arith, fits.2))
            (is_open_end_of now offset weekend _ ahead_of (rw (fits.0) free)) in
        (at, next_quiet_end-loop now offset hours end p ∙ looped)
