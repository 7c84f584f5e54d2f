-- ===== src/Clock/Registers.antt =====
-- The registers of the clock that src/drivers/rtc/rtc.c reads.
use mo_os.Prelude.{
  ℕ, ◌+◌, ◌-◌, ◌*◌, ◌/◌, ◌%◌, ◌≤◌, ◌<◌, ◌≡◌, refl, ap, ◌∙◌, inl, inr, true, some, List, ◌∷◌, arith,
  ltb, leb, ◌==◌, if◌then◌else◌, ==_iff, Bool-cases,
}
use mo_os.Clock.{
  hour_pm, same_time, settled, from_bcd, to_24_hours, decode, rtc_now, RtcTime, Status,
}

-- The times of a clock whose year has two digits.
pub record IsTime (t : RtcTime) : Type 0 where
  pub second : t.second < 60
  pub minute : t.minute < 60
  pub hour : t.hour < 24
  pub day : t.day < 32
  pub month : t.month < 13
  pub since : 2000 ≤ t.year
  pub until : t.year < 2100

-- How the clock shows a number, and an hour: with 12 hours there is no hour 0, and the highest bit says
-- that it is past noon.
abbrev shown : Status → ℕ → ℕ
shown status n = if status.binary then n else n / 10 * 16 + n % 10

abbrev twelve : ℕ → ℕ
twelve hour = if hour % 12 == 0 then 12 else hour % 12

abbrev shown_hour : Status → ℕ → ℕ
shown_hour status hour =
    if status.hour_24
    then shown status hour
    else shown status (twelve hour) + (if ltb hour 12 then 0 else hour_pm)

pub registers : Status → RtcTime → RtcTime
registers status t = record {
  second = shown status t.second;
  minute = shown status t.minute;
  hour = shown_hour status t.hour;
  day = shown status t.day;
  month = shown status t.month;
  year = shown status (t.year - 2000);
}

decode-number : (status : Status) (n : ℕ) → n < 100 → from_bcd status (shown status n) ≡ n
decode-number status n lt = elim (Bool-cases (status.binary)) [
  | inl h ↦ rw h refl
  | inr h ↦ rw h (omega arith)
]

decode-hour :
    (status : Status) (hour : ℕ)
    → hour < 24
    → to_24_hours status
        (leb hour_pm (shown_hour status hour))
        (from_bcd status (shown_hour status hour % hour_pm))
      ≡ hour
decode-hour status hour lt = elim (Bool-cases (status.binary)) [
  | inl b ↦ elim (Bool-cases (status.hour_24)) [
    | inl h ↦ rw (b, h) (omega arith)
    | inr h ↦ rw (b, h) (ground arith)
  ]
  | inr b ↦ elim (Bool-cases (status.hour_24)) [
    | inl h ↦ rw (b, h) (ground arith)
    | inr h ↦ rw (b, h) (ground arith)
  ]
]

time_of_fields :
    (a b : RtcTime)
    → a.second ≡ b.second
    → a.minute ≡ b.minute
    → a.hour ≡ b.hour
    → a.day ≡ b.day
    → a.month ≡ b.month
    → a.year ≡ b.year
    → a ≡ b
time_of_fields a b second minute hour day month year = λ i. record {
  second = second i;
  minute = minute i;
  hour = hour i;
  day = day i;
  month = month i;
  year = year i;
}

decode-registers :
    (status : Status) (t : RtcTime) → IsTime t → decode status (registers status t) ≡ t
unfolding decode registers
decode-registers status t valid =
    let since = valid.since in
    let until = valid.until in
    time_of_fields (decode status (registers status t)) t
      (decode-number status t.second (omega (arith, valid.second)))
      (decode-number status t.minute (omega (arith, valid.minute)))
      (decode-hour status t.hour valid.hour) (decode-number status t.day (omega (arith, valid.day)))
      (decode-number status t.month (omega (arith, valid.month)))
      (ap (λ (y : ℕ). y + 2000) (decode-number status (t.year - 2000) (omega arith)) ∙ omega arith)

same_time_self : (t : RtcTime) → same_time t t ≡ true
unfolding same_time
same_time_self t =
    let self = λ (n : ℕ). (==_iff n n).1 refl in
    rw (self t.second, self t.minute, self t.hour, self t.day, self t.month, self t.year) refl

-- A time of the years 2000 to 2099 that the registers show twice in a row, as numbers or as decimals and
-- with 12 or 24 hours, is what `rtc_now` returns.
pub rtc_now-registers :
    (status : Status) (t : RtcTime) (readings : List RtcTime)
    → IsTime t
    → rtc_now status (registers status t) (registers status t ∷ readings) ≡ some t
unfolding rtc_now settled
rtc_now-registers status t readings valid =
    rw (same_time_self (registers status t), rtc_now) (ap some (decode-registers status t valid))
