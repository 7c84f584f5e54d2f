-- ===== src/Clock/Tests.antt =====
-- The 26th of November 2026, 13:05:59, on a clock of decimals with 12 hours.
use mo_os.Prelude.{◌≡◌, refl, false, none, some, [], ◌∷◌, arith}
use mo_os.Clock.{same_time, settled, decode, rtc_now, RtcTime, Status}
use mo_os.Clock.Registers.{registers, rtc_now-registers, IsTime}

abbrev decimals : Status
decimals = record { binary = false; hour_24 = false }

abbrev noon_past : RtcTime
noon_past = record { second = 59; minute = 5; hour = 13; day = 26; month = 11; year = 2026 }

noon_past-IsTime : IsTime noon_past
noon_past-IsTime = record {
  second = omega arith;
  minute = omega arith;
  hour = omega arith;
  day = omega arith;
  month = omega arith;
  since = omega arith;
  until = omega arith;
}

abbrev shown_past : RtcTime
shown_past = record {
  second = 0x59;
  minute = 5;
  hour = 0x81;
  day = 0x26;
  month = 0x11;
  year = 0x26;
}

run_rtc_now :
    rtc_now decimals (record shown_past { second = 0x58 }) (shown_past ∷ shown_past ∷ [])
    ≡ some noon_past
unfolding rtc_now settled same_time decode
run_rtc_now = refl

-- Readings that never agree have no end.
run_unsettled : settled (record shown_past { second = 0x58 }) (shown_past ∷ []) ≡ none
unfolding settled same_time
run_unsettled = refl

rtc_now-registers_example :
    rtc_now decimals (registers decimals noon_past) (registers decimals noon_past ∷ [])
    ≡ some noon_past
rtc_now-registers_example = rtc_now-registers decimals noon_past [] noon_past-IsTime
