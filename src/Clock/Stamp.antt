-- ===== src/Clock/Stamp.antt =====
-- The words of a FAT item that src/drivers/rtc/rtc.c makes of a time.
use mo_os.Prelude.{ℕ, ◌+◌, ◌/◌, ◌%◌, ◌≡◌, arith}
use mo_os.Clock.{rtc_fat_date, rtc_fat_time, RtcTime}
use mo_os.Clock.Registers.{IsTime}

-- The fields of the two words, as src/drivers/rtc/rtc.h lays them out.
pub record IsStamp (date time : ℕ) (t : RtcTime) : Type 0 where
  pub year : date / 512 + 1980 ≡ t.year
  pub month : date / 32 % 16 ≡ t.month
  pub day : date % 32 ≡ t.day
  pub hour : time / 2048 ≡ t.hour
  pub minute : time / 32 % 64 ≡ t.minute
  pub second : time % 32 ≡ t.second / 2

-- The two words of a time of the years 2000 to 2099 hold its fields, the seconds by twos.
pub rtc_fat_date-IsStamp : (t : RtcTime) → IsTime t → IsStamp (rtc_fat_date t) (rtc_fat_time t) t
unfolding rtc_fat_date rtc_fat_time
rtc_fat_date-IsStamp t valid = record {
  year = omega (arith, valid.since, valid.until, valid.month, valid.day);
  month = omega (arith, valid.since, valid.until, valid.month, valid.day);
  day = omega (arith, valid.since, valid.until, valid.month, valid.day);
  hour = omega (arith, valid.hour, valid.minute, valid.second);
  minute = omega (arith, valid.hour, valid.minute, valid.second);
  second = omega (arith, valid.hour, valid.minute, valid.second);
}
