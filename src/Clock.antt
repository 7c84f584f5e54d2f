-- ===== src/Clock.antt =====
-- src/drivers/rtc/rtc.c: the time of the clock. What the registers give is an argument; a register is a
-- byte. `&`, `|` and `<<` on fields that do not overlap are arithmetic.
pub mod Registers
pub mod Stamp
mod Tests
use mo_os.Prelude.{
  ℕ, ◌+◌, ◌-◌, ◌*◌, ◌/◌, ◌%◌, ◌^◌, Bool, not, ◌&&◌, Option, none, some, List, [], ◌∷◌, leb, ◌==◌,
  if◌then◌else◌,
}

pub record RtcTime : Type 0 where
  pub second : ℕ
  pub minute : ℕ
  pub hour : ℕ
  pub day : ℕ
  pub month : ℕ
  pub year : ℕ

-- The bits of status register B.
pub record Status : Type 0 where
  pub binary : Bool
  pub hour_24 : Bool

abbrev pub hour_pm : ℕ
hour_pm = 0x80

abbrev pub bcd_to_binary : ℕ → ℕ
bcd_to_binary bcd = bcd % 16 + bcd / 16 * 10

pub same_time : RtcTime → RtcTime → Bool
same_time a b =
    (a.second == b.second)
    && (a.minute == b.minute)
    && (a.hour == b.hour)
    && (a.day == b.day)
    && (a.month == b.month)
    && (a.year == b.year)

-- The loop of `rtc_now` over what rtc_read_raw gives each time: the first reading that is like the one
-- before. It does not end if there is none.
pub settled : RtcTime → List RtcTime → Option RtcTime
settled last [] = none
settled last (time ∷ readings) =
    let rest = settled time readings in if same_time last time then some time else rest

-- `rtc_now` behind its loop.
abbrev pub from_bcd : Status → ℕ → ℕ
from_bcd status n = if not status.binary then bcd_to_binary n else n

abbrev pub to_24_hours : Status → Bool → ℕ → ℕ
to_24_hours status pm hour =
    if not status.hour_24 then (if pm then hour % 12 + 12 else hour % 12) else hour

pub decode : Status → RtcTime → RtcTime
decode status time = record {
  second = from_bcd status time.second;
  minute = from_bcd status time.minute;
  hour = to_24_hours status (leb hour_pm time.hour) (from_bcd status (time.hour % hour_pm));
  day = from_bcd status time.day;
  month = from_bcd status time.month;
  year = from_bcd status time.year + 2000;
}

pub rtc_now : Status → RtcTime → List RtcTime → Option RtcTime
rtc_now status first readings = elim (settled first readings) [
  | none ↦ none
  | some time ↦ some (decode status time)
]

-- The words of a FAT item, for a time of the clock.
pub rtc_fat_date : RtcTime → ℕ
rtc_fat_date now = ((now.year - 1980) * 512 + now.month * 32 + now.day) % 2 ^ 16

pub rtc_fat_time : RtcTime → ℕ
rtc_fat_time now = (now.hour * 2048 + now.minute * 32 + now.second / 2) % 2 ^ 16
