-- ===== src/TimeUtil.antt =====
-- Times as text (src/TimeUtil.cpp, include/fw/TimeUtil.hpp). A time point is its nanoseconds since
-- 1970; `localtime_r`, `gmtime_r` and `mktime` answer through arguments.
pub mod Iso
mod Tests
use alkaidlab_fw.Base.{
  ℕ, suc, ◌+◌, ◌-◌, ◌*◌, ◌/◌, ◌%◌, ◌^◌, List, [], ◌∷◌, ◌++◌, Option, none, some, Bool, true, false,
  ltb, ◌==◌, if◌then◌else◌, or_else, ◌>>=◌, Bytes, codes, length, replicate,
}
use alkaidlab_fw.Base.Int.{ℤ, pos, negsuc, ◌+ℤ◌, ◌-ℤ◌, leb_ℤ, sub_ℕ}
use alkaidlab_fw.Base.Decimal.{decimal, decimal_ℤ}

-- `struct tm`, for years from 1900 on.
pub record Tm : Type 0 where
  pub tm_year : ℕ
  pub tm_mon : ℕ
  pub tm_mday : ℕ
  pub tm_hour : ℕ
  pub tm_min : ℕ
  pub tm_sec : ℕ

-- Division and remainder of `int64_t`, which round towards zero.
unfoldable pub quot : ℤ → ℕ → ℤ
quot (pos n) k = pos (n / k)
quot (negsuc n) k = sub_ℕ 0 (suc n / k)

unfoldable pub rem : ℤ → ℕ → ℤ
rem (pos n) k = pos (n % k)
rem (negsuc n) k = sub_ℕ 0 (suc n % k)

-- `std::setfill('0') << std::setw(width) << n`
unfoldable pub padded : ℕ → ℕ → Bytes
padded width n = replicate (width - length (decimal n)) b'0' ++ decimal n

unfoldable pub seconds : ℤ → ℤ
seconds ns = quot ns (10 ^ 9)

unfoldable pub microseconds : ℤ → ℤ
microseconds ns = quot (rem ns (10 ^ 9)) 1000

-- The fraction, where it is positive.
unfoldable pub fraction : ℤ → Bytes
fraction (pos us) = if us / 1000 == 0 then [] else b'.' ∷ padded 3 (us / 1000)
fraction (negsuc us) = []

-- Date and time, in front of what is printed next.
unfoldable pub date_and_time : Tm → Bytes → Bytes
date_and_time t rest =
    padded 4 (t.tm_year + 1900)
    ++ (b'-'
        ∷ (padded 2 (t.tm_mon + 1)
            ++ (b'-'
                ∷ (padded 2 t.tm_mday
                    ++ (b'T'
                        ∷ (padded 2 t.tm_hour
                            ++ (b':'
                                ∷ (padded 2 t.tm_min ++ (b':' ∷ (padded 2 t.tm_sec ++ rest))))))))))

-- `getSystemTimezone`, of the difference of the two `mktime`.
unfoldable pub get_system_timezone : ℤ → Bytes
get_system_timezone (pos n) = b'+' ∷ padded 2 (n / 3600) ++ (b':' ∷ padded 2 (n % 3600 / 60))
get_system_timezone (negsuc n) =
    b'-' ∷ padded 2 (suc n / 3600) ++ (b':' ∷ padded 2 (suc n % 3600 / 60))

module _ (localtime gmtime : ℤ → Option Tm) (offset : ℤ) where
  unfoldable pub broken_down : Bytes → ℤ → Option Tm
  broken_down timezone ns =
      if length timezone == 0 then localtime (seconds ns) else gmtime (seconds ns)

  unfoldable pub zone_text : Bytes → Bytes
  zone_text timezone = if length timezone == 0 then get_system_timezone offset else timezone

  -- `toISO8601` of a time point; a conversion that fails gives the empty text.
  unfoldable pub to_iso8601 : ℤ → Bytes → Bytes
  to_iso8601 ns timezone = elim (broken_down timezone ns) [
    | none ↦ []
    | some t ↦ date_and_time t (fraction (microseconds ns) ++ zone_text timezone)
  ]

-- `toISO8601` of a `time_t` and microseconds, as a time point.
abbrev pub from_time_t : ℤ → ℤ → ℤ
from_time_t timestamp us = scaled timestamp (10 ^ 9) +ℤ scaled us 1000
  where
    scaled : ℤ → ℕ → ℤ
    scaled (pos n) k = pos (n * k)
    scaled (negsuc n) k = sub_ℕ 0 (suc n * k)

unfoldable pub duration_ms : ℤ → ℤ → ℤ
duration_ms start end = quot (end -ℤ start) (10 ^ 6)

unfoldable pub to_milliseconds_string : ℤ → Bytes
to_milliseconds_string ns = decimal_ℤ (quot ns (10 ^ 6))
