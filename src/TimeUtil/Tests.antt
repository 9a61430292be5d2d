-- ===== src/TimeUtil/Tests.antt =====
-- Times of src/TimeUtil.cpp as text.
use alkaidlab_fw.Base.{arith, ◌≡◌, refl, Option, none, ◌==◌, if◌then◌else◌, some, codes}
use alkaidlab_fw.Base.Int.{ℤ, pos, negsuc}
use alkaidlab_fw.TimeUtil.{
  Tm, to_iso8601, broken_down, zone_text, date_and_time, fraction, microseconds, padded, seconds,
  quot, rem,
}
use alkaidlab_fw.Base.Decimal.{decimal}
use alkaidlab_fw.TimeUtil.Iso.{IsCalendar, read_time, to_iso8601-read_time}

abbrev november : Tm
november = record {
  tm_year = 123;
  tm_mon = 10;
  tm_mday = 14;
  tm_hour = 22;
  tm_min = 13;
  tm_sec = 20;
}

-- The conversions, for the second that the examples ask about.
abbrev at_november : ℤ → Option Tm
at_november (pos n) = if n == 1700000000 then some november else none
at_november (negsuc n) = none

abbrev instant : ℤ
instant = pos 1700000000123456789

to_iso8601_runs :
    to_iso8601 at_november at_november (pos 28800) instant (codes "Z")
    ≡ codes "2023-11-14T22:13:20.123Z"
unfolding to_iso8601 broken_down zone_text date_and_time fraction microseconds padded seconds quot
    rem decimal
to_iso8601_runs = refl

november-IsCalendar : IsCalendar november
november-IsCalendar = record {
  year_in = omega arith;
  month_in = omega arith;
  day_in = omega arith;
  hour_in = omega arith;
  minute_in = omega arith;
  second_in = omega arith;
}

to_iso8601-read_time_example :
    read_time (to_iso8601 at_november at_november (pos 28800) instant (codes "+08:00"))
    ≡ some (november, 123, codes "+08:00")
unfolding seconds quot
to_iso8601-read_time_example =
    to_iso8601-read_time at_november at_november (pos 28800) instant (codes "+08:00") november refl
      refl november-IsCalendar
