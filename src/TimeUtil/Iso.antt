-- ===== src/TimeUtil/Iso.antt =====
-- What a reader finds in the text of a time (src/TimeUtil.cpp, `toISO8601`).
use alkaidlab_fw.Base.{
  ℕ, zero, suc, ◌+◌, ◌-◌, ◌/◌, ◌≡◌, refl, sym, ap, ◌∙◌, arith, [], ◌∷◌, ◌++◌, Option, some, false,
  ◌==◌, if◌then◌else◌, if_true, if_false, ◌>>=◌, Bytes, length, replicate, All, All-append, ◌*◌,
  ◌%◌, ◌^◌, ◌≤◌, ◌<◌, none, length-append, length-replicate, ==_refl, ==_iff, Bool-cases, inl, inr,
  leb,
}
use alkaidlab_fw.Base.Int.{ℤ, pos, negsuc, sub_ℕ}
use alkaidlab_fw.Base.Decimal.{
  decimal, is_digit, IsDigit, value_from, value-decimal, decimal-IsDigit, decimal-length,
}
use alkaidlab_fw.TimeUtil.{
  Tm, padded, seconds, microseconds, fraction, date_and_time, broken_down, zone_text, to_iso8601,
  get_system_timezone, quot, rem,
}

-- A reader of such texts: numbers of a fixed count of digits and the separators behind them.
abbrev pub read_digits : ℕ → ℕ → Bytes → Option (ℕ × Bytes)
read_digits zero value s = some (value, s)
read_digits (suc width) value [] = none
read_digits (suc width) value (c ∷ s) =
    let more = read_digits width (value * 10 + (c - b'0')) s in if is_digit c then more else none

abbrev pub expect : ℕ → Bytes → Option Bytes
expect c [] = none
expect c (x ∷ s) = if x == c then some s else none

abbrev pub field : ℕ → ℕ → Bytes → Option (ℕ × Bytes)
field width c s = read_digits width 0 s >>= λ p. expect c p.1 >>= λ rest. some (p.0, rest)

-- A fraction has three digits; there may be none.
abbrev pub read_milliseconds : Bytes → Option (ℕ × Bytes)
read_milliseconds [] = some (0, [])
read_milliseconds (c ∷ s) = if c == b'.' then read_digits 3 0 s else some (0, c ∷ s)

-- The time, its milliseconds, and the text of the zone.
abbrev pub read_time : Bytes → Option (Tm × ℕ × Bytes)
read_time s = field 4 b'-' s >>= λ year. field 2 b'-' year.1 >>= λ month.
    field 2 b'T' month.1 >>= λ day. field 2 b':' day.1 >>= λ hour. field 2 b':' hour.1 >>= λ minute.
    read_digits 2 0 minute.1 >>= λ second. read_milliseconds second.1 >>= λ milliseconds. some (
      record {
        tm_year = year.0 - 1900;
        tm_mon = month.0 - 1;
        tm_mday = day.0;
        tm_hour = hour.0;
        tm_min = minute.0;
        tm_sec = second.0;
      },
      milliseconds.0,
      milliseconds.1,
    )

-- The ranges of the fields, for the years 1900 to 9999.
pub record IsCalendar (t : Tm) : Type 0 where
  pub year_in : t.tm_year + 1900 < 10000
  pub month_in : t.tm_mon < 12
  pub day_in : t.tm_mday ≤ 31
  pub hour_in : t.tm_hour ≤ 23
  pub minute_in : t.tm_min ≤ 59
  pub second_in : t.tm_sec ≤ 60

-- The milliseconds behind the second; a time before 1970 is printed without them.
abbrev pub milliseconds_of : ℤ → ℕ
milliseconds_of (pos ns) = ns / 10 ^ 6 % 1000
milliseconds_of (negsuc ns) = 0

-- A zone that cannot be taken for a fraction.
abbrev pub IsZone : Bytes → Type 0
IsZone [] = ⊥
IsZone (c ∷ zone) = (c == b'.') ≡ false

value-zeros : (k : ℕ) (s : Bytes) → value_from 0 (replicate k 48 ++ s) ≡ value_from 0 s
value-zeros zero s = refl
value-zeros (suc k) s = value-zeros k s

value-padded : (width n : ℕ) → value_from 0 (padded width n) ≡ n
unfolding padded
value-padded width n = value-zeros (width - length (decimal n)) (decimal n) ∙ value-decimal n

zeros-IsDigit : (k : ℕ) → All IsDigit (replicate k 48)
zeros-IsDigit zero = tt
zeros-IsDigit (suc k) = (refl, zeros-IsDigit k)

padded-IsDigit : (width n : ℕ) → All IsDigit (padded width n)
unfolding padded
padded-IsDigit width n = All-append IsDigit _ _ (zeros-IsDigit _) (decimal-IsDigit n)

length-padded : (k n : ℕ) → n < 10 ^ suc k → length (padded (suc k) n) ≡ suc k
unfolding padded
length-padded k n low =
    length-append (replicate (suc k - length (decimal n)) 48) (decimal n)
    ∙ ap (λ z. z + length (decimal n)) (length-replicate (suc k - length (decimal n)) 48)
    ∙ omega (arith, decimal-length k n low)

read_digits-append :
    (value : ℕ) (digits rest : Bytes)
    → All IsDigit digits
    → read_digits (length digits) value (digits ++ rest) ≡ some (value_from value digits, rest)
read_digits-append value [] rest all = refl
read_digits-append value (c ∷ digits) rest all =
    if_true _ _ all.0 ∙ read_digits-append (value * 10 + (c - b'0')) digits rest all.1

read_digits-padded :
    (k n : ℕ) (rest : Bytes)
    → n < 10 ^ suc k
    → read_digits (suc k) 0 (padded (suc k) n ++ rest) ≡ some (n, rest)
read_digits-padded k n rest low =
    ap (λ width. read_digits width 0 (padded (suc k) n ++ rest)) (sym (length-padded k n low))
    ∙ read_digits-append 0 (padded (suc k) n) rest (padded-IsDigit (suc k) n)
    ∙ ap (λ m. some (m, rest)) (value-padded (suc k) n)

field-padded :
    (k c n : ℕ) (rest : Bytes)
    → n < 10 ^ suc k
    → field (suc k) c (padded (suc k) n ++ (c ∷ rest)) ≡ some (n, rest)
field-padded k c n rest low =
    ap (λ o. o >>= λ p. expect c p.1 >>= λ after. some (p.0, after))
      (read_digits-padded k n (c ∷ rest) low)
    ∙ ap (λ o. o >>= λ after. some (n, after)) (if_true (some rest) none (==_refl c))

plus_minus : (n k : ℕ) → n + k - k ≡ n
plus_minus n k = omega arith

read_date_and_time :
    (t : Tm) (rest : Bytes)
    → IsCalendar t
    → read_time (date_and_time t rest) ≡ (read_milliseconds rest >>= λ ms. some (t, ms.0, ms.1))
unfolding date_and_time
read_date_and_time t rest v =
    rw
      (
        field-padded 3 b'-' (t.tm_year + 1900) _ v.year_in,
        field-padded 1 b'-' (t.tm_mon + 1) _ (omega (arith, v.month_in)),
        field-padded 1 b'T' t.tm_mday _ (omega (arith, v.day_in)),
        field-padded 1 b':' t.tm_hour _ (omega (arith, v.hour_in)),
        field-padded 1 b':' t.tm_min _ (omega (arith, v.minute_in)),
        read_digits-padded 1 t.tm_sec rest (omega (arith, v.second_in)),
      )
      (ap
          (λ year. read_milliseconds rest >>= λ ms.
            some (record t { tm_year = year; tm_mon = t.tm_mon + 1 - 1 }, ms.0, ms.1))
          (plus_minus t.tm_year 1900)
        ∙ ap
            (λ month.
              read_milliseconds rest >>= λ ms. some (record t { tm_mon = month }, ms.0, ms.1))
            (plus_minus t.tm_mon 1))

read_no_fraction : (zone : Bytes) → IsZone zone → read_milliseconds zone ≡ some (0, zone)
read_no_fraction [] named = absurd named
read_no_fraction (c ∷ zone) named = if_false _ _ named

read_fraction :
    (us : ℕ) (zone : Bytes)
    → us < 10 ^ 6
    → IsZone zone
    → read_milliseconds (fraction (pos us) ++ zone) ≡ some (us / 1000, zone)
unfolding fraction
read_fraction us zone low named = elim (Bool-cases (us / 1000 == 0)) [
  | inl none_left ↦ rw none_left (
      read_no_fraction zone named
      ∙ ap (λ n. some (n, zone)) (sym ((==_iff (us / 1000) 0).0 none_left)))
  | inr some_left ↦ rw some_left (read_digits-padded 2 (us / 1000) zone (omega (arith, low)))
]

fraction_below : (k : ℕ) → fraction (sub_ℕ 0 k) ≡ []
unfolding fraction
fraction_below k = elim (Bool-cases (leb k 0)) [
  | inl none_left ↦
      let gone : 0 - k ≡ 0 = omega arith in rw none_left (ap (λ n. fraction (pos n)) gone)
  | inr some_left ↦ rw some_left refl
]

fraction_of_negative : (k : ℕ) → fraction (quot (sub_ℕ 0 k) 1000) ≡ []
unfolding quot
fraction_of_negative k = elim (Bool-cases (leb k 0)) [
  | inl none_left ↦
      let gone : 0 - k ≡ 0 = omega arith in
      rw none_left (ap (λ n. fraction (pos (n / 1000))) gone ∙ fraction_below 0)
  | inr some_left ↦ rw some_left (fraction_below (suc (k - 0 - 1) / 1000))
]

read_milliseconds-fraction :
    (ns : ℤ) (zone : Bytes)
    → IsZone zone
    → read_milliseconds (fraction (microseconds ns) ++ zone) ≡ some (milliseconds_of ns, zone)
unfolding microseconds quot rem
read_milliseconds-fraction (pos ns) zone named =
    read_fraction (ns % 10 ^ 9 / 1000) zone (omega arith) named
    ∙ ap (λ n. some (n, zone)) (omega arith)
read_milliseconds-fraction (negsuc ns) zone named =
    ap (λ f. read_milliseconds (f ++ zone)) (fraction_of_negative (suc ns % 10 ^ 9))
    ∙ read_no_fraction zone named

to_iso8601_named :
    (localtime gmtime : ℤ → Option Tm) (offset ns : ℤ) (c : ℕ) (timezone : Bytes) (t : Tm)
    → gmtime (seconds ns) ≡ some t
    → to_iso8601 localtime gmtime offset ns (c ∷ timezone)
      ≡ date_and_time t (fraction (microseconds ns) ++ (c ∷ timezone))
unfolding to_iso8601 broken_down zone_text
to_iso8601_named localtime gmtime offset ns c timezone t utc =
    rw
      (
        to_iso8601,
        broken_down,
        zone_text,
        if_false (localtime (seconds ns)) (gmtime (seconds ns)) long,
        utc,
        if_false (get_system_timezone offset) (c ∷ timezone) long,
      )
      refl
  where
    long : (length (c ∷ timezone) == 0) ≡ false
    long = ground arith

-- What `toISO8601` prints for a zone that is given and does not begin with a dot, where `gmtime_r`
-- gives a time in the ranges of its fields and of the years 1900 to 9999, is read back, digit for
-- digit in fields of fixed width, as that time of UTC, the milliseconds behind the second, none of
-- them before 1970, and the zone's text as it was given.
pub to_iso8601-read_time :
    (localtime gmtime : ℤ → Option Tm) (offset ns : ℤ) (timezone : Bytes) (t : Tm)
    → IsZone timezone
    → gmtime (seconds ns) ≡ some t
    → IsCalendar t
    → read_time (to_iso8601 localtime gmtime offset ns timezone)
      ≡ some (t, milliseconds_of ns, timezone)
to_iso8601-read_time localtime gmtime offset ns [] t named utc v = absurd named
to_iso8601-read_time localtime gmtime offset ns (c ∷ timezone) t named utc v =
    ap read_time (to_iso8601_named localtime gmtime offset ns c timezone t utc)
    ∙ read_date_and_time t (fraction (microseconds ns) ++ (c ∷ timezone)) v
    ∙ ap (λ o. o >>= λ ms. some (t, ms.0, ms.1))
        (read_milliseconds-fraction ns (c ∷ timezone) named)
