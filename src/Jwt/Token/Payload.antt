-- ===== src/Jwt/Token/Payload.antt =====
-- The claims of a signed payload, as JwtUtil::getExp and JwtUtil::getIat find them.
use alkaidlab_fw.Base.{
  ℕ, ◌^◌, ◌<◌, ◌≡◌, refl, ap, arith, Bytes, [], ◌∷◌, ◌++◌, some, All, find_text,
}
use alkaidlab_fw.Base.Int.{ℤ, pos, ◌+ℤ◌}
use alkaidlab_fw.Base.Decimal.{
  decimal, decimal_ℤ, value-decimal, IsDigit, decimal-IsDigit, decimal-NonEmpty, value_from,
  NonEmpty,
}
use alkaidlab_fw.Jwt.Claims.{claim_in, exp_key, iat_key, drop_blanks, take_digits, stoll_or_zero}
use alkaidlab_fw.Jwt.Token.{payload_text}

-- Digits before a text hold no occurrence of a key that begins with a quote.
find_text-digits :
    (key ds rest : Bytes)
    → All IsDigit ds
    → find_text (b'"' ∷ key) (ds ++ rest) ≡ find_text (b'"' ∷ key) rest
find_text-digits key [] rest h = refl
find_text-digits key (d ∷ ds) rest h = ground (arith, find_text-digits key ds rest h.1)

take_digits-append :
    (ds rest : Bytes) (c : ℕ) → All IsDigit ds → ¬ IsDigit c → take_digits (ds ++ (c ∷ rest)) ≡ ds
take_digits-append [] rest c h stop = ground arith
take_digits-append (d ∷ ds) rest c h stop = ground (arith, take_digits-append ds rest c h.1 stop)

drop_blanks-digits :
    (ds rest : Bytes) → NonEmpty ds → All IsDigit ds → drop_blanks (ds ++ rest) ≡ ds ++ rest
drop_blanks-digits [] rest (c, t, e) h = cc
drop_blanks-digits (d ∷ ds) rest ne h = ground arith

stoll_or_zero-decimal : (n : ℕ) → n < 2 ^ 63 → stoll_or_zero (decimal n) ≡ n
unfolding stoll_or_zero
stoll_or_zero-decimal n h = read (decimal n) (decimal-NonEmpty n) (value-decimal n)
  where
    read : (s : Bytes) → NonEmpty s → value_from 0 s ≡ n → stoll_or_zero s ≡ n
    read [] (c, t, e) v = cc
    read (c ∷ s) ne v = ground arith

-- A printed number behind a claim's colon is read back, whatever follows it.
read_number :
    (n c : ℕ) (rest : Bytes)
    → n < 2 ^ 63
    → ¬ IsDigit c
    → stoll_or_zero (take_digits (drop_blanks (decimal n ++ (c ∷ rest)))) ≡ n
read_number n c rest h stop =
    rw
      (
        drop_blanks-digits (decimal n) (c ∷ rest) (decimal-NonEmpty n) (decimal-IsDigit n),
        take_digits-append (decimal n) rest c (decimal-IsDigit n) stop,
      )
      (stoll_or_zero-decimal n h)

pub iat-payload :
    (now : ℕ) (expire : ℤ) → now < 2 ^ 63 → claim_in iat_key (payload_text now expire) ≡ some now
unfolding claim_in payload_text
iat-payload now expire h = ap some (read_number now b',' _ h (λ e. cc))

pub exp-payload :
    (now : ℕ) (expire : ℤ) (exp : ℕ)
    → pos now +ℤ expire ≡ pos exp
    → exp < 2 ^ 63
    → claim_in exp_key (payload_text now expire) ≡ some exp
unfolding claim_in payload_text decimal_ℤ
exp-payload now expire exp e h =
    rw (e, find_text-digits _ (decimal now) _ (decimal-IsDigit now))
      (ap some (read_number exp b'}' _ h (λ e. cc)))
