-- ===== src/AtomicCounter.antt =====
-- The counter of src/AtomicCounter.cpp and include/fw/AtomicCounter.hpp. An `int64_t` is its word
-- in two's complement, a number below 2^64; each call is one step, and gives the counter behind it
-- and the word returned.
pub mod Total
use alkaidlab_fw.Base.{ℕ, ◌+◌, ◌-◌, ◌%◌, ◌^◌}

abbrev pub word : ℕ
word = 2 ^ 64

-- `a - b` of words.
abbrev pub minus : ℕ → ℕ → ℕ
minus a b = (a + (word - b % word)) % word

-- `fetch_add(delta) + delta`
unfoldable pub add : ℕ → ℕ → ℕ × ℕ
add delta v = ((v + delta) % word, (v + delta) % word)

unfoldable pub sub : ℕ → ℕ → ℕ × ℕ
sub delta v = (minus v delta, minus v delta)

unfoldable pub set_counter : ℕ → ℕ → ℕ
set_counter value v = value

unfoldable pub reset : ℕ → ℕ
reset v = 0

unfoldable pub increment : ℕ → ℕ × ℕ
increment v = add 1 v

unfoldable pub increment_after : ℕ → ℕ × ℕ
increment_after v = ((add 1 v).0, minus (add 1 v).1 1)

unfoldable pub decrement : ℕ → ℕ × ℕ
decrement v = sub 1 v

unfoldable pub decrement_after : ℕ → ℕ × ℕ
decrement_after v = ((sub 1 v).0, ((sub 1 v).1 + 1) % word)
