-- ===== src/Transfer/Stream/Progress.antt =====
-- A stream on a good connection ends (src/StreamTransfer.cpp, `pump`).
use alkaidlab_fw.Base.{
  length-drop, ℕ, zero, suc, ◌+◌, ◌-◌, ◌*◌, ◌≤◌, ◌<◌, ◌≡◌, inl, inr, refl, sym, subst, arith, ap,
  ap₂, ◌∙◌, List, [], ◌∷◌, ◌++◌, Bool, true, false, Bytes, length, take, drop, append_assoc,
  le_or_lt, ◌==◌, if◌then◌else◌, if_false,
}
use alkaidlab_fw.Base.Int.{ℤ, pos, ◌-ℤ◌, leb_ℤ}
use alkaidlab_fw.Transfer.{TransferStats, record_end}
use alkaidlab_fw.Transfer.Stream.{
  Stream, chunk_size, finish, to_read, write_chunk, pump_enter, pump_leave, Event, fired, returned,
  step, run, start,
}

-- The write event `k` times, each on an open connection with an empty buffer, and each block
-- accepted.
abbrev pub rounds : ℕ → List Event
rounds zero = []
rounds (suc k) = fired true true ∷ returned true ∷ rounds k

-- A stream between two events, one whose block is being written, and one that has succeeded.
abbrev pub going_in : ℕ → Bytes → ℕ → Bytes → TransferStats → Stream
going_in j u r w st = record (start u (pos r) st) { waiting = j; written = w }

abbrev pub going : Bytes → ℕ → Bytes → TransferStats → Stream
going = going_in 0

abbrev pub busy_in : ℕ → Bytes → ℤ → Bool → Bytes → TransferStats → Stream
busy_in j u z hook w st = record (start u z st) { hooked = hook; waiting = suc j; written = w }

abbrev busy : Bytes → ℤ → Bool → Bytes → TransferStats → Stream
busy = busy_in 0

abbrev succeeded : Bytes → Bytes → TransferStats → Stream
succeeded u w st = record {
  unread = u;
  remaining = pos 0;
  finished = true;
  hooked = false;
  waiting = 0;
  written = w;
  ends = 1;
  completions = true ∷ [];
  stats = record_end true st;
}

pub length-take_of_le : {A : Type 0} (k : ℕ) (xs : List A) → k ≤ length xs → length (take k xs) ≡ k
length-take_of_le zero xs h = refl
length-take_of_le (suc k) [] h = absurd (omega arith)
length-take_of_le (suc k) (x ∷ xs) h = ap suc (length-take_of_le k xs (omega arith))

take_parts :
    {A : Type 0} (c m : ℕ) (xs : List A) {n : ℕ}
    → n ≡ c + m
    → take c xs ++ take m (drop c xs) ≡ take n xs
take_parts zero m xs e = ap (λ t. take t xs) (omega arith)
take_parts (suc c) m xs {n = zero} e = absurd (omega arith)
take_parts (suc c) zero [] {n = suc n} e = refl
take_parts (suc c) (suc m) [] {n = suc n} e = refl
take_parts (suc c) m (x ∷ xs) {n = suc n} e = ap (λ t. x ∷ t) (take_parts c m xs (omega arith))

drop_parts :
    {A : Type 0} (c m : ℕ) (xs : List A) {n : ℕ} → n ≡ c + m → drop m (drop c xs) ≡ drop n xs
drop_parts zero m xs e = ap (λ t. drop t xs) (omega arith)
drop_parts (suc c) m xs {n = zero} e = absurd (omega arith)
drop_parts (suc c) zero [] {n = suc n} e = refl
drop_parts (suc c) (suc m) [] {n = suc n} e = refl
drop_parts (suc c) m (x ∷ xs) {n = suc n} e = drop_parts c m xs (omega arith)

module _ (u w : Bytes) (st : TransferStats) where
  -- The event up to `WriteBody`, with a block of `k` bytes, where `j` calls
  -- of `pump` wait in `WriteBody` already.
  pub entered_in :
      (j r k : ℕ) {z : ℤ}
      → to_read (going_in j u r w st) ≡ k
      → 0 < k
      → k ≤ length u
      → pos r -ℤ pos k ≡ z
      → step (fired true true) (going_in j u r w st)
        ≡ busy_in j (drop k u) z (if leb_ℤ z (pos 0) then false else true) (w ++ take k u) st
  unfolding step pump_enter write_chunk start
  entered_in j r k {z = z} size some fits left =
      subst
        (λ t.
          (if length (take t u) == 0
            then finish false (record (going_in j u r w st) { unread = drop t u })
            else write_chunk (take t u) (record (going_in j u r w st) { unread = drop t u }))
          ≡ busy_in j (drop k u) z (if leb_ℤ z (pos 0) then false else true) (w ++ take k u) st)
        (sym size)
        (if_false {b = length (take k u) == 0} _ _ (ground (arith, taken))
          ∙ ap
              (λ t.
                busy_in j (drop k u) t (if leb_ℤ t (pos 0) then false else true) (w ++ take k u) st)
              (ap (λ l. pos r -ℤ pos l) taken ∙ left))
    where
      taken : length (take k u) ≡ k
      taken = length-take_of_le k u fits

  last_round :
      (r : ℕ)
      → 0 < r
      → r ≤ chunk_size
      → r ≤ length u
      → step (returned true) (step (fired true true) (going u r w st))
        ≡ succeeded (drop r u) (w ++ take r u) st
  unfolding step pump_leave finish start
  last_round r some small fits =
      ap (step (returned true)) (entered_in 0 r r (size r small) some fits (same r))
    where
      size : (r : ℕ) → r ≤ chunk_size → to_read (going u r w st) ≡ r
      size r small = ground arith

      same : (r : ℕ) → pos r -ℤ pos r ≡ pos 0
      same r = ground arith

  more_left :
      (m : ℕ)
      → 0 < m
      → step (returned true) (busy u (pos m) (if leb_ℤ (pos m) (pos 0) then false else true) w st)
        ≡ going u m w st
  unfolding step pump_leave start
  more_left m some =
      ap (λ b. step (returned true) (busy u (pos m) b w st)) (if_false _ _ (above m some))
      ∙ if_false _ _ (above m some)
    where
      above : (m : ℕ) → 0 < m → leb_ℤ (pos m) (pos 0) ≡ false
      above m some = ground arith

module _ (u w : Bytes) (st : TransferStats) where
  pub full_round :
      (r : ℕ)
      → chunk_size < r
      → r ≤ length u
      → step (returned true) (step (fired true true) (going u r w st))
        ≡ going (drop chunk_size u) (r - chunk_size) (w ++ take chunk_size u) st
  unfolding start
  full_round r large fits =
      ap (step (returned true))
        (entered_in u w st 0 r chunk_size (size r large) (omega arith) (omega arith) (left r large))
      ∙ more_left (drop chunk_size u) (w ++ take chunk_size u) st (r - chunk_size) (omega arith)
    where
      size : (r : ℕ) → chunk_size < r → to_read (going u r w st) ≡ chunk_size
      size r large = ground arith

      left : (r : ℕ) → chunk_size < r → pos r -ℤ pos chunk_size ≡ pos (r - chunk_size)
      left r large = ground arith

-- Events on a stream that has succeeded change nothing.
idle_rounds :
    (k : ℕ) (u w : Bytes) (st : TransferStats)
    → run (rounds k) (succeeded u w st) ≡ succeeded u w st
unfolding step
idle_rounds zero u w st = refl
idle_rounds (suc k) u w st = idle_rounds k u w st

rounds_succeed :
    (k r : ℕ) (u w : Bytes) (st : TransferStats)
    → 0 < r
    → r ≤ k * chunk_size
    → r ≤ length u
    → run (rounds k) (going u r w st) ≡ succeeded (drop r u) (w ++ take r u) st
rounds_succeed zero r u w st some enough fits = absurd (omega arith)
rounds_succeed (suc k) r u w st some enough fits = elim (le_or_lt r chunk_size) [
  | inl small ↦
      ap (run (rounds k)) (last_round u w st r some small fits)
      ∙ idle_rounds k (drop r u) (w ++ take r u) st
  | inr large ↦
      let rest = r - chunk_size in
      ap (run (rounds k)) (full_round u w st r large fits)
      ∙ rounds_succeed k rest (drop chunk_size u) (w ++ take chunk_size u) st (omega arith)
          (omega arith) (omega (arith, length-drop chunk_size u))
      ∙ ap₂ (λ a b. succeeded a b st) (drop_parts chunk_size rest u (omega arith))
          (append_assoc w (take chunk_size u) (take rest (drop chunk_size u))
            ∙ ap (λ t. w ++ t) (take_parts chunk_size rest u (omega arith)))
]

-- A stream of a file that has the `n` bytes to be sent ends within `k` write events, where `k`
-- blocks hold `n` bytes, if the connection stays open, the buffer is empty at each event, no write
-- fails, and each `WriteBody` returns before the next write event: the callback is told of success,
-- `End` is called once, and the writer was given the first `n` bytes.
pub start-rounds :
    (content : Bytes) (n k : ℕ) (stats : TransferStats)
    → 0 < n
    → n ≤ k * chunk_size
    → n ≤ length content
    → let s = run (rounds k) (start content (pos n) stats) in
      (s.completions ≡ true ∷ []) × (s.ends ≡ 1) × (s.written ≡ take n content)
unfolding start
start-rounds content n k stats some enough fits =
    let final = rounds_succeed k n content [] stats some enough fits in
    (
      ap (λ (s : Stream). s.completions) final,
      ap (λ (s : Stream). s.ends) final,
      ap (λ (s : Stream). s.written) final,
    )
