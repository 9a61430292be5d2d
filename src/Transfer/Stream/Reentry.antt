-- ===== src/Transfer/Stream/Reentry.antt =====
-- A write event inside `WriteBody` (src/StreamTransfer.cpp, `pump`).
use alkaidlab_fw.Base.{
  length-drop, ℕ, zero, suc, ◌-◌, ◌*◌, ◌≤◌, ◌<◌, ◌≡◌, refl, arith, ap, ◌∙◌, List, [], ◌∷◌, ◌++◌,
  true, false, Bytes, length, take, drop, if_false,
}
use alkaidlab_fw.Base.Int.{pos, ◌-ℤ◌, leb_ℤ}
use alkaidlab_fw.Transfer.{TransferStats}
use alkaidlab_fw.Transfer.Stream.{
  Stream, chunk_size, finish, to_read, pump_leave, Event, fired, returned, step, run, start,
}
use alkaidlab_fw.Transfer.Stream.Progress.{going, going_in, busy_in, entered_in, full_round}

-- `k` write events that return one after the other; then the write event of one more block, and
-- the next while that block is still being written.
abbrev pub nested : ℕ → List Event
nested zero = fired true true ∷ fired true true ∷ returned true ∷ returned true ∷ []
nested (suc k) = fired true true ∷ returned true ∷ nested k

module _ (u w : Bytes) (st : TransferStats) (n : ℕ) where
  first_block :
      chunk_size < n
      → n ≤ length u
      → step (fired true true) (going u n w st)
        ≡ going_in 1 (drop chunk_size u) (n - chunk_size) (w ++ take chunk_size u) st
  unfolding start
  first_block large fits =
      entered_in u w st 0 n chunk_size (size n large) (omega arith) (omega arith) (left n large)
      ∙ ap (λ b. busy_in 0 (drop chunk_size u) (pos (n - chunk_size)) b (w ++ take chunk_size u) st)
          (if_false {b = leb_ℤ (pos (n - chunk_size)) (pos 0)} _ _ (above n large))
    where
      size : (n : ℕ) → chunk_size < n → to_read (going u n w st) ≡ chunk_size
      size n large = ground arith

      left : (n : ℕ) → chunk_size < n → pos n -ℤ pos chunk_size ≡ pos (n - chunk_size)
      left n large = ground arith

      above : (n : ℕ) → chunk_size < n → leb_ℤ (pos (n - chunk_size)) (pos 0) ≡ false
      above n large = ground arith

  last_block :
      0 < n
      → n ≤ chunk_size
      → n ≤ length u
      → step (fired true true) (going_in 1 u n w st)
        ≡ busy_in 1 (drop n u) (pos 0) false (w ++ take n u) st
  unfolding start
  last_block some small fits = entered_in u w st 1 n n (size n small) some fits (same n)
    where
      size : (n : ℕ) → n ≤ chunk_size → to_read (going_in 1 u n w st) ≡ n
      size n small = ground arith

      same : (n : ℕ) → pos n -ℤ pos n ≡ pos 0
      same n = ground arith

-- Both calls of `pump` find nothing left behind `WriteBody`.
both_return :
    (u w : Bytes) (st : TransferStats)
    → let s = step (returned true) (step (returned true) (busy_in 1 u (pos 0) false w st)) in
      (s.ends ≡ 2) × (s.completions ≡ true ∷ [])
unfolding step pump_leave finish start
both_return u w st = (refl, refl)

nested_from :
    (k n : ℕ) (u w : Bytes) (st : TransferStats)
    → suc k * chunk_size < n
    → n ≤ suc (suc k) * chunk_size
    → n ≤ length u
    → let s = run (nested k) (going u n w st) in (s.ends ≡ 2) × (s.completions ≡ true ∷ [])
unfolding start
nested_from zero n u w st large small fits =
    let rest = drop chunk_size u in
    let both =
      ap (step (fired true true)) (first_block u w st n (omega (arith, large)) fits)
      ∙ last_block rest (w ++ take chunk_size u) st (n - chunk_size) (omega arith) (omega arith)
          (omega (arith, length-drop chunk_size u)) in
    let final = ap (λ s. step (returned true) (step (returned true) s)) both in
    let told =
      both_return (drop (n - chunk_size) rest)
        ((w ++ take chunk_size u) ++ take (n - chunk_size) rest) st in
    (ap (λ (s : Stream). s.ends) final ∙ told.0, ap (λ (s : Stream). s.completions) final ∙ told.1)
nested_from (suc k) n u w st large small fits =
    let first = full_round u w st n (omega (arith, large)) fits in
    let told =
      nested_from k (n - chunk_size) (drop chunk_size u) (w ++ take chunk_size u) st
        (omega (arith, large)) (omega (arith, small))
        (omega (arith, fits, length-drop chunk_size u)) in
    (
      ap (λ (s : Stream). (run (nested k) s).ends) first ∙ told.0,
      ap (λ (s : Stream). (run (nested k) s).completions) first ∙ told.1,
    )

-- A stream of `n` bytes that fill `k + 1` blocks and no more than one further: if, on an open
-- connection, `k` blocks are written with each `WriteBody` returning before the next write event,
-- and `WriteBody` of the next to last block runs the write event before it returns, the response
-- is ended twice: `End` is called by the inner call of `pump`, which has sent the last block, and
-- again by the outer one. The callback is told only once.
pub nested_ends_twice :
    (content : Bytes) (k n : ℕ) (stats : TransferStats)
    → suc k * chunk_size < n
    → n ≤ suc (suc k) * chunk_size
    → n ≤ length content
    → let s = run (nested k) (start content (pos n) stats) in
      (s.ends ≡ 2) × (s.completions ≡ true ∷ [])
unfolding start
nested_ends_twice content k n stats large small fits =
    nested_from k n content [] stats large small fits
