-- ===== src/Transfer/Stream/Sound.antt =====
-- What holds of a stream after any sequence of events (src/StreamTransfer.cpp, `pump`, `finish`).
use alkaidlab_fw.Base.{
  take-drop, length-take, ℕ, zero, suc, ◌+◌, ◌-◌, ◌≤◌, ◌<◌, ◌≡◌, ◌⊎◌, inl, inr, refl, sym, arith,
  ap, ◌∙◌, List, [], ◌∷◌, ◌++◌, Bool, true, false, Bytes, length, take, drop, append_assoc,
  length-append, subst, if_true, if_false, Bool-cases, ◌==◌, if◌then◌else◌, not,
}
use alkaidlab_fw.Base.Int.{ℤ, pos, negsuc, pos_part, ◌-ℤ◌, leb_ℤ, ltb_ℤ}
use alkaidlab_fw.Transfer.{TransferStats, record_end}
use alkaidlab_fw.Transfer.Stream.{
  Stream, chunk_size, finish, to_read, write_chunk, pump_enter, pump_leave, Event, fired, returned,
  destroyed, step, run, start,
}

-- How far the stream of a file's `content`, of which `n` bytes are to be sent, has come: the bytes
-- given to the writer and the unread ones are the content, and the counter is what is left of `n`.
-- `finish` has told the callback once, and success only with nothing left.
pub record IsSound (content : Bytes) (n : ℕ) (s : Stream) : Type 0 where
  pub split : s.written ++ s.unread ≡ content
  pub left : (r : ℕ) × (s.remaining ≡ pos r) × (r + length s.written ≡ n)
  pub told :
      ((s.finished ≡ false) × (s.completions ≡ []))
      ⊎ (((s.finished ≡ true) × (s.hooked ≡ false))
          × ((s.completions ≡ false ∷ [])
              ⊎ ((s.completions ≡ true ∷ []) × ((s.remaining ≡ pos 0) × (0 < s.ends)))))

-- What `finish` does the first time.
abbrev pub closed : Bool → Stream → Stream
closed success s = record s {
  finished = true;
  hooked = false;
  completions = s.completions ++ (success ∷ []);
  stats = record_end success s.stats;
}

pub finish-going : (b : Bool) (s : Stream) → s.finished ≡ false → finish b s ≡ closed b s
unfolding finish
finish-going b s h = if_false _ _ h

pub finish-over : (b : Bool) (s : Stream) → s.finished ≡ true → finish b s ≡ s
unfolding finish
finish-over b s h = if_true _ _ h

module _ (content : Bytes) (n : ℕ) where
  finish-IsSound :
      (success : Bool) (s : Stream)
      → IsSound content n s
      → (success ≡ true → (s.remaining ≡ pos 0) × (0 < s.ends))
      → IsSound content n (finish success s)
  finish-IsSound success s h paid = elim h.told [
    | inl going ↦ subst (IsSound content n) (sym (finish-going success s going.0)) (record {
      split = h.split;
      left = h.left;
      told = inr ((refl, refl), ended success going.1 paid);
    })
    | inr over ↦ subst (IsSound content n) (sym (finish-over success s over.0.0)) h
  ]
    where
      ended :
          (b : Bool)
          → s.completions ≡ []
          → (b ≡ true → (s.remaining ≡ pos 0) × (0 < s.ends))
          → (s.completions ++ (b ∷ []) ≡ false ∷ [])
            ⊎ ((s.completions ++ (b ∷ []) ≡ true ∷ []) × ((s.remaining ≡ pos 0) × (0 < s.ends)))
      ended true none_yet paid = inr (ap (λ (l : List Bool). l ++ (true ∷ [])) none_yet, paid refl)
      ended false none_yet paid = inl (ap (λ (l : List Bool). l ++ (false ∷ [])) none_yet)

  fail-IsSound : (s : Stream) → IsSound content n s → IsSound content n (finish false s)
  fail-IsSound s h = finish-IsSound false s h (λ e. absurd cc)

  not_told : {s : Stream} → IsSound content n s → s.finished ≡ false → s.completions ≡ []
  not_told h going = elim h.told [
    | inl going_on ↦ going_on.1
    | inr over ↦ absurd (both_absurd going over.0.0)
  ]
    where
      both_absurd : {b : Bool} → b ≡ false → b ≡ true → ⊥
      both_absurd p q = cc

  -- Some unread bytes, no more than the counter, go to the writer.
  write_chunk-IsSound :
      (chunk rest : Bytes) (s : Stream)
      → IsSound content n s
      → s.finished ≡ false
      → chunk ++ rest ≡ s.unread
      → length chunk ≤ pos_part s.remaining
      → IsSound content n (write_chunk chunk (record s { unread = rest }))
  unfolding write_chunk
  write_chunk-IsSound chunk rest s h going parts few =
      let (r, counter, total) = h.left in
      record {
        split =
            append_assoc s.written chunk rest ∙ ap (λ (t : Bytes). s.written ++ t) parts ∙ h.split;
        left = (
          r - length chunk,
          ap (λ z. z -ℤ pos (length chunk)) counter ∙ sub_pos r (length chunk) (fits r counter few),
          omega (arith, length-append s.written chunk, total, fits r counter few),
        );
        told = inl (going, not_told h going);
      }
    where
      sub_pos : (a b : ℕ) → b ≤ a → pos a -ℤ pos b ≡ pos (a - b)
      sub_pos a b le = ground arith

      fits : (r : ℕ) → s.remaining ≡ pos r → length chunk ≤ pos_part s.remaining → length chunk ≤ r
      fits r e le = subst (λ z. length chunk ≤ pos_part z) e le

  to_read-le : (s : Stream) → to_read s ≤ pos_part s.remaining
  to_read-le s = go s.remaining
    where
      go : (z : ℤ) → pos_part (if ltb_ℤ z (pos chunk_size) then z else pos chunk_size) ≤ pos_part z
      go (pos r) = ground arith
      go (negsuc r) = ground arith

  skip-IsSound :
      {rest : Bytes} (s : Stream)
      → IsSound content n s
      → rest ≡ s.unread
      → IsSound content n (record s { unread = rest })
  skip-IsSound s h e = record {
    split = ap (λ (t : Bytes). s.written ++ t) e ∙ h.split;
    left = h.left;
    told = h.told;
  }

  length_zero : (xs : Bytes) → (length xs == 0) ≡ true → xs ≡ []
  length_zero [] h = refl
  length_zero (x ∷ xs) h = ground arith

  pump_enter-IsSound :
      (connected complete : Bool) (s : Stream)
      → IsSound content n s
      → IsSound content n (pump_enter connected complete s)
  unfolding pump_enter
  pump_enter-IsSound connected complete s h = elim (Bool-cases s.finished) [
    | inl over ↦ subst (IsSound content n) (sym (if_true _ _ over)) h
    | inr going ↦ subst (IsSound content n) (sym (if_false _ _ going)) (go connected complete going)
  ]
    where
      chunk : Bytes
      chunk = take (to_read s) s.unread

      after : Stream
      after = record s { unread = drop (to_read s) s.unread }

      parts : chunk ++ drop (to_read s) s.unread ≡ s.unread
      parts = take-drop (to_read s) s.unread

      go :
          (connected complete : Bool)
          → s.finished ≡ false
          → IsSound content n (
              if not connected
              then finish false s
              else if not complete
              then s
              else if length chunk == 0
              then finish false after
              else write_chunk chunk after)
      go false complete going = fail-IsSound s h
      go true false going = h
      go true true going = elim (Bool-cases (length chunk == 0)) [
        | inl none_left ↦ subst (IsSound content n) (sym (if_true _ _ none_left)) (
            fail-IsSound after (
              skip-IsSound s h (
                ap (λ (t : Bytes). t ++ drop (to_read s) s.unread)
                  (sym (length_zero chunk none_left))
                ∙ parts)))
        | inr some_left ↦ subst (IsSound content n) (sym (if_false _ _ some_left)) (
            write_chunk-IsSound chunk (drop (to_read s) s.unread) s h going parts
              (omega (arith, length-take (to_read s) s.unread, to_read-le s)))
      ]

  record_ends-IsSound :
      (s : Stream) → IsSound content n s → IsSound content n (record s { ends = suc s.ends })
  record_ends-IsSound s h = record {
    split = h.split;
    left = h.left;
    told = elim h.told [
      | inl going_on ↦ inl going_on
      | inr (over, inl failed) ↦ inr (over, inl failed)
      | inr (over, inr (done, (zero_left, ends))) ↦ inr (over, inr (done, (zero_left, omega arith)))
    ];
  }

  pump_leave-IsSound :
      (ok : Bool) (s : Stream) → IsSound content n s → IsSound content n (pump_leave ok s)
  unfolding pump_leave
  pump_leave-IsSound false s h = fail-IsSound s h
  pump_leave-IsSound true s h = elim (Bool-cases (leb_ℤ s.remaining (pos 0))) [
    | inl done ↦ subst (IsSound content n) (sym (if_true _ _ done)) (
        finish-IsSound true (record s { ends = suc s.ends }) (record_ends-IsSound s h)
          (λ e. (nothing_left h.left.0 h.left.1 done, omega arith)))
    | inr more ↦ subst (IsSound content n) (sym (if_false _ _ more)) h
  ]
    where
      nothing_left :
          (r : ℕ) → s.remaining ≡ pos r → leb_ℤ s.remaining (pos 0) ≡ true → s.remaining ≡ pos 0
      nothing_left r e le = e ∙ zero_of r (subst (λ z. leb_ℤ z (pos 0) ≡ true) e le)
        where
          zero_of : (r : ℕ) → leb_ℤ (pos r) (pos 0) ≡ true → pos r ≡ pos 0
          zero_of r h = ground arith

  step-IsSound : (e : Event) (s : Stream) → IsSound content n s → IsSound content n (step e s)
  unfolding step
  step-IsSound (fired connected complete) s h = elim (Bool-cases s.hooked) [
    | inl set ↦
        subst (IsSound content n) (sym (if_true _ _ set))
          (pump_enter-IsSound connected complete s h)
    | inr clear ↦ subst (IsSound content n) (sym (if_false _ _ clear)) h
  ]
  step-IsSound (returned ok) s h = go s.waiting
    where
      go :
          (w : ℕ)
          → IsSound content n
              (elim w [ zero ↦ s | suc m ↦ pump_leave ok (record s { waiting = m }) ])
      go zero = h
      go (suc m) =
          pump_leave-IsSound ok (record s { waiting = m })
            (record { split = h.split; left = h.left; told = h.told })
  step-IsSound destroyed s h = go s.waiting
    where
      go : (w : ℕ) → IsSound content n (elim w [ zero ↦ finish false s | suc m ↦ s ])
      go zero = fail-IsSound s h
      go (suc m) = h

  run-IsSound : (es : List Event) (s : Stream) → IsSound content n s → IsSound content n (run es s)
  run-IsSound [] s h = h
  run-IsSound (e ∷ es) s h = run-IsSound es (step e s) (step-IsSound e s h)

-- Whatever the event loop does with a stream that was started on a file to send `n` of its bytes,
-- lost connections, failed writes and calls of `pump` inside `WriteBody` included: what the writer
-- was given and what is unread are the file's bytes in order, no more than `n` are given, and the
-- callback hears of the end once at most, of success only when all `n` bytes were given and `End`
-- was called.
pub start-run-IsSound :
    (content : Bytes) (n : ℕ) (stats : TransferStats) (es : List Event)
    → IsSound content n (run es (start content (pos n) stats))
unfolding start
start-run-IsSound content n stats es =
    run-IsSound content n es (start content (pos n) stats)
      (record { split = refl; left = (n, refl, omega arith); told = inl (refl, refl) })
