-- ===== src/Snowflake/Repeats.antt =====
-- Where the generator issues an identifier twice (src/IdUtil.cpp): its waiting loop reads the clock
-- five times without a pause, and a failure leaves sequence 0 with the old millisecond; and a clock
-- that has gone back is noticed in that loop only.
use alkaidlab_fw.Base.{
  ℕ, zero, suc, ◌+◌, ◌%◌, ◌≤◌, ◌<◌, ◌≡◌, refl, ◌≢◌, arith, ap, ◌∙◌, true, false, ◌==◌, ==_refl, ap₂,
}
use alkaidlab_fw.Base.Int.{ℤ, pos, negsuc}
use alkaidlab_fw.Snowflake.{
  Generator, failed, compose, wait, issue, overflowed, same_millisecond, next_id,
}
use alkaidlab_fw.Snowflake.Increasing.{sequence-mod}

not_same :
    (l : ℤ) (t timestamp : ℕ) → l ≢ pos t → timestamp ≡ t → same_millisecond l timestamp ≡ false
not_same (negsuc n) t timestamp h e = refl
not_same (pos last) t timestamp h e = ground arith

module _ (clock : ℕ → ℕ) where
  -- The generator and the number of the next reading after `n` calls.
  unfoldable pub after : ℕ → Generator → ℕ → Generator × ℕ
  after zero g i = (g, i)
  after (suc n) g i =
      let (g', j) = after n g i in let o = next_id clock g' j in (o.after, o.reading)

  other_millisecond :
      (g : Generator) (i : ℕ)
      → same_millisecond g.last_timestamp (clock i) ≡ false
      → next_id clock g i ≡ issue g 0 (clock i) (suc i)
  unfolding next_id
  other_millisecond g i e = rw e

  -- Where the clock reads millisecond `t`, then another, then `t` again, and `t` is not the generator's
  -- last millisecond before, the first and the third of the calls issue the same identifier: the
  -- sequence number starts at 0 each time, whichever way the clock has moved.
  pub backward_repeats :
      (g : Generator) (i t u : ℕ)
      → g.last_timestamp ≢ pos t
      → clock i ≡ t
      → clock (suc i) ≡ u
      → clock (suc (suc i)) ≡ t
      → t ≢ u
      → (let o = next_id clock g i in
          let p = next_id clock o.after o.reading in
          let q = next_id clock p.after p.reading in q.id ≡ o.id)
  backward_repeats g i t u l a b c ne = rw (
    other_millisecond g i (not_same g.last_timestamp t (clock i) l a),
    other_millisecond (issue g 0 (clock i) (suc i)).after (suc i) (ground arith),
    other_millisecond (issue g 0 (clock (suc i)) (suc (suc i))).after (suc (suc i)) (ground arith),
    a,
    c,
  )

  module _ (t : ℕ) (stands : (i : ℕ) → clock i ≡ t) where
    stopped_test :
        (g : Generator) (i : ℕ)
        → g.last_timestamp ≡ pos t
        → same_millisecond g.last_timestamp (clock i) ≡ true
    stopped_test g i l = rw (l, stands i) (==_refl t)

    stopped-step :
        (g : Generator) (i : ℕ)
        → g.last_timestamp ≡ pos t
        → g.sequence < 4095
        → next_id clock g i ≡ issue g (suc g.sequence) t (suc i)
    unfolding next_id
    stopped-step g i l s =
        let counted : (g.sequence + 1) % 4096 ≡ suc g.sequence = omega arith in
        let running : (suc g.sequence == 0) ≡ false = ground arith in
        rw (stopped_test g i l, sequence-mod g.sequence, counted, running)
          (ap (λ now. issue g (suc g.sequence) now (suc i)) (stands i))

    wait_stopped : (rounds j : ℕ) → (k : ℕ) × (wait clock rounds j t (pos t) ≡ failed k)
    unfolding wait
    wait_stopped zero j = (j, ground arith)
    wait_stopped (suc rounds) j =
        let rest = wait_stopped rounds (suc j) in
        (
          rest.0,
          ground (
            arith,
            stands j,
            ap (λ now. wait clock rounds (suc j) now (pos t)) (stands j),
            rest.1,
          ),
        )

    stopped-overflow :
        (g : Generator) (i : ℕ)
        → g.last_timestamp ≡ pos t
        → g.sequence ≡ 4095
        → (k : ℕ) × (next_id clock g i ≡ overflowed g (failed k))
    unfolding next_id
    stopped-overflow g i l s =
        let over : (g.sequence + 1) % 4096 ≡ 0 = omega arith in
        let rest = wait_stopped 5 (suc i) in
        (
          rest.0,
          rw (stopped_test g i l, sequence-mod g.sequence, over)
              (ap (overflowed g)
                (ap₂ (λ now last. wait clock 5 (suc i) now last) (stands i) l ∙ rest.1)),
        )

    abbrev Counted : Generator → ℕ → Generator → Type 0
    Counted g n g' =
        (g'.sequence ≡ n)
        × (g'.last_timestamp ≡ pos t)
        × (g'.datacenter_id ≡ g.datacenter_id)
        × (g'.worker_id ≡ g.worker_id)

    after-Counted :
        (n : ℕ) (g : Generator) (i : ℕ) → Counted g 0 g → n ≤ 4095 → Counted g n (after n g i).0
    unfolding after
    after-Counted zero g i c h = c
    after-Counted (suc n) g i c h =
        let before = after-Counted n g i c (omega arith) in
        rw (stopped-step (after n g i).0 (after n g i).1 before.1 (omega (arith, before.0)))
          (ap suc before.0, refl, before.2, before.3)

    full_repeats :
        (g : Generator) (i : ℕ)
        → g.last_timestamp ≡ pos t
        → g.sequence ≡ 4095
        → (let failure = next_id clock g i in
            (failure.id ≡ 0)
            × ((next_id clock failure.after failure.reading).id
                ≡ compose t g.datacenter_id g.worker_id 1))
    full_repeats g i l s =
        let (k, e) = stopped-overflow g i l s in
        rw e (refl, rw (stopped-step (overflowed g (failed k)).after k l (omega arith)))

    -- On a clock that stays in millisecond `t`, a generator that has issued the identifier with
    -- sequence 0 in it issues the one with sequence 1 next; the call after the one with sequence
    -- 4095 fails with 0; and the call behind that failure issues the one with sequence 1 again.
    pub overflow_repeats :
        (g : Generator) (i : ℕ)
        → g.last_timestamp ≡ pos t
        → g.sequence ≡ 0
        → ((next_id clock g i).id ≡ compose t g.datacenter_id g.worker_id 1)
          × (let (g', j) = after 4095 g i in
              let failure = next_id clock g' j in
              (failure.id ≡ 0)
              × ((next_id clock failure.after failure.reading).id
                  ≡ compose t g.datacenter_id g.worker_id 1))
    overflow_repeats g i l z = (first, (tail.0, again))
      where
        first : (next_id clock g i).id ≡ compose t g.datacenter_id g.worker_id 1
        first =
            rw (stopped-step g i l (omega arith))
              (ap (λ n. compose t g.datacenter_id g.worker_id (suc n)) z)

        full : Counted g 4095 (after 4095 g i).0
        full = after-Counted 4095 g i (z, l, refl, refl) (omega arith)

        tail :
            (let (g', j) = after 4095 g i in
              let failure = next_id clock g' j in
              (failure.id ≡ 0)
              × ((next_id clock failure.after failure.reading).id
                  ≡ compose t g'.datacenter_id g'.worker_id 1))
        tail = full_repeats (after 4095 g i).0 (after 4095 g i).1 full.1 full.0

        again :
            (let (g', j) = after 4095 g i in
              let failure = next_id clock g' j in
              (next_id clock failure.after failure.reading).id
              ≡ compose t g.datacenter_id g.worker_id 1)
        again = tail.1 ∙ ap₂ (λ d w. compose t d w 1) full.2 full.3
