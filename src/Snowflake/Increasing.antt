-- ===== src/Snowflake/Increasing.antt =====
-- The identifiers of one generator under a clock that does not go back (src/IdUtil.cpp).
use Prim.Native.Nat.{bit_and}
use alkaidlab_fw.Base.{
  ℕ, zero, suc, ◌+◌, ◌%◌, ◌^◌, ◌≤◌, ◌<◌, ◌≡◌, refl, ◌≢◌, arith, List, [], ◌∷◌, All, ◌⊎◌, ◌∙◌, ap₂,
  sym, inl, inr, true, false, Bool-cases, ◌==◌,
}
use alkaidlab_fw.Base.Int.{ℤ, pos, ltb_ℤ, leb_ℤ}
use alkaidlab_fw.Base.Bits.{bit_and-mask}
use alkaidlab_fw.Snowflake.{
  Generator, Outcome, Waited, failed, reached, timed_out, epoch, max_sequence, compose, wait, issue,
  overflowed, same_millisecond, next_id,
}
use alkaidlab_fw.Snowflake.Fields.{compose_mono}

pub sequence-mod : (s : ℕ) → bit_and (s + 1) max_sequence ≡ (s + 1) % 4096
sequence-mod s = bit_and-mask 12 (s + 1)

module _ (clock : ℕ → ℕ) (forward : (i : ℕ) → clock i ≤ clock (suc i))
    (low : (i : ℕ) → clock i < epoch + 2 ^ 41) where
  -- A generator that has issued an identifier in millisecond `t`, no later than reading `i`.
  pub record HasIssued (g : Generator) (t i : ℕ) : Type 0 where
    pub last : g.last_timestamp ≡ pos t
    pub past_epoch : epoch ≤ t
    pub read : t ≤ clock i
    pub datacenter_in : g.datacenter_id ≤ 31
    pub worker_in : g.worker_id ≤ 31
    pub sequence_in : g.sequence ≤ 4095

  abbrev Later : ℕ → Waited → Type 0
  Later last (failed i) = Unit
  Later last (reached t i) = (last < t) × (t ≤ clock i)

  timed_out-Later :
      (i timestamp last : ℕ) → timestamp ≤ clock i → Later last (timed_out i timestamp (pos last))
  timed_out-Later i timestamp last h = elim (Bool-cases (leb_ℤ (pos timestamp) (pos last))) [
    | inl e ↦ rw e tt
    | inr e ↦ rw e (ground arith, h)
  ]

  wait-Later :
      (rounds i timestamp last : ℕ)
      → timestamp ≤ clock i
      → Later last (wait clock rounds i timestamp (pos last))
  unfolding wait
  wait-Later zero i timestamp last h = timed_out-Later i timestamp last h
  wait-Later (suc rounds) i timestamp last h =
      elim (Bool-cases (leb_ℤ (pos timestamp) (pos last))) [
        | inr e ↦ rw e (ground arith, h)
        | inl e ↦ elim (Bool-cases (ltb_ℤ (pos (clock i)) (pos last))) [
          | inl back ↦ rw (e, back) tt
          | inr on ↦ rw (e, on) (wait-Later rounds (suc i) (clock i) last (forward i))
        ]
      ]

  -- A call's identifier stands for the state behind the call, and is later than the state before.
  abbrev Follows : Generator → ℕ → Outcome → Type 0
  Follows g t o =
      (t' : ℕ) × HasIssued o.after t' o.reading
      × (o.id ≡ compose t' g.datacenter_id g.worker_id o.after.sequence)
      × ((t < t') ⊎ ((t ≡ t') × (g.sequence < o.after.sequence)))
      × (o.after.datacenter_id ≡ g.datacenter_id)
      × (o.after.worker_id ≡ g.worker_id)

  issued_now :
      {g : Generator} {t i : ℕ} (s j t' : ℕ)
      → HasIssued g t i
      → epoch ≤ t'
      → t' ≤ clock j
      → s ≤ 4095
      → HasIssued (issue g s t' j).after t' j
  issued_now s j t' v e r b = record {
    last = refl;
    past_epoch = e;
    read = r;
    datacenter_in = v.datacenter_in;
    worker_in = v.worker_in;
    sequence_in = b;
  }

  overflowed-Follows :
      (g : Generator) (t i : ℕ) (w : Waited)
      → HasIssued g t i
      → Later t w
      → (overflowed g w).id ≢ 0
      → Follows g t (overflowed g w)
  overflowed-Follows g t i (failed j) v l nz = absurd (nz refl)
  overflowed-Follows g t i (reached t' j) v l nz =
      (t', issued_now 0 j t' v (omega arith) l.1 (omega arith), refl, inl l.0, refl, refl)

  -- The three ways of a call.
  pub next_id-split :
      (g : Generator) (i : ℕ)
      → ((same_millisecond g.last_timestamp (clock i) ≡ false)
          × (next_id clock g i ≡ issue g 0 (clock i) (suc i)))
        ⊎ (((same_millisecond g.last_timestamp (clock i) ≡ true)
              × ((g.sequence + 1) % 4096 ≢ 0)
              × (next_id clock g i ≡ issue g ((g.sequence + 1) % 4096) (clock i) (suc i)))
            ⊎ ((same_millisecond g.last_timestamp (clock i) ≡ true)
                × (next_id clock g i
                    ≡ overflowed g (wait clock 5 (suc i) (clock i) g.last_timestamp))))
  unfolding next_id
  next_id-split g i = elim (Bool-cases (same_millisecond g.last_timestamp (clock i))) [
    | inr other ↦ inl (other, rw other)
    | inl same ↦ elim (Bool-cases ((g.sequence + 1) % 4096 == 0)) [
      | inr more ↦ inr (inl (same, ground arith, rw (same, sequence-mod g.sequence, more)))
      | inl over ↦ inr (inr (same, rw (same, sequence-mod g.sequence, over)))
    ]
  ]

  pub same_millisecond-eq :
      (l : ℤ) (t timestamp : ℕ) → l ≡ pos t → same_millisecond l timestamp ≡ (timestamp == t)
  same_millisecond-eq l t timestamp e = rw e

  next_id-Follows :
      (g : Generator) (t i : ℕ)
      → HasIssued g t i
      → (next_id clock g i).id ≢ 0
      → Follows g t (next_id clock g i)
  next_id-Follows g t i v nz = elim (next_id-split g i) [
    | inl (other, e) ↦ rw e (
      clock i,
      issued_now _ (suc i) (clock i) v (omega arith) (forward i) (omega arith),
      refl,
      inl (ground (arith, same_millisecond-eq g.last_timestamp t (clock i) v.last)),
      refl,
      refl,
    )
    | inr (inl (same, more, e)) ↦ rw e (
      clock i,
      issued_now _ (suc i) (clock i) v (omega arith) (forward i) (omega arith),
      refl,
      inr (ground (arith, same_millisecond-eq g.last_timestamp t (clock i) v.last), omega arith),
      refl,
      refl,
    )
    | inr (inr (same, e)) ↦ rw e (
        overflowed-Follows g t i (wait clock 5 (suc i) (clock i) g.last_timestamp) v
          (rw v.last (wait-Later 5 (suc i) (clock i) t (forward i))) (rw e at nz))
  ]

  -- `n` calls in a row, with what they return.
  unfoldable pub run : ℕ → Generator → ℕ → List ℕ
  run zero g i = []
  run (suc n) g i = let o = next_id clock g i in o.id ∷ run n o.after o.reading

  abbrev pub Above : ℕ → List ℕ → Type 0
  Above p [] = Unit
  Above p (x ∷ xs) = (p < x) × (x < 2 ^ 63) × Above x xs

  abbrev NonZero : ℕ → Type 0
  NonZero x = x ≢ 0

  -- While the clock does not go back and reads less than 2^41 milliseconds behind EPOCH, and no call
  -- fails, the identifiers of a generator that has issued one in millisecond `t`, not before EPOCH,
  -- grow strictly from that one on and stay below 2^63.
  pub run_increasing :
      (n : ℕ) (g : Generator) (t i : ℕ)
      → HasIssued g t i
      → All NonZero (run n g i)
      → Above (compose t g.datacenter_id g.worker_id g.sequence) (run n g i)
  unfolding run
  run_increasing zero g t i v nz = tt
  run_increasing (suc n) g t i v nz =
      let o = next_id clock g i in
      let (t', v', stands, later, d, w) = next_id-Follows g t i v nz.0 in
      let same : o.id ≡ compose t' o.after.datacenter_id o.after.worker_id o.after.sequence =
        stands ∙ ap₂ (λ a b. compose t' a b o.after.sequence) (sym d) (sym w) in
      let below : t' < epoch + 2 ^ 41 = omega (arith, v'.read, low o.reading) in
      let (above, small) =
        compose_mono g.datacenter_id g.worker_id t g.sequence t' o.after.sequence v.datacenter_in
          v.worker_in v.sequence_in v'.sequence_in v.past_epoch below later in
      (rw stands above, rw stands small, rw same (run_increasing n o.after t' o.reading v' nz.1))
