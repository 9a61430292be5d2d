-- ===== src/Transfer/Legacy/Bounds.antt =====
-- The loop over the blocks (src/LegacyTransfer.cpp, `send`): when nothing is left to send, all has
-- been written, and the fuel given is enough.
use alkaidlab_fw.Base.{
  ℕ, zero, suc, ◌+◌, ◌-◌, ◌≤◌, ◌≡◌, refl, sym, arith, ap, ◌∙◌, [], ◌∷◌, ◌++◌, Bool, true, false,
  not, ◌||◌, Bytes, length, take, drop, append_assoc, append-nil, ◌==◌, if◌then◌else◌, if_both,
}
use native.Mathlib.Numerals.{unary_clauses}
use alkaidlab_fw.Transfer.Legacy.{
  Weather, Pumped, pump_blocks, times_out, backpressure_rounds, block_size,
}

take_split :
    (a r : ℕ) (u : Bytes) → a ≤ r → take a u ++ take (r - length (take a u)) (drop a u) ≡ take r u
take_split zero r u fits = ap (λ m. take m u) (sub_zero r)
  where
    sub_zero : (r : ℕ) → r - 0 ≡ r
    sub_zero r = omega arith
take_split (suc a) zero u fits = absurd (omega arith)
take_split (suc a) (suc r) [] fits = simp unary_clauses refl
take_split (suc a) (suc r) (x ∷ u) fits =
    simp unary_clauses (ap (λ (t : Bytes). x ∷ t) (take_split a r u (omega arith)))

length_split : (a : ℕ) (u : Bytes) → length (take a u) + length (drop a u) ≡ length u
length_split zero u = omega arith
length_split (suc a) [] = refl
length_split (suc a) (x ∷ u) = omega (arith, length_split a u)

block_size_le : (n : ℕ) → block_size n ≤ n
block_size_le n = ground arith

-- Nothing is left only where all that was to be sent has been written.
abbrev pub Pays : ℕ → Bytes → Bytes → Pumped → Type 0
Pays n unread written r =
    r.remaining ≡ 0 → (r.written ≡ written ++ take n unread) × (n ≤ length unread)

stopped-Pays :
    (n : ℕ) (timed_out : Bool) (unread written : Bytes)
    → Pays n unread written (record { remaining = n; timed_out = timed_out; written = written })
stopped-Pays zero timed_out unread written h = (sym (append-nil written), omega arith)
stopped-Pays (suc n) timed_out unread written h = absurd (omega (arith, h))

more-Pays :
    (n : ℕ) (unread written : Bytes) (r : Pumped)
    → let chunk = take (block_size n) unread in
      Pays (n - length chunk) (drop (block_size n) unread) (written ++ chunk) r
      → Pays n unread written r
more-Pays n unread written r rest h = (
  (rest h).0
      ∙ append_assoc written _ _
      ∙ ap (λ (t : Bytes). written ++ t) (take_split (block_size n) n unread (block_size_le n)),
  omega (arith, (rest h).1, length_split (block_size n) unread),
)

pump_blocks-Pays :
    (fuel : ℕ) (weather : ℕ → Weather) (i n : ℕ) (good : Bool) (unread written : Bytes)
    → Pays n unread written (pump_blocks fuel weather i n good unread written)
unfolding pump_blocks
pump_blocks-Pays zero weather i n good unread written = stopped-Pays n false unread written
pump_blocks-Pays (suc fuel) weather i n good unread written =
    if_both P (n == 0 || not good) (λ _. stopped-Pays n false unread written)
      (λ busy.
        if_both P (times_out backpressure_rounds 0 (weather i).looks)
          (λ _. stopped-Pays n true unread written)
          (λ _.
            if_both P (not (weather i).is_open) (λ _. stopped-Pays n false unread written)
              (λ _.
                if_both P (length chunk == 0) (λ _. stopped-Pays n false unread written)
                  (λ _.
                    if_both P (not (weather i).accepts || not (weather i).stays_open)
                      (λ _ h. absurd (left n good busy h))
                      (λ _.
                        more-Pays n unread written next
                          (pump_blocks-Pays fuel weather (suc i) _ _ _ _))))))
  where
    P : Pumped → Type 0
    P = Pays n unread written

    chunk : Bytes
    chunk = take (block_size n) unread

    next : Pumped
    next =
        pump_blocks fuel weather (suc i) (n - length chunk) (length chunk == block_size n)
          (drop (block_size n) unread) (written ++ chunk)

    left : (n : ℕ) (good : Bool) → (n == 0 || not good) ≡ false → n ≡ 0 → ⊥
    left n good busy h = ground (arith, busy, h)

-- One more round than bytes changes nothing.
one_more :
    (fuel : ℕ) (weather : ℕ → Weather) (i n : ℕ) (good : Bool) (unread written : Bytes)
    → n ≤ fuel
    → pump_blocks (suc fuel) weather i n good unread written
      ≡ pump_blocks fuel weather i n good unread written
unfolding pump_blocks
one_more zero weather i zero good unread written enough = refl
one_more zero weather i (suc n) good unread written enough = absurd (omega arith)
one_more (suc fuel) weather i n good unread written enough = ap_if (n == 0 || not good) _ _ _ (λ _.
    ap_if (times_out backpressure_rounds 0 (weather i).looks) _ _ _ (λ _.
      ap_if (not (weather i).is_open) _ _ _ (λ _. ap_if (length chunk == 0) _ _ _ (λ some_bytes.
        ap_if (not (weather i).accepts || not (weather i).stays_open) _ _ _ (λ _.
          one_more fuel weather (suc i) (n - length chunk) (length chunk == block_size n)
            (drop (block_size n) unread) (written ++ chunk)
            (fewer_left (length chunk) some_bytes enough))))))
  where
    chunk : Bytes
    chunk = take (block_size n) unread

    ap_if :
        (b : Bool) (x y z : Pumped)
        → (b ≡ false → y ≡ z)
        → (if b then x else y) ≡ (if b then x else z)
    ap_if true x y z h = refl
    ap_if false x y z h = h refl

    fewer_left : (k : ℕ) → (k == 0) ≡ false → n ≤ suc fuel → n - k ≤ fuel
    fewer_left k some_bytes enough = ground (arith, some_bytes, enough)

module _ (weather : ℕ → Weather) (n : ℕ) (u : Bytes) where
  enough_rounds :
      (k : ℕ) → pump_blocks (k + n) weather 0 n true u [] ≡ pump_blocks n weather 0 n true u []
  enough_rounds zero = ap (λ m. pump_blocks m weather 0 n true u []) (zero_add n)
    where
      zero_add : (n : ℕ) → 0 + n ≡ n
      zero_add n = omega arith
  enough_rounds (suc k) =
      ap (λ m. pump_blocks m weather 0 n true u []) (suc_add k n)
      ∙ one_more (k + n) weather 0 n true u [] (omega arith)
      ∙ enough_rounds k
    where
      suc_add : (k n : ℕ) → suc k + n ≡ suc (k + n)
      suc_add k n = omega arith

  -- The loop over the blocks of a file comes to its end in as many rounds as there are bytes to
  -- send: more rounds change nothing. If it leaves nothing to send, which is what `send` reports as
  -- success, the writer has been given exactly the bytes to send, and the file had as many.
  pub pump_blocks_lem :
      (k : ℕ)
      → let r = pump_blocks n weather 0 n true u [] in
        (pump_blocks (k + n) weather 0 n true u [] ≡ r)
        × (r.remaining ≡ 0 → (r.written ≡ take n u) × (n ≤ length u))
  pump_blocks_lem k = (enough_rounds k, pump_blocks-Pays n weather 0 n true u [])
