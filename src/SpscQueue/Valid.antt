-- ===== src/SpscQueue/Valid.antt =====
-- The representation invariant of the ring (include/fw/SPSCQueue.inl).
use Prim.Native.Nat.{bit_and}
use native.Mathlib.Nat.{mod-eq_of_lt, mod_self}
use alkaidlab_fw.Base.{
  ℕ, ◌+◌, ◌-◌, ◌%◌, ◌^◌, ◌≤◌, ◌<◌, ◌≡◌, refl, arith, some, ltb, if◌then◌else◌, length, length-set,
  length-replicate, replicate, ap, ◌∙◌, sym, Bool-cases, inl, inr,
}
use alkaidlab_fw.Base.Bits.{bit_and-mask, pow_pos}
use alkaidlab_fw.SpscQueue.{Ring, word, pred_size, create, push, pop, next_index, size}
use alkaidlab_fw.SpscQueue.Capacity.{next_power_of_two_lem}

pub record IsValid {ℓ} {A : Type ℓ} (q : Ring A) : Type 0 where
  pub exponent : ℕ
  pub power : q.capacity ≡ 2 ^ exponent
  pub small : q.capacity < word
  pub mask_lem : q.mask ≡ q.capacity - 1
  pub storage : length q.buffer ≡ q.capacity
  pub read_in : q.read_pos < q.capacity
  pub write_in : q.write_pos < q.capacity

-- The position after `p` in a ring of `c` cells.
abbrev pub next : ℕ → ℕ → ℕ
next c p = if ltb (p + 1) c then p + 1 else 0

mod-next : (c p : ℕ) → p < c → (p + 1) % c ≡ next c p
mod-next c p h = elim (Bool-cases (ltb (p + 1) c)) [
  | inl e ↦ rw e (mod-eq_of_lt (ground arith))
  | inr e ↦ let same : p + 1 ≡ c = ground arith in rw e (ap (λ t. t % c) same ∙ mod_self c)
]

module _ {ℓ} {A : Type ℓ} (d : A) where
  -- The mask makes the addition wrap round at the capacity.
  pub next_index-lem :
      {q : Ring A} (p : ℕ) → IsValid q → p < q.capacity → next_index d p q ≡ next q.capacity p
  next_index-lem {q} p v h = masked ∙ ap (λ c. (p + 1) % c) (sym v.power) ∙ mod-next q.capacity p h
    where
      masked : next_index d p q ≡ (p + 1) % 2 ^ v.exponent
      masked =
          ground (arith, bit_and-mask v.exponent (p + 1), ap (bit_and (p + 1)) v.mask_lem, v.power)

  -- What the constructor makes is valid and has the capacity asked for or more, for requests of
  -- at most 2^63.
  pub create-IsValid :
      (n : ℕ)
      → n ≤ 2 ^ 63
      → (q : Ring A) × (create d n ≡ some q) × IsValid q × (n ≤ q.capacity) × (size d q ≡ 0)
  unfolding create size
  create-IsValid n h =
      let (k, chosen, fits, close) = next_power_of_two_lem n h in
      (fresh k, rw chosen, valid k (omega (arith, close)), fits, ground arith)
    where
      fresh : ℕ → Ring A
      fresh k = record {
        buffer = replicate (2 ^ k) d;
        capacity = 2 ^ k;
        mask = pred_size (2 ^ k);
        write_pos = 0;
        read_pos = 0;
        push_count = 0;
        pop_count = 0;
        drop_count = 0;
      }

      valid : (k : ℕ) → 2 ^ k < word → IsValid (fresh k)
      valid k l = record {
        exponent = k;
        power = refl;
        small = l;
        mask_lem = omega (arith, pow_pos k);
        storage = length-replicate (2 ^ k) d;
        read_in = pow_pos k;
        write_in = pow_pos k;
      }

  pub push-IsValid : {q : Ring A} (x : A) → IsValid q → IsValid (push d x q).0
  unfolding push
  push-IsValid {q} x v =
      ground (arith, next_index-lem q.write_pos v, length-set q.buffer q.write_pos x)

  pub pop-IsValid : {q : Ring A} → IsValid q → IsValid (pop d q).0
  unfolding pop
  pop-IsValid {q} v = ground (arith, next_index-lem q.read_pos v)
