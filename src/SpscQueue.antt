-- ===== src/SpscQueue.antt =====
-- The single-producer single-consumer ring of include/fw/SPSCQueue.hpp and SPSCQueue.inl, one call
-- at a time. `size_t` and `uint64_t` have 64 bits.
pub mod Capacity
pub mod Valid
pub mod Fifo
pub mod Refine
pub mod Threads
mod Tests
use Prim.Native.Nat.{bit_and}
use alkaidlab_fw.Base.{
  ℕ, zero, suc, ◌+◌, ◌-◌, ◌*◌, ◌%◌, ◌^◌, List, [], ◌∷◌, Option, none, some, Bool, true, false, not,
  ◌&&◌, ltb, leb, ◌==◌, if◌then◌else◌, get_or, set, replicate, ◌>>=◌,
}

abbrev pub word : ℕ
word = 2 ^ 64

-- `n - 1` of a `size_t`
abbrev pub pred_size : ℕ → ℕ
pred_size n = (n + word - 1) % word

unfoldable pub is_power_of_two : ℕ → Bool
is_power_of_two n = not (n == 0) && (bit_and n (pred_size n) == 0)

-- `while (result < n) result <<= 1;` with fuel for the rounds; `none` means that it ran out.
unfoldable pub double_until : ℕ → ℕ → ℕ → Option ℕ
double_until zero n result = none
double_until (suc fuel) n result =
    let more = double_until fuel n (result * 2 % word) in if ltb result n then more else some result

unfoldable pub next_power_of_two : ℕ → ℕ → Option ℕ
next_power_of_two fuel n =
    if n == 0 then some 1 else if is_power_of_two n then some n else double_until fuel n 1

pub record Ring {ℓ} (A : Type ℓ) : Type ℓ where
  pub buffer : List A
  pub capacity : ℕ
  pub mask : ℕ
  pub write_pos : ℕ
  pub read_pos : ℕ
  pub push_count : ℕ
  pub pop_count : ℕ
  pub drop_count : ℕ

-- `fetch_add(1)` of a 64-bit counter
abbrev pub bump : ℕ → ℕ
bump n = (n + 1) % word

-- `d` is the value that `T`'s default constructor makes; 65 rounds of the loop are enough.
module _ {ℓ} {A : Type ℓ} (d : A) where
  -- the constructor
  unfoldable pub create : ℕ → Option (Ring A)
  create requested = do
    capacity ← next_power_of_two 65 requested
    some (record {
      buffer = replicate capacity d;
      capacity = capacity;
      mask = pred_size capacity;
      write_pos = 0;
      read_pos = 0;
      push_count = 0;
      pop_count = 0;
      drop_count = 0;
    })

  -- `(position + 1) & m_mask`
  abbrev pub next_index : ℕ → Ring A → ℕ
  next_index position q = bit_and ((position + 1) % word) q.mask

  unfoldable pub push : A → Ring A → Ring A × Bool
  push item q =
      if next_index q.write_pos q == q.read_pos
      then (record q { drop_count = bump q.drop_count }, false)
      else (
        record q {
          buffer = set q.buffer q.write_pos item;
          write_pos = next_index q.write_pos q;
          push_count = bump q.push_count;
        },
        true,
      )

  unfoldable pub pop : Ring A → Ring A × Option A
  pop q = if q.read_pos == q.write_pos then (q, none) else (
    record q { read_pos = next_index q.read_pos q; pop_count = bump q.pop_count },
    some (get_or q.buffer q.read_pos d),
  )

  unfoldable pub is_empty : Ring A → Bool
  is_empty q = q.read_pos == q.write_pos

  unfoldable pub size : Ring A → ℕ
  size q =
      if leb q.read_pos q.write_pos
      then q.write_pos - q.read_pos
      else q.capacity - q.read_pos + q.write_pos

  -- `while (pop(item)) { }` with fuel
  unfoldable pub clear : ℕ → Ring A → Ring A
  clear zero q = q
  clear (suc fuel) q =
      let (q', item) = pop q in let rest = clear fuel q' in elim item [ none ↦ q' | some _ ↦ rest ]
