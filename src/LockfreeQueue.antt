-- ===== src/LockfreeQueue.antt =====
-- The queue of include/fw/LockfreeQueue.hpp and include/fw/LockfreeQueue.inl.
-- `boost::lockfree::queue` is a first-in first-out queue whose calls take effect at one point, and
-- whose push may fail; the counters are changed behind such a call, so that the steps of other
-- threads come in between.
pub mod Counts
mod Tests
use alkaidlab_fw.Base.{
  ℕ, zero, suc, ◌+◌, ◌-◌, ◌≡◌, List, [], ◌∷◌, ◌++◌, Option, none, some, Bool, true, false, ltb,
  if◌then◌else◌, length,
}
use alkaidlab_fw.SpscQueue.{bump, double_until}

-- `pushing`, `popping` and `dropping` are the numbers of threads that stand between boost's call
-- and the counter, and `pushed` and `popped` those of the calls of boost's that have succeeded.
pub record LockfreeQueue (A : Type 0) : Type 0 where
  pub items : List A
  pub capacity : ℕ
  pub push_count : ℕ
  pub pop_count : ℕ
  pub drop_count : ℕ
  pub pushing : ℕ
  pub popping : ℕ
  pub dropping : ℕ
  pub pushed : ℕ
  pub popped : ℕ

-- The queue that the constructor makes.
abbrev pub fresh : {A : Type 0} → ℕ → LockfreeQueue A
fresh capacity = record {
  items = [];
  capacity = capacity;
  push_count = 0;
  pop_count = 0;
  drop_count = 0;
  pushing = 0;
  popping = 0;
  dropping = 0;
  pushed = 0;
  popped = 0;
}

-- The constructor; 65 rounds are enough for a request of at most 2^63, and `none` is its loop above.
unfoldable pub lockfree_queue : {A : Type 0} → ℕ → Option (LockfreeQueue A)
lockfree_queue request = elim (double_until 65 request 1) [
  | none ↦ none
  | some capacity ↦ some (fresh capacity)
]

module _ {A : Type 0} where
  -- `push`, of either kind, where boost's call succeeds, and where it does not.
  unfoldable pub enter : A → LockfreeQueue A → LockfreeQueue A
  enter item q = record q {
    items = q.items ++ (item ∷ []);
    pushing = suc q.pushing;
    pushed = suc q.pushed;
  }

  unfoldable pub count_push : ℕ → LockfreeQueue A → LockfreeQueue A
  count_push others q = record q { push_count = bump q.push_count; pushing = others }

  unfoldable pub count_drop : ℕ → LockfreeQueue A → LockfreeQueue A
  count_drop others q = record q { drop_count = bump q.drop_count; dropping = others }

  -- `pop` with its first item and what stands behind it.
  unfoldable pub leave : List A → LockfreeQueue A → LockfreeQueue A
  leave rest q = record q { items = rest; popping = suc q.popping; popped = suc q.popped }

  unfoldable pub count_pop : ℕ → LockfreeQueue A → LockfreeQueue A
  count_pop others q = record q { pop_count = bump q.pop_count; popping = others }

  pub data Step (q : LockfreeQueue A) : LockfreeQueue A → Type 0 where
    enters : (item : A) → Step q (enter item q)
    counts_push : (others : ℕ) → q.pushing ≡ suc others → Step q (count_push others q)
    is_refused : Step q (record q { dropping = suc q.dropping })
    counts_drop : (others : ℕ) → q.dropping ≡ suc others → Step q (count_drop others q)
    leaves : (item : A) (rest : List A) → q.items ≡ item ∷ rest → Step q (leave rest q)
    counts_pop : (others : ℕ) → q.popping ≡ suc others → Step q (count_pop others q)

  pub data Reach (q : LockfreeQueue A) : LockfreeQueue A → Type 0 where
    here : Reach q q
    later : {r s : LockfreeQueue A} → Reach q r → Step r s → Reach q s

  abbrev pub empty : LockfreeQueue A → Bool
  empty q = elim q.items [ [] ↦ true | item ∷ rest ↦ false ]

  -- `size`, which loads the number of pushes from the queue as it stands in `q`, and later that of
  -- the pops from the queue as it stands in `r`.
  unfoldable pub size : LockfreeQueue A → LockfreeQueue A → ℕ
  size q r = if ltb r.pop_count q.push_count then q.push_count - r.pop_count else 0

  -- `clear` of a queue that no other thread uses: a call of `pop` for each item.
  unfoldable pub clear : List A → LockfreeQueue A → LockfreeQueue A
  clear [] q = q
  clear (item ∷ rest) q = clear rest (count_pop q.popping (leave rest q))
