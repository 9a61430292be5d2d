-- ===== src/LockfreeQueue/Counts.antt =====
-- How far `size` is from the number of items (include/fw/LockfreeQueue.inl).
use alkaidlab_fw.Base.{ℕ, zero, suc, ◌+◌, ◌-◌, ◌%◌, ◌^◌, ◌≤◌, ◌≡◌, refl, arith, some, length}
use alkaidlab_fw.SpscQueue.{double_until}
use alkaidlab_fw.SpscQueue.Capacity.{double_until_ends}
use alkaidlab_fw.LockfreeQueue.{LockfreeQueue, fresh, lockfree_queue}

-- The counters are modulo 2^64 what has been counted of the calls that have succeeded.
abbrev Sized : (items : ℕ) (push_count pop_count pushing popping pushed popped : ℕ) → Type 0
Sized items push_count pop_count pushing popping pushed popped =
    (pushed ≡ popped + items)
    × (pushing ≤ pushed)
    × (popping ≤ popped)
    × (push_count ≡ (pushed - pushing) % 2 ^ 64)
    × (pop_count ≡ (popped - popping) % 2 ^ 64)

abbrev IsSized : {A : Type 0} → LockfreeQueue A → Type 0
IsSized q = Sized (length q.items) q.push_count q.pop_count q.pushing q.popping q.pushed q.popped

capacity_made :
    (request : ℕ) → request ≤ 2 ^ 63 → (capacity : ℕ) × (double_until 65 request 1 ≡ some capacity)
unfolding double_until
capacity_made zero low = (1, refl)
capacity_made (suc n) low =
    let ends = double_until_ends 65 0 (suc n) refl low (omega arith) in (2 ^ ends.0, ends.1)

-- For a request of at most 2^63 the constructor ends.
pub lockfree_queue_ends :
    {A : Type 0} (request : ℕ)
    → request ≤ 2 ^ 63
    → (q : LockfreeQueue A) × (lockfree_queue request ≡ some q)
unfolding lockfree_queue
lockfree_queue_ends request low =
    let (capacity, made) = capacity_made request low in
    (fresh capacity, rw (lockfree_queue, made) refl)
