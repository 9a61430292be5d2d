-- ===== src/SpscQueue/Refine.antt =====
-- The ring's calls are those of a bounded queue (include/fw/SPSCQueue.inl).
use alkaidlab_fw.Base.{
  ℕ, suc, ◌≡◌, refl, ◌≢◌, arith, List, [], ◌∷◌, Option, none, some, Bool, true, ◌==◌, if◌then◌else◌,
  get_or, ap, Bool-cases, inl, inr,
}
use alkaidlab_fw.SpscQueue.{Ring, push, pop, size, bump}
use alkaidlab_fw.SpscQueue.Valid.{IsValid, next, next_index-lem, push-IsValid, pop-IsValid}
use alkaidlab_fw.SpscQueue.Fifo.{
  contents, length-contents, put, take_first, full_iff, push-pushed, contents-pushed,
}

module _ {ℓ} {A : Type ℓ} (d : A) where
  -- push refuses an item exactly if `capacity - 1` items are queued, and then changes none of them;
  -- otherwise the item is queued last.
  pub push_refines :
      (x : A) {q : Ring A}
      → IsValid q
      → (let (q', done) = push d x q in (contents d q', done)) ≡ put d q.capacity x (contents d q)
  push_refines x {q} v = elim (Bool-cases (next q.capacity q.write_pos == q.read_pos)) [
    | inl full ↦
        rw (push-pushed d x v, full, length-contents d q, ← full_at, full) (unfold size in refl)
    | inr room ↦
        rw (push-pushed d x v, room, length-contents d q, ← full_at, room)
          (ap (λ items. (items, true)) (contents-pushed d x v (λ e. ground arith)))
  ]
    where
      full_at : (next q.capacity q.write_pos == q.read_pos) ≡ (suc (size d q) == q.capacity)
      full_at = unfold size in full_iff d q.capacity q.read_pos q.write_pos v.read_in v.write_in

  popped : Ring A → Ring A
  popped q = record q { read_pos = next q.capacity q.read_pos; pop_count = bump q.pop_count }

  pop-popped :
      {q : Ring A}
      → IsValid q
      → pop d q ≡ (
          if q.read_pos == q.write_pos
          then (q, none)
          else (popped q, some (get_or q.buffer q.read_pos d)))
  unfolding pop popped
  pop-popped {q} v = rw (next_index-lem d q.read_pos v v.read_in)

  size-zero : (q : Ring A) → q.read_pos ≡ q.write_pos → size d q ≡ 0
  unfolding size
  size-zero q e = ground arith

  size-popped :
      {q : Ring A} → IsValid q → q.read_pos ≢ q.write_pos → size d q ≡ suc (size d (popped q))
  unfolding size popped
  size-popped v ne = ground arith

  -- pop fails on the empty queue, and otherwise gives the oldest item and leaves the others.
  pub pop_refines :
      {q : Ring A}
      → IsValid q
      → (let (q', item) = pop d q in (contents d q', item)) ≡ take_first d (contents d q)
  unfolding popped
  pop_refines {q} v = elim (Bool-cases (q.read_pos == q.write_pos)) [
    | inl drained ↦ rw (pop-popped v, drained, size-zero q (ground arith))
    | inr filled ↦ rw (pop-popped v, filled, size-popped v (λ e. ground arith))
  ]

  -- A client's calls, what each returns, and the same calls on the queue of the items.
  pub data Call : Type ℓ where
    puts : A → Call
    gets : Call

  pub data Reply : Type ℓ where
    done : Bool → Reply
    got : Option A → Reply

  unfoldable pub run : List Call → Ring A → List Reply
  run [] q = []
  run (puts x ∷ calls) q = let (q', r) = push d x q in done r ∷ run calls q'
  run (gets ∷ calls) q = let (q', r) = pop d q in got r ∷ run calls q'

  unfoldable pub run_queue : ℕ → List Call → List A → List Reply
  run_queue c [] items = []
  run_queue c (puts x ∷ calls) items =
      let (items', r) = put d c x items in done r ∷ run_queue c calls items'
  run_queue c (gets ∷ calls) items =
      let (items', r) = take_first d items in got r ∷ run_queue c calls items'

  capacity-push : (x : A) (q : Ring A) → (push d x q).0.capacity ≡ q.capacity
  unfolding push
  capacity-push x q = ground arith

  capacity-pop : (q : Ring A) → (pop d q).0.capacity ≡ q.capacity
  unfolding pop
  capacity-pop q = ground arith

  -- No sequence of calls tells a valid ring from a first-in first-out queue that starts with the
  -- ring's items and refuses a push when it holds `capacity - 1`.
  pub run_refines :
      (calls : List Call) {q : Ring A}
      → IsValid q
      → run calls q ≡ run_queue q.capacity calls (contents d q)
  unfolding run run_queue
  run_refines [] v = refl
  run_refines (puts x ∷ calls) {q} v =
      rw (run_refines calls (push-IsValid d x v), ← push_refines x v, capacity-push)
  run_refines (gets ∷ calls) {q} v =
      rw (run_refines calls (pop-IsValid d v), ← pop_refines v, capacity-pop)
