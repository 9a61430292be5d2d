-- ===== src/SpscQueue/Threads.antt =====
-- A producer and a consumer of one ring at the same time (include/fw/SPSCQueue.inl, `push` and
-- `pop`): every load and every store is a step of its own, and the steps of the two threads are
-- interleaved in any order. A position that a thread has loaded may be old when it is used.
pub mod Window
pub mod Kept
pub mod Safe
mod Tests
use alkaidlab_fw.Base.{ℕ, ◌≡◌, ◌≢◌, List, [], ◌∷◌, ◌++◌, set, get_or}
use alkaidlab_fw.SpscQueue.{Ring, next_index, bump}

-- Where `push` stands: behind each of its two loads, its store into the buffer, and its store of
-- the position.
pub data Producer (A : Type 0) : Type 0 where
  resting : Producer A
  knows_write : A → ℕ → Producer A
  knows_both : A → ℕ → ℕ → Producer A
  filled : A → ℕ → Producer A
  published : Producer A

-- Where `pop` stands: behind its two loads, its load from the buffer, and its store.
pub data Consumer (A : Type 0) : Type 0 where
  resting : Consumer A
  knows_read : ℕ → Consumer A
  knows_both : ℕ → ℕ → Consumer A
  holds : ℕ → A → Consumer A
  released : Consumer A

-- The ring and the two threads, with the items whose push has been published and those whose
-- cell has been given back by a pop, oldest first.
pub record Threads (A : Type 0) : Type 0 where
  pub ring : Ring A
  pub producer : Producer A
  pub consumer : Consumer A
  pub pushed : List A
  pub popped : List A

unfoldable pub threads : {A : Type 0} → Ring A → Threads A
threads q = record {
  ring = q;
  producer = Producer.resting;
  consumer = Consumer.resting;
  pushed = [];
  popped = [];
}

module _ {A : Type 0} (d : A) where
  -- `m_buffer[currentWrite] = item;`
  unfoldable pub fill : A → ℕ → Threads A → Threads A
  fill x w s = record s {
    ring = record s.ring { buffer = set s.ring.buffer w x };
    producer = filled x w;
  }

  -- `m_writePos.store(nextWrite)`
  unfoldable pub publish : A → ℕ → Threads A → Threads A
  publish x w s = record s {
    ring = record s.ring { write_pos = next_index d w s.ring };
    producer = published;
    pushed = s.pushed ++ (x ∷ []);
  }

  -- `m_readPos.store(nextRead)`
  unfoldable pub release : ℕ → A → Threads A → Threads A
  release r x s = record s {
    ring = record s.ring { read_pos = next_index d r s.ring };
    consumer = released;
    popped = s.popped ++ (x ∷ []);
  }

  pub data Step (s : Threads A) : Threads A → Type 0 where
    begins_push :
        (x : A)
        → s.producer ≡ Producer.resting
        → Step s (record s { producer = knows_write x s.ring.write_pos })
    looks_at_read :
        (x : A) (w : ℕ)
        → s.producer ≡ knows_write x w
        → Step s (record s { producer = Producer.knows_both x w s.ring.read_pos })
    refuses :
        (x : A) (w r : ℕ)
        → s.producer ≡ Producer.knows_both x w r
        → next_index d w s.ring ≡ r
        → Step s (record s {
          ring = record s.ring { drop_count = bump s.ring.drop_count };
          producer = Producer.resting;
        })
    fills :
        (x : A) (w r : ℕ)
        → s.producer ≡ Producer.knows_both x w r
        → next_index d w s.ring ≢ r
        → Step s (fill x w s)
    publishes : (x : A) (w : ℕ) → s.producer ≡ filled x w → Step s (publish x w s)
    counts_push :
        s.producer ≡ published
        → Step s (record s {
          ring = record s.ring { push_count = bump s.ring.push_count };
          producer = Producer.resting;
        })
    begins_pop :
        s.consumer ≡ Consumer.resting → Step s (record s { consumer = knows_read s.ring.read_pos })
    looks_at_write :
        (r : ℕ)
        → s.consumer ≡ knows_read r
        → Step s (record s { consumer = Consumer.knows_both r s.ring.write_pos })
    misses :
        (r w : ℕ)
        → s.consumer ≡ Consumer.knows_both r w
        → r ≡ w
        → Step s (record s { consumer = Consumer.resting })
    takes :
        (r w : ℕ)
        → s.consumer ≡ Consumer.knows_both r w
        → r ≢ w
        → Step s (record s { consumer = holds r (get_or s.ring.buffer r d) })
    releases : (r : ℕ) (x : A) → s.consumer ≡ holds r x → Step s (release r x s)
    counts_pop :
        s.consumer ≡ released
        → Step s (record s {
          ring = record s.ring { pop_count = bump s.ring.pop_count };
          consumer = Consumer.resting;
        })

  pub data Reach (s : Threads A) : Threads A → Type 0 where
    here : Reach s s
    later : {t u : Threads A} → Reach s t → Step t u → Reach s u
