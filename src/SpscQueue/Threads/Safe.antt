-- ===== src/SpscQueue/Threads/Safe.antt =====
-- The ring is a queue between the two threads (include/fw/SPSCQueue.inl, `push` and `pop`).
use alkaidlab_fw.Base.{
  get_or-set_self, ℕ, ◌<◌, ◌≡◌, ◌≢◌, refl, sym, subst, ap, ◌∙◌, arith, List, [], ◌∷◌, ◌++◌, set,
  get_or, length, append_assoc, ◌⊎◌, inl, inr, Bool, true, false, Bool-cases, ◌==◌, ==_iff,
}
use alkaidlab_fw.SpscQueue.{Ring, next_index, size}
use alkaidlab_fw.SpscQueue.Valid.{IsValid, next, next_index-lem}
use alkaidlab_fw.SpscQueue.Fifo.{contents, length-contents, size-lt}
use alkaidlab_fw.SpscQueue.Threads.{
  Producer, knows_write, filled, published, Consumer, knows_read, holds, released, Threads, threads,
  fill, publish, release, Step, begins_push, looks_at_read, refuses, fills, publishes, counts_push,
  begins_pop, looks_at_write, misses, takes, releases, counts_pop, Reach, here, later,
}
use alkaidlab_fw.SpscQueue.Threads.Kept.{
  dist-stale, dist-apart, dist-positive, Produces, Consumes, IsSafe, released_ring, filled-IsValid,
  published-IsValid, released-IsValid, contents-filled, filled-Consumes, contents-published,
  published-Consumes, contents-released, released-Produces,
}

module _ {A : Type 0} (d : A) where
  fill-IsSafe :
      (x : A) (w r : ℕ) (s : Threads A)
      → IsSafe d s
      → s.producer ≡ Producer.knows_both x w r
      → next_index d w s.ring ≢ r
      → IsSafe d (fill d x w s)
  unfolding fill
  fill-IsSafe x w r s h at room =
      let (same, (inside, old)) = subst (Produces d s.ring) at h.produces in
      let v = h.valid in
      let free : next s.ring.capacity s.ring.write_pos ≢ r = λ e. room (
        ap (λ i. next_index d i s.ring) same
        ∙ next_index-lem d s.ring.write_pos v v.write_in
        ∙ e) in
      let spare =
        dist-stale s.ring.capacity s.ring.read_pos s.ring.write_pos r v.read_in v.write_in inside
          old free in
      subst
        (λ i. IsSafe d (record s {
          ring = record s.ring { buffer = set s.ring.buffer i x };
          producer = filled x i;
        }))
        (sym same)
        (record {
          valid = filled-IsValid d s.ring v x;
          order = h.order ∙ ap (λ (t : List A). s.popped ++ t) (sym (contents-filled d s.ring v x));
          produces = (
            refl,
            (
              get_or-set_self s.ring.buffer s.ring.write_pos x d
                  (omega (arith, v.storage, v.write_in)),
              spare,
            ),
          );
          consumes = filled-Consumes d s.ring v x s.consumer h.consumes;
        })

  publish-IsSafe :
      (x : A) (w : ℕ) (s : Threads A)
      → IsSafe d s
      → s.producer ≡ filled x w
      → IsSafe d (publish d x w s)
  unfolding publish
  publish-IsSafe x w s h at =
      let (same, (there, spare)) = subst (Produces d s.ring) at h.produces in
      let v = h.valid in
      let there_now : get_or s.ring.buffer s.ring.write_pos d ≡ x =
        ap (λ i. get_or s.ring.buffer i d) (sym same) ∙ there in
      subst
        (λ i. IsSafe d (record s {
          ring = record s.ring { write_pos = i };
          producer = published;
          pushed = s.pushed ++ (x ∷ []);
        }))
        (sym
          (ap (λ i. next_index d i s.ring) same ∙ next_index-lem d s.ring.write_pos v v.write_in))
        (record {
          valid = published-IsValid d s.ring v;
          order =
              ap (λ (t : List A). t ++ (x ∷ [])) h.order
              ∙ append_assoc s.popped (contents d s.ring) (x ∷ [])
              ∙ ap (λ (t : List A). s.popped ++ t)
                  (ap (λ y. contents d s.ring ++ (y ∷ [])) (sym there_now)
                    ∙ sym (contents-published d s.ring v spare));
          produces = tt;
          consumes = published-Consumes d s.ring v spare s.consumer h.consumes;
        })

  release-IsSafe :
      (r : ℕ) (x : A) (s : Threads A)
      → IsSafe d s
      → s.consumer ≡ holds r x
      → IsSafe d (release d r x s)
  unfolding release
  release-IsSafe r x s h at =
      let (same, (some_items, there)) = subst (Consumes d s.ring) at h.consumes in
      let v = h.valid in
      subst
        (λ i. IsSafe d (record s {
          ring = record s.ring { read_pos = i };
          consumer = released;
          popped = s.popped ++ (x ∷ []);
        }))
        (sym (ap (λ i. next_index d i s.ring) same ∙ next_index-lem d s.ring.read_pos v v.read_in))
        (record {
          valid = released-IsValid d s.ring v;
          order =
              h.order
              ∙ ap (λ (t : List A). s.popped ++ t)
                  (contents-released d s.ring v some_items
                    ∙ ap (λ (y : A). y ∷ contents d (released_ring d s.ring v)) there)
              ∙ sym (append_assoc s.popped (x ∷ []) (contents d (released_ring d s.ring v)));
          produces = released-Produces d s.ring v some_items s.producer h.produces;
          consumes = tt;
        })

  -- The counters and the threads' own knowledge change, the ring does not.
  move-IsSafe :
      (s : Threads A) (pushes pops drops : ℕ) (p : Producer A) (c : Consumer A)
      → IsSafe d s
      → Produces d s.ring p
      → Consumes d s.ring c
      → IsSafe d (record s {
        ring = record s.ring { push_count = pushes; pop_count = pops; drop_count = drops };
        producer = p;
        consumer = c;
      })
  unfolding size
  move-IsSafe s pushes pops drops p c h knows_p knows_c = record {
    valid = ground (arith, h.valid);
    order = h.order;
    produces = knows_p;
    consumes = knows_c;
  }

  taken :
      (s : Threads A) (r w : ℕ)
      → IsSafe d s
      → s.consumer ≡ Consumer.knows_both r w
      → r ≢ w
      → Consumes d s.ring (holds r (get_or s.ring.buffer r d))
  taken s r w h at ne =
      let (same, (inside, old)) = subst (Consumes d s.ring) at h.consumes in
      let some_items =
        dist-positive s.ring.capacity s.ring.read_pos w h.valid.read_in inside
          (λ e. ne (same ∙ e)) in
      (same, (omega (arith, some_items, old), ap (λ i. get_or s.ring.buffer i d) (sym same)))

  Step-IsSafe : {s t : Threads A} → Step d s t → IsSafe d s → IsSafe d t
  Step-IsSafe {s} (begins_push x at) h = move-IsSafe s _ _ _ _ _ h refl h.consumes
  Step-IsSafe {s} (looks_at_read x w at) h =
      move-IsSafe s _ _ _ _ _ h
        (subst (Produces d s.ring) at h.produces, (h.valid.read_in, omega arith)) h.consumes
  Step-IsSafe {s} (refuses x w r at full) h = move-IsSafe s _ _ _ _ _ h tt h.consumes
  Step-IsSafe {s} (fills x w r at room) h = fill-IsSafe x w r s h at room
  Step-IsSafe {s} (publishes x w at) h = publish-IsSafe x w s h at
  Step-IsSafe {s} (counts_push at) h = move-IsSafe s _ _ _ _ _ h tt h.consumes
  Step-IsSafe {s} (begins_pop at) h = move-IsSafe s _ _ _ _ _ h h.produces refl
  Step-IsSafe {s} (looks_at_write r at) h =
      move-IsSafe s _ _ _ _ _ h h.produces
        (subst (Consumes d s.ring) at h.consumes, (h.valid.write_in, omega arith))
  Step-IsSafe {s} (misses r w at same) h = move-IsSafe s _ _ _ _ _ h h.produces tt
  Step-IsSafe {s} (takes r w at ne) h = move-IsSafe s _ _ _ _ _ h h.produces (taken s r w h at ne)
  Step-IsSafe {s} (releases r x at) h = release-IsSafe r x s h at
  Step-IsSafe {s} (counts_pop at) h = move-IsSafe s _ _ _ _ _ h h.produces tt

  Reach-IsSafe : {s t : Threads A} → Reach d s t → IsSafe d s → IsSafe d t
  Reach-IsSafe here h = h
  Reach-IsSafe (later before step) h = Step-IsSafe step (Reach-IsSafe before h)

  start-IsSafe : (q : Ring A) → IsValid q → contents d q ≡ [] → IsSafe d (threads q)
  unfolding threads
  start-IsSafe q v empty = record { valid = v; order = sym empty; produces = tt; consumes = tt }

  -- An item that a pop holds is the oldest.
  abbrev pub IsOldest : Consumer A → List A → Type 0
  IsOldest (holds r x) items = (rest : List A) × (items ≡ x ∷ rest)
  IsOldest c items = Unit

  -- A push that has loaded both positions finds the ring full, or a pop that has finds it empty, or
  -- they are at different cells.
  abbrev pub IsApart : Ring A → Producer A → Consumer A → Type 0
  IsApart q (Producer.knows_both x w old_read) (Consumer.knows_both r old_write) =
      (next_index d w q ≡ old_read) ⊎ (r ≡ old_write) ⊎ (w ≢ r)
  IsApart q p c = Unit

  oldest :
      (s : Threads A) (c : Consumer A)
      → IsSafe d s
      → s.consumer ≡ c
      → IsOldest c (contents d s.ring)
  oldest s Consumer.resting h at = tt
  oldest s (knows_read r) h at = tt
  oldest s (Consumer.knows_both r w) h at = tt
  oldest s (holds r x) h at =
      let (same, (some_items, there)) = subst (Consumes d s.ring) at h.consumes in
      (
        contents d (released_ring d s.ring h.valid),
        contents-released d s.ring h.valid some_items
            ∙ ap (λ (y : A). y ∷ contents d (released_ring d s.ring h.valid)) there,
      )
  oldest s released h at = tt

  apart_at :
      (s : Threads A) (x : A) (w old_read r old_write : ℕ)
      → IsSafe d s
      → s.producer ≡ Producer.knows_both x w old_read
      → s.consumer ≡ Consumer.knows_both r old_write
      → (next_index d w s.ring ≡ old_read) ⊎ (r ≡ old_write) ⊎ (w ≢ r)
  apart_at s x w old_read r old_write h at at_too = elim (Bool-cases (r == old_write)) [
    | inl same ↦ inr (inl ((==_iff r old_write).0 same))
    | inr other ↦
        let mine = subst (Produces d s.ring) at h.produces in
        let (same, (some_items, there)) =
          taken s r old_write h at_too (λ e. true_false (sym ((==_iff r old_write).1 e) ∙ other)) in
        inr (
          inr (λ e.
            dist-apart s.ring.capacity s.ring.read_pos s.ring.write_pos some_items
              (sym same ∙ sym e ∙ mine.0)))
  ]
    where
      true_false : ◌≡◌ {A = Bool} true false → ⊥
      true_false e = cc

  apart :
      (s : Threads A) (p : Producer A) (c : Consumer A)
      → IsSafe d s
      → s.producer ≡ p
      → s.consumer ≡ c
      → IsApart s.ring p c
  apart s Producer.resting c h at at_too = tt
  apart s (knows_write x w) c h at at_too = tt
  apart s (filled x w) c h at at_too = tt
  apart s published c h at at_too = tt
  apart s (Producer.knows_both x w v) Consumer.resting h at at_too = tt
  apart s (Producer.knows_both x w v) (knows_read r) h at at_too = tt
  apart s (Producer.knows_both x w v) (holds r y) h at at_too = tt
  apart s (Producer.knows_both x w v) released h at at_too = tt
  apart s (Producer.knows_both x w v) (Consumer.knows_both r u) h at at_too =
      apart_at s x w v r u h at at_too

  -- In every state that a producer and a consumer reach from an empty ring, however their loads and
  -- stores are interleaved: the items pushed so far are those popped so far and those in the ring,
  -- in order, fewer than its capacity are in the ring, an item that a pop holds is the oldest in
  -- the ring, and a push that is about to write and a pop that is about to read are at different
  -- cells.
  pub Reach_lem :
      (q : Ring A) {s : Threads A}
      → IsValid q
      → contents d q ≡ []
      → Reach d (threads q) s
      → (s.pushed ≡ s.popped ++ contents d s.ring)
        × (length (contents d s.ring) < s.ring.capacity)
        × IsOldest s.consumer (contents d s.ring)
        × IsApart s.ring s.producer s.consumer
  Reach_lem q {s} v empty reached = (
    h.order,
    subst (λ n. n < s.ring.capacity) (sym (length-contents d s.ring)) (size-lt d h.valid),
    oldest s s.consumer h refl,
    apart s s.producer s.consumer h refl refl,
  )
    where
      h : IsSafe d s
      h = Reach-IsSafe reached (start-IsSafe q v empty)
