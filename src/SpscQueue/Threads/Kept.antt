-- ===== src/SpscQueue/Threads/Kept.antt =====
-- What a store into the ring, or of a position, leaves to the other thread
-- (include/fw/SPSCQueue.inl).
use alkaidlab_fw.Base.{
  ℕ, suc, ◌≤◌, ◌<◌, ◌≡◌, ◌≢◌, refl, sym, ap, ◌∙◌, arith, [], ◌∷◌, ◌++◌, set, get_or, get_or-set_ne,
  length-set,
}
use alkaidlab_fw.SpscQueue.{Ring, size}
use alkaidlab_fw.SpscQueue.Valid.{IsValid, next}
use alkaidlab_fw.SpscQueue.Fifo.{dist, dist-push, window, contents}
use alkaidlab_fw.SpscQueue.Threads.{
  Producer, knows_write, filled, published, Consumer, knows_read, holds, released, Threads,
}
use alkaidlab_fw.SpscQueue.Threads.Window.{window-set_behind, window-suc}

dist-shrink : (c h w : ℕ) → h < c → w < c → 0 < dist c h w → suc (dist c (next c h) w) ≡ dist c h w
dist-shrink c h w hc wc some_items = ground arith

pub dist-room : (c h w : ℕ) → h < c → w < c → suc (dist c h w) < c → next c w ≢ h
dist-room c h w hc wc room = λ e. ground arith

-- A position that was read earlier leaves less room than there is.
pub dist-stale :
    (c h w r : ℕ)
    → h < c
    → w < c
    → r < c
    → dist c h w ≤ dist c r w
    → next c w ≢ r
    → suc (dist c h w) < c
dist-stale c h w r hc wc rc old room = ground arith

pub dist-apart : (c h w : ℕ) → 0 < dist c h w → h ≢ w
dist-apart c h w some_items = λ e. ground arith

pub dist-positive : (c h w : ℕ) → h < c → w < c → h ≢ w → 0 < dist c h w
dist-positive c h w hc wc ne = ground arith

dist-lt : (c h w : ℕ) → h < c → w < c → dist c h w < c
dist-lt c h w hc wc = ground arith

module _ {A : Type 0} (d : A) where
  abbrev pub queued : Ring A → ℕ
  queued q = dist q.capacity q.read_pos q.write_pos

  -- What the producer knows holds of the ring, its reading position perhaps of an earlier one.
  abbrev pub Produces : Ring A → Producer A → Type 0
  Produces q Producer.resting = Unit
  Produces q (knows_write x w) = w ≡ q.write_pos
  Produces q (Producer.knows_both x w r) =
      (w ≡ q.write_pos) × ((r < q.capacity) × (queued q ≤ dist q.capacity r q.write_pos))
  Produces q (filled x w) =
      (w ≡ q.write_pos) × ((get_or q.buffer w d ≡ x) × (suc (queued q) < q.capacity))
  Produces q published = Unit

  abbrev pub Consumes : Ring A → Consumer A → Type 0
  Consumes q Consumer.resting = Unit
  Consumes q (knows_read r) = r ≡ q.read_pos
  Consumes q (Consumer.knows_both r w) =
      (r ≡ q.read_pos) × ((w < q.capacity) × (dist q.capacity q.read_pos w ≤ queued q))
  Consumes q (holds r x) = (r ≡ q.read_pos) × ((0 < queued q) × (get_or q.buffer q.read_pos d ≡ x))
  Consumes q released = Unit

  pub record IsSafe (s : Threads A) : Type 0 where
    pub valid : IsValid s.ring
    pub order : s.pushed ≡ s.popped ++ contents d s.ring
    pub produces : Produces s.ring s.producer
    pub consumes : Consumes s.ring s.consumer

  module _ (q : Ring A) (v : IsValid q) where
    abbrev pub filled_ring : A → Ring A
    filled_ring x = record q { buffer = set q.buffer q.write_pos x }

    abbrev pub published_ring : Ring A
    published_ring = record q { write_pos = next q.capacity q.write_pos }

    abbrev pub released_ring : Ring A
    released_ring = record q { read_pos = next q.capacity q.read_pos }

    pub filled-IsValid : (x : A) → IsValid (filled_ring x)
    filled-IsValid x = ground (arith, v, length-set q.buffer q.write_pos x)

    pub published-IsValid : IsValid published_ring
    published-IsValid = ground (arith, v)

    pub released-IsValid : IsValid released_ring
    released-IsValid = ground (arith, v)

    pub contents-filled : (x : A) → contents d (filled_ring x) ≡ contents d q
    unfolding size
    contents-filled x =
        window-set_behind d q.buffer q.capacity q.read_pos q.write_pos (queued q) x v.read_in
          v.write_in refl

    pub filled-Consumes : (x : A) (c : Consumer A) → Consumes q c → Consumes (filled_ring x) c
    filled-Consumes x Consumer.resting h = tt
    filled-Consumes x (knows_read r) h = h
    filled-Consumes x (Consumer.knows_both r w) h = h
    filled-Consumes x (holds r y) (same, (some_items, there)) = (
      same,
      (
        some_items,
        get_or-set_ne q.buffer x d
              (λ e. dist-apart q.capacity q.read_pos q.write_pos some_items (sym e))
            ∙ there,
      ),
    )
    filled-Consumes x released h = tt

    pub queued-published : suc (queued q) < q.capacity → queued published_ring ≡ suc (queued q)
    queued-published room =
        dist-push d q.capacity q.read_pos q.write_pos v.read_in v.write_in
          (dist-room q.capacity q.read_pos q.write_pos v.read_in v.write_in room)

    pub contents-published :
        suc (queued q) < q.capacity
        → contents d published_ring ≡ contents d q ++ (get_or q.buffer q.write_pos d ∷ [])
    unfolding size
    contents-published room =
        ap (window d q.buffer q.capacity q.read_pos) (queued-published room)
        ∙ window-suc d q.buffer q.capacity q.read_pos q.write_pos (queued q) v.read_in v.write_in
            refl

    pub published-Consumes :
        suc (queued q) < q.capacity → (c : Consumer A) → Consumes q c → Consumes published_ring c
    published-Consumes room Consumer.resting h = tt
    published-Consumes room (knows_read r) h = h
    published-Consumes room (Consumer.knows_both r w) (same, (inside, old)) =
        (same, (inside, omega (arith, old, queued-published room)))
    published-Consumes room (holds r y) (same, (some_items, there)) =
        (same, (omega (arith, some_items, queued-published room), there))
    published-Consumes room released h = tt

    pub queued-released : 0 < queued q → suc (queued released_ring) ≡ queued q
    queued-released some_items =
        dist-shrink q.capacity q.read_pos q.write_pos v.read_in v.write_in some_items

    pub contents-released :
        0 < queued q → contents d q ≡ get_or q.buffer q.read_pos d ∷ contents d released_ring
    unfolding size
    contents-released some_items =
        ap (window d q.buffer q.capacity q.read_pos) (sym (queued-released some_items))

    pub released-Produces :
        0 < queued q → (p : Producer A) → Produces q p → Produces released_ring p
    released-Produces some_items Producer.resting h = tt
    released-Produces some_items (knows_write x w) h = h
    released-Produces some_items (Producer.knows_both x w r) (same, (inside, old)) =
        (same, (inside, omega (arith, old, queued-released some_items)))
    released-Produces some_items (filled x w) (same, (there, room)) =
        (same, (there, omega (arith, room, queued-released some_items)))
    released-Produces some_items published h = tt
