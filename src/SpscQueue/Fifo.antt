-- ===== src/SpscQueue/Fifo.antt =====
-- The ring behaves as a queue of at most `capacity - 1` items (include/fw/SPSCQueue.inl).
use alkaidlab_fw.Base.{
  ℕ, zero, suc, ◌+◌, ◌-◌, ◌<◌, ◌≡◌, refl, ◌≢◌, arith, List, [], ◌∷◌, ◌++◌, Option, none, some, Bool,
  true, false, leb, ◌==◌, if◌then◌else◌, length, set, get_or, get_or-set_self, get_or-set_ne, ap,
  ap₂, ◌∙◌, sym,
}
use alkaidlab_fw.SpscQueue.{Ring, push, size, bump}
use alkaidlab_fw.SpscQueue.Valid.{IsValid, next, next_index-lem}

-- The number of cells from `h` to `w`, going round at `c`.
abbrev pub dist : ℕ → ℕ → ℕ → ℕ
dist c h w = if leb h w then w - h else c - h + w

pub dist-next :
    (c h w n : ℕ) → h < c → w < c → suc n ≡ dist c h w → (h ≢ w) × (n ≡ dist c (next c h) w)
dist-next c h w n hc wc e = (λ same. ground arith, ground arith)

pub next-lt : (c p : ℕ) → p < c → next c p < c
next-lt c p h = ground arith

module _ {ℓ} {A : Type ℓ} (d : A) where
  -- The `n` items from cell `h` on.
  abbrev pub window : List A → ℕ → ℕ → ℕ → List A
  window buffer c h zero = []
  window buffer c h (suc n) = get_or buffer h d ∷ window buffer c (next c h) n

  -- The queued items, oldest first.
  abbrev pub contents : Ring A → List A
  contents q = window q.buffer q.capacity q.read_pos (size d q)

  length-window : (buffer : List A) (c h n : ℕ) → length (window buffer c h n) ≡ n
  length-window buffer c h zero = refl
  length-window buffer c h (suc n) = ap suc (length-window buffer c (next c h) n)

  window-set :
      (buffer : List A) (c h w n : ℕ) (x : A)
      → length buffer ≡ c
      → h < c
      → w < c
      → n ≡ dist c h w
      → window (set buffer w x) c h (suc n) ≡ window buffer c h n ++ (x ∷ [])
  window-set buffer c h w zero x l hc wc e =
      let same : h ≡ w = ground arith in
      ap (λ (y : A). y ∷ [])
        (ap (λ i. get_or (set buffer w x) i d) same ∙ get_or-set_self buffer w x d (omega arith))
  window-set buffer c h w (suc n) x l hc wc e =
      let facts = dist-next c h w n hc wc e in
      ap₂ ◌∷◌ (get_or-set_ne buffer x d (λ p. facts.0 (sym p)))
        (window-set buffer c (next c h) w n x l (next-lt c h hc) wc facts.1)

  pub length-contents : (q : Ring A) → length (contents q) ≡ size d q
  length-contents q = length-window q.buffer q.capacity q.read_pos (size d q)

  pub size-dist : (q : Ring A) → size d q ≡ dist q.capacity q.read_pos q.write_pos
  unfolding size
  size-dist q = refl

  -- `size` stays below the capacity.
  pub size-lt : {q : Ring A} → IsValid q → size d q < q.capacity
  unfolding size
  size-lt v = ground arith

  -- The queue's own answers: a push into a queue of `capacity - 1` items is refused.
  abbrev pub put : ℕ → A → List A → List A × Bool
  put capacity x items =
      if suc (length items) == capacity then (items, false) else (items ++ (x ∷ []), true)

  abbrev pub take_first : List A → List A × Option A
  take_first [] = ([], none)
  take_first (x ∷ items) = (items, some x)

  pub full_iff : (c h w : ℕ) → h < c → w < c → (next c w == h) ≡ (suc (dist c h w) == c)
  full_iff c h w hc wc = ground arith

  pub dist-push :
      (c h w : ℕ) → h < c → w < c → next c w ≢ h → dist c h (next c w) ≡ suc (dist c h w)
  dist-push c h w hc wc ne = ground arith

  unfoldable pub pushed : A → Ring A → Ring A
  pushed x q = record q {
    buffer = set q.buffer q.write_pos x;
    write_pos = next q.capacity q.write_pos;
    push_count = bump q.push_count;
  }

  pub push-pushed :
      (x : A) {q : Ring A}
      → IsValid q
      → push d x q ≡ (
          if next q.capacity q.write_pos == q.read_pos
          then (record q { drop_count = bump q.drop_count }, false)
          else (pushed x q, true))
  unfolding push pushed
  push-pushed x {q} v = rw (next_index-lem d q.write_pos v v.write_in)

  pub contents-pushed :
      (x : A) {q : Ring A}
      → IsValid q
      → next q.capacity q.write_pos ≢ q.read_pos
      → contents (pushed x q) ≡ contents q ++ (x ∷ [])
  unfolding pushed size
  contents-pushed x {q} v ne =
      rw (dist-push q.capacity q.read_pos q.write_pos v.read_in v.write_in ne) (
        window-set q.buffer q.capacity q.read_pos q.write_pos _ x v.storage v.read_in v.write_in
          refl)
