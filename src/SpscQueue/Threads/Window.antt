-- ===== src/SpscQueue/Threads/Window.antt =====
-- The cells of the ring that hold items, while the cell behind them is written.
use alkaidlab_fw.Base.{
  ℕ, zero, suc, ◌<◌, ◌≡◌, refl, sym, ap, ap₂, arith, List, [], ◌∷◌, ◌++◌, set, get_or,
  get_or-set_ne,
}
use alkaidlab_fw.SpscQueue.Valid.{next}
use alkaidlab_fw.SpscQueue.Fifo.{dist, dist-next, next-lt, window}

module _ {A : Type 0} (d : A) where
  -- A write behind the items leaves them.
  pub window-set_behind :
      (buffer : List A) (c h w n : ℕ) (x : A)
      → h < c
      → w < c
      → n ≡ dist c h w
      → window d (set buffer w x) c h n ≡ window d buffer c h n
  window-set_behind buffer c h w zero x hc wc e = refl
  window-set_behind buffer c h w (suc n) x hc wc e =
      let facts = dist-next c h w n hc wc e in
      ap₂ ◌∷◌ (get_or-set_ne buffer x d (λ p. facts.0 (sym p)))
        (window-set_behind buffer c (next c h) w n x (next-lt c h hc) wc facts.1)

  -- One more cell is one more item.
  pub window-suc :
      (buffer : List A) (c h w n : ℕ)
      → h < c
      → w < c
      → n ≡ dist c h w
      → window d buffer c h (suc n) ≡ window d buffer c h n ++ (get_or buffer w d ∷ [])
  window-suc buffer c h w zero hc wc e =
      let same : h ≡ w = ground arith in ap (λ i. get_or buffer i d ∷ []) same
  window-suc buffer c h w (suc n) hc wc e =
      let facts = dist-next c h w n hc wc e in
      ap (λ (t : List A). get_or buffer h d ∷ t)
        (window-suc buffer c (next c h) w n (next-lt c h hc) wc facts.1)
