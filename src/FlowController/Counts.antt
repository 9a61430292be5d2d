-- ===== src/FlowController/Counts.antt =====
-- What the counters say after a run of `tryPush` (src/FlowController.cpp).
use alkaidlab_fw.Base.{
  ℕ, suc, ◌+◌, ◌%◌, ◌≡◌, refl, arith, ap, subst, ◌∙◌, List, [], ◌∷◌, Bool, ltb, if◌then◌else◌,
  length,
}
use alkaidlab_fw.FlowController.{
  FlowController, word, bump, flow_controller, can_push, record_drop, try_push,
}

-- One call for each size of the queue, in order.
abbrev pub try_all : List ℕ → FlowController → FlowController
try_all [] f = f
try_all (size ∷ sizes) f = try_all sizes (try_push size f).0

-- How many of the sizes have reached the limit.
abbrev pub count_full : ℕ → List ℕ → ℕ
count_full max [] = 0
count_full max (size ∷ sizes) =
    if ltb size max then count_full max sizes else suc (count_full max sizes)

record Counted (f : FlowController) (attempts drops : ℕ) : Type 0 where
  tried : f.total_push_attempts ≡ attempts % word
  dropped : f.drop_count ≡ drops % word
  dropped_in_total : f.total_drops ≡ drops % word

abbrev refusals : FlowController → List ℕ → ℕ
refusals f sizes = if f.drop_on_full then count_full f.max_queue_size sizes else 0

bump_mod : (a n : ℕ) → a ≡ n % word → bump a ≡ suc n % word
bump_mod a n h = omega (arith, h)

Counted-cast :
    {f : FlowController} {a a' d d' : ℕ} → Counted f a d → a ≡ a' → d ≡ d' → Counted f a' d'
Counted-cast {f = f} {a = a} {d' = d'} h p q =
    subst (λ n. Counted f n d') p (subst (λ n. Counted f a n) q h)

refusals-nil : (f : FlowController) → refusals f [] ≡ 0
refusals-nil f = ground arith

-- What one call adds to the drops.
abbrev refusal : ℕ → FlowController → ℕ
refusal size f = if f.drop_on_full then (if ltb size f.max_queue_size then 0 else 1) else 0

module _ (size : ℕ) (f : FlowController) where
  max-try_push : (try_push size f).0.max_queue_size ≡ f.max_queue_size
  unfolding try_push can_push record_drop
  max-try_push = ground arith

  drop-try_push : (try_push size f).0.drop_on_full ≡ f.drop_on_full
  unfolding try_push can_push record_drop
  drop-try_push = ground arith

  Counted-try_push :
      {a d : ℕ} → Counted f a d → Counted (try_push size f).0 (suc a) (refusal size f + d)
  unfolding try_push can_push record_drop
  Counted-try_push {a = a} {d = d} h = record {
    tried = ground (arith, bump_mod f.total_push_attempts a h.tried);
    dropped = ground (arith, h.dropped, bump_mod f.drop_count d h.dropped);
    dropped_in_total =
        ground (arith, h.dropped_in_total, bump_mod f.total_drops d h.dropped_in_total);
  }

  refusals-step :
      (sizes : List ℕ)
      → refusals (try_push size f).0 sizes + refusal size f ≡ refusals f (size ∷ sizes)
  refusals-step sizes = rw (max-try_push, drop-try_push) (ground arith)

Counted-try_all :
    (sizes : List ℕ) (f : FlowController) {attempts drops : ℕ}
    → Counted f attempts drops
    → Counted (try_all sizes f) (length sizes + attempts) (refusals f sizes + drops)
Counted-try_all [] f h = Counted-cast h (omega arith) (omega (arith, refusals-nil f))
Counted-try_all (size ∷ sizes) f h =
    Counted-cast (Counted-try_all sizes (try_push size f).0 (Counted-try_push size f h))
      (omega arith) (omega (arith, refusals-step size f sizes))

-- After a run of `tryPush` on a new controller the attempts are counted modulo 2^64, and so are the
-- sizes that had reached the limit, by both counters of drops, if the controller is to drop;
-- otherwise no drop is counted.
pub try_all_lem :
    (max : ℕ) (drop : Bool) (sizes : List ℕ)
    → ((try_all sizes (flow_controller max drop)).total_push_attempts ≡ length sizes % word)
      × ((try_all sizes (flow_controller max drop)).drop_count
          ≡ (if drop then count_full max sizes else 0) % word)
      × ((try_all sizes (flow_controller max drop)).total_drops
          ≡ (if drop then count_full max sizes else 0) % word)
unfolding flow_controller
try_all_lem max drop sizes =
    let counted =
      Counted-try_all sizes (flow_controller max drop) {attempts = 0} {drops = 0}
        (record { tried = refl; dropped = refl; dropped_in_total = refl }) in
    (
      counted.tried ∙ ap (λ n. n % word) (omega arith),
      counted.dropped ∙ ap (λ n. n % word) (omega arith),
      counted.dropped_in_total ∙ ap (λ n. n % word) (omega arith),
    )
