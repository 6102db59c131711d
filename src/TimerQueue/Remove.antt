-- ===== src/TimerQueue/Remove.antt =====
-- How heapPop and heapDelete of src/net/TimerQueue.cpp take a timer out of the heap: its slot gets the
-- last timer, and the heap gets shorter.
use libsaf.Common.{
  ℕ, suc, ◌-◌, ◌<◌, ◌≡◌, ◌≢◌, ◌↔◌, sym, ap, ◌∙◌, arith, Result, Returns, Returns-bind, ◌>>=◌,
  if◌then◌else◌, ◌==◌, length, length-take,
}
use libsaf.TimerQueue.{TimerQueue, heap_swap, pop_back}
use libsaf.TimerQueue.Slots.{
  at, at-take, body, stamp, IsIndexed, distinct, Swapped, heap_swap-Swapped,
}
use libsaf.TimerQueue.Order.{key, stamp-body, Holds}

pub record Detached (q : TimerQueue) (pos : ℕ) (q' : TimerQueue) : Type 0 where
  pub indexed : IsIndexed q'
  pub size : suc (length q'.heap) ≡ length q.heap
  pub bodies : (p : ℕ) → body q'.objects p ≡ body q.objects p
  pub keys : q'.timers ≡ q.timers
  pub count : q'.counter ≡ q.counter
  pub times :
      (c : ℕ)
      → c < length q'.heap
      → key q' c ≡ (if pos == c then key q (length q.heap - 1) else key q c)
  pub holds : (p : ℕ) → Holds q'.heap p ↔ (Holds q.heap p × (at q.heap pos ≢ p))

module _ (q : TimerQueue) (pos : ℕ) (v : IsIndexed q) (pp : 0 < pos)
    (lp : pos < length q.heap) where
  abbrev last : ℕ
  last = length q.heap - 1

  module _ (q₁ : TimerQueue) (s : Swapped q pos last q₁) where
    rest-size : length (pop_back q₁).heap ≡ last
    unfolding pop_back
    rest-size = rw length-take (omega (arith, s.size))

    rest-at : (c : ℕ) → c < last → at (pop_back q₁).heap c ≡ at q₁.heap c
    unfolding pop_back
    rest-at c l = at-take (length q₁.heap - 1) q₁.heap c (omega (arith, s.size))

    rest-slot :
        (c : ℕ)
        → c < last
        → at (pop_back q₁).heap c ≡ (if pos == c then at q.heap last else at q.heap c)
    rest-slot c l = rest-at c l ∙ ground (arith, s.slots c)

    rest-IsIndexed : IsIndexed (pop_back q₁)
    rest-IsIndexed c pc lc =
        rw (rest-at c (omega (arith, rest-size)))
          (unfold pop_back in s.indexed c pc (omega (arith, rest-size, s.size)))

    rest-bodies : (p : ℕ) → body (pop_back q₁).objects p ≡ body q.objects p
    unfolding pop_back
    rest-bodies p = s.bodies p

    rest-times :
        (c : ℕ)
        → c < length (pop_back q₁).heap
        → key (pop_back q₁) c ≡ (if pos == c then key q last else key q c)
    unfolding key
    rest-times c l =
        stamp-body q (pop_back q₁) rest-bodies (at (pop_back q₁).heap c)
        ∙ ap (stamp q.objects) (rest-slot c (omega (arith, rest-size)))
        ∙ ground arith

    rest-Holds : (p : ℕ) → Holds (pop_back q₁).heap p ↔ (Holds q.heap p × (at q.heap pos ≢ p))
    rest-Holds p = (
      λ (i, pi, li, e).
          let l : i < last = omega (arith, rest-size) in
          let j = if pos == i then last else i in
          let pj : 0 < j = ground arith in
          let lj : j < length q.heap = ground arith in
          let other : pos ≢ j = ground arith in
          let there : at q.heap j ≡ p = ground (arith, rest-slot i l) in
          ((j, pj, lj, there), λ here. other (distinct q pos j v pp lp pj lj (here ∙ sym there))),
      λ ((i, pi, li, e), n).
          let other : pos ≢ i = λ same. n (ap (at q.heap) same ∙ e) in
          let j = if last == i then pos else i in
          let pj : 0 < j = ground arith in
          let lj : j < last = ground arith in
          (j, pj, omega (arith, rest-size), ground (arith, rest-slot j lj)),
    )

    rest-Detached : Detached q pos (pop_back q₁)
    rest-Detached = record {
      indexed = rest-IsIndexed;
      size = omega (arith, rest-size);
      bodies = rest-bodies;
      keys = unfold pop_back in s.keys;
      count = unfold pop_back in s.count;
      times = rest-times;
      holds = rest-Holds;
    }

  -- The swap and the cut.
  pub swap_out-Detached :
      {A : Type 0} {P : A → Type 0} (f : TimerQueue → Result A)
      → ((q₁ : TimerQueue)
          → at q₁.heap last ≡ at q.heap pos
          → length q₁.heap ≡ length q.heap
          → Detached q pos (pop_back q₁)
          → Returns P (f q₁))
      → Returns P (heap_swap q pos last >>= f)
  swap_out-Detached f k =
      Returns-bind (heap_swap-Swapped q pos last v pp lp (omega arith) (omega arith))
        λ q₁ s. k q₁ (ground (arith, s.slots last)) s.size (rest-Detached q₁ s)
