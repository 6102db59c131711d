-- ===== src/TimerQueue/Order.antt =====
-- The order of the heap of src/net/TimerQueue.cpp, and what rearranging it keeps.
use libsaf.Common.{
  ℕ, ◌/◌, ◌≤◌, ◌<◌, ◌≡◌, ◌↔◌, refl, sym, ap, ◌∙◌, arith, true, none, List, if◌then◌else◌, ◌==◌, ok,
  length,
}
use libsaf.TimerQueue.{TimerQueue, get_timestamp}
use libsaf.TimerQueue.Slots.{at, body, due, stamp, IsIndexed, Swapped, get_timestamp-ok}

-- The time of the timer in a slot.
unfoldable pub key : TimerQueue → ℕ → ℕ
key q i = stamp q.objects (at q.heap i)

pub get_timestamp-key :
    (q : TimerQueue) (i : ℕ)
    → IsIndexed q
    → 0 < i
    → i < length q.heap
    → get_timestamp q i ≡ ok (key q i)
unfolding key
get_timestamp-key = get_timestamp-ok

-- No timer comes before the one above it.
abbrev pub IsOrdered : TimerQueue → Type 0
IsOrdered q = (c : ℕ) → 1 < c → c < length q.heap → key q (c / 2) ≤ key q c

-- The heap points to this timer.
abbrev pub Holds : List ℕ → ℕ → Type 0
Holds heap p = (i : ℕ) × (0 < i) × (i < length heap) × (at heap i ≡ p)

-- The same timers, each as it was but for its position, in slots that they know.
pub record Rearranged (q q' : TimerQueue) : Type 0 where
  pub size : length q'.heap ≡ length q.heap
  pub indexed : IsIndexed q'
  pub bodies : (p : ℕ) → body q'.objects p ≡ body q.objects p
  pub keys : q'.timers ≡ q.timers
  pub count : q'.counter ≡ q.counter
  pub holds : (p : ℕ) → Holds q'.heap p ↔ Holds q.heap p

pub stamp-body :
    (q q' : TimerQueue)
    → ((p : ℕ) → body q'.objects p ≡ body q.objects p)
    → (p : ℕ) → stamp q'.objects p ≡ stamp q.objects p
unfolding stamp
stamp-body q q' h p = ap due (h p)

pub Rearranged-refl : (q : TimerQueue) → IsIndexed q → Rearranged q q
Rearranged-refl q v = record {
  size = refl;
  indexed = v;
  bodies = λ p. refl;
  keys = refl;
  count = refl;
  holds = λ p. (λ h. h, λ h. h);
}

pub Rearranged-trans : {q r s : TimerQueue} → Rearranged q r → Rearranged r s → Rearranged q s
Rearranged-trans f g = record {
  size = g.size ∙ f.size;
  indexed = g.indexed;
  bodies = λ p. g.bodies p ∙ f.bodies p;
  keys = g.keys ∙ f.keys;
  count = g.count ∙ f.count;
  holds = λ p. (λ h. (f.holds p).0 ((g.holds p).0 h), λ h. (g.holds p).1 ((f.holds p).1 h));
}

module _ (q : TimerQueue) (a b : ℕ) (pa : 0 < a) (la : a < length q.heap) (pb : 0 < b)
    (lb : b < length q.heap) (q' : TimerQueue) (s : Swapped q a b q') where
  abbrev partner : ℕ → ℕ
  partner c = if b == c then a else if a == c then b else c

  at-partner : (c : ℕ) → at q'.heap c ≡ at q.heap (partner c)
  at-partner c = ground (arith, s.slots c)

  partner-at : (c : ℕ) → at q'.heap (partner c) ≡ at q.heap c
  partner-at c = ground (arith, s.slots a, s.slots b, s.slots c)

  partner_inside :
      (c : ℕ) → 0 < c → c < length q.heap → (0 < partner c) × (partner c < length q.heap)
  partner_inside c pc lc = ground arith

  pub Swapped-Rearranged : Rearranged q q'
  Swapped-Rearranged = record {
    size = s.size;
    indexed = s.indexed;
    bodies = s.bodies;
    keys = s.keys;
    count = s.count;
    holds = λ p. (
      λ (i, pi, li, e).
          let (pj, lj) = partner_inside i pi (omega (arith, s.size)) in
          (partner i, pj, lj, sym (at-partner i) ∙ e),
      λ (i, pi, li, e).
          let (pj, lj) = partner_inside i pi li in
          (partner i, pj, omega (arith, lj, s.size), partner-at i ∙ e),
    );
  }

  -- The keys change places with the timers.
  pub key-Swapped :
      (c : ℕ) → key q' c ≡ (if b == c then key q a else if a == c then key q b else key q c)
  unfolding key
  key-Swapped c =
      stamp-body q q' s.bodies (at q'.heap c) ∙ ap (stamp q.objects) (s.slots c) ∙ ground arith

-- The queue between two calls: the heap is in order, the owning map and the heap hold the same
-- timers, each live and aware of its position, and no fd past the counter is in use.
pub record IsValid (q : TimerQueue) : Type 0 where
  pub indexed : IsIndexed q
  pub ordered : IsOrdered q
  pub slot : 0 < length q.heap
  pub owned : (p : ℕ) → (q.timers p ≡ true) ↔ Holds q.heap p
  pub fresh : (p : ℕ) → q.counter < p → q.objects p ≡ none
