-- ===== src/TimerQueue/Fire.antt =====
-- popTimer and checkTimers of src/net/TimerQueue.cpp: which timer fires, when, and what becomes of it.
use libsaf.Common.{
  later, ℕ, ◌≤◌, ◌<◌, ◌≡◌, ◌≢◌, ◌↔◌, inl, inr, refl, sym, ap, subst, ◌∙◌, arith, Bool, true, false,
  none, some, Returns, returns, Returns-bind, Returns-if, leb, ltb→lt, lt→ltb, length, ℕ_discrete,
}
use libsaf.TimerQueue.{
  Timer, Objects, TimerQueue, first_item, update, deref, store, erase, heap_insert, check_timers,
  fire, pop_timer,
}
use libsaf.TimerQueue.Slots.{at, body, body-live, forget_index, body-none, live, stamp}
use libsaf.TimerQueue.Order.{key, get_timestamp-key, IsOrdered, Holds, IsValid}
use libsaf.TimerQueue.Insert.{Inserted, heap_insert-Inserted}
use libsaf.TimerQueue.Erase.{
  changed-IsIndexed, changed-IsOrdered, erase-IsIndexed, erase-order, erase-owned, erase-others,
  erase-freed, erase-fresh,
}
use libsaf.TimerQueue.Pop.{Removed, root_least, heap_pop-Removed}

-- What is left of the timer that has fired: it is armed again, an interval after now, or it is gone.
abbrev pub Outcome : Bool → TimerQueue → ℕ → ℕ → Timer → TimerQueue → Type 0
Outcome true q now fd t q' =
    (body q'.objects fd ≡ some (record t { heap_index = 0; timestamp = later now t.interval }))
    × ((p : ℕ) → Holds q'.heap p ↔ Holds q.heap p)
Outcome false q now fd t q' =
    (q'.objects fd ≡ none) × ((p : ℕ) → Holds q'.heap p ↔ (Holds q.heap p × (fd ≢ p)))

-- One timer has fired, no later than any other of the heap was due.
pub record Fired (q : TimerQueue) (now : ℕ) (r : ℕ × TimerQueue) : Type 0 where
  pub fd : ℕ
  pub timer : Timer
  pub held : Holds q.heap fd
  pub found : body q.objects fd ≡ some (record timer { heap_index = 0 })
  pub earliest : (p : ℕ) → Holds q.heap p → stamp q.objects fd ≤ stamp q.objects p
  pub call : r.0 ≡ timer.callback
  pub valid : IsValid r.1
  pub outcome : Outcome timer.repeated q now fd timer r.1
  pub others : (p : ℕ) → fd ≢ p → body r.1.objects p ≡ body q.objects p

module _ (q : TimerQueue) (v : IsValid q) (some_timer : 1 < length q.heap) where
  abbrev first : ℕ
  first = at q.heap 1

  first-held : Holds q.heap first
  first-held = (1, omega arith, some_timer, refl)

  first-earliest : (p : ℕ) → Holds q.heap p → stamp q.objects first ≤ stamp q.objects p
  first-earliest p (i, pi, li, e) =
      subst (λ r. stamp q.objects first ≤ stamp q.objects r) e
        (unfold key in root_least q i v.ordered pi li)

  module _ (q₁ : TimerQueue) (m : Removed q first q₁) (o : IsOrdered q₁) (t : Timer)
      (found : q₁.objects first ≡ some t) where
    gone : ¬ Holds q₁.heap first
    gone h = ((m.holds first).0 h).1 refl

    slot-kept : 0 < length q₁.heap
    slot-kept = omega (arith, m.size)

    fresh-kept : (p : ℕ) → q₁.counter < p → q₁.objects p ≡ none
    fresh-kept p l =
        body-none q.objects q₁.objects p (m.bodies p) (v.fresh p (omega (arith, m.count)))

    erase-IsValid : IsValid (erase q₁ first)
    erase-IsValid = record {
      indexed = erase-IsIndexed q first q₁ m;
      ordered = (erase-order q first q₁ m).1 o;
      slot = unfold erase in slot-kept;
      owned = erase-owned q first q₁ m v.owned;
      fresh = λ p l. erase-fresh q first q₁ m p (fresh-kept p (unfold erase in l));
    }

    -- The timer with its next time, in memory but not in the heap.
    module _ (now : ℕ) where
      abbrev next : Timer
      next = record t { timestamp = later now t.interval }

      abbrev armed : Objects
      armed = update q₁.objects first (some next)

      armed-same : (p : ℕ) → first ≢ p → armed p ≡ q₁.objects p
      armed-same p n = ground arith

      again-Inserted :
          Returns
            (Inserted (record q₁ { objects = armed }) first)
            (heap_insert (store q₁ first next) first)
      unfolding store
      again-Inserted =
          heap_insert-Inserted (record q₁ { objects = armed }) first t.heap_index
            (changed-IsIndexed q₁ first gone armed armed-same m.indexed)
            (changed-IsOrdered q₁ first gone armed armed-same o) slot-kept (ground arith) gone

      module _ (q' : TimerQueue) (s : Inserted (record q₁ { objects = armed }) first q') where
        again-Holds : (p : ℕ) → Holds q'.heap p ↔ Holds q.heap p
        again-Holds p = (
          λ h. elim ((s.holds p).0 h) [
            | inl old ↦ ((m.holds p).0 old).0
            | inr e ↦ subst (Holds q.heap) e first-held
          ],
          λ h. elim (ℕ_discrete first p) [
            | yes e ↦ (s.holds p).1 (inr e)
            | no n ↦ (s.holds p).1 (inl ((m.holds p).1 (h, n)))
          ],
        )

        again-IsValid : IsValid q'
        again-IsValid = record {
          indexed = s.indexed;
          ordered = s.ordered;
          slot = omega (arith, s.size);
          owned = λ p.
              let keys = s.keys ∙ m.keys in
              (
                λ e.
                    (again-Holds p).1 ((v.owned p).0 (subst (λ (f : ℕ → Bool). f p ≡ true) keys e)),
                λ h.
                    subst (λ (f : ℕ → Bool). f p ≡ true) (sym keys)
                      ((v.owned p).1 ((again-Holds p).0 h)),
              );
          fresh = λ p l.
              let old = fresh-kept p (omega (arith, s.count)) in
              body-none armed q'.objects p (s.bodies p) (ground (arith, found));
        }

    first-body : body q.objects first ≡ some (record t { heap_index = 0 })
    first-body = sym (m.bodies first) ∙ ground (arith, found)

    again-Fired :
        (now : ℕ) (q' : TimerQueue)
        → t.repeated ≡ true
        → Inserted (record q₁ { objects = armed now }) first q'
        → Fired q now (t.callback, q')
    again-Fired now q' again s =
        let kept : body q'.objects first
            ≡ some (record t { heap_index = 0; timestamp = later now t.interval }) =
          s.bodies first ∙ ground arith in
        record {
          fd = first;
          timer = t;
          held = first-held;
          found = first-body;
          earliest = first-earliest;
          call = refl;
          valid = again-IsValid now q' s;
          outcome =
              subst (λ b. Outcome b q now first t q') (sym again) (kept, again-Holds now q' s);
          others = λ p n. s.bodies p ∙ ap forget_index (armed-same now p n) ∙ m.bodies p;
        }

    once-Fired : (now : ℕ) → t.repeated ≡ false → Fired q now (t.callback, erase q₁ first)
    once-Fired now once = record {
      fd = first;
      timer = t;
      held = first-held;
      found = first-body;
      earliest = first-earliest;
      call = refl;
      valid = erase-IsValid;
      outcome =
          subst (λ b. Outcome b q now first t (erase q₁ first)) (sym once)
            (erase-freed q first q₁ m, unfold erase in m.holds);
      others = erase-others q first q₁ m;
    }

    fire-Fired : (now : ℕ) → Returns (Fired q now) (fire q₁ now first t)
    unfolding fire
    fire-Fired now =
        let kept : q₁.timers first ≡ true =
          ap (λ (f : ℕ → Bool). f first) m.keys ∙ (v.owned first).1 first-held in
        Returns-if t.repeated
          (λ again. Returns-bind (again-Inserted now) λ q' s. returns (again-Fired now q' again s))
          (λ once. rw kept (returns (once-Fired now once)))

-- popTimer on a valid queue with a timer does not fault. It calls the callback of a timer that is
-- due no later than any other of the heap. A repeated timer is then armed for its interval after now,
-- in the heap; any other is gone from the heap and from memory. No other timer has changed, and the
-- queue is valid.
pub pop_timer-Fired :
    (q : TimerQueue) (now : ℕ)
    → IsValid q
    → 1 < length q.heap
    → Returns (Fired q now) (pop_timer q now)
unfolding pop_timer deref
pop_timer-Fired q now v l =
    Returns-bind (heap_pop-Removed q v.indexed v.ordered l) λ (r, q₁) (top, m, o).
      let (t₀, before, _) = live q.objects (at q.heap 1) 1 (v.indexed 1 (omega arith) l) in
      let (i, here) =
        body-live q₁.objects (at q.heap 1) (m.bodies (at q.heap 1) ∙ ap forget_index before) in
      let (t, found, _) = live q₁.objects (at q.heap 1) i here in
      rw (top, found) (fire-Fired q v l q₁ m o t found now)

-- checkTimers on a valid queue answers whether some timer of the heap is due.
pub check_timers-due :
    (q : TimerQueue) (now : ℕ)
    → IsValid q
    → Returns
        (λ b. (b ≡ true) ↔ ((p : ℕ) × Holds q.heap p × (stamp q.objects p < now)))
        (check_timers q now)
unfolding check_timers key
check_timers-due q now v =
    Returns-if (leb (length q.heap) first_item)
      (λ e. returns (λ f. cc, λ (p, (i, pi, li, _), _). absurd (ground arith)))
      (λ e.
        let l : 1 < length q.heap = ground arith in
        rw (get_timestamp-key q 1 v.indexed (omega arith) l) (
          returns (
            λ f. (at q.heap 1, first-held q v l, ltb→lt _ _ f),
            λ (p, h, d).
                let least = first-earliest q v l p h in
                lt→ltb (stamp q.objects (at q.heap 1)) now (omega (arith, least, d)),
          )))
