-- ===== src/EventLoop/Timers.antt =====
-- EventLoop::runTimers of src/net/EventLoop.cpp, over the timer queue.
--
-- The clock shows `now` while it runs, and the callbacks, which are the results, leave the queue
-- alone. The loop's fuel is two more than the last file descriptor given to a timer.
use libsaf.Common.{
  later, ℕ_discrete, subst, Option, ℤ, pos, negsuc, ℕ, zero, suc, ◌+◌, ◌≤◌, ◌<◌, ◌≡◌, ◌≢◌, ◌↔◌,
  refl, sym, ap, ◌∙◌, arith, Bool, true, false, ◌&&◌, Bool-cases, inl, inr, List, [], ◌∷◌, none,
  some, Result, ok, fault, out_of_fuel, ◌>>=◌, Returns, returns, Returns-bind, Returns-map, ltb,
  ltb→lt, lt→ltb, ltb→le, le→ltb, ap₂, if◌then◌else◌, length,
}
use libsaf.TimerQueue.{Timer, TimerQueue, check_timers, pop_timer}
use libsaf.TimerQueue.Slots.{body, stamp, due, index_of}
use libsaf.TimerQueue.Order.{Holds, IsValid}
use libsaf.TimerQueue.Fire.{Fired, Outcome, pop_timer-Fired, check_timers-due}
use libsaf.EventLoop.Counting.{count, count-le, count-drop}

unfoldable pub run_timers_loop : ℕ → TimerQueue → ℕ → Result (List ℕ × TimerQueue)
run_timers_loop zero q now = fault out_of_fuel
run_timers_loop (suc fuel) q now =
    let round = do
      (call, q') ← pop_timer q now
      (calls, q'') ← run_timers_loop fuel q' now
      ok (call ∷ calls, q'')
    in check_timers q now >>= λ due. if due then round else ok ([], q)

unfoldable pub run_timers : TimerQueue → ℕ → Result (List ℕ × TimerQueue)
unfolding run_timers_loop
run_timers q now = run_timers_loop (q.counter + 2) q now

-- A timer of the queue that is due.
unfoldable pub is_due : TimerQueue → ℕ → ℕ → Bool
is_due q now p = q.timers p && ltb (stamp q.objects p) now

unfoldable pub count_due : TimerQueue → ℕ → ℕ
count_due q now = count (q.counter + 1) (is_due q now)

-- A timer that is not repeated at a negative interval.
abbrev steady : Bool → ℤ → Bool
steady false interval = true
steady true (pos n) = true
steady true (negsuc n) = false

abbrev pub is_steady : Option Timer → Bool
is_steady none = true
is_steady (some t) = steady t.repeated t.interval

-- Every timer of the heap is one.
abbrev pub IsSteady : TimerQueue → Type 0
IsSteady q = (p : ℕ) → Holds q.heap p → is_steady (body q.objects p) ≡ true

steady-later :
    (b : Bool) (interval : ℤ) (now : ℕ)
    → steady b interval ≡ true
    → b ≡ true
    → now ≤ later now interval
steady-later false interval now h e = absurd (ground arith)
steady-later true (pos n) now h e = omega arith
steady-later true (negsuc n) now h e = absurd (ground arith)

same_truth : (a b : Bool) → (a ≡ true → b ≡ true) → (b ≡ true → a ≡ true) → a ≡ b
same_truth true b f g = sym (f refl)
same_truth false true f g = g refl
same_truth false false f g = refl

-- A round takes one timer out of those that are due.
module _ (q : TimerQueue) (now : ℕ) (v : IsValid q) (r : ℕ × TimerQueue) (f : Fired q now r) where
  heap_shrinks :
      (b : Bool) → Outcome b q now f.fd f.timer r.1 → (p : ℕ) → Holds r.1.heap p → Holds q.heap p
  heap_shrinks true o p h = (o.1 p).0 h
  heap_shrinks false o p h = ((o.1 p).0 h).0

  heap_keeps :
      (b : Bool)
      → Outcome b q now f.fd f.timer r.1
      → (p : ℕ) → f.fd ≢ p
      → Holds q.heap p
      → Holds r.1.heap p
  heap_keeps true o p ne h = (o.1 p).1 h
  heap_keeps false o p ne h = (o.1 p).1 (h, ne)

  -- The timer that has fired is steady.
  fired-steady : IsSteady q → steady f.timer.repeated f.timer.interval ≡ true
  fired-steady h = sym (ap is_steady f.found) ∙ h f.fd f.held

  pop_timer-IsSteady : IsSteady q → (b : Bool) → Outcome b q now f.fd f.timer r.1 → IsSteady r.1
  pop_timer-IsSteady h true o p held = elim (ℕ_discrete f.fd p) [
    | yes e ↦
        subst (λ x. is_steady (body r.1.objects x) ≡ true) e (ap is_steady o.0 ∙ fired-steady h)
    | no ne ↦ ap is_steady (f.others p ne) ∙ h p ((o.1 p).0 held)
  ]
  pop_timer-IsSteady h false o p held =
      let (old, ne) = (o.1 p).0 held in ap is_steady (f.others p ne) ∙ h p old

  fired_once :
      (b : Bool)
      → (b ≡ true → now ≤ later now f.timer.interval)
      → Outcome b q now f.fd f.timer r.1
      → is_due r.1 now f.fd ≡ false
  unfolding is_due stamp
  fired_once true ahead o =
      let late : ltb (later now f.timer.interval) now ≡ false = le→ltb _ _ (ahead refl) in
      let off : ltb (due (body r.1.objects f.fd)) now ≡ false =
        ap (λ x. ltb (due x) now) o.0 ∙ late in
      rw off (ground arith)
  fired_once false ahead o = elim (Bool-cases (r.1.timers f.fd)) [
    | inl kept ↦ absurd (((o.1 f.fd).0 ((f.valid.owned f.fd).0 kept)).1 refl)
    | inr gone ↦ rw gone refl
  ]

  others_same :
      (b : Bool)
      → Outcome b q now f.fd f.timer r.1
      → (p : ℕ) → f.fd ≢ p
      → is_due r.1 now p ≡ is_due q now p
  unfolding is_due stamp
  others_same b o p ne =
      let owned : r.1.timers p ≡ q.timers p =
        same_truth (r.1.timers p) (q.timers p)
          (λ x. (v.owned p).1 (heap_shrinks b o p ((f.valid.owned p).0 x)))
          (λ x. (f.valid.owned p).1 (heap_keeps b o p ne ((v.owned p).0 x))) in
      ap₂ (λ x y. x && ltb (due y) now) owned (f.others p ne)

  round-count :
      (n : ℕ)
      → IsSteady q
      → ((p : ℕ) → Holds q.heap p → p < n)
      → stamp q.objects f.fd < now
      → count n (is_due q now) ≡ suc (count n (is_due r.1 now))
  unfolding is_due
  round-count n h bound early =
      count-drop n (is_due q now) (is_due r.1 now) f.fd (bound f.fd f.held)
        (rw ((v.owned f.fd).1 f.held, lt→ltb _ _ early) refl)
        (fired_once f.timer.repeated
          (steady-later f.timer.repeated f.timer.interval now (fired-steady h)) f.outcome)
        (others_same f.timer.repeated f.outcome)

-- The end of runTimers, after which no timer is due.
pub record Ended (q : TimerQueue) (now n : ℕ) (r : List ℕ × TimerQueue) : Type 0 where
  pub valid : IsValid r.1
  pub quiet : (p : ℕ) → Holds r.1.heap p → now ≤ stamp r.1.objects p
  pub fired : length r.0 ≡ count n (is_due q now)

none_due :
    (q : TimerQueue) (now n : ℕ)
    → IsValid q
    → ((p : ℕ) → Holds q.heap p → now ≤ stamp q.objects p)
    → count n (is_due q now) ≡ 0
unfolding count is_due
none_due q now zero v h = refl
none_due q now (suc n) v h = elim (Bool-cases (q.timers n)) [
  | inl here ↦
      let late : ltb (stamp q.objects n) now ≡ false = le→ltb _ _ (h n ((v.owned n).0 here)) in
      rw (here, late, none_due q now n v h) refl
  | inr other ↦ rw (other, none_due q now n v h) refl
]

late : {now : ℕ} (a : ℕ) → ¬ (a < now) → now ≤ a
late a h = omega (arith, h)

module _ (n : ℕ) (q : TimerQueue) (now : ℕ) (v : IsValid q) (h : IsSteady q)
    (bound : (p : ℕ) → Holds q.heap p → p < n) where
  -- The rest of the loop, after a round that has fired a timer.
  Fired-Ended :
      (r : ℕ × TimerQueue) (f : Fired q now r)
      → stamp q.objects f.fd < now
      → (s : List ℕ × TimerQueue) → Ended r.1 now n s
      → Ended q now n (r.0 ∷ s.0, s.1)
  Fired-Ended r f early s e = record {
    valid = e.valid;
    quiet = e.quiet;
    fired = ap suc e.fired ∙ sym (round-count q now v r f n h bound early);
  }

  nothing-Ended : ((p : ℕ) → Holds q.heap p → ¬ (stamp q.objects p < now)) → Ended q now n ([], q)
  nothing-Ended none_early =
      let quiet : (p : ℕ) → Holds q.heap p → now ≤ stamp q.objects p =
        λ p h. late (stamp q.objects p) (none_early p h) in
      record { valid = v; quiet = quiet; fired = sym (none_due q now n v quiet) }

  round-Ended :
      (fuel : ℕ) (b : Bool)
      → ((b ≡ true) ↔ ((p : ℕ) × Holds q.heap p × (stamp q.objects p < now)))
      → count n (is_due q now) < suc fuel
      → ((q' : TimerQueue)
          → IsValid q'
          → IsSteady q'
          → ((p : ℕ) → Holds q'.heap p → p < n)
          → count n (is_due q' now) < fuel
          → Returns (Ended q' now n) (run_timers_loop fuel q' now))
      → Returns (Ended q now n) (
          if b
          then (pop_timer q now >>= λ r. run_timers_loop fuel r.1 now >>= λ s. ok (r.0 ∷ s.0, s.1))
          else ok ([], q))
  round-Ended fuel false d few ih =
      returns (nothing-Ended (λ p held early. absurd (ground (arith, d.1 (p, held, early)))))
  round-Ended fuel true d few ih =
      let (p, (i, pi, li, e), early) = d.0 refl in
      Returns-bind (pop_timer-Fired q now v (omega (arith, pi, li))) λ r f.
        let first_early : stamp q.objects f.fd < now =
          omega (arith, f.earliest p (i, pi, li, e), early) in
        Returns-bind
          (ih r.1 f.valid (pop_timer-IsSteady q now v r f h f.timer.repeated f.outcome)
            (λ j held. bound j (heap_shrinks q now v r f f.timer.repeated f.outcome j held))
            (omega (arith, few, round-count q now v r f n h bound first_early)))
          λ s e. returns (Fired-Ended r f first_early s e)

run_timers_loop-Ended :
    (fuel n : ℕ) (q : TimerQueue) (now : ℕ)
    → IsValid q
    → IsSteady q
    → ((p : ℕ) → Holds q.heap p → p < n)
    → count n (is_due q now) < fuel
    → Returns (Ended q now n) (run_timers_loop fuel q now)
unfolding run_timers_loop
run_timers_loop-Ended zero n q now v forward bound h = absurd (omega arith)
run_timers_loop-Ended (suc fuel) n q now v forward bound h =
    Returns-bind (check_timers-due q now v) λ b d.
      round-Ended n q now v forward bound fuel b d h
        λ q' v' steady' bound' h'. run_timers_loop-Ended fuel n q' now v' steady' bound' h'

-- No timer of the heap is past the counter.
held_bound : (q : TimerQueue) → IsValid q → (p : ℕ) → Holds q.heap p → p < q.counter + 1
held_bound q v p (i, pi, li, e) = elim (Bool-cases (ltb q.counter p)) [
  | inl past ↦
      let nowhere : none ≡ some i =
        ap index_of (sym (v.fresh p (ltb→lt _ _ past)))
        ∙ ap (λ r. index_of (q.objects r)) (sym e)
        ∙ v.indexed i pi li in
      cc
  | inr near ↦ omega (arith, ltb→le _ _ near)
]

-- runTimers on a valid queue in which no timer is repeated at a negative interval, with a clock that
-- stands still and callbacks that leave the queue alone, comes to an end without a fault: its fuel is
-- enough. It calls as many callbacks as timers were due; the queue is then valid, and no timer in it is
-- due.
pub run_timers-Ended :
    (q : TimerQueue) (now : ℕ)
    → IsValid q
    → IsSteady q
    → Returns
        (λ (calls, q').
          IsValid q'
          × ((p : ℕ) → Holds q'.heap p → now ≤ stamp q'.objects p)
          × (length calls ≡ count_due q now))
        (run_timers q now)
unfolding run_timers count_due
run_timers-Ended q now v h =
    Returns-map
      (run_timers_loop-Ended (q.counter + 2) (q.counter + 1) q now v h (held_bound q v)
        (omega (arith, count-le (q.counter + 1) (is_due q now))))
      λ r e. (e.valid, e.quiet, e.fired)
