-- ===== src/EventLoopCluster/Rotation.antt =====
-- Which loop getNextLoop of src/net/EventLoopCluster.cpp gives, from start() to stop().
use native.Mathlib.Nat.{mod-lt}
use libsaf.Common.{
  ℕ, zero, suc, ◌+◌, ◌%◌, ◌^◌, ◌<◌, ◌≡◌, refl, sym, ap, subst, arith, true, false, not, List, [],
  ◌∷◌, map, Option, ok, assert, ◌>>=◌, Returns, returns, Returns-bind, Returns-if, leb, lt→ltb,
  leb→le, length, get_elem?,
}
use libsaf.EventLoopCluster.{
  EventLoopCluster, ready, start, stop, stop_all, stop_pair, all_stopped, to_size, loop_at,
  is_none_left, get_next_loop,
}

-- The cluster runs these loops, at least two.
pub record IsRunning (loops : List ℕ) (c : EventLoopCluster) : Type 0 where
  pub many : 1 < length loops
  pub thread_count : c.thread_count ≡ length loops
  pub pairs : c.pairs ≡ map ready loops

-- One of the loops is chosen, and they go on running.
pub record Chosen (loops : List ℕ) (c : EventLoopCluster) (r : Option ℕ × EventLoopCluster)
    : Type 0 where
  pub index : ℕ
  pub inside : index < length loops
  pub loop : r.0 ≡ get_elem? loops index
  pub counter : index ≡ to_size r.1.counter % length loops
  pub next : r.1.counter ≡ (c.counter + 1) % 2 ^ 32
  pub running : IsRunning loops r.1

length-ready : (loops : List ℕ) → length (map ready loops) ≡ length loops
length-ready [] = refl
length-ready (l ∷ ls) = omega (arith, length-ready ls)

loop_at-ready :
    (loops : List ℕ) (i : ℕ)
    → i < length loops
    → loop_at (map ready loops) i ≡ ok (get_elem? loops i)
loop_at-ready [] i h = absurd (omega arith)
loop_at-ready (l ∷ ls) zero h = refl
loop_at-ready (l ∷ ls) (suc i) h = loop_at-ready ls i (omega arith)

some_left : (loops : List ℕ) → 1 < length loops → is_none_left (map ready loops) ≡ false
some_left [] h = absurd (omega arith)
some_left (l ∷ ls) h = refl

-- getNextLoop of a cluster that runs at least two loops does not fault, for any value of its counter,
-- also when the counter wraps: it gives the loop at the next counter's remainder by their number, and
-- the cluster goes on running the same loops.
pub get_next_loop-Chosen :
    (loops : List ℕ) (c : EventLoopCluster)
    → IsRunning loops c
    → Returns (Chosen loops c) (get_next_loop c)
unfolding get_next_loop
get_next_loop-Chosen loops c v =
    let next = (c.counter + 1) % 2 ^ 32 in
    let inside : to_size next % length loops < length loops =
      mod-lt (to_size next) (omega (arith, v.many)) in
    Returns-if (leb c.thread_count 1)
      (λ few. absurd (omega (arith, leb→le _ _ few, v.many, v.thread_count)))
      (λ enough.
        subst
          (λ ps. Returns (Chosen loops c) (
            assert (not (is_none_left ps))
              (loop_at ps (to_size next % length ps) >>= λ l. ok (l, record c { counter = next }))))
          (sym v.pairs)
          (rw
            (
              some_left loops v.many,
              length-ready loops,
              loop_at-ready loops (to_size next % length loops) inside,
            )
            (returns (record {
              index = to_size next % length loops;
              inside = inside;
              loop = refl;
              counter = refl;
              next = refl;
              running = record { many = v.many; thread_count = v.thread_count; pairs = v.pairs };
            }))))

stop_all-ready :
    (loops : List ℕ) → Returns (λ ps. all_stopped ps ≡ true) (stop_all (map ready loops))
unfolding stop_all stop_pair all_stopped
stop_all-ready [] = returns refl
stop_all-ready (l ∷ ls) = Returns-bind (stop_all-ready ls) λ ps e. returns e

-- A cluster without threads that is started with a loop for each of at least two threads runs these
-- loops.
pub start-IsRunning :
    (loops : List ℕ) (c : EventLoopCluster)
    → c.pairs ≡ []
    → 1 < length loops
    → Returns (IsRunning loops) (start c loops)
unfolding start all_stopped
start-IsRunning loops c none_yet many =
    let stopped : all_stopped c.pairs ≡ true = ap all_stopped none_yet in
    rw (stopped, lt→ltb _ _ many)
      (returns (record { many = many; thread_count = refl; pairs = refl }))

-- stop() of a cluster that runs does not fault: each of its pairs has stopped before it is destroyed.
pub stop-Stopped :
    (loops : List ℕ) (c : EventLoopCluster)
    → IsRunning loops c
    → Returns (λ c'. c'.pairs ≡ []) (stop c)
unfolding stop
stop-Stopped loops c v =
    subst
      (λ ps.
        Returns (λ c'. c'.pairs ≡ [])
          (stop_all ps >>= λ qs. assert (all_stopped qs) (ok (record c { pairs = [] }))))
      (sym v.pairs) (Returns-bind (stop_all-ready loops) λ qs e. rw e (returns refl))
