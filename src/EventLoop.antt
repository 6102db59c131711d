-- ===== src/EventLoop.antt =====
-- src/net/EventLoop.h and src/net/EventLoop.cpp: the loop, and the functors that are queued in it.
--
-- What a functor, a handler of an event and the timers that are due do to the rest of the program
-- are parameters, `Program`: each changes the world, and queues functors in the loop. `is_quit` says
-- whether stop() has been called. The descriptors that each poll finds are a list, whose end is the
-- end of the model's fuel.
pub mod Functors
pub mod Counting
pub mod Timers
mod Tests
use libsaf.Common.{
  ℕ, zero, suc, ◌+◌, ◌≡◌, Bool, true, false, not, List, [], ◌∷◌, ◌++◌, Option, none, some, Result,
  ok, fault, out_of_fuel, assert, ◌>>=◌, if◌then◌else◌, length,
}

pub record Program (F W : Type 0) : Type 0 where
  pub perform : F → W → W × List F
  pub dispatch : ℕ → W → W × List F
  pub run_timers : W → W × List F
  pub is_quit : W → Bool

pub record EventLoop (F W : Type 0) : Type 0 where
  pub looping : Bool
  pub handling : Bool
  pub current_fd : Option ℕ
  pub functors : List F
  pub world : W

module _ {F W : Type 0} where
  unfoldable pub queue_in_loop : EventLoop F W → List F → EventLoop F W
  queue_in_loop l fs = record l { functors = l.functors ++ fs }

  -- A call that changes the world and queues functors.
  unfoldable pub call : EventLoop F W → (W → W × List F) → EventLoop F W
  unfolding queue_in_loop
  call l f = queue_in_loop (record l { world = (f l.world).0 }) (f l.world).1

module _ {F W : Type 0} (p : Program F W) where
  unfoldable pub run_each : EventLoop F W → List F → EventLoop F W
  run_each l [] = l
  run_each l (f ∷ fs) = run_each (call l (p.perform f)) fs

  -- runFunctors swaps the queue for an empty one before it runs the functors.
  unfoldable pub run_functors : EventLoop F W → EventLoop F W
  unfolding run_each
  run_functors l = run_each (record l { functors = [] }) l.functors

  unfoldable pub run_in_loop : Bool → EventLoop F W → F → EventLoop F W
  run_in_loop in_thread l f = if in_thread then call l (p.perform f) else queue_in_loop l (f ∷ [])

  unfoldable pub handle_all : EventLoop F W → List ℕ → EventLoop F W
  handle_all l [] = l
  handle_all l (fd ∷ fds) =
      handle_all (call (record l { current_fd = some fd }) (p.dispatch fd)) fds

  unfoldable pub run_timers : EventLoop F W → EventLoop F W
  run_timers l = call l p.run_timers

  -- One turn of the loop in start(), with what its poll finds.
  unfoldable pub turn : EventLoop F W → List ℕ → EventLoop F W
  turn l active =
      let handled = handle_all (record l { handling = true }) active in
      run_timers (run_functors (record handled { current_fd = none; handling = false }))

  unfoldable pub turns : EventLoop F W → List (List ℕ) → Result (EventLoop F W)
  turns l [] = if p.is_quit l.world then ok l else fault out_of_fuel
  turns l (active ∷ polls) =
      let rest = turns (turn l active) polls in if p.is_quit l.world then ok l else rest

  unfoldable pub start : EventLoop F W → List (List ℕ) → Result (EventLoop F W)
  start l polls = assert (not l.looping) (
      assert (not (p.is_quit l.world)) (
        turns (record l { looping = true }) polls >>= λ l'.
        ok (record (run_functors l') { looping = false })))
