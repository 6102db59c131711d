-- ===== src/EventLoop/Functors.antt =====
-- The queue of functors of src/net/EventLoop.cpp: runInLoop, queueInLoop and runFunctors.
use libsaf.Common.{
  ℕ, zero, suc, ◌≡◌, refl, sym, ap, ◌∙◌, List, [], ◌∷◌, ◌++◌, append_assoc, append-nil, length,
}
use libsaf.EventLoop.{Program, EventLoop, call, queue_in_loop, run_each, run_functors}

-- The specification: a server of a queue takes the functor at its front, runs it, and puts what the
-- functor queues behind all that waits.
abbrev front : {F W : Type 0} → Program F W → EventLoop F W → List F → EventLoop F W
front p l [] = l
front p l (f ∷ fs) = call (record l { functors = fs }) (p.perform f)

unfoldable pub serve : {F W : Type 0} → Program F W → ℕ → EventLoop F W → EventLoop F W
serve p zero l = l
serve p (suc n) l = serve p n (front p l l.functors)

module _ {F W : Type 0} (p : Program F W) where
  run_each-serve :
      (l : EventLoop F W) (fs : List F)
      → run_each p l fs ≡ serve p (length fs) (record l { functors = fs ++ l.functors })
  unfolding run_each serve call queue_in_loop
  run_each-serve l [] = refl
  run_each-serve l (f ∷ fs) =
      run_each-serve (call l (p.perform f)) fs
      ∙ ap (λ qs. serve p (length fs) (record l { world = (p.perform f l.world).0; functors = qs }))
          (sym (append_assoc fs l.functors (p.perform f l.world).1))

  -- runFunctors runs the functors that wait when it is called as a queue's server runs that many:
  -- each once, in the order in which they were queued; those that they queue meanwhile are not run,
  -- and wait in their order.
  pub run_functors-serve : (l : EventLoop F W) → run_functors p l ≡ serve p (length l.functors) l
  unfolding run_functors
  run_functors-serve l =
      run_each-serve (record l { functors = [] }) l.functors
      ∙ ap (λ qs. serve p (length l.functors) (record l { functors = qs })) (append-nil l.functors)
