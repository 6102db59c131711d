-- ===== src/Poller/Session.antt =====
-- Whole lives of a watcher: attachInLoop, detachInLoop and the five switches of src/net/fd/IOFd.cpp in any
-- order, in one thread.
use libsaf.Common.{
  ℕ, ◌≡◌, inl, inr, refl, sym, ap, subst, arith, Bool, true, false, not, ◌&&◌, ◌||◌, List, [], ◌∷◌,
  Option, none, some, Result, ok, Returns, returns, Returns-bind, Returns-inv, ◌>>=◌, ==_refl,
}
use libsaf.Poller.{
  Status, new, added, deleted, Events, is_none_event, no_events, Watched, has_fd, set_status,
  poller_remove_as, poller_remove_fd, enable_read_in_loop, enable_write_in_loop,
  disable_read_in_loop, disable_write_in_loop, disable_all_in_loop, detach_from, detach_in_loop,
  entered, attach_in_loop,
}
use libsaf.Poller.Interest.{
  IsSynced, Moved, reading, writing, enable_read_in_loop-Moved, enable_write_in_loop-Moved,
  disable_read_in_loop-Moved, disable_write_in_loop-Moved, disable_all_in_loop-Moved,
}

and_right : (a b : Bool) → (a && b) ≡ true → b ≡ true
and_right a b h = ground arith

pub data Switch : Type 0 where
  enable_read enable_write disable_read disable_write disable_all : Switch

-- The events after a switch.
abbrev pub switched : Switch → Events → Events
switched enable_read e = reading true e
switched enable_write e = writing true e
switched disable_read e = reading false e
switched disable_write e = writing false e
switched disable_all e = no_events

pub data Action : Type 0 where
  attaches detaches : Action
  switches : Switch → Action

abbrev pub is_attached : Option ℕ → Bool
is_attached none = false
is_attached (some _) = true

-- The watcher is switched only while it is in a loop.
unfoldable pub legal : Bool → List Action → Bool
legal b [] = true
legal b (attaches ∷ rest) = legal true rest
legal b (detaches ∷ rest) = legal false rest
legal b (switches w ∷ rest) = b && legal b rest

-- The watcher in the loop, synced; its address and descriptor have not changed.
pub record Attached (here : ℕ) (s s' : Watched) : Type 0 where
  pub synced : IsSynced here s'
  pub looper : s'.watcher.looper ≡ some here
  pub fd : s'.watcher.fd ≡ s.watcher.fd
  pub address : s'.watcher.address ≡ s.watcher.address

module _ (here : ℕ) where
  unfoldable pub switch : Switch → Watched → Result Watched
  switch enable_read = enable_read_in_loop here
  switch enable_write = enable_write_in_loop here
  switch disable_read = disable_read_in_loop here
  switch disable_write = disable_write_in_loop here
  switch disable_all = disable_all_in_loop here

  -- A switch of a watcher that is in step with its poller and in the loop of the thread does not
  -- fault. It sets its half of the mask and nothing else of the watcher but its status, and the
  -- calls of `epoll_ctl` that it makes succeed and leave the kernel waiting for exactly the
  -- watcher's events.
  pub switch-Moved :
      (w : Switch) (s : Watched)
      → IsSynced here s
      → s.watcher.looper ≡ some here
      → Returns (Moved here s (switched w s.watcher.events)) (switch w s)
  unfolding switch
  switch-Moved enable_read s = enable_read_in_loop-Moved here s
  switch-Moved enable_write s = enable_write_in_loop-Moved here s
  switch-Moved disable_read s = disable_read_in_loop-Moved here s
  switch-Moved disable_write s = disable_write_in_loop-Moved here s
  switch-Moved disable_all s = disable_all_in_loop-Moved here s

  -- Off every loop, waiting for nothing, and unknown to the poller and the kernel.
  pub record Detached (s : Watched) : Type 0 where
    pub synced : IsSynced here s
    pub looper : s.watcher.looper ≡ none
    pub status : s.watcher.status ≡ new
    pub idle : is_none_event s.watcher ≡ true

  abbrev unlooped : Watched → Watched
  unlooped s = record s { watcher = record s.watcher { looper = none } }

  removed_as :
      (s : Watched) (status : Status)
      → IsSynced here s
      → s.watcher.status ≡ status
      → is_none_event s.watcher ≡ true
      → Returns (λ s'. Detached (unlooped s')) (poller_remove_fd s)
  unfolding poller_remove_fd poller_remove_as has_fd set_status
  removed_as s new v is off =
      let unknown : s.poller.fds s.watcher.fd ≡ none = ground (arith, v.known) in
      let nothing : v.kernel s.watcher.fd ≡ none = ground (arith, v.interest) in
      rw unknown (
        returns (record {
          synced = record {
            kernel = v.kernel;
            replayed = v.replayed;
            interest = ground arith;
            known = ground arith;
            idle = v.idle;
            place = inr (refl, is);
          };
          looper = refl;
          status = is;
          idle = off;
        }))
  removed_as s added v is off = absurd (ground (arith, v.idle))
  removed_as s deleted v is off =
      let known : s.poller.fds s.watcher.fd ≡ some s.watcher.address = ground (arith, v.known) in
      let nothing : v.kernel s.watcher.fd ≡ none = ground (arith, v.interest) in
      rw (known, ==_refl s.watcher.address, off)
        (subst (λ st. Returns (λ s'. Detached (unlooped s')) (poller_remove_as s st)) (sym is)
          (returns (record {
            synced = record {
              kernel = v.kernel;
              replayed = v.replayed;
              interest = nothing;
              known = ground arith;
              idle = off;
              place = inr (refl, refl);
            };
            looper = refl;
            status = refl;
            idle = off;
          })))

  -- detachInLoop of a watcher that is in step with its poller and in the loop of the thread does not
  -- fault, and leaves the watcher off every loop, waiting for nothing, and unknown to the poller and
  -- the kernel.
  pub detach_in_loop-Detached :
      (s : Watched)
      → IsSynced here s
      → s.watcher.looper ≡ some here
      → Returns (λ (b, s'). (b ≡ true) × Detached s') (detach_in_loop here s)
  unfolding detach_in_loop detach_from
  detach_in_loop-Detached s v at =
      let (s₁, e₁, m) = Returns-inv (disable_all_in_loop-Moved here s v at) in
      let off : is_none_event s₁.watcher ≡ true = ap (λ e. not (e.read || e.write)) m.events in
      let (s₂, e₂, d) = Returns-inv (removed_as s₁ s₁.watcher.status m.synced refl off) in
      subst (λ l. Returns (λ (b, s'). (b ≡ true) × Detached s') (detach_from here l s)) (sym at)
        (rw (==_refl here, e₁, e₂) (returns (refl, d)))

  -- attachInLoop to the loop of the thread, from that loop or from none.
  pub attach_in_loop-Attached :
      (s : Watched) → IsSynced here s → Returns (Attached here s) (attach_in_loop here here s)
  unfolding attach_in_loop
  attach_in_loop-Attached s v = elim v.place [
    | inl at ↦ rw (==_refl here) (
        subst (λ l. Returns (Attached here s) (entered here here l s)) (sym at)
          (rw (==_refl here)
            (returns (record { synced = v; looper = at; fd = refl; address = refl }))))
    | inr (off, is) ↦
        let idle : is_none_event s.watcher ≡ true = ground (arith, v.idle) in
        rw (==_refl here) (
          subst (λ l. Returns (Attached here s) (entered here here l s)) (sym off)
            (rw idle
              (returns (record { synced = joined v; looper = refl; fd = refl; address = refl }))))
  ]
    where
      joined :
          IsSynced here s
          → IsSynced here (record s { watcher = record s.watcher { looper = some here } })
      joined v = record {
        kernel = v.kernel;
        replayed = v.replayed;
        interest = v.interest;
        known = v.known;
        idle = v.idle;
        place = inl refl;
      }

  unfoldable pub act : Action → Watched → Result Watched
  act attaches s = attach_in_loop here here s
  act detaches s = detach_in_loop here s >>= λ r. ok r.1
  act (switches w) s = switch w s

  pub detached_already :
      (s : Watched) → s.watcher.looper ≡ none → detach_in_loop here s ≡ ok (false, s)
  unfolding detach_in_loop detach_from
  detached_already s off = subst (λ l. detach_from here l s ≡ ok (false, s)) (sym off) refl

  unfoldable pub run : List Action → Watched → Result Watched
  run [] s = ok s
  run (a ∷ rest) s = act a s >>= run rest

  -- Any sequence of attachInLoop, detachInLoop and switches in one thread, in which the watcher is
  -- switched only while it is in a loop, from a watcher in step with its poller and the kernel, ends
  -- without a fault and in step: no `epoll_ctl` has failed, and the kernel waits for exactly the
  -- watcher's events.
  pub run-IsSynced :
      (rest : List Action) (s : Watched)
      → IsSynced here s
      → legal (is_attached s.watcher.looper) rest ≡ true
      → Returns (IsSynced here) (run rest s)
  unfolding run act legal
  run-IsSynced [] s v l = returns v
  run-IsSynced (attaches ∷ rest) s v l =
      Returns-bind (attach_in_loop-Attached s v)
        λ s' a. run-IsSynced rest s' a.synced (rw a.looper l)
  run-IsSynced (detaches ∷ rest) s v l = elim v.place [
    | inl at ↦
        let (r, e, (_, d)) = Returns-inv (detach_in_loop-Detached s v at) in
        rw e (run-IsSynced rest r.1 d.synced (rw d.looper l))
    | inr (off, is) ↦ rw (detached_already s off) (run-IsSynced rest s v (rw off l))
  ]
  run-IsSynced (switches w ∷ rest) s v l = elim v.place [
    | inl at ↦ Returns-bind (switch-Moved w s v at) λ s' m. run-IsSynced rest s' m.synced (
        rw m.looper
          (and_right (is_attached s.watcher.looper) (legal (is_attached s.watcher.looper) rest) l))
    | inr (off, is) ↦ absurd (ground arith)
  ]
