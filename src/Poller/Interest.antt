-- ===== src/Poller/Interest.antt =====
-- The kernel's interest list follows the watcher's events: the theorem of src/net/fd/IOFd.cpp and
-- src/net/poller/EPollPoller.cpp.
use libsaf.Common.{
  ℕ, ◌≡◌, ◌⊎◌, inl, inr, refl, sym, subst, arith, Bool, true, false, Option, none, some, ok,
  Returns, returns, Returns-if, Bool-cases, if◌then◌else◌, ==_refl,
}
use libsaf.Poller.{
  Status, new, added, deleted, Events, is_none_event, no_events, Watched, EpollPoller, has_fd,
  control_fd, set_status, ctl_mod, update_new, update_added, poller_update_as, poller_update_fd,
  update_by, update, enable_read_in_loop, enable_write_in_loop, disable_read_in_loop,
  disable_write_in_loop, disable_all_in_loop,
}
use libsaf.Poller.Kernel.{InterestList, change, replay, replay-snoc}

-- What the kernel and the poller should hold for a watcher in a status.
abbrev pub interest_of : Status → Events → Option Events
interest_of new e = none
interest_of added e = some e
interest_of deleted e = none

abbrev pub known_of : Status → ℕ → Option ℕ
known_of new a = none
known_of added a = some a
known_of deleted a = some a

abbrev pub is_idle : Status → Bool
is_idle new = true
is_idle added = false
is_idle deleted = true

-- No call of `epoll_ctl` has failed; the kernel waits for exactly the watcher's events, if it has
-- any; the poller knows the watcher unless it is new; and the watcher is in this thread's loop, or
-- new and in none.
pub record IsSynced (here : ℕ) (s : Watched) : Type 0 where
  pub kernel : InterestList
  pub replayed : replay (λ _. none) s.poller.controls ≡ some kernel
  pub interest : kernel s.watcher.fd ≡ interest_of s.watcher.status s.watcher.events
  pub known : s.poller.fds s.watcher.fd ≡ known_of s.watcher.status s.watcher.address
  pub idle : is_none_event s.watcher ≡ is_idle s.watcher.status
  pub place :
      (s.watcher.looper ≡ some here) ⊎ ((s.watcher.looper ≡ none) × (s.watcher.status ≡ new))

-- The watcher with these events, synced; its address, descriptor and loop have not changed.
pub record Moved (here : ℕ) (s : Watched) (e : Events) (s' : Watched) : Type 0 where
  pub synced : IsSynced here s'
  pub events : s'.watcher.events ≡ e
  pub looper : s'.watcher.looper ≡ s.watcher.looper
  pub fd : s'.watcher.fd ≡ s.watcher.fd
  pub address : s'.watcher.address ≡ s.watcher.address

abbrev with_events : Watched → Events → Watched
with_events s e = record s { watcher = record s.watcher { events = e } }

module _ (here : ℕ) (s : Watched) (e : Events) (v : IsSynced here s)
    (at : s.watcher.looper ≡ some here) where
  -- A new state in which only the status, the poller and the events are new.
  synced_at :
      (status : Status) (p : EpollPoller) (k : InterestList)
      → replay (λ _. none) p.controls ≡ some k
      → k s.watcher.fd ≡ interest_of status e
      → p.fds s.watcher.fd ≡ known_of status s.watcher.address
      → is_none_event (with_events s e).watcher ≡ is_idle status
      → Moved here s e
          (record { watcher = record s.watcher { status = status; events = e }; poller = p })
  synced_at status p k r i n d = record {
    synced = record { kernel = k; replayed = r; interest = i; known = n; idle = d; place = inl at };
    events = refl;
    looper = refl;
    fd = refl;
    address = refl;
  }

  -- updateFd, once the events have changed: they are not empty unless the watcher is registered.
  poller_update_as-Moved :
      (status : Status)
      → s.watcher.status ≡ status
      → (is_idle status ≡ true → is_none_event (with_events s e).watcher ≡ false)
      → Returns (Moved here s e) (poller_update_as (with_events s e) status)
  unfolding poller_update_as update_new control_fd set_status has_fd update_added
  poller_update_as-Moved new is some_event =
      let unknown : s.poller.fds s.watcher.fd ≡ none = ground (arith, v.known) in
      let absent : v.kernel s.watcher.fd ≡ none = ground (arith, v.interest) in
      rw unknown (
        returns (
          synced_at added _ (change v.kernel s.watcher.fd (some e))
            (replay-snoc _ s.poller.controls _ v.replayed (rw absent)) (ground arith) (ground arith)
            (some_event refl)))
  poller_update_as-Moved deleted is some_event =
      let here_known : s.poller.fds s.watcher.fd ≡ some s.watcher.address =
        ground (arith, v.known) in
      let absent : v.kernel s.watcher.fd ≡ none = ground (arith, v.interest) in
      rw (here_known, ==_refl s.watcher.address)
        (returns (
          synced_at added _ (change v.kernel s.watcher.fd (some e))
            (replay-snoc _ s.poller.controls _ v.replayed (rw absent)) (ground arith) here_known
            (some_event refl)))
  poller_update_as-Moved added is some_event =
      let here_known : s.poller.fds s.watcher.fd ≡ some s.watcher.address =
        ground (arith, v.known) in
      let present : v.kernel s.watcher.fd ≡ some s.watcher.events = ground (arith, v.interest) in
      rw (here_known, ==_refl s.watcher.address)
        (elim (Bool-cases (is_none_event (with_events s e).watcher)) [
          | inl gone ↦ rw gone (
              returns (
                synced_at deleted _ (change v.kernel s.watcher.fd none)
                  (replay-snoc _ s.poller.controls _ v.replayed (rw present)) (ground arith)
                  here_known gone))
          | inr kept ↦ rw kept (
              returns (
                subst
                  (λ st. Moved here s e (record {
                    watcher = record s.watcher { status = st; events = e };
                    poller = (control_fd (with_events s e) ctl_mod).poller;
                  }))
                  (sym is)
                  (synced_at added _ (change v.kernel s.watcher.fd (some e))
                    (replay-snoc _ s.poller.controls _ v.replayed (rw present)) (ground arith)
                    here_known kept)))
        ])

  update-Moved :
      (is_idle s.watcher.status ≡ true → is_none_event (with_events s e).watcher ≡ false)
      → Returns (Moved here s e) (update here (with_events s e))
  unfolding update update_by poller_update_fd
  update-Moved h =
      subst (λ l. Returns (Moved here s e) (update_by here l (with_events s e))) (sym at)
        (rw (==_refl here) (poller_update_as-Moved s.watcher.status refl h))

abbrev pub reading : Bool → Events → Events
reading b e = record e { read = b }

abbrev pub writing : Bool → Events → Events
writing b e = record e { write = b }

-- The four switches in the watcher's own loop: each sets its half of the mask and nothing else, does
-- not fault, and leaves the kernel waiting for exactly the watcher's events.
module _ (here : ℕ) (s : Watched) (v : IsSynced here s) (at : s.watcher.looper ≡ some here) where
  unchanged : Moved here s s.watcher.events s
  unchanged = record { synced = v; events = refl; looper = refl; fd = refl; address = refl }

  switched-Moved :
      (b : Bool) (e : Events)
      → (b ≡ true
          → is_idle s.watcher.status ≡ true
          → is_none_event (with_events s e).watcher ≡ false)
      → (b ≡ false → s.watcher.events ≡ e)
      → Returns (Moved here s e) (if b then update here (with_events s e) else ok s)
  switched-Moved b e on off =
      Returns-if b (λ p. update-Moved here s e v at (on p))
        (λ p. returns (subst (λ d. Moved here s d s) (off p) unchanged))

  pub enable_read_in_loop-Moved :
      Returns (Moved here s (reading true s.watcher.events)) (enable_read_in_loop here s)
  unfolding enable_read_in_loop
  enable_read_in_loop-Moved = switched-Moved _ _ (λ p i. refl) (λ p. ground arith)

  pub enable_write_in_loop-Moved :
      Returns (Moved here s (writing true s.watcher.events)) (enable_write_in_loop here s)
  unfolding enable_write_in_loop
  enable_write_in_loop-Moved = switched-Moved _ _ (λ p i. ground arith) (λ p. ground arith)

  pub disable_read_in_loop-Moved :
      Returns (Moved here s (reading false s.watcher.events)) (disable_read_in_loop here s)
  unfolding disable_read_in_loop
  disable_read_in_loop-Moved =
      switched-Moved _ _ (λ p i. ground (arith, v.idle)) (λ p. ground arith)

  pub disable_write_in_loop-Moved :
      Returns (Moved here s (writing false s.watcher.events)) (disable_write_in_loop here s)
  unfolding disable_write_in_loop
  disable_write_in_loop-Moved =
      switched-Moved _ _ (λ p i. ground (arith, v.idle)) (λ p. ground arith)

  pub disable_all_in_loop-Moved : Returns (Moved here s no_events) (disable_all_in_loop here s)
  unfolding disable_all_in_loop
  disable_all_in_loop-Moved = elim (Bool-cases (is_none_event s.watcher)) [
    | inl none_on ↦
        let same : s.watcher.events ≡ no_events = ground arith in
        rw none_on (returns (subst (λ d. Moved here s d s) same unchanged))
    | inr some_on ↦ rw some_on (update-Moved here s no_events v at (λ i. ground (arith, v.idle)))
  ]
