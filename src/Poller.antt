-- ===== src/Poller.antt =====
-- src/net/fd/IOFd.h, src/net/fd/IOFd.cpp and src/net/poller/EPollPoller.h, src/net/poller/EPollPoller.cpp: what a
-- descriptor waits for, and how its poller tells the kernel; with updateFd and removeFd of
-- src/net/EventLoop.cpp, through which it does.
--
-- `here` is the loop of the running thread, by its number, and the poller is that loop's. The event
-- mask is the two halves that the source sets and clears whole, kReadEvent and kWriteEvent. A watcher
-- is its address. The poller's calls of `epoll_ctl`, whose results the source does not read, are kept
-- in order; the kernel's side of them is in Poller/Kernel.
pub mod Kernel
pub mod Interest
pub mod Session
pub mod Dispatch
mod Tests
use libsaf.Common.{
  ℕ, zero, suc, ◌+◌, ◌*◌, ◌≡◌, Bool, true, false, not, ◌&&◌, ◌||◌, List, [], ◌∷◌, ◌++◌, Option,
  none, some, Result, ok, fault, assertion, null_pointer, fatal, assert, ◌>>=◌, ltb, ◌==◌,
  if◌then◌else◌, length, map,
}

pub data Status : Type 0 where
  new added deleted : Status

-- `_events`
pub record Events : Type 0 where
  pub read : Bool
  pub write : Bool

abbrev pub no_events : Events
no_events = record { read = false; write = false }

pub record IoFd : Type 0 where
  pub address : ℕ
  pub fd : ℕ
  pub events : Events
  pub status : Status
  pub looper : Option ℕ

abbrev pub is_reading : IoFd → Bool
is_reading w = w.events.read

abbrev pub is_writing : IoFd → Bool
is_writing w = w.events.write

abbrev pub is_none_event : IoFd → Bool
is_none_event w = not (w.events.read || w.events.write)

pub data Operation : Type 0 where
  ctl_add ctl_mod ctl_del : Operation

-- A call of `epoll_ctl`.
pub record Control : Type 0 where
  pub operation : Operation
  pub fd : ℕ
  pub events : Events

pub record EpollPoller : Type 0 where
  pub fds : ℕ → Option ℕ
  pub controls : List Control

-- The watcher in the hands of its poller.
pub record Watched : Type 0 where
  pub watcher : IoFd
  pub poller : EpollPoller

abbrev is_watcher : Option ℕ → ℕ → Bool
is_watcher none a = false
is_watcher (some b) a = b == a

abbrev is_absent : Option ℕ → Bool
is_absent none = true
is_absent (some _) = false

unfoldable pub has_fd : Watched → Bool
has_fd s = is_watcher (s.poller.fds s.watcher.fd) s.watcher.address

abbrev pub insert : (ℕ → Option ℕ) → ℕ → Option ℕ → ℕ → Option ℕ
insert f k v j = if k == j then v else f j

unfoldable pub control_fd : Watched → Operation → Watched
control_fd s operation =
    let event : Control = record {
      operation = operation;
      fd = s.watcher.fd;
      events = s.watcher.events;
    } in
    record s { poller = record s.poller { controls = s.poller.controls ++ event ∷ [] } }

unfoldable pub set_status : Watched → Status → Watched
set_status s status = record s { watcher = record s.watcher { status = status } }

unfoldable pub update_new : Watched → Result Watched
update_new s =
    let known = record (set_status s added) {
      poller = record s.poller { fds = insert s.poller.fds s.watcher.fd (some s.watcher.address) };
    } in
    assert (is_absent (s.poller.fds s.watcher.fd)) (ok (control_fd known ctl_add))

unfoldable pub update_added : Watched → Watched
update_added s =
    if is_none_event s.watcher
    then set_status (control_fd s ctl_del) deleted
    else control_fd s ctl_mod

-- EPollPoller::updateFd
unfoldable pub poller_update_as : Watched → Status → Result Watched
poller_update_as s new = update_new s
poller_update_as s deleted = assert (has_fd s) (ok (control_fd (set_status s added) ctl_add))
poller_update_as s added = assert (has_fd s) (ok (update_added s))

unfoldable pub poller_update_fd : Watched → Result Watched
unfolding poller_update_as
poller_update_fd s = poller_update_as s s.watcher.status

-- EPollPoller::removeFd
abbrev forget : Watched → Watched
forget s = record s { poller = record s.poller { fds = insert s.poller.fds s.watcher.fd none } }

unfoldable pub poller_remove_as : Watched → Status → Result Watched
poller_remove_as s new = fault assertion
poller_remove_as s added = ok (set_status (control_fd (forget s) ctl_del) new)
poller_remove_as s deleted = ok (set_status (forget s) new)

unfoldable pub poller_remove_fd : Watched → Result Watched
unfolding poller_remove_as
poller_remove_fd s =
    if not (has_fd s)
    then ok s
    else assert (is_none_event s.watcher) (poller_remove_as s s.watcher.status)

module _ (here : ℕ) where
  -- assertInLoopThread, which aborts in another thread
  abbrev pub assert_in_loop_thread {ℓ} : {A : Type ℓ} → ℕ → Result A → Result A
  assert_in_loop_thread loop r = if loop == here then r else fault fatal

  -- IOFd::update and EventLoop::updateFd
  unfoldable pub update_by : Option ℕ → Watched → Result Watched
  update_by none s = fault null_pointer
  update_by (some loop) s = assert_in_loop_thread loop (poller_update_fd s)

  unfoldable pub update : Watched → Result Watched
  unfolding update_by
  update s = update_by s.watcher.looper s

  abbrev with_events : Watched → Events → Watched
  with_events s events = record s { watcher = record s.watcher { events = events } }

  unfoldable pub enable_read_in_loop : Watched → Result Watched
  enable_read_in_loop s =
      if not (is_reading s.watcher)
      then update (with_events s (record s.watcher.events { read = true }))
      else ok s

  unfoldable pub enable_write_in_loop : Watched → Result Watched
  enable_write_in_loop s =
      if not (is_writing s.watcher)
      then update (with_events s (record s.watcher.events { write = true }))
      else ok s

  unfoldable pub disable_read_in_loop : Watched → Result Watched
  disable_read_in_loop s =
      if is_reading s.watcher
      then update (with_events s (record s.watcher.events { read = false }))
      else ok s

  unfoldable pub disable_write_in_loop : Watched → Result Watched
  disable_write_in_loop s =
      if is_writing s.watcher
      then update (with_events s (record s.watcher.events { write = false }))
      else ok s

  unfoldable pub disable_all_in_loop : Watched → Result Watched
  disable_all_in_loop s = if is_none_event s.watcher then ok s else update (with_events s no_events)

  abbrev with_looper : Watched → Option ℕ → Watched
  with_looper s looper = record s { watcher = record s.watcher { looper = looper } }

  -- IOFd::detachInLoop and EventLoop::removeFd
  unfoldable pub detach_from : Option ℕ → Watched → Result (Bool × Watched)
  detach_from none s = ok (false, s)
  detach_from (some loop) s =
      assert_in_loop_thread loop (
        disable_all_in_loop s >>= λ s₁.
        poller_remove_fd s₁ >>= λ s₂. ok (true, with_looper s₂ none))

  unfoldable pub detach_in_loop : Watched → Result (Bool × Watched)
  unfolding detach_from
  detach_in_loop s = detach_from s.watcher.looper s

  -- IOFd::attachInLoop
  abbrev is_same : Option ℕ → ℕ → Bool
  is_same none loop = false
  is_same (some l) loop = l == loop

  abbrev leave : Option ℕ → Watched → Result Watched
  leave none s = ok s
  leave (some _) s = detach_in_loop s >>= λ r. ok r.1

  unfoldable pub entered : ℕ → Option ℕ → Watched → Result Watched
  entered loop looper s =
      let joined = do
        s₁ ← leave looper s
        let s₂ = with_looper s₁ (some loop)
        if is_none_event s₂.watcher then ok s₂ else update s₂
      in if is_same looper loop then ok s else joined

  unfoldable pub attach_in_loop : ℕ → Watched → Result Watched
  unfolding entered
  attach_in_loop loop s = assert_in_loop_thread loop (entered loop s.watcher.looper s)
