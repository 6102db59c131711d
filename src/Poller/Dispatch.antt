-- ===== src/Poller/Dispatch.antt =====
-- IOFd::handleEvent of src/net/fd/IOFd.cpp and EPollPoller::poll of src/net/poller/EPollPoller.cpp: which
-- handlers run for an event, and how many events a poll asks for.
use Prim.Native.Nat.{max}
use libsaf.Common.{
  ℕ, ◌*◌, ◌≡◌, refl, arith, Bool, false, not, ◌&&◌, ◌||◌, List, [], ◌∷◌, Bool-cases, inl, inr,
  if◌then◌else◌, ◌==◌, length, ◌∙◌, ap, true,
}

-- `_revents`, by the names of poll.h.
pub record Flags : Type 0 where
  pub pollin : Bool
  pub pollpri : Bool
  pub pollout : Bool
  pub pollerr : Bool
  pub pollhup : Bool
  pub pollnval : Bool
  pub pollrdhup : Bool

abbrev pub no_flags : Flags
no_flags = record {
  pollin = false;
  pollpri = false;
  pollout = false;
  pollerr = false;
  pollhup = false;
  pollnval = false;
  pollrdhup = false;
}

pub data Event : Type 0 where
  on_close on_error on_read on_write : Event

-- What the handlers see and change: whether the watcher has an observer or a callback, and what
-- these do.
pub record Handlers (W : Type 0) : Type 0 where
  pub has_observer : W → Bool
  pub observer : Event → W → W
  pub has_callback : Event → W → Bool
  pub callback : Event → W → W

-- The watcher's own part, and the rest.
pub record Handled (W : Type 0) : Type 0 where
  pub handling : Bool
  pub revents : Flags
  pub world : W

-- The handlers that an event calls for, in the order of their calls.
unfoldable pub wanted : Flags → Event → Bool
wanted r on_close = r.pollhup && not r.pollin
wanted r on_error = not (r.pollhup && not r.pollin) && (r.pollerr || r.pollnval)
wanted r on_read = not (r.pollhup && not r.pollin) && (r.pollin || r.pollpri || r.pollrdhup)
wanted r on_write = not (r.pollhup && not r.pollin) && r.pollout

abbrev pub all_events : List Event
all_events = on_close ∷ on_error ∷ on_read ∷ on_write ∷ []

module _ {W : Type 0} (h : Handlers W) where
  unfoldable pub notify : Event → W → W
  notify e w =
      if h.has_observer w then h.observer e w else if h.has_callback e w then h.callback e w else w

  abbrev when : Bool → Event → W → W
  when b e w = if b then notify e w else w

  unfoldable pub handle_event : Flags → W → Handled W
  handle_event r w =
      if r.pollhup && not r.pollin
      then record { handling = false; revents = no_flags; world = notify on_close w }
      else let w₁ = when (r.pollerr || r.pollnval) on_error w in
        let w₂ = when (r.pollin || r.pollpri || r.pollrdhup) on_read w₁ in
        let w₃ = when r.pollout on_write w₂ in
        record { handling = false; revents = no_flags; world = w₃ }

  unfoldable pub notify_all : Flags → List Event → W → W
  notify_all r [] w = w
  notify_all r (e ∷ es) w = notify_all r es (if wanted r e then notify e w else w)

  -- handleEvent runs each handler that the flags call for once, with the effects of those before it:
  -- a hang-up without data calls for the close handler alone, any other event for error, read and
  -- write in this order, by their flags. The watcher has no pending flags at the end.
  pub handle_event-notifies :
      (r : Flags) (w : W)
      → ((handle_event r w).world ≡ notify_all r all_events w)
        × ((handle_event r w).revents ≡ no_flags)
        × ((handle_event r w).handling ≡ false)
  unfolding handle_event notify_all wanted
  handle_event-notifies r w = elim (Bool-cases (r.pollhup && not r.pollin)) [
    | inl hung ↦ rw hung (refl, refl, refl)
    | inr fine ↦ rw fine (refl, refl, refl)
  ]

-- EPollPoller's event list: its size, which `epoll_wait` is given, and its capacity.
pub record EventList : Type 0 where
  pub size : ℕ
  pub capacity : ℕ

abbrev pub init_event_list_size : ℕ
init_event_list_size = 16

unfoldable pub init_event_list : EventList
init_event_list = record { size = init_event_list_size; capacity = init_event_list_size }

-- `vector::reserve` grows the capacity alone.
abbrev reserve : EventList → ℕ → EventList
reserve l n = record l { capacity = max l.capacity n }

-- A poll: `epoll_wait` says which watchers are ready, at most as many as it was asked for. The list
-- of active watchers is theirs, and each has its flags set.
unfoldable pub poll : EventList → (ℕ → List (ℕ × Flags)) → List (ℕ × Flags) × EventList
poll l epoll_wait =
    let ready = epoll_wait l.size in
    (ready, if length ready == l.size then reserve l (l.size * 2) else l)

unfoldable pub polls : EventList → List (ℕ → List (ℕ × Flags)) → EventList
polls l [] = l
polls l (wait ∷ waits) = polls (poll l wait).1 waits

poll-size : (l : EventList) (wait : ℕ → List (ℕ × Flags)) → (poll l wait).1.size ≡ l.size
unfolding poll
poll-size l wait = ground arith

polls-size : (l : EventList) (waits : List (ℕ → List (ℕ × Flags))) → (polls l waits).size ≡ l.size
unfolding polls
polls-size l [] = refl
polls-size l (wait ∷ waits) = polls-size (poll l wait).1 waits ∙ poll-size l wait

-- What a poll does after others, which began with the list `l`.
pub record Polled (l before : EventList) (wait : ℕ → List (ℕ × Flags))
    (r : List (ℕ × Flags) × EventList) : Type 0 where
  pub asked : r.0 ≡ wait l.size
  pub size : r.1.size ≡ l.size
  pub capacity : r.1.capacity ≡ (
      if length (wait l.size) == l.size then max before.capacity (l.size * 2) else before.capacity)

capacity-if :
    (full : Bool) (l : EventList) (n : ℕ)
    → (if full then reserve l n else l).capacity ≡ (if full then max l.capacity n else l.capacity)
capacity-if true l n = refl
capacity-if false l n = refl

-- However many watchers were ready in the polls before, a poll asks `epoll_wait` for as many events as
-- the list had at first, and its active watchers are those that `epoll_wait` says then. If they are as
-- many as it asked for, the list's capacity is then at least twice that number, otherwise it is as
-- before; but the list's size, for which the next poll asks, has not changed.
pub polls-Polled :
    (l : EventList) (waits : List (ℕ → List (ℕ × Flags))) (wait : ℕ → List (ℕ × Flags))
    → Polled l (polls l waits) wait (poll (polls l waits) wait)
unfolding poll
polls-Polled l waits wait =
    let before = polls l waits in
    let same = polls-size l waits in
    record {
      asked = ap wait same;
      size = poll-size before wait ∙ same;
      capacity =
          capacity-if (length (wait before.size) == before.size) before (before.size * 2)
          ∙ ap (λ n. if length (wait n) == n then max before.capacity (n * 2) else before.capacity)
              same;
    }
