-- ===== src/TimerQueue.antt =====
-- src/net/TimerQueue.h, src/net/TimerQueue.cpp and src/net/fd/Timer.h, src/net/fd/Timer.cpp: the binary heap of
-- timers, and the map that owns them.
--
-- A pointer to a timer is the timer's fd. Fds are negative numbers that fall from StartFd; the model
-- keeps their absolute values. `objects` is the memory: an fd with no object is a dangling pointer.
-- `timers` is the key set of the owning map, whose pointer at a key is that key. Slot 0 of the heap
-- holds the null pointer of `_heap(FirstItem)`, so positions are those of the source.
-- The clock is an argument of each call that reads it; an interval in milliseconds, which may be
-- negative, replaces the delay in seconds; a callback is its name. Numbers do not wrap, and times are
-- counted from a start that is long enough ago for no time of a timer to be negative.
pub mod Slots
pub mod Order
pub mod Up
pub mod Down
pub mod Insert
pub mod Add
pub mod Remove
pub mod Pop
pub mod Erase
pub mod Fire
pub mod Cancel
mod Tests
use libsaf.Common.{
  ℤ, later, ℕ, zero, suc, ◌+◌, ◌-◌, ◌*◌, ◌/◌, ◌≡◌, Bool, true, false, ◌||◌, List, [], ◌∷◌, ◌++◌,
  Option, none, some, Result, ok, fault, Fault, out_of_bounds, use_after_free, null_pointer,
  out_of_fuel, or_fault, ◌>>=◌, ltb, leb, ◌==◌, if◌then◌else◌, length, get_elem?, set, take,
}

pub record Timer : Type 0 where
  pub repeated : Bool
  pub heap_index : ℕ
  pub interval : ℤ
  pub timestamp : ℕ
  pub callback : ℕ

abbrev pub Objects : Type 0
Objects = ℕ → Option Timer

abbrev pub update {ℓ} : {V : Type ℓ} → (ℕ → V) → ℕ → V → ℕ → V
update f k v j = if k == j then v else f j

pub record TimerQueue : Type 0 where
  pub counter : ℕ
  pub heap : List ℕ
  pub objects : Objects
  pub timers : ℕ → Bool

abbrev pub first_item : ℕ
first_item = 1

abbrev pub start_fd : ℕ
start_fd = 12345

abbrev pub null : ℕ
null = 0

unfoldable pub init : TimerQueue
init = record { counter = start_fd; heap = null ∷ []; objects = λ _. none; timers = λ _. false }

-- `_heap[pos]`, and a read through a pointer
unfoldable pub entry : TimerQueue → ℕ → Result ℕ
entry q pos = or_fault (get_elem? q.heap pos) out_of_bounds

unfoldable pub deref : TimerQueue → ℕ → Result Timer
deref q fd = or_fault (q.objects fd) use_after_free

unfoldable pub get_timestamp : TimerQueue → ℕ → Result ℕ
get_timestamp q pos = entry q pos >>= λ fd. deref q fd >>= λ t. ok t.timestamp

unfoldable pub store : TimerQueue → ℕ → Timer → TimerQueue
store q fd t = record q { objects = update q.objects fd (some t) }

unfoldable pub set_heap_index : TimerQueue → ℕ → ℕ → Result TimerQueue
set_heap_index q fd index = deref q fd >>= λ t. ok (store q fd (record t { heap_index = index }))

-- createTimer: a new object, which no map owns yet
unfoldable pub create_timer : TimerQueue → ℕ → ℤ → ℕ → Bool → ℕ × TimerQueue
unfolding store
create_timer q now interval callback repeated =
    let fd = q.counter + 1 in
    let timer : Timer = record {
      repeated = repeated;
      heap_index = 0;
      interval = interval;
      timestamp = later now interval;
      callback = callback;
    } in
    (fd, store (record q { counter = fd }) fd timer)

unfoldable pub heap_swap : TimerQueue → ℕ → ℕ → Result TimerQueue
heap_swap q a b = do
  x ← entry q a
  y ← entry q b
  q' ← set_heap_index (record q { heap = set (set q.heap a y) b x }) y a
  set_heap_index q' x b

-- The loop of heapUp, a round for each unit of fuel.
unfoldable pub heap_up_loop : ℕ → TimerQueue → ℕ → Result TimerQueue
heap_up_loop zero q pos = fault out_of_fuel
heap_up_loop (suc fuel) q pos =
    let parent = pos / 2 in
    let rise = heap_swap q pos parent >>= λ q'. heap_up_loop fuel q' parent in
    let round : Result TimerQueue = do
      above ← get_timestamp q parent
      here ← get_timestamp q pos
      if ltb here above then rise else ok q
    in if ltb 1 pos then round else ok q

-- A round at least halves the position.
unfoldable pub heap_up : TimerQueue → ℕ → Result TimerQueue
heap_up q pos = heap_up_loop (pos + 1) q pos

-- The child that comes before `target`, or `target`.
unfoldable pub before : TimerQueue → ℕ → ℕ → Result ℕ
before q child target = do
  there ← get_timestamp q child
  best ← get_timestamp q target
  ok (if ltb there best then child else target)

-- The place where heapDown goes on: `pos`, or its earlier child.
unfoldable pub down_target : TimerQueue → ℕ → Result ℕ
down_target q pos =
    let left = 2 * pos in
    let right = left + 1 in
    before q left pos >>= λ target.
    if ltb right (length q.heap) then before q right target else ok target

unfoldable pub heap_down_loop : ℕ → TimerQueue → ℕ → Result TimerQueue
heap_down_loop zero q pos = fault out_of_fuel
heap_down_loop (suc fuel) q pos =
    let round : Result TimerQueue = do
      target ← down_target q pos
      let sink = heap_swap q pos target >>= λ q'. heap_down_loop fuel q' target
      if pos == target then ok q else sink
    in if leb (length q.heap) (2 * pos) then ok q else round

-- A round at least doubles the position, which is below the size when a round begins.
unfoldable pub heap_down : TimerQueue → ℕ → Result TimerQueue
heap_down q pos = heap_down_loop (length q.heap + 1) q pos

unfoldable pub heap_insert : TimerQueue → ℕ → Result TimerQueue
heap_insert q fd =
    let index = length q.heap in
    set_heap_index (record q { heap = q.heap ++ fd ∷ [] }) fd index >>= λ q'. heap_up q' index

unfoldable pub pop_back : TimerQueue → TimerQueue
pop_back q = record q { heap = take (length q.heap - 1) q.heap }

-- `none` is the null pointer.
unfoldable pub heap_pop : TimerQueue → Result (Option ℕ × TimerQueue)
heap_pop q =
    let last = length q.heap - 1 in
    let popped : Result (Option ℕ × TimerQueue) = do
      q₁ ← heap_swap q first_item last
      timer ← entry q₁ last
      q₂ ← heap_down (pop_back q₁) first_item
      ok (some timer, q₂)
    in if leb (length q.heap) first_item then ok (none, q) else popped

unfoldable pub heap_delete : TimerQueue → ℕ → Result (Bool × TimerQueue)
heap_delete q pos =
    let deleted : Result (Bool × TimerQueue) = do
      q₁ ← heap_swap q pos (length q.heap - 1)
      q₂ ← heap_down (pop_back q₁) pos
      ok (true, q₂)
    in if leb pos 0 || leb (length q.heap) pos then ok (false, q) else deleted

unfoldable pub add_timer : TimerQueue → ℕ → Result TimerQueue
add_timer q fd = heap_insert q fd >>= λ q'. ok (record q' { timers = update q'.timers fd true })

-- `_timers.erase(fd)` frees the object.
unfoldable pub erase : TimerQueue → ℕ → TimerQueue
erase q fd = record q { timers = update q.timers fd false; objects = update q.objects fd none }

unfoldable pub cancel_timer : TimerQueue → ℕ → Result TimerQueue
cancel_timer q fd =
    let cancelled : Result TimerQueue = do
      t ← deref q fd
      r ← heap_delete q t.heap_index
      ok (erase r.1 fd)
    in if q.timers fd then cancelled else ok q

unfoldable pub check_timers : TimerQueue → ℕ → Result Bool
check_timers q now =
    let first = get_timestamp q first_item >>= λ stamp. ok (ltb stamp now) in
    if leb (length q.heap) first_item then ok false else first

-- The rest of popTimer, for the timer that left the heap: its callback, with the queue in which
-- handleTimeout calls it.
unfoldable pub fire : TimerQueue → ℕ → ℕ → Timer → Result (ℕ × TimerQueue)
fire q now fd t =
    let armed = store q fd (record t { timestamp = later now t.interval }) in
    let again = heap_insert armed fd >>= λ q'. ok (t.callback, q') in
    if t.repeated
    then again
    else if q.timers fd
    then ok (t.callback, erase q fd)
    else fault null_pointer

unfoldable pub pop_timer : TimerQueue → ℕ → Result (ℕ × TimerQueue)
pop_timer q now = do
  r ← heap_pop q
  fd ← or_fault r.0 null_pointer
  t ← deref r.1 fd
  fire r.1 now fd t
