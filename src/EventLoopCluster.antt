-- ===== src/EventLoopCluster.antt =====
-- src/net/EventLoopCluster.h and src/net/EventLoopCluster.cpp: the loops that share the work.
--
-- A loop is its number. `start` waits on its latch until each thread has made its loop, so the loops
-- are an argument, one for each thread. The counter is a signed 32-bit integer, by its bit pattern.
pub mod Rotation
mod Tests
use libsaf.Common.{
  ℕ, ◌+◌, ◌-◌, ◌%◌, ◌^◌, ◌≡◌, Bool, true, false, not, ◌&&◌, List, [], ◌∷◌, map, Option, none, some,
  Result, ok, fault, out_of_bounds, assert, ◌>>=◌, ltb, leb, ◌==◌, if◌then◌else◌, length, get_elem?,
}

pub record Pair : Type 0 where
  pub loop : Option ℕ
  pub has_thread : Bool

pub record EventLoopCluster : Type 0 where
  pub master : ℕ
  pub thread_count : ℕ
  pub counter : ℕ
  pub pairs : List Pair

abbrev has_loop : Option ℕ → Bool
has_loop none = false
has_loop (some _) = true

-- Pair::start and Pair::work up to the loop's start
abbrev pub ready : ℕ → Pair
ready loop = record { loop = some loop; has_thread = true }

-- Pair::stop, at whose end the thread has dropped its loop
unfoldable pub stop_pair : Pair → Result Pair
stop_pair p = assert (has_loop p.loop) (ok (record { loop = none; has_thread = false }))

-- Pair::~Pair of each
unfoldable pub all_stopped : List Pair → Bool
all_stopped [] = true
all_stopped (p ∷ ps) = not (has_loop p.loop) && not p.has_thread && all_stopped ps

unfoldable pub start : EventLoopCluster → List ℕ → Result EventLoopCluster
start c loops =
    let cleared = record c { thread_count = length loops; pairs = [] } in
    let started = record cleared { pairs = map ready loops } in
    assert (all_stopped c.pairs) (if ltb 1 (length loops) then ok started else ok cleared)

unfoldable pub stop_all : List Pair → Result (List Pair)
stop_all [] = ok []
stop_all (p ∷ ps) = stop_pair p >>= λ q. stop_all ps >>= λ qs. ok (q ∷ qs)

unfoldable pub stop : EventLoopCluster → Result EventLoopCluster
stop c = stop_all c.pairs >>= λ ps. assert (all_stopped ps) (ok (record c { pairs = [] }))

-- The counter as `size_t`: a negative integer is 2 ^ 64 more.
unfoldable pub to_size : ℕ → ℕ
to_size k = if ltb k (2 ^ 31) then k else 2 ^ 64 - 2 ^ 32 + k

abbrev pub is_none_left : List Pair → Bool
is_none_left [] = true
is_none_left (_ ∷ _) = false

abbrev pub loop_at : List Pair → ℕ → Result (Option ℕ)
loop_at ps i = loop_of (get_elem? ps i)
  where
    loop_of : Option Pair → Result (Option ℕ)
    loop_of none = fault out_of_bounds
    loop_of (some p) = ok p.loop

unfoldable pub get_next_loop : EventLoopCluster → Result (Option ℕ × EventLoopCluster)
get_next_loop c =
    let next = (c.counter + 1) % 2 ^ 32 in
    let chosen = loop_at c.pairs (to_size next % length c.pairs) >>= λ l.
    ok (l, record c { counter = next }) in
    if leb c.thread_count 1
    then ok (some c.master, c)
    else assert (not (is_none_left c.pairs)) chosen
