-- ===== src/EventLoopCluster/Tests.antt =====
-- A cluster of three loops, and the theorems there.
use libsaf.Common.{ℕ, refl, arith, List, [], ◌∷◌, map, Returns}
use libsaf.EventLoopCluster.{EventLoopCluster, ready, get_next_loop}
use libsaf.EventLoopCluster.Rotation.{IsRunning, Chosen, get_next_loop-Chosen}

abbrev three : List ℕ
three = 11 ∷ 12 ∷ 13 ∷ []

-- Before start(), and while it runs, with the counter about to wrap.
abbrev idle : EventLoopCluster
idle = record { master = 10; thread_count = 1; counter = 0; pairs = [] }

abbrev running : EventLoopCluster
running = record { master = 10; thread_count = 3; counter = 4294967295; pairs = map ready three }

running-IsRunning : IsRunning three running
running-IsRunning = record { many = omega arith; thread_count = refl; pairs = refl }

get_next_loop-Chosen_example : Returns (Chosen three running) (get_next_loop running)
get_next_loop-Chosen_example = get_next_loop-Chosen three running running-IsRunning
