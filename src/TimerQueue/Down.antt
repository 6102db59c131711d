-- ===== src/TimerQueue/Down.antt =====
-- heapDown of src/net/TimerQueue.cpp: it repairs a heap in which one timer may come after those below it,
-- and leaves the slots before its start alone in any heap.
use libsaf.Common.{
  ℕ, zero, suc, ◌+◌, ◌-◌, ◌*◌, ◌/◌, ◌≤◌, ◌<◌, ◌≡◌, ◌≢◌, ◌⊎◌, refl, arith, Bool-cases, inl, inr, ok,
  Returns, returns, Returns-bind, Returns-map, ltb, leb, ==→eq, ltb→lt, if◌then◌else◌, ◌==◌, length,
}
use libsaf.TimerQueue.{TimerQueue, before, down_target, heap_down_loop, heap_down}
use libsaf.TimerQueue.Slots.{IsIndexed, Swapped, heap_swap-Swapped}
use libsaf.TimerQueue.Order.{
  key, get_timestamp-key, IsOrdered, Rearranged, Rearranged-refl, Rearranged-trans,
  Swapped-Rearranged, key-Swapped,
}

-- Only the edges below `i` may be out of order.
pub record DownInv (q : TimerQueue) (i : ℕ) : Type 0 where
  pub edges : (c : ℕ) → 1 < c → c < length q.heap → c / 2 ≢ i → key q (c / 2) ≤ key q c
  pub bridged : (c : ℕ) → 1 < c → c < length q.heap → c / 2 ≡ i → 1 < i → key q (i / 2) ≤ key q c

-- The earliest of `i` and its children.
record IsTarget (q : TimerQueue) (i m : ℕ) : Type 0 where
  inside : m < length q.heap
  child : (m ≡ i) ⊎ (m ≡ 2 * i) ⊎ (m ≡ 2 * i + 1)
  least : (c : ℕ) → 1 < c → c < length q.heap → c / 2 ≡ i → key q m ≤ key q c
  low : key q m ≤ key q i
  strict : m ≢ i → key q m < key q i

module _ (q : TimerQueue) (v : IsIndexed q) where
  before-ok :
      (c t : ℕ)
      → 0 < c
      → c < length q.heap
      → 0 < t
      → t < length q.heap
      → before q c t ≡ ok (if ltb (key q c) (key q t) then c else t)
  unfolding before
  before-ok c t pc lc pt lt = rw (get_timestamp-key q c v pc lc, get_timestamp-key q t v pt lt)

  -- The left child or `i`, and then the right child or that.
  abbrev nearer : ℕ → ℕ → ℕ
  nearer c t = if ltb (key q c) (key q t) then c else t

  module _ (i : ℕ) (pi : 0 < i) (l : 2 * i < length q.heap) where
    two-IsTarget : 2 * i + 1 < length q.heap → IsTarget q i (nearer (2 * i + 1) (nearer (2 * i) i))
    two-IsTarget r = record {
      inside = ground arith;
      child = ground arith;
      least = λ c p lc e. ground (arith, child c e);
      low = ground arith;
      strict = λ n. ground arith;
    }
      where
        child : (c : ℕ) → c / 2 ≡ i → (c ≡ 2 * i) ⊎ (c ≡ 2 * i + 1)
        child c e = omega arith

    one-IsTarget : length q.heap ≤ 2 * i + 1 → IsTarget q i (nearer (2 * i) i)
    one-IsTarget r = record {
      inside = ground arith;
      child = ground arith;
      least = λ c p lc e. ground (arith, child c lc e);
      low = ground arith;
      strict = λ n. ground arith;
    }
      where
        child : (c : ℕ) → c < length q.heap → c / 2 ≡ i → c ≡ 2 * i
        child c lc e = omega arith

    down_target-IsTarget : Returns (IsTarget q i) (down_target q i)
    unfolding down_target
    down_target-IsTarget =
        let t = nearer (2 * i) i in
        let pt : 0 < nearer (2 * i) i = ground arith in
        let lt : nearer (2 * i) i < length q.heap = ground arith in
        rw (before-ok (2 * i) i (omega arith) l pi (omega arith))
          (elim (Bool-cases (ltb (2 * i + 1) (length q.heap))) [
            | inl e ↦
                let r : 2 * i + 1 < length q.heap = ltb→lt _ _ e in
                rw (e, before-ok (2 * i + 1) (nearer (2 * i) i) (omega arith) r pt lt)
                  (returns (two-IsTarget r))
            | inr e ↦ rw e (returns (one-IsTarget (ground arith)))
          ])

-- What heapDown does from `i` on in any indexed heap: it leaves the slots before `i` alone, and the
-- timer at `i` is then no later.
pub record Lowered (q : TimerQueue) (i : ℕ) (q' : TimerQueue) : Type 0 where
  pub same : Rearranged q q'
  pub kept : (c : ℕ) → c < i → key q' c ≡ key q c
  pub low : key q' i ≤ key q i

module _ (q : TimerQueue) (i m : ℕ) (pi : 0 < i) (li : i < length q.heap) (t : IsTarget q i m)
    (n : m ≢ i) (q' : TimerQueue) (s : Swapped q i m q') where
  swapped_key :
      (c : ℕ) → key q' c ≡ (if m == c then key q i else if i == c then key q m else key q c)
  swapped_key = key-Swapped q i m pi li (omega (arith, t.child, pi)) t.inside q' s

  swap-DownInv : DownInv q i → DownInv q' m
  swap-DownInv v = record {
    edges = λ c p l r. ground (
      arith,
      s.size,
      t.child,
      t.strict,
      swapped_key c,
      swapped_key (c / 2),
      v.edges c,
      v.bridged m,
      t.least c,
    );
    bridged =
        λ c p l e r. ground (arith, s.size, t.child, swapped_key c, swapped_key (m / 2), v.edges c);
  }

  swap-Lowered : (r : TimerQueue) → Lowered q' m r → Lowered q i r
  swap-Lowered r w = record {
    same =
        Rearranged-trans (Swapped-Rearranged q i m pi li (omega (arith, t.child, pi)) t.inside q' s)
          w.same;
    kept = λ c l. ground (arith, t.child, w.kept c, swapped_key c);
    low = ground (arith, t.child, t.strict, w.kept i, swapped_key i);
  }

abbrev pub Repaired : TimerQueue → ℕ → TimerQueue → Type 0
Repaired q i q' = Lowered q i q' × (DownInv q i → IsOrdered q')

unmoved :
    (q : TimerQueue) (i : ℕ)
    → IsIndexed q
    → ((c : ℕ) → 1 < c → c < length q.heap → c / 2 ≡ i → key q i ≤ key q c)
    → Repaired q i q
unmoved q i v h = (
  record { same = Rearranged-refl q v; kept = λ c l. refl; low = omega arith },
  λ d c p l. ground (arith, d.edges c, h c),
)

heap_down_loop_restores :
    (fuel : ℕ) (q : TimerQueue) (i : ℕ)
    → IsIndexed q
    → 0 < i
    → length q.heap - i < fuel
    → Returns (Repaired q i) (heap_down_loop fuel q i)
unfolding heap_down_loop
heap_down_loop_restores zero q i v pi f = absurd (omega arith)
heap_down_loop_restores (suc fuel) q i v pi f = elim (Bool-cases (leb (length q.heap) (2 * i))) [
  | inl leaf ↦ rw leaf (returns (unmoved q i v λ c p l e. absurd (ground arith)))
  | inr inner ↦ rw inner (
      Returns-bind (down_target-IsTarget q v i pi (ground arith)) λ m t.
        elim (Bool-cases (i == m)) [
          | inl e ↦
              let here : i ≡ m = ==→eq i m e in
              rw e (returns (unmoved q i v λ c p l h. ground (arith, t.least c)))
          | inr e ↦
              let n : m ≢ i = ground arith in
              let li : i < length q.heap = ground arith in
              rw e (
                Returns-bind (heap_swap-Swapped q i m v pi li (omega (arith, t.child, pi)) t.inside)
                  λ q' s.
                    let later : i < m = omega (arith, t.child, n) in
                    Returns-map
                      (heap_down_loop_restores fuel q' m s.indexed (omega arith)
                        (omega (arith, s.size)))
                      λ r (w, o). (
                        swap-Lowered q i m pi li t n q' s r w,
                        λ d. o (swap-DownInv q i m pi li t n q' s d),
                      ))
        ])
]

-- In any indexed heap heapDown ends, and does as `Lowered` says; it puts the heap in order if only
-- the edges below its start may be out of order.
pub heap_down_restores :
    (q : TimerQueue) (i : ℕ) → IsIndexed q → 0 < i → Returns (Repaired q i) (heap_down q i)
unfolding heap_down
heap_down_restores q i v pi = heap_down_loop_restores (length q.heap + 1) q i v pi (omega arith)
