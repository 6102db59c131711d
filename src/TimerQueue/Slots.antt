-- ===== src/TimerQueue/Slots.antt =====
-- The heap's slots and the objects that they point to: what a read and a swap of
-- src/net/TimerQueue.cpp do where every slot points to a live timer that knows its position.
use libsaf.Common.{
  ℕ, zero, suc, ◌<◌, ◌≡◌, refl, sym, ap, ◌∙◌, arith, Option, none, some, List, [], ◌∷◌, ◌++◌,
  Option-cases, inl, inr, ok, Returns, returns, Returns-bind, Returns-map, ◌==◌, if◌then◌else◌,
  length, get_elem?, set, take, length-set,
}
use libsaf.TimerQueue.{
  Timer, Objects, TimerQueue, entry, deref, get_timestamp, store, set_heap_index, heap_swap,
}

-- The pointer in a slot; 0 past the end.
unfoldable pub at : List ℕ → ℕ → ℕ
at [] i = 0
at (x ∷ xs) zero = x
at (x ∷ xs) (suc i) = at xs i

get_elem?-at : (xs : List ℕ) (i : ℕ) → i < length xs → get_elem? xs i ≡ some (at xs i)
unfolding at
get_elem?-at [] i h = absurd (omega arith)
get_elem?-at (x ∷ xs) zero h = refl
get_elem?-at (x ∷ xs) (suc i) h = get_elem?-at xs i (omega arith)

pub at-set :
    (xs : List ℕ) (i v j : ℕ) → i < length xs → at (set xs i v) j ≡ (if i == j then v else at xs j)
unfolding at
at-set [] i v j h = absurd (omega arith)
at-set (x ∷ xs) zero v zero h = refl
at-set (x ∷ xs) zero v (suc j) h = ground arith
at-set (x ∷ xs) (suc i) v zero h = ground arith
at-set (x ∷ xs) (suc i) v (suc j) h = ground (arith, at-set xs i v j)

pub at-append : (xs ys : List ℕ) (i : ℕ) → i < length xs → at (xs ++ ys) i ≡ at xs i
unfolding at
at-append [] ys i h = absurd (omega arith)
at-append (x ∷ xs) ys zero h = refl
at-append (x ∷ xs) ys (suc i) h = at-append xs ys i (omega arith)

pub at-append_self : (xs : List ℕ) (y : ℕ) → at (xs ++ y ∷ []) (length xs) ≡ y
unfolding at
at-append_self [] y = refl
at-append_self (x ∷ xs) y = at-append_self xs y

pub at-take : (n : ℕ) (xs : List ℕ) (i : ℕ) → i < n → at (take n xs) i ≡ at xs i
unfolding at
at-take zero xs i h = absurd (omega arith)
at-take (suc n) [] i h = refl
at-take (suc n) (x ∷ xs) zero h = refl
at-take (suc n) (x ∷ xs) (suc i) h = at-take n xs i (omega arith)

-- What an object says but for its position, its position, and its time.
abbrev pub forget_index : Option Timer → Option Timer
forget_index none = none
forget_index (some t) = some (record t { heap_index = 0 })

abbrev pub index_of : Option Timer → Option ℕ
index_of none = none
index_of (some t) = some t.heap_index

abbrev pub body : Objects → ℕ → Option Timer
body o p = forget_index (o p)

abbrev pub position : Objects → ℕ → Option ℕ
position o p = index_of (o p)

abbrev pub due : Option Timer → ℕ
due none = 0
due (some t) = t.timestamp

unfoldable pub stamp : Objects → ℕ → ℕ
stamp o p = due (body o p)

-- Every slot but the first points to a live timer whose `_heapIndex` is the slot.
abbrev pub IsIndexed : TimerQueue → Type 0
IsIndexed q = (i : ℕ) → 0 < i → i < length q.heap → position q.objects (at q.heap i) ≡ some i

pub live :
    (o : Objects) (p i : ℕ)
    → position o p ≡ some i
    → (t : Timer) × (o p ≡ some t) × (t.heap_index ≡ i)
live o p i e = elim (Option-cases (o p)) [
  | inl n ↦ absurd (ground arith)
  | inr (t, s) ↦ (t, s, ground arith)
]

pub body-live :
    (o : Objects) (p : ℕ) {t : Timer} → body o p ≡ some t → (i : ℕ) × (position o p ≡ some i)
body-live o p e = elim (Option-cases (o p)) [
  | inl n ↦ absurd (ground arith)
  | inr (t, s) ↦ (t.heap_index, ground arith)
]

pub body-none : (o o' : Objects) (p : ℕ) → body o' p ≡ body o p → o p ≡ none → o' p ≡ none
body-none o o' p e n = elim (Option-cases (o' p)) [
  | inl done ↦ done
  | inr (t, s) ↦ absurd (ground arith)
]

pub distinct :
    (q : TimerQueue) (i j : ℕ)
    → IsIndexed q
    → 0 < i
    → i < length q.heap
    → 0 < j
    → j < length q.heap
    → at q.heap i ≡ at q.heap j
    → i ≡ j
distinct q i j v hi li hj lj e =
    let p : some i ≡ some j = sym (v i hi li) ∙ ap (position q.objects) e ∙ v j hj lj in cc

pub entry-ok : (q : TimerQueue) (i : ℕ) → i < length q.heap → entry q i ≡ ok (at q.heap i)
unfolding entry
entry-ok q i h = rw (get_elem?-at q.heap i h)

pub get_timestamp-ok :
    (q : TimerQueue) (i : ℕ)
    → IsIndexed q
    → 0 < i
    → i < length q.heap
    → get_timestamp q i ≡ ok (stamp q.objects (at q.heap i))
unfolding get_timestamp deref stamp
get_timestamp-ok q i v pos h =
    let (t, e, _) = live q.objects (at q.heap i) i (v i pos h) in rw (entry-ok q i h, e)

-- Two slots have changed places, and the two timers know it.
pub record Swapped (q : TimerQueue) (a b : ℕ) (q' : TimerQueue) : Type 0 where
  pub size : length q'.heap ≡ length q.heap
  pub slots :
      (c : ℕ)
      → at q'.heap c ≡ (if b == c then at q.heap a else if a == c then at q.heap b else at q.heap c)
  pub indexed : IsIndexed q'
  pub bodies : (p : ℕ) → body q'.objects p ≡ body q.objects p
  pub keys : q'.timers ≡ q.timers
  pub count : q'.counter ≡ q.counter

-- One timer has a new position, and nothing else has changed.
pub record Relabelled (q : TimerQueue) (p i : ℕ) (q' : TimerQueue) : Type 0 where
  pub slots : q'.heap ≡ q.heap
  pub positions :
      (r : ℕ) → position q'.objects r ≡ (if p == r then some i else position q.objects r)
  pub bodies : (r : ℕ) → body q'.objects r ≡ body q.objects r
  pub keys : q'.timers ≡ q.timers
  pub count : q'.counter ≡ q.counter

pub set_heap_index-Relabelled :
    (q : TimerQueue) (p i j : ℕ)
    → position q.objects p ≡ some j
    → Returns (Relabelled q p i) (set_heap_index q p i)
unfolding set_heap_index deref store
set_heap_index-Relabelled q p i j e =
    let (t, s, _) = live q.objects p j e in
    rw s (
      returns (record {
        slots = refl;
        positions = λ r. ground (arith, s);
        bodies = λ r. ground (arith, s);
        keys = refl;
        count = refl;
      }))

module _ (q : TimerQueue) (a b : ℕ) (v : IsIndexed q) (pa : 0 < a) (la : a < length q.heap)
    (pb : 0 < b) (lb : b < length q.heap) where
  abbrev exchanged : List ℕ
  exchanged = set (set q.heap a (at q.heap b)) b (at q.heap a)

  length-exchanged : length exchanged ≡ length q.heap
  length-exchanged =
      length-set (set q.heap a (at q.heap b)) b (at q.heap a) ∙ length-set q.heap a (at q.heap b)

  at-exchanged :
      (c : ℕ)
      → at exchanged c
        ≡ (if b == c then at q.heap a else if a == c then at q.heap b else at q.heap c)
  at-exchanged c = rw (
    at-set (set q.heap a (at q.heap b)) b (at q.heap a) c
        (omega (arith, lb, length-set q.heap a (at q.heap b))),
    at-set q.heap a (at q.heap b) c la,
  )

  exchanged-IsIndexed :
      (o : Objects)
      → ((r : ℕ)
          → position o r ≡ (
              if at q.heap a == r
              then some b
              else if at q.heap b == r
              then some a
              else position q.objects r))
      → (c : ℕ) → 0 < c
      → c < length exchanged
      → position o (at exchanged c) ≡ some c
  exchanged-IsIndexed o h c pc lc =
      let l : c < length q.heap = omega (arith, length-exchanged) in
      ground (
        arith,
        at-exchanged c,
        h (at exchanged c),
        v c pc l,
        distinct q c a v pc l pa la,
        distinct q c b v pc l pb lb,
        distinct q a b v pa la pb lb,
      )

  pub heap_swap-Swapped : Returns (Swapped q a b) (heap_swap q a b)
  unfolding heap_swap
  heap_swap-Swapped =
      rw (entry-ok q a la, entry-ok q b lb)
        (Returns-bind
          (set_heap_index-Relabelled (record q { heap = exchanged }) (at q.heap b) a b (v b pb lb))
          λ q₂ r₂.
            let here : position q₂.objects (at q.heap a) ≡ some a =
              ground (arith, r₂.positions (at q.heap a), v a pa la) in
            Returns-map (set_heap_index-Relabelled q₂ (at q.heap a) b a here) λ q₃ r₃.
              let same = r₃.slots ∙ r₂.slots in
              record {
                size = ap length same ∙ length-exchanged;
                slots = λ c. ap (λ xs. at xs c) same ∙ at-exchanged c;
                indexed = rw same (
                    exchanged-IsIndexed q₃.objects
                      λ r. ground (arith, r₃.positions r, r₂.positions r));
                bodies = λ p. r₃.bodies p ∙ r₂.bodies p;
                keys = r₃.keys ∙ r₂.keys;
                count = r₃.count ∙ r₂.count;
              })
