-- ===== src/EventLoop/Counting.antt =====
-- Counting the numbers that pass a test, for the loop of runTimers in src/net/EventLoop.cpp.
use libsaf.Common.{
  ℕ, zero, suc, ◌+◌, ◌≤◌, ◌<◌, ◌≡◌, ◌≢◌, refl, sym, ap, ◌∙◌, arith, Bool, true, false,
  if◌then◌else◌, ℕ_discrete,
}

-- The numbers below a bound that pass a test.
unfoldable pub count : ℕ → (ℕ → Bool) → ℕ
count zero p = 0
count (suc n) p = (if p n then 1 else 0) + count n p

pub count-le : (n : ℕ) (p : ℕ → Bool) → count n p ≤ n
unfolding count
count-le zero p = omega arith
count-le (suc n) p = ground (arith, count-le n p)

pub count-same : (n : ℕ) (p p' : ℕ → Bool) → ((k : ℕ) → k < n → p' k ≡ p k) → count n p' ≡ count n p
unfolding count
count-same zero p p' h = refl
count-same (suc n) p p' h =
    rw (h n (omega arith), count-same n p p' (λ k l. h k (omega arith))) refl

-- One number fewer passes.
pub count-drop :
    (n : ℕ) (p p' : ℕ → Bool) (k : ℕ)
    → k < n
    → p k ≡ true
    → p' k ≡ false
    → ((j : ℕ) → k ≢ j → p' j ≡ p j)
    → count n p ≡ suc (count n p')
unfolding count
count-drop zero p p' k l on off h = absurd (omega arith)
count-drop (suc n) p p' k l on off h = elim (ℕ_discrete k n) [
  | yes e ↦
      let on' : p n ≡ true = ap p (sym e) ∙ on in
      let off' : p' n ≡ false = ap p' (sym e) ∙ off in
      let rest =
        count-same n p p' (λ j less. h j (λ same. absurd (omega (arith, e, same, less)))) in
      rw (on', off', rest) (omega arith)
  | no other ↦
      let less : k < n = omega (arith, l, other) in
      rw (h n other) (ground (arith, count-drop n p p' k less on off h))
]
