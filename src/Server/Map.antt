-- ===== src/Server/Map.antt =====
-- The map of connections as a function of the address.
use libsaf.Common.{
  ℕ, ◌≡◌, ◌≢◌, refl, sym, ap, ◌∙◌, arith, false, Bool-cases, inl, inr, [], ◌∷◌, none, some, ◌==◌,
  ==→eq, ==_refl, ne→==, if◌then◌else◌,
}
use libsaf.Server.{Entries, find, erase, put}

-- Each address has one entry.
abbrev pub IsDistinct : Entries → Type 0
IsDistinct [] = Unit {0}
IsDistinct ((k, id) ∷ rest) = (find rest k ≡ none) × IsDistinct rest

pub find-erase_same : (m : Entries) (key : ℕ) → find (erase m key) key ≡ none
unfolding find erase
find-erase_same [] key = refl
find-erase_same ((k, id) ∷ rest) key = elim (Bool-cases (k == key)) [
  | inl e ↦ rw e (find-erase_same rest key)
  | inr e ↦ rw (e, e) (find-erase_same rest key)
]

pub find-erase_other : (m : Entries) (key j : ℕ) → key ≢ j → find (erase m key) j ≡ find m j
unfolding find erase
find-erase_other [] key j h = refl
find-erase_other ((k, id) ∷ rest) key j h = elim (Bool-cases (k == key)) [
  | inl e ↦
      let other : (k == j) ≡ false = ne→== _ _ (λ same. h (sym (==→eq _ _ e) ∙ same)) in
      rw (e, other) (find-erase_other rest key j h)
  | inr e ↦ rw e (ap (λ r. if k == j then some id else r) (find-erase_other rest key j h))
]

pub find-put_same : (m : Entries) (key id : ℕ) → find (put m key id) key ≡ some id
unfolding find
find-put_same m key id = rw (==_refl key) refl

pub find-put_other : (m : Entries) (key id j : ℕ) → key ≢ j → find (put m key id) j ≡ find m j
unfolding find
find-put_other m key id j h = rw (ne→== _ _ h) (find-erase_other m key j h)

pub erase-IsDistinct : (m : Entries) (key : ℕ) → IsDistinct m → IsDistinct (erase m key)
unfolding erase
erase-IsDistinct [] key d = tt
erase-IsDistinct ((k, id) ∷ rest) key (d, ds) = elim (Bool-cases (k == key)) [
  | inl e ↦ rw e (erase-IsDistinct rest key ds)
  | inr e ↦
      let other : key ≢ k = λ same. ground arith in
      rw e (find-erase_other rest key k other ∙ d, erase-IsDistinct rest key ds)
]

pub put-IsDistinct : (m : Entries) (key id : ℕ) → IsDistinct m → IsDistinct (put m key id)
put-IsDistinct m key id d = (find-erase_same m key, erase-IsDistinct m key d)
