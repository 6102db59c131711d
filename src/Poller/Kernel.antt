-- ===== src/Poller/Kernel.antt =====
-- What the kernel documents of `epoll_ctl`, for the descriptors of one epoll instance.
use libsaf.Common.{
  ℕ, ◌≡◌, refl, List, [], ◌∷◌, ◌++◌, Option, none, some, if◌then◌else◌, ◌==◌, Option-cases, inl,
  inr, ◌∙◌,
}
use libsaf.Poller.{Events, Operation, ctl_add, ctl_mod, ctl_del, Control}

-- The interest list: the events that a descriptor waits for.
abbrev pub InterestList : Type 0
InterestList = ℕ → Option Events

abbrev pub change : InterestList → ℕ → Option Events → InterestList
change k fd e j = if fd == j then e else k j

-- ADD wants a descriptor that is not in the list (EEXIST), MOD and DEL one that is (ENOENT).
abbrev pub control_as : Operation → Option Events → InterestList → ℕ → Events → Option InterestList
control_as ctl_add none k fd e = some (change k fd (some e))
control_as ctl_add (some _) k fd e = none
control_as ctl_mod none k fd e = none
control_as ctl_mod (some _) k fd e = some (change k fd (some e))
control_as ctl_del none k fd e = none
control_as ctl_del (some _) k fd e = some (change k fd none)

abbrev pub control : InterestList → Control → Option InterestList
control k c = control_as c.operation (k c.fd) k c.fd c.events

abbrev pub next {ℓ κ} : {A : Type ℓ} {B : Type κ} → Option A → (A → Option B) → Option B
next none f = none
next (some a) f = f a

-- The list after such calls; `none` if one of them fails.
unfoldable pub replay : InterestList → List Control → Option InterestList
replay k [] = some k
replay k (c ∷ cs) = next (control k c) λ k'. replay k' cs

pub replay-append :
    (k : InterestList) (cs ds : List Control)
    → replay k (cs ++ ds) ≡ next (replay k cs) λ k'. replay k' ds
unfolding replay
replay-append k [] ds = refl
replay-append k (c ∷ cs) ds = elim (Option-cases (control k c)) [
  | inl e ↦ rw e
  | inr (k', e) ↦ rw e (replay-append k' cs ds)
]

pub replay-snoc :
    (k : InterestList) (cs : List Control) (c : Control) {k₁ k₂ : InterestList}
    → replay k cs ≡ some k₁
    → control k₁ c ≡ some k₂
    → replay k (cs ++ c ∷ []) ≡ some k₂
unfolding replay
replay-snoc k cs c e f = replay-append k cs (c ∷ []) ∙ rw (e, f) refl
