-- ===== src/Common/Outcome.antt =====
-- How a call ends: with a value, or with one of the ways in which the program stops or is undefined.
use mathlib.Core.Path.{◌≡◌, refl}
use mathlib.Core.Bool.{Bool, true, false}
use mathlib.Core.Option.{Option, none, some}
use libsaf.Common.Tests.{if◌then◌else◌}

-- A failed `assert`; an access outside an object; an access to a freed object; a call of a null
-- pointer; a cast to a class that the object is not of; `LOG_FATAL`, which aborts; a counter of the
-- model that ran out.
pub data Fault : Type 0 where
  assertion out_of_bounds use_after_free null_pointer bad_cast fatal out_of_fuel : Fault

pub data Result {ℓ} (A : Type ℓ) : Type ℓ where
  ok : A → Result A
  fault : Fault → Result A

infixl 5 ◌>>=◌
abbrev pub ◌>>=◌ {i j} : {V : Type i} {W : Type j} → Result V → (V → Result W) → Result W
fault e >>= follow = fault e
ok v >>= follow = follow v

abbrev pub assert {ℓ} : {A : Type ℓ} → Bool → Result A → Result A
assert true r = r
assert false r = fault assertion

abbrev pub map_result {ℓ κ} : {A : Type ℓ} {B : Type κ} → (A → B) → Result A → Result B
map_result f (ok a) = ok (f a)
map_result f (fault e) = fault e

abbrev pub or_fault {ℓ} : {A : Type ℓ} → Option A → Fault → Result A
or_fault (some a) e = ok a
or_fault none e = fault e

-- The call ends with a value for which `Goal` holds.
pub data Returns {i j} {V : Type i} (Goal : V → Type j) : Result V → Type (i ⊔ j) where
  returns : {v : V} → Goal v → Returns Goal (ok v)

-- The value, with the two things that are known of it.
pub Returns-inv {i j} :
    {V : Type i} {Goal : V → Type j} {call : Result V}
    → Returns Goal call
    → (v : V) × (call ≡ ok v) × Goal v
Returns-inv (returns known) = (_, refl, known)

-- A branch needs its goal only where it is taken.
pub Returns-if {i j} :
    {V : Type i} {Goal : V → Type j} {yes no : Result V} (test : Bool)
    → (test ≡ true → Returns Goal yes)
    → (test ≡ false → Returns Goal no)
    → Returns Goal (if test then yes else no)
Returns-if false on_yes on_no = on_no refl
Returns-if true on_yes on_no = on_yes refl

pub Returns-map {i j k} :
    {V : Type i} {Goal : V → Type j} {Wider : V → Type k} {call : Result V}
    → Returns Goal call
    → ((v : V) → Goal v → Wider v)
    → Returns Wider call
Returns-map (returns known) widen = returns (widen _ known)

-- What follows a call starts from its value.
pub Returns-bind {i j k l} :
    {V : Type i} {W : Type k} {Goal : V → Type j} {Next : W → Type l} {call : Result V}
    {follow : V → Result W}
    → Returns Goal call
    → ((v : V) → Goal v → Returns Next (follow v))
    → Returns Next (call >>= follow)
Returns-bind (returns known) proceed = proceed _ known
