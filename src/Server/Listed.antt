-- ===== src/Server/Listed.antt =====
-- The connections that the map of a valid server of src/net/Server.h lists.
use libsaf.Common.{
  ℕ, ◌≡◌, refl, sym, ap, ◌∙◌, Bool-cases, inl, inr, [], ◌∷◌, none, some, ◌==◌, ==→eq, ==_refl,
}
use libsaf.Server.{Server, Entries, find}
use libsaf.Server.Map.{IsDistinct}
use libsaf.Server.Connections.{Known}

-- Every connection of the list is there and bound.
abbrev pub AllKnown : Server → Entries → Type 0
AllKnown s [] = Unit {0}
AllKnown s ((key, id) ∷ rest) = Known s key id × AllKnown s rest

pub valid-AllKnown :
    (s : Server) (m : Entries)
    → IsDistinct m
    → ((key id : ℕ) → find m key ≡ some id → Known s key id)
    → AllKnown s m
unfolding find
valid-AllKnown s [] d h = tt
valid-AllKnown s ((k, id) ∷ rest) (d, ds) h = (
  h k id (rw (==_refl k) refl),
  valid-AllKnown s rest ds λ key j e. h key j (elim (Bool-cases (k == key)) [
    | inl q ↦ let both : none ≡ some j = sym d ∙ ap (find rest) (==→eq _ _ q) ∙ e in cc
    | inr q ↦ rw q e
  ]),
)
