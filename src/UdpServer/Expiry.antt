-- ===== src/UdpServer/Expiry.antt =====
-- checkExpiredInLoop of src/net/udp/UdpServer.cpp: which connections leave the map, and what is posted
-- then.
use libsaf.Common.{
  ℕ, ◌+◌, ◌≡◌, refl, sym, ap, subst, ◌∙◌, Bool, false, Bool-cases, inl, inr, List, [], ◌∷◌, ◌++◌,
  append_assoc, append-nil, Option, none, some, ok, or_fault, null_pointer, ◌>>=◌, Returns, returns,
  ltb, ◌==◌, ==→eq, if◌then◌else◌,
}
use libsaf.Server.{
  Server, Peer, Entries, find, Posted, closes, removes, peer, close, close_in_loop,
  on_closed_in_connection,
}
use libsaf.Server.Map.{IsDistinct}
use libsaf.Server.Connections.{Known, IsValid}
use libsaf.Server.Listed.{AllKnown, valid-AllKnown}
use libsaf.UdpServer.{is_expired, split_expired, close_all, check_expired_in_loop, expired_time}

-- A connection of the table that has been silent for too long.
abbrev pub silent : Option Peer → ℕ → Bool
silent none now = false
silent (some p) now = ltb (p.actived_time + expired_time) now

-- What is posted when a connection of the server is closed: the connection's loop closes it, or, in
-- the server's loop, which closes it at once, its removal.
abbrev pub closing : ℕ → ℕ → Option Peer → List Posted
closing master id none = []
closing master id (some p) =
    if p.loop == master
    then record { loop = master; functor = removes id } ∷ []
    else record { loop = p.loop; functor = closes id } ∷ []

-- The closes of the silent connections of the map.
abbrev pub all_closing : Server → ℕ → Entries → List Posted
all_closing s now [] = []
all_closing s now ((key, id) ∷ rest) =
    (if silent (s.peers id) now then closing s.cluster.master id (s.peers id) else [])
    ++ all_closing s now rest

abbrev kept : Server → ℕ → Entries → Entries
kept s now [] = []
kept s now ((key, id) ∷ rest) =
    if silent (s.peers id) now then kept s now rest else (key, id) ∷ kept s now rest

abbrev deletes : Server → ℕ → Entries → List ℕ
deletes s now [] = []
deletes s now ((key, id) ∷ rest) =
    if silent (s.peers id) now then id ∷ deletes s now rest else deletes s now rest

abbrev closings : ℕ → (ℕ → Option Peer) → List ℕ → List Posted
closings master peers [] = []
closings master peers (id ∷ ids) = closing master id (peers id) ++ closings master peers ids

pub Known-same :
    (s s' : Server) (key id : ℕ) → s'.peers ≡ s.peers → Known s key id → Known s' key id
Known-same s s' key id same k = record {
  peer = k.peer;
  found = ap (λ peers. peers id) same ∙ k.found;
  keyed = k.keyed;
  bound = k.bound;
}

peer-Known : (s : Server) (key id : ℕ) (k : Known s key id) → peer s id ≡ ok k.peer
peer-Known s key id k = ap (λ o. or_fault o null_pointer) k.found

is_expired-silent :
    (s : Server) (now key id : ℕ)
    → Known s key id
    → is_expired s now id ≡ ok (silent (s.peers id) now)
unfolding is_expired
is_expired-silent s now key id k =
    ap (λ o. o >>= λ p. ok (ltb (p.actived_time + expired_time) now)) (peer-Known s key id k)
    ∙ ap (λ o. ok (silent o now)) (sym k.found)

split_expired-Split :
    (s : Server) (now : ℕ) (m : Entries)
    → AllKnown s m
    → split_expired s now m ≡ ok (kept s now m, deletes s now m)
unfolding split_expired
split_expired-Split s now [] k = refl
split_expired-Split s now ((key, id) ∷ rest) (k, ks) =
    rw (is_expired-silent s now key id k, split_expired-Split s now rest ks)
      (elim (Bool-cases (silent (s.peers id) now)) [ inl e ↦ rw e refl | inr e ↦ rw e refl ])

close-closing :
    (s : Server) (key id : ℕ) (k : Known s key id)
    → close s id k.peer ≡ record s { posted = s.posted ++ closing s.cluster.master id (s.peers id) }
unfolding close close_in_loop on_closed_in_connection
close-closing s key id k =
    subst (λ o. close s id k.peer ≡ record s { posted = s.posted ++ closing s.cluster.master id o })
      (sym k.found)
      (elim (Bool-cases (k.peer.loop == s.cluster.master)) [
        | inl e ↦ rw (e, k.bound) refl
        | inr e ↦ rw e refl
      ])

-- Connections that are there and bound.
abbrev AllThere : Server → List ℕ → Type 0
AllThere s [] = Unit {0}
AllThere s (id ∷ ids) = ((key : ℕ) × Known s key id) × AllThere s ids

there_in : (s s' : Server) (ids : List ℕ) → s'.peers ≡ s.peers → AllThere s ids → AllThere s' ids
there_in s s' [] same h = tt
there_in s s' (id ∷ ids) same ((key, k), ks) =
    ((key, Known-same s s' key id same k), there_in s s' ids same ks)

close_all-closings :
    (s : Server) (ids : List ℕ)
    → AllThere s ids
    → close_all s ids ≡ ok (record s { posted = s.posted ++ closings s.cluster.master s.peers ids })
unfolding close_all
close_all-closings s [] h = ap (λ ps. ok (record s { posted = ps })) (sym (append-nil s.posted))
close_all-closings s (id ∷ ids) ((key, k), ks) =
    let after = record s { posted = s.posted ++ closing s.cluster.master id (s.peers id) } in
    ap (λ o. o >>= λ p. close_all (close s id p) ids) (peer-Known s key id k)
    ∙ ap (λ t. close_all t ids) (close-closing s key id k)
    ∙ close_all-closings after ids (there_in s after ids refl ks)
    ∙ ap (λ ps. ok (record s { posted = ps })) (append_assoc s.posted _ _)

-- What the map has for an address, unless it is silent.
abbrev pub unless_silent : Server → ℕ → Option ℕ → Option ℕ
unless_silent s now none = none
unless_silent s now (some id) = if silent (s.peers id) now then none else some id

find-kept :
    (s : Server) (now : ℕ) (m : Entries) (key : ℕ)
    → IsDistinct m
    → find (kept s now m) key ≡ unless_silent s now (find m key)
unfolding find
find-kept s now [] key d = refl
find-kept s now ((k, id) ∷ rest) key (d, ds) =
    let ih = find-kept s now rest key ds in
    elim (Bool-cases (k == key)) [
      | inl e ↦
          let there : find (kept s now rest) key ≡ none =
            ih ∙ ap (unless_silent s now) (ap (find rest) (sym (==→eq _ _ e)) ∙ d) in
          elim (Bool-cases (silent (s.peers id) now)) [
            | inl q ↦ rw (q, e, q) there
            | inr q ↦ rw (q, e, q) refl
          ]
      | inr e ↦ elim (Bool-cases (silent (s.peers id) now)) [
        | inl q ↦ rw (q, e) ih
        | inr q ↦ rw (q, e) ih
      ]
    ]

kept-IsDistinct : (s : Server) (now : ℕ) (m : Entries) → IsDistinct m → IsDistinct (kept s now m)
kept-IsDistinct s now [] d = tt
kept-IsDistinct s now ((k, id) ∷ rest) (d, ds) = elim (Bool-cases (silent (s.peers id) now)) [
  | inl q ↦ rw q (kept-IsDistinct s now rest ds)
  | inr q ↦
      rw q (find-kept s now rest k ds ∙ ap (unless_silent s now) d, kept-IsDistinct s now rest ds)
]

unless_silent-inv :
    (s : Server) (now : ℕ) (o : Option ℕ) (id : ℕ) → unless_silent s now o ≡ some id → o ≡ some id
unless_silent-inv s now none id e = e
unless_silent-inv s now (some j) id e = elim (Bool-cases (silent (s.peers j) now)) [
  | inl q ↦ let no : none ≡ some id = sym (ap (λ b. if b then none else some j) q) ∙ e in cc
  | inr q ↦ sym (ap (λ b. if b then none else some j) q) ∙ e
]

deletes-AllThere :
    (s : Server) (now : ℕ) (m : Entries) → AllKnown s m → AllThere s (deletes s now m)
deletes-AllThere s now [] h = tt
deletes-AllThere s now ((k, id) ∷ rest) (h, hs) = elim (Bool-cases (silent (s.peers id) now)) [
  | inl q ↦ rw q ((k, h), deletes-AllThere s now rest hs)
  | inr q ↦ rw q (deletes-AllThere s now rest hs)
]

closings-deletes :
    (s : Server) (now : ℕ) (m : Entries)
    → closings s.cluster.master s.peers (deletes s now m) ≡ all_closing s now m
closings-deletes s now [] = refl
closings-deletes s now ((k, id) ∷ rest) = elim (Bool-cases (silent (s.peers id) now)) [
  | inl q ↦
      rw q (ap (λ ps. closing s.cluster.master id (s.peers id) ++ ps) (closings-deletes s now rest))
  | inr q ↦ rw q (closings-deletes s now rest)
]

-- The server after the check.
pub record Checked (s : Server) (now : ℕ) (s' : Server) : Type 0 where
  pub valid : IsValid s'
  pub mapped : (key : ℕ) → find s'.connections key ≡ unless_silent s now (find s.connections key)
  pub posted : s'.posted ≡ s.posted ++ all_closing s now s.connections
  pub peers : s'.peers ≡ s.peers
  pub next : s'.next ≡ s.next
  pub cluster : s'.cluster ≡ s.cluster

-- checkExpiredInLoop of a valid server does not fault. Afterwards the map has, for every address, the
-- connection that it had, unless that has been silent for more than 30 seconds, and then none. Every
-- connection that has left the map is closed once, in the order of the map: its close is posted to its
-- loop, or its removal to the server's loop where that is its own. The server is valid.
pub check_expired_in_loop-Checked :
    (s : Server) (now : ℕ) → IsValid s → Returns (Checked s now) (check_expired_in_loop s now)
unfolding check_expired_in_loop
check_expired_in_loop-Checked s now v =
    let known = valid-AllKnown s s.connections v.distinct v.known in
    let s' : Server = record s { connections = kept s now s.connections } in
    let there =
      there_in s s' (deletes s now s.connections) refl
        (deletes-AllThere s now s.connections known) in
    rw
      (
        split_expired-Split s now s.connections known,
        close_all-closings s' (deletes s now s.connections) there,
      )
      (returns (record {
        valid = record {
          distinct = kept-IsDistinct s now s.connections v.distinct;
          known = λ key id e. Known-same s _ key id refl (
              v.known key id (
                unless_silent-inv s now _ id
                  (sym (find-kept s now s.connections key v.distinct) ∙ e)));
          fresh = v.fresh;
        };
        mapped = λ key. find-kept s now s.connections key v.distinct;
        posted = ap (λ ps. s.posted ++ ps) (closings-deletes s now s.connections);
        peers = refl;
        next = refl;
        cluster = refl;
      }))
