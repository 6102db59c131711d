-- ===== src/Server/Clear.antt =====
-- What stop() of src/net/udp/UdpServer.cpp does to the connections.
use libsaf.Common.{
  ℕ, ◌≡◌, ◌≢◌, ◌⊎◌, inl, inr, refl, sym, ap, subst, ◌∙◌, arith, false, Bool-cases, List, [], ◌∷◌,
  none, some, ok, or_fault, null_pointer, Returns, returns, Returns-bind, Returns-map, ◌==◌,
  ==_refl, ne→==, if◌then◌else◌, ℕ_discrete,
}
use libsaf.EventLoopCluster
use libsaf.EventLoopCluster.{EventLoopCluster}
use libsaf.EventLoopCluster.Rotation.{IsRunning, stop-Stopped}
use libsaf.Server.{
  Server, Peer, Entries, closes, find, peer, post, set_peer, close, close_in_loop,
  unbind_default_callbacks, unbind_and_close, clear_connections,
}
use libsaf.Server.Connections.{IsValid}
use libsaf.Server.Listed.{AllKnown, valid-AllKnown}

-- A connection whose close callback is not the server's.
pub record Unbound (s : Server) (id : ℕ) : Type 0 where
  pub peer : Peer
  pub there : s.peers id ≡ some peer
  pub bound : peer.bound ≡ false

-- Each connection of the entries has a state.
abbrev AllMade : Server → Entries → Type 0
AllMade s [] = Unit {0}
AllMade s ((key, id) ∷ rest) = ((p : Peer) × (s.peers id ≡ some p)) × AllMade s rest

abbrev pub unbound : Server → ℕ → Peer → Server
unbound s id p = set_peer s id (record p { bound = false })

-- One round: the connection is unbound, and its loop is to close it unless it is the server's.
abbrev pub round : Server → ℕ → Peer → Server
round s id p =
    if p.loop == s.cluster.master then unbound s id p else post (unbound s id p) p.loop (closes id)

close-round :
    (s : Server) (id : ℕ) (p : Peer)
    → close (unbind_default_callbacks s id p) id (record p { bound = false }) ≡ round s id p
unfolding close close_in_loop unbind_default_callbacks
close-round s id p = refl

round-peers : (s : Server) (id : ℕ) (p : Peer) → (round s id p).peers ≡ (unbound s id p).peers
round-peers s id p = elim (Bool-cases (p.loop == s.cluster.master)) [
  | inl e ↦ rw e refl
  | inr e ↦ rw e refl
]

round-cluster : (s : Server) (id : ℕ) (p : Peer) → (round s id p).cluster ≡ s.cluster
round-cluster s id p = elim (Bool-cases (p.loop == s.cluster.master)) [
  | inl e ↦ rw e refl
  | inr e ↦ rw e refl
]

round-Unbound : (s : Server) (id : ℕ) (p : Peer) → Unbound (round s id p) id
round-Unbound s id p = record {
  peer = record p { bound = false };
  there = ap (λ f. f id) (round-peers s id p) ∙ rw (==_refl id) refl;
  bound = refl;
}

round-kept : (s : Server) (id : ℕ) (p : Peer) (i : ℕ) → Unbound s i → Unbound (round s id p) i
round-kept s id p i u = elim (ℕ_discrete id i) [
  | yes e ↦ subst (Unbound (round s id p)) e (round-Unbound s id p)
  | no ne ↦ record {
    peer = u.peer;
    there = ap (λ f. f i) (round-peers s id p) ∙ rw (ne→== i id (λ e. ne (sym e))) u.there;
    bound = u.bound;
  }
]

round-made : (s : Server) (id : ℕ) (p : Peer) (m : Entries) → AllMade s m → AllMade (round s id p) m
round-made s id p [] h = tt
round-made s id p ((key, i) ∷ rest) ((q, e), h) = elim (ℕ_discrete id i) [
  | yes same ↦
      let u = round-Unbound s id p in
      ((u.peer, ap (round s id p).peers (sym same) ∙ u.there), round-made s id p rest h)
  | no ne ↦ (
    (q, ap (λ f. f i) (round-peers s id p) ∙ rw (ne→== i id (λ e. ne (sym e))) e),
    round-made s id p rest h,
  )
]

round-next : (s : Server) (id : ℕ) (p : Peer) → (round s id p).next ≡ s.next
round-next s id p = elim (Bool-cases (p.loop == s.cluster.master)) [
  | inl e ↦ rw e refl
  | inr e ↦ rw e refl
]

round-unmade :
    (s : Server) (id : ℕ) (p : Peer) (i : ℕ)
    → s.peers id ≡ some p
    → s.peers i ≡ none
    → (round s id p).peers i ≡ none
round-unmade s id p i e h =
    let other : i ≢ id = λ same. (let both : none ≡ some p = sym h ∙ ap s.peers same ∙ e in cc) in
    ap (λ f. f i) (round-peers s id p) ∙ rw (ne→== i id other) h

record Rounds (s : Server) (m : Entries) (s' : Server) : Type 0 where
  next : s'.next ≡ s.next
  unmade : (i : ℕ) → s.peers i ≡ none → s'.peers i ≡ none
  cluster : s'.cluster ≡ s.cluster
  stays : (i : ℕ) → Unbound s i → Unbound s' i
  all : (key id : ℕ) → find m key ≡ some id → Unbound s' id

unbind_and_close-Rounds :
    (s : Server) (m : Entries) → AllMade s m → Returns (Rounds s m) (unbind_and_close s m)
unfolding unbind_and_close find
unbind_and_close-Rounds s [] h = returns (record {
  next = refl;
  unmade = λ i e. e;
  cluster = refl;
  stays = λ i u. u;
  all = λ key id e. let no : none ≡ some id = e in cc;
})
unbind_and_close-Rounds s ((k, id) ∷ rest) ((p, e), h) =
    let found : peer s id ≡ ok p = ap (λ o. or_fault o null_pointer) e in
    rw (found, close-round s id p)
      (Returns-map (unbind_and_close-Rounds (round s id p) rest (round-made s id p rest h)) λ s' r.
        record {
          next = r.next ∙ round-next s id p;
          unmade = λ i none_there. r.unmade i (round-unmade s id p i e none_there);
          cluster = r.cluster ∙ round-cluster s id p;
          stays = λ i u. r.stays i (round-kept s id p i u);
          all = λ key j f. elim (Bool-cases (k == key)) [
            | inl same ↦
                let one : some id ≡ some j =
                  sym (ap (λ b. if b then some id else find rest key) same) ∙ f in
                let number : id ≡ j = cc in
                subst (Unbound s') number (r.stays id (round-Unbound s id p))
            | inr other ↦
                r.all key j (sym (ap (λ b. if b then some id else find rest key) other) ∙ f)
          ];
        })

-- The cluster has no threads, or runs its loops.
abbrev pub CanStop : EventLoopCluster → Type 0
CanStop c = (c.pairs ≡ []) ⊎ ((loops : List ℕ) × IsRunning loops c)

pub stop-without :
    (c : EventLoopCluster) → CanStop c → Returns (λ c'. c'.pairs ≡ []) (EventLoopCluster.stop c)
unfolding EventLoopCluster.stop EventLoopCluster.stop_all EventLoopCluster.all_stopped
stop-without c (inl e) = rw e (returns refl)
stop-without c (inr (loops, r)) = stop-Stopped loops c r

-- A server that has stopped.
pub record Cleared (s s' : Server) : Type 0 where
  pub valid : IsValid s'
  pub stopped : s'.running ≡ false
  pub emptied : s'.connections ≡ []
  pub threads : s'.cluster.pairs ≡ []
  pub all : (key id : ℕ) → find s.connections key ≡ some id → Unbound s' id

known-AllMade : (s : Server) (m : Entries) → AllKnown s m → AllMade s m
known-AllMade s [] h = tt
known-AllMade s ((key, id) ∷ rest) (k, ks) = ((k.peer, k.found), known-AllMade s rest ks)

-- The part of stop() that clears the connections of a valid server, whose cluster has no threads or
-- runs its loops, does not fault. The server is valid then, its map is empty, the cluster has no
-- threads, and no connection that was in the map calls the server back when it closes.
pub clear_connections-Cleared :
    (s : Server) → IsValid s → CanStop s.cluster → Returns (Cleared s) (clear_connections s)
unfolding clear_connections find
clear_connections-Cleared s v c =
    let made = known-AllMade s s.connections (valid-AllKnown s s.connections v.distinct v.known) in
    Returns-bind (unbind_and_close-Rounds s s.connections made) λ s' r.
      Returns-bind (stop-without s'.cluster (subst CanStop (sym r.cluster) c)) λ cluster none_left.
        returns (record {
          valid = record {
            distinct = tt;
            known = λ key id e. let no : none ≡ some id = e in cc;
            fresh = λ id l. r.unmade id (v.fresh id (omega (arith, l, r.next)));
          };
          stopped = refl;
          emptied = refl;
          threads = none_left;
          all = λ key id e.
              let u = r.all key id e in record { peer = u.peer; there = u.there; bound = u.bound };
        })
