-- ===== src/Server/Connections.antt =====
-- The connections of a server of src/net/Server.cpp: what making, closing and removing one does to the
-- map.
use libsaf.Common.{
  ℕ, zero, suc, ◌+◌, ◌≤◌, ◌<◌, ◌≡◌, ◌≢◌, ◌⊎◌, inl, inr, refl, sym, ap, subst, ◌∙◌, arith, true,
  false, List, [], ◌∷◌, ◌++◌, Option, none, some, ok, or_fault, null_pointer, ◌>>=◌, Returns,
  returns, Returns-bind, Returns-map, ◌==◌, ==_refl, ne→==, if◌then◌else◌, length, get_elem?,
  ℕ_discrete, le→leb,
}
use libsaf.EventLoopCluster.{EventLoopCluster, get_next_loop}
use libsaf.EventLoopCluster.Rotation.{IsRunning, get_next_loop-Chosen}
use libsaf.Server.{
  Server, Peer, find, erase, put, Functor, establishes, post, set_peer, new_connection,
  notify_connection_established, bind_default_callbacks, unbind_default_callbacks,
  remove_connection_in_loop,
}
use libsaf.Server.Map.{
  IsDistinct, find-erase_same, find-erase_other, find-put_same, find-put_other, put-IsDistinct,
}

-- A connection of the map: its address is its key, and its callbacks are the server's.
pub record Known (s : Server) (key id : ℕ) : Type 0 where
  pub peer : Peer
  pub found : s.peers id ≡ some peer
  pub keyed : peer.key ≡ key
  pub bound : peer.bound ≡ true

pub record IsValid (s : Server) : Type 0 where
  pub distinct : IsDistinct s.connections
  pub known : (key id : ℕ) → find s.connections key ≡ some id → Known s key id
  pub fresh : (id : ℕ) → s.next ≤ id → s.peers id ≡ none

-- The cluster has a loop to give: its master, if it has no threads, or those that it runs.
abbrev pub HasLoops : EventLoopCluster → Type 0
HasLoops c = ((c.thread_count ≤ 1) × (c.pairs ≡ [])) ⊎ ((loops : List ℕ) × IsRunning loops c)

pub record Next (r : Option ℕ × EventLoopCluster) : Type 0 where
  pub loop : ℕ
  pub given : r.0 ≡ some loop
  pub ready : HasLoops r.1

get_elem?-inside : (xs : List ℕ) (i : ℕ) → i < length xs → (x : ℕ) × (get_elem? xs i ≡ some x)
get_elem?-inside [] i h = absurd (omega arith)
get_elem?-inside (x ∷ xs) zero h = (x, refl)
get_elem?-inside (x ∷ xs) (suc i) h = get_elem?-inside xs i (omega arith)

get_next_loop-Next : (c : EventLoopCluster) → HasLoops c → Returns Next (get_next_loop c)
unfolding get_next_loop
get_next_loop-Next c (inl (few, bare)) =
    rw (le→leb _ _ few)
      (returns (record { loop = c.master; given = refl; ready = inl (few, bare) }))
get_next_loop-Next c (inr (loops, running)) =
    Returns-map (get_next_loop-Chosen loops c running) λ r h.
      let (l, e) = get_elem?-inside loops h.index h.inside in
      record { loop = l; given = h.loop ∙ e; ready = inr (loops, h.running) }

-- The server after it has made the connection.
pub record Made (s : Server) (key now : ℕ) (s' : Server) : Type 0 where
  pub valid : IsValid s'
  pub ready : HasLoops s'.cluster
  pub running : s'.running ≡ s.running
  pub loop : ℕ
  pub mapped : s'.connections ≡ put s.connections key s.next
  pub made :
      s'.peers s.next ≡ some (record { key = key; loop = loop; actived_time = now; bound = true })
  pub others : (id : ℕ) → s.next ≢ id → s'.peers id ≡ s.peers id
  pub next : s'.next ≡ s.next + 1
  pub posted : s'.posted ≡ s.posted ++ record { loop = loop; functor = establishes s.next } ∷ []

module _ (s : Server) (key now : ℕ) (v : IsValid s) where
  abbrev newest : ℕ → Peer
  newest loop = record { key = key; loop = loop; actived_time = now; bound = true }

  -- No connection of the map has the new one's number.
  older : (j id : ℕ) → find s.connections j ≡ some id → s.next ≢ id
  older j id e same =
      let nobody : s.peers id ≡ none = v.fresh id (omega (arith, same)) in
      let k = v.known j id e in let both : none ≡ some k.peer = sym nobody ∙ k.found in cc

  made-IsValid :
      (loop : ℕ) (s' : Server)
      → s'.connections ≡ put s.connections key s.next
      → s'.peers s.next ≡ some (newest loop)
      → ((id : ℕ) → s.next ≢ id → s'.peers id ≡ s.peers id)
      → s'.next ≡ s.next + 1
      → IsValid s'
  made-IsValid loop s' mapped made others next = record {
    distinct = subst IsDistinct (sym mapped) (put-IsDistinct s.connections key s.next v.distinct);
    known = λ j id e.
        let e' : find (put s.connections key s.next) j ≡ some id =
          sym (ap (λ m. find m j) mapped) ∙ e in
        elim (ℕ_discrete key j) [
          | yes same ↦
              let first : some s.next ≡ some id =
                sym (find-put_same s.connections key s.next)
                ∙ ap (find (put s.connections key s.next)) same
                ∙ e' in
              let number : s.next ≡ id = cc in
              record {
                peer = newest loop;
                found = ap s'.peers (sym number) ∙ made;
                keyed = same;
                bound = refl;
              }
          | no other ↦
              let old : find s.connections j ≡ some id =
                sym (find-put_other s.connections key s.next j other) ∙ e' in
              let k = v.known j id old in
              record {
                peer = k.peer;
                found = others id (older j id old) ∙ k.found;
                keyed = k.keyed;
                bound = k.bound;
              }
        ];
    fresh = λ id l.
        others id (λ same. absurd (omega (arith, same, l, next)))
        ∙ v.fresh id (omega (arith, l, next));
  }

  abbrev bound_peers : ℕ → ℕ → Option Peer
  bound_peers loop i =
      if i == s.next
      then some (newest loop)
      else if i == s.next
      then some (record (newest loop) { bound = false })
      else s.peers i

  newest_found : (loop : ℕ) → bound_peers loop s.next ≡ some (newest loop)
  newest_found loop = rw (==_refl s.next) refl

  not_newest : (loop id : ℕ) → s.next ≢ id → bound_peers loop id ≡ s.peers id
  not_newest loop id ne = rw (ne→== id s.next (λ e. ne (sym e))) refl

  pub new_connection-Made : HasLoops s.cluster → Returns (Made s key now) (new_connection s key now)
  unfolding new_connection notify_connection_established bind_default_callbacks
  new_connection-Made h = Returns-bind (get_next_loop-Next s.cluster h) λ r n. rw n.given (
      returns (record {
        valid = made-IsValid n.loop _ refl (newest_found n.loop) (not_newest n.loop) refl;
        ready = n.ready;
        running = refl;
        loop = n.loop;
        mapped = refl;
        made = newest_found n.loop;
        others = not_newest n.loop;
        next = refl;
        posted = refl;
      }))

-- The server without the connection that the map has for an address.
pub record Forgotten (s : Server) (id key : ℕ) (s' : Server) : Type 0 where
  pub gone : find s'.connections key ≡ none
  pub mapped : (j : ℕ) → key ≢ j → find s'.connections j ≡ find s.connections j
  pub peers : (i : ℕ) → id ≢ i → s'.peers i ≡ s.peers i
  pub posted : s'.posted ≡ s.posted

-- removeConnectionInLoop erases the entry of the connection's address, also when the entry is another
-- connection's.
pub remove_connection_in_loop-Forgotten :
    (s : Server) (id : ℕ) (p : Peer)
    → s.peers id ≡ some p
    → Returns (Forgotten s id p.key) (remove_connection_in_loop s id)
unfolding remove_connection_in_loop unbind_default_callbacks
remove_connection_in_loop-Forgotten s id p e =
    subst
      (λ o. Returns (Forgotten s id p.key) (
        or_fault o null_pointer >>= λ p. ok (record (set_peer s id (record p { bound = false })) {
          connections = erase s.connections p.key;
        })))
      (sym e)
      (returns (record {
        gone = find-erase_same s.connections p.key;
        mapped = find-erase_other s.connections p.key;
        peers = λ i ne. rw (ne→== i id (λ same. ne (sym same))) refl;
        posted = refl;
      }))

-- Posting a functor changes no connection.
pub post-IsValid : (s : Server) (loop : ℕ) (f : Functor) → IsValid s → IsValid (post s loop f)
post-IsValid s loop f v = record {
  distinct = v.distinct;
  known = λ key id e.
      let k = v.known key id e in
      record { peer = k.peer; found = k.found; keyed = k.keyed; bound = k.bound };
  fresh = v.fresh;
}
