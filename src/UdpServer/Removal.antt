-- ===== src/UdpServer/Removal.antt =====
-- removeConnectionInLoop of src/net/udp/UdpServer.cpp, when the address has another connection by then.
use libsaf.Common.{ℕ, ◌≡◌, ◌≢◌, sym, ap, ◌∙◌, true, none, some, Returns, Returns-map, ℕ_discrete}
use libsaf.Server.{Server, Peer, find, remove_connection_in_loop}
use libsaf.Server.Connections.{IsValid, remove_connection_in_loop-Forgotten}

-- The map after the removal of a connection whose address another connection has in the map.
pub record Orphaned (other : ℕ) (s' : Server) : Type 0 where
  pub lost : (key : ℕ) → find s'.connections key ≢ some other
  pub peer : Peer
  pub there : s'.peers other ≡ some peer
  pub bound : peer.bound ≡ true

-- removeConnectionInLoop of a valid server, for a connection whose address has another connection in
-- the map, takes that other one out of the map: no address has it, while its callbacks are still the
-- server's.
pub remove_connection_in_loop-Orphaned :
    (s : Server) (id other : ℕ) (p : Peer)
    → IsValid s
    → s.peers id ≡ some p
    → find s.connections p.key ≡ some other
    → id ≢ other
    → Returns (Orphaned other) (remove_connection_in_loop s id)
remove_connection_in_loop-Orphaned s id other p v e f ne =
    Returns-map (remove_connection_in_loop-Forgotten s id p e) λ s' r.
      let k = v.known p.key other f in
      record {
        lost = λ key g. elim (ℕ_discrete p.key key) [
          | yes same ↦
              let both : none ≡ some other = sym r.gone ∙ ap (find s'.connections) same ∙ g in cc
          | no differ ↦
              let k' = v.known key other (sym (r.mapped key differ) ∙ g) in
              let peers : some k.peer ≡ some k'.peer = sym k.found ∙ k'.found in
              let one : k.peer ≡ k'.peer = cc in
              differ (sym k.keyed ∙ ap (λ q. q.key) one ∙ k'.keyed)
        ];
        peer = k.peer;
        there = r.peers other ne ∙ k.found;
        bound = k.bound;
      }
