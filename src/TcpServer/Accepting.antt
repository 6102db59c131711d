-- ===== src/TcpServer/Accepting.antt =====
-- What a server of src/net/tcp/TcpServer.cpp does with the connections that it accepts.
use libsaf.Common.{
  ℕ, ◌+◌, ◌≡◌, ◌≢◌, ◌<◌, refl, sym, ap, subst, ◌∙◌, arith, true, List, [], ◌∷◌, ◌++◌, append_assoc,
  append-nil, some, ok, Returns, returns, Returns-bind, Returns-map, length, ℕ_discrete, ==_refl,
  ne→==, ◌==◌, if◌then◌else◌,
}
use libsaf.Server.{Peer, Entries, Posted, find, put, establishes}
use libsaf.Server.Map.{find-put_same, find-put_other}
use libsaf.Server.Connections.{new_connection-Made}
use libsaf.TcpConnection.{connecting}
use libsaf.Acceptor.{Acceptor, handle_read_in_loop}
use libsaf.TcpServer.{Link, TcpServer, start, new_connection_in_loop, handle_accept, handle_accepts}
use libsaf.TcpServer.Serving.{
  IsLinked, IsStopped, IsServing, serving_socket, succeed, start-IsServing,
}

-- A new connection from an address, by its loop, and its link.
abbrev pub fresh_peer : ℕ → ℕ → Peer
fresh_peer addr loop = record { key = addr; loop = loop; actived_time = 0; bound = true }

abbrev pub fresh_link : ℕ → Link
fresh_link connfd = record { socket = connfd; status = connecting }

-- The map, after connections from the n-th on have been put there by their addresses.
abbrev pub put_all : Entries → ℕ → List (ℕ × ℕ) → Entries
put_all m n [] = m
put_all m n ((connfd, addr) ∷ peers) = put_all (put m addr n) (n + 1) peers

-- The server has the connections from the n-th on, each with its address and its descriptor, and the
-- functors establish them in their loops, in this order.
abbrev pub Joined : TcpServer → ℕ → List (ℕ × ℕ) → List Posted → Type 0
Joined s n [] ps = ps ≡ []
Joined s n ((connfd, addr) ∷ peers) ps =
    (loop : ℕ) × (rest : List Posted) × (ps
      ≡ record { loop = loop; functor = establishes n } ∷ rest)
    × (s.server.peers n ≡ some (fresh_peer addr loop))
    × (s.links n ≡ some (fresh_link connfd))
    × Joined s (n + 1) peers rest

-- The server has taken these connections.
pub record Accepted (fd addr : ℕ) (peers : List (ℕ × ℕ)) (s s' : TcpServer) : Type 0 where
  pub serving : IsServing fd addr s'
  pub next : s'.server.next ≡ s.server.next + length peers
  pub mapped : s'.server.connections ≡ put_all s.server.connections s.server.next peers
  pub new : List Posted
  pub posted : s'.server.posted ≡ s.server.posted ++ new
  pub joined : Joined s' s.server.next peers new
  pub older :
      (i : ℕ)
      → i < s.server.next
      → (s'.server.peers i ≡ s.server.peers i) × (s'.links i ≡ s.links i)
  pub acceptor : s'.acceptor ≡ s.acceptor

handle_read_in_loop-given :
    (a : Acceptor) (fd addr : ℕ) (peer : ℕ × ℕ)
    → a.socket ≡ some (serving_socket fd addr)
    → a.has_callback ≡ true
    → handle_read_in_loop a (some peer) ≡ ok (some peer, a)
unfolding handle_read_in_loop
handle_read_in_loop-given a fd addr peer e on = rw (e, on) refl

-- One connection more.
record Taken (fd addr : ℕ) (peer : ℕ × ℕ) (s s' : TcpServer) : Type 0 where
  serving : IsServing fd addr s'
  next : s'.server.next ≡ s.server.next + 1
  mapped : s'.server.connections ≡ put s.server.connections peer.1 s.server.next
  loop : ℕ
  posted :
      s'.server.posted
      ≡ s.server.posted ++ record { loop = loop; functor = establishes s.server.next } ∷ []
  made : s'.server.peers s.server.next ≡ some (fresh_peer peer.1 loop)
  link : s'.links s.server.next ≡ some (fresh_link peer.0)
  older :
      (i : ℕ)
      → i < s.server.next
      → (s'.server.peers i ≡ s.server.peers i) × (s'.links i ≡ s.links i)
  acceptor : s'.acceptor ≡ s.acceptor

-- The links with the new one.
module _ (s s' : TcpServer) (connfd addr : ℕ)
    (new : s'.links s.server.next ≡ some (fresh_link connfd))
    (others : (i : ℕ) → s.server.next ≢ i → s'.links i ≡ s.links i)
    (mapped : s'.server.connections ≡ put s.server.connections addr s.server.next) where
  joined-IsLinked : IsLinked s → IsLinked s'
  joined-IsLinked v j id e = elim (ℕ_discrete s.server.next id) [
    | yes same ↦ (fresh_link connfd, ap s'.links (sym same) ∙ new)
    | no other ↦ elim (ℕ_discrete addr j) [
      | yes here ↦
          let one : some s.server.next ≡ some id =
            sym (find-put_same s.server.connections addr s.server.next)
            ∙ ap (find (put s.server.connections addr s.server.next)) here
            ∙ sym (ap (λ m. find m j) mapped)
            ∙ e in
          absurd (other cc)
      | no there ↦
          let (l, found) = v j id (
            sym (find-put_other s.server.connections addr s.server.next j there)
            ∙ sym (ap (λ m. find m j) mapped)
            ∙ e) in
          (l, others id other ∙ found)
    ]
  ]

handle_accept-Taken :
    (s : TcpServer) (fd addr : ℕ) (peer : ℕ × ℕ)
    → IsServing fd addr s
    → Returns (Taken fd addr peer s) (handle_accept s (some peer))
unfolding handle_accept new_connection_in_loop
handle_accept-Taken s fd addr (connfd, from) v =
    rw (handle_read_in_loop-given s.acceptor fd addr (connfd, from) v.socket v.called) (
      Returns-bind (new_connection-Made s.server from 0 v.valid v.ready) λ server m.
        let s' : TcpServer = record {
          server = server;
          links = λ i. if i == s.server.next then some (fresh_link connfd) else s.links i;
          acceptor = s.acceptor;
        } in
        let new : s'.links s.server.next ≡ some (fresh_link connfd) =
          rw (==_refl s.server.next) refl in
        let others : (i : ℕ) → s.server.next ≢ i → s'.links i ≡ s.links i =
          λ i ne. rw (ne→== i s.server.next (λ e. ne (sym e))) refl in
        returns (record {
          serving = record {
            valid = m.valid;
            linked = joined-IsLinked s s' connfd from new others m.mapped v.linked;
            running = m.running ∙ v.running;
            ready = m.ready;
            listening = v.listening;
            socket = v.socket;
            called = v.called;
          };
          next = m.next;
          mapped = m.mapped;
          loop = m.loop;
          posted = m.posted;
          made = m.made;
          link = new;
          older = λ i l.
              let ne : s.server.next ≢ i = λ same. absurd (omega (arith, same, l)) in
              (m.others i ne, others i ne);
          acceptor = refl;
        }))

-- One connection, and then the others.
module _ (fd addr : ℕ) (peer : ℕ × ℕ) (peers : List (ℕ × ℕ)) (s s₁ s₂ : TcpServer)
    (first : Taken fd addr peer s s₁) (later : Accepted fd addr peers s₁ s₂) where
  newest_kept :
      (s₂.server.peers s.server.next ≡ s₁.server.peers s.server.next)
      × (s₂.links s.server.next ≡ s₁.links s.server.next)
  newest_kept = later.older s.server.next (omega (arith, first.next))

  Taken-Accepted : Accepted fd addr (peer ∷ peers) s s₂
  Taken-Accepted = record {
    serving = later.serving;
    next = omega (arith, later.next, first.next);
    mapped =
        later.mapped
        ∙ ap (λ m. put_all m s₁.server.next peers) first.mapped
        ∙ ap (λ n. put_all (put s.server.connections peer.1 s.server.next) n peers) first.next;
    new = record { loop = first.loop; functor = establishes s.server.next } ∷ later.new;
    posted =
        later.posted
        ∙ ap (λ ps. ps ++ later.new) first.posted
        ∙ append_assoc s.server.posted
            (record { loop = first.loop; functor = establishes s.server.next } ∷ []) later.new;
    joined = (
      first.loop,
      later.new,
      refl,
      newest_kept.0 ∙ first.made,
      newest_kept.1 ∙ first.link,
      subst (λ n. Joined s₂ n peers later.new) first.next later.joined,
    );
    older = λ i l.
        let now = first.older i l in
        let then_on = later.older i (omega (arith, l, first.next)) in
        (then_on.0 ∙ now.0, then_on.1 ∙ now.1);
    acceptor = later.acceptor ∙ first.acceptor;
  }

handle_accepts-Accepted :
    (s : TcpServer) (fd addr : ℕ) (peers : List (ℕ × ℕ))
    → IsServing fd addr s
    → Returns (Accepted fd addr peers s) (handle_accepts s peers)
unfolding handle_accepts
handle_accepts-Accepted s fd addr [] v = returns (record {
  serving = v;
  next = omega arith;
  mapped = refl;
  new = [];
  posted = sym (append-nil s.server.posted);
  joined = refl;
  older = λ i l. (refl, refl);
  acceptor = refl;
})
handle_accepts-Accepted s fd addr (peer ∷ peers) v =
    Returns-bind (handle_accept-Taken s fd addr peer v) λ s₁ first.
      Returns-map (handle_accepts-Accepted s₁ fd addr peers first.serving)
        λ s₂ later. Taken-Accepted fd addr peer peers s s₁ s₂ first later

-- A stopped server that is started on an address, with system calls that succeed, serves there: it
-- listens, with a loop for its connections. It then takes every connection that its socket accepts: each
-- gets the next number, is connecting on the accepted descriptor, and is in the map under its peer's
-- address, in place of an older one from there; a loop has been given it, which is to establish it, in
-- the order of the connections. No older connection has changed, nor has the acceptor.
pub start-Accepted :
    (s : TcpServer) (addr fd : ℕ) (loops : List ℕ) (peers : List (ℕ × ℕ))
    → IsStopped s
    → Returns
        (λ s'. IsServing fd addr s' × Returns (Accepted fd addr peers s') (handle_accepts s' peers))
        (start s addr loops (succeed fd))
start-Accepted s addr fd loops peers h =
    Returns-map (start-IsServing s addr fd loops h)
      λ s' v. (v, handle_accepts-Accepted s' fd addr peers v)
