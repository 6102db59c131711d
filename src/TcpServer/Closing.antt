-- ===== src/TcpServer/Closing.antt =====
-- The loop of stop() in src/net/tcp/TcpServer.cpp, which unbinds and closes the connections.
use libsaf.Common.{
  ℕ, ◌≡◌, ◌≢◌, refl, sym, ap, ◌∙◌, Bool, true, false, not, ◌&&◌, List, [], ◌∷◌, ◌++◌, append_assoc,
  append-nil, Option, some, ok, or_fault, null_pointer, Returns, returns, Returns-map, ◌==◌,
  ==_refl, ne→==, if◌then◌else◌,
}
use libsaf.Server
use libsaf.Server.{
  Server, Peer, Entries, Posted, closes, find, close_in_loop, unbind_default_callbacks, peer,
}
use libsaf.TcpConnection.{is_connected, disconnecting, disconnected}
use libsaf.TcpServer.{Link, TcpServer, close, unbind_and_close}

-- What is posted to close a connection: nothing, if it is not connected or its loop is the server's.
abbrev pub closing : ℕ → ℕ → Peer → Link → List Posted
closing master id p l =
    if is_connected l.status && not (p.loop == master)
    then record { loop = p.loop; functor = closes id } ∷ []
    else []

-- The link of a connection that stop() has called close() of.
abbrev pub ended : ℕ → Peer → Link → Link
ended master p l =
    if is_connected l.status
    then record l { status = if p.loop == master then disconnected else disconnecting }
    else l

-- Each connection of the entries is unbound and its link has ended; the functors close those that they
-- have to, in the order of the entries.
abbrev pub Closing :
    TcpServer → (ℕ → Option Peer) → (ℕ → Option Link) → Entries → List Posted → Type 0
Closing s peers links [] ps = ps ≡ []
Closing s peers links ((key, id) ∷ rest) ps =
    (p : Peer) × (l : Link) × (others : List Posted) × (s.server.peers id ≡ some p)
    × (s.links id ≡ some l)
    × (peers id ≡ some (record p { bound = false }))
    × (links id ≡ some (ended s.server.cluster.master p l))
    × (ps ≡ closing s.server.cluster.master id p l ++ others)
    × Closing s peers links rest others

-- A number that no entry has, and entries with distinct numbers that all have a peer and a link.
abbrev pub NotIn : ℕ → Entries → Type 0
NotIn id [] = Unit {0}
NotIn id ((key, j) ∷ rest) = (id ≢ j) × NotIn id rest

abbrev pub AllLinked : TcpServer → Entries → Type 0
AllLinked s [] = Unit {0}
AllLinked s ((key, id) ∷ rest) =
    ((p : Peer) × (s.server.peers id ≡ some p))
    × ((l : Link) × (s.links id ≡ some l))
    × NotIn id rest
    × AllLinked s rest

-- Two servers that differ in one connection, and in what is posted.
record Same (id : ℕ) (s s' : TcpServer) : Type 0 where
  pub cluster : s'.server.cluster ≡ s.server.cluster
  pub next : s'.server.next ≡ s.server.next
  peers : (i : ℕ) → id ≢ i → s'.server.peers i ≡ s.server.peers i
  links : (i : ℕ) → id ≢ i → s'.links i ≡ s.links i

-- One round of stop()'s loop.
record Closed (id : ℕ) (p : Peer) (l : Link) (s s' : TcpServer) : Type 0 where
  same : Same id s s'
  peer : s'.server.peers id ≡ some (record p { bound = false })
  link : s'.links id ≡ some (ended s.server.cluster.master p l)
  posted : s'.server.posted ≡ s.server.posted ++ closing s.server.cluster.master id p l

abbrev closed : TcpServer → ℕ → Peer → Link → TcpServer
closed s id p l =
    close (record s { server = unbind_default_callbacks s.server id p }) id
      (record p { bound = false }) l

module _ (s : TcpServer) (id : ℕ) (p : Peer) (l : Link) (linked : s.links id ≡ some l) where
  close-Closed :
      (here mine : Bool)
      → is_connected l.status ≡ here
      → (p.loop == s.server.cluster.master) ≡ mine
      → Closed id p l s (closed s id p l)
  unfolding close Server.close close_in_loop unbind_default_callbacks
  close-Closed false mine off e = rw off (record {
    same = record {
      cluster = refl;
      next = refl;
      peers = λ i ne. rw (ne→== i id (λ same. ne (sym same))) refl;
      links = λ i ne. refl;
    };
    peer = rw (==_refl id) refl;
    link = rw off linked;
    posted = rw off (sym (append-nil s.server.posted));
  })
  close-Closed true true on at_once =
      rw (on, at_once)
        (record {
          same = record {
            cluster = refl;
            next = refl;
            peers = λ i ne. rw (ne→== i id (λ same. ne (sym same))) refl;
            links = λ i ne. rw (ne→== i id (λ same. ne (sym same))) refl;
          };
          peer = rw (==_refl id) refl;
          link = rw (==_refl id, on, at_once) refl;
          posted = rw (on, at_once) (sym (append-nil s.server.posted));
        })
  close-Closed true false on later =
      rw (on, later)
        (record {
          same = record {
            cluster = refl;
            next = refl;
            peers = λ i ne. rw (ne→== i id (λ same. ne (sym same))) refl;
            links = λ i ne. rw (ne→== i id (λ same. ne (sym same))) refl;
          };
          peer = rw (==_refl id) refl;
          link = rw (==_refl id, on, later) refl;
          posted = rw (on, later) refl;
        })

-- The rest of the entries, in the server that has closed a connection which is none of them.
module _ (id : ℕ) (s s₁ : TcpServer) (same : Same id s s₁) where
  Same-AllLinked : (m : Entries) → NotIn id m → AllLinked s m → AllLinked s₁ m
  Same-AllLinked [] n h = tt
  Same-AllLinked ((key, j) ∷ rest) (ne, n) ((p, e), (l, f), d, h) =
      ((p, same.peers j ne ∙ e), (l, same.links j ne ∙ f), d, Same-AllLinked rest n h)

  Same-Closing :
      (peers : ℕ → Option Peer) (links : ℕ → Option Link) (m : Entries) (ps : List Posted)
      → NotIn id m
      → Closing s₁ peers links m ps
      → Closing s peers links m ps
  Same-Closing peers links [] ps n h = h
  Same-Closing peers links ((key, j) ∷ rest) ps (ne, n) (p, l, others, e, f, e', f', posted, h) =
      let master = ap (λ c. c.master) same.cluster in
      (
        p,
        l,
        others,
        sym (same.peers j ne) ∙ e,
        sym (same.links j ne) ∙ f,
        e',
        f' ∙ ap (λ m. some (ended m p l)) master,
        posted ∙ ap (λ m. closing m j p l ++ others) master,
        Same-Closing peers links rest others n h,
      )

pub record Rounds (m : Entries) (s s' : TcpServer) : Type 0 where
  pub cluster : s'.server.cluster ≡ s.server.cluster
  pub next : s'.server.next ≡ s.server.next
  pub others :
      (i : ℕ) → NotIn i m → (s'.server.peers i ≡ s.server.peers i) × (s'.links i ≡ s.links i)
  pub new : List Posted
  pub posted : s'.server.posted ≡ s.server.posted ++ new
  pub closing_all : Closing s s'.server.peers s'.links m new

-- One round, and then the others.
Closed-Rounds :
    (key id : ℕ) (p : Peer) (l : Link) (rest : Entries) (s s₁ s₂ : TcpServer)
    → s.server.peers id ≡ some p
    → s.links id ≡ some l
    → NotIn id rest
    → Closed id p l s s₁
    → Rounds rest s₁ s₂
    → Rounds ((key, id) ∷ rest) s s₂
Closed-Rounds key id p l rest s s₁ s₂ e f n c r = record {
  cluster = r.cluster ∙ c.same.cluster;
  next = r.next ∙ c.same.next;
  others = λ i (ne, away).
      let now = r.others i away in
      (
        now.0 ∙ c.same.peers i (λ same. ne (sym same)),
        now.1 ∙ c.same.links i (λ same. ne (sym same)),
      );
  new = closing s.server.cluster.master id p l ++ r.new;
  posted =
      r.posted
      ∙ ap (λ ps. ps ++ r.new) c.posted
      ∙ append_assoc s.server.posted (closing s.server.cluster.master id p l) r.new;
  closing_all = (
    p,
    l,
    r.new,
    e,
    f,
    (r.others id n).0 ∙ c.peer,
    (r.others id n).1 ∙ c.link,
    refl,
    Same-Closing id s s₁ c.same s₂.server.peers s₂.links rest r.new n r.closing_all,
  );
}

pub unbind_and_close-Rounds :
    (s : TcpServer) (m : Entries) → AllLinked s m → Returns (Rounds m s) (unbind_and_close s m)
unfolding unbind_and_close
unbind_and_close-Rounds s [] h = returns (record {
  cluster = refl;
  next = refl;
  others = λ i n. (refl, refl);
  new = [];
  posted = sym (append-nil s.server.posted);
  closing_all = refl;
})
unbind_and_close-Rounds s ((key, id) ∷ rest) ((p, e), (l, f), n, h) =
    let known : peer s.server id ≡ ok p = ap (λ o. or_fault o null_pointer) e in
    let link : or_fault (s.links id) null_pointer ≡ ok l = ap (λ o. or_fault o null_pointer) f in
    let c =
      close-Closed s id p l f (is_connected l.status) (p.loop == s.server.cluster.master) refl
        refl in
    rw (known, link)
      (Returns-map
        (unbind_and_close-Rounds (closed s id p l) rest
          (Same-AllLinked id s (closed s id p l) c.same rest n h))
        λ s₂ r. Closed-Rounds key id p l rest s (closed s id p l) s₂ e f n c r)
