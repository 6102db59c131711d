-- ===== src/TcpClient/Reconnect.antt =====
-- What a client of src/net/tcp/TcpClient.cpp does after it has lost its connection.
use libsaf.Common.{
  ℕ, ◌≡◌, ◌≢◌, refl, sym, ap, ◌∙◌, subst, Bool, true, false, ◌&&◌, List, [], ◌∷◌, ◌++◌, none, some,
  ok, assert, Returns, returns, Returns-bind, ◌==◌, ==_refl, ne→==, if◌then◌else◌, ℕ_discrete,
}
use libsaf.TcpClient.{
  TcpClient, Functor, reconnects, Event, calls_connect, calls_disconnect, connected, runs, ends,
  connect, remove_connection_in_loop, unbind_default_callbacks, on_closed_in_connection,
  run_functor, run_next, hand_over, is_connection, step, run,
}

abbrev AreReconnects : List Functor → Type 0
AreReconnects [] = Unit {0}
AreReconnects (f ∷ fs) = (f ≡ reconnects) × AreReconnects fs

-- The client has lost its connection: it means to be connected, and its connector does not try.
pub record Lost (asked made : List ℕ) (c : TcpClient) : Type 0 where
  pub connecting : c.connecting ≡ true
  pub connection : c.connection ≡ none
  pub unbound : (id : ℕ) → c.bound id ≡ false
  pub still : c.trying ≡ false
  pub waiting : AreReconnects c.queued
  pub requests : c.requests ≡ asked
  pub established : c.established ≡ made

-- No call of disconnect().
abbrev pub NoDisconnect : List Event → Type 0
NoDisconnect [] = Unit {0}
NoDisconnect (calls_disconnect in_thread ∷ es) = ⊥
NoDisconnect (e ∷ es) = NoDisconnect es

abbrev pub Stays : Event → Type 0
Stays (calls_disconnect in_thread) = ⊥
Stays e = Unit {0}

NoDisconnect-parts :
    (e : Event) (es : List Event) → NoDisconnect (e ∷ es) → Stays e × NoDisconnect es
NoDisconnect-parts (calls_connect t a) es h = (tt, h)
NoDisconnect-parts (calls_disconnect t) es h = absurd h
NoDisconnect-parts connected es h = (tt, h)
NoDisconnect-parts runs es h = (tt, h)
NoDisconnect-parts (ends id) es h = (tt, h)

if_true : {A : Type 0} {x : A} (y : A) (b : Bool) → b ≡ true → (if b then x else y) ≡ x
if_true y true e = refl
if_true y false e = cc

if_false : {A : Type 0} {y : A} (x : A) (b : Bool) → b ≡ false → (if b then x else y) ≡ y
if_false x true e = cc
if_false x false e = refl

and_false : (a b : Bool) → b ≡ false → (a && b) ≡ false
and_false true b e = e
and_false false b e = refl

-- A call of connect() finds the client connecting.
connect-kept : (t : Bool) (c : TcpClient) (addr : ℕ) → c.connecting ≡ true → connect t c addr ≡ c
unfolding connect
connect-kept t c addr e = if_true _ c.connecting e

module _ (asked made : List ℕ) where
  next-Lost :
      (c : TcpClient) (fs : List Functor)
      → c.queued ≡ fs
      → Lost asked made c
      → Lost asked made (run_next c fs)
  unfolding run_functor
  next-Lost c [] e l = l
  next-Lost c (f ∷ fs) e l =
      let w : AreReconnects (f ∷ fs) = subst AreReconnects e l.waiting in
      let c' : TcpClient = record c { queued = fs } in
      let same : run_functor c' f ≡ c' =
        ap (run_functor c') w.0 ∙ connect-kept true c' c.addr l.connecting in
      subst (Lost asked made) (sym same) (record {
        connecting = l.connecting;
        connection = l.connection;
        unbound = l.unbound;
        still = l.still;
        waiting = w.1;
        requests = l.requests;
        established = l.established;
      })

  step-Lost :
      (c : TcpClient) (e : Event)
      → Stays e
      → Lost asked made c
      → Returns (Lost asked made) (step c e)
  unfolding step hand_over
  step-Lost c (calls_connect t addr) h l =
      returns (subst (Lost asked made) (sym (connect-kept t c addr l.connecting)) l)
  step-Lost c (calls_disconnect t) h l = absurd h
  step-Lost c connected h l = returns (
      subst (Lost asked made)
        (sym (if_false _ (c.has_callback && c.trying) (and_false c.has_callback c.trying l.still)))
        l)
  step-Lost c runs h l = returns (next-Lost c c.queued refl l)
  step-Lost c (ends id) h l = rw (l.unbound id) (returns l)

  pub run-Lost :
      (c : TcpClient) (es : List Event)
      → NoDisconnect es
      → Lost asked made c
      → Returns (Lost asked made) (run c es)
  unfolding run
  run-Lost c [] h l = returns l
  run-Lost c (e ∷ es) h l =
      let (stays, later) = NoDisconnect-parts e es h in
      Returns-bind (step-Lost c e stays l) λ c' l'. run-Lost c' es later l'

-- The client has a connection, which its connector has made, and nothing is queued.
pub record IsConnected (c : TcpClient) (id : ℕ) : Type 0 where
  pub connecting : c.connecting ≡ true
  pub connection : c.connection ≡ some id
  pub bound : c.bound id ≡ true
  pub alone : (i : ℕ) → id ≢ i → c.bound i ≡ false
  pub still : c.trying ≡ false
  pub idle : c.queued ≡ []

removed : TcpClient → ℕ → TcpClient
removed c id = record (unbind_default_callbacks c id) { connection = none }

remove_connection_in_loop-removed :
    (c : TcpClient) (id : ℕ)
    → c.connection ≡ some id
    → remove_connection_in_loop c id ≡ ok (removed c id)
unfolding remove_connection_in_loop removed
remove_connection_in_loop-removed c id e =
    let same : is_connection c.connection id ≡ true = ap (λ o. is_connection o id) e ∙ ==_refl id in
    ap (λ b. assert b (ok (removed c id))) same

removed-Lost :
    (c : TcpClient) (id : ℕ) → IsConnected c id → Lost c.requests c.established (removed c id)
unfolding removed unbind_default_callbacks
removed-Lost c id k = record {
  connecting = k.connecting;
  connection = refl;
  unbound = λ i. elim (ℕ_discrete i id) [
    | yes e ↦ rw (ap (λ j. j == id) e ∙ ==_refl id) refl
    | no ne ↦ rw (ne→== i id ne) (k.alone i (λ e. ne (sym e)))
  ];
  still = k.still;
  waiting = subst AreReconnects (sym k.idle) tt;
  requests = refl;
  established = refl;
}

queued-Lost :
    (asked made : List ℕ) (c : TcpClient)
    → c.queued ≡ []
    → Lost asked made c
    → Lost asked made (record c { queued = c.queued ++ reconnects ∷ [] })
queued-Lost asked made c e l = record {
  connecting = l.connecting;
  connection = l.connection;
  unbound = l.unbound;
  still = l.still;
  waiting = subst (λ q. AreReconnects (q ++ reconnects ∷ [])) (sym e) (refl, tt);
  requests = l.requests;
  established = l.established;
}

if-Lost :
    (asked made : List ℕ) (c c' : TcpClient) (b : Bool)
    → Lost asked made c
    → Lost asked made c'
    → Lost asked made (if b then c else c')
if-Lost asked made c c' true l l' = l
if-Lost asked made c c' false l l' = l'

ends-Lost :
    (c : TcpClient) (id : ℕ)
    → IsConnected c id
    → Returns (Lost c.requests c.established) (step c (ends id))
unfolding step on_closed_in_connection removed unbind_default_callbacks
ends-Lost c id k =
    let gone = removed-Lost c id k in
    let idle : (removed c id).queued ≡ [] = k.idle in
    rw (k.bound, remove_connection_in_loop-removed c id k.connection)
      (returns (if-Lost _ _ _ _ _ (queued-Lost _ _ (removed c id) idle gone) gone))

-- When the connection of a client ends by itself, while nothing is queued and the connector does
-- not try, the client does not fault, and from then on, whatever happens short of a call of
-- disconnect(), it makes no connection and does not ask its connector for one, also if it has a
-- delay for reconnecting: what it queues for that is a call of connect(), which returns at once.
pub ends-Lost_forever :
    (c : TcpClient) (id : ℕ) (es : List Event)
    → IsConnected c id
    → NoDisconnect es
    → Returns (Lost c.requests c.established) (run c (ends id ∷ es))
unfolding run
ends-Lost_forever c id es k stays =
    Returns-bind (ends-Lost c id k) λ c' l. run-Lost c.requests c.established c' es stays l
