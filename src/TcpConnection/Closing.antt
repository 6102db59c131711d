-- ===== src/TcpConnection/Closing.antt =====
-- How a connection ends: close(), shutdown(), closeInLoop and handleCloseInLoop of
-- src/net/tcp/TcpConnection.cpp.
use libsaf.Common.{
  ℕ, ◌≡◌, refl, sym, ap, ap₂, subst, ◌∙◌, arith, Bool, true, false, List, [], ◌∷◌, ◌++◌,
  append_assoc, append-nil, Result, Returns, returns, Returns-bind, Returns-inv, ◌>>=◌,
  if◌then◌else◌, assert,
}
use libsaf.Poller.{Watched}
use libsaf.Poller.Session.{Detached, detach_in_loop-Detached, detached_already}
use libsaf.TcpConnection.{
  Connection, Callbacks, disconnected, connected, disconnecting, is_connected, Call, connect_change,
  closed, called, close_in_loop, is_open, handle_close_in_loop, close, run_queued, run_functors,
  run_functor, close_functor,
}
use libsaf.TcpConnection.Stream.{IsLive, stream}

-- The calls of the two callbacks, of those that are set, in order.
abbrev pub closing : Callbacks → List Call
closing k =
    (if k.on_connect_change then connect_change ∷ [] else [])
    ++ (if k.on_close then closed ∷ [] else [])

unfoldable pub close_calls : Connection → List Call
close_calls c = closing c.callbacks

-- Down, off its loop and unknown to the poller and the kernel, with the callbacks called.
pub record Closed (here : ℕ) (c c' : Connection) : Type 0 where
  pub status : c'.status ≡ disconnected
  pub socket : Detached here c'.socket
  pub calls : c'.calls ≡ c.calls ++ close_calls c
  pub callbacks : c'.callbacks ≡ c.callbacks
  pub queued : c'.queued ≡ c.queued
  pub stream : stream c' ≡ stream c
  pub sent : c'.sent ≡ c.sent
  pub output : c'.output ≡ c.output

called-keeps :
    {A : Type 0} (f : Connection → A) (b : Bool) (k : Call) (c : Connection)
    → f (record c { calls = c.calls ++ k ∷ [] }) ≡ f c
    → f (called b k c) ≡ f c
called-keeps f true k c e = e
called-keeps f false k c e = refl

called-calls :
    (b : Bool) (k : Call) (c : Connection)
    → (called b k c).calls ≡ c.calls ++ (if b then k ∷ [] else [])
called-calls true k c = refl
called-calls false k c = sym (append-nil c.calls)

-- Both callbacks change nothing but the record of the calls.
both-keep :
    {A : Type 0} (f : Connection → A) (a b : Bool) (j k : Call) (c : Connection)
    → ((d : Connection) (cs : List Call) → f (record d { calls = cs }) ≡ f d)
    → f (called b k (called a j c)) ≡ f c
both-keep f a b j k c e =
    called-keeps f b k (called a j c) (e (called a j c) _) ∙ called-keeps f a j c (e c _)

module _ (here : ℕ) (c : Connection) where
  down-Closed :
      (s : Watched)
      → Detached here s
      → Closed here c (
          called c.callbacks.on_close closed (
            called c.callbacks.on_connect_change connect_change
              (record c { socket = s; status = disconnected })))
  unfolding close_calls
  down-Closed s d =
      let on = c.callbacks.on_connect_change in
      let off = c.callbacks.on_close in
      let c' = record c { socket = s; status = disconnected } in
      record {
        status = both-keep (λ x. x.status) on off connect_change closed c' (λ x cs. refl);
        socket =
            subst (Detached here)
              (sym (both-keep (λ x. x.socket) on off connect_change closed c' (λ x cs. refl))) d;
        calls =
            called-calls off closed (called on connect_change c')
            ∙ ap (λ xs. xs ++ (if off then closed ∷ [] else [])) (called-calls on connect_change c')
            ∙ append_assoc c.calls _ _;
        callbacks = both-keep (λ x. x.callbacks) on off connect_change closed c' (λ x cs. refl);
        queued = both-keep (λ x. x.queued) on off connect_change closed c' (λ x cs. refl);
        stream = both-keep stream on off connect_change closed c' (λ x cs. refl);
        sent = both-keep (λ x. x.sent) on off connect_change closed c' (λ x cs. refl);
        output = both-keep (λ x. x.output) on off connect_change closed c' (λ x cs. refl);
      }

  -- closeInLoop of a live connection does not fault: the connection is disconnected, its socket off
  -- the loop and unknown to the poller and the kernel, and the connect and close callbacks that are
  -- set have been called, in this order. The bytes sent and those that wait in its buffer are as
  -- before: nothing that waits is sent.
  pub close_in_loop-Closed : IsLive here c → Returns (Closed here c) (close_in_loop here c)
  unfolding close_in_loop
  close_in_loop-Closed v =
      Returns-bind (detach_in_loop-Detached here c.socket v.synced v.looper)
        λ (b, s) (_, d). returns (down-Closed s d)

-- Once the socket is off its loop, closeInLoop only calls the callbacks, again.
close_in_loop-again :
    (here : ℕ) (c : Connection)
    → Detached here c.socket
    → Returns (Closed here c) (close_in_loop here c)
unfolding close_in_loop
close_in_loop-again here c d =
    rw (detached_already here c.socket d.looper) (returns (down-Closed here c c.socket d))

asserted :
    {P : Connection → Type 0} {r : Result Connection} (b : Bool)
    → b ≡ true
    → Returns P r
    → Returns P (assert b r)
asserted true e p = p
asserted false e p = absurd (ground arith)

-- What handleCloseInLoop does on a connection that is connected or disconnecting.
pub handle_close_in_loop-Closed :
    (here : ℕ) (c : Connection)
    → IsLive here c
    → is_open here c.status ≡ true
    → Returns (Closed here c) (handle_close_in_loop here c)
unfolding handle_close_in_loop
handle_close_in_loop-Closed here c v o =
    asserted (is_open here c.status) o (close_in_loop-Closed here c v)

-- When another thread calls close() on a live and connected connection and its loop sees the peer
-- hang up before it runs the functor that close() queued, closeInLoop runs twice, and each callback
-- that is set is called twice.
pub close-twice :
    (here : ℕ) (c : Connection)
    → IsLive here c
    → c.status ≡ connected
    → c.queued ≡ []
    → Returns
        (λ c'.
          (c'.status ≡ disconnected) × (c'.calls ≡ (c.calls ++ close_calls c) ++ close_calls c))
        (close here false c >>= λ c₁. handle_close_in_loop here c₁ >>= run_queued here)
unfolding close run_queued run_functors run_functor close_calls
close-twice here c v is q =
    let open_now : is_connected c.status ≡ true = ap is_connected is in
    let c₁ = record c { status = disconnecting; queued = c.queued ++ close_functor ∷ [] } in
    let v₁ : IsLive here c₁ = record { synced = v.synced; looper = v.looper; output = v.output } in
    let (c₂, e, x) = Returns-inv (handle_close_in_loop-Closed here c₁ v₁ refl) in
    let c₃ = record c₂ { queued = [] } in
    let (c₄, e', y) = Returns-inv (close_in_loop-again here c₃ x.socket) in
    let waits : c₂.queued ≡ close_functor ∷ [] = x.queued ∙ ap (λ fs. fs ++ close_functor ∷ []) q in
    let both : c₄.calls ≡ (c.calls ++ close_calls c) ++ close_calls c =
      y.calls ∙ ap₂ (λ cs k. cs ++ closing k) x.calls x.callbacks in
    rw (open_now, e)
      (subst
        (λ fs.
          Returns
            (λ c'.
              (c'.status ≡ disconnected) × (c'.calls ≡ (c.calls ++ close_calls c) ++ close_calls c))
            (run_functors here c₃ fs))
        (sym waits) (rw e' (returns (y.status, both))))
