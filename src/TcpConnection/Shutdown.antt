-- ===== src/TcpConnection/Shutdown.antt =====
-- shutdown() of src/net/tcp/TcpConnection.cpp on a connection that still has bytes to write.
use libsaf.Common.{
  ℕ, ◌≡◌, refl, ap, ◌∙◌, arith, Bool-cases, inl, inr, true, false, List, [], ◌∷◌, min, Result, ok,
  Returns, returns, Returns-bind, Returns-map, ◌>>=◌, length,
}
use libsaf.Buffer.{as_string}
use libsaf.Poller.{is_writing}
use libsaf.TcpConnection.{
  Connection, connected, disconnecting, is_connected, Written, wrote, handle_write_in_loop,
  shutdown, shutdown_in_loop, run_functor,
}
use libsaf.TcpConnection.Stream.{IsLive, stream, is_possible}
use libsaf.TcpConnection.Flush.{handle_write_in_loop-Flushed}

-- The write events of the loop, at each of which the kernel takes at most so many bytes.
unfoldable pub flush : ℕ → List ℕ → Connection → Result Connection
flush here [] c = ok c
flush here (k ∷ ks) c =
    handle_write_in_loop here c (wrote (min k (length (as_string c.output)))) >>= flush here ks

-- What flushing keeps.
pub record Drained (c c' : Connection) : Type 0 where
  pub shut : c'.shut ≡ c.shut
  pub stream : stream c' ≡ stream c

offered : (k : ℕ) (xs : List ℕ) → is_possible xs (wrote (min k (length xs))) ≡ true
unfolding is_possible
offered k xs = ground arith

idle_write :
    (here : ℕ) (c : Connection) (w : Written)
    → is_writing c.socket.watcher ≡ false
    → handle_write_in_loop here c w ≡ ok c
unfolding handle_write_in_loop
idle_write here c w off = ground arith

flush-Drained :
    (here : ℕ) (ks : List ℕ) (c : Connection)
    → IsLive here c
    → Returns (Drained c) (flush here ks c)
unfolding flush
flush-Drained here [] c v = returns (record { shut = refl; stream = refl })
flush-Drained here (k ∷ ks) c v = elim (Bool-cases (is_writing c.socket.watcher)) [
  | inl on ↦
      Returns-bind
        (handle_write_in_loop-Flushed here c (wrote (min k (length (as_string c.output)))) v on
          (offered k (as_string c.output)))
        λ c' f.
          Returns-map (flush-Drained here ks c' f.live)
            λ c'' d. record { shut = d.shut ∙ f.shut; stream = d.stream ∙ f.stream }
  | inr off ↦ rw (idle_write here c _ off) (flush-Drained here ks c v)
]

still_writing :
    (here : ℕ) (c : Connection) → is_writing c.socket.watcher ≡ true → shutdown_in_loop here c ≡ c
unfolding shutdown_in_loop
still_writing here c on = ground arith

-- When the loop's thread calls shutdown() on a live and connected connection that still waits for its
-- write event, the write events that follow, whatever the kernel takes at each, keep the stream, but
-- the writing half of the socket is not shut down after any of them.
pub shutdown-forgotten :
    (here : ℕ) (c : Connection) (ks : List ℕ)
    → IsLive here c
    → c.status ≡ connected
    → is_writing c.socket.watcher ≡ true
    → Returns
        (λ c'. (c'.shut ≡ c.shut) × (stream c' ≡ stream c))
        (shutdown here true c >>= flush here ks)
unfolding shutdown run_functor
shutdown-forgotten here c ks v is on =
    let open_now : is_connected c.status ≡ true = ap is_connected is in
    let c₁ = record c { status = disconnecting } in
    let kept : shutdown_in_loop here c₁ ≡ c₁ = still_writing here c₁ on in
    let v₁ : IsLive here c₁ = record { synced = v.synced; looper = v.looper; output = v.output } in
    rw (open_now, kept) (Returns-map (flush-Drained here ks c₁ v₁) λ c' d. (d.shut, d.stream))
