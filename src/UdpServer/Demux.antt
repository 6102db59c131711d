-- ===== src/UdpServer/Demux.antt =====
-- recvMessageInLoop of src/net/udp/UdpServer.cpp: every datagram goes to the connection of its address.
use libsaf.Common.{
  ◌≤◌, ◌<◌, dec_lt, ◌⊎◌, inl, inr, ℕ, ◌≡◌, ◌≢◌, refl, sym, ap, subst, ◌∙◌, arith, true, List, [],
  ◌∷◌, ◌++◌, append-nil, Option, none, some, ok, or_fault, null_pointer, ◌>>=◌, Returns, returns,
  Returns-bind, Returns-map, take-all, drop-all,
}
use libsaf.Buffer
use libsaf.Buffer.{Buffer, as_string, readable_bytes, retrieve_all_as_string}
use libsaf.Buffer.Content.{length-as_string}
use libsaf.Buffer.Consume.{retrieve_as_string-Split}
use libsaf.Server.{Server, Peer, find, Posted, establishes, reads, post}
use libsaf.Server.Map.{find-put_same, find-put_other}
use libsaf.Server.Connections.{IsValid, HasLoops, new_connection-Made, post-IsValid}
use libsaf.UdpServer.{connection_of, deliver, recv_message_in_loop}

-- What is posted before the bytes: the new connection is established first.
abbrev pub opening : Option ℕ → ℕ → ℕ → List Posted
opening none loop id = record { loop = loop; functor = establishes id } ∷ []
opening (some _) loop id = []

-- The server with a connection for the address, the one that it had, if any.
record Opened (s : Server) (key : ℕ) (r : ℕ × Server) : Type 0 where
  valid : IsValid r.1
  ready : HasLoops r.1.cluster
  peer : Peer
  found : find r.1.connections key ≡ some r.0
  there : r.1.peers r.0 ≡ some peer
  keyed : peer.key ≡ key
  posted : r.1.posted ≡ s.posted ++ opening (find s.connections key) peer.loop r.0
  kept : (id : ℕ) → find s.connections key ≡ some id → id ≡ r.0
  others : (j : ℕ) → key ≢ j → find r.1.connections j ≡ find s.connections j
  peers : (i : ℕ) → s.next ≢ i → r.1.peers i ≡ s.peers i
  later : s.next ≤ r.1.next
  made : (i : ℕ) → i < r.1.next → (i < s.next) ⊎ (i ≡ r.0)

module _ (s : Server) (key now : ℕ) (v : IsValid s) (h : HasLoops s.cluster) where
  connection_of-Opened :
      (o : Option ℕ)
      → find s.connections key ≡ o
      → Returns (Opened s key) (connection_of o s key now)
  connection_of-Opened (some id) e =
      let k = v.known key id e in
      returns (record {
        valid = v;
        ready = h;
        peer = k.peer;
        found = e;
        there = k.found;
        keyed = k.keyed;
        posted = sym (append-nil s.posted) ∙ ap (λ o. s.posted ++ opening o k.peer.loop id) (sym e);
        kept = λ j f. let both : some id ≡ some j = sym e ∙ f in cc;
        others = λ j ne. refl;
        peers = λ i ne. refl;
        later = omega arith;
        made = λ i l. inl l;
      })
  connection_of-Opened none e = Returns-bind (new_connection-Made s key now v h) λ s' m.
      returns (record {
        valid = m.valid;
        ready = m.ready;
        peer = record { key = key; loop = m.loop; actived_time = now; bound = true };
        found = ap (λ c. find c key) m.mapped ∙ find-put_same s.connections key s.next;
        there = m.made;
        keyed = refl;
        posted = m.posted ∙ ap (λ o. s.posted ++ opening o m.loop s.next) (sym e);
        kept = λ j f. let both : none ≡ some j = sym e ∙ f in cc;
        others = λ j ne. ap (λ c. find c j) m.mapped ∙ find-put_other s.connections key s.next j ne;
        peers = m.others;
        later = omega (arith, m.next);
        made = λ i l. elim (dec_lt i s.next) [
          | yes l' ↦ inl l'
          | no nl ↦ inr (omega (arith, l, nl, m.next))
        ];
      })

-- The bytes are posted to the connection of the address.
pub record Delivered (s : Server) (key : ℕ) (bytes : List ℕ) (r : Buffer × Server) : Type 0 where
  pub valid : IsValid r.1
  pub ready : HasLoops r.1.cluster
  pub id : ℕ
  pub peer : Peer
  pub found : find r.1.connections key ≡ some id
  pub there : r.1.peers id ≡ some peer
  pub keyed : peer.key ≡ key
  pub posted :
      r.1.posted
      ≡ s.posted
        ++ opening (find s.connections key) peer.loop id
        ++ record { loop = peer.loop; functor = reads id bytes } ∷ []
  pub kept : (j : ℕ) → find s.connections key ≡ some j → j ≡ id
  pub others : (j : ℕ) → key ≢ j → find r.1.connections j ≡ find s.connections j
  pub peers : (i : ℕ) → s.next ≢ i → r.1.peers i ≡ s.peers i
  pub emptied : as_string r.0 ≡ []
  pub later : s.next ≤ r.1.next
  pub made : (i : ℕ) → i < r.1.next → (i < s.next) ⊎ (i ≡ id)

deliver-post :
    (s : Server) (id : ℕ) (p : Peer) (bytes : List ℕ)
    → s.peers id ≡ some p
    → deliver s id bytes ≡ ok (post s p.loop (reads id bytes))
unfolding deliver
deliver-post s id p bytes e =
    subst
      (λ o.
        (or_fault o null_pointer >>= λ p. ok (post s p.loop (reads id bytes)))
        ≡ ok (post s p.loop (reads id bytes)))
      (sym e) refl

retrieve_all_as_string-Taken :
    (b : Buffer)
    → Buffer.IsValid b
    → Returns (λ (bytes, c). (bytes ≡ as_string b) × (as_string c ≡ [])) (retrieve_all_as_string b)
unfolding retrieve_all_as_string
retrieve_all_as_string-Taken b v =
    Returns-map (retrieve_as_string-Split b (readable_bytes b) v (omega arith)) λ r s. (
      s.front ∙ take-all _ (as_string b) (omega (arith, length-as_string b v)),
      s.rest.content ∙ drop-all _ (as_string b) (omega (arith, length-as_string b v)),
    )

-- recvMessageInLoop, with a valid buffer of the acceptor, does not fault. It posts the buffer's content
-- to the loop of the connection that the map has for the sender's address, the one that it had before,
-- if any. If it had none, the connection is new, in the next loop of the cluster, and is established
-- before it gets the bytes. The buffer is empty then; the entry of no other address and no other
-- connection has changed, and the server is valid.
pub recv_message_in_loop-Delivered :
    (s : Server) (key now : ℕ) (b : Buffer)
    → IsValid s
    → HasLoops s.cluster
    → Buffer.IsValid b
    → Returns (Delivered s key (as_string b)) (recv_message_in_loop s key b now)
unfolding recv_message_in_loop
recv_message_in_loop-Delivered s key now b v h valid =
    Returns-bind (connection_of-Opened s key now v h (find s.connections key) refl) λ r o.
      Returns-bind (retrieve_all_as_string-Taken b valid) λ (bytes, rest) (e, none_left).
        rw (deliver-post r.1 r.0 o.peer bytes o.there, e)
          (returns (record {
            valid = post-IsValid r.1 o.peer.loop (reads r.0 (as_string b)) o.valid;
            ready = o.ready;
            id = r.0;
            peer = o.peer;
            found = o.found;
            there = o.there;
            keyed = o.keyed;
            posted =
                ap
                  (λ ps.
                    ps ++ record { loop = o.peer.loop; functor = reads r.0 (as_string b) } ∷ [])
                  o.posted;
            kept = o.kept;
            others = o.others;
            peers = o.peers;
            emptied = none_left;
            later = o.later;
            made = o.made;
          }))
