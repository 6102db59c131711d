-- ===== src/UdpServer/Receive.antt =====
-- The acceptor of src/net/udp/UdpAcceptor.cpp with its callback, recvMessageInLoop of
-- src/net/udp/UdpServer.cpp: a datagram on its way to a connection.
use libsaf.Common.{
  ℕ, ◌≡◌, ap, subst, ◌∙◌, true, List, [], ◌++◌, Option, none, some, Result, Returns, returns,
  Returns-bind,
}
use libsaf.Buffer
use libsaf.Buffer.{Buffer, Receive, as_string, read_from, read_from_limit, retrieve_all}
use libsaf.Buffer.Consume.{retrieve_all-empty}
use libsaf.Buffer.Input.{IsBounded, Received, read_from-Received}
use libsaf.Acceptor.{Acceptor, Socket, sender, udp_handle_read_in_loop}
use libsaf.Server.{Server}
use libsaf.Server.Connections.{IsValid, HasLoops}
use libsaf.UdpServer.{recv_message_in_loop}
use libsaf.UdpServer.Demux.{Delivered, recv_message_in_loop-Delivered}

-- The bytes and the sender of a datagram; after an error, no bytes, from the address that no call has
-- filled in.
abbrev pub bytes_of : Option (List ℕ) → List ℕ
bytes_of none = []
bytes_of (some got) = got

abbrev pub sender_of : Option (List ℕ) → ℕ → ℕ
sender_of none peer = 0
sender_of (some got) peer = peer

-- The server's callback, at a time.
abbrev pub callback : ℕ → Server → ℕ → Buffer → Result (Buffer × Server)
callback now s key b = recv_message_in_loop s key b now

-- The buffer as the datagram left it.
record Filled (answer : Option (List ℕ)) (peer : ℕ) (r : Option ℕ × Buffer) : Type 0 where
  valid : Buffer.IsValid r.1
  content : as_string r.1 ≡ bytes_of answer
  from : sender r.0 peer ≡ sender_of answer peer

Received-Filled :
    (b : Buffer) (answer : Option (List ℕ)) (peer : ℕ) (r : Option ℕ × Buffer)
    → as_string b ≡ []
    → Received b answer r
    → Filled answer peer r
Received-Filled b none peer r bare (e, v, same) = record {
  valid = v;
  content = same ∙ bare;
  from = ap (λ n. sender n peer) e;
}
Received-Filled b (some got) peer r bare (e, a) = record {
  valid = a.valid;
  content = a.content ∙ ap (λ xs. xs ++ got) bare;
  from = ap (λ n. sender n peer) e;
}

-- The server and the acceptor's buffer after a datagram.
pub record Handled (s : Server) (answer : Option (List ℕ)) (peer : ℕ) (r : Buffer × Server)
    : Type 0 where
  pub valid : Buffer.IsValid r.0
  pub emptied : as_string r.0 ≡ []
  pub delivered : Delivered s (sender_of answer peer) (bytes_of answer) r

emptied-Delivered :
    (s : Server) (key : ℕ) (bytes : List ℕ) (r : Buffer × Server) (b : Buffer)
    → as_string b ≡ []
    → Delivered s key bytes r
    → Delivered s key bytes (b, r.1)
emptied-Delivered s key bytes r b bare d = record {
  valid = d.valid;
  ready = d.ready;
  id = d.id;
  peer = d.peer;
  found = d.found;
  there = d.there;
  keyed = d.keyed;
  posted = d.posted;
  kept = d.kept;
  others = d.others;
  peers = d.peers;
  emptied = bare;
  later = d.later;
  made = d.made;
}

-- handleReadInLoop of an acceptor with its socket and its callback, for a valid server whose
-- cluster has a loop, with an empty and valid buffer and a `recvfrom` that fills no more than it
-- was given, does not fault and leaves the buffer empty. A datagram goes whole to the connection of
-- its sender, a new one if the map has none. A failed `recvfrom` is not told from an empty
-- datagram: it goes, without bytes, to the connection of the address 0, and makes that connection
-- if it is not there.
pub udp_handle_read_in_loop-Handled :
    (a : Acceptor) (socket : Socket) (input : Buffer) (recvfrom : Receive) (peer now : ℕ)
    (s : Server)
    → a.socket ≡ some socket
    → a.has_callback ≡ true
    → Buffer.IsValid input
    → as_string input ≡ []
    → IsBounded recvfrom
    → IsValid s
    → HasLoops s.cluster
    → Returns
        (Handled s (recvfrom read_from_limit) peer)
        (udp_handle_read_in_loop (callback now) a input recvfrom peer s)
unfolding udp_handle_read_in_loop
udp_handle_read_in_loop-Handled a socket input recvfrom peer now s open_socket on valid bare bounded
      v h =
    rw (open_socket, on)
      (Returns-bind (read_from-Received input recvfrom valid bounded) λ r got.
        let f = Received-Filled input (recvfrom read_from_limit) peer r bare got in
        Returns-bind (recv_message_in_loop-Delivered s (sender r.0 peer) now r.1 v h f.valid)
          λ r' d.
            let (valid', bare') = retrieve_all-empty r'.0 in
            returns (record {
              valid = valid';
              emptied = bare';
              delivered =
                  subst
                    (λ k.
                      Delivered s k (bytes_of (recvfrom read_from_limit)) (retrieve_all r'.0, r'.1))
                    f.from
                    (subst (λ bytes. Delivered s (sender r.0 peer) bytes (retrieve_all r'.0, r'.1))
                      f.content
                      (emptied-Delivered s (sender r.0 peer) (as_string r.1) r' (retrieve_all r'.0)
                        bare' d));
            }))
