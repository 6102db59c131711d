-- ===== src/UdpServer/Run.antt =====
-- A server of src/net/udp/UdpServer.cpp in use: whatever comes, it stays well formed.
use libsaf.Common.{
  ℕ, ◌<◌, ◌≡◌, inl, inr, refl, sym, ap, subst, ◌∙◌, arith, Bool-cases, List, [], ◌∷◌, ◌++◌, Option,
  none, some, Returns, returns, Returns-bind, Returns-map, ◌==◌, get_elem?,
}
use libsaf.Buffer
use libsaf.Buffer.{Buffer}
use libsaf.Server.{Server, Peer, Entries, find, Posted, reads}
use libsaf.Server.Connections.{HasLoops}
use libsaf.Server.Listed.{AllKnown, valid-AllKnown}
use libsaf.UdpServer.{
  check_expired_in_loop, Event, arrives, expires, runs, remove_at, run_posted, step, run,
}
use libsaf.UdpServer.Demux.{Delivered, opening, recv_message_in_loop-Delivered}
use libsaf.UdpServer.Expiry.{all_closing, closing, silent, check_expired_in_loop-Checked}
use libsaf.UdpServer.Working.{
  AllAbout, subject, IsWorking, append-AllAbout, later-AllAbout, remove_at-AllAbout,
  get_elem?-subject, there-made, run_functor-IsWorking,
}

module _ (s : Server) (w : IsWorking s) where
  opening-AllAbout : (o : Option ℕ) (n loop id : ℕ) → id < n → AllAbout n (opening o loop id)
  opening-AllAbout none n loop id l = (l, tt)
  opening-AllAbout (some i) n loop id l = tt

  closing-AllAbout : (n master id : ℕ) (o : Option Peer) → id < n → AllAbout n (closing master id o)
  closing-AllAbout n master id none l = tt
  closing-AllAbout n master id (some p) l = elim (Bool-cases (p.loop == master)) [
    | inl e ↦ rw e (l, tt)
    | inr e ↦ rw e (l, tt)
  ]

  all_closing-AllAbout :
      (now : ℕ) (m : Entries) → AllKnown s m → AllAbout s.next (all_closing s now m)
  all_closing-AllAbout now [] h = tt
  all_closing-AllAbout now ((key, id) ∷ rest) (k, ks) =
      let later = all_closing-AllAbout now rest ks in
      let one =
        closing-AllAbout s.next s.cluster.master id (s.peers id)
          (there-made s w.valid id k.peer k.found) in
      elim (Bool-cases (silent (s.peers id) now)) [
        | inl e ↦ rw e (append-AllAbout s.next _ _ one later)
        | inr e ↦ rw e later
      ]

  check_expired_in_loop-IsWorking : (now : ℕ) → Returns IsWorking (check_expired_in_loop s now)
  check_expired_in_loop-IsWorking now =
      Returns-map (check_expired_in_loop-Checked s now w.valid) λ s' c.
        let known = valid-AllKnown s s.connections w.valid.distinct w.valid.known in
        let about : AllAbout s.next (s.posted ++ all_closing s now s.connections) =
          append-AllAbout s.next s.posted _ w.about
            (all_closing-AllAbout now s.connections known) in
        record {
          valid = c.valid;
          ready = subst HasLoops (sym c.cluster) w.ready;
          made = λ i l.
              let (p, e) = w.made i (omega (arith, l, c.next)) in
              (p, ap (λ peers. peers i) c.peers ∙ e);
          about =
              subst (AllAbout s'.next) (sym c.posted)
                (later-AllAbout s.next s'.next _ (omega (arith, c.next)) about);
        }

  Delivered-IsWorking :
      (key : ℕ) (bytes : List ℕ) (r : Buffer × Server) → Delivered s key bytes r → IsWorking r.1
  Delivered-IsWorking key bytes r d =
      let inside : d.id < r.1.next = there-made r.1 d.valid d.id d.peer d.there in
      let n = r.1.next in
      let last : AllAbout n (record { loop = d.peer.loop; functor = reads d.id bytes } ∷ []) =
        (inside, tt) in
      let old = later-AllAbout s.next n s.posted d.later w.about in
      let first =
        append-AllAbout n s.posted _ old
          (opening-AllAbout (find s.connections key) n d.peer.loop d.id inside) in
      record {
        valid = d.valid;
        ready = d.ready;
        made = λ i l. elim (d.made i l) [
          | inl l' ↦
              let (p, e) = w.made i l' in
              (p, d.peers i (λ same. absurd (omega (arith, l', same))) ∙ e)
          | inr same ↦ (d.peer, ap r.1.peers same ∙ d.there)
        ];
        about = subst (AllAbout n) (sym d.posted) (append-AllAbout n _ _ first last);
      }

-- The buffers of the datagrams are valid.
abbrev pub AreValid : List Event → Type 0
AreValid [] = Unit {0}
AreValid (arrives key buffer now ∷ es) = Buffer.IsValid buffer × AreValid es
AreValid (e ∷ es) = AreValid es

abbrev Comes : Event → Type 0
Comes (arrives key buffer now) = Buffer.IsValid buffer
Comes e = Unit {0}

AreValid-parts : (e : Event) (es : List Event) → AreValid (e ∷ es) → Comes e × AreValid es
AreValid-parts (arrives key buffer now) es h = h
AreValid-parts (expires now) es h = (tt, h)
AreValid-parts (runs i now) es h = (tt, h)

without-IsWorking :
    (s : Server) (i : ℕ) → IsWorking s → IsWorking (record s { posted = remove_at i s.posted })
without-IsWorking s i w = record {
  valid = record {
    distinct = w.valid.distinct;
    known = λ key id e.
        let k = w.valid.known key id e in
        record { peer = k.peer; found = k.found; keyed = k.keyed; bound = k.bound };
    fresh = w.valid.fresh;
  };
  ready = w.ready;
  made = w.made;
  about = remove_at-AllAbout s.next i s.posted w.about;
}

posted-IsWorking :
    (s : Server) (now : ℕ) (o : Option Posted)
    → IsWorking s
    → ((p : Posted) → o ≡ some p → subject p.functor < s.next)
    → Returns IsWorking (run_posted s now o)
posted-IsWorking s now none w h = returns w
posted-IsWorking s now (some p) w h = run_functor-IsWorking s w now p.functor (h p refl)

step-IsWorking : (s : Server) (e : Event) → Comes e → IsWorking s → Returns IsWorking (step s e)
unfolding step
step-IsWorking s (arrives key buffer now) valid w =
    Returns-bind (recv_message_in_loop-Delivered s key now buffer w.valid w.ready valid)
      λ r d. returns (Delivered-IsWorking s w key _ r d)
step-IsWorking s (expires now) h w = check_expired_in_loop-IsWorking s w now
step-IsWorking s (runs i now) h w =
    posted-IsWorking (record s { posted = remove_at i s.posted }) now (get_elem? s.posted i)
      (without-IsWorking s i w) λ p e. get_elem?-subject s.next i s.posted p w.about e

-- Whatever datagrams come, in valid buffers, whenever the connections are checked for expiry, and
-- in whatever order the loops run what is posted to them, a server that is well formed does not
-- fault and stays so: each address has at most one connection in the map, whose key it is and whose
-- close callback is the server's, the cluster has a loop to give, and every posted functor is about
-- a connection that was made.
pub run-IsWorking :
    (s : Server) (es : List Event) → IsWorking s → AreValid es → Returns IsWorking (run s es)
unfolding run
run-IsWorking s [] w h = returns w
run-IsWorking s (e ∷ es) w h =
    let (comes, later) = AreValid-parts e es h in
    Returns-bind (step-IsWorking s e comes w) λ s' w'. run-IsWorking s' es w' later
