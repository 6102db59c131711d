-- ===== src/UdpServer/Working.antt =====
-- A server of src/net/udp/UdpServer.cpp that is well formed, and the functors that are posted for it.
use libsaf.Common.{
  ℕ, zero, suc, ◌≤◌, ◌<◌, ◌≡◌, ◌≢◌, inl, inr, refl, sym, ap, subst, ◌∙◌, arith, false, Bool-cases,
  List, [], ◌∷◌, ◌++◌, none, some, ok, or_fault, null_pointer, Returns, returns, ◌==◌, ==_refl,
  ne→==, ℕ_discrete, dec_lt, get_elem?,
}
use libsaf.Server.{
  Server, Peer, find, erase, Functor, Posted, establishes, closes, removes, reads, peer, set_peer,
  post, run_functor, close_in_loop, on_closed_in_connection, remove_connection_in_loop,
  unbind_default_callbacks,
}
use libsaf.Server.Map.{find-erase_same, find-erase_other, erase-IsDistinct}
use libsaf.Server.Connections.{Known, IsValid, HasLoops, post-IsValid}
use libsaf.UdpServer.{remove_at}

-- The connection that a functor is about.
abbrev pub subject : Functor → ℕ
subject (establishes id) = id
subject (closes id) = id
subject (removes id) = id
subject (reads id bytes) = id

-- Every functor is about a connection that the server has made.
abbrev pub AllAbout : ℕ → List Posted → Type 0
AllAbout n [] = Unit {0}
AllAbout n (p ∷ ps) = (subject p.functor < n) × AllAbout n ps

pub record IsWorking (s : Server) : Type 0 where
  pub valid : IsValid s
  pub ready : HasLoops s.cluster
  pub made : (id : ℕ) → id < s.next → (p : Peer) × (s.peers id ≡ some p)
  pub about : AllAbout s.next s.posted

pub append-AllAbout :
    (n : ℕ) (ps qs : List Posted) → AllAbout n ps → AllAbout n qs → AllAbout n (ps ++ qs)
append-AllAbout n [] qs h k = k
append-AllAbout n (p ∷ ps) qs (l, h) k = (l, append-AllAbout n ps qs h k)

pub later-AllAbout : (m n : ℕ) (ps : List Posted) → m ≤ n → AllAbout m ps → AllAbout n ps
later-AllAbout m n [] l h = tt
later-AllAbout m n (p ∷ ps) l (h, hs) = (omega (arith, h, l), later-AllAbout m n ps l hs)

pub remove_at-AllAbout : (n i : ℕ) (ps : List Posted) → AllAbout n ps → AllAbout n (remove_at i ps)
remove_at-AllAbout n i [] h = tt
remove_at-AllAbout n zero (p ∷ ps) (l, h) = h
remove_at-AllAbout n (suc i) (p ∷ ps) (l, h) = (l, remove_at-AllAbout n i ps h)

pub get_elem?-subject :
    (n i : ℕ) (ps : List Posted) (p : Posted)
    → AllAbout n ps
    → get_elem? ps i ≡ some p
    → subject p.functor < n
get_elem?-subject n i [] p h e = cc
get_elem?-subject n zero (q ∷ ps) p (l, h) e =
    let same : q ≡ p = cc in subst (λ x. subject x.functor < n) same l
get_elem?-subject n (suc i) (q ∷ ps) p (l, h) e = get_elem?-subject n i ps p h e

pub there-made : (s : Server) → IsValid s → (id : ℕ) (p : Peer) → s.peers id ≡ some p → id < s.next
there-made s v id p e = elim (dec_lt id s.next) [
  | yes l ↦ l
  | no nl ↦
      let nobody : s.peers id ≡ none = v.fresh id (omega (arith, nl)) in
      let both : none ≡ some p = sym nobody ∙ e in cc
]

module _ (s : Server) (w : IsWorking s) where
  -- A functor more.
  post-IsWorking : (loop : ℕ) (f : Functor) → subject f < s.next → IsWorking (post s loop f)
  post-IsWorking loop f l = record {
    valid = post-IsValid s loop f w.valid;
    ready = w.ready;
    made = w.made;
    about = append-AllAbout s.next s.posted _ w.about (l, tt);
  }

  fresh_other :
      (id : ℕ) (p q : Peer)
      → s.peers id ≡ some p
      → (i : ℕ) → s.next ≤ i
      → (set_peer s id q).peers i ≡ none
  fresh_other id p q e i l =
      let nobody : s.peers i ≡ none = w.valid.fresh i l in
      let other : i ≢ id =
        λ same. (let both : none ≡ some p = sym nobody ∙ ap s.peers same ∙ e in cc) in
      rw (ne→== i id other) nobody

  made_peer :
      (id : ℕ) (q : Peer) (i : ℕ) → i < s.next → (r : Peer) × ((set_peer s id q).peers i ≡ some r)
  made_peer id q i l = elim (ℕ_discrete i id) [
    | yes same ↦ (q, rw (ap (λ n. n == id) same ∙ ==_refl id) refl)
    | no ne ↦ let (r, e) = w.made i l in (r, rw (ne→== i id ne) e)
  ]

  -- What the map still has when the entry of a connection's address is erased is not that connection.
  erased-Known :
      (id : ℕ) (p q : Peer)
      → s.peers id ≡ some p
      → (j i : ℕ) → find (erase s.connections p.key) j ≡ some i
      → Known (record (set_peer s id q) { connections = erase s.connections p.key }) j i
  erased-Known id p q e j i f = elim (ℕ_discrete p.key j) [
    | yes same ↦
        let both : none ≡ some i =
          sym (find-erase_same s.connections p.key)
          ∙ ap (find (erase s.connections p.key)) same
          ∙ f in
        cc
    | no differ ↦
        let k = w.valid.known j i (sym (find-erase_other s.connections p.key j differ) ∙ f) in
        let other : i ≢ id = λ same.
          (let both : some p ≡ some k.peer = sym e ∙ ap s.peers (sym same) ∙ k.found in
            let one : p ≡ k.peer = cc in differ (ap (λ r. r.key) one ∙ k.keyed)) in
        record {
          peer = k.peer;
          found = rw (ne→== i id other) k.found;
          keyed = k.keyed;
          bound = k.bound;
        }
  ]

  -- A connection whose key and close callback are as before.
  set_peer-IsWorking :
      (id : ℕ) (p q : Peer)
      → s.peers id ≡ some p
      → q.key ≡ p.key
      → q.bound ≡ p.bound
      → IsWorking (set_peer s id q)
  set_peer-IsWorking id p q e key bound = record {
    valid = record {
      distinct = w.valid.distinct;
      known = λ j i f.
          let k = w.valid.known j i f in
          elim (ℕ_discrete i id) [
            | yes same ↦
                let both : some k.peer ≡ some p = sym k.found ∙ ap s.peers same ∙ e in
                let one : k.peer ≡ p = cc in
                record {
                  peer = q;
                  found = rw (ap (λ n. n == id) same ∙ ==_refl id) refl;
                  keyed = key ∙ ap (λ r. r.key) (sym one) ∙ k.keyed;
                  bound = bound ∙ ap (λ r. r.bound) (sym one) ∙ k.bound;
                }
            | no ne ↦ record {
              peer = k.peer;
              found = rw (ne→== i id ne) k.found;
              keyed = k.keyed;
              bound = k.bound;
            }
          ];
      fresh = λ i l. fresh_other id p q e i l;
    };
    ready = w.ready;
    made = λ i l. made_peer id q i l;
    about = w.about;
  }

  remove_connection_in_loop-IsWorking :
      (id : ℕ) → id < s.next → Returns IsWorking (remove_connection_in_loop s id)
  unfolding remove_connection_in_loop unbind_default_callbacks
  remove_connection_in_loop-IsWorking id l =
      let (p, e) = w.made id l in
      let q : Peer = record p { bound = false } in
      let found : peer s id ≡ ok p = ap (λ o. or_fault o null_pointer) e in
      rw found (
        returns (record {
          valid = record {
            distinct = erase-IsDistinct s.connections p.key w.valid.distinct;
            known = λ j i f. erased-Known id p q e j i f;
            fresh = λ i h. fresh_other id p q e i h;
          };
          ready = w.ready;
          made = λ i h. made_peer id q i h;
          about = w.about;
        }))

  close_in_loop-IsWorking : (id : ℕ) (p : Peer) → id < s.next → IsWorking (close_in_loop s id p)
  unfolding close_in_loop on_closed_in_connection
  close_in_loop-IsWorking id p l = elim (Bool-cases p.bound) [
    | inl e ↦ rw e (post-IsWorking s.cluster.master (removes id) l)
    | inr e ↦ rw e w
  ]

  pub run_functor-IsWorking :
      (now : ℕ) (f : Functor) → subject f < s.next → Returns IsWorking (run_functor s now f)
  unfolding run_functor
  run_functor-IsWorking now (establishes id) l = returns w
  run_functor-IsWorking now (reads id bytes) l =
      let (p, e) = w.made id l in
      let found : peer s id ≡ ok p = ap (λ o. or_fault o null_pointer) e in
      rw found (returns (set_peer-IsWorking id p (record p { actived_time = now }) e refl refl))
  run_functor-IsWorking now (closes id) l =
      let (p, e) = w.made id l in
      let found : peer s id ≡ ok p = ap (λ o. or_fault o null_pointer) e in
      rw found (returns (close_in_loop-IsWorking id p l))
  run_functor-IsWorking now (removes id) l = remove_connection_in_loop-IsWorking id l
