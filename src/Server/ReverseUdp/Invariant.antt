-- ===== src/Server/ReverseUdp/Invariant.antt =====
-- pkg/server/reverse_udp.go: every datagram goes to the session of its peer, or nowhere.
use warp_stream.Base.{
  ℕ, ◌<◌, ◌≡◌, ◌≢◌, refl, sym, ap, subst, ◌∙◌, true, false, none, some, List, [], ◌∷◌, ◌++◌,
  append_assoc, length, ◌==◌, ==_iff, text_eq, text_eq_iff, Text, Bytes, arith, Bool-cases,
  Option-cases, inl, inr,
}
use warp_stream.Server.Queue.{update}
use warp_stream.Server.Queue.Members.{update_self, update_ne}
use warp_stream.Server.Registry.{put}
use warp_stream.Server.ReverseUdp.{
  UdpSessionConn, read, read_from, close, change, with_session, receive, on_close,
}
use warp_stream.Server.ReverseUdp.System.{
  System, start, Step, datagram, reads, closes, forgets, Reach, here, next_step,
}
use warp_stream.Server.ReverseUdp.Session.{Kept, ServedAt, UdpInv, relisted, at_update}
use warp_stream.Server.ReverseUdp.Receiving.{some_inj, put-cases, receive_known, receive_new}

peer-read : (n : ℕ) (u : UdpSessionConn) → (read n u).1.peer ≡ u.peer
unfolding read read_from
peer-read n u = ground arith

-- Taking the oldest datagram.
taken_one :
    (j n : ℕ) (d : Bytes) (ds : List Bytes) (s : System)
    → (s.table.store j).ch ≡ d ∷ ds
    → ServedAt j (s.table.store j) (s.forgotten j) s.table.sessions (s.taken j) s.arrived
    → ServedAt j
        (read n (s.table.store j)).1
        (s.forgotten j)
        s.table.sessions
        (s.taken j ++ d ∷ [])
        s.arrived
unfolding read read_from
taken_one j n d ds s e h = rw e (record {
  bounded = omega (arith, h.bounded, ap length e);
  kept =
      subst (λ xs. Kept xs (s.arrived (s.table.store j).peer))
        (ap (λ ys. s.taken j ++ ys) e ∙ sym (append_assoc (s.taken j) (d ∷ []) ds)) h.kept;
  listed = h.listed;
  closed_first = h.closed_first;
})

module _ {s : System} (v : UdpInv s) where
  -- Read takes the oldest datagram.
  read_lem :
      (j n : ℕ) (d : Bytes) (ds : List Bytes)
      → j < s.table.next
      → (s.table.store j).ch ≡ d ∷ ds
      → UdpInv (record s {
        table = change j (read n (s.table.store j)).1 s.table;
        taken = update s.taken j (s.taken j ++ d ∷ []);
      })
  read_lem j n d ds lt e = record {
    served = λ i h.
        at_update
          (λ i u.
            ServedAt i u (s.forgotten i) s.table.sessions (update s.taken j (s.taken j ++ d ∷ []) i)
              s.arrived)
          s.table.store j (read n (s.table.store j)).1 i
          (rw (update_self s.taken j (s.taken j ++ d ∷ []))
            (taken_one j n d ds s e (v.served j lt)))
          (λ other. rw (update_ne s.taken j i (s.taken j ++ d ∷ []) other) (v.served i h));
    known = λ a i f. let k = v.known a i f in (k.0, same_peer i ∙ k.1, k.2);
    fresh = λ i le. (
      update_ne s.taken j i (s.taken j ++ d ∷ []) (omega (arith, le, lt)) ∙ (v.fresh i le).0,
      (v.fresh i le).1,
    );
  }
    where
      same_peer :
          (i : ℕ)
          → (update s.table.store j (read n (s.table.store j)).1 i).peer ≡ (s.table.store i).peer
      same_peer i =
          at_update (λ i u. u.peer ≡ (s.table.store i).peer) s.table.store j
            (read n (s.table.store j)).1 i (peer-read n (s.table.store j)) (λ other. refl)

  close_lem :
      (j : ℕ)
      → j < s.table.next
      → UdpInv (record s { table = change j (close (s.table.store j)) s.table })
  unfolding close
  close_lem j lt = record {
    served = λ i h.
        at_update (λ i u. ServedAt i u (s.forgotten i) s.table.sessions (s.taken i) s.arrived)
          s.table.store j (close (s.table.store j)) i
          (let k = v.served j lt in
            record {
              bounded = k.bounded;
              kept = k.kept;
              listed = k.listed;
              closed_first = λ f. refl;
            })
          (λ other. v.served i h);
    known = λ a i f. let k = v.known a i f in (k.0, same_peer i ∙ k.1, k.2);
    fresh = v.fresh;
  }
    where
      same_peer :
          (i : ℕ)
          → (update s.table.store j (close (s.table.store j)) i).peer ≡ (s.table.store i).peer
      same_peer i =
          at_update (λ i u. u.peer ≡ (s.table.store i).peer) s.table.store j
            (close (s.table.store j)) i refl (λ other. refl)

  on_close_lem :
      (j : ℕ)
      → j < s.table.next
      → (s.table.store j).closed ≡ true
      → s.forgotten j ≡ false
      → UdpInv (record s {
        table = on_close (s.table.store j).peer s.table;
        forgotten = update s.forgotten j true;
      })
  unfolding on_close
  on_close_lem j lt c f = record {
    served = λ i h. elim (Bool-cases (i == j)) [
      | inl same ↦ gone i ((==_iff i j).0 same) h
      | inr other ↦ stays i (λ n. cc (other, (==_iff i j).1 n)) h
    ];
    known = λ a i e. listed a i e;
    fresh = λ i le. (
      (v.fresh i le).0,
      update_ne s.forgotten j i true (omega (arith, le, lt)) ∙ (v.fresh i le).1,
    );
  }
    where
      Served : ℕ → Type 0
      Served i =
          ServedAt i (s.table.store i) (update s.forgotten j true i)
            (put s.table.sessions (s.table.store j).peer none) (s.taken i) s.arrived

      gone : (i : ℕ) → i ≡ j → i < s.table.next → Served i
      gone i same h = subst Served (sym same) (
          rw (update_self s.forgotten j true) (
            let k = v.served j lt in
            record {
              bounded = k.bounded;
              kept = k.kept;
              listed = λ e. cc e;
              closed_first = λ e. c;
            }))

      stays : (i : ℕ) → i ≢ j → i < s.table.next → Served i
      stays i ne h = rw (update_ne s.forgotten j i true ne) (
          relisted (v.served i h) (λ g l.
            elim (Bool-cases (text_eq (s.table.store i).peer (s.table.store j).peer)) [
              | inl same ↦ absurd (
                  ne (
                    some_inj (
                      sym l
                      ∙ ap s.table.sessions
                          ((text_eq_iff (s.table.store i).peer (s.table.store j).peer).0 same)
                      ∙ (v.served j lt).listed f)))
              | inr other ↦ rw (other, l)
            ]))

      differs :
          (a : Text) (i : ℕ)
          → (s.table.store i).peer ≡ a
          → text_eq a (s.table.store j).peer ≡ false
          → i ≢ j
      differs a i p other same = cc (
        (text_eq_iff a (s.table.store j).peer).1 (sym p ∙ ap (λ k. (s.table.store k).peer) same),
        other,
      )

      listed :
          (a : Text) (i : ℕ)
          → put s.table.sessions (s.table.store j).peer none a ≡ some i
          → (i < s.table.next)
            × ((s.table.store i).peer ≡ a)
            × (update s.forgotten j true i ≡ false)
      listed a i e = elim (put-cases s.table.sessions (s.table.store j).peer none a (some i) e) [
        | inl (same, absent) ↦ cc absent
        | inr (other, l) ↦
            let k = v.known a i l in
            (k.0, k.1, update_ne s.forgotten j i true (differs a i k.1 other) ∙ k.2)
      ]

pub Step-UdpInv : {s t : System} → Step s t → UdpInv s → UdpInv t
unfolding receive with_session
Step-UdpInv {s} (datagram peer d) v = elim (Option-cases (s.table.sessions peer)) [
  | inl absent ↦ rw absent (receive_new v peer d absent)
  | inr (j, e) ↦ rw e (receive_known v peer d j e)
]
Step-UdpInv (reads i n d ds lt e) v = read_lem v i n d ds lt e
Step-UdpInv (closes i lt c) v = close_lem v i lt
Step-UdpInv (forgets i lt c f) v = on_close_lem v i lt c f

start-UdpInv : (store : ℕ → UdpSessionConn) → UdpInv (start store)
start-UdpInv store = record {
  served = λ i h. absurd (omega (arith, h));
  known = λ a i e. cc e;
  fresh = λ i le. (refl, refl);
}

-- Whatever datagrams arrive at a reverse UDP listener, and however the sessions' readers, Close and
-- onClose run in between: a session that was not forgotten is the one that the table has under its
-- peer, and the table has no other; onClose ran only after Close; at most 128 datagrams wait for a
-- session's reader; and what the reader took, with what waits, are datagrams of the session's own
-- peer in the order of their arrival, some of them dropped.
pub Reach-UdpInv : (store : ℕ → UdpSessionConn) {s : System} → Reach (start store) s → UdpInv s
Reach-UdpInv store here = start-UdpInv store
Reach-UdpInv store (next_step r t) = Step-UdpInv t (Reach-UdpInv store r)
