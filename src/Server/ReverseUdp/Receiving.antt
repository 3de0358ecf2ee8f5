-- ===== src/Server/ReverseUdp/Receiving.antt =====
-- pkg/server/reverse_udp.go: a datagram arrives: the sessions after it.
use warp_stream.Base.{
  ℕ, suc, ◌<◌, ◌≡◌, refl, sym, ap, ◌⊎◌, subst, ◌∙◌, true, false, Option, none, some, text_eq,
  text_eq_iff, Text, Bytes, arith, Bool-cases, inl, inr,
}
use warp_stream.Server.Queue.{update}
use warp_stream.Server.Queue.Members.{update_self, update_ne}
use warp_stream.Server.Registry.{put}
use warp_stream.Server.ReverseUdp.{UdpSessionConn, new_udp_session_conn, push, change, with_session}
use warp_stream.Server.ReverseUdp.System.{System, with_arrival}
use warp_stream.Server.ReverseUdp.Session.{
  nothing, ServedAt, UdpInv, relisted, peer-push, push-ServedAt, arrival-IsServed, at_update,
}

pub some_inj : {i j : ℕ} → some i ≡ some j → i ≡ j
some_inj e = cc e

-- What a changed map has.
pub put-cases :
    (f : Text → Option ℕ) (key : Text) (x : Option ℕ) (a : Text) (y : Option ℕ)
    → put f key x a ≡ y
    → ((a ≡ key) × (x ≡ y)) ⊎ ((text_eq a key ≡ false) × (f a ≡ y))
put-cases f key x a y e = elim (Bool-cases (text_eq a key)) [
  | inl same ↦ inl ((text_eq_iff a key).0 same, sym (at_key same) ∙ e)
  | inr other ↦ inr (other, sym (elsewhere other) ∙ e)
]
  where
    at_key : text_eq a key ≡ true → put f key x a ≡ x
    at_key same = rw same refl

    elsewhere : text_eq a key ≡ false → put f key x a ≡ f a
    elsewhere other = rw other refl

module _ {s : System} (v : UdpInv s) where
  -- A datagram of a peer that has a session.
  pub receive_known :
      (peer : Text) (d : Bytes) (j : ℕ)
      → s.table.sessions peer ≡ some j
      → UdpInv (record s {
        table = change j (push d (s.table.store j)) s.table;
        arrived = with_arrival peer d s.arrived;
      })
  receive_known peer d j e =
      let k = v.known peer j e in
      record {
        served = λ i h.
            at_update
              (λ i u.
                ServedAt i u (s.forgotten i) s.table.sessions (s.taken i)
                  (with_arrival peer d s.arrived))
              s.table.store j (push d (s.table.store j)) i
              (push-ServedAt j (s.table.store j) peer d (s.forgotten j) s.table.sessions (s.taken j)
                s.arrived k.1 (v.served j k.0))
              (λ other.
                arrival-IsServed i (s.table.store i) (s.forgotten i)
                  (s.table.sessions (s.table.store i).peer) (s.taken i) peer d s.arrived
                  (v.served i h));
        known = λ a i f. let n = v.known a i f in (n.0, same_peer i ∙ n.1, n.2);
        fresh = v.fresh;
      }
    where
      same_peer :
          (i : ℕ)
          → (update s.table.store j (push d (s.table.store j)) i).peer ≡ (s.table.store i).peer
      same_peer i =
          at_update (λ i u. u.peer ≡ (s.table.store i).peer) s.table.store j
            (push d (s.table.store j)) i (peer-push d (s.table.store j)) (λ other. refl)

  -- The first datagram of a peer that has none.
  pub receive_new :
      (peer : Text) (d : Bytes)
      → s.table.sessions peer ≡ none
      → UdpInv (record s {
        table = with_session peer d s.table none;
        arrived = with_arrival peer d s.arrived;
      })
  unfolding new_udp_session_conn with_session
  receive_new peer d e = record {
    served = λ i h.
        at_update
          (λ i u. ServedAt i u (s.forgotten i) sessions (s.taken i) (with_arrival peer d s.arrived))
          s.table.store s.table.next (push d (new_udp_session_conn peer)) i
          (push-ServedAt s.table.next (new_udp_session_conn peer) peer d (s.forgotten s.table.next)
            sessions (s.taken s.table.next) s.arrived refl first)
          (λ other.
            arrival-IsServed i (s.table.store i) (s.forgotten i) (sessions (s.table.store i).peer)
              (s.taken i) peer d s.arrived (old i (omega (arith, h, other))));
    known = λ a i f. listed a i f;
    fresh = λ i le. v.fresh i (omega (arith, le));
  }
    where
      sessions : Text → Option ℕ
      sessions = put s.table.sessions peer (some s.table.next)

      first :
          ServedAt s.table.next
            (new_udp_session_conn peer)
            (s.forgotten s.table.next)
            sessions
            (s.taken s.table.next)
            s.arrived
      first = record {
        bounded = omega (arith);
        kept = rw ((v.fresh s.table.next (omega (arith))).0) nothing;
        listed = λ f. rw ((text_eq_iff peer peer).1 refl);
        closed_first = λ f. cc (f, (v.fresh s.table.next (omega (arith))).1);
      }

      old :
          (i : ℕ)
          → i < s.table.next
          → ServedAt i (s.table.store i) (s.forgotten i) sessions (s.taken i) s.arrived
      old i h = relisted (v.served i h) (λ f l.
          elim (Bool-cases (text_eq (s.table.store i).peer peer)) [
            | inl same ↦ cc (l, e, (text_eq_iff (s.table.store i).peer peer).0 same)
            | inr other ↦ rw (other, l)
          ])

      NewPeer : ℕ → Text → Type 0
      NewPeer i a =
          (i < suc s.table.next)
          × ((update s.table.store s.table.next (push d (new_udp_session_conn peer)) i).peer ≡ a)
          × (s.forgotten i ≡ false)

      new_one : NewPeer s.table.next peer
      new_one = (
        omega (arith),
        ap (λ (u : UdpSessionConn). u.peer)
              (update_self s.table.store s.table.next (push d (new_udp_session_conn peer)))
            ∙ peer-push d (new_udp_session_conn peer),
        (v.fresh s.table.next (omega (arith))).1,
      )

      listed : (a : Text) (i : ℕ) → sessions a ≡ some i → NewPeer i a
      listed a i f = elim (put-cases s.table.sessions peer (some s.table.next) a (some i) f) [
        | inl (same, here_it) ↦
            subst (λ k. NewPeer k a) (some_inj here_it)
              (subst (NewPeer s.table.next) (sym same) new_one)
        | inr (other, l) ↦
            let k = v.known a i l in
            (
              omega (arith, k.0),
              ap (λ (u : UdpSessionConn). u.peer)
                    (update_ne s.table.store s.table.next i (push d (new_udp_session_conn peer))
                      (omega (arith, k.0)))
                  ∙ k.1,
              k.2,
            )
      ]
