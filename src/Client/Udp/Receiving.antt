-- ===== src/Client/Udp/Receiving.antt =====
-- pkg/client/client.go: a datagram comes to the socket of a UDP tunnel.
use warp_stream.Base.{
  Bytes, ◌==◌, ==_iff, sym, ap, ◌∙◌, ℕ, ◌≡◌, ◌≢◌, refl, subst, inl, inr, Bool, true, false, some,
  Text, text_eq, arith, Bool-cases, Option-cases,
}
use warp_stream.Server.Queue.Members.{update_self, update_ne}
use warp_stream.Server.ReverseUdp.Receiving.{some_inj, put-cases}
use warp_stream.Client.Udp.{
  Loop, writing, UdpTunnel, open_session, serve_datagram, receive_datagram,
}
use warp_stream.Client.Udp.Sessions.{Listed, UdpTunnelInv, reset-UdpTunnelInv}

writing_inj :
    {a b : Text} {i j : ℕ} {d e : Bytes} → writing a i d ≡ writing b j e → (a ≡ b) × (i ≡ j)
writing_inj e = (cc e, cc e)

module _ {s : UdpTunnel} (v : UdpTunnelInv s) where
  pub looped :
      (loop : Loop)
      → ((a : Text) (i : ℕ) (d : Bytes) → loop ≡ writing a i d → s.dest i ≡ a)
      → UdpTunnelInv (record s { loop = loop })
  looped loop w = record {
    same_maps = v.same_maps;
    listed = λ a i e.
        let h = v.listed a i e in
        record { known = h.known; at = h.at; reads = h.reads; stays = h.stays; timed = h.timed };
    closed_last = v.closed_last;
    writes = w;
    routed = v.routed;
  }

  open_session-UdpTunnelInv : (peer : Text) (d : Bytes) → UdpTunnelInv (open_session peer d s)
  open_session-UdpTunnelInv peer d = record {
    same_maps = λ a. elim (Bool-cases (text_eq a peer)) [
      | inl it ↦ rw it refl
      | inr other ↦ rw other (v.same_maps a)
    ];
    listed = λ a i e. listed_now a i e;
    closed_last = λ i e. elim (Bool-cases (i == s.next)) [
      | inl it ↦ cc (
        e,
        sym (ap (open_session peer d s).closed ((==_iff i s.next).0 it)),
        update_self s.closed s.next false,
      )
      | inr other ↦
          let ne : i ≢ s.next = λ f. cc (other, (==_iff i s.next).1 f) in
          update_ne s.leaving s.next i false ne
          ∙ v.closed_last i (sym (update_ne s.closed s.next i false ne) ∙ e)
    ];
    writes = λ a i b e.
        let k = writing_inj e in
        ap (open_session peer d s).dest (sym k.1) ∙ update_self s.dest s.next peer ∙ k.0;
    routed = λ i. elim (Bool-cases (i == s.next)) [
      | inl it ↦ rw it tt
      | inr other ↦ rw other (v.routed i)
    ];
  }
    where
      new_one : Listed (open_session peer d s) peer s.next
      new_one = record {
        known = omega (arith);
        at = update_self s.dest s.next peer;
        reads = update_self s.reading s.next true;
        stays = update_self s.leaving s.next false;
        timed = inl (update_self s.armed s.next true);
      }

      old : (a : Text) (i : ℕ) → i ≢ s.next → Listed s a i → Listed (open_session peer d s) a i
      old a i ne h = record {
        known = omega (arith, h.known);
        at = update_ne s.dest s.next i peer ne ∙ h.at;
        reads = update_ne s.reading s.next i true ne ∙ h.reads;
        stays = update_ne s.leaving s.next i false ne ∙ h.stays;
        timed = rw (update_ne s.armed s.next i true ne, update_ne s.firing s.next i 0 ne) h.timed;
      }

      listed_now :
          (a : Text) (i : ℕ)
          → (open_session peer d s).clients a ≡ some i
          → Listed (open_session peer d s) a i
      listed_now a i e = elim (put-cases s.clients peer (some s.next) a (some i) e) [
        | inl (same, it) ↦
            subst (λ j. Listed (open_session peer d s) a j) (some_inj it)
              (subst (λ b. Listed (open_session peer d s) b s.next) (sym same) new_one)
        | inr (other, l) ↦ let h = v.listed a i l in old a i (λ f. omega (arith, f, h.known)) h
      ]

pub receive_datagram-UdpTunnelInv :
    {s : UdpTunnel} (v : UdpTunnelInv s) (connects : Bool) (peer : Text) (d : Bytes)
    → UdpTunnelInv (receive_datagram connects peer d s)
unfolding receive_datagram serve_datagram
receive_datagram-UdpTunnelInv {s} v connects peer d = elim (Option-cases (s.clients peer)) [
  | inl absent ↦ rw absent (elim (Bool-cases connects) [
    | inl up ↦ rw up (open_session-UdpTunnelInv v peer d)
    | inr down ↦ rw down v
  ])
  | inr (i, e) ↦ rw e (
      reset-UdpTunnelInv (s.timers peer) (record s { loop = writing peer i d })
        (looped v (writing peer i d)
          (λ a j b f. let k = writing_inj f in ap s.dest (sym k.1) ∙ (v.listed peer i e).at ∙ k.0)))
]
