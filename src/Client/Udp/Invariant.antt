-- ===== src/Client/Udp/Invariant.antt =====
-- pkg/client/client.go: what holds of the sessions of a UDP tunnel at all times.
use warp_stream.Base.{
  subst, All-append, List, [], ◌∷◌, ◌++◌, Bytes, ◌==◌, ==_iff, sym, ap, ◌∙◌, ℕ, suc, ◌≡◌, ◌≢◌, refl,
  inl, inr, Bool, true, false, some, Text, text_eq, arith, Bool-cases, Option-cases,
}
use warp_stream.Server.Queue.{update}
use warp_stream.Server.Queue.Members.{update_ne}
use warp_stream.Client.Udp.{
  write_datagram, write_ignored, prolong, send_back, listening, writing, UdpTunnel, stopped_timer,
  clear, drop_session, expire, expire_transparent, end_reader, empty_tunnel, Step, datagram,
  written, write_failed, fires, expires, expires_transparent, message, ends, closes, Reach, here,
  next_step,
}
use warp_stream.Client.Udp.Sessions.{
  AllFrom, UdpTunnelInv, apart, clear_with, unlisted, leave-UdpTunnelInv, shut-UdpTunnelInv,
  reset-UdpTunnelInv, stopped_elsewhere,
}
use warp_stream.Client.Udp.Receiving.{looped, receive_datagram-UdpTunnelInv}

module _ {s : UdpTunnel} (v : UdpTunnelInv s) where
  elsewhere :
      (a k : Text) (i j : ℕ) → s.clients a ≡ some i → s.dest j ≡ k → text_eq a k ≡ false → i ≢ j
  elsewhere a k i j l p other = apart s a k i j (v.listed a i l).at p other

  drop_session-UdpTunnelInv :
      (peer : Text) (i : ℕ) (d : Bytes)
      → s.loop ≡ writing peer i d
      → UdpTunnelInv (drop_session peer i s)
  unfolding drop_session
  drop_session-UdpTunnelInv peer i d e =
      leave-UdpTunnelInv i _
        (clear_with peer s (stopped_timer (s.timers peer) s.armed) s.firing s.reading listening v
          (λ a j l other. stopped_elsewhere peer s a j v l other) (λ a j l other. refl)
          (λ a j l other. refl) (λ a j b f. cc f))
        (unlisted peer s i v (v.writes peer i d e))

  end_reader-UdpTunnelInv : (i : ℕ) → UdpTunnelInv (end_reader i s)
  unfolding end_reader
  end_reader-UdpTunnelInv i =
      leave-UdpTunnelInv i _
        (clear_with (s.dest i) s (stopped_timer (s.timers (s.dest i)) s.armed) s.firing
          (update s.reading i false) s.loop v
          (λ a j l other. stopped_elsewhere (s.dest i) s a j v l other) (λ a j l other. refl)
          (λ a j l other. update_ne s.reading i j false (elsewhere a (s.dest i) j i l refl other))
          v.writes)
        (unlisted (s.dest i) s i v refl)

  fired : (i n : ℕ) → UdpTunnelInv (clear (s.dest i) (record s { firing = update s.firing i n }))
  fired i n =
      clear_with (s.dest i) s s.armed (update s.firing i n) s.reading s.loop v (λ a j l other. refl)
        (λ a j l other. update_ne s.firing i j n (elsewhere a (s.dest i) j i l refl other))
        (λ a j l other. refl) v.writes

  sent : (to_peer : Text → List Bytes) → UdpTunnelInv (record s { to_peer = to_peer })
  sent to_peer = record {
    same_maps = v.same_maps;
    listed = λ a j f.
        let h = v.listed a j f in
        record { known = h.known; at = h.at; reads = h.reads; stays = h.stays; timed = h.timed };
    closed_last = v.closed_last;
    writes = v.writes;
    routed = v.routed;
  }

  prolong-UdpTunnelInv : (i : ℕ) (binary : Bool) (p : Bytes) → UdpTunnelInv (prolong i binary p s)
  unfolding prolong
  prolong-UdpTunnelInv i binary p =
      let to_peer = send_back binary (s.dest i) p s.to_peer in
      reset-UdpTunnelInv (s.timers (s.dest i)) (record s { to_peer = to_peer }) (sent to_peer)

  write_datagram-UdpTunnelInv :
      (peer : Text) (i : ℕ) (d : Bytes)
      → s.loop ≡ writing peer i d
      → UdpTunnelInv (write_datagram peer i d s)
  unfolding write_datagram
  write_datagram-UdpTunnelInv peer i d e =
      let w = looped v listening (λ a j b f. cc f) in
      record {
        same_maps = w.same_maps;
        listed = λ a j f.
            let h = w.listed a j f in
            record {
              known = h.known;
              at = h.at;
              reads = h.reads;
              stays = h.stays;
              timed = h.timed;
            };
        closed_last = w.closed_last;
        writes = w.writes;
        routed = λ j. elim (Bool-cases (j == i)) [
          | inl it ↦ rw it (
              subst (λ k. AllFrom (s.dest k) (s.to_stream i ++ (peer, d) ∷ []))
                (sym ((==_iff j i).0 it))
                (All-append (λ (x : Text × Bytes). x.0 ≡ s.dest i) (s.to_stream i) ((peer, d) ∷ [])
                  (v.routed i) (sym (v.writes peer i d e), tt)))
          | inr other ↦ rw other (v.routed j)
        ];
      }

  expire-UdpTunnelInv : (i n : ℕ) → UdpTunnelInv (expire i n s)
  unfolding expire
  expire-UdpTunnelInv i n = leave-UdpTunnelInv i _ (fired i n) (unlisted (s.dest i) s i v refl)

  expire_transparent-UdpTunnelInv : (i n : ℕ) → UdpTunnelInv (expire_transparent i n s)
  unfolding expire_transparent
  expire_transparent-UdpTunnelInv i n = elim (Option-cases (s.clients (s.dest i))) [
    | inl absent ↦ rw absent (fired i n)
    | inr (j, e) ↦
        rw e (
          shut-UdpTunnelInv j _ (fired i n)
            (unlisted (s.dest i) s j v (v.listed (s.dest i) j e).at))
  ]

  fires-UdpTunnelInv :
      (i : ℕ)
      → UdpTunnelInv (record s {
        armed = update s.armed i false;
        firing = update s.firing i (suc (s.firing i));
      })
  fires-UdpTunnelInv i = record {
    same_maps = v.same_maps;
    listed = λ a j e.
        let h = v.listed a j e in
        record {
          known = h.known;
          at = h.at;
          reads = h.reads;
          stays = h.stays;
          timed = elim (Bool-cases (j == i)) [
            | inl it ↦ inr (rw it (omega (arith)))
            | inr other ↦ rw other h.timed
          ];
        };
    closed_last = v.closed_last;
    writes = v.writes;
    routed = v.routed;
  }

  closes-UdpTunnelInv :
      (i : ℕ) → s.leaving i ≡ true → UdpTunnelInv (record s { closed = update s.closed i true })
  closes-UdpTunnelInv i l = record {
    same_maps = v.same_maps;
    listed = λ a j e.
        let h = v.listed a j e in
        record { known = h.known; at = h.at; reads = h.reads; stays = h.stays; timed = h.timed };
    closed_last = λ j e. elim (Bool-cases (j == i)) [
      | inl it ↦ ap s.leaving ((==_iff j i).0 it) ∙ l
      | inr other ↦
          let ne : j ≢ i = λ f. cc (other, (==_iff j i).1 f) in
          v.closed_last j (sym (update_ne s.closed i j true ne) ∙ e)
    ];
    writes = v.writes;
    routed = v.routed;
  }

pub Step-UdpTunnelInv :
    {transparent : Bool} {s t : UdpTunnel} → Step transparent s t → UdpTunnelInv s → UdpTunnelInv t
Step-UdpTunnelInv (datagram connects peer d _) v = receive_datagram-UdpTunnelInv v connects peer d
Step-UdpTunnelInv (written peer i d e) v = write_datagram-UdpTunnelInv v peer i d e
Step-UdpTunnelInv (write_failed peer i d _ e) v = drop_session-UdpTunnelInv v peer i d e
Step-UdpTunnelInv (write_ignored peer i d _ e) v = looped v listening (λ a j b f. cc f)
Step-UdpTunnelInv (fires i _) v = fires-UdpTunnelInv v i
Step-UdpTunnelInv (expires i n _ _) v = expire-UdpTunnelInv v i n
Step-UdpTunnelInv (expires_transparent i n _ _) v = expire_transparent-UdpTunnelInv v i n
Step-UdpTunnelInv (message i binary p _) v = prolong-UdpTunnelInv v i binary p
Step-UdpTunnelInv (ends i _) v = end_reader-UdpTunnelInv v i
Step-UdpTunnelInv (closes i l) v = closes-UdpTunnelInv v i l

empty_tunnel-UdpTunnelInv : (dest : ℕ → Text) → UdpTunnelInv (empty_tunnel dest)
unfolding empty_tunnel
empty_tunnel-UdpTunnelInv dest = record {
  same_maps = λ a. refl;
  listed = λ a i e. cc e;
  closed_last = λ i e. cc e;
  writes = λ a i d e. cc e;
  routed = λ i. tt;
}

-- In a UDP tunnel of the client, transparent or not, whatever datagrams and messages come, streams and
-- writes fail, and timers fire, in every order: the two maps have the same sessions; a session that
-- they have stands under its own peer's address, its goroutine reads, nobody has closed its stream or
-- is about to, and its timer runs or has fired; and what was written to a session's stream are
-- datagrams of its own peer. A stream that was closed is in neither map.
pub Reach-UdpTunnelInv :
    {transparent : Bool} (dest : ℕ → Text) {s : UdpTunnel}
    → Reach transparent (empty_tunnel dest) s
    → UdpTunnelInv s
Reach-UdpTunnelInv dest here = empty_tunnel-UdpTunnelInv dest
Reach-UdpTunnelInv dest (next_step r t) = Step-UdpTunnelInv t (Reach-UdpTunnelInv dest r)
