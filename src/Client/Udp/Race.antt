-- ===== src/Client/Udp/Race.antt =====
-- pkg/client/client.go: a session ends when its peer has a newer one.
use warp_stream.Base.{
  sym, ◌∙◌, ℕ, ◌≡◌, ◌≢◌, refl, inl, inr, Bool, true, false, none, some, Text, text_eq_iff,
  Bool-cases,
}
use warp_stream.Server.Queue.Members.{update_self, update_ne}
use warp_stream.Client.Udp.{UdpTunnel, end_reader, empty_tunnel, Reach}
use warp_stream.Client.Udp.Invariant.{Reach-UdpTunnelInv}

-- At any time in a UDP tunnel of the client, if the goroutine of a session ends when its peer has a newer
-- session already, as is possible behind a timeout or a failed write: the newer session is in the maps
-- no more and its timer is stopped, but its stream is open and its goroutine goes on reading.
pub end_reader-forgets_newer :
    {transparent : Bool} (dest : ℕ → Text) {s : UdpTunnel} (i j : ℕ)
    → Reach transparent (empty_tunnel dest) s
    → s.clients (s.dest i) ≡ some j
    → i ≢ j
    → ((end_reader i s).clients (s.dest i) ≡ none)
      × ((end_reader i s).timers (s.dest i) ≡ none)
      × ((end_reader i s).armed j ≡ false)
      × ((end_reader i s).closed j ≡ false)
      × ((end_reader i s).leaving j ≡ false)
      × ((end_reader i s).reading j ≡ true)
unfolding end_reader
end_reader-forgets_newer dest {s} i j r e ne =
    let v = Reach-UdpTunnelInv dest r in
    let h = v.listed (s.dest i) j e in
    let own = (text_eq_iff (s.dest i) (s.dest i)).1 refl in
    let newer : j ≢ i = λ f. ne (sym f) in
    (
      rw own refl,
      rw own refl,
      rw (v.same_maps (s.dest i), e) (update_self s.armed j false),
      elim (Bool-cases (s.closed j)) [
        | inl shut_now ↦ cc (v.closed_last j shut_now, h.stays)
        | inr still ↦ still
      ],
      update_ne s.leaving i j true newer ∙ h.stays,
      update_ne s.reading i j false newer ∙ h.reads,
    )
