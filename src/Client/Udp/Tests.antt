-- ===== src/Client/Udp/Tests.antt =====
-- pkg/client/client.go: a peer whose session timed out sends again.
use warp_stream.Base.{ℕ, suc, ◌≡◌, refl, true, false, none, some, [], ◌∷◌, Text, text_eq}
use warp_stream.Server.Queue.{update}
use warp_stream.Client.Udp.{
  UdpTunnel, serve_datagram, receive_datagram, write_datagram, expire, end_reader, empty_tunnel,
  datagram, written, fires, expires, Reach, here, next_step,
}
use warp_stream.Client.Udp.Sessions.{UdpTunnelInv}
use warp_stream.Client.Udp.Invariant.{Reach-UdpTunnelInv}
use warp_stream.Client.Udp.Race.{end_reader-forgets_newer}

abbrev no_dest : ℕ → Text
no_dest i = []

abbrev peer_a : Text
peer_a = 65 ∷ []

abbrev opened : UdpTunnel
opened =
    write_datagram peer_a 0 (1 ∷ []) (receive_datagram true peer_a (1 ∷ []) (empty_tunnel no_dest))

abbrev fired : UdpTunnel
fired = record opened {
  armed = update opened.armed 0 false;
  firing = update opened.firing 0 (suc (opened.firing 0));
}

-- The first session's goroutine did not end yet.
abbrev renewed : UdpTunnel
renewed = receive_datagram true peer_a (2 ∷ []) (expire 0 0 fired)

renewed_reached : Reach false (empty_tunnel no_dest) renewed
unfolding receive_datagram serve_datagram write_datagram expire empty_tunnel text_eq
renewed_reached =
    next_step
      (next_step
        (next_step
          (next_step (next_step here (datagram true peer_a (1 ∷ []) refl))
            (written peer_a 0 (1 ∷ []) refl))
          (fires 0 refl))
        (expires 0 0 refl refl))
      (datagram true peer_a (2 ∷ []) refl)

newer_listed : renewed.clients (renewed.dest 0) ≡ some 1
unfolding receive_datagram serve_datagram write_datagram expire empty_tunnel text_eq
newer_listed = refl

-- The stream got the datagram with its peer's address.
opened_stream : opened.to_stream 0 ≡ (peer_a, 1 ∷ []) ∷ []
unfolding receive_datagram serve_datagram write_datagram empty_tunnel
opened_stream = refl

Reach-UdpTunnelInv_example : UdpTunnelInv renewed
Reach-UdpTunnelInv_example = Reach-UdpTunnelInv no_dest renewed_reached

end_reader-forgets_newer_example :
    ((end_reader 0 renewed).clients (renewed.dest 0) ≡ none)
    × ((end_reader 0 renewed).timers (renewed.dest 0) ≡ none)
    × ((end_reader 0 renewed).armed 1 ≡ false)
    × ((end_reader 0 renewed).closed 1 ≡ false)
    × ((end_reader 0 renewed).leaving 1 ≡ false)
    × ((end_reader 0 renewed).reading 1 ≡ true)
end_reader-forgets_newer_example =
    end_reader-forgets_newer no_dest 0 1 renewed_reached newer_listed (λ e. cc e)
