-- ===== src/Server/ReverseUdp/Tests.antt =====
-- pkg/server/reverse_udp.go on small inputs.
use warp_stream.Base.{ℕ, ◌≡◌, refl, true, false, some, [], ◌∷◌, Text, arith, ◌++◌, text_eq}
use warp_stream.Server.Queue.{update}
use warp_stream.Server.ReverseUdp.{
  UdpSessionConn, UdpTable, change, new_udp_session_conn, with_session, read_from, push, read,
  close, receive, on_close,
}
use warp_stream.Server.ReverseUdp.System.{
  System, start, with_arrival, datagram, reads, closes, forgets, Reach, here, next_step,
}
use warp_stream.Server.ReverseUdp.Session.{UdpInv}
use warp_stream.Server.ReverseUdp.Invariant.{Reach-UdpInv}

abbrev no_session : ℕ → UdpSessionConn
no_session i = record { peer = []; ch = []; closed = false }

abbrev peer_a : Text
peer_a = 65 ∷ []

abbrev peer_b : Text
peer_b = 66 ∷ []

-- Two peers, three datagrams.
abbrev three_arrived : UdpTable
three_arrived =
    receive peer_a (3 ∷ [])
      (receive peer_b (2 ∷ []) (receive peer_a (1 ∷ []) (start no_session).table))

three_arrived_store : (three_arrived.store 0).ch ≡ (1 ∷ []) ∷ (3 ∷ []) ∷ []
unfolding receive with_session text_eq push new_udp_session_conn
three_arrived_store = refl

-- The session of a peer that was forgotten is not used again.
renewed : (receive peer_a (4 ∷ []) (on_close peer_a three_arrived)).sessions peer_a ≡ some 2
unfolding receive on_close with_session text_eq
renewed = refl

-- A datagram comes, is read, and the session is closed and forgotten.
abbrev arrived_one : System
arrived_one = record (start no_session) {
  table = receive peer_a (1 ∷ []) (start no_session).table;
  arrived = with_arrival peer_a (1 ∷ []) (start no_session).arrived;
}

abbrev taken_one : System
taken_one = record arrived_one {
  table = change 0 (read 8 (arrived_one.table.store 0)).1 arrived_one.table;
  taken = update arrived_one.taken 0 (arrived_one.taken 0 ++ (1 ∷ []) ∷ []);
}

abbrev closed_one : System
closed_one = record taken_one { table = change 0 (close (taken_one.table.store 0)) taken_one.table }

abbrev forgotten_one : System
forgotten_one = record closed_one {
  table = on_close (closed_one.table.store 0).peer closed_one.table;
  forgotten = update closed_one.forgotten 0 true;
}

one_session : Reach (start no_session) forgotten_one
unfolding receive on_close with_session text_eq push new_udp_session_conn read read_from close
one_session =
    next_step
      (next_step
        (next_step (next_step here (datagram peer_a (1 ∷ [])))
          (reads 0 8 (1 ∷ []) [] (omega (arith)) refl))
        (closes 0 (omega (arith)) refl))
      (forgets 0 (omega (arith)) refl refl)

Reach-UdpInv_example : UdpInv forgotten_one
Reach-UdpInv_example = Reach-UdpInv no_session one_session
