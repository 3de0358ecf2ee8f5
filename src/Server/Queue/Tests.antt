-- ===== src/Server/Queue/Tests.antt =====
-- A listener's queue with two clients.
use warp_stream.Base.{ℕ, ◌≡◌, refl, true, false, [], ◌∷◌}
use warp_stream.Server.Queue.{
  Carrier, ws_conn, fresh_conn, ListenerQueue, is_acquired, pending, enqueue_waiting_conn,
  acquire_waiting_conn,
}
use warp_stream.Server.Queue.Fifo.{Takes, acquire-Takes}
use warp_stream.Server.Queue.System.{
  System, waiting, initial, Reach, here, next, attempt, after_attempt,
}
use warp_stream.Server.Queue.Safety.{SystemInv, Reach-Inv}
use warp_stream.Server.Queue.Race.{timeout_race}

abbrev all_ws : ℕ → Carrier
all_ws w = ws_conn

abbrev two_waiting : ListenerQueue
two_waiting = record {
  waiting = 1 ∷ 2 ∷ [];
  wait_cap = 10;
  quit = false;
  broadcasts = 2;
  conns = λ w. fresh_conn ws_conn;
}

acquire-Takes_example :
    Takes false two_waiting
      (acquire_waiting_conn false two_waiting).1
      (acquire_waiting_conn false two_waiting).0
acquire-Takes_example = acquire-Takes false two_waiting

abbrev joined_state : System
joined_state = after_attempt (initial all_ws) 1 (enqueue_waiting_conn 1 (initial all_ws).queue)

Reach-Inv_example : SystemInv joined_state
unfolding initial
Reach-Inv_example = Reach-Inv all_ws {s = joined_state} (next here (attempt 1 refl))

abbrev one_waiting : System
one_waiting = record { queue = two_waiting; phase = λ w. waiting; handed_out = [] }

timeout_race_example :
    (t : System) × Reach one_waiting t × (t.handed_out ≡ 1 ∷ []) × ((t.queue.conns 1).closed ≡ true)
unfolding is_acquired pending
timeout_race_example = timeout_race one_waiting 1 (2 ∷ []) refl refl refl
