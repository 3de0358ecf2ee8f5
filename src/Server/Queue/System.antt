-- ===== src/Server/Queue/System.antt =====
-- pkg/server/manager.go: one listener's queue with all who use it at once, as a step relation: the
-- clients in HandleClient, HandleGorillaClient and HandleClientH2 (enqueueWaitingConn, then
-- waitForUseOrTimeout, waitAfterAcquireOrShutdown, handleWaitTimeout), the incoming connections in
-- handleIncoming (acquireWaitingConn, and the deferred `finish(false)`), and closeTunnelListener.
-- A step is one critical section, or one test of a channel outside of one; any order is possible.
use warp_stream.Base.{ℕ, ◌≡◌, ◌⊎◌, Bool, true, false, List, [], ◌∷◌, Exists, if◌then◌else◌}
use warp_stream.Server.Queue.{
  Carrier, fresh_conn, ListenerQueue, update, finish, is_acquired, is_done, Attempt, added, refused,
  blocked, enqueue_waiting_conn, Acquired, handed, gave_up, again, acquire_waiting_conn,
  close_queue, expire,
}

-- Where a client's handler is.
--   calling: in enqueueWaitingConn;
--   waiting: in the select of waitForUseOrTimeout;
--   in_use: in waitAfterAcquireOrShutdown;
--   timing_out: in handleWaitTimeout, behind the test that found the connection not acquired;
--   gone: returned.
pub data Phase : Type 0 where
  calling waiting in_use timing_out gone : Phase

pub record System : Type 0 where
  pub queue : ListenerQueue
  pub phase : ℕ → Phase
  pub handed_out : List ℕ

-- A new listener: `waitCap: 10`, and no client has called yet.
unfoldable pub initial : (ℕ → Carrier) → System
initial carrier = record {
  queue = record {
    waiting = [];
    wait_cap = 10;
    quit = false;
    broadcasts = 0;
    conns = λ w. fresh_conn (carrier w);
  };
  phase = λ w. calling;
  handed_out = [];
}

abbrev pub at_phase : System → ℕ → Phase → ListenerQueue → System
at_phase s w p q = record s { queue = q; phase = update s.phase w p }

-- What HandleClient does with the answer of enqueueWaitingConn.
unfoldable pub after_attempt : System → ℕ → Attempt × ListenerQueue → System
after_attempt s w (added, q) = at_phase s w waiting q
after_attempt s w (refused, q) = at_phase s w gone (finish true w q)
after_attempt s w (blocked, q) = record s { queue = q }

-- What handleIncoming does with the answer of acquireWaitingConn.
unfoldable pub after_acquire : System → Acquired × ListenerQueue → System
after_acquire s (handed w, q) = record s { queue = q; handed_out = w ∷ s.handed_out }
after_acquire s (gave_up, q) = record s { queue = q }
after_acquire s (again, q) = record s { queue = q }

-- handleWaitTimeout's test.
unfoldable pub timeout_phase : Bool → Phase
timeout_phase acquired = if acquired then in_use else timing_out

pub data Step (s : System) : System → Type 0 where
  attempt :
      (w : ℕ) → s.phase w ≡ calling → Step s (after_attempt s w (enqueue_waiting_conn w s.queue))
  acquire : (expired : Bool) → Step s (after_acquire s (acquire_waiting_conn expired s.queue))
  release :
      (w : ℕ)
      → Exists (λ u. u ≡ w) s.handed_out
      → Step s (record s { queue = finish false w s.queue })
  see_done :
      (w : ℕ)
      → (s.phase w ≡ waiting) ⊎ (s.phase w ≡ in_use)
      → is_done s.queue w ≡ true
      → Step s (at_phase s w gone s.queue)
  see_quit :
      (w : ℕ)
      → (s.phase w ≡ waiting) ⊎ (s.phase w ≡ in_use)
      → s.queue.quit ≡ true
      → Step s (at_phase s w gone (finish true w s.queue))
  see_acquired :
      (w : ℕ)
      → s.phase w ≡ waiting
      → is_acquired s.queue w ≡ true
      → Step s (at_phase s w in_use s.queue)
  timer :
      (w : ℕ)
      → s.phase w ≡ waiting
      → Step s (at_phase s w (timeout_phase (is_acquired s.queue w)) s.queue)
  times_out : (w : ℕ) → s.phase w ≡ timing_out → Step s (at_phase s w gone (expire w s.queue))
  close : Step s (record s { queue = close_queue s.queue })

pub data Reach (s : System) : System → Type 0 where
  here : Reach s s
  next : {t u : System} → Reach s t → Step t u → Reach s u
