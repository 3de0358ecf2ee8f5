-- ===== src/Server/Queue.antt =====
-- pkg/server/manager.go: the queue of client connections that wait at one reverse-tunnel listener.
-- A waiting connection is named by a number. Each function below is one critical section under
-- `queueMu`; where the code waits on the condition variable, the function answers `blocked`, and the
-- code makes the same attempt again when it is woken. `broadcasts` counts the wake-ups.
pub mod Fifo
pub mod System
pub mod Members
pub mod Safety
pub mod Race
pub mod Tests
use warp_stream.Base.{
  ℕ, suc, Bool, true, false, List, [], ◌∷◌, ◌++◌, length, any_of, ltb, ◌==◌, if◌then◌else◌,
}

-- The carrier of a waiting connection: wsConn, gorillaConn or h2Conn.
pub data Carrier : Type 0 where
  ws_conn gorilla_conn h2_conn : Carrier

-- waitingConn: `acquired` and `done` say whether these channels are closed, `closed` whether `finish`
-- closed the carrier.
pub record WaitingConn : Type 0 where
  pub carrier : Carrier
  pub acquired : Bool
  pub done : Bool
  pub closed : Bool

-- The part of tunnelListener that `queueMu` guards, with the waiting connections themselves.
pub record ListenerQueue : Type 0 where
  pub waiting : List ℕ
  pub wait_cap : ℕ
  pub quit : Bool
  pub broadcasts : ℕ
  pub conns : ℕ → WaitingConn

abbrev pub fresh_conn : Carrier → WaitingConn
fresh_conn c = record { carrier = c; acquired = false; done = false; closed = false }

abbrev pub update {ℓ} : {A : Type ℓ} → (ℕ → A) → ℕ → A → ℕ → A
update f w v u = if u == w then v else f u

-- `finish`: the first call alone has an effect.
unfoldable pub finish_conn : Bool → WaitingConn → WaitingConn
finish_conn close_conn c = if c.done then c else record c { done = true; closed = close_conn }

unfoldable pub finish : Bool → ℕ → ListenerQueue → ListenerQueue
finish close_conn w q = record q { conns = update q.conns w (finish_conn close_conn (q.conns w)) }

-- markAcquired.
unfoldable pub mark_acquired : ℕ → ListenerQueue → ListenerQueue
mark_acquired w q = record q { conns = update q.conns w (record (q.conns w) { acquired = true }) }

unfoldable pub is_acquired : ListenerQueue → ℕ → Bool
is_acquired q w = (q.conns w).acquired

unfoldable pub is_done : ListenerQueue → ℕ → Bool
is_done q w = (q.conns w).done

-- The loop of purgeDoneWaitersLocked keeps the order of those that are not done.
unfoldable pub pending : (ℕ → WaitingConn) → List ℕ → List ℕ
pending conns [] = []
pending conns (w ∷ ws) = let rest = pending conns ws in if (conns w).done then rest else w ∷ rest

abbrev pub broadcast : ListenerQueue → ListenerQueue
broadcast q = record q { broadcasts = suc q.broadcasts }

-- purgeDoneWaitersLocked: it wakes the others if it removed something.
unfoldable pub purge_done_waiters : ListenerQueue → ListenerQueue
purge_done_waiters q =
    let purged : ListenerQueue = record q { waiting = pending q.conns q.waiting } in
    if any_of (is_done q) q.waiting then broadcast purged else purged

pub data Attempt : Type 0 where
  added refused blocked : Attempt

-- One round of enqueueWaitingConn's loop, behind the purge.
unfoldable pub enqueue_purged : ℕ → ListenerQueue → Attempt × ListenerQueue
enqueue_purged w q =
    if q.quit
    then (refused, q)
    else if ltb (length q.waiting) q.wait_cap
    then (added, broadcast (record q { waiting = q.waiting ++ w ∷ [] }))
    else (blocked, q)

unfoldable pub enqueue_waiting_conn : ℕ → ListenerQueue → Attempt × ListenerQueue
enqueue_waiting_conn w q = enqueue_purged w (purge_done_waiters q)

pub data Acquired : Type 0 where
  handed : ℕ → Acquired
  gave_up again : Acquired

-- One round of acquireWaitingConn's loop, behind the purge; `expired` says that the ten seconds are
-- over. The queue holds no nil entry, so the code's `continue` for one is not reached.
unfoldable pub acquire_from : Bool → ListenerQueue → List ℕ → Acquired × ListenerQueue
acquire_from expired q (w ∷ ws) =
    (handed w, mark_acquired w (broadcast (record q { waiting = ws })))
acquire_from expired q [] = (if expired then gave_up else if q.quit then gave_up else again, q)

unfoldable pub acquire_waiting_conn : Bool → ListenerQueue → Acquired × ListenerQueue
acquire_waiting_conn expired q =
    let purged = purge_done_waiters q in acquire_from expired purged purged.waiting

-- The part of closeTunnelListener under `queueMu`.
unfoldable pub close_queue : ListenerQueue → ListenerQueue
close_queue q = broadcast (record q { quit = true })

-- handleWaitTimeout in its two parts: the test, and what follows if the test found it not acquired.
unfoldable pub expire : ℕ → ListenerQueue → ListenerQueue
expire w q = purge_done_waiters (finish true w q)
