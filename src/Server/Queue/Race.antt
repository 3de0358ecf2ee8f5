-- ===== src/Server/Queue/Race.antt =====
-- pkg/server/manager.go: handleWaitTimeout tests whether the connection was acquired, and closes it in
-- a later step.
use warp_stream.Base.{ℕ, suc, ◌≡◌, refl, sym, ap, subst, ◌∙◌, Bool, true, false, List, ◌∷◌, arith}
use warp_stream.Server.Queue.{
  WaitingConn, ListenerQueue, finish, finish_conn, mark_acquired, is_acquired, pending, handed,
  acquire_from, acquire_waiting_conn, expire,
}
use warp_stream.Server.Queue.Fifo.{live, live_head, pending_twice, purge_lem}
use warp_stream.Server.Queue.Members.{update_self}
use warp_stream.Server.Queue.System.{
  waiting, timing_out, gone, System, at_phase, after_acquire, timeout_phase, Step, Reach, here,
  next, acquire, timer, times_out,
}

acquire_head :
    (expired : Bool) (q : ListenerQueue) (w : ℕ) (ws : List ℕ)
    → live q ≡ w ∷ ws
    → (b : ℕ) × (acquire_waiting_conn expired q
        ≡ (handed w, mark_acquired w (record q { waiting = ws; broadcasts = b })))
unfolding acquire_waiting_conn acquire_from
acquire_head expired q w ws e = let (b, p) = purge_lem q in (suc b, rw p (rw (e, acquire_from)))

expire_closes :
    (q : ListenerQueue) (w : ℕ) → (q.conns w).done ≡ false → ((expire w q).conns w).closed ≡ true
unfolding expire finish finish_conn
expire_closes q w h = let (b, p) = purge_lem (finish true w q) in rw p (ground arith)

-- Whenever a client's connection is the next in the queue, its own idle timeout can close it although
-- it was handed to an incoming connection: the test comes first, then the hand-over, then the close.
pub timeout_race :
    (s : System) (w : ℕ) (ws : List ℕ)
    → s.phase w ≡ waiting
    → is_acquired s.queue w ≡ false
    → live s.queue ≡ w ∷ ws
    → (t : System) × Reach s t
      × (t.handed_out ≡ w ∷ s.handed_out)
      × ((t.queue.conns w).closed ≡ true)
unfolding after_acquire timeout_phase mark_acquired
timeout_race s w ws p a e =
    let (b, h) = acquire_head false s.queue w ws e in
    let q : ListenerQueue = mark_acquired w (record (s.queue) { waiting = ws; broadcasts = b }) in
    let s1 : System = at_phase s w timing_out s.queue in
    let s2 : System = record s1 { queue = q; handed_out = w ∷ s.handed_out } in
    let tested : Step s s1 =
      subst (λ b. Step s (at_phase s w (timeout_phase b) s.queue)) a (timer w p) in
    let taken : Step s1 s2 = subst (λ r. Step s1 (after_acquire s1 r)) h (acquire false) in
    let head =
      live_head s.queue.conns w ws
        (ap (pending s.queue.conns) (sym e) ∙ pending_twice s.queue.conns s.queue.waiting ∙ e) in
    (
      at_phase s2 w gone (expire w q),
      next (next (next here tested) taken) (times_out w (update_self s.phase w timing_out)),
      refl,
      expire_closes q w (
          ap (λ (c : WaitingConn). c.done)
            (update_self s.queue.conns w (record (s.queue.conns w) { acquired = true }))
          ∙ head.1),
    )
