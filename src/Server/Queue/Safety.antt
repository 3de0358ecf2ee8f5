-- ===== src/Server/Queue/Safety.antt =====
-- pkg/server/manager.go: what holds of a listener's queue in every interleaving.
use warp_stream.Base.{
  ℕ, ◌≡◌, ◌≢◌, refl, sym, ap, subst, ◌∙◌, Bool, true, false, List, [], ◌∷◌, length, length-append,
  ltb, arith, Bool-cases, ltb→lt, inl, inr, All-append,
}
use warp_stream.Server.Queue.{
  Carrier, WaitingConn, ListenerQueue, update, finish, mark_acquired, purge_done_waiters,
  enqueue_purged, enqueue_waiting_conn, acquire_from, acquire_waiting_conn, close_queue, expire,
}
use warp_stream.Server.Queue.Fifo.{length-pending, purge_lem}
use warp_stream.Server.Queue.Members.{
  Distinct, Queued, Inv, Distinct-pending, Queued-pending, Queued-phase, Queued-NotIn,
  HandedOut-NotIn, Distinct-append, update_ne, update_self, Queued-update, HandedOut-acquired,
  still_calling, Queued-Keeps, HandedOut-Keeps, finish-Keeps,
}
use warp_stream.Server.Queue.System.{
  Phase, calling, waiting, in_use, gone, System, initial, after_attempt, after_acquire,
  timeout_phase, Step, Reach, here, next, attempt, acquire, release, see_done, see_quit,
  see_acquired, timer, times_out, close,
}

abbrev pub SystemInv : System → Type 0
SystemInv s = Inv s.queue s.phase s.handed_out

module _ {phase : ℕ → Phase} {hs : List ℕ} where
  purge-Inv : (q : ListenerQueue) → Inv q phase hs → Inv (purge_done_waiters q) phase hs
  purge-Inv q v =
      let (b, e) = purge_lem q in
      rw e (record {
        bounded = omega (arith, length-pending q.conns q.waiting, v.bounded);
        cap = v.cap;
        queued = Queued-pending q.conns q.conns phase q.waiting v.queued;
        distinct = Distinct-pending q.conns q.waiting v.distinct;
        handed_acquired = v.handed_acquired;
        handed_once = v.handed_once;
        fresh = v.fresh;
      })

  finish-Inv : (b : Bool) (w : ℕ) (q : ListenerQueue) → Inv q phase hs → Inv (finish b w q) phase hs
  unfolding finish
  finish-Inv b w q v = record {
    bounded = v.bounded;
    cap = v.cap;
    queued =
        Queued-Keeps q.conns (finish b w q).conns phase q.waiting (finish-Keeps b w q) v.queued;
    distinct = v.distinct;
    handed_acquired =
        HandedOut-Keeps q.conns (finish b w q).conns hs (finish-Keeps b w q) v.handed_acquired;
    handed_once = v.handed_once;
    fresh = λ u e. finish-Keeps b w q u ∙ v.fresh u e;
  }

  expire-Inv : (w : ℕ) (q : ListenerQueue) → Inv q phase hs → Inv (expire w q) phase hs
  unfolding expire
  expire-Inv w q v = purge-Inv (finish true w q) (finish-Inv true w q v)

  close-Inv : (q : ListenerQueue) → Inv q phase hs → Inv (close_queue q) phase hs
  unfolding close_queue
  close-Inv q v = record {
    bounded = v.bounded;
    cap = v.cap;
    queued = v.queued;
    distinct = v.distinct;
    handed_acquired = v.handed_acquired;
    handed_once = v.handed_once;
    fresh = v.fresh;
  }

  -- A client that moves on, and not back to `calling`.
  phase-Inv :
      (w : ℕ) (p : Phase) (q : ListenerQueue)
      → p ≢ calling
      → Inv q phase hs
      → Inv q (update phase w p) hs
  phase-Inv w p q n v = record {
    bounded = v.bounded;
    cap = v.cap;
    queued = Queued-phase q.conns phase w p q.waiting n v.queued;
    distinct = v.distinct;
    handed_acquired = v.handed_acquired;
    handed_once = v.handed_once;
    fresh = λ u e. v.fresh u (still_calling phase w u p n e);
  }

-- A client that was refused, that joins, or that tries again.
attempt-Inv :
    (s : System) (w : ℕ) (q : ListenerQueue)
    → s.phase w ≡ calling
    → Inv q s.phase s.handed_out
    → SystemInv (after_attempt s w (enqueue_purged w q))
unfolding enqueue_purged after_attempt
attempt-Inv s w q c v = elim (Bool-cases q.quit) [
  | inl stopped ↦ simp stopped (phase-Inv w gone _ (λ e. cc) (finish-Inv true w q v))
  | inr running ↦ elim (Bool-cases (ltb (length q.waiting) q.wait_cap)) [
    | inl room ↦
        simp (running, room)
          (record {
            bounded = omega (arith, length-append q.waiting (w ∷ []), ltb→lt _ _ room);
            cap = v.cap;
            queued =
                All-append _ q.waiting (w ∷ [])
                  (Queued-phase q.conns s.phase w waiting q.waiting (λ e. cc) v.queued)
                  ((v.fresh w c, λ e. cc (update_self s.phase w waiting, e)), tt);
            distinct =
                Distinct-append w q.waiting (Queued-NotIn q.conns s.phase w q.waiting c v.queued)
                  v.distinct;
            handed_acquired = v.handed_acquired;
            handed_once = v.handed_once;
            fresh = λ u e. v.fresh u (still_calling s.phase w u waiting (λ x. cc) e);
          })
    | inr no_room ↦ simp (running, no_room) v
  ]
]

acquire-Inv :
    (s : System) (expired : Bool) (q : ListenerQueue) (xs : List ℕ)
    → q.waiting ≡ xs
    → Inv q s.phase s.handed_out
    → SystemInv (after_acquire s (acquire_from expired q xs))
unfolding acquire_from after_acquire mark_acquired
acquire-Inv s expired q [] e v = elim (Bool-cases expired) [
  | inl over ↦ simp over v
  | inr early ↦ elim (Bool-cases q.quit) [
    | inl stopped ↦ simp (early, stopped) v
    | inr running ↦ simp (early, running) v
  ]
]
acquire-Inv s expired q (w ∷ ws) e v =
    let qs : Queued q.conns s.phase (w ∷ ws) = subst (Queued q.conns s.phase) e v.queued in
    let ds : Distinct (w ∷ ws) = subst Distinct e v.distinct in
    record {
      bounded = omega (arith, v.bounded, ap length e);
      cap = v.cap;
      queued = Queued-update q.conns s.phase w _ ws ds.0 qs.1;
      distinct = ds.1;
      handed_acquired = (
        ap (λ (d : WaitingConn). d.acquired)
            (update_self q.conns w (record (q.conns w) { acquired = true })),
        HandedOut-acquired q.conns w s.handed_out v.handed_acquired,
      );
      handed_once =
          (HandedOut-NotIn q.conns w s.handed_out qs.0.0 v.handed_acquired, v.handed_once);
      fresh = λ u c.
          ap (λ (d : WaitingConn). d.acquired)
            (update_ne q.conns w u (record (q.conns w) { acquired = true })
              (λ x. qs.0.1 (ap s.phase (sym x) ∙ c)))
          ∙ v.fresh u c;
    }

moves_on : (b : Bool) → timeout_phase b ≢ calling
unfolding timeout_phase
moves_on true e = cc
moves_on false e = cc

step-Inv : {s t : System} → Step s t → SystemInv s → SystemInv t
unfolding enqueue_waiting_conn acquire_waiting_conn
step-Inv {s} (attempt w c) v = attempt-Inv s w (purge_done_waiters s.queue) c (purge-Inv s.queue v)
step-Inv {s} (acquire expired) v =
    acquire-Inv s expired (purge_done_waiters s.queue) _ refl (purge-Inv s.queue v)
step-Inv {s} (release w h) v = finish-Inv false w s.queue v
step-Inv {s} (see_done w p d) v = phase-Inv w gone s.queue (λ e. cc) v
step-Inv {s} (see_quit w p d) v = phase-Inv w gone _ (λ e. cc) (finish-Inv true w s.queue v)
step-Inv {s} (see_acquired w p a) v = phase-Inv w in_use s.queue (λ e. cc) v
step-Inv {s} (timer w p) v = phase-Inv w _ s.queue (moves_on _) v
step-Inv {s} (times_out w p) v = phase-Inv w gone _ (λ e. cc) (expire-Inv w s.queue v)
step-Inv {s} close v = close-Inv s.queue v

initial-Inv : (carrier : ℕ → Carrier) → SystemInv (initial carrier)
unfolding initial
initial-Inv carrier = record {
  bounded = omega arith;
  cap = refl;
  queued = tt;
  distinct = tt;
  handed_acquired = tt;
  handed_once = tt;
  fresh = λ w e. refl;
}

-- In every interleaving of clients, incoming connections, timers and the shutdown of a listener: at
-- most ten client connections wait; none of them is in the queue twice, and none has been handed
-- out; and no connection is ever handed out to two incoming connections.
pub Reach-Inv : (carrier : ℕ → Carrier) {s : System} → Reach (initial carrier) s → SystemInv s
Reach-Inv carrier here = initial-Inv carrier
Reach-Inv carrier (next r st) = step-Inv st (Reach-Inv carrier r)
