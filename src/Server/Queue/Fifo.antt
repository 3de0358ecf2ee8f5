-- ===== src/Server/Queue/Fifo.antt =====
-- pkg/server/manager.go: enqueueWaitingConn and acquireWaitingConn against a queue in the order of
-- arrival.
use warp_stream.Base.{
  ℕ, suc, ◌≤◌, ◌<◌, ◌≡◌, refl, sym, ap, subst, ◌∙◌, Bool, true, false, List, [], ◌∷◌, ◌++◌, ◌||◌,
  length, any_of, ltb, if◌then◌else◌, arith, Bool-cases, inl, inr,
}
use warp_stream.Server.Queue.{
  WaitingConn, ListenerQueue, update, mark_acquired, is_acquired, is_done, pending,
  purge_done_waiters, Attempt, added, refused, blocked, enqueue_purged, enqueue_waiting_conn,
  Acquired, handed, gave_up, again, acquire_from, acquire_waiting_conn,
}

-- The abstract view: who still waits, in the order of arrival.
abbrev pub live : ListenerQueue → List ℕ
live q = pending q.conns q.waiting

pub pending-append :
    (f : ℕ → WaitingConn) (xs ys : List ℕ) → pending f (xs ++ ys) ≡ pending f xs ++ pending f ys
unfolding pending
pending-append f [] ys = refl
pending-append f (x ∷ xs) ys = ground (arith, pending-append f xs ys)

pub pending_twice : (f : ℕ → WaitingConn) (xs : List ℕ) → pending f (pending f xs) ≡ pending f xs
unfolding pending
pending_twice f [] = refl
pending_twice f (x ∷ xs) = ground (arith, pending_twice f xs)

pub length-pending : (f : ℕ → WaitingConn) (xs : List ℕ) → length (pending f xs) ≤ length xs
unfolding pending
length-pending f [] = omega arith
length-pending f (x ∷ xs) = ground (arith, length-pending f xs)

pending_single : (f : ℕ → WaitingConn) (w : ℕ) → (f w).done ≡ false → pending f (w ∷ []) ≡ w ∷ []
unfolding pending
pending_single f w h = ground arith

-- Marking a connection as acquired does not make it done.
pending-acquired :
    (f : ℕ → WaitingConn) (w : ℕ) (xs : List ℕ)
    → pending (update f w (record (f w) { acquired = true })) xs ≡ pending f xs
unfolding pending
pending-acquired f w [] = refl
pending-acquired f w (x ∷ xs) = ground (arith, pending-acquired f w xs)

-- The purge in plain words: the waiting list becomes the live one, and nothing else changes but the
-- count of wake-ups.
pub purge_lem :
    (q : ListenerQueue)
    → (b : ℕ) × (purge_done_waiters q ≡ record q { waiting = live q; broadcasts = b })
unfolding purge_done_waiters
purge_lem q = elim (Bool-cases (any_of (is_done q) q.waiting)) [
  | inl e ↦ (suc q.broadcasts, rw e)
  | inr e ↦ (q.broadcasts, rw e)
]

-- The queue as the list of those who wait: what one attempt to join it does.
pub data Joins (w : ℕ) (q q' : ListenerQueue) : Attempt → Type 0 where
  shut : q.quit ≡ true → live q' ≡ live q → Joins w q q' refused
  joined :
      q.quit ≡ false
      → length (live q) < q.wait_cap
      → live q' ≡ live q ++ w ∷ []
      → Joins w q q' added
  full : q.quit ≡ false → q.wait_cap ≤ length (live q) → live q' ≡ live q → Joins w q q' blocked

-- What one attempt to take a connection does.
pub data Takes (expired : Bool) (q q' : ListenerQueue) : Acquired → Type 0 where
  took :
      (w : ℕ) (ws : List ℕ)
      → live q ≡ w ∷ ws
      → live q' ≡ ws
      → (q.conns w).done ≡ false
      → is_acquired q' w ≡ true
      → Takes expired q q' (handed w)
  left : live q ≡ [] → (expired || q.quit) ≡ true → live q' ≡ [] → Takes expired q q' gave_up
  waits : live q ≡ [] → (expired || q.quit) ≡ false → live q' ≡ [] → Takes expired q q' again

purged_Joins :
    (w b : ℕ) (q : ListenerQueue)
    → (q.conns w).done ≡ false
    → let p : ListenerQueue = record q { waiting = live q; broadcasts = b } in
      Joins w q (enqueue_purged w p).1 (enqueue_purged w p).0
unfolding enqueue_purged
purged_Joins w b q d = elim (Bool-cases q.quit) [
  | inl stopped ↦ simp stopped (shut stopped (pending_twice q.conns q.waiting))
  | inr running ↦ elim (Bool-cases (ltb (length (live q)) q.wait_cap)) [
    | inl room ↦
        simp (running, room)
          (joined running (ground arith) (
            pending-append q.conns (live q) (w ∷ [])
            ∙ rw (pending_twice q.conns q.waiting, pending_single q.conns w d)))
    | inr no_room ↦
        simp (running, no_room) (full running (ground arith) (pending_twice q.conns q.waiting))
  ]
]

pub live_head :
    (f : ℕ → WaitingConn) (w : ℕ) (ws : List ℕ)
    → pending f (w ∷ ws) ≡ w ∷ ws
    → (pending f ws ≡ ws) × ((f w).done ≡ false)
unfolding pending
live_head f w ws h = elim (Bool-cases (f w).done) [
  | inl d ↦
      let k : pending f ws ≡ w ∷ ws = rw (d, pending) at h in
      absurd (omega (arith, ap length k, length-pending f ws))
  | inr d ↦ let k : w ∷ pending f ws ≡ w ∷ ws = rw (d, pending) at h in (cc, d)
]

gives_up :
    (expired quit : Bool)
    → (expired || quit) ≡ true
    → gave_up ≡ (if expired then gave_up else if quit then gave_up else again)
gives_up expired quit h = ground arith

goes_on :
    (expired quit : Bool)
    → (expired || quit) ≡ false
    → again ≡ (if expired then gave_up else if quit then gave_up else again)
goes_on expired quit h = ground arith

purged_Takes :
    (expired : Bool) (b : ℕ) (q : ListenerQueue) (xs : List ℕ)
    → live q ≡ xs
    → let p : ListenerQueue = record q { waiting = live q; broadcasts = b } in
      Takes expired q (acquire_from expired p xs).1 (acquire_from expired p xs).0
unfolding acquire_from mark_acquired is_acquired
purged_Takes expired b q [] e = elim (Bool-cases (expired || q.quit)) [
  | inl over ↦ subst (Takes expired q _) (gives_up expired q.quit over) (left e over none)
  | inr still ↦ subst (Takes expired q _) (goes_on expired q.quit still) (waits e still none)
]
  where
    none : pending q.conns (live q) ≡ []
    none = pending_twice q.conns q.waiting ∙ e
purged_Takes expired b q (w ∷ ws) e =
    let (rest, waiting) =
      live_head q.conns w ws (ap (pending q.conns) (sym e) ∙ pending_twice q.conns q.waiting ∙ e) in
    took w ws e (pending-acquired q.conns w ws ∙ rest) waiting (ground arith)

-- One attempt of enqueueWaitingConn, on every branch. A listener that quits refuses; else a connection
-- that is not done joins at the end of those that still wait, if these are fewer than the cap; else
-- the attempt blocks. Nobody who waits is lost or overtaken, whatever was removed from the list.
pub enqueue-Joins :
    (w : ℕ) (q : ListenerQueue)
    → (q.conns w).done ≡ false
    → Joins w q (enqueue_waiting_conn w q).1 (enqueue_waiting_conn w q).0
unfolding enqueue_waiting_conn
enqueue-Joins w q d = let (b, e) = purge_lem q in rw e (purged_Joins w b q d)

-- One attempt of acquireWaitingConn, on every branch. It hands out the one that has waited longest,
-- marked as acquired, and leaves the others in their order; it gives up only if nobody waits and
-- either the time is over or the listener quits.
pub acquire-Takes :
    (expired : Bool) (q : ListenerQueue)
    → Takes expired q (acquire_waiting_conn expired q).1 (acquire_waiting_conn expired q).0
unfolding acquire_waiting_conn
acquire-Takes expired q = let (b, e) = purge_lem q in rw e (purged_Takes expired b q (live q) refl)
