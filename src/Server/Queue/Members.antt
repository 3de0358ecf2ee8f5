-- ===== src/Server/Queue/Members.antt =====
-- pkg/server/manager.go: who is in a listener's queue, who was handed out, and what changes neither.
use warp_stream.Base.{
  ℕ, ◌≤◌, ◌≡◌, ◌≢◌, sym, ap, ◌∙◌, Bool, true, false, List, [], ◌∷◌, ◌++◌, length, ◌==◌, arith,
  Bool-cases, inl, inr, All,
}
use warp_stream.Server.Queue.{WaitingConn, ListenerQueue, update, finish, finish_conn, pending}
use warp_stream.Server.Queue.System.{Phase, calling}

abbrev pub NotIn : ℕ → List ℕ → Type 0
NotIn w [] = Unit {0}
NotIn w (x ∷ xs) = (w ≢ x) × NotIn w xs

abbrev pub Distinct : List ℕ → Type 0
Distinct [] = Unit {0}
Distinct (x ∷ xs) = NotIn x xs × Distinct xs

-- Every connection in the list waits to be acquired, and its client is past enqueueWaitingConn.
abbrev pub Queued : (ℕ → WaitingConn) → (ℕ → Phase) → List ℕ → Type 0
Queued f phase = All (λ w. ((f w).acquired ≡ false) × (phase w ≢ calling))

abbrev pub HandedOut : (ℕ → WaitingConn) → List ℕ → Type 0
HandedOut f = All (λ w. (f w).acquired ≡ true)

-- What holds of a listener's queue, of the phases of its clients, and of who was handed out.
pub record Inv (q : ListenerQueue) (phase : ℕ → Phase) (handed_out : List ℕ) : Type 0 where
  pub bounded : length q.waiting ≤ q.wait_cap
  pub cap : q.wait_cap ≡ 10
  pub queued : Queued q.conns phase q.waiting
  pub distinct : Distinct q.waiting
  pub handed_acquired : HandedOut q.conns handed_out
  pub handed_once : Distinct handed_out
  pub fresh : (w : ℕ) → phase w ≡ calling → (q.conns w).acquired ≡ false

pub NotIn-pending :
    (f : ℕ → WaitingConn) (w : ℕ) (xs : List ℕ) → NotIn w xs → NotIn w (pending f xs)
unfolding pending
NotIn-pending f w [] h = tt
NotIn-pending f w (x ∷ xs) h = ground (arith, NotIn-pending f w xs h.1)

pub Distinct-pending : (f : ℕ → WaitingConn) (xs : List ℕ) → Distinct xs → Distinct (pending f xs)
unfolding pending
Distinct-pending f [] h = tt
Distinct-pending f (x ∷ xs) h = ground (arith, Distinct-pending f xs h.1, NotIn-pending f x xs h.0)

pub Queued-pending :
    (g f : ℕ → WaitingConn) (phase : ℕ → Phase) (xs : List ℕ)
    → Queued f phase xs
    → Queued f phase (pending g xs)
unfolding pending
Queued-pending g f phase [] h = tt
Queued-pending g f phase (x ∷ xs) h = elim (Bool-cases (g x).done) [
  | inl e ↦ rw (e, pending) (Queued-pending g f phase xs h.1)
  | inr e ↦ rw (e, pending) (h.0, Queued-pending g f phase xs h.1)
]

-- A change of phase of one client, away from `calling`.
pub Queued-phase :
    (f : ℕ → WaitingConn) (phase : ℕ → Phase) (w : ℕ) (p : Phase) (xs : List ℕ)
    → p ≢ calling
    → Queued f phase xs
    → Queued f (update phase w p) xs
Queued-phase f phase w p [] n h = tt
Queued-phase f phase w p (x ∷ xs) n h = (
  (h.0.0, elim (Bool-cases (x == w)) [ inl e ↦ rw e n | inr e ↦ rw e (h.0.1) ]),
  Queued-phase f phase w p xs n h.1,
)

-- One who is still calling is not in the list.
pub Queued-NotIn :
    (f : ℕ → WaitingConn) (phase : ℕ → Phase) (w : ℕ) (xs : List ℕ)
    → phase w ≡ calling
    → Queued f phase xs
    → NotIn w xs
Queued-NotIn f phase w [] c h = tt
Queued-NotIn f phase w (x ∷ xs) c h =
    ((λ e. h.0.1 (ap phase (sym e) ∙ c)), Queued-NotIn f phase w xs c h.1)

-- A connection that is not acquired was not handed out.
pub HandedOut-NotIn :
    (f : ℕ → WaitingConn) (w : ℕ) (xs : List ℕ)
    → (f w).acquired ≡ false
    → HandedOut f xs
    → NotIn w xs
HandedOut-NotIn f w [] c h = tt
HandedOut-NotIn f w (x ∷ xs) c h = ((λ e. cc (c, h.0, e)), HandedOut-NotIn f w xs c h.1)

-- A change of one connection that keeps `acquired`.
abbrev pub Keeps : (ℕ → WaitingConn) → (ℕ → WaitingConn) → Type 0
Keeps f g = (w : ℕ) → (g w).acquired ≡ (f w).acquired

pub Queued-Keeps :
    (f g : ℕ → WaitingConn) (phase : ℕ → Phase) (xs : List ℕ)
    → Keeps f g
    → Queued f phase xs
    → Queued g phase xs
Queued-Keeps f g phase [] k h = tt
Queued-Keeps f g phase (x ∷ xs) k h = ((k x ∙ h.0.0, h.0.1), Queued-Keeps f g phase xs k h.1)

pub HandedOut-Keeps :
    (f g : ℕ → WaitingConn) (xs : List ℕ) → Keeps f g → HandedOut f xs → HandedOut g xs
HandedOut-Keeps f g [] k h = tt
HandedOut-Keeps f g (x ∷ xs) k h = (k x ∙ h.0, HandedOut-Keeps f g xs k h.1)

pub finish-Keeps : (b : Bool) (w : ℕ) (q : ListenerQueue) → Keeps q.conns (finish b w q).conns
unfolding finish finish_conn
finish-Keeps b w q u = ground arith

-- The end of the list.
pub NotIn-append : (w u : ℕ) (xs : List ℕ) → w ≢ u → NotIn w xs → NotIn w (xs ++ u ∷ [])
NotIn-append w u [] n h = (n, tt)
NotIn-append w u (x ∷ xs) n h = (h.0, NotIn-append w u xs n h.1)

pub Distinct-append : (w : ℕ) (xs : List ℕ) → NotIn w xs → Distinct xs → Distinct (xs ++ w ∷ [])
Distinct-append w [] n h = (tt, tt)
Distinct-append w (x ∷ xs) n h =
    (NotIn-append x w xs (λ e. n.0 (sym e)) h.0, Distinct-append w xs n.1 h.1)

pub update_ne : {A : Type 0} (f : ℕ → A) (w u : ℕ) (a : A) → u ≢ w → update f w a u ≡ f u
update_ne f w u a n = ground arith

pub update_self : {A : Type 0} (f : ℕ → A) (w : ℕ) (a : A) → update f w a w ≡ a
update_self f w a = ground arith

-- A change of one connection that is not in the list.
pub Queued-update :
    (f : ℕ → WaitingConn) (phase : ℕ → Phase) (w : ℕ) (c : WaitingConn) (xs : List ℕ)
    → NotIn w xs
    → Queued f phase xs
    → Queued (update f w c) phase xs
Queued-update f phase w c [] n h = tt
Queued-update f phase w c (x ∷ xs) n h = (
  (ap (λ (d : WaitingConn). d.acquired) (update_ne f w x c (λ e. n.0 (sym e))) ∙ h.0.0, h.0.1),
  Queued-update f phase w c xs n.1 h.1,
)

pub HandedOut-acquired :
    (f : ℕ → WaitingConn) (w : ℕ) (xs : List ℕ)
    → HandedOut f xs
    → HandedOut (update f w (record (f w) { acquired = true })) xs
HandedOut-acquired f w [] h = tt
HandedOut-acquired f w (x ∷ xs) h = (ground arith, HandedOut-acquired f w xs h.1)

-- A client that did not move is calling still, if it was.
pub still_calling :
    (phase : ℕ → Phase) (w u : ℕ) (p : Phase)
    → p ≢ calling
    → update phase w p u ≡ calling
    → phase u ≡ calling
still_calling phase w u p n e = elim (Bool-cases (u == w)) [
  | inl same ↦ absurd (n (rw same at e))
  | inr other ↦ rw other at e
]
