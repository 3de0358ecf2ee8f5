-- ===== src/Server/ReverseUdp/Session.antt =====
-- pkg/server/reverse_udp.go: one session, and what holds of all.
use warp_stream.Base.{
  ℕ, ◌<◌, ◌≤◌, ◌≡◌, ◌≢◌, refl, sym, ◌⊎◌, ltb→lt, subst, ◌∙◌, Bool, true, false, Option, some, List,
  [], ◌∷◌, ◌++◌, append_assoc, length, length-append, ltb, ◌==◌, ==_iff, text_eq, text_eq_iff, Text,
  Bytes, arith, Bool-cases, inl, inr,
}
use warp_stream.Server.Queue.{update}
use warp_stream.Server.Queue.Members.{update_self, update_ne}
use warp_stream.Server.ReverseUdp.{UdpSessionConn, channel_size, push}
use warp_stream.Server.ReverseUdp.System.{System, with_arrival}

-- The first list is left when some entries of the second are dropped.
pub data Kept : List Bytes → List Bytes → Type 0 where
  nothing : {ys : List Bytes} → Kept [] ys
  keep : {xs ys : List Bytes} (d : Bytes) → Kept xs ys → Kept (xs ++ d ∷ []) (ys ++ d ∷ [])
  drop_one : {xs ys : List Bytes} (d : Bytes) → Kept xs ys → Kept xs (ys ++ d ∷ [])

-- One session, by its fields, what the table has for its peer, and the datagrams taken from it and
-- arrived for its peer.
pub record IsServed (i : ℕ) (ch : List Bytes) (closed forgotten : Bool) (slot : Option ℕ)
    (taken arrived : List Bytes) : Type 0 where
  pub bounded : length ch ≤ channel_size
  pub kept : Kept (taken ++ ch) arrived
  pub listed : forgotten ≡ false → slot ≡ some i
  pub closed_first : forgotten ≡ true → closed ≡ true

abbrev pub ServedAt :
    ℕ → UdpSessionConn → Bool → (Text → Option ℕ) → List Bytes → (Text → List Bytes) → Type 0
ServedAt i u forgotten sessions taken arrived =
    IsServed i u.ch u.closed forgotten (sessions u.peer) taken (arrived u.peer)

-- What holds of all sessions: those of which onClose has not run are in the table under their peers,
-- and no others; at most 128 datagrams wait; what was taken and what waits are datagrams of the
-- session's own peer, in their order.
pub record UdpInv (s : System) : Type 0 where
  pub served :
      (i : ℕ)
      → i < s.table.next
      → ServedAt i (s.table.store i) (s.forgotten i) s.table.sessions (s.taken i) s.arrived
  pub known :
      (a : Text) (i : ℕ)
      → s.table.sessions a ≡ some i
      → (i < s.table.next) × ((s.table.store i).peer ≡ a) × (s.forgotten i ≡ false)
  pub fresh : (i : ℕ) → s.table.next ≤ i → (s.taken i ≡ []) × (s.forgotten i ≡ false)

push-cases :
    (d : Bytes) (u : UdpSessionConn)
    → (push d u ≡ u)
      ⊎ ((push d u ≡ record u { ch = u.ch ++ d ∷ [] }) × (length u.ch < channel_size))
unfolding push
push-cases d u = elim (Bool-cases u.closed) [
  | inl shut ↦ inl (simp shut)
  | inr live ↦ elim (Bool-cases (ltb (length u.ch) channel_size)) [
    | inl room ↦ inr (simp (live, room), ltb→lt (length u.ch) channel_size room)
    | inr full ↦ inl (simp (live, full))
  ]
]

pub peer-push : (d : Bytes) (u : UdpSessionConn) → (push d u).peer ≡ u.peer
unfolding push
peer-push d u = ground arith

-- The session that gets a datagram.
pub push-IsServed :
    (i : ℕ) (u : UdpSessionConn) (d : Bytes) (forgotten : Bool) (slot : Option ℕ)
    (taken arrived : List Bytes)
    → IsServed i u.ch u.closed forgotten slot taken arrived
    → IsServed i (push d u).ch (push d u).closed forgotten slot taken (arrived ++ d ∷ [])
push-IsServed i u d forgotten slot taken arrived h = elim (push-cases d u) [
  | inl same ↦
      subst
        (λ (x : UdpSessionConn). IsServed i x.ch x.closed forgotten slot taken (arrived ++ d ∷ []))
        (sym same)
        (record {
          bounded = h.bounded;
          kept = drop_one d h.kept;
          listed = h.listed;
          closed_first = h.closed_first;
        })
  | inr (more, room) ↦
      subst
        (λ (x : UdpSessionConn). IsServed i x.ch x.closed forgotten slot taken (arrived ++ d ∷ []))
        (sym more)
        (record {
          bounded = omega (arith, room, length-append u.ch (d ∷ []));
          kept =
              subst (λ xs. Kept xs (arrived ++ d ∷ [])) (append_assoc taken u.ch (d ∷ []))
                (keep d h.kept);
          listed = h.listed;
          closed_first = h.closed_first;
        })
]

-- Every other one.
pub arrival-IsServed :
    (i : ℕ) (u : UdpSessionConn) (forgotten : Bool) (slot : Option ℕ) (taken : List Bytes)
    (peer : Text) (d : Bytes) (arrived : Text → List Bytes)
    → IsServed i u.ch u.closed forgotten slot taken (arrived u.peer)
    → IsServed i u.ch u.closed forgotten slot taken (with_arrival peer d arrived u.peer)
arrival-IsServed i u forgotten slot taken peer d arrived h =
    elim (Bool-cases (text_eq u.peer peer)) [
      | inl same ↦ rw same (record {
        bounded = h.bounded;
        kept = drop_one d h.kept;
        listed = h.listed;
        closed_first = h.closed_first;
      })
      | inr other ↦ rw other h
    ]

arrival_self :
    (peer : Text) (d : Bytes) (arrived : Text → List Bytes)
    → with_arrival peer d arrived peer ≡ arrived peer ++ d ∷ []
arrival_self peer d arrived = rw ((text_eq_iff peer peer).1 refl)

-- The same, with what its peer has.
pub push-ServedAt :
    (i : ℕ) (u : UdpSessionConn) (peer : Text) (d : Bytes) (forgotten : Bool)
    (sessions : Text → Option ℕ) (taken : List Bytes) (arrived : Text → List Bytes)
    → u.peer ≡ peer
    → ServedAt i u forgotten sessions taken arrived
    → ServedAt i (push d u) forgotten sessions taken (with_arrival peer d arrived)
push-ServedAt i u peer d forgotten sessions taken arrived p h =
    subst
      (λ a.
        IsServed i (push d u).ch (push d u).closed forgotten (sessions a) taken
          (with_arrival peer d arrived a))
      (sym (peer-push d u ∙ p))
      (rw (arrival_self peer d arrived) (
        push-IsServed i u d forgotten (sessions peer) taken (arrived peer)
          (subst (λ a. IsServed i u.ch u.closed forgotten (sessions a) taken (arrived a)) p h)))

-- Another table that still lists the session.
pub relisted :
    {i : ℕ} {ch : List Bytes} {closed forgotten : Bool} {slot new_slot : Option ℕ}
    {taken arrived : List Bytes}
    → IsServed i ch closed forgotten slot taken arrived
    → (forgotten ≡ false → slot ≡ some i → new_slot ≡ some i)
    → IsServed i ch closed forgotten new_slot taken arrived
relisted h f = record {
  bounded = h.bounded;
  kept = h.kept;
  listed = λ e. f e (h.listed e);
  closed_first = h.closed_first;
}

-- What holds of the changed entry of a store and of the others.
pub at_update :
    (P : ℕ → UdpSessionConn → Type 0) (store : ℕ → UdpSessionConn) (j : ℕ) (w : UdpSessionConn)
    (i : ℕ)
    → P j w
    → (i ≢ j → P i (store i))
    → P i (update store j w i)
at_update P store j w i p others = elim (Bool-cases (i == j)) [
  | inl same ↦
      subst (λ k. P k (update store j w k)) (sym ((==_iff i j).0 same))
        (subst (P j) (sym (update_self store j w)) p)
  | inr other ↦
      let ne : i ≢ j = λ f. cc (other, (==_iff i j).1 f) in
      subst (P i) (sym (update_ne store j i w ne)) (others ne)
]
