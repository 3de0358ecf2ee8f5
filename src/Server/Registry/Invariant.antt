-- ===== src/Server/Registry/Invariant.antt =====
-- pkg/server/manager.go: what the map of listeners and the activity counters have in common, and the
-- operations on one listener.
use warp_stream.Base.{
  ℕ, ◌≤◌, ◌<◌, ◌≡◌, ◌≢◌, sym, ap, subst, ◌∙◌, true, false, Option, some, Bool-cases, inl, inr, ◌==◌,
  ==_iff, ==_self, Text, text_eq, text_eq_iff, arith,
}
use warp_stream.Protocol.{JwtTunnelConfig}
use warp_stream.Server.Bind.{bind_target}
use warp_stream.Server.Queue.Members.{update_self, update_ne}
use warp_stream.Server.Registry.{
  pos, TunnelListener, Manager, is_current, change, on_current, new_listener, create_listener,
}

-- A listener in the map is known under its own address, and its counter is the number of handlers that
-- run for it.
abbrev pub Known : Manager → (ℕ → ℕ) → Text → ℕ → Type 0
Known m running a p =
    (p < m.fresh) × ((m.store p).addr ≡ a) × ((m.store p).active ≡ pos (running p))

pub record RegistryInv (m : Manager) (running : ℕ → ℕ) : Type 0 where
  pub known : (a : Text) (p : ℕ) → m.listeners a ≡ some p → Known m running a p
  pub unborn : (p : ℕ) → m.fresh ≤ p → running p ≡ 0

pub current_when_listed :
    (m : Manager) (a : Text) (p : ℕ)
    → m.listeners a ≡ some p
    → (m.store p).addr ≡ a
    → is_current m p ≡ true
unfolding is_current
current_when_listed m a p e d = rw (d, e) (==_self p)

pub change-Inv :
    (m : Manager) (r r' : ℕ → ℕ) (p : ℕ) (f : TunnelListener → TunnelListener)
    → p < m.fresh
    → ((q : ℕ) → q ≢ p → r' q ≡ r q)
    → (f (m.store p)).addr ≡ (m.store p).addr
    → ((m.store p).active ≡ pos (r p) → (f (m.store p)).active ≡ pos (r' p))
    → RegistryInv m r
    → RegistryInv (change m p f) r'
change-Inv m r r' p f lt others addr count v = record {
  known = λ a q e. elim (Bool-cases (q == p)) [
    | inl same ↦ at_p a q ((==_iff q p).0 same) (v.known a q e)
    | inr other ↦ elsewhere a q (λ x. cc ((==_iff q p).1 x, other)) (v.known a q e)
  ];
  unborn = λ q le. others q (λ x. omega (arith, x, le)) ∙ v.unborn q le;
}
  where
    here_at : (a : Text) → Known m r a p → Known (change m p f) r' a p
    here_at a k =
        let e = update_self m.store p (f (m.store p)) in
        (
          k.0,
          ap (λ (t : TunnelListener). t.addr) e ∙ addr ∙ k.1,
          ap (λ (t : TunnelListener). t.active) e ∙ count k.2,
        )

    at_p : (a : Text) (q : ℕ) → q ≡ p → Known m r a q → Known (change m p f) r' a q
    at_p a q x k = subst (λ z. Known m r a z → Known (change m p f) r' a z) (sym x) (here_at a) k

    elsewhere : (a : Text) (q : ℕ) → q ≢ p → Known m r a q → Known (change m p f) r' a q
    elsewhere a q x k =
        let e = update_ne m.store p q (f (m.store p)) x in
        (
          k.0,
          ap (λ (t : TunnelListener). t.addr) e ∙ k.1,
          ap (λ (t : TunnelListener). t.active) e ∙ k.2 ∙ ap pos (sym (others q x)),
        )

-- A listener that is not in the map may gain and lose handlers unnoticed.
pub unlisted-Inv :
    (m : Manager) (r r' : ℕ → ℕ) (p : ℕ)
    → p < m.fresh
    → is_current m p ≡ false
    → ((q : ℕ) → q ≢ p → r' q ≡ r q)
    → RegistryInv m r
    → RegistryInv m r'
unlisted-Inv m r r' p lt not_current others v = record {
  known = λ a q e.
      let k = v.known a q e in
      let x : q ≢ p = λ same.
        listed_not (subst (λ z. is_current m z ≡ true) same (current_when_listed m a q e k.1)) in
      (k.0, k.1, k.2 ∙ ap pos (sym (others q x)));
  unborn = λ q le. others q (λ x. omega (arith, x, le)) ∙ v.unborn q le;
}
  where
    listed_not : is_current m p ≡ true → ⊥
    listed_not h = cc

pub on_current-Inv :
    (m : Manager) (r r' : ℕ → ℕ) (p : ℕ) (f : TunnelListener → TunnelListener)
    → p < m.fresh
    → ((q : ℕ) → q ≢ p → r' q ≡ r q)
    → (f (m.store p)).addr ≡ (m.store p).addr
    → ((m.store p).active ≡ pos (r p) → (f (m.store p)).active ≡ pos (r' p))
    → RegistryInv m r
    → RegistryInv (on_current m p f) r'
unfolding on_current
on_current-Inv m r r' p f lt others addr count v = elim (Bool-cases (is_current m p)) [
  | inl listed ↦ rw listed (change-Inv m r r' p f lt others addr count v)
  | inr unlisted ↦ rw unlisted (unlisted-Inv m r r' p lt unlisted others v)
]

pub create-Inv :
    (now : ℕ) (claims : JwtTunnelConfig) (m : Manager) (r : ℕ → ℕ)
    → RegistryInv m r
    → RegistryInv (create_listener now claims m) r
unfolding create_listener
create-Inv now claims m r v = record {
  known = λ a q e. elim (Bool-cases (text_eq a (bind_target claims).bind_addr)) [
    | inl same ↦ new a q ((text_eq_iff a _).0 same) (pointer q (rw same at e))
    | inr other ↦ old a q (rw other at e)
  ];
  unborn = λ q le. v.unborn q (omega (arith, le));
}
  where
    pointer : (q : ℕ) → Path (Option ℕ) (some m.fresh) (some q) → m.fresh ≡ q
    pointer q e = cc

    newest :
        (a : Text)
        → a ≡ (bind_target claims).bind_addr
        → Known (create_listener now claims m) r a m.fresh
    newest a x =
        let e = update_self m.store m.fresh (new_listener now claims) in
        (
          omega arith,
          ap (λ (t : TunnelListener). t.addr) e ∙ sym x,
          ap (λ (t : TunnelListener). t.active) e ∙ ap pos (sym (v.unborn m.fresh (omega arith))),
        )

    new :
        (a : Text) (q : ℕ)
        → a ≡ (bind_target claims).bind_addr
        → m.fresh ≡ q
        → Known (create_listener now claims m) r a q
    new a q x y = subst (λ z. Known (create_listener now claims m) r a z) y (newest a x)

    old : (a : Text) (q : ℕ) → m.listeners a ≡ some q → Known (create_listener now claims m) r a q
    old a q e =
        let k = v.known a q e in
        let same =
          update_ne m.store m.fresh q (new_listener now claims) (λ x. omega (arith, x, k.0)) in
        (
          omega (arith, k.0),
          ap (λ (t : TunnelListener). t.addr) same ∙ k.1,
          ap (λ (t : TunnelListener). t.active) same ∙ k.2,
        )
