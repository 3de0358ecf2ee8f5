-- ===== src/Server/Registry/Idle.antt =====
-- pkg/server/manager.go: which listeners are reaped, and which one a client is given.
use warp_stream.Base.{
  ℕ, zero, suc, ◌+◌, ◌≤◌, ◌≡◌, ◌↔◌, refl, ap, ◌∙◌, Bool, true, false, not, ◌||◌, Option, none, some,
  ltb, if◌then◌else◌, Text, text_eq_refl, arith,
}
use warp_stream.Protocol.{JwtTunnelConfig}
use warp_stream.Server.Bind.{bind_target}
use warp_stream.Server.Queue.{update}
use warp_stream.Server.Queue.Members.{update_self}
use warp_stream.Server.Registry.{
  pos, is_positive, TunnelListener, Manager, new_listener, used_at, create_listener, get_or_create,
  get_or_create_listener, is_stale, reap_idle_listeners_once,
}
use warp_stream.Server.Registry.System.{System, start, Reach}
use warp_stream.Server.Registry.Activity.{Reach-RegistryInv}

stale_iff :
    (n last timeout now : ℕ)
    → (not (is_positive (pos n) || ltb now (last + timeout)) ≡ true)
      ↔ ((n ≡ 0) × (last + timeout ≤ now))
stale_iff zero last timeout now = ground arith
stale_iff (suc n) last timeout now = ground arith

gone_iff : (b : Bool) (p : ℕ) → (Path (Option ℕ) (if b then none else some p) none) ↔ (b ≡ true)
gone_iff true p = (λ h. refl, λ h. refl)
gone_iff false p = (λ h. cc, λ h. cc)

-- In every state that the manager's operations reach, a round of the reaper removes a listener from
-- the map exactly when no handler runs for it and it was last used at least the idle timeout ago.
pub reap_idle_listeners_once_iff :
    (idle_timeout : ℕ) (store : ℕ → TunnelListener) {s : System} (now : ℕ) (a : Text) (p : ℕ)
    → Reach (start idle_timeout store) s
    → s.manager.listeners a ≡ some p
    → ((reap_idle_listeners_once now s.manager).listeners a ≡ none)
      ↔ ((s.running p ≡ 0) × ((s.manager.store p).last_used + s.manager.idle_timeout ≤ now))
unfolding reap_idle_listeners_once is_stale
reap_idle_listeners_once_iff idle_timeout store {s} now a p r e =
    let v = Reach-RegistryInv idle_timeout store r in
    let count = (v.known a p e).2 in
    let g = gone_iff (is_stale s.manager now p) p in
    let t = stale_iff (s.running p) (s.manager.store p).last_used s.manager.idle_timeout now in
    rw e (λ h. t.0 (rw count at (g.0 h)), λ h. g.1 (rw count (t.1 h)))

-- A second client whose tunnel binds the address of the first one's is given the same listener, which
-- keeps the protocol of the first: a reverse TCP tunnel can join the queue of a SOCKS5 one.
pub get_or_create_listener_shared :
    (now later : ℕ) (listens : Bool) (first second : JwtTunnelConfig) (m : Manager)
    → m.listeners (bind_target first).bind_addr ≡ none
    → (bind_target second).bind_addr ≡ (bind_target first).bind_addr
    → let (p, m') = get_or_create_listener now true first m in
      let (q, m'') = get_or_create_listener later listens second m' in
      (q ≡ p) × ((m''.store m.fresh).protocol ≡ first.protocol)
unfolding get_or_create_listener get_or_create create_listener
get_or_create_listener_shared now later listens first second m free same =
    rw (free, same, text_eq_refl (bind_target first).bind_addr)
      (
        refl,
        ap (λ (t : TunnelListener). t.protocol)
            (update_self (update m.store m.fresh (new_listener now first)) m.fresh
                (used_at later (update m.store m.fresh (new_listener now first) m.fresh))
              ∙ ap (used_at later) (update_self m.store m.fresh (new_listener now first))),
      )
