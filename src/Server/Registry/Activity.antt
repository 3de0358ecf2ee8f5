-- ===== src/Server/Registry/Activity.antt =====
-- pkg/server/manager.go: the counters of the listeners count the handlers that run.
use warp_stream.Server.Registry.System.{
  System, start, Step, client, touch, incoming, finished, reap, failed, shutdown, Reach, here, next,
}
use warp_stream.Base.{
  ℕ, suc, ◌<◌, ◌≡◌, refl, sym, ap, ◌∙◌, Bool, true, false, Option, none, some, Bool-cases, ltb,
  ltb→lt, if◌then◌else◌, inl, inr, Text, text_eq, arith,
}
use warp_stream.Protocol.{JwtTunnelConfig}
use warp_stream.Server.Bind.{bind_target}
use warp_stream.Server.Queue.Members.{update_self, update_ne}
use warp_stream.Server.Registry.{
  pos, increment, decrement, TunnelListener, Manager, is_current, used_at, begun_at, ended_at,
  touch_listener, update_active_pipes, begin_incoming, put, get_or_create, get_or_create_listener,
  keep, is_stale, reap_idle_listeners_once, listener_failed, close_manager,
}
use warp_stream.Server.Registry.Invariant.{RegistryInv, change-Inv, on_current-Inv, create-Inv}

-- Listeners that leave the map change nothing for those that stay.
fewer-Inv :
    (m : Manager) (r : ℕ → ℕ) (listeners : Text → Option ℕ) (quit : ℕ → Bool)
    → ((a : Text) (p : ℕ) → listeners a ≡ some p → m.listeners a ≡ some p)
    → RegistryInv m r
    → RegistryInv (record m { listeners = listeners; quit = quit }) r
fewer-Inv m r listeners quit f v = record {
  known = λ a p e. v.known a p (f a p e);
  unborn = v.unborn;
}

keep-some : (drop_it : ℕ → Bool) (o : Option ℕ) (p : ℕ) → keep drop_it o ≡ some p → o ≡ some p
keep-some drop_it none p e = e
keep-some drop_it (some q) p e = ground (arith, e)

put-none : (f : Text → Option ℕ) (key a : Text) (p : ℕ) → put f key none a ≡ some p → f a ≡ some p
put-none f key a p e = elim (Bool-cases (text_eq a key)) [
  | inl same ↦ cc (rw same at e)
  | inr other ↦ rw other at e
]

dropped :
    (b : Bool) (f : Text → Option ℕ) (key a : Text) (p : ℕ)
    → Path (Option ℕ) ((if b then put f key none else f) a) (some p)
    → f a ≡ some p
dropped true f key a p e = put-none f key a p e
dropped false f key a p e = e

client-Inv :
    (now : ℕ) (listens : Bool) (claims : JwtTunnelConfig) (m : Manager) (r : ℕ → ℕ) (o : Option ℕ)
    → m.listeners (bind_target claims).bind_addr ≡ o
    → RegistryInv m r
    → RegistryInv (get_or_create now listens claims m o).1 r
unfolding get_or_create
client-Inv now listens claims m r (some p) e v =
    change-Inv m r r p (used_at now) ((v.known _ p e).0) (λ q x. refl) refl (λ h. h) v
client-Inv now true claims m r none e v = create-Inv now claims m r v
client-Inv now false claims m r none e v = v

in_use : (m : Manager) (r : ℕ → ℕ) (p n : ℕ) → RegistryInv m r → r p ≡ suc n → p < m.fresh
in_use m r p n v e = elim (Bool-cases (ltb p m.fresh)) [
  | inl made ↦ ltb→lt p m.fresh made
  | inr unmade ↦ absurd (omega (arith, e, v.unborn p (ground (arith, unmade))))
]

pub step-RegistryInv :
    {s t : System} → Step s t → RegistryInv s.manager s.running → RegistryInv t.manager t.running
unfolding get_or_create_listener touch_listener begin_incoming update_active_pipes
    reap_idle_listeners_once listener_failed close_manager
step-RegistryInv {s} (client now listens claims) v =
    client-Inv now listens claims s.manager s.running _ refl v
step-RegistryInv {s} (touch now p lt) v =
    on_current-Inv s.manager s.running s.running p (used_at now) lt (λ q x. refl) refl (λ h. h) v
step-RegistryInv {s} (incoming now p lt) v =
    on_current-Inv s.manager s.running _ p (begun_at now) lt (λ q x. update_ne s.running p q _ x)
      refl (λ h. ap increment h ∙ ap pos (sym (update_self s.running p _))) v
step-RegistryInv {s} (finished now p n e) v =
    on_current-Inv s.manager s.running _ p (ended_at now) (in_use s.manager s.running p n v e)
      (λ q x. update_ne s.running p q _ x) refl
      (λ h. ap decrement (h ∙ ap pos e) ∙ ap pos (sym (update_self s.running p _))) v
step-RegistryInv {s} (reap now) v =
    fewer-Inv s.manager s.running _ _
      (λ a p e. keep-some (is_stale s.manager now) (s.manager.listeners a) p e) v
step-RegistryInv {s} (failed p) v =
    fewer-Inv s.manager s.running _ _
      (λ a q e. dropped (is_current s.manager p) s.manager.listeners (s.manager.store p).addr a q e)
      v
step-RegistryInv {s} shutdown v = fewer-Inv s.manager s.running _ _ (λ a p e. cc) v

-- After any sequence of the manager's operations, in any order: a listener in the map is the one made
-- for its address, its counter is the number of handlers that run for it (so it is never negative),
-- and no handler runs for a listener that was not made.
pub Reach-RegistryInv :
    (idle_timeout : ℕ) (store : ℕ → TunnelListener) {s : System}
    → Reach (start idle_timeout store) s
    → RegistryInv s.manager s.running
Reach-RegistryInv idle_timeout store here = record { known = λ a p e. cc; unborn = λ p le. refl }
Reach-RegistryInv idle_timeout store (next r st) =
    step-RegistryInv st (Reach-RegistryInv idle_timeout store r)
