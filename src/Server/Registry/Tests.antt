-- ===== src/Server/Registry/Tests.antt =====
-- A manager with one listener and one accepted connection.
use warp_stream.Base.{
  ℕ, suc, ◌+◌, ◌≤◌, ◌≡◌, ◌↔◌, refl, true, false, none, some, [], ◌<◌, text_eq, codes, arith,
}
use warp_stream.Base.Net.{join_host_port, decimal, decimal_digits}
use warp_stream.Protocol.{no_protocol, JwtTunnelConfig}
use warp_stream.Server.Bind.{bind_target, bind_of}
use warp_stream.Server.Queue.{update}
use warp_stream.Server.Registry.{
  pos, TunnelListener, Manager, create_listener, get_or_create, get_or_create_listener,
  begin_incoming, on_current, is_current, reap_idle_listeners_once,
}
use warp_stream.Server.Registry.System.{System, start, Reach, here, next, client, incoming}
use warp_stream.Server.Registry.Activity.{Reach-RegistryInv}
use warp_stream.Server.Registry.Invariant.{RegistryInv}
use warp_stream.Server.Registry.Idle.{reap_idle_listeners_once_iff, get_or_create_listener_shared}

abbrev reverse_claims : JwtTunnelConfig
reverse_claims = record {
  id = codes "r1";
  protocol = record no_protocol { reverse_tcp = some tt };
  remote = codes "0.0.0.0";
  port = 8080;
}

abbrev socks_claims : JwtTunnelConfig
socks_claims = record reverse_claims {
  protocol = record no_protocol {
    reverse_socks5 = some (record { timeout = none; credentials = none });
  };
}

abbrev blank : ℕ → TunnelListener
blank p = record {
  addr = [];
  is_unix = false;
  protocol = no_protocol;
  last_used = 0;
  active = pos 0;
}

abbrev begun : System
begun = start 100 blank

abbrev listening : Manager
listening = (get_or_create_listener 5 true reverse_claims begun.manager).1

abbrev busy : System
busy = record {
  manager = begin_incoming 7 0 listening;
  running = update begun.running 0 (suc (begun.running 0));
}

one_made : 0 < listening.fresh
unfolding get_or_create_listener get_or_create create_listener
one_made = omega arith

busy-Reach : Reach begun busy
busy-Reach = next (next here (client 5 true reverse_claims)) (incoming 7 0 one_made)

Reach-RegistryInv_example : RegistryInv busy.manager busy.running
Reach-RegistryInv_example = Reach-RegistryInv 100 blank {s = busy} busy-Reach

busy_listed : busy.manager.listeners (bind_target reverse_claims).bind_addr ≡ some 0
unfolding begin_incoming on_current is_current get_or_create_listener get_or_create create_listener
    bind_target bind_of join_host_port decimal decimal_digits text_eq
busy_listed = refl

reap_idle_listeners_once_iff_example :
    ((reap_idle_listeners_once 500 busy.manager).listeners (bind_target reverse_claims).bind_addr
      ≡ none)
    ↔ ((busy.running 0 ≡ 0) × ((busy.manager.store 0).last_used + busy.manager.idle_timeout ≤ 500))
reap_idle_listeners_once_iff_example =
    reap_idle_listeners_once_iff 100 blank {s = busy} 500 (bind_target reverse_claims).bind_addr 0
      busy-Reach busy_listed

get_or_create_listener_shared_example :
    let (p, m') = get_or_create_listener 5 true socks_claims begun.manager in
    let (q, m'') = get_or_create_listener 6 true reverse_claims m' in
    (q ≡ p) × ((m''.store 0).protocol ≡ socks_claims.protocol)
unfolding bind_target bind_of
get_or_create_listener_shared_example =
    get_or_create_listener_shared 5 6 true socks_claims reverse_claims begun.manager refl refl
