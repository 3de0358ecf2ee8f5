-- ===== src/Client/Udp/Sessions.antt =====
-- pkg/client/client.go: what the two maps of a UDP tunnel have in common, and what happens to the
-- sessions in them.
use warp_stream.Base.{
  All, List, Bytes, ◌==◌, ==_iff, sym, ap, ◌∙◌, ℕ, ◌<◌, ◌≡◌, ◌≢◌, refl, ◌⊎◌, inl, inr, Bool, true,
  false, Option, none, some, Text, text_eq, text_eq_iff, Bool-cases, Option-cases,
}
use warp_stream.Server.Queue.Members.{update_ne}
use warp_stream.Server.Registry.{put}
use warp_stream.Server.ReverseUdp.Receiving.{put-cases}
use warp_stream.Client.Udp.{
  Loop, writing, UdpTunnel, reset_timer, stopped_timer, clear, leave, shut,
}

-- A session in the maps: its goroutine reads, its stream is not closed, and its timer runs or has
-- fired.
pub record Listed (s : UdpTunnel) (a : Text) (i : ℕ) : Type 0 where
  pub known : i < s.next
  pub at : s.dest i ≡ a
  pub reads : s.reading i ≡ true
  pub stays : s.leaving i ≡ false
  pub timed : (s.armed i ≡ true) ⊎ (0 < s.firing i)

-- All datagrams of the list come from one peer.
abbrev pub AllFrom : Text → List (Text × Bytes) → Type 0
AllFrom a ds = All (λ (e : Text × Bytes). e.0 ≡ a) ds

pub record UdpTunnelInv (s : UdpTunnel) : Type 0 where
  pub same_maps : (a : Text) → s.timers a ≡ s.clients a
  pub listed : (a : Text) (i : ℕ) → s.clients a ≡ some i → Listed s a i
  pub closed_last : (i : ℕ) → s.closed i ≡ true → s.leaving i ≡ true
  pub writes : (a : Text) (i : ℕ) (d : Bytes) → s.loop ≡ writing a i d → s.dest i ≡ a
  pub routed : (i : ℕ) → AllFrom (s.dest i) (s.to_stream i)

-- Two sessions of different peers differ.
pub apart :
    (s : UdpTunnel) (a k : Text) (i j : ℕ)
    → s.dest i ≡ a
    → s.dest j ≡ k
    → text_eq a k ≡ false
    → i ≢ j
apart s a k i j p q e f = cc ((text_eq_iff a k).1 (sym p ∙ ap s.dest f ∙ q), e)

-- The entries of one peer are deleted, and meanwhile timers and goroutines of that peer's sessions
-- changed.
pub clear_with :
    (k : Text) (s : UdpTunnel) (armed : ℕ → Bool) (firing : ℕ → ℕ) (reading : ℕ → Bool)
    (loop : Loop)
    → UdpTunnelInv s
    → ((a : Text) (i : ℕ) → s.clients a ≡ some i → text_eq a k ≡ false → armed i ≡ s.armed i)
    → ((a : Text) (i : ℕ) → s.clients a ≡ some i → text_eq a k ≡ false → firing i ≡ s.firing i)
    → ((a : Text) (i : ℕ) → s.clients a ≡ some i → text_eq a k ≡ false → reading i ≡ s.reading i)
    → ((a : Text) (i : ℕ) (d : Bytes) → loop ≡ writing a i d → s.dest i ≡ a)
    → UdpTunnelInv
        (clear k (record s { armed = armed; firing = firing; reading = reading; loop = loop }))
clear_with k s armed firing reading loop v same_armed same_firing same_reading w = record {
  same_maps = λ a. elim (Bool-cases (text_eq a k)) [
    | inl here_it ↦ rw here_it refl
    | inr other ↦ rw other (v.same_maps a)
  ];
  listed = λ a i e. elim (put-cases s.clients k none a (some i) e) [
    | inl (_, absent) ↦ cc absent
    | inr (other, l) ↦
        let h = v.listed a i l in
        record {
          known = h.known;
          at = h.at;
          reads = same_reading a i l other ∙ h.reads;
          stays = h.stays;
          timed = rw (same_armed a i l other, same_firing a i l other) h.timed;
        }
  ];
  closed_last = v.closed_last;
  writes = w;
  routed = v.routed;
}

-- After that no session of the peer is in the maps.
pub unlisted :
    (k : Text) (s : UdpTunnel) (i : ℕ)
    → UdpTunnelInv s
    → s.dest i ≡ k
    → (a : Text) → put s.clients k none a ≢ some i
unlisted k s i v p a e = elim (put-cases s.clients k none a (some i) e) [
  | inl (_, absent) ↦ cc absent
  | inr (other, l) ↦ apart s a k i i (v.listed a i l).at p other refl
]

pub leave-UdpTunnelInv :
    (i : ℕ) (s : UdpTunnel)
    → UdpTunnelInv s
    → ((a : Text) → s.clients a ≢ some i)
    → UdpTunnelInv (leave i s)
leave-UdpTunnelInv i s v n = record {
  same_maps = v.same_maps;
  listed = λ a j e.
      let h = v.listed a j e in
      record {
        known = h.known;
        at = h.at;
        reads = h.reads;
        stays = update_ne s.leaving i j true (λ f. n a (e ∙ ap some f)) ∙ h.stays;
        timed = h.timed;
      };
  closed_last = λ j e. elim (Bool-cases (j == i)) [
    | inl it ↦ rw it refl
    | inr other ↦ rw other (v.closed_last j e)
  ];
  writes = v.writes;
  routed = v.routed;
}

pub shut-UdpTunnelInv :
    (i : ℕ) (s : UdpTunnel)
    → UdpTunnelInv s
    → ((a : Text) → s.clients a ≢ some i)
    → UdpTunnelInv (shut i s)
shut-UdpTunnelInv i s v n =
    let l = leave-UdpTunnelInv i s v n in
    record {
      same_maps = v.same_maps;
      listed = λ a j e.
          let h = l.listed a j e in
          record { known = h.known; at = h.at; reads = h.reads; stays = h.stays; timed = h.timed };
      closed_last = λ j e. elim (Bool-cases (j == i)) [
        | inl it ↦ rw it refl
        | inr other ↦
            let ne : j ≢ i = λ f. cc (other, (==_iff j i).1 f) in
            rw other (v.closed_last j (sym (update_ne s.closed i j true ne) ∙ e))
      ];
      writes = v.writes;
      routed = v.routed;
    }

pub reset-UdpTunnelInv :
    (t : Option ℕ) (s : UdpTunnel) → UdpTunnelInv s → UdpTunnelInv (reset_timer t s)
reset-UdpTunnelInv none s v = v
reset-UdpTunnelInv (some t) s v = record {
  same_maps = v.same_maps;
  listed = λ a i e.
      let h = v.listed a i e in
      record {
        known = h.known;
        at = h.at;
        reads = h.reads;
        stays = h.stays;
        timed = elim (Bool-cases (i == t)) [
          | inl it ↦ inl (rw it refl)
          | inr other ↦ rw other h.timed
        ];
      };
  closed_last = v.closed_last;
  writes = v.writes;
  routed = v.routed;
}

-- The timer of the peer's session is stopped, if it has one.
pub stopped_elsewhere :
    (k : Text) (s : UdpTunnel) (a : Text) (i : ℕ)
    → UdpTunnelInv s
    → s.clients a ≡ some i
    → text_eq a k ≡ false
    → stopped_timer (s.timers k) s.armed i ≡ s.armed i
stopped_elsewhere k s a i v l other = elim (Option-cases (s.timers k)) [
  | inl absent ↦ rw absent refl
  | inr (j, e) ↦ rw e (
      update_ne s.armed j i false
        (apart s a k i j (v.listed a i l).at (v.listed k j (sym (v.same_maps k) ∙ e)).at other))
]
