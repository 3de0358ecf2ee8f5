-- ===== src/Client/Reverse/Backoff.antt =====
-- pkg/client/client.go: how long StartReverseTunnel waits between two attempts.
use warp_stream.Base.{
  ℕ, zero, suc, ◌*◌, ◌^◌, ◌≤◌, ◌<◌, ◌≡◌, refl, ap, ◌∙◌, false, Option, none, some, List, [], ◌∷◌,
  min, All, All-append, replicate, arith, Bool-cases, inl, inr,
}
use warp_stream.Protocol.{LocalToRemote, UnixProtocol, ReverseUnixProtocol}
use warp_stream.Server.Dispatch.{second}
use warp_stream.Client.Reverse.{
  Answers, Event, connect_failed, sleeps, dials_unix, dials_tcp, pipes, closes_stream, max_delay,
  greater, next_delay, Target, target_of, dial, dial_event, on_stream, reverse_round,
  reverse_rounds, start_reverse_tunnel,
}

-- Every wait is at least a second and at most `limit`.
abbrev pub IsBounded : ℕ → Event → Type 0
IsBounded limit (sleeps d) = (second ≤ d) × (d ≤ limit)
IsBounded limit connect_failed = Unit {0}
IsBounded limit (dials_unix path) = Unit {0}
IsBounded limit (dials_tcp address) = Unit {0}
IsBounded limit pipes = Unit {0}
IsBounded limit closes_stream = Unit {0}

next_delay_lem :
    (limit delay : ℕ)
    → delay ≤ limit
    → limit < 2 ^ 62
    → next_delay limit delay ≡ min (2 * delay) limit
unfolding next_delay greater
next_delay_lem limit delay h hl = ground arith

dial_event-IsBounded :
    (limit : ℕ) (u : Option UnixProtocol) (r : Option ReverseUnixProtocol) (t : Target)
    → IsBounded limit (dial_event u r t)
unfolding dial_event
dial_event-IsBounded limit (some u) r t = tt
dial_event-IsBounded limit none (some r) t = tt
dial_event-IsBounded limit none none t = tt

dial-IsBounded : (limit : ℕ) (t : Target) → IsBounded limit (dial t)
unfolding dial
dial-IsBounded limit t = dial_event-IsBounded limit t.protocol.unix t.protocol.reverse_unix t

on_stream-IsBounded :
    (limit : ℕ) (a : Answers) (o : Option Target)
    → second ≤ limit
    → All (IsBounded limit) (on_stream a o)
unfolding on_stream
on_stream-IsBounded limit a none h = (tt, ((omega arith, h), tt))
on_stream-IsBounded limit a (some t) h = elim (Bool-cases a.dial_ok) [
  | inl e ↦ rw e (dial-IsBounded limit t, (tt, (tt, tt)))
  | inr e ↦ rw e (dial-IsBounded limit t, (tt, ((omega arith, h), tt)))
]

rounds-IsBounded :
    (limit delay : ℕ) (ltr : LocalToRemote) (answers : List Answers)
    → second ≤ limit
    → limit < 2 ^ 62
    → second ≤ delay
    → delay ≤ limit
    → All (IsBounded limit) (reverse_rounds limit ltr answers delay)
unfolding reverse_rounds reverse_round target_of on_stream
rounds-IsBounded limit delay ltr [] h hl hd hm = tt
rounds-IsBounded limit delay ltr (a ∷ answers) h hl hd hm = elim (Bool-cases a.connected) [
  | inl e ↦ rw e (
      All-append (IsBounded limit) (on_stream a (target_of ltr a))
        (reverse_rounds limit ltr answers second) (on_stream-IsBounded limit a (target_of ltr a) h)
        (rounds-IsBounded limit second ltr answers h hl (omega arith) h))
  | inr e ↦
      rw (e, next_delay_lem limit delay hm hl)
        (
          tt,
          (
            (hd, hm),
            rounds-IsBounded limit (min (2 * delay) limit) ltr answers h hl (omega arith)
                (omega arith),
          ),
        )
]

-- The waits behind `i` failures and more.
abbrev pub waits : ℕ → ℕ → ℕ → List Event
waits limit i zero = []
waits limit i (suc k) = connect_failed ∷ sleeps (min (2 ^ i * second) limit) ∷ waits limit (suc i) k

abbrev pub unreachable : Answers
unreachable = record {
  connected = false;
  target_frame = none;
  cookie_claims = none;
  dial_ok = false;
}

pow_suc : (i : ℕ) → 2 ^ suc i ≡ 2 * 2 ^ i
pow_suc i = omega arith

doubled :
    (i limit : ℕ) → min (2 * min (2 ^ i * second) limit) limit ≡ min (2 ^ suc i * second) limit
doubled i limit = omega (arith, pow_suc i)

rounds-unreachable :
    (limit i k : ℕ) (ltr : LocalToRemote)
    → limit < 2 ^ 62
    → reverse_rounds limit ltr (replicate k unreachable) (min (2 ^ i * second) limit)
      ≡ waits limit i k
unfolding reverse_rounds reverse_round target_of on_stream
rounds-unreachable limit i zero ltr hl = refl
rounds-unreachable limit i (suc k) ltr hl =
    rw (next_delay_lem limit (min (2 ^ i * second) limit) (omega arith) hl) (
      ap (λ (rest : List Event). connect_failed ∷ sleeps (min (2 ^ i * second) limit) ∷ rest)
        (ap (λ (d : ℕ). reverse_rounds limit ltr (replicate k unreachable) d) (doubled i limit)
          ∙ rounds-unreachable limit (suc i) k ltr hl))

-- With a configured maximum from one second to below 2 ^ 62 nanoseconds, or none, which means ten
-- seconds: whatever the environment answers, every wait of a reverse tunnel lies between one second and
-- the maximum; and while the server cannot be reached from the start on, the waits are 1, 2, 4 and so
-- on seconds, cut off at the maximum.
pub start_reverse_tunnel_backoff :
    (configured k : ℕ) (ltr : LocalToRemote) (answers : List Answers)
    → second ≤ max_delay configured
    → max_delay configured < 2 ^ 62
    → All (IsBounded (max_delay configured)) (start_reverse_tunnel configured ltr answers)
      × (start_reverse_tunnel configured ltr (replicate k unreachable)
          ≡ waits (max_delay configured) 0 k)
unfolding start_reverse_tunnel
start_reverse_tunnel_backoff configured k ltr answers h hl = (
  rounds-IsBounded (max_delay configured) second ltr answers h hl (omega arith) h,
  ap (λ (d : ℕ). reverse_rounds (max_delay configured) ltr (replicate k unreachable) d)
        (omega arith)
      ∙ rounds-unreachable (max_delay configured) 0 k ltr hl,
)
