-- ===== src/Wst/Bounds.antt =====
-- pkg/wst/connection.go: what ReadMessage promises on any input, well formed or not.
use warp_stream.Base.{
  ℕ, zero, suc, ◌+◌, ◌≤◌, ◌<◌, ◌≡◌, ◌≢◌, refl, Bool, true, false, [], ◌∷◌, length, length-drop,
  length-take, Bytes, arith, ltb, ◌⊎◌, if◌then◌else◌, Bool-cases, inl, inr, bit_and, ◌==◌,
}
use warp_stream.Base.Monad.{Result, ok, err, and_then-eq-ok, return}
use warp_stream.Wst.Writer.{Write, Bufw, WriteError, ping_message, pong_message, close_message}
use warp_stream.Wst.Reader.{
  max_payload, unmask, Frame, ReadError, read_full, read_byte, read_be, read_length, read_mask_key,
  read_payload, is_out_of_bounds, read_frame, Conn, Outcome, got, failed, stuck, after_frame,
  dispatch, read_message, read_message_loop, run_handler, after_handler,
}
use warp_stream.Wst.Decode.{length-unmask}

read_full_takes :
    (n : ℕ) (s : Bytes) {bs s' : Bytes}
    → read_full n s ≡ (ok bs, s')
    → (length bs ≡ n) × (length s' ≤ length s)
unfolding read_full
read_full_takes n s h = ground (arith, length-take n s, length-drop n s)

read_byte_takes :
    (s : Bytes) {b : ℕ} {s' : Bytes} → read_byte s ≡ (ok b, s') → length s ≡ suc (length s')
unfolding read_byte
read_byte_takes [] h = cc
read_byte_takes (b ∷ s) h = ground arith

read_be_takes :
    (k : ℕ) (s : Bytes) {n : ℕ} {s' : Bytes} → read_be k s ≡ (ok n, s') → length s' ≤ length s
unfolding read_be
read_be_takes k s h =
    let (bs, u, e, r) = and_then-eq-ok (read_full k s) _ h in
    let t = read_full_takes k s e in ground (arith, t)

read_length_takes :
    (n : ℕ) (s : Bytes) {m : ℕ} {s' : Bytes} → read_length n s ≡ (ok m, s') → length s' ≤ length s
unfolding read_length
read_length_takes n s {m} {s'} h = elim (Bool-cases (n == 126)) [
  | inl e ↦ read_be_takes 2 s (rw (e, read_length) at h)
  | inr e ↦ elim (Bool-cases (n == 127)) [
    | inl f ↦ read_be_takes 8 s (rw (e, f, read_length) at h)
    | inr f ↦ let k : (ok n, s) ≡ (ok m, s') = rw (e, f, read_length) at h in ground (arith, k)
  ]
]

read_mask_key_takes :
    (m : Bool) (s : Bytes) {k s' : Bytes} → read_mask_key m s ≡ (ok k, s') → length s' ≤ length s
unfolding read_mask_key
read_mask_key_takes true s h = (read_full_takes 4 s h).1
read_mask_key_takes false s h = ground arith

read_payload_takes :
    (m : Bool) (k : Bytes) (n : ℕ) (s : Bytes) {bs s' : Bytes}
    → read_payload m k n s ≡ (ok bs, s')
    → (length bs ≤ max_payload) × (length s' ≤ length s)
unfolding read_payload is_out_of_bounds
read_payload_takes m k n s {bs} {s'} h = elim (Bool-cases (is_out_of_bounds n)) [
  | inl e ↦ cc (rw (e, read_payload) at h)
  | inr e ↦
      let (xs, u, f, r) =
        and_then-eq-ok (read_full n s) (λ ys. return (if m then unmask k 0 ys else ys)) {t = s'}
          {b = bs} (rw (e, read_payload) at h) in
      let t = read_full_takes n s f in ground (arith, t, r, e, length-unmask k 0 xs)
]

pub read_frame_takes :
    (s : Bytes) {f : Frame} {s' : Bytes}
    → read_frame s ≡ (ok f, s')
    → (length f.payload ≤ max_payload) × (length s' + 2 ≤ length s)
unfolding read_frame
read_frame_takes s h =
    let (b0, s1, e0, h0) = and_then-eq-ok (read_byte s) _ h in
    let (b1, s2, e1, h1) = and_then-eq-ok (read_byte s1) _ h0 in
    let (n, s3, e2, h2) = and_then-eq-ok (read_length (bit_and b1 0x7f) s2) _ h1 in
    let (k, s4, e3, h3) = and_then-eq-ok (read_mask_key (ltb 0 (bit_and b1 0x80)) s3) _ h2 in
    let (bs, s5, e4, h4) = and_then-eq-ok (read_payload (ltb 0 (bit_and b1 0x80)) k n s4) _ h3 in
    let t0 = read_byte_takes s e0 in
    let t1 = read_byte_takes s1 e1 in
    let t2 = read_length_takes _ s2 e2 in
    let t3 = read_mask_key_takes _ s3 e3 in
    let t4 = read_payload_takes _ k n s4 e4 in ground (arith, t0, t1, t2, t3, t4, h4)

pub read_frame-cases :
    (r : Result ReadError Frame × Bytes)
    → ((f : Frame) × (s' : Bytes) × (r ≡ (ok f, s')))
      ⊎ ((e : ReadError) × (s' : Bytes) × (r ≡ (err e, s')))
read_frame-cases (ok f, s') = inl (f, s', refl)
read_frame-cases (err e, s') = inr (e, s', refl)

-- What a caller may rely on, whatever the peer sent: a message that is returned is a data message of
-- at most 10 MiB, and the loop did not run out of rounds.
abbrev pub IsSound : Outcome → Type 0
IsSound (got t bs) =
    (length bs ≤ max_payload) × (t ≢ close_message) × (t ≢ ping_message) × (t ≢ pong_message)
IsSound (failed t bs e) = Unit {0}
IsSound stuck = ⊥

module _ (ping_handler pong_handler : Bytes → Write (Unit {0})) where
  after_handler-IsSound :
      (continue : Conn → Outcome × Conn) (f : Frame) (c : Conn)
      (r : Result WriteError (Unit {0}) × Bufw)
      → ((w : Bufw) → IsSound (continue (record c { bufw = w })).0)
      → IsSound (after_handler continue f c r).0
  unfolding after_handler
  after_handler-IsSound continue f c (ok u, w) h = h w
  after_handler-IsSound continue f c (err e, w) h = tt

  dispatch-IsSound :
      (continue : Conn → Outcome × Conn) (f : Frame) (c : Conn)
      → length f.payload ≤ max_payload
      → ((w : Bufw) → IsSound (continue (record c { bufw = w })).0)
      → IsSound (dispatch ping_handler pong_handler continue f c).0
  unfolding dispatch run_handler
  dispatch-IsSound continue f c hl h = elim (Bool-cases (f.opcode == ping_message)) [
    | inl e ↦ rw (e, dispatch) (after_handler-IsSound continue f c _ h)
    | inr e ↦ elim (Bool-cases (f.opcode == pong_message)) [
      | inl g ↦ rw (e, g, dispatch) (after_handler-IsSound continue f c _ h)
      | inr g ↦ elim (Bool-cases (f.opcode == close_message)) [
        | inl i ↦ rw (e, g, i, dispatch) tt
        | inr i ↦
            rw (e, g, i, dispatch) (hl, ground (arith, i), ground (arith, e), ground (arith, g))
      ]
    ]
  ]

  loop-IsSound :
      (fuel : ℕ) (c : Conn)
      → length c.bufr < fuel
      → IsSound (read_message_loop ping_handler pong_handler fuel c).0
  unfolding read_message_loop after_frame
  loop-IsSound zero c h = absurd (omega arith)
  loop-IsSound (suc fuel) c h = elim (read_frame-cases (read_frame c.bufr)) [
    | inl (f, s', e) ↦
        let t = read_frame_takes c.bufr e in
        rw (e, after_frame)
          (dispatch-IsSound (read_message_loop ping_handler pong_handler fuel) f _ t.0
            (λ w. loop-IsSound fuel (record { bufr = s'; bufw = w }) (omega (arith, t))))
    | inr (x, s', e) ↦ rw (e, after_frame) tt
  ]

  -- ReadMessage on any input and with any handlers: it ends by itself, and what it returns without
  -- an error is a data message, never a control one, of at most 10 MiB.
  pub read_message-IsSound : (c : Conn) → IsSound (read_message ping_handler pong_handler c).0
  unfolding read_message
  read_message-IsSound c = loop-IsSound (suc (length c.bufr)) c (omega arith)
