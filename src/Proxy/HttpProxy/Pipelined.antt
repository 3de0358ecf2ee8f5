-- ===== src/Proxy/HttpProxy/Pipelined.antt =====
-- pkg/client/client.go and pkg/server/manager.go: what becomes of the bytes that a peer sends behind its
-- CONNECT request without waiting for the answer.
use warp_stream.Base.{
  ℕ, ◌≡◌, refl, sym, ap, ◌∙◌, subst, inl, inr, Bool, true, false, not, Option, none, some, List, [],
  ◌∷◌, ◌++◌, append_assoc, Bytes, Text, Exists, All, All-append, Bool-cases, if◌then◌else◌, codes,
  parse_uint16,
}
use warp_stream.Base.Monad.{Result, ok, err}
use warp_stream.Base.Net.{split_host_port}
use warp_stream.Protocol.{Credentials}
use warp_stream.Server.Restrictions.{is_empty}
use warp_stream.Proxy.HttpProxy.{
  Request, Received, Event, Answers, is_connect, authenticate_http_proxy, pipes, closes, tunnel_to,
  serve_request, after_request, handle_http_proxy, ProxyError, unsupported_method, Accepted,
  accept_port, accept_request, handle_http_proxy_handshake,
}
use warp_stream.Proxy.HttpProxy.Reading.{
  Parsed, needs_more, complete, all_of, after_chunk, read_request,
}

all_of-append : (xs ys : List Bytes) → all_of (xs ++ ys) ≡ all_of xs ++ all_of ys
all_of-append [] ys = refl
all_of-append (x ∷ xs) ys =
    ap (λ z. x ++ z) (all_of-append xs ys) ∙ sym (append_assoc x (all_of xs) (all_of ys))

abbrev Pipes : Bytes → List Event → Type 0
Pipes x es = Exists (λ e. e ≡ pipes x) es

-- On any outcome: what the server's proxy accepts with.
accept_port-delivers :
    (write_ok : Bool) (c : Received) (r : Request) (p : Option ℕ) (a : Accepted)
    → accept_port write_ok c r p ≡ ok a
    → a.delivers ≡ c.buffered ++ c.coming
unfolding accept_port
accept_port-delivers write_ok c r none a e = cc e
accept_port-delivers true c r (some port) a e = ap delivered (sym e)
  where
    delivered : Result ProxyError Accepted → Bytes
    delivered (ok b) = b.delivers
    delivered (err x) = []
accept_port-delivers false c r (some port) a e = cc e

accept_request-delivers :
    (write_ok : Bool) (c : Received) (o : Option Request) (a : Accepted)
    → accept_request write_ok c o ≡ ok a
    → a.delivers ≡ c.buffered ++ c.coming
unfolding accept_request
accept_request-delivers write_ok c none a e = cc e
accept_request-delivers write_ok c (some r) a e = elim (Bool-cases (is_connect r)) [
  | inl connect ↦
      accept_port-delivers write_ok c r
        (parse_uint16 (if is_empty r.url_port then codes "80" else r.url_port)) a (rw connect at e)
  | inr other ↦ absurd (refused (rw other at e))
]
  where
    refused : Path (Result ProxyError Accepted) (err unsupported_method) (ok a) → ⊥
    refused e = cc e

-- On any outcome: what the client's proxy pipes.
abbrev PipesOnly : Bytes → Event → Type 0
PipesOnly coming (pipes y) = y ≡ coming
PipesOnly coming e = Unit {0}

module _ (coming : Bytes) where
  if-PipesOnly :
      (b : Bool) (xs ys : List Event)
      → All (PipesOnly coming) xs
      → All (PipesOnly coming) ys
      → All (PipesOnly coming) (if b then xs else ys)
  if-PipesOnly true xs ys h k = h
  if-PipesOnly false xs ys h k = k

  tunnel_to-PipesOnly :
      (env : Answers) (o : Option (Text × Text)) → All (PipesOnly coming) (tunnel_to env coming o)
  unfolding tunnel_to
  tunnel_to-PipesOnly env none = tt
  tunnel_to-PipesOnly env (some (host, port)) =
      if-PipesOnly env.write_ok _ _ (tt, (tt, if-PipesOnly env.connect_ok _ _ (refl, tt) (tt, tt)))
        (tt, tt)

  after_request-PipesOnly :
      (credentials : Option Credentials) (env : Answers) (o : Option Request)
      → All (PipesOnly coming) (after_request credentials env coming o)
  unfolding after_request serve_request
  after_request-PipesOnly credentials env none = tt
  after_request-PipesOnly credentials env (some r) =
      if-PipesOnly (not (is_connect r)) _ _ (tt, tt)
        (if-PipesOnly (not (authenticate_http_proxy r.proxy_authorization credentials)) _ _ (tt, tt)
          (tunnel_to-PipesOnly env (split_host_port r.host)))

  piped : (x : Bytes) (es : List Event) → All (PipesOnly coming) es → Pipes x es → x ≡ coming
  piped x [] h k = absurd k
  piped x (e ∷ es) h (inl here) = subst (PipesOnly coming) here h.0
  piped x (e ∷ es) h (inr later) = piped x es h.1 later

handle_http_proxy-Pipes :
    (credentials : Option Credentials) (env : Answers) (c : Received) (x : Bytes)
    → Pipes x (handle_http_proxy credentials env c)
    → x ≡ c.coming
unfolding handle_http_proxy
handle_http_proxy-Pipes credentials env c x =
    piped c.coming x (after_request credentials env c.coming c.request ++ closes ∷ []) (
      All-append (PipesOnly c.coming) (after_request credentials env c.coming c.request)
        (closes ∷ []) (after_request-PipesOnly c.coming credentials env c.request) (tt, tt))

is_empty-append : (xs ys : Bytes) → is_empty ys ≡ false → is_empty (xs ++ ys) ≡ false
is_empty-append [] ys h = h
is_empty-append (x ∷ xs) ys h = refl

module _ (parse : Bytes → Parsed) (request : Bytes) (r : Request)
    (early : (p q : Bytes) → p ++ q ≡ request → is_empty q ≡ false → parse p ≡ needs_more)
    (whole : (x : Bytes) → parse (request ++ x) ≡ complete r x) where
  read_request_lem :
      (held : Bytes) (before : List Bytes) (last lost : Bytes) (later : List Bytes)
      → held ++ (all_of before ++ last) ≡ request
      → is_empty last ≡ false
      → read_request parse held (before ++ (last ++ lost) ∷ later)
        ≡ record { request = some r; buffered = lost; coming = all_of later }
  unfolding read_request after_chunk
  read_request_lem held [] last lost later e n =
      rw (sym (append_assoc held last lost), e, whole lost) refl
  read_request_lem held (chunk ∷ before) last lost later e n =
      let bytes = held ++ chunk in
      let split : bytes ++ (all_of before ++ last) ≡ request =
        append_assoc held chunk (all_of before ++ last)
        ∙ ap (λ z. held ++ z) (sym (append_assoc chunk (all_of before) last))
        ∙ e in
      rw (early bytes (all_of before ++ last) split (is_empty-append (all_of before) last n))
        (read_request_lem bytes before last lost later split n)

  stream :
      (before : List Bytes) (last lost : Bytes) (later : List Bytes)
      → all_of before ++ last ≡ request
      → all_of (before ++ (last ++ lost) ∷ later) ≡ request ++ (lost ++ all_of later)
  stream before last lost later e =
      all_of-append before ((last ++ lost) ∷ later)
      ∙ ap (λ z. all_of before ++ z) (append_assoc last lost (all_of later))
      ∙ sym (append_assoc (all_of before) last (lost ++ all_of later))
      ∙ ap (λ z. z ++ (lost ++ all_of later)) e

  -- A stream holds a request and more, and comes in whatever pieces; the piece that brings the end of
  -- the request, `last`, brings `lost` behind it. ReadRequest waits for the end of the request and
  -- leaves the bytes behind it to its reader. Whatever the credentials and the outcome of the calls:
  -- where the server's proxy of a reverse tunnel accepts, it delivers just the bytes that the stream has
  -- behind the request; where the client's proxy pipes, `lost` is missing.
  pub handle_http_proxy-loses_buffered :
      (before : List Bytes) (last lost : Bytes) (later : List Bytes)
      (credentials : Option Credentials) (env : Answers) (write_ok : Bool) (a : Accepted)
      (x : Bytes)
      → all_of before ++ last ≡ request
      → is_empty last ≡ false
      → handle_http_proxy_handshake write_ok
          (read_request parse [] (before ++ (last ++ lost) ∷ later))
        ≡ ok a
      → Pipes x (
          handle_http_proxy credentials env
            (read_request parse [] (before ++ (last ++ lost) ∷ later)))
      → (all_of (before ++ (last ++ lost) ∷ later) ≡ request ++ a.delivers)
        × (a.delivers ≡ lost ++ x)
  unfolding handle_http_proxy_handshake
  handle_http_proxy-loses_buffered before last lost later credentials env write_ok a x e n h k =
      let c = read_request_lem [] before last lost later e n in
      let given =
        accept_request-delivers write_ok
          (record { request = some r; buffered = lost; coming = all_of later }) (some r) a
          (rw c at h) in
      let only =
        handle_http_proxy-Pipes credentials env
          (record { request = some r; buffered = lost; coming = all_of later }) x (rw c at k) in
      (
        stream before last lost later e ∙ ap (λ z. request ++ z) (sym given),
        given ∙ ap (λ z. lost ++ z) (sym only),
      )
