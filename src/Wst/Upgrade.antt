-- ===== src/Wst/Upgrade.antt =====
-- pkg/wst/upgrade.go: the WebSocket handshake, on the parsed header fields. `accept_key` stands for
-- generateAcceptKey (SHA-1 and base64 of the key and a constant), of which only equality is used.
pub mod Agreement
use warp_stream.Base.{
  ℕ, Bool, not, Option, none, some, List, [], ◌∷◌, any_of, ◌==◌, if◌then◌else◌, Text, codes,
  text_eq, equal_fold, trim_space, split_on,
}
use warp_stream.Base.Monad.{Result, ok, err}
use warp_stream.Server.Restrictions.{is_empty}

-- tokenContains.
unfoldable pub token_contains : Text → Text → Bool
token_contains header token =
    any_of (λ part. equal_fold (trim_space part) token) (split_on b',' header)

-- The fields of a request that Upgrade reads; an absent header is the empty text.
pub record UpgradeRequest : Type 0 where
  pub method : Text
  pub connection : Text
  pub upgrade : Text
  pub version : Text
  pub key : Text

pub data UpgradeError : Type 0 where
  not_get no_connection_upgrade no_websocket unsupported_version no_key : UpgradeError
  no_hijacker hijack_failed write_failed flush_failed : UpgradeError

-- The environment: can the response writer be hijacked, does Hijack succeed, and the write and flush.
pub record Transport : Type 0 where
  pub is_hijacker : Bool
  pub hijacks : Bool
  pub writes : Bool
  pub flushes : Bool

-- The fields of a response that Upgrade writes and Dial reads.
pub record UpgradeResponse : Type 0 where
  pub status : ℕ
  pub accept : Text
  pub subprotocol : Option Text

abbrev pub first : List Text → Option Text
first [] = none
first (s ∷ ss) = some s

-- What follows the tests on the request.
unfoldable pub hijack_and_answer : Transport → UpgradeResponse → Result UpgradeError UpgradeResponse
hijack_and_answer t answer =
    if not t.is_hijacker
    then err no_hijacker
    else if not t.hijacks
    then err hijack_failed
    else if not t.writes
    then err write_failed
    else if not t.flushes
    then err flush_failed
    else ok answer

pub data DialError : Type 0 where
  bad_status : ℕ → DialError
  invalid_accept : DialError

-- The request that Dial sends.
unfoldable pub dial_request : Text → UpgradeRequest
dial_request nonce = record {
  method = codes "GET";
  connection = codes "Upgrade";
  upgrade = codes "websocket";
  version = codes "13";
  key = nonce;
}

module _ (accept_key : Text → Text) where
  -- Upgrade: the answer it sent, which it follows with an unmasked connection.
  unfoldable pub upgrade_connection :
      List Text → Transport → UpgradeRequest → Result UpgradeError UpgradeResponse
  upgrade_connection subprotocols t r =
      if not (text_eq r.method (codes "GET"))
      then err not_get
      else if not (token_contains r.connection (codes "upgrade"))
      then err no_connection_upgrade
      else if not (equal_fold r.upgrade (codes "websocket"))
      then err no_websocket
      else if not (text_eq r.version (codes "13"))
      then err unsupported_version
      else if is_empty r.key
      then err no_key
      else hijack_and_answer t
          (record { status = 101; accept = accept_key r.key; subprotocol = first subprotocols })

  -- Dial's tests on the response.
  unfoldable pub check_response : Text → UpgradeResponse → Result DialError (Unit {0})
  check_response nonce r =
      if not (r.status == 101)
      then err (bad_status r.status)
      else if not (text_eq r.accept (accept_key nonce))
      then err invalid_accept
      else ok tt
