-- ===== src/Wst/Upgrade/Agreement.antt =====
-- pkg/wst/upgrade.go: the two ends of the handshake agree.
use warp_stream.Base.{
  ◌≡◌, ◌↔◌, refl, not, if◌then◌else◌, Bool, true, false, List, Text, text_eq, text_eq_iff,
  text_eq_refl, equal_fold, to_lower, trim_space, trim_right, skip_spaces, is_space, split_on,
}
use warp_stream.Base.Monad.{Result, ok, err}
use warp_stream.Server.Restrictions.{is_empty}
use warp_stream.Wst.Upgrade.{
  DialError, invalid_accept, token_contains, Transport, UpgradeResponse, hijack_and_answer, first,
  upgrade_connection, dial_request, check_response,
}

-- A transport on which nothing fails.
abbrev pub working : Transport
working = record { is_hijacker = true; hijacks = true; writes = true; flushes = true }

accepted_iff :
    (a b : Text)
    → (Path
        (Result DialError (Unit {0}))
        (if not (text_eq a b) then err invalid_accept else ok tt)
        (ok tt))
      ↔ (a ≡ b)
accepted_iff a b =
    (λ h. (text_eq_iff a b).0 (passed (text_eq a b) h), λ e. rw ((text_eq_iff a b).1 e))
  where
    passed :
        (c : Bool)
        → Path (Result DialError (Unit {0})) (if not c then err invalid_accept else ok tt) (ok tt)
        → c ≡ true
    passed true h = refl
    passed false h = cc

module _ (accept_key : Text → Text) where
  -- The server upgrades the request that this program's client sends with a nonce that is not empty,
  -- on a working transport, and the client accepts its response, whatever the hash function; a
  -- response to another nonce is accepted only if the two nonces have one hash.
  pub upgrade-dial :
      (subprotocols : List Text) (nonce other : Text)
      → is_empty nonce ≡ false
      → (r : UpgradeResponse) × (upgrade_connection accept_key subprotocols working
            (dial_request nonce)
          ≡ ok r)
        × (check_response accept_key nonce r ≡ ok tt)
        × ((check_response accept_key other r ≡ ok tt) ↔ (accept_key nonce ≡ accept_key other))
  unfolding upgrade_connection dial_request check_response hijack_and_answer token_contains
      equal_fold text_eq to_lower trim_space trim_right skip_spaces is_space split_on
  upgrade-dial subprotocols nonce other h = (
    record { status = 101; accept = accept_key nonce; subprotocol = first subprotocols },
    rw h,
    rw (text_eq_refl (accept_key nonce)),
    accepted_iff (accept_key nonce) (accept_key other),
  )
