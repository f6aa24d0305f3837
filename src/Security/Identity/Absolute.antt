-- ===== src/Security/Identity/Absolute.antt =====
-- infrastructure/peer/security/identity.go: the names that Identity accepts.
use pluginprotocol.Errors.{Result, ok, err}
use pluginprotocol.Errors.Guards.{guard_ok}
use pluginprotocol.Prelude.{◌≡◌, ◌≢◌, refl, false, ◌||◌, [], ◌∷◌, Bytes, arith}
use pluginprotocol.Security.Identity.{
  Url, UrlParser, checked_url, identity, is_nil, trim_space, no_peer_identity,
}

-- A name that is, less the white space around it, the text of an absolute URI: it parses as a URL
-- with a scheme, a host and a path, which is written as `uri`.
pub record IsAbsoluteUri (parse : UrlParser) (name uri : Bytes) : Type 0 where
  pub url : Url
  pub given : trim_space name ≢ []
  pub parsed : parse (trim_space name) ≡ ok url
  pub scheme : url.scheme ≢ []
  pub host : url.host ≢ []
  pub path : url.path ≢ []
  pub text : url.text ≡ uri

is_nil-false : (b : Bytes) → is_nil b ≡ false → b ≢ []
is_nil-false [] h = absurd cc
is_nil-false (x ∷ xs) h = λ e. ground arith

checked_url-IsAbsoluteUri :
    (parse : UrlParser) (name : Bytes) (read : Result Url) {uri : Bytes}
    → trim_space name ≢ []
    → parse (trim_space name) ≡ read
    → checked_url read ≡ ok uri
    → IsAbsoluteUri parse name uri
checked_url-IsAbsoluteUri parse name (err e) given parsed q = absurd cc
checked_url-IsAbsoluteUri parse name (ok url) given parsed q =
    let (whole, same) =
      guard_ok (is_nil url.scheme || (is_nil url.host || is_nil url.path)) _ _ q in
    record {
      url = url;
      given = given;
      parsed = parsed;
      scheme = is_nil-false url.scheme (ground (arith, whole));
      host = is_nil-false url.host (ground (arith, whole));
      path = is_nil-false url.path (ground (arith, whole));
      text = cc;
    }

-- Identity accepts absolute URIs only.
pub identity-IsAbsoluteUri :
    (parse : UrlParser) (name : Bytes) {uri : Bytes}
    → identity parse name ≡ ok uri
    → IsAbsoluteUri parse name uri
unfolding identity
identity-IsAbsoluteUri parse name q =
    let (given, checked) = guard_ok (is_nil (trim_space name)) no_peer_identity _ q in
    checked_url-IsAbsoluteUri parse name (parse (trim_space name))
      (is_nil-false (trim_space name) given) refl checked
