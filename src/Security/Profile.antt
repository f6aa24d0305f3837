-- ===== src/Security/Profile.antt =====
-- infrastructure/peer/security/profile.go, and VerifyPeer of identity.go. A certificate pool is the
-- list of its roots. What the code takes from package net is a parameter, as is the certificate parser,
-- which gives the texts of the URI SANs.
pub mod Loopback
pub mod Closed
use pluginprotocol.Errors.{GoError, wrap, Result, ok, err}
use pluginprotocol.Errors.Guards.{unless}
use pluginprotocol.Prelude.{
  ℕ, Bool, true, false, ◌&&◌, ◌||◌, not, Option, none, some, List, [], ◌∷◌, ◌==◌, if◌then◌else◌,
  Bytes, bytes_eq, codes,
}
use pluginprotocol.Prelude.Table.{is_some}
use pluginprotocol.Security.Bundle.{RevocationManager}
use pluginprotocol.Security.Crypto.{Certificate, Crypto}
use pluginprotocol.Security.Encoding.{security_error}
use pluginprotocol.Security.Identity.{
  UrlParser, identity, identity_of, is_nil, peer_identity_of, trim_space,
}
use pluginprotocol.Security.Manager.{track_connection, verify_locked}

-- What the code sets of a tls.Config: `roots` are the ClientCAs of a server and the RootCAs of a client,
-- `requires_peer` says that ClientAuth is RequireAndVerifyClientCert, which a client leaves unset, `min_version` is a tls.VersionTLS* constant, and the check of
-- VerifyConnection is that of the manager, if there is one.
pub record TlsConfig : Type 0 where
  pub certificate : List Bytes
  pub roots : List Bytes
  pub requires_peer : Bool
  pub min_version : ℕ
  pub skips_verify : Bool
  pub verifies_with : Option RevocationManager

pub record Profile : Type 0 where
  pub name : Bytes
  pub is_encrypted : Bool
  pub is_authenticated : Bool
  pub pin : Bytes
  pub server : Option TlsConfig
  pub client : Option TlsConfig
  pub revocation : Option RevocationManager

-- The chain of the certificate in DER, whether it has a private key, and the URI SANs of its Leaf.
pub record Credentials : Type 0 where
  pub identity : Bytes
  pub certificate : List Bytes
  pub has_key : Bool
  pub leaf : Option (List Bytes)
  pub peer_roots : Option (List Bytes)
  pub peer_identity : Bytes
  pub revocation : Option RevocationManager

-- net.SplitHostPort, net.ParseIP with whether the address is a loopback one, and LookupIPAddr.
pub record Network : Type 0 where
  pub split_host_port : Bytes → Option Bytes
  pub parse_ip : Bytes → Option Bool
  pub lookup_addresses : Bytes → Option (List Bool)

abbrev pub version_tls13 : ℕ
version_tls13 = 772

abbrev pub name_mtls : Bytes
name_mtls = codes "mtls"

-- Encrypted, Authenticated and Name; a nil profile is `none`.
abbrev pub encrypted : Option Profile → Bool
encrypted none = false
encrypted (some p) = p.is_encrypted

abbrev pub authenticated : Option Profile → Bool
authenticated none = false
authenticated (some p) = p.is_authenticated

abbrev pub loopback_plaintext : Profile
loopback_plaintext = record {
  name = codes "loopback-plaintext";
  is_encrypted = false;
  is_authenticated = false;
  pin = [];
  server = none;
  client = none;
  revocation = none;
}

-- strings.HasPrefix
unfoldable pub has_prefix : Bytes → Bytes → Bool
has_prefix text [] = true
has_prefix [] (p ∷ ps) = false
has_prefix (b ∷ bs) (p ∷ ps) = let rest = has_prefix bs ps in if b == p then rest else false

abbrev pub error_of {ℓ} : {A : Type ℓ} → Result A → Option GoError
error_of (ok a) = none
error_of (err e) = some e

-- ErrPlaintextNotLoopback
abbrev pub plaintext_not_loopback : GoError
plaintext_not_loopback = security_error "security: plaintext profile requires a loopback endpoint"

-- The roots to verify peers against, or why there are none.
unfoldable pub peer_roots_of : Option (List Bytes) → Option RevocationManager → Result (List Bytes)
peer_roots_of none none =
    err (security_error "security: mTLS requires a trust anchor for its peers")
peer_roots_of (some roots) none = ok roots
peer_roots_of none (some m) = ok m.root_der
peer_roots_of (some roots) (some m) =
    err (security_error "security: use the revocation manager trust pool, not a separate root pool")

abbrev pub mtls_profile : Credentials → List Bytes → Profile
mtls_profile c roots = record {
  name = name_mtls;
  is_encrypted = true;
  is_authenticated = true;
  pin = c.peer_identity;
  server = some (record {
    certificate = c.certificate;
    roots = roots;
    requires_peer = true;
    min_version = version_tls13;
    skips_verify = false;
    verifies_with = c.revocation;
  });
  client = some (record {
    certificate = c.certificate;
    roots = roots;
    requires_peer = false;
    min_version = version_tls13;
    skips_verify = false;
    verifies_with = c.revocation;
  });
  revocation = c.revocation;
}

abbrev pub is_empty_chain : List Bytes → Bool
is_empty_chain [] = true
is_empty_chain (der ∷ ders) = false

module _ (parse : UrlParser) (parse_certificate : Bytes → Result (List Bytes)) where
  abbrev check_leaf : Result (List Bytes) → Option GoError
  check_leaf (err e) = some (wrap (codes "security: cannot parse own certificate") e)
  check_leaf (ok uris) = elim (identity_of parse (some uris)) [
    | ok name ↦ none
    | err e ↦ some (wrap (codes "security: own certificate") e)
  ]

  -- The checks of the endpoint's own names.
  unfoldable pub check_own : Credentials → Option (List Bytes) → List Bytes → Option GoError
  unfolding identity identity_of
  check_own c (some uris) certificate = check_leaf (ok uris)
  check_own c none [] = none
  check_own c none (der ∷ ders) = check_leaf (parse_certificate der)

  -- MTLS from the check of the pin on.
  unfoldable pub mtls_with_roots : Credentials → Result (List Bytes) → Result Profile
  unfolding has_prefix identity check_own
  mtls_with_roots c (err e) = err e
  mtls_with_roots c (ok roots) =
      if not (is_nil c.peer_identity) && not (has_prefix c.peer_identity (codes "spiffe://"))
      then err (security_error "security: mTLS requires a spiffe:// peer identity")
      else unless (error_of (identity parse c.identity))
          (unless (check_own c c.leaf c.certificate) (ok (mtls_profile c roots)))

  unfoldable pub mtls : Credentials → Result Profile
  unfolding trim_space peer_roots_of mtls_with_roots
  mtls c =
      if is_nil (trim_space c.identity)
      then err (security_error "security: mTLS requires an identity")
      else if is_empty_chain c.certificate || not c.has_key
      then err (security_error "security: mTLS requires a certificate")
      else mtls_with_roots c (peer_roots_of c.peer_roots c.revocation)

-- The loop over the resolved addresses.
unfoldable pub all_loopback : List Bool → Option GoError
all_loopback [] = none
all_loopback (true ∷ addresses) = all_loopback addresses
all_loopback (false ∷ addresses) =
    some (wrap (codes "resolves off-loopback") plaintext_not_loopback)

abbrev pub check_resolved : Option (List Bool) → Option GoError
check_resolved none = some (wrap (codes "cannot be resolved") plaintext_not_loopback)
check_resolved (some []) = some (wrap (codes "resolved to no address") plaintext_not_loopback)
check_resolved (some (a ∷ addresses)) = all_loopback (a ∷ addresses)

abbrev pub check_host : Network → Bytes → Option GoError
check_host network [] = some (wrap [] plaintext_not_loopback)
check_host network (b ∷ bs) = elim (network.parse_ip (b ∷ bs)) [
  | some true ↦ none
  | some false ↦ some (wrap [] plaintext_not_loopback)
  | none ↦ check_resolved (network.lookup_addresses (b ∷ bs))
]

abbrev host_of : Option Bytes → Bytes → Bytes
host_of none endpoint = endpoint
host_of (some host) endpoint = host

unfoldable pub require_loopback : Network → Bytes → Option GoError
unfolding all_loopback
require_loopback network endpoint =
    check_host network (host_of (network.split_host_port endpoint) endpoint)

-- RequireEncryptedEndpointContext
unfoldable pub require_encrypted_endpoint : Network → Option Profile → Bytes → Option GoError
unfolding require_loopback
require_encrypted_endpoint network none endpoint = some (security_error "security: no profile")
require_encrypted_endpoint network (some p) endpoint =
    if p.is_encrypted then none else require_loopback network endpoint

abbrev pub pin_of : Option Profile → Bytes
pin_of none = []
pin_of (some p) = p.pin

abbrev pub pinned : Bytes → Result Bytes → Result Bytes
pinned pin (err e) = err e
pinned pin (ok uri) =
    if not (is_nil pin) && not (bytes_eq uri pin)
    then err (security_error "security: peer is not the expected identity")
    else ok uri

-- VerifyPeer, on the certificates that the peer presented.
unfoldable pub verify_peer : UrlParser → Option Profile → List (List Bytes) → Result Bytes
unfolding peer_identity_of
verify_peer parse profile certificates =
    pinned (pin_of profile) (peer_identity_of parse certificates)
