-- ===== src/Endpoint.antt =====
-- presentation/peer/endpoint.go and the constructors of the carriers: what a configuration is turned
-- into before a socket exists. A duration is a ℤ of nanoseconds.
pub mod Closed
mod Tests
use pluginprotocol.Errors.{GoError, wrap, Result, ok, err}
use pluginprotocol.Errors.Guards.{unless}
use pluginprotocol.Limits.{Limits, with_defaults}
use pluginprotocol.Prelude.{
  ℕ, Bool, true, false, ◌&&◌, ◌||◌, not, Option, none, some, List, [], ◌∷◌, if◌then◌else◌, Bytes,
  bytes_eq, codes, ℤ, pos, is_non_positive,
}
use pluginprotocol.Prelude.Table.{is_some}
use pluginprotocol.Security.Bundle.{RevocationManager}
use pluginprotocol.Security.Encoding.{security_error}
use pluginprotocol.Security.Identity.{UrlParser, identity, is_nil, trim_space}
use pluginprotocol.Security.Profile.{
  Profile, Credentials, Network, authenticated, error_of, loopback_plaintext, mtls,
  require_encrypted_endpoint,
}

-- The certificate of the configuration is its chain in DER, its key and its Leaf, as in Credentials.
pub record SecurityConfig : Type 0 where
  pub identity : Bytes
  pub certificate : List Bytes
  pub has_key : Bool
  pub leaf : Option (List Bytes)
  pub roots : Option (List Bytes)
  pub peer_identity : Bytes
  pub revocation : Option RevocationManager
  pub plaintext_loopback : Bool

pub record NetworkConfig : Type 0 where
  pub carrier : Bytes
  pub endpoint : Bytes
  pub server_name : Bytes
  pub keep_alive : ℤ
  pub handshake_timeout : ℤ

-- The carriers, with the Config of each: only QUIC has a MaxIdleTimeout.
pub data Kind : Type 0 where
  tcp quic unix pipe : Kind

pub record Carrier : Type 0 where
  pub kind : Kind
  pub profile : Profile
  pub local : Bytes
  pub server_name : Bytes
  pub limits : Limits
  pub keep_alive : ℤ
  pub handshake_timeout : ℤ
  pub max_idle_timeout : ℤ

abbrev pub credentials_of : SecurityConfig → Credentials
credentials_of c = record {
  identity = c.identity;
  certificate = c.certificate;
  has_key = c.has_key;
  leaf = c.leaf;
  peer_roots = c.roots;
  peer_identity = c.peer_identity;
  revocation = c.revocation;
}

abbrev pub has_chain : List Bytes → Bool
has_chain [] = false
has_chain (der ∷ ders) = true

abbrev timeout_or : ℤ → ℤ → ℤ
timeout_or timeout fallback = if is_non_positive timeout then fallback else timeout

abbrev pub ten_seconds : ℤ
ten_seconds = pos 10_000_000_000

-- The configuration of a carrier as its constructor leaves it.
abbrev pub carrier_of : Kind → Profile → Bytes → NetworkConfig → Limits → ℤ → Carrier
carrier_of kind profile local network limits idle = record {
  kind = kind;
  profile = profile;
  local = local;
  server_name = network.server_name;
  limits = with_defaults limits;
  keep_alive = network.keep_alive;
  handshake_timeout = timeout_or network.handshake_timeout ten_seconds;
  max_idle_timeout = idle;
}

-- A local identity that is checked before the carrier is made.
abbrev pub named : Option GoError → Result Carrier → Result Carrier
named none carrier = carrier
named (some e) carrier = err (wrap (codes "local identity") e)

module _ (parse : UrlParser) where
  -- tcp.New
  unfoldable pub new_tcp : Profile → Bytes → NetworkConfig → Limits → Result Carrier
  unfolding identity with_defaults
  new_tcp profile local network limits =
      let made = ok (carrier_of tcp profile local network limits (pos 0)) in
      if not profile.is_encrypted
      then made
      else if is_nil local
      then err (security_error "tcp: an encrypted carrier requires a local identity")
      else named (error_of (identity parse local)) made

  -- quic.New
  unfoldable pub new_quic : Profile → Bytes → NetworkConfig → Limits → Result Carrier
  unfolding identity with_defaults
  new_quic profile local network limits =
      if not profile.is_encrypted || not profile.is_authenticated
      then err (security_error "quic: the profile is not available on this carrier")
      else if is_nil local
      then err (security_error "quic: a local identity is required")
      else named (error_of (identity parse local))
          (ok (carrier_of quic profile local network limits (pos 30_000_000_000)))

  -- unix.New
  unfoldable pub new_unix : Profile → Bytes → NetworkConfig → Limits → Result Carrier
  unfolding identity with_defaults trim_space
  new_unix profile local network limits =
      if not profile.is_encrypted || not profile.is_authenticated
      then err (security_error "unix: authenticated mTLS is required")
      else if is_nil local
      then err (security_error "unix: a local peer identity is required")
      else if is_nil (trim_space network.server_name)
      then err (security_error "unix: a TLS server name is required")
      else named (error_of (identity parse local))
          (ok (carrier_of unix profile local network limits (pos 0)))

  -- pipe.New on Windows; elsewhere it is ErrUnsupportedPlatform.
  unfoldable pub new_pipe : Bool → Profile → Bytes → NetworkConfig → Limits → Result Carrier
  unfolding identity with_defaults trim_space
  new_pipe false profile local network limits =
      err (security_error "pipe: Windows named pipes require a standalone Windows host")
  new_pipe true profile local network limits =
      if not profile.is_encrypted || not profile.is_authenticated
      then err (security_error "pipe: authenticated mTLS is required")
      else if is_nil local || is_nil (trim_space network.server_name)
      then err (security_error "pipe: local identity and TLS server name are required")
      else named (error_of (identity parse local))
          (ok (carrier_of pipe profile local network limits (pos 0)))

-- resolveProfile
unfoldable pub resolve_profile :
    UrlParser → (Bytes → Result (List Bytes)) → SecurityConfig → Result Profile
unfolding mtls
resolve_profile parse parse_certificate c =
    if c.plaintext_loopback
    then if not (is_nil c.identity)
        || (has_chain c.certificate || (is_some c.roots || is_some c.revocation))
      then err (security_error "peer: the plaintext profile cannot be combined with credentials")
      else if not (is_nil c.peer_identity)
      then err
          (security_error "peer: the plaintext profile cannot pin a peer it does not authenticate")
      else ok loopback_plaintext
    else if is_nil c.identity
    then err (security_error "peer: an encrypted endpoint requires an identity")
    else mtls parse parse_certificate (credentials_of c)

-- localIdentity
unfoldable pub local_identity : Profile → SecurityConfig → Bytes
local_identity profile c = if not profile.is_authenticated then [] else c.identity

module _ (parse : UrlParser) (parse_certificate : Bytes → Result (List Bytes)) (network : Network)
    (on_windows : Bool) where
  -- The switch of buildCarrier.
  unfoldable pub select_carrier : Profile → NetworkConfig → SecurityConfig → Limits → Result Carrier
  unfolding local_identity new_tcp new_quic new_unix new_pipe
  select_carrier profile config c limits =
      let local = local_identity profile c in
      if bytes_eq config.carrier (codes "tcp")
      then new_tcp parse profile local config limits
      else if bytes_eq config.carrier (codes "quic")
      then new_quic parse profile local config limits
      else if bytes_eq config.carrier (codes "unix")
      then new_unix parse profile local config limits
      else if bytes_eq config.carrier (codes "pipe")
      then new_pipe parse on_windows profile local config limits
      else err (security_error "peer: unknown carrier")

  -- buildCarrier once the profile is resolved.
  unfoldable pub with_profile :
      NetworkConfig → SecurityConfig → Limits → Result Profile → Result Carrier
  unfolding require_encrypted_endpoint select_carrier
  with_profile config c limits (err e) = err e
  with_profile config c limits (ok profile) =
      unless (require_encrypted_endpoint network (some profile) config.endpoint)
        (select_carrier profile config c limits)

  unfoldable pub build_carrier : NetworkConfig → SecurityConfig → Limits → Result Carrier
  unfolding resolve_profile with_profile
  build_carrier config c limits =
      with_profile config c limits (resolve_profile parse parse_certificate c)
