-- ===== src/Endpoint/Tests.antt =====
-- Runs of presentation/peer/endpoint.go and infrastructure/peer/security/identity.go, with a parser that
-- takes every text as a SPIFFE URL.
use pluginprotocol.Endpoint.{
  Carrier, NetworkConfig, SecurityConfig, build_carrier, carrier_of, tcp, unix,
}
use pluginprotocol.Endpoint.Closed.{IsPlain, IsSecure, build_carrier_closed}
use pluginprotocol.Errors.{Result, ok, err, foreign}
use pluginprotocol.Limits.{default_limits}
use pluginprotocol.Prelude.{
  ◌≡◌, ◌⊎◌, refl, true, false, none, some, List, [], ◌∷◌, Bytes, bytes_eq, codes, pos,
}
use pluginprotocol.Security.Identity.Absolute.{IsAbsoluteUri}
use pluginprotocol.Security.Identity.{UrlParser, trim_space}
use pluginprotocol.Security.Profile.{Profile, Network, loopback_plaintext, pin_of, verify_peer}
use pluginprotocol.Security.Profile.Closed.{verify_peer_ok}

abbrev parser : UrlParser
parser = λ text. ok (record {
  scheme = codes "spiffe";
  host = codes "example";
  path = codes "/plugin";
  text = text;
})

abbrev own_uris : Bytes → Result (List Bytes)
own_uris = λ der. ok (codes "spiffe://example/plugin" ∷ [])

abbrev network : Network
network = record {
  split_host_port = λ endpoint. some (codes "localhost");
  parse_ip = λ host. none;
  lookup_addresses = λ host. some (true ∷ true ∷ []);
}

abbrev secure : SecurityConfig
secure = record {
  identity = codes "spiffe://example/plugin";
  certificate = (1 ∷ []) ∷ [];
  has_key = true;
  leaf = none;
  roots = some ((2 ∷ []) ∷ []);
  peer_identity = codes "spiffe://example/host";
  revocation = none;
  plaintext_loopback = false;
}

abbrev plain : SecurityConfig
plain = record {
  identity = [];
  certificate = [];
  has_key = false;
  leaf = none;
  roots = none;
  peer_identity = [];
  revocation = none;
  plaintext_loopback = true;
}

abbrev over : Bytes → NetworkConfig
over carrier = record {
  carrier = carrier;
  endpoint = codes "localhost:80";
  server_name = codes "plugin";
  keep_alive = pos 0;
  handshake_timeout = pos 0;
}

trimmed : trim_space (32 ∷ 226 ∷ 128 ∷ 131 ∷ 97 ∷ 32 ∷ 98 ∷ 194 ∷ 160 ∷ 10 ∷ []) ≡ 97 ∷ 32 ∷ 98 ∷ []
unfolding trim_space
trimmed = refl

abbrev carrier_in : Result Carrier → Carrier
carrier_in (ok c) = c
carrier_in (err e) = carrier_of tcp loopback_plaintext [] (over []) default_limits (pos 0)

abbrev secured : Carrier
secured =
    carrier_in
      (build_carrier parser own_uris network false (over (codes "unix")) secure default_limits)

secured_made :
    build_carrier parser own_uris network false (over (codes "unix")) secure default_limits
    ≡ ok secured
unfolding build_carrier bytes_eq
secured_made = refl

secured_kind : secured.kind ≡ unix
unfolding build_carrier bytes_eq
secured_kind = refl

build_carrier_closed_example :
    IsSecure parser secure secured ⊎ IsPlain network (over (codes "unix")) secure secured
build_carrier_closed_example =
    build_carrier_closed parser own_uris network false (over (codes "unix")) secure default_limits
      secured_made

plain_quic :
    build_carrier parser own_uris network false (over (codes "quic")) plain default_limits
    ≡ err (foreign (codes "quic: the profile is not available on this carrier"))
unfolding build_carrier bytes_eq
plain_quic = refl

abbrev host_profile : Profile
host_profile = record loopback_plaintext { pin = codes "spiffe://example/host" }

host_verified :
    verify_peer parser (some host_profile) ((codes "spiffe://example/host" ∷ []) ∷ [])
    ≡ ok (codes "spiffe://example/host")
unfolding verify_peer bytes_eq
host_verified = refl

verify_peer_ok_example :
    ((name : Bytes) × (others : List (List Bytes)) × ((codes "spiffe://example/host" ∷ []) ∷ []
        ≡ (name ∷ []) ∷ others)
      × IsAbsoluteUri parser name (codes "spiffe://example/host"))
    × ((pin_of (some host_profile) ≡ [])
        ⊎ (codes "spiffe://example/host" ≡ pin_of (some host_profile)))
verify_peer_ok_example =
    verify_peer_ok parser (some host_profile) ((codes "spiffe://example/host" ∷ []) ∷ [])
      host_verified
