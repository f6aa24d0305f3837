-- ===== src/Security/Profile/Closed.antt =====
-- infrastructure/peer/security: a profile of MTLS authenticates both sides, and VerifyPeer holds a peer
-- to the pin.
use pluginprotocol.Errors.{Result, ok, err}
use pluginprotocol.Errors.Guards.{guard_ok, unless_ok}
use pluginprotocol.Prelude.{
  ◌≡◌, ◌⊎◌, ◌∙◌, refl, ap, sym, subst, inl, inr, true, false, ◌&&◌, ◌||◌, not, Option, some, List,
  [], ◌∷◌, Bytes, bytes_eq, bytes_eq→eq, codes, arith,
}
use pluginprotocol.Security.Identity.Absolute.{IsAbsoluteUri, identity-IsAbsoluteUri}
use pluginprotocol.Security.Identity.{
  UrlParser, identity, identity_of, is_nil, peer_identity_of, trim_space,
}
use pluginprotocol.Security.Profile.{
  Profile, Credentials, TlsConfig, check_own, error_of, has_prefix, is_empty_chain, mtls,
  mtls_profile, mtls_with_roots, peer_roots_of, pin_of, pinned, verify_peer, version_tls13,
}

-- Either side of a profile presents a certificate and takes no peer that does not verify against the
-- same roots in TLS 1.3, nor one that the profile's revocation manager refuses.
pub record IsMutual (p : Profile) : Type 0 where
  pub encrypts : p.is_encrypted ≡ true
  pub authenticates : p.is_authenticated ≡ true
  pub server : TlsConfig
  pub client : TlsConfig
  pub serves : p.server ≡ some server
  pub dials : p.client ≡ some client
  pub same_roots : server.roots ≡ client.roots
  pub asks_peer : server.requires_peer ≡ true
  pub server_verifies : server.skips_verify ≡ false
  pub client_verifies : client.skips_verify ≡ false
  pub server_version : server.min_version ≡ version_tls13
  pub client_version : client.min_version ≡ version_tls13
  pub server_revokes : server.verifies_with ≡ p.revocation
  pub client_revokes : client.verifies_with ≡ p.revocation

module _ (parse : UrlParser) (parse_certificate : Bytes → Result (List Bytes)) where
  mtls_profile-IsMutual : (c : Credentials) (roots : List Bytes) → IsMutual (mtls_profile c roots)
  mtls_profile-IsMutual c roots = record {
    encrypts = refl;
    authenticates = refl;
    server = _;
    client = _;
    serves = refl;
    dials = refl;
    same_roots = refl;
    asks_peer = refl;
    server_verifies = refl;
    client_verifies = refl;
    server_version = refl;
    client_version = refl;
    server_revokes = refl;
    client_revokes = refl;
  }

  mtls_with_roots-IsMutual :
      (c : Credentials) (roots : Result (List Bytes)) {p : Profile}
      → mtls_with_roots parse parse_certificate c roots ≡ ok p
      → IsMutual p
  unfolding mtls_with_roots
  mtls_with_roots-IsMutual c (err e) q = absurd cc
  mtls_with_roots-IsMutual c (ok roots) {p} q =
      let (_, named) =
        guard_ok
          (not (is_nil c.peer_identity) && not (has_prefix c.peer_identity (codes "spiffe://"))) _ _
          q in
      let (_, own) = unless_ok (error_of (identity parse c.identity)) _ named in
      let (_, made) = unless_ok (check_own parse parse_certificate c c.leaf c.certificate) _ own in
      let same : mtls_profile c roots ≡ p = cc in
      subst IsMutual same (mtls_profile-IsMutual c roots)

  pub mtls-IsMutual :
      (c : Credentials) {p : Profile} → mtls parse parse_certificate c ≡ ok p → IsMutual p
  unfolding mtls
  mtls-IsMutual c q =
      let (_, certified) = guard_ok (is_nil (trim_space c.identity)) _ _ q in
      let (_, rooted) = guard_ok (is_empty_chain c.certificate || not c.has_key) _ _ certified in
      mtls_with_roots-IsMutual c (peer_roots_of c.peer_roots c.revocation) rooted

pinned_ok :
    (pin : Bytes) (found : Result Bytes) {uri : Bytes}
    → pinned pin found ≡ ok uri
    → (found ≡ ok uri) × ((pin ≡ []) ⊎ (uri ≡ pin))
pinned_ok pin (err e) q = absurd cc
pinned_ok pin (ok name) {uri} q =
    let (holds, same) = guard_ok (not (is_nil pin) && not (bytes_eq name pin)) _ _ q in
    (same, held pin holds (ap (λ (r : Result Bytes). r) same))
  where
    held :
        (p : Bytes)
        → (not (is_nil p) && not (bytes_eq name p)) ≡ false
        → Path (Result Bytes) (ok name) (ok uri)
        → (p ≡ []) ⊎ (uri ≡ p)
    held [] h e = inl refl
    held (b ∷ bs) h e =
        let there : bytes_eq name (b ∷ bs) ≡ true = ground (arith, h) in
        let named = bytes_eq→eq name (b ∷ bs) there in
        let moved : name ≡ uri = cc in inr (sym moved ∙ named)

leaf_of :
    (parse : UrlParser) (certificates : List (List Bytes)) {uri : Bytes}
    → peer_identity_of parse certificates ≡ ok uri
    → (name : Bytes) × (others : List (List Bytes)) × (certificates ≡ (name ∷ []) ∷ others)
      × (identity parse name ≡ ok uri)
unfolding peer_identity_of identity_of
leaf_of parse [] q = absurd cc
leaf_of parse ([] ∷ others) q = absurd cc
leaf_of parse ((name ∷ []) ∷ others) q = (name, others, refl, q)
leaf_of parse ((name ∷ other ∷ rest) ∷ others) q = absurd cc

-- A peer that VerifyPeer accepts presented a certificate with one URI SAN, which is the absolute URI
-- that the peer is named by, with a scheme, a host and a path; and when the profile pins an identity, it is that one.
pub verify_peer_ok :
    (parse : UrlParser) (profile : Option Profile) (certificates : List (List Bytes)) {uri : Bytes}
    → verify_peer parse profile certificates ≡ ok uri
    → ((name : Bytes) × (others : List (List Bytes)) × (certificates ≡ (name ∷ []) ∷ others)
        × IsAbsoluteUri parse name uri)
      × ((pin_of profile ≡ []) ⊎ (uri ≡ pin_of profile))
unfolding verify_peer
verify_peer_ok parse profile certificates q =
    let (found, held) = pinned_ok (pin_of profile) (peer_identity_of parse certificates) q in
    let (name, others, alone, accepted) = leaf_of parse certificates found in
    ((name, others, alone, identity-IsAbsoluteUri parse name accepted), held)
