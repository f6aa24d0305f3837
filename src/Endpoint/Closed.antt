-- ===== src/Endpoint/Closed.antt =====
-- presentation/peer/endpoint.go: buildCarrier has no way from a secure configuration to an insecure
-- carrier.
use pluginprotocol.Endpoint.{
  Carrier, Kind, tcp, quic, unix, pipe, NetworkConfig, SecurityConfig, build_carrier, carrier_of,
  credentials_of, has_chain, local_identity, named, new_pipe, new_quic, new_tcp, new_unix,
  resolve_profile, select_carrier, with_profile,
}
use pluginprotocol.Errors.{GoError, Result, ok, err}
use pluginprotocol.Errors.Guards.{guard_ok, unless_ok}
use pluginprotocol.Limits.{Limits}
use pluginprotocol.Prelude.{
  ◌≡◌, ◌⊎◌, ◌∙◌, refl, ap, sym, subst, inl, inr, Bool, true, false, ◌||◌, not, Option, none, some,
  List, [], Bytes, bytes_eq, codes, ℤ, pos, if◌then◌else◌, if_cases, arith,
}
use pluginprotocol.Prelude.Table.{is_some}
use pluginprotocol.Security.Encoding.{security_error}
use pluginprotocol.Security.Identity.Absolute.{IsAbsoluteUri, identity-IsAbsoluteUri}
use pluginprotocol.Security.Identity.{UrlParser, identity, is_nil, trim_space}
use pluginprotocol.Security.Profile.Loopback.{IsLoopback, require_loopback-IsLoopback}
use pluginprotocol.Security.Profile.{
  Profile, Network, error_of, loopback_plaintext, require_encrypted_endpoint,
}
use pluginprotocol.Security.Profile.Closed.{IsMutual, mtls-IsMutual}

-- What a carrier that was made has: its profile is encrypted and its local identity an absolute URI,
-- or it is a TCP carrier.
record IsMade (parse : UrlParser) (profile : Profile) (local : Bytes) (carrier : Carrier)
    : Type 0 where
  same_profile : carrier.profile ≡ profile
  same_local : carrier.local ≡ local
  names :
      ((profile.is_encrypted ≡ true) × (uri : Bytes) × (identity parse local ≡ ok uri))
      ⊎ ((profile.is_encrypted ≡ false) × (carrier.kind ≡ tcp))

module _ (parse : UrlParser) (profile : Profile) (local : Bytes) (config : NetworkConfig)
    (limits : Limits) where
  error_of-none : (found : Result Bytes) → error_of found ≡ none → (uri : Bytes) × (found ≡ ok uri)
  error_of-none (ok uri) e = (uri, refl)
  error_of-none (err x) e = absurd cc

  named-IsMade :
      (kind : Kind) (idle : ℤ) (found : Option GoError) {carrier : Carrier}
      → profile.is_encrypted ≡ true
      → error_of (identity parse local) ≡ found
      → named found (ok (carrier_of kind profile local config limits idle)) ≡ ok carrier
      → IsMade parse profile local carrier
  named-IsMade kind idle (some x) e f q = absurd cc
  named-IsMade kind idle none {carrier} e f q =
      let same : carrier_of kind profile local config limits idle ≡ carrier = cc in
      subst (IsMade parse profile local) same (record {
        same_profile = refl;
        same_local = refl;
        names =
            let (uri, found_uri) = error_of-none (identity parse local) f in
            inl (e, uri, found_uri);
      })

  plain-IsMade :
      {carrier : Carrier}
      → profile.is_encrypted ≡ false
      → Path (Result Carrier) (ok (carrier_of tcp profile local config limits (pos 0))) (ok carrier)
      → IsMade parse profile local carrier
  plain-IsMade {carrier} e q =
      let same : carrier_of tcp profile local config limits (pos 0) ≡ carrier = cc in
      subst (IsMade parse profile local) same
        (record { same_profile = refl; same_local = refl; names = inr (e, refl) })

  new_tcp-IsMade :
      {carrier : Carrier}
      → new_tcp parse profile local config limits ≡ ok carrier
      → IsMade parse profile local carrier
  unfolding new_tcp
  new_tcp-IsMade {carrier} q =
      let made = ok (carrier_of tcp profile local config limits (pos 0)) in
      if_cases (λ (r : Result Carrier). r ≡ ok carrier → IsMade parse profile local carrier)
        (not profile.is_encrypted) made
        (if is_nil local
          then err (security_error "tcp: an encrypted carrier requires a local identity")
          else named (error_of (identity parse local)) made)
        (λ e r. plain-IsMade (ground (arith, e)) r)
        (λ e r.
          let (_, checked) = guard_ok (is_nil local) _ _ r in
          named-IsMade tcp (pos 0) (error_of (identity parse local)) (ground (arith, e)) refl
            checked)
        q

  new_quic-IsMade :
      {carrier : Carrier}
      → new_quic parse profile local config limits ≡ ok carrier
      → IsMade parse profile local carrier
  unfolding new_quic
  new_quic-IsMade q =
      let (secure, q₁) =
        guard_ok (not profile.is_encrypted || not profile.is_authenticated) _ _ q in
      let (_, checked) = guard_ok (is_nil local) _ _ q₁ in
      named-IsMade quic (pos 30_000_000_000) (error_of (identity parse local))
        (ground (arith, secure)) refl checked

  new_unix-IsMade :
      {carrier : Carrier}
      → new_unix parse profile local config limits ≡ ok carrier
      → IsMade parse profile local carrier
  unfolding new_unix
  new_unix-IsMade q =
      let (secure, q₁) =
        guard_ok (not profile.is_encrypted || not profile.is_authenticated) _ _ q in
      let (_, q₂) = guard_ok (is_nil local) _ _ q₁ in
      let (_, checked) = guard_ok (is_nil (trim_space config.server_name)) _ _ q₂ in
      named-IsMade unix (pos 0) (error_of (identity parse local)) (ground (arith, secure)) refl
        checked

  new_pipe-IsMade :
      (on_windows : Bool) {carrier : Carrier}
      → new_pipe parse on_windows profile local config limits ≡ ok carrier
      → IsMade parse profile local carrier
  unfolding new_pipe
  new_pipe-IsMade false q = absurd cc
  new_pipe-IsMade true q =
      let (secure, q₁) =
        guard_ok (not profile.is_encrypted || not profile.is_authenticated) _ _ q in
      let (_, checked) = guard_ok (is_nil local || is_nil (trim_space config.server_name)) _ _ q₁ in
      named-IsMade pipe (pos 0) (error_of (identity parse local)) (ground (arith, secure)) refl
        checked

  select_carrier-IsMade :
      (parse_certificate : Bytes → Result (List Bytes)) (network : Network) (on_windows : Bool)
      (c : SecurityConfig) {carrier : Carrier}
      → local_identity profile c ≡ local
      → select_carrier parse parse_certificate network on_windows profile config c limits
        ≡ ok carrier
      → IsMade parse profile local carrier
  unfolding select_carrier
  select_carrier-IsMade parse_certificate network on_windows c {carrier} l q =
      let moved : select_names local ≡ ok carrier =
        subst (λ (x : Bytes). select_names x ≡ ok carrier) l q in
      if_cases Q (bytes_eq config.carrier (codes "tcp")) _ _ (λ e r. new_tcp-IsMade r)
        (λ e.
          if_cases Q (bytes_eq config.carrier (codes "quic")) _ _ (λ e r. new_quic-IsMade r)
            (λ e.
              if_cases Q (bytes_eq config.carrier (codes "unix")) _ _ (λ e r. new_unix-IsMade r)
                (λ e.
                  if_cases Q (bytes_eq config.carrier (codes "pipe")) _ _
                    (λ e r. new_pipe-IsMade on_windows r) (λ e r. absurd cc))))
        moved
    where
      Q : Result Carrier → Type 0
      Q r = r ≡ ok carrier → IsMade parse profile local carrier

      select_names : Bytes → Result Carrier
      select_names x =
          if bytes_eq config.carrier (codes "tcp")
          then new_tcp parse profile x config limits
          else if bytes_eq config.carrier (codes "quic")
          then new_quic parse profile x config limits
          else if bytes_eq config.carrier (codes "unix")
          then new_unix parse profile x config limits
          else if bytes_eq config.carrier (codes "pipe")
          then new_pipe parse on_windows profile x config limits
          else err (security_error "peer: unknown carrier")

module _ (parse : UrlParser) (profile : Profile) (local : Bytes) {carrier : Carrier} where
  made-kind : IsMade parse profile local carrier → profile.is_encrypted ≡ false → carrier.kind ≡ tcp
  made-kind made e = elim made.names [
    | inl (f, uri, found) ↦ absurd (ground (arith, e, f))
    | inr (f, kind) ↦ kind
  ]

  made-uri :
      IsMade parse profile local carrier
      → profile.is_encrypted ≡ true
      → (uri : Bytes) × (identity parse local ≡ ok uri)
  made-uri made e = elim made.names [
    | inl (f, uri, found) ↦ (uri, found)
    | inr (f, kind) ↦ absurd (ground (arith, e, f))
  ]

-- A carrier that was asked for in plain text, and one that was not.
abbrev pub IsPlain : Network → NetworkConfig → SecurityConfig → Carrier → Type 0
IsPlain network config c carrier =
    (c.plaintext_loopback ≡ true)
    × (carrier.profile ≡ loopback_plaintext)
    × (carrier.kind ≡ tcp)
    × IsLoopback network config.endpoint

abbrev pub IsSecure : UrlParser → SecurityConfig → Carrier → Type 0
IsSecure parse c carrier =
    (c.plaintext_loopback ≡ false)
    × IsMutual carrier.profile
    × (carrier.local ≡ c.identity)
    × (uri : Bytes) × IsAbsoluteUri parse c.identity uri

module _ (parse : UrlParser) (parse_certificate : Bytes → Result (List Bytes)) where
  resolve_profile_ok :
      (c : SecurityConfig) {profile : Profile}
      → resolve_profile parse parse_certificate c ≡ ok profile
      → ((c.plaintext_loopback ≡ true) × (loopback_plaintext ≡ profile))
        ⊎ ((c.plaintext_loopback ≡ false) × IsMutual profile)
  unfolding resolve_profile
  resolve_profile_ok c {profile} q =
      if_cases
        (λ (r : Result Profile).
          r ≡ ok profile
          → ((c.plaintext_loopback ≡ true) × (loopback_plaintext ≡ profile))
            ⊎ ((c.plaintext_loopback ≡ false) × IsMutual profile))
        c.plaintext_loopback _ _
        (λ e r.
          let (_, bare) =
            guard_ok
              (not (is_nil c.identity)
                || (has_chain c.certificate || (is_some c.roots || is_some c.revocation)))
              _ _ r in
          let (_, plain) = guard_ok (not (is_nil c.peer_identity)) _ _ bare in inl (e, cc))
        (λ e r.
          let (_, made) = guard_ok (is_nil c.identity) _ _ r in
          inr (e, mtls-IsMutual parse parse_certificate (credentials_of c) made))
        q

  module _ (network : Network) (on_windows : Bool) (config : NetworkConfig) (c : SecurityConfig)
      (limits : Limits) where
    with_profile_closed :
        (resolved : Result Profile) {carrier : Carrier}
        → resolve_profile parse parse_certificate c ≡ resolved
        → with_profile parse parse_certificate network on_windows config c limits resolved
          ≡ ok carrier
        → IsSecure parse c carrier ⊎ IsPlain network config c carrier
    unfolding with_profile require_encrypted_endpoint local_identity
    with_profile_closed (err x) r q = absurd cc
    with_profile_closed (ok profile) {carrier} r q =
        let (allowed, selected) =
          unless_ok (require_encrypted_endpoint network (some profile) config.endpoint) _ q in
        let made =
          select_carrier-IsMade parse profile (local_identity profile c) config limits
            parse_certificate network on_windows c refl selected in
        by_profile allowed made (resolve_profile_ok c r)
      where
        own_identity : profile.is_authenticated ≡ true → local_identity profile c ≡ c.identity
        own_identity e = ap (λ (b : Bool). if not b then [] else c.identity) e

        by_profile :
            require_encrypted_endpoint network (some profile) config.endpoint ≡ none
            → IsMade parse profile (local_identity profile c) carrier
            → ((c.plaintext_loopback ≡ true) × (loopback_plaintext ≡ profile))
              ⊎ ((c.plaintext_loopback ≡ false) × IsMutual profile)
            → IsSecure parse c carrier ⊎ IsPlain network config c carrier
        by_profile allowed made (inl (plain, same)) = inr (
          plain,
          made.same_profile ∙ sym same,
          made-kind parse profile (local_identity profile c) made
              (ap (λ (p : Profile). p.is_encrypted) (sym same)),
          require_loopback-IsLoopback network config.endpoint (
              subst
                (λ (p : Profile).
                  require_encrypted_endpoint network (some p) config.endpoint ≡ none)
                (sym same) allowed),
        )
        by_profile allowed made (inr (secure, both)) =
            let local_same = own_identity both.authenticates in
            let (uri, found) =
              made-uri parse profile (local_identity profile c) made both.encrypts in
            inl (
              secure,
              subst IsMutual (sym made.same_profile) both,
              made.same_local ∙ local_same,
              uri,
              identity-IsAbsoluteUri parse c.identity
                  (ap (identity parse) (sym local_same) ∙ found),
            )

    -- A carrier that buildCarrier returns is one of two. When the configuration does not ask for plain
    -- text, both sides of its profile authenticate each other, and its local identity is that of the
    -- configuration, an absolute URI with a scheme, a host and a path. When it does, the carrier is the
    -- plain TCP one, and the host of the endpoint is a loopback address, or a name that resolves to at
    -- least one address and to loopback addresses only.
    pub build_carrier_closed :
        {carrier : Carrier}
        → build_carrier parse parse_certificate network on_windows config c limits ≡ ok carrier
        → IsSecure parse c carrier ⊎ IsPlain network config c carrier
    unfolding build_carrier
    build_carrier_closed q = with_profile_closed (resolve_profile parse parse_certificate c) refl q
