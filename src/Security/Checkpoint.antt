-- ===== src/Security/Checkpoint.antt =====
-- infrastructure/peer/security/revocation.go: the durable state and its digests.
pub mod Roots
pub mod Tampered
pub mod Names
use pluginprotocol.Errors.{GoError, Result, ok, err}
use pluginprotocol.Prelude.{
  ℕ, ◌≡◌, refl, Bool, true, false, ◌&&◌, ◌||◌, not, Option, none, some, List, [], ◌∷◌, ◌++◌, ◌==◌,
  if◌then◌else◌, Bytes, bytes_eq, ℤ, length,
}
use pluginprotocol.Prelude.Strings.{sort_strings, sort_by}
use pluginprotocol.Prelude.Table.{contains}
use pluginprotocol.Security.Crypto.{Crypto, hex_sha256}
use pluginprotocol.Security.Encoding.{security_error, hex_decode, parse_number, is_negative}

pub record IssuerCheckpoint : Type 0 where
  pub issuer_sha256 : Bytes
  pub crl_number : Bytes
  pub crl_sha256 : Bytes
  pub next_update : ℕ
  pub revoked : List Bytes

pub record CrlCheckpoint : Type 0 where
  pub trust_roots_digest : Bytes
  pub bundle_sha256 : Bytes
  pub issuers : List IssuerCheckpoint

abbrev pub empty_checkpoint : CrlCheckpoint
empty_checkpoint = record { trust_roots_digest = []; bundle_sha256 = []; issuers = [] }

abbrev pub issuer_hashes : List IssuerCheckpoint → List Bytes
issuer_hashes [] = []
issuer_hashes (issuer ∷ issuers) = issuer.issuer_sha256 ∷ issuer_hashes issuers

-- checkpointBundleHash: what is hashed.
unfoldable pub canonical_serials : List Bytes → Bytes
canonical_serials [] = []
canonical_serials (serial ∷ serials) = serial ++ 0 ∷ canonical_serials serials

unfoldable pub canonical_issuers : List IssuerCheckpoint → Bytes
unfolding canonical_serials sort_strings
canonical_issuers [] = []
canonical_issuers (issuer ∷ issuers) =
    issuer.issuer_sha256
    ++ (issuer.crl_sha256
        ++ (canonical_serials (sort_strings issuer.revoked) ++ 255 ∷ canonical_issuers issuers))

unfoldable pub sort_issuers : List IssuerCheckpoint → List IssuerCheckpoint
unfolding sort_by
sort_issuers issuers = sort_by (λ (i : IssuerCheckpoint). i.issuer_sha256) issuers

unfoldable pub checkpoint_bundle_hash : Crypto → CrlCheckpoint → Bytes
unfolding canonical_issuers sort_issuers
checkpoint_bundle_hash crypto checkpoint =
    hex_sha256 crypto (canonical_issuers (sort_issuers checkpoint.issuers))

abbrev pub prepend : Bytes → Result Bytes → Result Bytes
prepend der (err e) = err e
prepend der (ok rest) = ok (der ++ rest)

-- CanonicalTrustRootsDigest: the loop over the sorted roots.
unfoldable pub canonical_roots : List Bytes → Result Bytes
canonical_roots [] = ok []
canonical_roots (der ∷ []) = ok der
canonical_roots (der ∷ next ∷ rest) =
    let others = canonical_roots (next ∷ rest) in
    if bytes_eq next der
    then err (security_error "security: duplicate trust root")
    else prepend der others

abbrev pub digest_of : Crypto → Result Bytes → Result Bytes
digest_of crypto (err e) = err e
digest_of crypto (ok canonical) = ok (hex_sha256 crypto canonical)

unfoldable pub canonical_trust_roots_digest : Crypto → List Bytes → Result Bytes
unfolding canonical_roots sort_strings
canonical_trust_roots_digest crypto [] = err (security_error "security: trust roots are required")
canonical_trust_roots_digest crypto (der ∷ ders) =
    digest_of crypto (canonical_roots (sort_strings (der ∷ ders)))

-- A decoded digest of sha256.Size bytes.
abbrev is_size : Option Bytes → Bool
is_size none = false
is_size (some bytes) = length bytes == 32

unfoldable pub is_digest : Bytes → Bool
unfolding hex_decode
is_digest text = is_size (hex_decode text)

abbrev pub is_natural : Option ℤ → Bool
is_natural none = false
is_natural (some z) = not (is_negative z)

-- The loop over the serials of an issuer, `serials` being those that were seen.
unfoldable pub check_serials : List Bytes → List Bytes → Option GoError
unfolding parse_number contains
check_serials serials [] = none
check_serials serials (value ∷ values) =
    let rest = check_serials (value ∷ serials) values in
    if not (is_natural (parse_number value))
    then some (security_error "security: invalid serial in revocation checkpoint")
    else if contains value serials
    then some (security_error "security: duplicate serial in revocation checkpoint")
    else rest

abbrev pub or_else : Option GoError → Option GoError → Option GoError
or_else none rest = rest
or_else (some e) rest = some e

pub or_else-none : (a b : Option GoError) → or_else a b ≡ none → (a ≡ none) × (b ≡ none)
or_else-none none b e = (refl, e)
or_else-none (some x) b e = absurd cc

-- The loop over the issuers, `seen` being those before.
unfoldable pub check_issuers : List Bytes → List IssuerCheckpoint → Option GoError
unfolding is_digest parse_number check_serials contains
check_issuers seen [] = none
check_issuers seen (issuer ∷ issuers) =
    let rest = check_issuers (issuer.issuer_sha256 ∷ seen) issuers in
    if not (is_digest issuer.issuer_sha256)
      || not (is_digest issuer.crl_sha256)
      || not (is_natural (parse_number issuer.crl_number))
      || issuer.next_update == 0
    then some (security_error "security: invalid issuer state in revocation checkpoint")
    else if contains issuer.issuer_sha256 seen
    then some (security_error "security: duplicate issuer in revocation checkpoint")
    else or_else (check_serials [] issuer.revoked) rest

unfoldable pub check_bundle_hash : Crypto → CrlCheckpoint → Option GoError
unfolding is_digest checkpoint_bundle_hash check_issuers
check_bundle_hash crypto checkpoint =
    if not (is_digest checkpoint.bundle_sha256)
    then some (security_error "security: invalid revocation checkpoint digest")
    else if not (bytes_eq (checkpoint_bundle_hash crypto checkpoint) checkpoint.bundle_sha256)
    then some (security_error "security: invalid revocation checkpoint digest")
    else check_issuers [] checkpoint.issuers

unfoldable pub validate_checkpoint : Crypto → CrlCheckpoint → Option GoError
unfolding check_bundle_hash
validate_checkpoint crypto checkpoint = elim checkpoint.issuers [
  | [] ↦
      if bytes_eq checkpoint.bundle_sha256 []
      then none
      else some (security_error "security: invalid revocation checkpoint")
  | issuer ∷ issuers ↦ check_bundle_hash crypto checkpoint
]
