-- ===== src/Security/Checkpoint/Tampered.antt =====
-- infrastructure/peer/security/revocation.go: what the digest of a checkpoint does not cover.
use pluginprotocol.Errors.{GoError}
use pluginprotocol.Prelude.{
  ℕ, ◌<◌, ◌≡◌, ◌∙◌, refl, ap, inl, inr, Bool, true, false, ◌||◌, not, Option, none, some, List, [],
  ◌∷◌, ◌==◌, map, if◌then◌else◌, Bytes, bytes_eq, bytes_lt, Bool-cases, arith,
}
use pluginprotocol.Prelude.Strings.{sort_by, insert_by}
use pluginprotocol.Security.Checkpoint.{
  IssuerCheckpoint, CrlCheckpoint, canonical_issuers, check_bundle_hash, check_issuers,
  check_serials, checkpoint_bundle_hash, is_digest, is_natural, or_else-none, sort_issuers,
  validate_checkpoint,
}
use pluginprotocol.Security.Crypto.{Crypto, hex_sha256}
use pluginprotocol.Security.Encoding.{parse_number, security_error}

pub passes :
    (a b : Bool) (x y : GoError) (r : Option GoError)
    → (if a then some x else if b then some y else r) ≡ none
    → (a ≡ false) × (b ≡ false) × (r ≡ none)
passes true b x y r e = absurd cc
passes false true x y r e = absurd cc
passes false false x y r e = (refl, refl, e)

still_valid :
    (a b c d : Bool) (u v : ℕ)
    → (not a || not b || not c || u == 0) ≡ false
    → d ≡ true
    → 0 < v
    → (not a || not b || not d || v == 0) ≡ false
still_valid a b c d u v e f g = ground arith

module _ (number : IssuerCheckpoint → Bytes) (update : IssuerCheckpoint → ℕ) where
  -- An issuer's state with another CRL number and another expiry.
  abbrev pub retouched : IssuerCheckpoint → IssuerCheckpoint
  retouched issuer = record issuer { crl_number = number issuer; next_update = update issuer }

  abbrev pub retouched_checkpoint : CrlCheckpoint → CrlCheckpoint
  retouched_checkpoint c = record c { issuers = map retouched c.issuers }

  insert_by-retouched :
      (issuer : IssuerCheckpoint) (issuers : List IssuerCheckpoint)
      → insert_by
          (λ (i : IssuerCheckpoint). i.issuer_sha256)
          (retouched issuer)
          (map retouched issuers)
        ≡ map retouched (insert_by (λ (i : IssuerCheckpoint). i.issuer_sha256) issuer issuers)
  unfolding insert_by
  insert_by-retouched issuer [] = refl
  insert_by-retouched issuer (i ∷ issuers) =
      elim (Bool-cases (bytes_lt issuer.issuer_sha256 i.issuer_sha256)) [
        | inl before ↦ rw before refl
        | inr behind ↦ rw behind (ap (◌∷◌ (retouched i)) (insert_by-retouched issuer issuers))
      ]

  sort_issuers-retouched :
      (issuers : List IssuerCheckpoint)
      → sort_issuers (map retouched issuers) ≡ map retouched (sort_issuers issuers)
  unfolding sort_issuers sort_by
  sort_issuers-retouched [] = refl
  sort_issuers-retouched (issuer ∷ issuers) =
      ap (insert_by (λ (i : IssuerCheckpoint). i.issuer_sha256) (retouched issuer))
        (sort_issuers-retouched issuers)
      ∙ insert_by-retouched issuer (sort_issuers issuers)

  canonical_issuers-retouched :
      (issuers : List IssuerCheckpoint)
      → canonical_issuers (map retouched issuers) ≡ canonical_issuers issuers
  unfolding canonical_issuers
  canonical_issuers-retouched [] = refl
  canonical_issuers-retouched (issuer ∷ issuers) = rw (canonical_issuers-retouched issuers)

  hash-retouched :
      (crypto : Crypto) (c : CrlCheckpoint)
      → checkpoint_bundle_hash crypto (retouched_checkpoint c) ≡ checkpoint_bundle_hash crypto c
  unfolding checkpoint_bundle_hash
  hash-retouched crypto c = ap (hex_sha256 crypto) (
      ap canonical_issuers (sort_issuers-retouched c.issuers)
      ∙ canonical_issuers-retouched (sort_issuers c.issuers))

  module _ (natural : (i : IssuerCheckpoint) → is_natural (parse_number (number i)) ≡ true)
      (positive : (i : IssuerCheckpoint) → 0 < update i) where
    check_issuers-retouched :
        (seen : List Bytes) (issuers : List IssuerCheckpoint)
        → check_issuers seen issuers ≡ none
        → check_issuers seen (map retouched issuers) ≡ none
    unfolding check_issuers
    check_issuers-retouched seen [] e = refl
    check_issuers-retouched seen (issuer ∷ issuers) e =
        let (state, fresh, others) = passes _ _ _ _ _ e in
        let (serials, rest) = or_else-none (check_serials [] issuer.revoked) _ others in
        rw
          (
            still_valid (is_digest issuer.issuer_sha256) (is_digest issuer.crl_sha256)
                (is_natural (parse_number issuer.crl_number))
                (is_natural (parse_number (number issuer))) issuer.next_update (update issuer) state
                (natural issuer) (positive issuer),
            fresh,
            serials,
          )
          (check_issuers-retouched (issuer.issuer_sha256 ∷ seen) issuers rest)

    abbrev checkpoint_of : Bytes → Bytes → List IssuerCheckpoint → CrlCheckpoint
    checkpoint_of digest hash issuers = record {
      trust_roots_digest = digest;
      bundle_sha256 = hash;
      issuers = issuers;
    }

    check_bundle_hash-retouched :
        (crypto : Crypto) (c : CrlCheckpoint)
        → check_bundle_hash crypto c ≡ none
        → check_bundle_hash crypto (retouched_checkpoint c) ≡ none
    unfolding check_bundle_hash
    check_bundle_hash-retouched crypto c e =
        let (digest, hash, issuers) =
          passes (not (is_digest c.bundle_sha256))
            (not (bytes_eq (checkpoint_bundle_hash crypto c) c.bundle_sha256))
            (security_error "security: invalid revocation checkpoint digest")
            (security_error "security: invalid revocation checkpoint digest")
            (check_issuers [] c.issuers) e in
        rw (digest, hash-retouched crypto c, hash) (check_issuers-retouched [] c.issuers issuers)

    validate-retouched :
        (crypto : Crypto) (digest hash : Bytes) (issuers : List IssuerCheckpoint)
        → validate_checkpoint crypto (checkpoint_of digest hash issuers) ≡ none
        → validate_checkpoint crypto (checkpoint_of digest hash (map retouched issuers)) ≡ none
    unfolding validate_checkpoint
    validate-retouched crypto digest hash [] e = e
    validate-retouched crypto digest hash (issuer ∷ issuers) e =
        check_bundle_hash-retouched crypto (checkpoint_of digest hash (issuer ∷ issuers)) e

    -- A checkpoint that validateCheckpoint takes is taken as well when the CRL number of any issuer is
    -- replaced with any natural number and its expiry with any time but the zero time: the digest
    -- covers neither.
    pub validate_checkpoint-retouched :
        (crypto : Crypto) (c : CrlCheckpoint)
        → validate_checkpoint crypto c ≡ none
        → validate_checkpoint crypto (retouched_checkpoint c) ≡ none
    validate_checkpoint-retouched crypto c e =
        validate-retouched crypto c.trust_roots_digest c.bundle_sha256 c.issuers e
