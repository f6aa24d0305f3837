-- ===== src/Security/Checkpoint/Names.antt =====
-- infrastructure/peer/security/revocation.go: the issuers of a checkpoint that validateCheckpoint takes
-- are distinct.
use pluginprotocol.Prelude.{
  ◌≡◌, false, ◌||◌, ◌&&◌, not, none, List, [], ◌∷◌, ◌==◌, Bytes, bytes_eq, bytes_eq_refl,
  bytes_eq→eq, arith,
}
use pluginprotocol.Prelude.Strings.{Distinct}
use pluginprotocol.Prelude.Table.{contains}
use pluginprotocol.Security.Checkpoint.{
  IssuerCheckpoint, CrlCheckpoint, issuer_hashes, check_bundle_hash, check_issuers, check_serials,
  checkpoint_bundle_hash, is_digest, is_natural, or_else-none, validate_checkpoint,
}
use pluginprotocol.Security.Checkpoint.Tampered.{passes}
use pluginprotocol.Security.Crypto.{Crypto}
use pluginprotocol.Security.Encoding.{parse_number, security_error}

check_issuers-Distinct :
    (seen : List Bytes) (issuers : List IssuerCheckpoint)
    → check_issuers seen issuers ≡ none
    → Distinct (issuer_hashes issuers)
      × ((k : Bytes) → (contains k seen && contains k (issuer_hashes issuers)) ≡ false)
unfolding check_issuers contains
check_issuers-Distinct seen [] e = (tt, λ k. ground arith)
check_issuers-Distinct seen (issuer ∷ issuers) e =
    let name = issuer.issuer_sha256 in
    let (_, fresh, others) =
      passes
        (not (is_digest issuer.issuer_sha256)
          || not (is_digest issuer.crl_sha256)
          || not (is_natural (parse_number issuer.crl_number))
          || issuer.next_update == 0)
        (contains name seen)
        (security_error "security: invalid issuer state in revocation checkpoint")
        (security_error "security: duplicate issuer in revocation checkpoint") _ e in
    let (_, rest) = or_else-none (check_serials [] issuer.revoked) _ others in
    let (distinct, apart) = check_issuers-Distinct (name ∷ seen) issuers rest in
    (
      (ground (arith, apart name, bytes_eq_refl name), distinct),
      λ k. ground (arith, apart k, fresh, bytes_eq→eq name k),
    )

checked-Distinct :
    (crypto : Crypto) (digest hash : Bytes) (issuers : List IssuerCheckpoint)
    → validate_checkpoint crypto
        (record { trust_roots_digest = digest; bundle_sha256 = hash; issuers = issuers })
      ≡ none
    → Distinct (issuer_hashes issuers)
unfolding validate_checkpoint check_bundle_hash
checked-Distinct crypto digest hash [] e = tt
checked-Distinct crypto digest hash (issuer ∷ issuers) e =
    let c : CrlCheckpoint = record {
      trust_roots_digest = digest;
      bundle_sha256 = hash;
      issuers = issuer ∷ issuers;
    } in
    let (_, _, checked) =
      passes (not (is_digest hash)) (not (bytes_eq (checkpoint_bundle_hash crypto c) hash))
        (security_error "security: invalid revocation checkpoint digest")
        (security_error "security: invalid revocation checkpoint digest")
        (check_issuers [] (issuer ∷ issuers)) e in
    let (distinct, _) = check_issuers-Distinct [] (issuer ∷ issuers) checked in distinct

pub validate_checkpoint-Distinct :
    (crypto : Crypto) (c : CrlCheckpoint)
    → validate_checkpoint crypto c ≡ none
    → Distinct (issuer_hashes c.issuers)
validate_checkpoint-Distinct crypto c e =
    checked-Distinct crypto c.trust_roots_digest c.bundle_sha256 c.issuers e
