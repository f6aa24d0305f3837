-- ===== src/Security/Bundle/Sound.antt =====
-- infrastructure/peer/security/revocation.go: what validateLocked has made sure of.
use pluginprotocol.Errors.{ok}
use pluginprotocol.Prelude.{ℕ, ◌≡◌, ◌∙◌, ap, sym, true, some, List, [], ◌∷◌, All, Bytes, arith}
use pluginprotocol.Prelude.Strings.{Distinct}
use pluginprotocol.Prelude.Table.{contains}
use pluginprotocol.Security.Bundle.{RevocationManager, issuers_of, covers, validate_locked}
use pluginprotocol.Security.Bundle.Accepted.{IsValid, AllValid, check_records_ok}
use pluginprotocol.Security.Bundle.Genuine.{
  IsGenuine, only_extensions-IsKnown, revoked_serials_ok, revoked_serials-Distinct,
  keys_differ-false, is_current_ok, not_negative,
}
use pluginprotocol.Security.Bundle.Parts.{validate_locked-Parts, next-names, next-digests}
use pluginprotocol.Security.Checkpoint.{CrlCheckpoint, issuer_hashes, checkpoint_bundle_hash}
use pluginprotocol.Security.Crypto.{Certificate, Crypto, hex_sha256}
use pluginprotocol.Security.Records.{
  SignedCrl, RevocationBundle, ParsedRecord, Issuers, certificates_of,
}
use pluginprotocol.Security.Bundle.Collected.{
  parsed_certificates, IsIssuer, AllIssuers, collect_issuers_ok,
}

-- Each record of a bundle is genuine, in order, and was read as it is.
abbrev pub AllGenuine :
    Crypto → List Bytes → List Certificate → ℕ → List SignedCrl → List ParsedRecord → Type 0
AllGenuine crypto roots certificates now [] [] = Unit {0}
AllGenuine crypto roots certificates now [] (p ∷ ps) = ⊥
AllGenuine crypto roots certificates now (s ∷ ss) [] = ⊥
AllGenuine crypto roots certificates now (s ∷ ss) (p ∷ ps) =
    IsGenuine crypto roots certificates now s p × AllGenuine crypto roots certificates now ss ps

module _ (crypto : Crypto) where
  covers-All :
      (seen ders : List Bytes)
      → covers crypto seen ders ≡ true
      → All (λ der. contains (hex_sha256 crypto der) seen ≡ true) ders
  unfolding covers
  covers-All seen [] h = tt
  covers-All seen (der ∷ ders) h = (ground (arith, h), covers-All seen ders (ground (arith, h)))

  IsValid-IsGenuine :
      (roots : List Bytes) (now : ℕ) (issuers : Issuers) (signed : SignedCrl)
      (parsed : ParsedRecord) {certificates : List Certificate}
      → certificates_of issuers ≡ certificates
      → IsIssuer crypto issuers signed
      → IsValid crypto roots now issuers signed parsed
      → IsGenuine crypto roots certificates now signed parsed
  IsValid-IsGenuine roots now issuers signed parsed all found valid =
      let listed = found.listed in
      let known = valid.known in
      let same : valid.issuer ≡ found.certificate = cc in
      let (signature, names, positive, not_expired, not_ahead, ordered) =
        is_current_ok crypto now signed valid.issuer valid.crl parsed.crl_number valid.current in
      let (number, whole) = not_negative parsed.crl_number positive in
      let (entries, serials) = revoked_serials_ok [] valid.crl.entries valid.serials in
      record {
        issuer = valid.issuer;
        crl = valid.crl;
        number = number;
        certificate = found.parsed ∙ ap some (sym same);
        authority = ap (λ (c : Certificate). c.is_ca) same ∙ found.authority;
        exact = ap (λ (c : Certificate). c.raw) same ∙ found.exact;
        chains = rw (← all) valid.trusted;
        readable = valid.readable;
        signature = signature;
        names_issuer = names;
        numbered = valid.numbered ∙ ap some whole;
        not_expired = not_expired;
        not_ahead = not_ahead;
        ordered = ordered;
        keyed =
            keys_differ-false valid.issuer.subject_key_id valid.crl.authority_key_id valid.keyed;
        extensions = only_extensions-IsKnown 20 35 valid.crl.extensions valid.supported;
        entries = entries;
        distinct = (revoked_serials-Distinct [] valid.crl.entries valid.serials).0;
        read_number = whole;
        read_update = valid.update;
        read_serials = λ k. unfold contains in serials k;
        read_issuer = valid.issuer_named;
        read_crl = valid.crl_named;
      }

  AllValid-AllGenuine :
      (roots : List Bytes) (now : ℕ) (issuers : Issuers) (records : List SignedCrl)
      (parsed : List ParsedRecord) {certificates : List Certificate}
      → certificates_of issuers ≡ certificates
      → AllIssuers crypto issuers records
      → AllValid crypto roots now issuers records parsed
      → AllGenuine crypto roots certificates now records parsed
  AllValid-AllGenuine roots now issuers [] [] all found valid = tt
  AllValid-AllGenuine roots now issuers [] (p ∷ ps) all found valid = valid
  AllValid-AllGenuine roots now issuers (s ∷ ss) [] all found valid = valid
  AllValid-AllGenuine roots now issuers (s ∷ ss) (p ∷ ps) all (first, found) (valid, others) = (
    IsValid-IsGenuine roots now issuers s p all first valid,
    AllValid-AllGenuine roots now issuers ss ps all found others,
  )

-- Whatever validateLocked accepts has only genuine records, each for an issuer of its own, with one
-- for each configured root among them: the issuer's certificate is exactly that of the record, a
-- CA's, and chains to a root through the bundle's certificates; the CRL is signed by it, names it,
-- has its key ID if both have one, has a number of zero or more, is neither expired nor dated more
-- than a minute ahead, revokes no serial twice and none below zero, and has no extension, on itself
-- or an entry, that is critical or not known. The checkpoint that it returns is for the manager's
-- roots, has the digest of its own contents, and its issuers are those of the records.
pub validate_locked_sound :
    (crypto : Crypto) (m : RevocationManager) (now : ℕ) (bundle : RevocationBundle)
    {next : CrlCheckpoint}
    → validate_locked crypto m now bundle ≡ ok next
    → (parsed : List ParsedRecord) × AllGenuine crypto m.root_der
        (parsed_certificates crypto bundle.records)
        now
        bundle.records
        parsed
      × Distinct (issuers_of parsed)
      × All (λ der. contains (hex_sha256 crypto der) (issuers_of parsed) ≡ true) m.root_der
      × ((k : Bytes) → contains k (issuer_hashes next.issuers) ≡ contains k (issuers_of parsed))
      × (bundle.trust_roots_digest ≡ m.root_digest)
      × (next.trust_roots_digest ≡ m.root_digest)
      × (next.bundle_sha256 ≡ checkpoint_bundle_hash crypto next)
validate_locked_sound crypto m now bundle {next} e =
    let parts = validate_locked-Parts crypto m now bundle e in
    let (valid, distinct, _) =
      check_records_ok crypto m.root_der now parts.issuers [] bundle.records parts.checked in
    let (issuers, all, _) = collect_issuers_ok crypto [] bundle.records parts.collected in
    let (rooted, hashed) = next-digests crypto m now bundle parts in
    (
      parts.parsed,
      AllValid-AllGenuine crypto m.root_der now parts.issuers bundle.records parts.parsed all
          issuers valid,
      distinct,
      covers-All crypto (issuers_of parts.parsed) m.root_der parts.covered,
      next-names crypto m now bundle parts,
      parts.rooted,
      rooted,
      hashed,
    )
