-- ===== src/Security/Bundle/Accepted.antt =====
-- infrastructure/peer/security/revocation.go: what a bundle that validateLocked accepts has.
use pluginprotocol.Errors.{Result, ok, err}
use pluginprotocol.Prelude.{
  ℕ, ◌≡◌, refl, ap, sym, true, false, ◌&&◌, Option, none, some, List, [], ◌∷◌, Bytes, bytes_eq→eq,
  bytes_eq_refl, ◌∙◌, Bool-cases, Option-cases, inl, inr, ℤ, arith, subst,
}
use pluginprotocol.Prelude.Strings.{Distinct}
use pluginprotocol.Prelude.Table.{contains, lookup}
use pluginprotocol.Security.Bundle.{issuers_of}
use pluginprotocol.Security.Crypto.{Certificate, Crl, Crypto, hex_sha256}
use pluginprotocol.Security.Records.{
  SignedCrl, ParsedRecord, Issuers, certificates_of, is_current, keys_differ,
  supported_crl_extensions, revoked_serials, parsed_of, check_crl, with_number, with_crl,
  check_record, cons_record, check_records,
}

-- A record of a bundle that passed every check, with what was read from it: its issuer is one of the
-- bundle's and chains to a root, and its CRL is signed by that issuer, names it, has a number, and is
-- valid at `now`.
pub record IsValid (crypto : Crypto) (roots : List Bytes) (now : ℕ) (issuers : Issuers)
    (signed : SignedCrl) (parsed : ParsedRecord) : Type 0 where
  pub issuer : Certificate
  pub crl : Crl
  pub known : lookup (hex_sha256 crypto signed.issuer_der) issuers ≡ some issuer
  pub trusted : crypto.chains_to roots (certificates_of issuers) now issuer ≡ true
  pub readable : crypto.parse_crl signed.crl_der ≡ some crl
  pub numbered : crl.number ≡ some parsed.crl_number
  pub current : is_current crypto now signed issuer crl parsed.crl_number ≡ true
  pub keyed : keys_differ issuer.subject_key_id crl.authority_key_id ≡ false
  pub supported : supported_crl_extensions crl.extensions ≡ true
  pub serials : revoked_serials [] crl.entries ≡ ok parsed.revoked
  pub update : parsed.next_update ≡ crl.next_update
  pub issuer_named : parsed.issuer_hash ≡ hex_sha256 crypto signed.issuer_der
  pub crl_named : parsed.crl_hash ≡ hex_sha256 crypto signed.crl_der

module _ (crypto : Crypto) (roots : List Bytes) (now : ℕ) (issuers : Issuers) where
  parsed_of_ok :
      (signed : SignedCrl) (hash : Bytes) (crl : Crl) (number : ℤ) (revoked : Result (List Bytes))
      {parsed : ParsedRecord}
      → parsed_of crypto signed hash crl number revoked ≡ ok parsed
      → (revoked ≡ ok parsed.revoked)
        × (parsed.crl_number ≡ number)
        × (parsed.next_update ≡ crl.next_update)
        × (parsed.issuer_hash ≡ hash)
        × (parsed.crl_hash ≡ hex_sha256 crypto signed.crl_der)
  parsed_of_ok signed hash crl number (err e) q = cc
  parsed_of_ok signed hash crl number (ok serials) q =
      (ground arith, ground arith, ground arith, ground arith, ground arith)

  check_crl_ok :
      (seen : List Bytes) (signed : SignedCrl) (issuer : Certificate) (crl : Crl) (number : ℤ)
      {parsed : ParsedRecord}
      → check_crl crypto now seen signed issuer crl number ≡ ok parsed
      → (is_current crypto now signed issuer crl number ≡ true)
        × (keys_differ issuer.subject_key_id crl.authority_key_id ≡ false)
        × (supported_crl_extensions crl.extensions ≡ true)
        × (contains (hex_sha256 crypto signed.issuer_der) seen ≡ false)
        × (parsed_of crypto signed
              (hex_sha256 crypto signed.issuer_der)
              crl
              number
              (revoked_serials [] crl.entries)
            ≡ ok parsed)
  unfolding check_crl
  check_crl_ok seen signed issuer crl number e =
      (ground arith, ground arith, ground arith, ground arith, ground arith)

  check_crl-IsValid :
      (seen : List Bytes) (signed : SignedCrl) (issuer : Certificate) (crl : Crl) (number : ℤ)
      {parsed : ParsedRecord}
      → lookup (hex_sha256 crypto signed.issuer_der) issuers ≡ some issuer
      → crypto.chains_to roots (certificates_of issuers) now issuer ≡ true
      → crypto.parse_crl signed.crl_der ≡ some crl
      → crl.number ≡ some number
      → check_crl crypto now seen signed issuer crl number ≡ ok parsed
      → IsValid crypto roots now issuers signed parsed
        × (contains (hex_sha256 crypto signed.issuer_der) seen ≡ false)
  check_crl-IsValid seen signed issuer crl number {parsed} known trusted readable numbered e =
      let (current, keyed, supported, fresh, made) = check_crl_ok seen signed issuer crl number e in
      let (serials, same, update, named, crl_named) = parsed_of_ok signed _ crl number _ made in
      (
        record {
          issuer = issuer;
          crl = crl;
          known = known;
          trusted = trusted;
          readable = readable;
          numbered = numbered ∙ ap some (sym same);
          current = ap (is_current crypto now signed issuer crl) same ∙ current;
          keyed = keyed;
          supported = supported;
          serials = serials;
          update = update;
          issuer_named = named;
          crl_named = crl_named;
        },
        fresh,
      )

  with_number-IsValid :
      (seen : List Bytes) (signed : SignedCrl) (issuer : Certificate) (crl : Crl)
      (number : Option ℤ) {parsed : ParsedRecord}
      → lookup (hex_sha256 crypto signed.issuer_der) issuers ≡ some issuer
      → crypto.chains_to roots (certificates_of issuers) now issuer ≡ true
      → crypto.parse_crl signed.crl_der ≡ some crl
      → crl.number ≡ number
      → with_number crypto now seen signed issuer crl number ≡ ok parsed
      → IsValid crypto roots now issuers signed parsed
        × (contains (hex_sha256 crypto signed.issuer_der) seen ≡ false)
  with_number-IsValid seen signed issuer crl none known trusted readable numbered e = cc
  with_number-IsValid seen signed issuer crl (some number) known trusted readable numbered e =
      check_crl-IsValid seen signed issuer crl number known trusted readable numbered e

  with_crl-IsValid :
      (seen : List Bytes) (signed : SignedCrl) (issuer : Certificate) (crl : Option Crl)
      {parsed : ParsedRecord}
      → lookup (hex_sha256 crypto signed.issuer_der) issuers ≡ some issuer
      → crypto.chains_to roots (certificates_of issuers) now issuer ≡ true
      → crypto.parse_crl signed.crl_der ≡ crl
      → with_crl crypto now seen signed issuer crl ≡ ok parsed
      → IsValid crypto roots now issuers signed parsed
        × (contains (hex_sha256 crypto signed.issuer_der) seen ≡ false)
  with_crl-IsValid seen signed issuer none known trusted readable e = cc
  with_crl-IsValid seen signed issuer (some crl) known trusted readable e =
      with_number-IsValid seen signed issuer crl crl.number known trusted readable refl e

  pub check_record-IsValid :
      (seen : List Bytes) (signed : SignedCrl) {parsed : ParsedRecord}
      → check_record crypto roots now issuers seen signed ≡ ok parsed
      → IsValid crypto roots now issuers signed parsed
        × (contains (hex_sha256 crypto signed.issuer_der) seen ≡ false)
  unfolding check_record
  check_record-IsValid seen signed {parsed} e =
      elim (Option-cases (lookup (hex_sha256 crypto signed.issuer_der) issuers)) [
        | inl q ↦ absurd (ground (arith, q))
        | inr (issuer, known) ↦
            elim (Bool-cases (crypto.chains_to roots (certificates_of issuers) now issuer)) [
              | inl trusted ↦
                  with_crl-IsValid seen signed issuer (crypto.parse_crl signed.crl_der) known
                    trusted refl (rw (known, trusted, check_record) at e)
              | inr q ↦ absurd (ground (arith, known, q))
            ]
      ]

-- Each record of a bundle is valid, in order.
abbrev pub AllValid :
    Crypto → List Bytes → ℕ → Issuers → List SignedCrl → List ParsedRecord → Type 0
AllValid crypto roots now issuers [] [] = Unit {0}
AllValid crypto roots now issuers [] (p ∷ ps) = ⊥
AllValid crypto roots now issuers (s ∷ ss) [] = ⊥
AllValid crypto roots now issuers (s ∷ ss) (p ∷ ps) =
    IsValid crypto roots now issuers s p × AllValid crypto roots now issuers ss ps

module _ (crypto : Crypto) (roots : List Bytes) (now : ℕ) (issuers : Issuers) where
  cons_record_ok :
      (seen : List Bytes) (signed : SignedCrl) (records : List SignedCrl)
      (made : Result ParsedRecord) (rest : Result (List ParsedRecord)) {parsed : List ParsedRecord}
      → check_record crypto roots now issuers seen signed ≡ made
      → ((others : List ParsedRecord)
          → rest ≡ ok others
          → AllValid crypto roots now issuers records others
            × Distinct (issuers_of others)
            × ((k : Bytes)
                → (contains k (hex_sha256 crypto signed.issuer_der ∷ seen)
                    && contains k (issuers_of others))
                  ≡ false))
      → cons_record made rest ≡ ok parsed
      → AllValid crypto roots now issuers (signed ∷ records) parsed
        × Distinct (issuers_of parsed)
        × ((k : Bytes) → (contains k seen && contains k (issuers_of parsed)) ≡ false)
  unfolding contains
  cons_record_ok seen signed records (err x) rest m r e = cc
  cons_record_ok seen signed records (ok p) (err x) m r e = cc
  cons_record_ok seen signed records (ok p) (ok others) {parsed} m r e =
      let (valid, distinct, apart) = r others refl in
      let (first, fresh) = check_record-IsValid crypto roots now issuers seen signed m in
      let named = first.issuer_named in
      let hash = hex_sha256 crypto signed.issuer_der in
      let same : (p ∷ others) ≡ parsed = ground arith in
      subst
        (λ (x : List ParsedRecord).
          AllValid crypto roots now issuers (signed ∷ records) x
          × Distinct (issuers_of x)
          × ((k : Bytes) → (contains k seen && contains k (issuers_of x)) ≡ false))
        same
        (
          (first, valid),
          (
            ap (λ (h : Bytes). contains h (issuers_of others)) named
                ∙ ground (arith, apart hash, bytes_eq_refl hash),
            distinct,
          ),
          λ k.
              ground
                (arith, apart k, named, fresh, bytes_eq→eq hash k, bytes_eq→eq p.issuer_hash k),
        )

  -- The loop over the records accepts only valid ones, of distinct issuers.
  pub check_records_ok :
      (seen : List Bytes) (records : List SignedCrl) {parsed : List ParsedRecord}
      → check_records crypto roots now issuers seen records ≡ ok parsed
      → AllValid crypto roots now issuers records parsed
        × Distinct (issuers_of parsed)
        × ((k : Bytes) → (contains k seen && contains k (issuers_of parsed)) ≡ false)
  unfolding check_records contains
  check_records_ok seen [] {parsed} e =
      let same : [] ≡ parsed = ground arith in
      subst
        (λ (x : List ParsedRecord).
          AllValid crypto roots now issuers [] x
          × Distinct (issuers_of x)
          × ((k : Bytes) → (contains k seen && contains k (issuers_of x)) ≡ false))
        same (tt, tt, λ k. ground arith)
  check_records_ok seen (signed ∷ records) e =
      cons_record_ok seen signed records (check_record crypto roots now issuers seen signed)
        (check_records crypto roots now issuers (hex_sha256 crypto signed.issuer_der ∷ seen)
          records)
        refl (λ others q. check_records_ok (hex_sha256 crypto signed.issuer_der ∷ seen) records q) e
