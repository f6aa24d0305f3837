-- ===== src/Security/Bundle/Collected.antt =====
-- infrastructure/peer/security/revocation.go: the first loop of validateLocked, which collects the
-- issuers of a bundle.
use mathlib.Core.List.{append-nil}
use pluginprotocol.Errors.{ok}
use pluginprotocol.Prelude.{
  ◌≡◌, ◌∙◌, refl, ap, sym, inl, inr, true, false, none, some, List, [], ◌∷◌, ◌++◌, Bytes, bytes_eq,
  bytes_eq→eq, bytes_eq_refl, arith, Option-cases,
}
use pluginprotocol.Prelude.Table.{lookup, is_some}
use pluginprotocol.Security.Crypto.{Certificate, Crypto, hex_sha256}
use pluginprotocol.Security.Records.{
  SignedCrl, Issuers, certificates_of, collect_issuers, is_exact_ca,
}

-- The certificates of a bundle's issuers, in order.
abbrev pub parsed_certificates : Crypto → List SignedCrl → List Certificate
parsed_certificates crypto [] = []
parsed_certificates crypto (signed ∷ records) = elim (crypto.parse_certificate signed.issuer_der) [
  | none ↦ parsed_certificates crypto records
  | some certificate ↦ certificate ∷ parsed_certificates crypto records
]

module _ (crypto : Crypto) where
  -- What the first loop found out of a record.
  pub record IsIssuer (issuers : Issuers) (signed : SignedCrl) : Type 0 where
    pub certificate : Certificate
    pub parsed : crypto.parse_certificate signed.issuer_der ≡ some certificate
    pub authority : certificate.is_ca ≡ true
    pub exact : certificate.raw ≡ signed.issuer_der
    pub listed : lookup (hex_sha256 crypto signed.issuer_der) issuers ≡ some certificate

  abbrev pub AllIssuers : Issuers → List SignedCrl → Type 0
  AllIssuers issuers [] = Unit {0}
  AllIssuers issuers (s ∷ ss) = IsIssuer issuers s × AllIssuers issuers ss

  lookup-append :
      (k : Bytes) (front back : Issuers) {v : Certificate}
      → lookup k front ≡ some v
      → lookup k (front ++ back) ≡ some v
  unfolding lookup
  lookup-append k [] back q = absurd cc
  lookup-append k ((j, w) ∷ front) back {v} q =
      let step = lookup-append k front back {v = v} in ground (arith, step)

  lookup-append_last :
      (k : Bytes) (front : Issuers) (v : Certificate)
      → is_some (lookup k front) ≡ false
      → lookup k (front ++ (k, v) ∷ []) ≡ some v
  unfolding lookup
  lookup-append_last k [] v q = ground (arith, bytes_eq_refl k)
  lookup-append_last k ((j, w) ∷ front) v q = ground (arith, lookup-append_last k front v)

  collect_issuers_next :
      (issuers : Issuers) (signed : SignedCrl) (records : List SignedCrl) {all : Issuers}
      → collect_issuers crypto issuers (signed ∷ records) ≡ ok all
      → (certificate : Certificate) × (crypto.parse_certificate signed.issuer_der
          ≡ some certificate)
        × (certificate.is_ca ≡ true)
        × (bytes_eq certificate.raw signed.issuer_der ≡ true)
        × (is_some (lookup (hex_sha256 crypto signed.issuer_der) issuers) ≡ false)
        × (collect_issuers crypto
              (issuers ++ (hex_sha256 crypto signed.issuer_der, certificate) ∷ [])
              records
            ≡ ok all)
  unfolding collect_issuers is_exact_ca
  collect_issuers_next issuers signed records q =
      elim (Option-cases (crypto.parse_certificate signed.issuer_der)) [
        | inl p ↦ absurd (ground (arith, p, q))
        | inr (certificate, p) ↦ (
          certificate,
          p,
          ground (arith, p, q),
          ground (arith, p, q),
          ground (arith, p, q),
          ground (arith, p, q),
        )
      ]

  certificates_of-append :
      (front : Issuers) (k : Bytes) (v : Certificate) (rest : List Certificate)
      → certificates_of (front ++ (k, v) ∷ []) ++ rest ≡ certificates_of front ++ v ∷ rest
  certificates_of-append [] k v rest = refl
  certificates_of-append ((j, w) ∷ front) k v rest =
      ap (λ (x : List Certificate). w ∷ x) (certificates_of-append front k v rest)

  pub collect_issuers_ok :
      (before : Issuers) (records : List SignedCrl) {issuers : Issuers}
      → collect_issuers crypto before records ≡ ok issuers
      → AllIssuers issuers records
        × (certificates_of issuers ≡ certificates_of before ++ parsed_certificates crypto records)
        × ((k : Bytes) (v : Certificate) → lookup k before ≡ some v → lookup k issuers ≡ some v)
  unfolding collect_issuers
  collect_issuers_ok before [] {issuers} q =
      let same : before ≡ issuers = cc in
      (
        tt,
        ap certificates_of (sym same) ∙ sym (append-nil (certificates_of before)),
        λ k v h. ap (lookup k) (sym same) ∙ h,
      )
  collect_issuers_ok before (signed ∷ records) q =
      let hash = hex_sha256 crypto signed.issuer_der in
      let (certificate, parsed, authority, exact, fresh, rest) =
        collect_issuers_next before signed records q in
      let (others, all, keeps) =
        collect_issuers_ok (before ++ (hash, certificate) ∷ []) records rest in
      (
        (
          record {
            certificate = certificate;
            parsed = parsed;
            authority = authority;
            exact = bytes_eq→eq certificate.raw signed.issuer_der exact;
            listed = keeps hash certificate (lookup-append_last hash before certificate fresh);
          },
          others,
        ),
        rw (parsed, parsed_certificates)
            (all
              ∙ certificates_of-append before hash certificate
                  (parsed_certificates crypto records)),
        λ k v h. keeps k v (lookup-append k before ((hash, certificate) ∷ []) h),
      )
