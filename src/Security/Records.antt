-- ===== src/Security/Records.antt =====
-- infrastructure/peer/security/revocation.go: validateLocked, as far as it reads the records of a
-- bundle. One reading of the clock, `now`, stands for the readings of one call.
use pluginprotocol.Errors.{Result, ok, err}
use pluginprotocol.Prelude.{
  ℕ, ◌+◌, Bool, true, false, ◌&&◌, ◌||◌, not, Option, none, some, List, [], ◌∷◌, ◌++◌, ◌==◌, ltb,
  if◌then◌else◌, Bytes, bytes_eq, ℤ, map,
}
use pluginprotocol.Prelude.Table.{contains, lookup, is_some}
use pluginprotocol.Security.Crypto.{Certificate, Extension, RevokedEntry, Crl, Crypto, hex_sha256}
use pluginprotocol.Security.Encoding.{security_error, decimal, is_negative}

pub record SignedCrl : Type 0 where
  pub issuer_der : Bytes
  pub crl_der : Bytes

pub record RevocationBundle : Type 0 where
  pub trust_roots_digest : Bytes
  pub records : List SignedCrl

-- parsedRecord, with its revoked set as the list of its elements, latest first.
pub record ParsedRecord : Type 0 where
  pub crl_number : ℤ
  pub next_update : ℕ
  pub issuer_hash : Bytes
  pub crl_hash : Bytes
  pub revoked : List Bytes

-- ObjectIdentifier.Equal
unfoldable pub same_id : List ℕ → List ℕ → Bool
same_id [] [] = true
same_id [] (y ∷ ys) = false
same_id (x ∷ xs) [] = false
same_id (x ∷ xs) (y ∷ ys) = let rest = same_id xs ys in if x == y then rest else false

-- The loop of the two functions that follow: no critical extension, and only the two that are known.
unfoldable pub only_extensions : List ℕ → List ℕ → List Extension → Bool
unfolding same_id
only_extensions a b [] = true
only_extensions a b (extension ∷ extensions) =
    let rest = only_extensions a b extensions in
    if extension.critical || (not (same_id extension.id a) && not (same_id extension.id b))
    then false
    else rest

-- The CRL number and the authority key ID.
abbrev pub supported_crl_extensions : List Extension → Bool
supported_crl_extensions = only_extensions (2 ∷ 5 ∷ 29 ∷ 20 ∷ []) (2 ∷ 5 ∷ 29 ∷ 35 ∷ [])

-- The reason code and the invalidity date.
abbrev pub supported_revoked_entry_extensions : List Extension → Bool
supported_revoked_entry_extensions = only_extensions (2 ∷ 5 ∷ 29 ∷ 21 ∷ []) (2 ∷ 5 ∷ 29 ∷ 24 ∷ [])

-- The loop over the entries of a CRL, `revoked` being the serials before.
unfoldable pub revoked_serials : List Bytes → List RevokedEntry → Result (List Bytes)
unfolding only_extensions decimal contains
revoked_serials revoked [] = ok revoked
revoked_serials revoked (entry ∷ entries) =
    if not (supported_revoked_entry_extensions entry.extensions)
    then err (security_error "security: unsupported revoked-certificate entry extension")
    else elim entry.serial [
      | none ↦ err (security_error "security: CRL contains an invalid revoked serial")
      | some serial ↦
          let rest = revoked_serials (decimal serial ∷ revoked) entries in
          if is_negative serial
          then err (security_error "security: CRL contains an invalid revoked serial")
          else if contains (decimal serial) revoked
          then err (security_error "security: CRL contains a duplicate revoked serial")
          else rest
    ]

abbrev minute : ℕ
minute = 60_000_000_000

-- The conditions on a parsed CRL, of its number `number` and its issuer.
unfoldable pub is_current : Crypto → ℕ → SignedCrl → Certificate → Crl → ℤ → Bool
is_current crypto now signed issuer crl number =
    crypto.signed_by signed.crl_der issuer
    && bytes_eq crl.issuer issuer.subject
    && not (is_negative number)
    && ltb now crl.next_update
    && not (ltb (now + minute) crl.this_update)
    && not (ltb crl.next_update crl.this_update)

abbrev pub keys_differ : Bytes → Bytes → Bool
keys_differ [] authority = false
keys_differ (b ∷ bs) [] = false
keys_differ (b ∷ bs) (c ∷ cs) = not (bytes_eq (b ∷ bs) (c ∷ cs))

abbrev pub parsed_of :
    Crypto → SignedCrl → Bytes → Crl → ℤ → Result (List Bytes) → Result ParsedRecord
parsed_of crypto signed issuer_hash crl number (err e) = err e
parsed_of crypto signed issuer_hash crl number (ok revoked) = ok (record {
  crl_number = number;
  next_update = crl.next_update;
  issuer_hash = issuer_hash;
  crl_hash = hex_sha256 crypto signed.crl_der;
  revoked = revoked;
})

-- A record of the bundle whose CRL was parsed, from the checks of the CRL on; `seen` are the
-- issuers of the records before.
unfoldable pub check_crl :
    Crypto → ℕ → List Bytes → SignedCrl → Certificate → Crl → ℤ → Result ParsedRecord
unfolding is_current only_extensions revoked_serials contains
check_crl crypto now seen signed issuer crl number =
    let issuer_hash = hex_sha256 crypto signed.issuer_der in
    if not (is_current crypto now signed issuer crl number)
    then err (security_error "security: invalid or expired signed CRL")
    else if keys_differ issuer.subject_key_id crl.authority_key_id
    then err (security_error "security: CRL authority key does not match issuer")
    else if not (supported_crl_extensions crl.extensions)
    then err (security_error "security: unsupported CRL extension")
    else if contains issuer_hash seen
    then err (security_error "security: duplicate CRL issuer")
    else parsed_of crypto signed issuer_hash crl number (revoked_serials [] crl.entries)

abbrev pub with_number :
    Crypto → ℕ → List Bytes → SignedCrl → Certificate → Crl → Option ℤ → Result ParsedRecord
with_number crypto now seen signed issuer crl none =
    err (security_error "security: invalid or expired signed CRL")
with_number crypto now seen signed issuer crl (some number) =
    check_crl crypto now seen signed issuer crl number

-- ParseRevocationList of the record.
abbrev pub with_crl :
    Crypto → ℕ → List Bytes → SignedCrl → Certificate → Option Crl → Result ParsedRecord
with_crl crypto now seen signed issuer none =
    err (security_error "security: invalid or expired signed CRL")
with_crl crypto now seen signed issuer (some crl) =
    with_number crypto now seen signed issuer crl crl.number

-- The first loop: the issuers' certificates, under the digests of their DER.
abbrev pub Issuers : Type 0
Issuers = List (Bytes × Certificate)

abbrev pub certificates_of : Issuers → List Certificate
certificates_of issuers = map (λ (i : Bytes × Certificate). i.1) issuers

unfoldable pub is_exact_ca : Certificate → Bytes → Bool
is_exact_ca certificate der = certificate.is_ca && bytes_eq certificate.raw der

unfoldable pub collect_issuers : Crypto → Issuers → List SignedCrl → Result Issuers
unfolding is_exact_ca lookup
collect_issuers crypto issuers [] = ok issuers
collect_issuers crypto issuers (signed ∷ records) =
    elim (crypto.parse_certificate signed.issuer_der) [
      | none ↦ err (security_error "security: invalid CRL issuer certificate")
      | some certificate ↦
          let hash = hex_sha256 crypto signed.issuer_der in
          let rest = collect_issuers crypto (issuers ++ (hash, certificate) ∷ []) records in
          if not (is_exact_ca certificate signed.issuer_der)
          then err (security_error "security: invalid CRL issuer certificate")
          else if is_some (lookup hash issuers)
          then err (security_error "security: duplicate CRL issuer")
          else rest
    ]

-- The loop over the records: each one's issuer is trusted, and its CRL is valid.
unfoldable pub check_record :
    Crypto → List Bytes → ℕ → Issuers → List Bytes → SignedCrl → Result ParsedRecord
unfolding lookup check_crl
check_record crypto roots now issuers seen signed =
    elim (lookup (hex_sha256 crypto signed.issuer_der) issuers) [
      | none ↦ err (security_error "security: CRL issuer is not trusted")
      | some certificate ↦
          if crypto.chains_to roots (certificates_of issuers) now certificate
          then with_crl crypto now seen signed certificate (crypto.parse_crl signed.crl_der)
          else err (security_error "security: CRL issuer is not trusted")
    ]

abbrev pub cons_record :
    Result ParsedRecord → Result (List ParsedRecord) → Result (List ParsedRecord)
cons_record (err e) rest = err e
cons_record (ok parsed) (err e) = err e
cons_record (ok parsed) (ok rest) = ok (parsed ∷ rest)

unfoldable pub check_records :
    Crypto → List Bytes → ℕ → Issuers → List Bytes → List SignedCrl → Result (List ParsedRecord)
unfolding check_record
check_records crypto roots now issuers seen [] = ok []
check_records crypto roots now issuers seen (signed ∷ records) =
    cons_record (check_record crypto roots now issuers seen signed)
      (check_records crypto roots now issuers (hex_sha256 crypto signed.issuer_der ∷ seen) records)
