-- ===== src/Security/Bundle/Genuine.antt =====
-- infrastructure/peer/security/revocation.go: what the record of an issuer has to be, read off the
-- certificate and the CRL themselves.
use pluginprotocol.Errors.{ok}
use pluginprotocol.Prelude.{
  ℕ, ◌+◌, ◌≤◌, ◌<◌, ◌≡◌, ◌⊎◌, inl, inr, refl, true, false, ◌&&◌, ◌||◌, not, none, some, List, [],
  ◌∷◌, Bytes, bytes_eq, bytes_eq→eq, bytes_eq_refl, ℤ, pos, negsuc, All, arith, Bool-cases,
  Option-cases,
}
use pluginprotocol.Prelude.Strings.{Distinct}
use pluginprotocol.Prelude.Table.{contains}
use pluginprotocol.Security.Crypto.{Certificate, Crl, Crypto, Extension, RevokedEntry, hex_sha256}
use pluginprotocol.Security.Encoding.{decimal, is_negative}
use pluginprotocol.Security.Records.{
  SignedCrl, ParsedRecord, same_id, only_extensions, revoked_serials,
  supported_revoked_entry_extensions, is_current, keys_differ,
}

-- An extension that is not critical, and is the one or the other of those under 2.5.29.
abbrev pub IsKnown : ℕ → ℕ → Extension → Type 0
IsKnown a b x = (x.critical ≡ false) × ((x.id ≡ 2 ∷ 5 ∷ 29 ∷ a ∷ []) ⊎ (x.id ≡ 2 ∷ 5 ∷ 29 ∷ b ∷ []))

-- An entry with a serial that is not negative, and at most a reason code and an invalidity date.
abbrev pub IsEntry : RevokedEntry → Type 0
IsEntry entry = (n : ℕ) × (entry.serial ≡ some (pos n)) × All (IsKnown 21 24) entry.extensions

-- The serials of the entries, in decimal.
abbrev pub serials_of : List RevokedEntry → List Bytes
serials_of [] = []
serials_of (entry ∷ entries) = elim entry.serial [
  | none ↦ serials_of entries
  | some serial ↦ decimal serial ∷ serials_of entries
]

-- The certificate is exactly the issuer's of the record, a CA's, and chains to a root through the
-- intermediates; the CRL is signed by it and names it, is neither expired nor dated more than a minute
-- ahead, and has a number and no extension that is not known. What was read of it is the rest.
pub record IsGenuine (crypto : Crypto) (roots : List Bytes) (intermediates : List Certificate)
    (now : ℕ) (signed : SignedCrl) (parsed : ParsedRecord) : Type 0 where
  pub issuer : Certificate
  pub crl : Crl
  pub number : ℕ
  pub certificate : crypto.parse_certificate signed.issuer_der ≡ some issuer
  pub authority : issuer.is_ca ≡ true
  pub exact : issuer.raw ≡ signed.issuer_der
  pub chains : crypto.chains_to roots intermediates now issuer ≡ true
  pub readable : crypto.parse_crl signed.crl_der ≡ some crl
  pub signature : crypto.signed_by signed.crl_der issuer ≡ true
  pub names_issuer : crl.issuer ≡ issuer.subject
  pub numbered : crl.number ≡ some (pos number)
  pub not_expired : now < crl.next_update
  pub not_ahead : crl.this_update ≤ now + 60_000_000_000
  pub ordered : crl.this_update ≤ crl.next_update
  pub keyed :
      (issuer.subject_key_id ≡ [])
      ⊎ (crl.authority_key_id ≡ [])
      ⊎ (issuer.subject_key_id ≡ crl.authority_key_id)
  pub extensions : All (IsKnown 20 35) crl.extensions
  pub entries : All IsEntry crl.entries
  pub distinct : Distinct (serials_of crl.entries)
  pub read_number : parsed.crl_number ≡ pos number
  pub read_update : parsed.next_update ≡ crl.next_update
  pub read_serials : (k : Bytes) → contains k parsed.revoked ≡ contains k (serials_of crl.entries)
  pub read_issuer : parsed.issuer_hash ≡ hex_sha256 crypto signed.issuer_der
  pub read_crl : parsed.crl_hash ≡ hex_sha256 crypto signed.crl_der

same_id→eq : (a b : List ℕ) → same_id a b ≡ true → a ≡ b
unfolding same_id
same_id→eq [] [] h = refl
same_id→eq [] (y ∷ ys) h = cc
same_id→eq (x ∷ xs) [] h = cc
same_id→eq (x ∷ xs) (y ∷ ys) h = ground (arith, same_id→eq xs ys)

extension-IsKnown :
    (a b : ℕ) (x : Extension)
    → (x.critical
        || (not (same_id x.id (2 ∷ 5 ∷ 29 ∷ a ∷ [])) && not (same_id x.id (2 ∷ 5 ∷ 29 ∷ b ∷ []))))
      ≡ false
    → IsKnown a b x
extension-IsKnown a b x h = elim (Bool-cases (same_id x.id (2 ∷ 5 ∷ 29 ∷ a ∷ []))) [
  | inl q ↦ (ground (arith, h), inl (same_id→eq x.id (2 ∷ 5 ∷ 29 ∷ a ∷ []) q))
  | inr q ↦ (ground (arith, h), inr (same_id→eq x.id (2 ∷ 5 ∷ 29 ∷ b ∷ []) (ground (arith, h, q))))
]

pub only_extensions-IsKnown :
    (a b : ℕ) (xs : List Extension)
    → only_extensions (2 ∷ 5 ∷ 29 ∷ a ∷ []) (2 ∷ 5 ∷ 29 ∷ b ∷ []) xs ≡ true
    → All (IsKnown a b) xs
unfolding only_extensions
only_extensions-IsKnown a b [] h = tt
only_extensions-IsKnown a b (x ∷ xs) h = (
  extension-IsKnown a b x (ground (arith, h)),
  only_extensions-IsKnown a b xs (ground (arith, h)),
)

revoked_serials_next :
    (before : List Bytes) (entry : RevokedEntry) (entries : List RevokedEntry) {after : List Bytes}
    → revoked_serials before (entry ∷ entries) ≡ ok after
    → (n : ℕ) × (entry.serial ≡ some (pos n))
      × (supported_revoked_entry_extensions entry.extensions ≡ true)
      × (contains (decimal (pos n)) before ≡ false)
      × (revoked_serials (decimal (pos n) ∷ before) entries ≡ ok after)
unfolding revoked_serials
revoked_serials_next before entry entries q = elim (Option-cases entry.serial) [
  | inl p ↦ absurd (ground (arith, p, q))
  | inr (negsuc n, p) ↦ absurd (ground (arith, p, q))
  | inr (pos n, p) ↦ (n, p, ground (arith, p, q), ground (arith, p, q), ground (arith, p, q))
]

pub revoked_serials_ok :
    (before : List Bytes) (entries : List RevokedEntry) {after : List Bytes}
    → revoked_serials before entries ≡ ok after
    → All IsEntry entries
      × ((k : Bytes) → contains k after ≡ (contains k before || contains k (serials_of entries)))
unfolding revoked_serials contains
revoked_serials_ok before [] {after} q =
    let same : before ≡ after = cc in (tt, λ k. ground (arith, same))
revoked_serials_ok before (entry ∷ entries) q =
    let (n, found, supported, fresh, rest) = revoked_serials_next before entry entries q in
    let (others, each) = revoked_serials_ok (decimal (pos n) ∷ before) entries rest in
    (
      ((n, found, only_extensions-IsKnown 21 24 entry.extensions supported), others),
      λ k. ground (arith, found, each k),
    )

-- No serial of a CRL that is accepted stands in it twice.
pub revoked_serials-Distinct :
    (before : List Bytes) (entries : List RevokedEntry) {after : List Bytes}
    → revoked_serials before entries ≡ ok after
    → Distinct (serials_of entries)
      × ((k : Bytes) → (contains k before && contains k (serials_of entries)) ≡ false)
unfolding contains
revoked_serials-Distinct before [] q = (tt, λ k. ground arith)
revoked_serials-Distinct before (entry ∷ entries) q =
    let (n, found, supported, fresh, rest) = revoked_serials_next before entry entries q in
    let serial = decimal (pos n) in
    let (distinct, apart) = revoked_serials-Distinct (serial ∷ before) entries rest in
    let alone : contains serial (serials_of entries) ≡ false =
      ground (arith, apart serial, bytes_eq_refl serial) in
    rw (found) ((alone, distinct), λ k. ground (arith, apart k, fresh, bytes_eq→eq serial k))

pub keys_differ-false : (a b : Bytes) → keys_differ a b ≡ false → (a ≡ []) ⊎ (b ≡ []) ⊎ (a ≡ b)
keys_differ-false [] b h = inl refl
keys_differ-false (x ∷ xs) [] h = inr (inl refl)
keys_differ-false (x ∷ xs) (y ∷ ys) h =
    let same : bytes_eq (x ∷ xs) (y ∷ ys) ≡ true = ground (arith, h) in
    inr (inr (bytes_eq→eq (x ∷ xs) (y ∷ ys) same))

pub is_current_ok :
    (crypto : Crypto) (now : ℕ) (signed : SignedCrl) (issuer : Certificate) (crl : Crl) (number : ℤ)
    → is_current crypto now signed issuer crl number ≡ true
    → (crypto.signed_by signed.crl_der issuer ≡ true)
      × (crl.issuer ≡ issuer.subject)
      × (is_negative number ≡ false)
      × (now < crl.next_update)
      × (crl.this_update ≤ now + 60_000_000_000)
      × (crl.this_update ≤ crl.next_update)
unfolding is_current
is_current_ok crypto now signed issuer crl number h = (
  ground arith,
  bytes_eq→eq crl.issuer issuer.subject (ground arith),
  ground arith,
  ground arith,
  ground arith,
  ground arith,
)

pub not_negative : (z : ℤ) → is_negative z ≡ false → (n : ℕ) × (z ≡ pos n)
not_negative (pos n) h = (n, refl)
not_negative (negsuc n) h = absurd cc
