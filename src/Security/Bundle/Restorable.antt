-- ===== src/Security/Bundle/Restorable.antt =====
-- infrastructure/peer/security/revocation.go: a checkpoint of validateLocked passes validateCheckpoint.
use pluginprotocol.Errors.{Result, ok, err}
use pluginprotocol.Prelude.{
  ℕ, ◌<◌, ◌≡◌, ◌∙◌, refl, ap, sym, subst, inl, inr, true, false, ◌&&◌, Option, none, some, List, [],
  ◌∷◌, ◌==◌, All, length, Bytes, bytes_eq, bytes_eq_refl, bytes_eq→eq, Bool-cases, Option-cases, ℤ,
  arith,
}
use pluginprotocol.Prelude.Order.{Ascends-Distinct}
use pluginprotocol.Prelude.Strings.{
  Distinct, collect, sort_strings, Ascends-sort_strings, Distinct-collect,
}
use pluginprotocol.Prelude.Table.{contains, lookup, remove}
use pluginprotocol.Security.Bundle.{
  States, includes, state_of, succeeds, next_state, next_states, cons_state,
}
use pluginprotocol.Security.Bundle.Accepted.{IsValid, AllValid}
use pluginprotocol.Security.Bundle.Advance.{contains-includes}
use pluginprotocol.Security.Bundle.Monotone.{contains-state_of}
use pluginprotocol.Security.Checkpoint.{IssuerCheckpoint, check_serials, is_digest, is_natural}
use pluginprotocol.Security.Crypto.{Crypto, RevokedEntry, hex_sha256}
use pluginprotocol.Security.Encoding.{
  decimal, hex_decode-hex_encode, is_negative, parse_number, parse_number-decimal,
}
use pluginprotocol.Security.Records.{SignedCrl, ParsedRecord, Issuers, is_current, revoked_serials}

-- What crypto/sha256 documents of a sum: 32 bytes.
abbrev pub IsSha256 : Crypto → Type 0
IsSha256 crypto =
    (bytes : Bytes) → (length (crypto.sha256 bytes) ≡ 32) × All (λ b. b < 256) (crypto.sha256 bytes)

pub is_digest-hex_sha256 :
    (crypto : Crypto) (bytes : Bytes) → IsSha256 crypto → is_digest (hex_sha256 crypto bytes) ≡ true
unfolding is_digest
is_digest-hex_sha256 crypto bytes h =
    let (size, small) = h bytes in rw (hex_decode-hex_encode (crypto.sha256 bytes) small, size)

is_natural-decimal : (z : ℤ) → is_negative z ≡ false → is_natural (parse_number (decimal z)) ≡ true
is_natural-decimal z h = rw (parse_number-decimal z, h)

-- Serials that are natural numbers in decimal.
abbrev AllNatural : List Bytes → Type 0
AllNatural serials = (k : Bytes) → contains k serials ≡ true → is_natural (parse_number k) ≡ true

AllNatural-cons :
    (k : Bytes) (serials : List Bytes)
    → is_natural (parse_number k) ≡ true
    → AllNatural serials
    → AllNatural (k ∷ serials)
unfolding contains
AllNatural-cons k serials h all = λ j c. elim (Bool-cases (bytes_eq k j)) [
  | inl same ↦ subst (λ (s : Bytes). is_natural (parse_number s) ≡ true) (bytes_eq→eq k j same) h
  | inr other ↦ all j (ground (arith, c, other))
]

revoked_serials-AllNatural :
    (revoked : List Bytes) (entries : List RevokedEntry) {serials : List Bytes}
    → AllNatural revoked
    → revoked_serials revoked entries ≡ ok serials
    → AllNatural serials
unfolding revoked_serials
revoked_serials-AllNatural revoked [] {serials} all e =
    let same : revoked ≡ serials = ground arith in subst AllNatural same all
revoked_serials-AllNatural revoked (entry ∷ entries) {serials} all e =
    elim (Option-cases entry.serial) [
      | inl q ↦ absurd (ground (arith, q))
      | inr (serial, q) ↦
          let natural : is_negative serial ≡ false = ground (arith, q) in
          revoked_serials-AllNatural (decimal serial ∷ revoked) entries
            (AllNatural-cons (decimal serial) revoked (is_natural-decimal serial natural) all)
            (ground (arith, q))
    ]

check_serials-none :
    (seen values : List Bytes)
    → AllNatural values
    → Distinct values
    → ((k : Bytes) → (contains k seen && contains k values) ≡ false)
    → check_serials seen values ≡ none
unfolding check_serials contains
check_serials-none seen [] all d apart = refl
check_serials-none seen (value ∷ values) all d apart =
    let natural = all value (ground (arith, bytes_eq_refl value)) in
    let fresh : contains value seen ≡ false = ground (arith, apart value, bytes_eq_refl value) in
    let rest =
      check_serials-none (value ∷ seen) values (λ k c. all k (ground (arith, c))) d.1
        (λ k. ground (arith, apart k, d.0, bytes_eq→eq value k)) in
    rw (natural, fresh, rest)

-- What a record has for its state to be sound.
pub record IsReadable (parsed : ParsedRecord) : Type 0 where
  issuer : is_digest parsed.issuer_hash ≡ true
  crl : is_digest parsed.crl_hash ≡ true
  number : is_negative parsed.crl_number ≡ false
  update : (parsed.next_update == 0) ≡ false
  serials : AllNatural parsed.revoked

pub record IsSound (state : IssuerCheckpoint) : Type 0 where
  pub issuer : is_digest state.issuer_sha256 ≡ true
  pub crl : is_digest state.crl_sha256 ≡ true
  pub number : is_natural (parse_number state.crl_number) ≡ true
  pub update : (state.next_update == 0) ≡ false
  pub serials : check_serials [] state.revoked ≡ none

IsValid-IsReadable :
    (crypto : Crypto) (roots : List Bytes) (now : ℕ) (issuers : Issuers) (signed : SignedCrl)
    (parsed : ParsedRecord)
    → IsSha256 crypto
    → IsValid crypto roots now issuers signed parsed
    → IsReadable parsed
unfolding is_current contains
IsValid-IsReadable crypto roots now issuers signed parsed sha v =
    let current = v.current in
    record {
      issuer = ap is_digest v.issuer_named ∙ is_digest-hex_sha256 crypto signed.issuer_der sha;
      crl = ap is_digest v.crl_named ∙ is_digest-hex_sha256 crypto signed.crl_der sha;
      number = ground (arith, current);
      update = ground (arith, current, v.update);
      serials = revoked_serials-AllNatural [] v.crl.entries (λ k c. cc) v.serials;
    }

pub AllValid-IsReadable :
    (crypto : Crypto) (roots : List Bytes) (now : ℕ) (issuers : Issuers) (records : List SignedCrl)
    (parsed : List ParsedRecord)
    → IsSha256 crypto
    → AllValid crypto roots now issuers records parsed
    → All IsReadable parsed
AllValid-IsReadable crypto roots now issuers [] [] sha v = tt
AllValid-IsReadable crypto roots now issuers [] (p ∷ ps) sha v = absurd v
AllValid-IsReadable crypto roots now issuers (s ∷ ss) [] sha v = absurd v
AllValid-IsReadable crypto roots now issuers (s ∷ ss) (p ∷ ps) sha v = (
  IsValid-IsReadable crypto roots now issuers s p sha v.0,
  AllValid-IsReadable crypto roots now issuers ss ps sha v.1,
)

state_of-IsSound :
    (parsed : ParsedRecord) (seed : List Bytes)
    → IsReadable parsed
    → ((k : Bytes) → contains k seed ≡ true → contains k parsed.revoked ≡ true)
    → IsSound (state_of parsed seed)
unfolding state_of contains
state_of-IsSound parsed seed r within = record {
  issuer = r.issuer;
  crl = r.crl;
  number = is_natural-decimal parsed.crl_number r.number;
  update = r.update;
  serials =
      check_serials-none [] (state_of parsed seed).revoked
        (λ k c. r.serials k (ground (arith, sym (contains-state_of k parsed seed) ∙ c, within k)))
        (Ascends-Distinct (sort_strings (collect parsed.revoked (collect seed []))) (
          Ascends-sort_strings (collect parsed.revoked (collect seed []))
            (Distinct-collect parsed.revoked (collect seed []) (Distinct-collect seed [] tt))))
        (λ k. refl);
}

succeeds-IsSound :
    (previous : IssuerCheckpoint) (parsed : ParsedRecord) (old_number : ℤ)
    {state : IssuerCheckpoint}
    → IsReadable parsed
    → succeeds previous parsed old_number ≡ ok state
    → IsSound state
unfolding succeeds
succeeds-IsSound previous parsed old_number {state} r e =
    let same : state_of parsed previous.revoked ≡ state = ground arith in
    let kept : includes parsed.revoked previous.revoked ≡ true = ground arith in
    subst IsSound same (
      state_of-IsSound parsed previous.revoked r
        (λ k c. contains-includes k parsed.revoked previous.revoked kept c))

next_state-IsSound :
    (previous : Option IssuerCheckpoint) (parsed : ParsedRecord) {state : IssuerCheckpoint}
    → IsReadable parsed
    → next_state previous parsed ≡ ok state
    → IsSound state
unfolding next_state contains
next_state-IsSound none parsed {state} r e =
    let same : state_of parsed [] ≡ state = ground arith in
    subst IsSound same (state_of-IsSound parsed [] r (λ k c. cc))
next_state-IsSound (some previous) parsed {state} r e =
    elim (Option-cases (parse_number previous.crl_number)) [
      | inl q ↦ absurd (ground (arith, q))
      | inr (old_number, q) ↦
          succeeds-IsSound previous parsed old_number r (rw (q, next_state) at e)
    ]

cons_state-IsSound :
    (made : Result IssuerCheckpoint) (rest : Result (List IssuerCheckpoint × States))
    {states : List IssuerCheckpoint} {left : States}
    → ((state : IssuerCheckpoint) → made ≡ ok state → IsSound state)
    → ((others : List IssuerCheckpoint) (last : States)
        → rest ≡ ok (others, last)
        → All IsSound others)
    → cons_state made rest ≡ ok (states, left)
    → All IsSound states
cons_state-IsSound (err x) rest f g e = cc
cons_state-IsSound (ok state) (err x) f g e = cc
cons_state-IsSound (ok state) (ok (others, last)) {states} f g e =
    let same : (state ∷ others) ≡ states = ground arith in
    subst (All IsSound) same (f state refl, g others last refl)

pub next_states-IsSound :
    (old : States) (records : List ParsedRecord) {states : List IssuerCheckpoint} {left : States}
    → All IsReadable records
    → next_states old records ≡ ok (states, left)
    → All IsSound states
unfolding next_states
next_states-IsSound old [] {states} r e =
    let same : [] ≡ states = ground arith in subst (All IsSound) same tt
next_states-IsSound old (parsed ∷ records) r e =
    cons_state-IsSound (next_state (lookup parsed.issuer_hash old) parsed)
      (next_states (remove parsed.issuer_hash old) records)
      (λ state q. next_state-IsSound (lookup parsed.issuer_hash old) parsed r.0 q)
      (λ others last q. next_states-IsSound (remove parsed.issuer_hash old) records r.1 q) e
