-- ===== src/Security/Bundle/Determined.antt =====
-- infrastructure/peer/security/revocation.go: the checkpoint of a bundle does not depend on what a
-- manager had before.
use mathlib.Core.Path.{ap₂}
use pluginprotocol.Errors.{Result, ok, err}
use pluginprotocol.Prelude.{
  ℕ, ◌≡◌, ◌∙◌, refl, ap, sym, inl, inr, true, Option, none, some, List, [], ◌∷◌, map, Bytes,
  Option-cases, arith,
}
use pluginprotocol.Prelude.Order.{Ascends-ext}
use pluginprotocol.Prelude.Strings.{collect, Ascends, Ascends-sort_strings, Distinct-collect}
use pluginprotocol.Prelude.Table.{contains, lookup, remove}
use pluginprotocol.Security.Bundle.{
  RevocationManager, States, includes, state_of, succeeds, next_state, next_states, cons_state,
  old_states, seal, validate_locked,
}
use pluginprotocol.Security.Bundle.Accepted.{IsValid, AllValid, check_records_ok}
use pluginprotocol.Security.Bundle.Advance.{contains-includes}
use pluginprotocol.Security.Bundle.Monotone.{contains-state_of}
use pluginprotocol.Security.Bundle.Parts.{validate_locked-Parts}
use pluginprotocol.Security.Checkpoint.{IssuerCheckpoint, CrlCheckpoint}
use pluginprotocol.Security.Crypto.{Crypto, Crl}
use pluginprotocol.Security.Encoding.{parse_number}
use pluginprotocol.Security.Records.{
  SignedCrl, RevocationBundle, ParsedRecord, Issuers, revoked_serials,
}

-- The state of a record without a state before it.
abbrev first_state : ParsedRecord → IssuerCheckpoint
first_state parsed = state_of parsed []

Ascends-state_of :
    (parsed : ParsedRecord) (seed : List Bytes) → Ascends (state_of parsed seed).revoked
unfolding state_of
Ascends-state_of parsed seed =
    Ascends-sort_strings (collect parsed.revoked (collect seed []))
      (Distinct-collect parsed.revoked (collect seed []) (Distinct-collect seed [] tt))

state_of-seed :
    (parsed : ParsedRecord) (seed : List Bytes)
    → includes parsed.revoked seed ≡ true
    → state_of parsed seed ≡ first_state parsed
unfolding state_of contains
state_of-seed parsed seed kept =
    let same =
      Ascends-ext (state_of parsed seed).revoked (first_state parsed).revoked
        (Ascends-state_of parsed seed) (Ascends-state_of parsed [])
        (λ k.
          contains-state_of k parsed seed
          ∙ ground (arith, contains-includes k parsed.revoked seed kept)
          ∙ sym (contains-state_of k parsed [])) in
    λ i. record (first_state parsed) { revoked = same i }

next_state-first :
    (previous : Option IssuerCheckpoint) (parsed : ParsedRecord) {state : IssuerCheckpoint}
    → next_state previous parsed ≡ ok state
    → state ≡ first_state parsed
unfolding next_state succeeds
next_state-first none parsed e = ground arith
next_state-first (some previous) parsed {state} e =
    elim (Option-cases (parse_number previous.crl_number)) [
      | inl q ↦ absurd (ground (arith, q))
      | inr (old_number, q) ↦
          let done = rw (q, next_state) at e in
          let same : state_of parsed previous.revoked ≡ state = ground (arith, done) in
          let kept : includes parsed.revoked previous.revoked ≡ true = ground (arith, done) in
          sym same ∙ state_of-seed parsed previous.revoked kept
    ]

cons_state-first :
    (parsed : ParsedRecord) (made : Result IssuerCheckpoint)
    (rest : Result (List IssuerCheckpoint × States)) (first : List IssuerCheckpoint)
    {states : List IssuerCheckpoint} {left : States}
    → ((state : IssuerCheckpoint) → made ≡ ok state → state ≡ first_state parsed)
    → ((others : List IssuerCheckpoint) (last : States) → rest ≡ ok (others, last) → others ≡ first)
    → cons_state made rest ≡ ok (states, left)
    → states ≡ first_state parsed ∷ first
cons_state-first parsed (err x) rest first f g e = cc
cons_state-first parsed (ok state) (err x) first f g e = cc
cons_state-first parsed (ok state) (ok (others, last)) first {states} f g e =
    let same : (state ∷ others) ≡ states = ground arith in
    sym same ∙ ap₂ ◌∷◌ (f state refl) (g others last refl)

next_states-first :
    (old : States) (records : List ParsedRecord) {states : List IssuerCheckpoint} {left : States}
    → next_states old records ≡ ok (states, left)
    → states ≡ map first_state records
unfolding next_states
next_states-first old [] e = ground arith
next_states-first old (parsed ∷ records) e =
    cons_state-first parsed (next_state (lookup parsed.issuer_hash old) parsed)
      (next_states (remove parsed.issuer_hash old) records) (map first_state records)
      (λ state q. next_state-first (lookup parsed.issuer_hash old) parsed q)
      (λ others last q. next_states-first (remove parsed.issuer_hash old) records q) e

module _ (crypto : Crypto) (signed : SignedCrl) where
  IsValid-unique :
      {roots others : List Bytes} {now later : ℕ} {issuers again : Issuers} {p q : ParsedRecord}
      → IsValid crypto roots now issuers signed p
      → IsValid crypto others later again signed q
      → p ≡ q
  IsValid-unique {p = p} {q = q} a b =
      let crls : a.crl ≡ b.crl = ground (arith, a.readable, b.readable) in
      let numbers : p.crl_number ≡ q.crl_number =
        ground (arith, a.numbered, b.numbered, ap (λ (c : Crl). c.number) crls) in
      let read : Path (Result (List Bytes)) (ok p.revoked) (ok q.revoked) =
        sym a.serials ∙ ap (λ (c : Crl). revoked_serials [] c.entries) crls ∙ b.serials in
      let serials : p.revoked ≡ q.revoked = cc in
      λ i. record {
        crl_number = numbers i;
        next_update = (a.update ∙ ap (λ (c : Crl). c.next_update) crls ∙ sym b.update) i;
        issuer_hash = (a.issuer_named ∙ sym b.issuer_named) i;
        crl_hash = (a.crl_named ∙ sym b.crl_named) i;
        revoked = serials i;
      }

module _ (crypto : Crypto) (roots others : List Bytes) (now later : ℕ)
    (issuers again : Issuers) where
  AllValid-unique :
      (records : List SignedCrl) (ps qs : List ParsedRecord)
      → AllValid crypto roots now issuers records ps
      → AllValid crypto others later again records qs
      → ps ≡ qs
  AllValid-unique [] [] [] a b = refl
  AllValid-unique [] [] (q ∷ qs) a b = absurd b
  AllValid-unique [] (p ∷ ps) qs a b = absurd a
  AllValid-unique (s ∷ ss) [] qs a b = absurd a
  AllValid-unique (s ∷ ss) (p ∷ ps) [] a b = absurd b
  AllValid-unique (s ∷ ss) (p ∷ ps) (q ∷ qs) a b =
      ap₂ ◌∷◌ (IsValid-unique crypto s a.0 b.0) (AllValid-unique ss ps qs a.1 b.1)

-- Two managers that accept the same bundle make the same checkpoint of it, whatever roots, checkpoints
-- and clocks they have.
pub validate_locked_unique :
    (crypto : Crypto) (bundle : RevocationBundle) (m n : RevocationManager) (now later : ℕ)
    {c d : CrlCheckpoint}
    → validate_locked crypto m now bundle ≡ ok c
    → validate_locked crypto n later bundle ≡ ok d
    → c ≡ d
validate_locked_unique crypto bundle m n now later {c} {d} e f =
    let a = validate_locked-Parts crypto m now bundle e in
    let b = validate_locked-Parts crypto n later bundle f in
    let (valid, _, _) =
      check_records_ok crypto m.root_der now a.issuers [] bundle.records a.checked in
    let (again, _, _) =
      check_records_ok crypto n.root_der later b.issuers [] bundle.records b.checked in
    let parsed =
      AllValid-unique crypto m.root_der n.root_der now later a.issuers b.issuers bundle.records
        a.parsed b.parsed valid again in
    let states =
      next_states-first (old_states [] m.checkpoint.issuers) a.parsed a.stated
      ∙ ap (map first_state) parsed
      ∙ sym (next_states-first (old_states [] n.checkpoint.issuers) b.parsed b.stated) in
    let digest = sym a.rooted ∙ b.rooted in
    sym a.sealed ∙ (λ i. seal crypto (digest i) (states i)) ∙ b.sealed
