-- ===== src/Security/Bundle/Parts.antt =====
-- infrastructure/peer/security/revocation.go: validateLocked that accepts, taken apart.
use pluginprotocol.Errors.{Result, ok, err}
use pluginprotocol.Prelude.{
  ℕ, ◌≡◌, ◌∙◌, refl, ap, sym, true, List, [], ◌∷◌, Bytes, bytes_eq, bytes_eq→eq, arith, subst,
}
use pluginprotocol.Prelude.Strings.{Distinct}
use pluginprotocol.Prelude.Table.{contains}
use pluginprotocol.Security.Bundle.{
  RevocationManager, States, old_states, issuers_of, covers, next_states, seal, finish_states,
  accept_records, accept_issuers, validate_locked,
}
use pluginprotocol.Security.Bundle.Accepted.{check_records_ok}
use pluginprotocol.Security.Bundle.Monotone.{Outcome, next_states_lem}
use pluginprotocol.Security.Checkpoint.{
  IssuerCheckpoint, CrlCheckpoint, issuer_hashes, checkpoint_bundle_hash, sort_issuers,
}
use pluginprotocol.Security.Crypto.{Crypto}
use pluginprotocol.Security.Records.{
  SignedCrl, RevocationBundle, ParsedRecord, Issuers, collect_issuers, check_records,
}
use pluginprotocol.Security.States.{contains-sort_issuers}

-- What the loops of an accepting run come to.
pub record Parts (crypto : Crypto) (m : RevocationManager) (now : ℕ) (bundle : RevocationBundle)
    (next : CrlCheckpoint) : Type 0 where
  pub issuers : Issuers
  pub parsed : List ParsedRecord
  pub states : List IssuerCheckpoint
  pub rooted : bundle.trust_roots_digest ≡ m.root_digest
  pub collected : collect_issuers crypto [] bundle.records ≡ ok issuers
  pub checked : check_records crypto m.root_der now issuers [] bundle.records ≡ ok parsed
  pub covered : covers crypto (issuers_of parsed) m.root_der ≡ true
  pub stated : next_states (old_states [] m.checkpoint.issuers) parsed ≡ ok (states, [])
  pub sealed : seal crypto m.root_digest states ≡ next

module _ (crypto : Crypto) (m : RevocationManager) (now : ℕ) {next : CrlCheckpoint} where
  finish_states_ok :
      (made : Result (List IssuerCheckpoint × States))
      → finish_states crypto m made ≡ ok next
      → (states : List IssuerCheckpoint) × (made ≡ ok (states, []))
        × (seal crypto m.root_digest states ≡ next)
  unfolding finish_states
  finish_states_ok (err x) e = cc
  finish_states_ok (ok (states, [])) e = (states, refl, ground arith)
  finish_states_ok (ok (states, s ∷ ss)) e = cc

  accept_records_ok :
      (made : Result (List ParsedRecord))
      → accept_records crypto m made ≡ ok next
      → (parsed : List ParsedRecord) × (made ≡ ok parsed)
        × (covers crypto (issuers_of parsed) m.root_der ≡ true)
        × (finish_states crypto m (next_states (old_states [] m.checkpoint.issuers) parsed)
            ≡ ok next)
  unfolding accept_records
  accept_records_ok (err x) e = cc
  accept_records_ok (ok parsed) e = (parsed, refl, ground arith, ground arith)

  accept_issuers_ok :
      (records : List SignedCrl) (made : Result Issuers)
      → accept_issuers crypto m now records made ≡ ok next
      → (issuers : Issuers) × (made ≡ ok issuers)
        × (accept_records crypto m (check_records crypto m.root_der now issuers [] records)
            ≡ ok next)
  unfolding accept_issuers
  accept_issuers_ok records (err x) e = cc
  accept_issuers_ok records (ok issuers) e = (issuers, refl, e)

  pub validate_locked-Parts :
      (bundle : RevocationBundle)
      → validate_locked crypto m now bundle ≡ ok next
      → Parts crypto m now bundle next
  unfolding validate_locked
  validate_locked-Parts bundle e =
      let digest : bytes_eq bundle.trust_roots_digest m.root_digest ≡ true = ground arith in
      let (issuers, collected, e₁) =
        accept_issuers_ok bundle.records (collect_issuers crypto [] bundle.records)
          (ground arith) in
      let (parsed, checked, covered, e₂) =
        accept_records_ok (check_records crypto m.root_der now issuers [] bundle.records) e₁ in
      let (states, stated, sealed) =
        finish_states_ok (next_states (old_states [] m.checkpoint.issuers) parsed) e₂ in
      record {
        issuers = issuers;
        parsed = parsed;
        states = states;
        rooted = bytes_eq→eq bundle.trust_roots_digest m.root_digest digest;
        collected = collected;
        checked = checked;
        covered = covered;
        stated = stated;
        sealed = sealed;
      }

pub next-issuers :
    (crypto : Crypto) (m : RevocationManager) (now : ℕ) (bundle : RevocationBundle)
    {next : CrlCheckpoint}
    → (parts : Parts crypto m now bundle next) → next.issuers ≡ sort_issuers parts.states
unfolding seal
next-issuers crypto m now bundle parts = ap (λ (c : CrlCheckpoint). c.issuers) (sym parts.sealed)

pub Parts-outcome :
    (crypto : Crypto) (m : RevocationManager) (now : ℕ) (bundle : RevocationBundle)
    {next : CrlCheckpoint}
    → (parts : Parts crypto m now bundle next)
    → Distinct (issuers_of parts.parsed)
      × (issuer_hashes parts.states ≡ issuers_of parts.parsed)
      × ((k : Bytes) → Outcome (old_states [] m.checkpoint.issuers) parts.parsed parts.states [] k)
Parts-outcome crypto m now bundle parts =
    let (valid, distinct, _) =
      check_records_ok crypto m.root_der now parts.issuers [] bundle.records parts.checked in
    let (names, each) =
      next_states_lem (old_states [] m.checkpoint.issuers) parts.parsed distinct parts.stated in
    (distinct, names, each)

pub next-names :
    (crypto : Crypto) (m : RevocationManager) (now : ℕ) (bundle : RevocationBundle)
    {next : CrlCheckpoint}
    → (parts : Parts crypto m now bundle next) → (k : Bytes)
    → contains k (issuer_hashes next.issuers) ≡ contains k (issuers_of parts.parsed)
next-names crypto m now bundle parts k =
    let (_, names, _) = Parts-outcome crypto m now bundle parts in
    ap (λ (x : List IssuerCheckpoint). contains k (issuer_hashes x))
      (next-issuers crypto m now bundle parts)
    ∙ contains-sort_issuers k parts.states
    ∙ ap (contains k) names

pub next-digests :
    (crypto : Crypto) (m : RevocationManager) (now : ℕ) (bundle : RevocationBundle)
    {next : CrlCheckpoint}
    → Parts crypto m now bundle next
    → (next.trust_roots_digest ≡ m.root_digest)
      × (next.bundle_sha256 ≡ checkpoint_bundle_hash crypto next)
unfolding seal checkpoint_bundle_hash
next-digests crypto m now bundle parts = (
  ap (λ (c : CrlCheckpoint). c.trust_roots_digest) (sym parts.sealed),
  subst (λ (c : CrlCheckpoint). c.bundle_sha256 ≡ checkpoint_bundle_hash crypto c) parts.sealed
      refl,
)
