-- ===== src/Security/Bundle/Saved.antt =====
-- infrastructure/peer/security/revocation.go: a checkpoint of validateLocked is one that can be restored.
use pluginprotocol.Errors.{ok}
use pluginprotocol.Prelude.{
  ℕ, ◌≡◌, ◌∙◌, refl, ap, sym, subst, inl, inr, true, false, ◌&&◌, not, none, List, [], ◌∷◌, All,
  Bytes, bytes_eq_refl, bytes_eq→eq, bytes_lt, Bool-cases, arith,
}
use pluginprotocol.Prelude.Strings.{Distinct, sort_by, insert_by}
use pluginprotocol.Prelude.Table.{contains}
use pluginprotocol.Security.Bundle.{
  RevocationManager, covers, old_states, is_empty, issuers_of, validate_locked,
}
use pluginprotocol.Security.Bundle.Accepted.{AllValid, check_records_ok}
use pluginprotocol.Security.Bundle.Parts.{
  Parts-outcome, next-digests, next-issuers, next-names, validate_locked-Parts,
}
use pluginprotocol.Security.Bundle.Restorable.{
  IsSha256, IsSound, AllValid-IsReadable, next_states-IsSound, is_digest-hex_sha256,
}
use pluginprotocol.Security.Checkpoint.{
  IssuerCheckpoint, CrlCheckpoint, issuer_hashes, check_issuers, check_bundle_hash,
  checkpoint_bundle_hash, is_digest, sort_issuers, validate_checkpoint,
}
use pluginprotocol.Security.Crypto.{Crypto, hex_sha256}
use pluginprotocol.Security.Records.{RevocationBundle, Issuers, ParsedRecord, SignedCrl}
use pluginprotocol.Security.States.{Distinct-sort_issuers}

All-insert_issuer :
    (P : IssuerCheckpoint → Type 0) (state : IssuerCheckpoint) (states : List IssuerCheckpoint)
    → P state
    → All P states
    → All P (insert_by (λ (i : IssuerCheckpoint). i.issuer_sha256) state states)
unfolding insert_by
All-insert_issuer P state [] h all = (h, tt)
All-insert_issuer P state (s ∷ states) h all =
    elim (Bool-cases (bytes_lt state.issuer_sha256 s.issuer_sha256)) [
      | inl before ↦ rw before (h, all)
      | inr behind ↦ rw behind (all.0, All-insert_issuer P state states h all.1)
    ]

All-sort_issuers :
    (P : IssuerCheckpoint → Type 0) (states : List IssuerCheckpoint)
    → All P states
    → All P (sort_issuers states)
unfolding sort_issuers sort_by
All-sort_issuers P [] all = tt
All-sort_issuers P (state ∷ states) all =
    All-insert_issuer P state (sort_issuers states) all.0 (All-sort_issuers P states all.1)

check_issuers-none :
    (seen : List Bytes) (issuers : List IssuerCheckpoint)
    → All IsSound issuers
    → Distinct (issuer_hashes issuers)
    → ((k : Bytes) → (contains k seen && contains k (issuer_hashes issuers)) ≡ false)
    → check_issuers seen issuers ≡ none
unfolding check_issuers contains
check_issuers-none seen [] all d apart = refl
check_issuers-none seen (issuer ∷ issuers) all d apart =
    let name = issuer.issuer_sha256 in
    let sound = all.0 in
    let fresh : contains name seen ≡ false = ground (arith, apart name, bytes_eq_refl name) in
    let rest =
      check_issuers-none (name ∷ seen) issuers all.1 d.1
        (λ k. ground (arith, apart k, d.0, bytes_eq→eq name k)) in
    rw (sound.issuer, sound.crl, sound.number, sound.update, fresh, sound.serials, rest)

validate_full :
    (crypto : Crypto) (c : CrlCheckpoint)
    → is_empty c.issuers ≡ false
    → check_bundle_hash crypto c ≡ none
    → validate_checkpoint crypto c ≡ none
unfolding validate_checkpoint
validate_full crypto c e h = ground arith

covers_same :
    (crypto : Crypto) (seen others : List Bytes) (ders : List Bytes)
    → ((k : Bytes) → contains k others ≡ contains k seen)
    → covers crypto others ders ≡ covers crypto seen ders
unfolding covers
covers_same crypto seen others [] h = refl
covers_same crypto seen others (der ∷ ders) h =
    ground (arith, h (hex_sha256 crypto der), covers_same crypto seen others ders h)

-- What restoring a checkpoint asks for.
pub record IsSaved (crypto : Crypto) (ders : List Bytes) (digest : Bytes) (c : CrlCheckpoint)
    : Type 0 where
  pub rooted : c.trust_roots_digest ≡ digest
  pub valid : validate_checkpoint crypto c ≡ none
  pub covered :
      (not (is_empty c.issuers) && not (covers crypto (issuer_hashes c.issuers) ders)) ≡ false

filled :
    (issuers : List IssuerCheckpoint) (parsed : List ParsedRecord)
    → is_empty parsed ≡ false
    → ((k : Bytes) → contains k (issuer_hashes issuers) ≡ contains k (issuers_of parsed))
    → is_empty issuers ≡ false
unfolding contains
filled (i ∷ issuers) parsed e h = refl
filled [] [] e h = cc
filled [] (p ∷ ps) e h = absurd (ground (arith, h p.issuer_hash, bytes_eq_refl p.issuer_hash))

is_empty-AllValid :
    (crypto : Crypto) (roots : List Bytes) (now : ℕ) (issuers : Issuers) (records : List SignedCrl)
    (parsed : List ParsedRecord)
    → AllValid crypto roots now issuers records parsed
    → is_empty parsed ≡ is_empty records
is_empty-AllValid crypto roots now issuers [] [] v = refl
is_empty-AllValid crypto roots now issuers [] (p ∷ ps) v = absurd v
is_empty-AllValid crypto roots now issuers (s ∷ ss) [] v = absurd v
is_empty-AllValid crypto roots now issuers (s ∷ ss) (p ∷ ps) v = refl

has_records :
    (crypto : Crypto) (m : RevocationManager) (now : ℕ) (bundle : RevocationBundle)
    {next : CrlCheckpoint}
    → validate_locked crypto m now bundle ≡ ok next
    → is_empty bundle.records ≡ false
unfolding validate_locked
has_records crypto m now bundle e = ground arith

-- The checkpoint that validateLocked makes can be restored with the manager's roots.
pub validate_locked-IsSaved :
    (crypto : Crypto) (m : RevocationManager) (now : ℕ) (bundle : RevocationBundle)
    {next : CrlCheckpoint}
    → IsSha256 crypto
    → validate_locked crypto m now bundle ≡ ok next
    → IsSaved crypto m.root_der m.root_digest next
      × (next.bundle_sha256 ≡ checkpoint_bundle_hash crypto next)
unfolding contains check_bundle_hash
validate_locked-IsSaved crypto m now bundle {next} sha e =
    let parts = validate_locked-Parts crypto m now bundle e in
    let (_, names, _) = Parts-outcome crypto m now bundle parts in
    let (valid, distinct, _) =
      check_records_ok crypto m.root_der now parts.issuers [] bundle.records parts.checked in
    let (rooted, hashed) = next-digests crypto m now bundle parts in
    let same = next-names crypto m now bundle parts in
    let sorted = next-issuers crypto m now bundle parts in
    let readable =
      AllValid-IsReadable crypto m.root_der now parts.issuers bundle.records parts.parsed sha
        valid in
    let sound : All IsSound next.issuers = subst (All IsSound) (sym sorted) (
      All-sort_issuers IsSound parts.states (
        next_states-IsSound (old_states [] m.checkpoint.issuers) parts.parsed readable
          parts.stated)) in
    let apart : Distinct (issuer_hashes next.issuers) =
      subst (λ (x : List IssuerCheckpoint). Distinct (issuer_hashes x)) (sym sorted)
        (Distinct-sort_issuers parts.states (subst Distinct (sym names) distinct)) in
    let nonempty =
      filled next.issuers parts.parsed
        (is_empty-AllValid crypto m.root_der now parts.issuers bundle.records parts.parsed valid
          ∙ has_records crypto m now bundle e)
        same in
    let digest : is_digest next.bundle_sha256 ≡ true =
      ap is_digest hashed ∙ unfold checkpoint_bundle_hash in is_digest-hex_sha256 crypto _ sha in
    let checked = check_issuers-none [] next.issuers sound apart (λ k. refl) in
    (
      record {
        rooted = rooted;
        valid =
            validate_full crypto next nonempty
              (ground (arith, digest, checked, sym hashed, bytes_eq_refl next.bundle_sha256));
        covered = ground (
          arith,
          covers_same crypto (issuers_of parts.parsed) (issuer_hashes next.issuers) m.root_der same,
          parts.covered,
        );
      },
      hashed,
    )
