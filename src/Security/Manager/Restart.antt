-- ===== src/Security/Manager/Restart.antt =====
-- infrastructure/peer/security/revocation.go: a checkpoint that a manager returned restores a manager.
use pluginprotocol.Errors.{Result, ok, err}
use pluginprotocol.Prelude.{
  ℕ, ◌≡◌, ◌∙◌, ◌⊎◌, refl, ap, sym, subst, inl, inr, true, false, Option, none, some, List, [], ◌∷◌,
  Bytes, bytes_eq, bytes_eq_refl, bytes_eq→eq, Option-cases, arith,
}
use pluginprotocol.Prelude.Strings.{Distinct, sort_strings}
use pluginprotocol.Security.Bundle.{RevocationManager, is_empty}
use pluginprotocol.Security.Bundle.Restorable.{IsSha256}
use pluginprotocol.Security.Bundle.Saved.{IsSaved, validate_locked-IsSaved}
use pluginprotocol.Security.Checkpoint.{
  CrlCheckpoint, issuer_hashes, canonical_trust_roots_digest, checkpoint_bundle_hash,
  empty_checkpoint,
}
use pluginprotocol.Security.Checkpoint.Names.{validate_checkpoint-Distinct}
use pluginprotocol.Security.Crypto.{Crypto}
use pluginprotocol.Security.Manager.{
  check_roots, empty_manager, new_revocation_manager, restore, restore_if, with_digest,
  schedule_expiry,
}
use pluginprotocol.Security.Manager.Epochs.{HasDistinct}
use pluginprotocol.Security.Manager.Runs.{Operation, run_all, fresh_world}
use pluginprotocol.Security.Manager.Steps.{Core, core, run_all_keeps}

-- What NewRevocationManager has when it comes to the checkpoint, and what every later state has: the
-- sorted roots with their digest, and no accepted bundle or a checkpoint that can be restored.
IsRooted : Crypto → List Bytes → Core → Type 0
IsRooted crypto ders (root_der, root_digest, checkpoint, bundle_hash) =
    (is_empty ders ≡ false)
    × (canonical_trust_roots_digest crypto ders ≡ ok root_digest)
    × (check_roots crypto ders ≡ none)
    × (root_der ≡ sort_strings ders)
    × (((bundle_hash ≡ []) × (checkpoint ≡ empty_checkpoint))
        ⊎ (IsSaved crypto root_der root_digest checkpoint
            × (bundle_hash ≡ checkpoint_bundle_hash crypto checkpoint)))

ok_injective : {a b : RevocationManager} → Path (Result RevocationManager) (ok a) (ok b) → a ≡ b
ok_injective {a} {b} e = ap (λ (r : Result RevocationManager). value r) e
  where
    value : Result RevocationManager → RevocationManager
    value (ok m) = m
    value (err x) = a

module _ (crypto : Crypto) (now : ℕ) where
  restore-IsSaved :
      (m : RevocationManager) (c : CrlCheckpoint)
      → IsSaved crypto m.root_der m.root_digest c
      → restore crypto now m c
        ≡ ok (
            schedule_expiry now c.issuers
              (record m { checkpoint = c; bundle_hash = checkpoint_bundle_hash crypto c }))
  unfolding restore
  restore-IsSaved m c s = ground (arith, s.rooted, s.valid, s.covered, bytes_eq_refl m.root_digest)

  restore_ok :
      (m : RevocationManager) (c : CrlCheckpoint) {r : RevocationManager}
      → restore crypto now m c ≡ ok r
      → IsSaved crypto m.root_der m.root_digest c
        × (r
            ≡ schedule_expiry now c.issuers
                (record m { checkpoint = c; bundle_hash = checkpoint_bundle_hash crypto c }))
  unfolding restore
  restore_ok m c {r} e =
      let digest : bytes_eq c.trust_roots_digest m.root_digest ≡ true = ground arith in
      let saved : IsSaved crypto m.root_der m.root_digest c = record {
        rooted = bytes_eq→eq c.trust_roots_digest m.root_digest digest;
        valid = ground arith;
        covered = ground arith;
      } in
      (saved, sym (ok_injective (sym (restore-IsSaved m c saved) ∙ e)))

  restore_if-IsRooted :
      (ders : List Bytes) (digest : Bytes) (first : Option CrlCheckpoint) {m : RevocationManager}
      → is_empty ders ≡ false
      → canonical_trust_roots_digest crypto ders ≡ ok digest
      → check_roots crypto ders ≡ none
      → restore_if crypto now (empty_manager crypto ders digest) first ≡ ok m
      → IsRooted crypto ders (core m)
  unfolding IsRooted schedule_expiry
  restore_if-IsRooted ders digest none nonempty d checked e =
      subst (λ (n : RevocationManager). IsRooted crypto ders (core n)) (ok_injective e)
        (nonempty, d, checked, refl, inl (refl, refl))
  restore_if-IsRooted ders digest (some c) nonempty d checked e =
      let (saved, same) = restore_ok (empty_manager crypto ders digest) c e in
      subst (λ (n : RevocationManager). IsRooted crypto ders (core n)) (sym same)
        (nonempty, d, checked, refl, inr (saved, refl))

  with_digest-IsRooted :
      (ders : List Bytes) (first : Option CrlCheckpoint) (digest : Result Bytes)
      {m : RevocationManager}
      → is_empty ders ≡ false
      → canonical_trust_roots_digest crypto ders ≡ digest
      → with_digest crypto now ders first digest ≡ ok m
      → IsRooted crypto ders (core m)
  with_digest-IsRooted ders first (err x) nonempty d e = cc
  with_digest-IsRooted ders first (ok digest) nonempty d e =
      elim (Option-cases (check_roots crypto ders)) [
        | inl q ↦ restore_if-IsRooted ders digest first nonempty d q (rw (q, with_digest) at e)
        | inr (x, q) ↦ let refused = rw (q, with_digest) at e in absurd cc
      ]

  new_revocation_manager-IsRooted :
      (ders : List Bytes) (first : Option CrlCheckpoint) {m : RevocationManager}
      → new_revocation_manager crypto now ders first ≡ ok m
      → IsRooted crypto ders (core m)
  unfolding new_revocation_manager
  new_revocation_manager-IsRooted [] first e = cc
  new_revocation_manager-IsRooted (der ∷ ders) first e =
      with_digest-IsRooted (der ∷ ders) first (canonical_trust_roots_digest crypto (der ∷ ders))
        refl refl e

-- A manager that NewRevocationManager makes has distinct issuers.
pub new_revocation_manager-HasDistinct :
    (crypto : Crypto) (now : ℕ) (ders : List Bytes) (first : Option CrlCheckpoint)
    {m : RevocationManager}
    → new_revocation_manager crypto now ders first ≡ ok m
    → HasDistinct m
unfolding IsRooted
new_revocation_manager-HasDistinct crypto now ders first {m} e =
    let (_, _, _, _, state) = new_revocation_manager-IsRooted crypto now ders first e in
    elim state [
      | inl (_, empty) ↦
          subst (λ (c : CrlCheckpoint). Distinct (issuer_hashes c.issuers)) (sym empty) tt
      | inr (saved, _) ↦ validate_checkpoint-Distinct crypto m.checkpoint saved.valid
    ]

run_all-IsRooted :
    (crypto : Crypto) (ders : List Bytes) (operations : List Operation) (m : RevocationManager)
    → IsSha256 crypto
    → IsRooted crypto ders (core m)
    → IsRooted crypto ders (core (run_all crypto operations (fresh_world m)).manager)
unfolding IsRooted
run_all-IsRooted crypto ders operations m sha h =
    run_all_keeps (IsRooted crypto ders) crypto
      (λ n now bundle next r e.
        let (nonempty, d, checked, rooted, _) = r in
        (nonempty, d, checked, rooted, inr (validate_locked-IsSaved crypto n now bundle sha e)))
      operations (fresh_world m) h

restored :
    (crypto : Crypto) (later : ℕ) (ders : List Bytes) (last : RevocationManager)
    → IsRooted crypto ders (core last)
    → bytes_eq last.bundle_hash [] ≡ false
    → (r : RevocationManager) × (new_revocation_manager crypto later ders (some last.checkpoint)
        ≡ ok r)
      × (core r ≡ core last)
unfolding IsRooted new_revocation_manager schedule_expiry
restored crypto later ders last (nonempty, d, checked, rooted, inl (empty, _)) has_bundle =
    let none_yet : bytes_eq last.bundle_hash [] ≡ true =
      unfold bytes_eq in ap (λ (b : Bytes). bytes_eq b []) empty in
    absurd cc
restored crypto later ders last (nonempty, d, checked, rooted, inr (saved, hashed)) has_bundle =
    let start = empty_manager crypto ders last.root_digest in
    let c = last.checkpoint in
    let saved_here : IsSaved crypto start.root_der start.root_digest c =
      subst (λ (x : List Bytes). IsSaved crypto x last.root_digest c) rooted saved in
    (
      schedule_expiry later c.issuers
          (record start { checkpoint = c; bundle_hash = checkpoint_bundle_hash crypto c }),
      rw (nonempty, d, with_digest, checked) (restore-IsSaved crypto later start c saved_here),
      λ i. (sym rooted i, last.root_digest, c, sym hashed i),
    )

-- A manager that NewRevocationManager makes of some roots, with a checkpoint or without one, and that
-- has a bundle after some operations, survives a restart: NewRevocationManager of the same roots and
-- the manager's checkpoint makes, at any time, a manager with the same roots, root digest, checkpoint
-- and bundle digest. It is assumed that sha256 sums are 32 bytes.
pub new_revocation_manager-checkpoint :
    (crypto : Crypto) (now later : ℕ) (ders : List Bytes) (first : Option CrlCheckpoint)
    (operations : List Operation) {m : RevocationManager}
    → IsSha256 crypto
    → new_revocation_manager crypto now ders first ≡ ok m
    → bytes_eq (run_all crypto operations (fresh_world m)).manager.bundle_hash [] ≡ false
    → let last = (run_all crypto operations (fresh_world m)).manager in
      (r : RevocationManager) × (new_revocation_manager crypto later ders (some last.checkpoint)
        ≡ ok r)
      × (core r ≡ core last)
new_revocation_manager-checkpoint crypto now later ders first operations {m} sha e has_bundle =
    restored crypto later ders (run_all crypto operations (fresh_world m)).manager
      (run_all-IsRooted crypto ders operations m sha
        (new_revocation_manager-IsRooted crypto now ders first e))
      has_bundle
