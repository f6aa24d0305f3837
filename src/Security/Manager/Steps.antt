-- ===== src/Security/Manager/Steps.antt =====
-- infrastructure/peer/security/revocation.go: what no operation changes but an Apply that accepts.
use pluginprotocol.Errors.{Result, ok, err}
use pluginprotocol.Prelude.{
  ℕ, ◌==◌, ◌≡◌, refl, inl, inr, none, List, [], ◌∷◌, if_cases, Bytes, bytes_eq, Option-cases,
}
use pluginprotocol.Security.Bundle.{RevocationManager, validate_locked}
use pluginprotocol.Security.Checkpoint.{CrlCheckpoint}
use pluginprotocol.Security.Crypto.{Crypto}
use pluginprotocol.Security.Encoding.{security_error}
use pluginprotocol.Security.Manager.{
  activate, apply, close, close_connection, expire, schedule_expiry, track_connection,
  verify_locked,
}
use pluginprotocol.Security.Manager.Runs.{
  World, Operation, apply_bundle, track, fire, shut, hang_up, run, run_all,
}
use pluginprotocol.Security.Records.{RevocationBundle}

-- The roots of a manager with their digest, and its checkpoint with its own.
abbrev pub Core : Type 0
Core = List Bytes × Bytes × CrlCheckpoint × Bytes

abbrev pub core : RevocationManager → Core
core m = (m.root_der, m.root_digest, m.checkpoint, m.bundle_hash)

module _ {ℓ} (P : Core → Type ℓ) (crypto : Crypto)
    (accepts : (m : RevocationManager) (now : ℕ) (bundle : RevocationBundle) (next : CrlCheckpoint)
      → P (core m)
      → validate_locked crypto m now bundle ≡ ok next
      → P (m.root_der, m.root_digest, next, next.bundle_sha256)) where
  activate_keeps :
      (now : ℕ) (m : RevocationManager) (bundle : RevocationBundle) (made : Result CrlCheckpoint)
      → validate_locked crypto m now bundle ≡ made
      → P (core m)
      → let (n, _, _) = activate now m made in P (core n)
  unfolding activate schedule_expiry
  activate_keeps now m bundle (err e) q h = h
  activate_keeps now m bundle (ok next) q h =
      if_cases
        (λ (r : RevocationManager × Result CrlCheckpoint × List ℕ). let (n, _, _) = r in P (core n))
        (bytes_eq next.bundle_sha256 m.bundle_hash) (m, ok m.checkpoint, [])
        (
          schedule_expiry now next.issuers
              (record m { active = []; bundle_hash = next.bundle_sha256; checkpoint = next }),
          ok next,
          m.active,
        )
        (λ same. h) (λ other. accepts m now bundle next h q)

  apply_keeps :
      (m : RevocationManager) (now : ℕ) (bundle : RevocationBundle)
      → P (core m)
      → let (n, _, _) = apply crypto m now bundle in P (core n)
  unfolding apply
  apply_keeps m now bundle h =
      if_cases
        (λ (r : RevocationManager × Result CrlCheckpoint × List ℕ). let (n, _, _) = r in P (core n))
        m.closed (m, err (security_error "security: revocation manager is closed"), [])
        (activate now m (validate_locked crypto m now bundle)) (λ over. h)
        (λ is_open. activate_keeps now m bundle (validate_locked crypto m now bundle) refl h)

  run_keeps :
      (operation : Operation) (w : World)
      → P (core w.manager)
      → P (core (run crypto operation w).manager)
  unfolding run track_connection expire close close_connection
  run_keeps (apply_bundle now bundle) w h = apply_keeps w.manager now bundle h
  run_keeps (track now chains) w h =
      elim (Option-cases (verify_locked crypto w.manager now chains)) [
        | inl q ↦ rw (q, track_connection) h
        | inr (e, q) ↦ rw (q, track_connection) h
      ]
  run_keeps (fire generation) w h =
      if_cases (λ (r : RevocationManager × List ℕ). let (n, _) = r in P (core n))
        (generation == w.manager.timer_generation)
        (record w.manager { active = []; expiry_timer = none }, w.manager.active) (w.manager, [])
        (λ current. h) (λ other. h)
  run_keeps shut w h = h
  run_keeps (hang_up connection) w h = h

  -- What every accepted checkpoint keeps is kept by all operations.
  pub run_all_keeps :
      (operations : List Operation) (w : World)
      → P (core w.manager)
      → P (core (run_all crypto operations w).manager)
  unfolding run_all
  run_all_keeps [] w h = h
  run_all_keeps (operation ∷ operations) w h =
      run_all_keeps operations (run crypto operation w) (run_keeps operation w h)
