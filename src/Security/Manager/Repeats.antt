-- ===== src/Security/Manager/Repeats.antt =====
-- infrastructure/peer/security/revocation.go: Apply of a bundle that was applied before.
use pluginprotocol.Errors.{GoError, Result, ok, err}
use pluginprotocol.Prelude.{
  ℕ, ◌≡◌, ◌∙◌, ◌⊎◌, refl, ap, sym, inl, inr, List, [], if_cases, bytes_eq, bytes_eq_refl,
  bytes_eq→eq, arith,
}
use pluginprotocol.Security.Bundle.{RevocationManager, validate_locked}
use pluginprotocol.Security.Bundle.Determined.{validate_locked_unique}
use pluginprotocol.Security.Checkpoint.{CrlCheckpoint}
use pluginprotocol.Security.Crypto.{Crypto}
use pluginprotocol.Security.Encoding.{security_error}
use pluginprotocol.Security.Manager.{activate, apply, schedule_expiry}
use pluginprotocol.Security.Records.{RevocationBundle}

abbrev Outcome : Type 0
Outcome = RevocationManager × Result CrlCheckpoint × List ℕ

-- A call that changed nothing and closed nothing, and returned an error or the current checkpoint.
abbrev pub IsIdle : RevocationManager → Outcome → Type 0
IsIdle m (n, result, fenced) =
    (n ≡ m) × (fenced ≡ []) × (((e : GoError) × (result ≡ err e)) ⊎ (result ≡ ok m.checkpoint))

activate_ok :
    (now : ℕ) (m : RevocationManager) (made : Result CrlCheckpoint) {c : CrlCheckpoint}
    → (let (_, result, _) = activate now m made in result) ≡ ok c
    → let (n, _, _) = activate now m made in
      (d : CrlCheckpoint) × (made ≡ ok d) × (n.bundle_hash ≡ d.bundle_sha256)
unfolding activate schedule_expiry
activate_ok now m (err e) q = cc
activate_ok now m (ok d) q = (
  d,
  refl,
  if_cases (λ (r : Outcome). let (n, _, _) = r in n.bundle_hash ≡ d.bundle_sha256)
      (bytes_eq d.bundle_sha256 m.bundle_hash) (m, ok m.checkpoint, [])
      (
        schedule_expiry now d.issuers
            (record m { active = []; bundle_hash = d.bundle_sha256; checkpoint = d }),
        ok d,
        m.active,
      )
      (λ same. sym (bytes_eq→eq d.bundle_sha256 m.bundle_hash same)) (λ other. refl),
)

apply_ok :
    (crypto : Crypto) (m : RevocationManager) (now : ℕ) (bundle : RevocationBundle)
    {c : CrlCheckpoint}
    → (let (_, result, _) = apply crypto m now bundle in result) ≡ ok c
    → let (n, _, _) = apply crypto m now bundle in
      (d : CrlCheckpoint) × (validate_locked crypto m now bundle ≡ ok d)
      × (n.bundle_hash ≡ d.bundle_sha256)
unfolding apply
apply_ok crypto m now bundle {c} =
    if_cases
      (λ (r : Outcome).
        let (n, result, _) = r in
        result ≡ ok c
        → (d : CrlCheckpoint) × (validate_locked crypto m now bundle ≡ ok d)
          × (n.bundle_hash ≡ d.bundle_sha256))
      m.closed (m, err (security_error "security: revocation manager is closed"), [])
      (activate now m (validate_locked crypto m now bundle)) (λ over q. absurd cc)
      (λ is_open q. activate_ok now m (validate_locked crypto m now bundle) q)

activate-IsIdle :
    (now : ℕ) (m : RevocationManager) (made : Result CrlCheckpoint)
    → ((d : CrlCheckpoint) → made ≡ ok d → m.bundle_hash ≡ d.bundle_sha256)
    → IsIdle m (activate now m made)
unfolding activate
activate-IsIdle now m (err e) h = (refl, refl, inl (e, refl))
activate-IsIdle now m (ok d) h =
    if_cases (IsIdle m) (bytes_eq d.bundle_sha256 m.bundle_hash) (m, ok m.checkpoint, [])
      (
        schedule_expiry now d.issuers
            (record m { active = []; bundle_hash = d.bundle_sha256; checkpoint = d }),
        ok d,
        m.active,
      )
      (λ same. (refl, refl, inr refl))
      (λ other. absurd (ground (arith, other, h d refl, bytes_eq_refl m.bundle_hash)))

-- When Apply has accepted a bundle, another Apply of the same bundle, at any time, changes nothing and
-- closes no connection; it returns an error or the manager's checkpoint.
pub apply_again :
    (crypto : Crypto) (m : RevocationManager) (now later : ℕ) (bundle : RevocationBundle)
    {c : CrlCheckpoint}
    → (let (_, result, _) = apply crypto m now bundle in result) ≡ ok c
    → let (n, _, _) = apply crypto m now bundle in IsIdle n (apply crypto n later bundle)
unfolding apply
apply_again crypto m now later bundle e =
    let (n, _, _) = apply crypto m now bundle in
    let (d, accepted, hash) = apply_ok crypto m now bundle e in
    if_cases (IsIdle n) n.closed
      (n, err (security_error "security: revocation manager is closed"), [])
      (activate later n (validate_locked crypto n later bundle))
      (λ over. (refl, refl, inl (_, refl)))
      (λ is_open. activate-IsIdle later n (validate_locked crypto n later bundle) (λ next q.
        hash
        ∙ ap (λ (x : CrlCheckpoint). x.bundle_sha256)
            (validate_locked_unique crypto bundle m n now later accepted q)))
