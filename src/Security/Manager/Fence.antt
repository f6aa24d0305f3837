-- ===== src/Security/Manager/Fence.antt =====
-- infrastructure/peer/security/revocation.go: the fence around the connections of a bundle.
use pluginprotocol.Errors.{Result, ok, err}
use pluginprotocol.Prelude.{
  ℕ, ◌==◌, ◌≡◌, ◌∙◌, ◌⊎◌, refl, inl, inr, true, false, ◌||◌, ◌&&◌, not, none, List, [], ◌∷◌, ◌++◌,
  All, if_cases, bytes_eq, Bool-cases, Option-cases, arith,
}
use pluginprotocol.Security.Bundle.{RevocationManager, validate_locked}
use pluginprotocol.Security.Checkpoint.{CrlCheckpoint}
use pluginprotocol.Security.Crypto.{Certificate, Crypto}
use pluginprotocol.Security.Encoding.{security_error}
use pluginprotocol.Security.Manager.{
  activate, apply, close, close_connection, expire, remove_active, schedule_expiry,
  track_connection, verify_locked,
}
use pluginprotocol.Security.Records.{RevocationBundle}
use pluginprotocol.Security.Manager.Runs.{
  Admission, World, Operation, apply_bundle, track, fire, shut, hang_up, has_number, fenced_by, run,
  run_all, fresh_world,
}

-- A connection that was admitted is closed, or it is active under the bundle that it was checked
-- against, of a manager that is open.
abbrev pub IsFenced : RevocationManager → List ℕ → Admission → Type 0
IsFenced m ended a =
    (has_number a.connection ended ≡ true)
    ⊎ ((has_number a.connection m.active ≡ true) × (a.bundle ≡ m.bundle_hash) × (m.closed ≡ false))

abbrev pub AllFenced : World → Type 0
AllFenced w = All (IsFenced w.manager w.ended) w.admitted

has_number-append :
    (k : ℕ) (xs ys : List ℕ) → has_number k (xs ++ ys) ≡ (has_number k xs || has_number k ys)
unfolding has_number
has_number-append k [] ys = refl
has_number-append k (x ∷ xs) ys = ground (arith, has_number-append k xs ys)

has_number-remove_active :
    (k connection : ℕ) (xs : List ℕ)
    → has_number k (remove_active connection xs) ≡ (has_number k xs && not (connection == k))
unfolding has_number remove_active
has_number-remove_active k connection [] = refl
has_number-remove_active k connection (x ∷ xs) =
    ground (arith, has_number-remove_active k connection xs)

All-map :
    {P Q : Admission → Type 0} (admissions : List Admission)
    → ((a : Admission) → P a → Q a)
    → All P admissions
    → All Q admissions
All-map [] f h = tt
All-map (a ∷ others) f h = (f a h.0, All-map others f h.1)

-- Closing all that is active fences every connection.
fence_all :
    (w : World) (m : RevocationManager) → AllFenced w → AllFenced (fenced_by w m w.manager.active)
fence_all w m h = All-map w.admitted (λ a fenced. inl (fence_one a fenced)) h
  where
    fence_one :
        (a : Admission)
        → IsFenced w.manager w.ended a
        → has_number a.connection (w.manager.active ++ w.ended) ≡ true
    fence_one a (inl ended) =
        has_number-append a.connection w.manager.active w.ended ∙ ground (arith, ended)
    fence_one a (inr (active, _, _)) =
        has_number-append a.connection w.manager.active w.ended ∙ ground (arith, active)

activate-AllFenced :
    (now : ℕ) (w : World) (next : Result CrlCheckpoint)
    → AllFenced w
    → AllFenced (let (m, _, fenced) = activate now w.manager next in fenced_by w m fenced)
unfolding activate
activate-AllFenced now w (err e) h = h
activate-AllFenced now w (ok next) h =
    elim (Bool-cases (bytes_eq next.bundle_sha256 w.manager.bundle_hash)) [
      | inl same ↦ rw same h
      | inr other ↦ rw other (
          fence_all w
            (schedule_expiry now next.issuers (record w.manager {
              active = [];
              bundle_hash = next.bundle_sha256;
              checkpoint = next;
            }))
            h)
    ]

apply-AllFenced :
    (crypto : Crypto) (now : ℕ) (bundle : RevocationBundle) (w : World)
    → AllFenced w
    → AllFenced (run crypto (apply_bundle now bundle) w)
unfolding run apply
apply-AllFenced crypto now bundle w h =
    if_cases
      (λ (r : RevocationManager × Result CrlCheckpoint × List ℕ).
        let (m, _, fenced) = r in AllFenced (fenced_by w m fenced))
      w.manager.closed
      (w.manager, err (security_error "security: revocation manager is closed"), [])
      (activate now w.manager (validate_locked crypto w.manager now bundle)) (λ over. h)
      (λ is_open. activate-AllFenced now w (validate_locked crypto w.manager now bundle) h)

track_connection-IsFenced :
    (m : RevocationManager) (ended : List ℕ) (connection : ℕ) (a : Admission)
    → IsFenced m ended a
    → IsFenced (record m { active = connection ∷ m.active }) ended a
unfolding has_number
track_connection-IsFenced m ended connection a (inl over) = inl over
track_connection-IsFenced m ended connection a (inr (active, same, is_open)) =
    inr (ground (arith, active), same, is_open)

track-AllFenced :
    (crypto : Crypto) (now : ℕ) (chains : List (List Certificate)) (w : World)
    → AllFenced w
    → AllFenced (run crypto (track now chains) w)
unfolding run track_connection has_number verify_locked
track-AllFenced crypto now chains w h =
    elim (Option-cases (verify_locked crypto w.manager now chains)) [
      | inl admitted ↦
          rw (admitted, track_connection)
            (
              inr (ground arith, refl, verified_open admitted),
              All-map w.admitted (track_connection-IsFenced w.manager w.ended w.next) h,
            )
      | inr (e, q) ↦ rw (q, track_connection) h
    ]
  where
    verified_open : verify_locked crypto w.manager now chains ≡ none → w.manager.closed ≡ false
    verified_open e = ground arith

hang_up-AllFenced :
    (crypto : Crypto) (connection : ℕ) (w : World)
    → AllFenced w
    → AllFenced (run crypto (hang_up connection) w)
unfolding run close_connection has_number
hang_up-AllFenced crypto connection w h = All-map w.admitted without h
  where
    without :
        (a : Admission)
        → IsFenced w.manager w.ended a
        → IsFenced (close_connection connection w.manager) (connection ∷ w.ended) a
    without a (inl ended) = inl (ground (arith, ended))
    without a (inr (active, same, is_open)) = elim (Bool-cases (connection == a.connection)) [
      | inl this ↦ inl (ground (arith, this))
      | inr other ↦ inr (
        has_number-remove_active a.connection connection w.manager.active
            ∙ ground (arith, active, other),
        same,
        is_open,
      )
    ]

run-AllFenced :
    (crypto : Crypto) (operation : Operation) (w : World)
    → AllFenced w
    → AllFenced (run crypto operation w)
unfolding run expire close
run-AllFenced crypto (apply_bundle now bundle) w h = apply-AllFenced crypto now bundle w h
run-AllFenced crypto (track now chains) w h = track-AllFenced crypto now chains w h
run-AllFenced crypto (fire generation) w h =
    elim (Bool-cases (generation == w.manager.timer_generation)) [
      | inl current ↦
          rw current (fence_all w (record w.manager { active = []; expiry_timer = none }) h)
      | inr other ↦ rw other h
    ]
run-AllFenced crypto shut w h = fence_all w (let (m, _) = close w.manager in m) h
run-AllFenced crypto (hang_up connection) w h = hang_up-AllFenced crypto connection w h

run_all_fenced :
    (crypto : Crypto) (operations : List Operation) (w : World)
    → AllFenced w
    → AllFenced (run_all crypto operations w)
unfolding run_all
run_all_fenced crypto [] w h = h
run_all_fenced crypto (operation ∷ operations) w h =
    run_all_fenced crypto operations (run crypto operation w) (run-AllFenced crypto operation w h)

-- After any sequence of operations on a manager, each connection that was ever admitted has been
-- closed, or the manager is open, the connection is among the active ones, and the bundle that it was
-- checked against is still the manager's.
pub run_all-AllFenced :
    (crypto : Crypto) (m : RevocationManager) (operations : List Operation)
    → AllFenced (run_all crypto operations (fresh_world m))
run_all-AllFenced crypto m operations = run_all_fenced crypto operations (fresh_world m) tt
