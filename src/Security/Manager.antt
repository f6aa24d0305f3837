-- ===== src/Security/Manager.antt =====
-- infrastructure/peer/security/revocation.go: the operations of RevocationManager. Its lock is held
-- while its state changes, so each is a step. What `fenceLocked` closes is returned as a list: the
-- close of each connection is started whether or not the call waits for it to end.
pub mod Runs
pub mod Fence
pub mod Chains
pub mod Steps
pub mod Epochs
pub mod Lasting
pub mod Restart
pub mod Repeats
use pluginprotocol.Errors.{GoError, Result, ok, err}
use pluginprotocol.Prelude.{
  ℕ, suc, ◌+◌, ◌%◌, ◌^◌, Bool, true, false, ◌&&◌, ◌||◌, not, Option, none, some, List, [], ◌∷◌,
  ◌==◌, ltb, if◌then◌else◌, Bytes, bytes_eq,
}
use pluginprotocol.Prelude.Strings.{sort_strings}
use pluginprotocol.Prelude.Table.{contains, lookup}
use pluginprotocol.Security.Bundle.{
  RevocationManager, ExpiryTimer, States, old_states, is_empty, covers, validate_locked,
}
use pluginprotocol.Security.Checkpoint.{
  IssuerCheckpoint, CrlCheckpoint, issuer_hashes, empty_checkpoint, or_else,
  canonical_trust_roots_digest, checkpoint_bundle_hash, validate_checkpoint,
}
use pluginprotocol.Security.Crypto.{Certificate, Crypto, hex_sha256}
use pluginprotocol.Security.Encoding.{security_error, decimal}
use pluginprotocol.Security.Records.{RevocationBundle, is_exact_ca}

-- The loop over the issuers of scheduleExpiryLocked; 0 is the zero time.
unfoldable pub earliest_update : ℕ → List IssuerCheckpoint → ℕ
earliest_update earliest [] = earliest
earliest_update earliest (issuer ∷ issuers) =
    earliest_update
      (if earliest == 0 || ltb issuer.next_update earliest then issuer.next_update else earliest)
      issuers

unfoldable pub timer_for : ℕ → ℕ → ℕ → Option ExpiryTimer
timer_for now generation earliest =
    if earliest == 0
    then none
    else some
        (record { generation = generation; fires_at = if ltb earliest now then now else earliest })

unfoldable pub schedule_expiry : ℕ → List IssuerCheckpoint → RevocationManager → RevocationManager
unfolding earliest_update timer_for
schedule_expiry now issuers m =
    let generation = (m.timer_generation + 1) % 2 ^ 64 in
    record m {
      timer_generation = generation;
      expiry_timer = timer_for now generation (earliest_update 0 issuers);
    }

-- The function of a timer that fires: a timer of another generation does nothing.
unfoldable pub expire : ℕ → RevocationManager → RevocationManager × List ℕ
expire generation m =
    if generation == m.timer_generation
    then (record m { active = []; expiry_timer = none }, m.active)
    else (m, [])

-- trackedConnection.Close, and its connection's place among the active ones.
unfoldable pub remove_active : ℕ → List ℕ → List ℕ
remove_active connection [] = []
remove_active connection (c ∷ cs) =
    let rest = remove_active connection cs in if c == connection then rest else c ∷ rest

unfoldable pub close_connection : ℕ → RevocationManager → RevocationManager
unfolding remove_active
close_connection connection m = record m { active = remove_active connection m.active }

-- The states that are current, under their issuers, unless one has expired.
unfoldable pub is_fresh : ℕ → List IssuerCheckpoint → Bool
is_fresh now [] = true
is_fresh now (state ∷ states) =
    let rest = is_fresh now states in if ltb now state.next_update then rest else false

-- A certificate under its issuer, or the root under itself; `message` is that of a revoked one.
unfoldable pub check_certificate :
    Crypto → States → GoError → Certificate → Certificate → Option GoError
unfolding lookup contains decimal
check_certificate crypto states message issuer certificate =
    elim (lookup (hex_sha256 crypto issuer.raw) states) [
      | none ↦ some (security_error "security: certificate issuer has no current CRL")
      | some state ↦
          if contains (decimal certificate.serial) state.revoked then some message else none
    ]

-- The chain that begins with `certificate`.
unfoldable pub check_chain : Crypto → States → Certificate → List Certificate → Option GoError
unfolding check_certificate
check_chain crypto states certificate [] =
    check_certificate crypto states (security_error "security: peer trust root is revoked")
      certificate certificate
check_chain crypto states certificate (issuer ∷ chain) =
    or_else
      (check_certificate crypto states (security_error "security: peer certificate is revoked")
        issuer certificate)
      (check_chain crypto states issuer chain)

unfoldable pub check_chains : Crypto → States → List (List Certificate) → Option GoError
unfolding check_chain
check_chains crypto states [] = none
check_chains crypto states ([] ∷ chains) =
    some (security_error "security: peer has an empty verified certificate chain")
check_chains crypto states ((certificate ∷ chain) ∷ chains) =
    or_else (check_chain crypto states certificate chain) (check_chains crypto states chains)

unfoldable pub verify_locked :
    Crypto → RevocationManager → ℕ → List (List Certificate) → Option GoError
unfolding is_fresh old_states check_chains
verify_locked crypto m now chains =
    if m.closed
    then some (security_error "security: revocation manager is closed")
    else if is_empty chains
    then some (security_error "security: peer has no verified certificate chain")
    else if bytes_eq m.bundle_hash [] || is_empty m.checkpoint.issuers
    then some (security_error "security: no current revocation bundle")
    else if is_fresh now m.checkpoint.issuers
    then check_chains crypto (old_states [] m.checkpoint.issuers) chains
    else some (security_error "security: current CRL has expired")

-- The transport of TrackConnection is nil, or a connection of its own number.
unfoldable pub track_connection :
    Crypto
    → RevocationManager
    → ℕ
    → Option ℕ
    → List (List Certificate)
    → RevocationManager × Result ℕ
unfolding verify_locked
track_connection crypto m now none chains =
    (m, err (security_error "security: revocation manager and transport are required"))
track_connection crypto m now (some connection) chains = elim (verify_locked crypto m now chains) [
  | some e ↦ (m, err e)
  | none ↦ (record m { active = connection ∷ m.active }, ok connection)
]

-- Apply after validateLocked.
unfoldable pub activate :
    ℕ → RevocationManager → Result CrlCheckpoint → RevocationManager × Result CrlCheckpoint × List ℕ
unfolding schedule_expiry
activate now m (err e) = (m, err e, [])
activate now m (ok next) =
    if bytes_eq next.bundle_sha256 m.bundle_hash then (m, ok m.checkpoint, []) else (
      schedule_expiry now next.issuers
          (record m { active = []; bundle_hash = next.bundle_sha256; checkpoint = next }),
      ok next,
      m.active,
    )

unfoldable pub apply :
    Crypto
    → RevocationManager
    → ℕ
    → RevocationBundle
    → RevocationManager × Result CrlCheckpoint × List ℕ
unfolding validate_locked activate
apply crypto m now bundle =
    if m.closed
    then (m, err (security_error "security: revocation manager is closed"), [])
    else activate now m (validate_locked crypto m now bundle)

unfoldable pub close : RevocationManager → RevocationManager × List ℕ
close m = (
  record m {
    closed = true;
    timer_generation = (m.timer_generation + 1) % 2 ^ 64;
    expiry_timer = none;
    active = [];
  },
  m.active,
)

-- NewRevocationManager: the loop over the roots.
unfoldable pub check_roots : Crypto → List Bytes → Option GoError
unfolding is_exact_ca
check_roots crypto [] = none
check_roots crypto (der ∷ ders) = elim (crypto.parse_certificate der) [
  | none ↦ some (security_error "security: invalid revocation trust root")
  | some certificate ↦
      let rest = check_roots crypto ders in
      if is_exact_ca certificate der
      then rest
      else some (security_error "security: invalid revocation trust root")
]

module _ (crypto : Crypto) where
  -- A checkpoint that passes every check becomes the manager's state.
  unfoldable pub restore : ℕ → RevocationManager → CrlCheckpoint → Result RevocationManager
  unfolding validate_checkpoint covers checkpoint_bundle_hash schedule_expiry
  restore now m checkpoint =
      if not (bytes_eq checkpoint.trust_roots_digest m.root_digest)
      then err (security_error "security: revocation checkpoint trust-root digest mismatch")
      else elim (validate_checkpoint crypto checkpoint) [
        | some e ↦ err e
        | none ↦
            if not (is_empty checkpoint.issuers)
              && not (covers crypto (issuer_hashes checkpoint.issuers) m.root_der)
            then err (security_error "security: revocation checkpoint omits a trust-root issuer")
            else ok (
                schedule_expiry now checkpoint.issuers (record m {
                  checkpoint = checkpoint;
                  bundle_hash = checkpoint_bundle_hash crypto checkpoint;
                }))
      ]

  abbrev pub empty_manager : List Bytes → Bytes → RevocationManager
  empty_manager root_der digest = record {
    root_der = sort_strings root_der;
    root_digest = digest;
    checkpoint = empty_checkpoint;
    active = [];
    bundle_hash = [];
    expiry_timer = none;
    timer_generation = 0;
    closed = false;
  }

  abbrev restore_if : ℕ → RevocationManager → Option CrlCheckpoint → Result RevocationManager
  restore_if now m none = ok m
  restore_if now m (some checkpoint) = restore now m checkpoint

  abbrev with_digest :
      ℕ → List Bytes → Option CrlCheckpoint → Result Bytes → Result RevocationManager
  with_digest now root_der checkpoint (err e) = err e
  with_digest now root_der checkpoint (ok digest) = elim (check_roots crypto root_der) [
    | some e ↦ err e
    | none ↦ restore_if now (empty_manager root_der digest) checkpoint
  ]

  unfoldable pub new_revocation_manager :
      ℕ → List Bytes → Option CrlCheckpoint → Result RevocationManager
  unfolding canonical_trust_roots_digest check_roots sort_strings restore
  new_revocation_manager now root_der checkpoint =
      if is_empty root_der
      then err (security_error "security: revocation requires trust roots")
      else with_digest now root_der checkpoint (canonical_trust_roots_digest crypto root_der)
