-- ===== src/Security/Tests.antt =====
-- Runs of infrastructure/peer/security/revocation.go with the sample cryptography.
use mathlib.Core.List.{Memᴰ}
use mathlib.Core.List.Perm.{swap}
use pluginprotocol.Errors.{GoError, ok, err}
use pluginprotocol.Prelude.{
  All, ◌≡◌, ◌↔◌, refl, true, none, some, List, [], ◌∷◌, Bytes, bytes_eq, bytes_lt, arith, codes,
}
use pluginprotocol.Prelude.Strings.{Distinct}
use pluginprotocol.Prelude.Table.{contains}
use pluginprotocol.Security.Bundle.{RevocationManager, issuers_of, validate_locked}
use pluginprotocol.Security.Bundle.Determined.{validate_locked_unique}
use pluginprotocol.Security.Bundle.Collected.{parsed_certificates}
use pluginprotocol.Security.Bundle.Sound.{AllGenuine, validate_locked_sound}
use pluginprotocol.Security.Crypto.{hex_sha256}
use pluginprotocol.Security.Checkpoint.{
  issuer_hashes, canonical_trust_roots_digest, checkpoint_bundle_hash, validate_checkpoint,
}
use pluginprotocol.Security.Checkpoint.Roots.{
  canonical_trust_roots_digest-Perm, canonical_trust_roots_digest-Distinct, is_ok,
}
use pluginprotocol.Security.Checkpoint.Tampered.{
  retouched_checkpoint, validate_checkpoint-retouched,
}
use pluginprotocol.Security.Encoding.{hex_encode, hex_decode, parse_number}
use pluginprotocol.Security.Manager.{new_revocation_manager, apply, track_connection, verify_locked}
use pluginprotocol.Security.Manager.Chains.{IsAdmissible, verify_locked_iff}
use pluginprotocol.Security.Manager.Epochs.{HasDistinct, NotBefore, issuers_in, run_all-Moves}
use pluginprotocol.Security.Manager.Fence.{AllFenced, run_all-AllFenced}
use pluginprotocol.Security.Manager.Lasting.{run_all-revoked}
use pluginprotocol.Security.Manager.Repeats.{IsIdle, apply_again}
use pluginprotocol.Security.Manager.Restart.{new_revocation_manager-checkpoint}
use pluginprotocol.Security.Manager.Runs.{World, run_all, fresh_world}
use pluginprotocol.Security.Manager.Steps.{core}
use pluginprotocol.Security.Records.{ParsedRecord}
use pluginprotocol.Security.Samples.{
  toy, toy-IsSha256, certificate_of, roots, start, history, bundle_of, leaf_chain, first_operations,
  first_world, later_operations, later_manager, first_checkpoint, repeated_checkpoint,
}
use pluginprotocol.Security.States.{find}

new_start : new_revocation_manager toy 10 roots none ≡ ok start
unfolding new_revocation_manager bytes_lt bytes_eq
new_start = refl

abbrev last : World
last = run_all toy history (fresh_world start)

history_ended : last.ended ≡ 0 ∷ []
unfolding run_all bytes_lt bytes_eq hex_encode
history_ended = refl

history_active : last.manager.active ≡ 1 ∷ []
unfolding run_all bytes_lt bytes_eq hex_encode
history_active = refl

run_all-AllFenced_example : AllFenced last
run_all-AllFenced_example = run_all-AllFenced toy start history

first_distinct : HasDistinct first_world.manager
unfolding run_all bytes_lt bytes_eq hex_encode contains
first_distinct = (refl, (refl, tt))

run_all-Moves_example :
    HasDistinct later_manager
    × NotBefore (issuers_in first_world.manager) (issuers_in later_manager)
run_all-Moves_example = run_all-Moves toy later_operations first_world first_distinct

run_all-revoked_example :
    (e : GoError) × (track_connection toy later_manager 14 (some 3) (leaf_chain 7 ∷ [])
      ≡ (later_manager, err e))
unfolding run_all bytes_lt bytes_eq hex_encode contains find
run_all-revoked_example =
    run_all-revoked toy 10 roots none first_operations later_operations (certificate_of 7)
      (certificate_of 1) 14 (some 3) (leaf_chain 7 ∷ []) (certificate_of 7) (certificate_of 1 ∷ [])
      new_start refl refl (Memᴰ.head refl) (Memᴰ.head refl)

new_revocation_manager-checkpoint_example :
    (r : RevocationManager) × (new_revocation_manager toy 50 roots (some last.manager.checkpoint)
      ≡ ok r)
    × (core r ≡ core last.manager)
unfolding run_all bytes_lt bytes_eq hex_encode
new_revocation_manager-checkpoint_example =
    new_revocation_manager-checkpoint toy 10 50 roots none history toy-IsSha256 new_start refl

verify_locked_iff_example :
    (verify_locked toy first_world.manager 11 (leaf_chain 5 ∷ []) ≡ none)
    ↔ IsAdmissible toy first_world.manager 11 (leaf_chain 5 ∷ [])
verify_locked_iff_example =
    verify_locked_iff toy first_world.manager 11 (leaf_chain 5 ∷ []) first_distinct

first_accepted : validate_locked toy start 10 (bundle_of 1 (7 ∷ [])) ≡ ok first_checkpoint
unfolding validate_locked bytes_lt bytes_eq hex_encode
first_accepted = refl

validate_locked_sound_example :
    (parsed : List ParsedRecord) × AllGenuine toy start.root_der
      (parsed_certificates toy (bundle_of 1 (7 ∷ [])).records)
      10
      (bundle_of 1 (7 ∷ [])).records
      parsed
    × Distinct (issuers_of parsed)
    × All (λ der. contains (hex_sha256 toy der) (issuers_of parsed) ≡ true) start.root_der
    × ((k : Bytes)
        → contains k (issuer_hashes first_checkpoint.issuers) ≡ contains k (issuers_of parsed))
    × ((bundle_of 1 (7 ∷ [])).trust_roots_digest ≡ start.root_digest)
    × (first_checkpoint.trust_roots_digest ≡ start.root_digest)
    × (first_checkpoint.bundle_sha256 ≡ checkpoint_bundle_hash toy first_checkpoint)
validate_locked_sound_example =
    validate_locked_sound toy start 10 (bundle_of 1 (7 ∷ [])) first_accepted

first_accepted_again :
    validate_locked toy first_world.manager 20 (bundle_of 1 (7 ∷ [])) ≡ ok repeated_checkpoint
unfolding run_all validate_locked bytes_lt bytes_eq hex_encode
first_accepted_again = refl

validate_locked_unique_example : first_checkpoint ≡ repeated_checkpoint
validate_locked_unique_example =
    validate_locked_unique toy (bundle_of 1 (7 ∷ [])) start first_world.manager 10 20 first_accepted
      first_accepted_again

first_applied :
    (let (_, result, _) = apply toy start 10 (bundle_of 1 (7 ∷ [])) in result) ≡ ok first_checkpoint
unfolding apply validate_locked bytes_lt bytes_eq hex_encode
first_applied = refl

apply_again_example :
    let (n, _, _) = apply toy start 10 (bundle_of 1 (7 ∷ [])) in
    IsIdle n (apply toy n 20 (bundle_of 1 (7 ∷ [])))
apply_again_example = apply_again toy start 10 20 (bundle_of 1 (7 ∷ [])) first_applied

canonical_trust_roots_digest-Perm_example :
    canonical_trust_roots_digest toy ((1 ∷ []) ∷ (2 ∷ []) ∷ [])
    ≡ canonical_trust_roots_digest toy roots
canonical_trust_roots_digest-Perm_example =
    canonical_trust_roots_digest-Perm toy ((1 ∷ []) ∷ (2 ∷ []) ∷ []) roots
      (swap (2 ∷ []) (1 ∷ []) [])

canonical_trust_roots_digest-Distinct_example :
    (is_ok (canonical_trust_roots_digest toy ((2 ∷ []) ∷ (2 ∷ []) ∷ [])) ≡ true)
    ↔ Distinct ((2 ∷ []) ∷ (2 ∷ []) ∷ [])
canonical_trust_roots_digest-Distinct_example =
    canonical_trust_roots_digest-Distinct toy (2 ∷ []) ((2 ∷ []) ∷ [])

first_valid : validate_checkpoint toy first_checkpoint ≡ none
unfolding validate_checkpoint validate_locked bytes_lt bytes_eq hex_encode hex_decode
first_valid = refl

-- The CRL number 0 and an expiry long after that of the CRL.
validate_checkpoint-retouched_example :
    validate_checkpoint toy
      (retouched_checkpoint (λ i. codes "0") (λ i. 1_000_000) first_checkpoint)
    ≡ none
unfolding parse_number
validate_checkpoint-retouched_example =
    validate_checkpoint-retouched (λ i. codes "0") (λ i. 1_000_000) (λ i. refl) (λ i. omega arith)
      toy first_checkpoint first_valid
