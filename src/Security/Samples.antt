-- ===== src/Security/Samples.antt =====
-- A crypto of small concrete functions, with bundles and managers over it.
use pluginprotocol.Errors.{Result, ok, err}
use pluginprotocol.Prelude.{
  ℕ, zero, suc, ◌+◌, ◌*◌, ◌%◌, ◌<◌, refl, Bool, true, false, Option, none, some, List, [], ◌∷◌, All,
  map, Bytes, bytes_eq, pos, arith,
}
use pluginprotocol.Prelude.Table.{contains}
use pluginprotocol.Security.Bundle.{RevocationManager, validate_locked}
use pluginprotocol.Security.Bundle.Restorable.{IsSha256}
use pluginprotocol.Security.Checkpoint.{CrlCheckpoint, empty_checkpoint}
use pluginprotocol.Security.Crypto.{Certificate, Crl, RevokedEntry, Crypto, hex_sha256}
use pluginprotocol.Security.Manager.{empty_manager}
use pluginprotocol.Security.Manager.Runs.{
  Operation, World, apply_bundle, fire, track, run_all, fresh_world,
}
use pluginprotocol.Security.Records.{RevocationBundle}

-- A certificate is one byte: its own name, key and serial.
abbrev pub certificate_of : ℕ → Certificate
certificate_of n = record {
  raw = n ∷ [];
  is_ca = true;
  serial = pos n;
  subject = n ∷ [];
  subject_key_id = [];
}

abbrev parse_certificate : Bytes → Option Certificate
parse_certificate (n ∷ []) = some (certificate_of n)
parse_certificate [] = none
parse_certificate (n ∷ k ∷ rest) = none

abbrev entry_of : ℕ → RevokedEntry
entry_of n = record { serial = some (pos n); extensions = [] }

-- A CRL is its issuer, its number, its expiry and the serials that it revokes.
abbrev parse_crl : Bytes → Option Crl
parse_crl (issuer ∷ number ∷ update ∷ serials) = some (record {
  issuer = issuer ∷ [];
  number = some (pos number);
  this_update = 1;
  next_update = update;
  authority_key_id = [];
  extensions = [];
  entries = map entry_of serials;
})
parse_crl [] = none
parse_crl (a ∷ []) = none
parse_crl (a ∷ b ∷ []) = none

abbrev signed_by : Bytes → Certificate → Bool
signed_by [] certificate = false
signed_by (issuer ∷ rest) certificate = bytes_eq certificate.raw (issuer ∷ [])

abbrev weight : Bytes → ℕ
weight [] = 7
weight (b ∷ bs) = b + 31 * weight bs

abbrev zeros : ℕ → Bytes
zeros zero = []
zeros (suc n) = 0 ∷ zeros n

abbrev pub toy : Crypto
toy = record {
  parse_certificate = parse_certificate;
  parse_crl = parse_crl;
  signed_by = signed_by;
  chains_to = λ roots intermediates now certificate. contains certificate.raw roots;
  sha256 = λ bytes. weight bytes % 256 ∷ zeros 31;
}

zeros_small : (n : ℕ) → All (λ b. b < 256) (zeros n)
zeros_small zero = tt
zeros_small (suc n) = (omega arith, zeros_small n)

pub toy-IsSha256 : IsSha256 toy
toy-IsSha256 = λ bytes. (refl, (omega arith, zeros_small 31))

-- Two roots, in the wrong order, and the manager of them.
abbrev pub roots : List Bytes
roots = (2 ∷ []) ∷ (1 ∷ []) ∷ []

abbrev pub digest : Bytes
digest = hex_sha256 toy (1 ∷ 2 ∷ [])

abbrev pub start : RevocationManager
start = empty_manager toy roots digest

-- The CRLs of both: the first revokes the serials `serials`.
abbrev pub bundle_of : ℕ → List ℕ → RevocationBundle
bundle_of number serials = record {
  trust_roots_digest = digest;
  records =
      record { issuer_der = 1 ∷ []; crl_der = 1 ∷ number ∷ 100 ∷ serials }
      ∷ record { issuer_der = 2 ∷ []; crl_der = 2 ∷ 1 ∷ 90 ∷ [] }
      ∷ [];
}

-- A leaf under the first root.
abbrev pub leaf_chain : ℕ → List Certificate
leaf_chain n = certificate_of n ∷ certificate_of 1 ∷ []

-- A bundle, a connection, a bundle that revokes another leaf, and a connection again.
abbrev pub history : List Operation
history =
    apply_bundle 10 (bundle_of 1 (7 ∷ []))
    ∷ track 11 (leaf_chain 5 ∷ [])
    ∷ apply_bundle 12 (bundle_of 2 (8 ∷ 7 ∷ []))
    ∷ track 13 (leaf_chain 5 ∷ [])
    ∷ []

abbrev pub first_operations : List Operation
first_operations = apply_bundle 10 (bundle_of 1 (7 ∷ [])) ∷ []

abbrev pub first_world : World
first_world = run_all toy first_operations (fresh_world start)

abbrev pub later_operations : List Operation
later_operations =
    track 11 (leaf_chain 5 ∷ []) ∷ apply_bundle 12 (bundle_of 2 (8 ∷ 7 ∷ [])) ∷ fire 2 ∷ []

abbrev pub later_manager : RevocationManager
later_manager = (run_all toy later_operations first_world).manager

-- What validateLocked makes of a bundle, and a state for it to have.
abbrev pub checkpoint_in : Result CrlCheckpoint → CrlCheckpoint
checkpoint_in (ok c) = c
checkpoint_in (err e) = empty_checkpoint

abbrev pub first_checkpoint : CrlCheckpoint
first_checkpoint = checkpoint_in (validate_locked toy start 10 (bundle_of 1 (7 ∷ [])))

-- What the manager with that bundle makes of the bundle, later.
abbrev pub repeated_checkpoint : CrlCheckpoint
repeated_checkpoint =
    checkpoint_in (validate_locked toy first_world.manager 20 (bundle_of 1 (7 ∷ [])))
