-- ===== src/Security/Manager/Lasting.antt =====
-- infrastructure/peer/security/revocation.go: a revoked certificate stays revoked.
use mathlib.Core.List.{Memᴰ}
use mathlib.Core.List.Memᴰ.{not-nil}
use pluginprotocol.Errors.{GoError, ok, err}
use pluginprotocol.Prelude.{
  ℕ, ◌≡◌, ◌∙◌, ◌⊎◌, refl, ap, sym, inl, inr, true, Option, none, some, List, [], ◌∷◌, All, Bytes,
  Option-cases, arith, subst,
}
use pluginprotocol.Prelude.Table.{contains}
use pluginprotocol.Security.Bundle.{RevocationManager}
use pluginprotocol.Security.Bundle.Advance.{contains-includes}
use pluginprotocol.Security.Bundle.Monotone.{Advances}
use pluginprotocol.Security.Checkpoint.{CrlCheckpoint, IssuerCheckpoint}
use pluginprotocol.Security.Crypto.{Certificate, Crypto, hex_sha256}
use pluginprotocol.Security.Encoding.{decimal}
use pluginprotocol.Security.Manager.{new_revocation_manager, verify_locked, track_connection}
use pluginprotocol.Security.Manager.Chains.{IsCleared, IsClearedChain, links, verify_locked_iff}
use pluginprotocol.Security.Manager.Epochs.{NotBefore, HasDistinct, issuers_in, run_all-Moves}
use pluginprotocol.Security.Manager.Restart.{new_revocation_manager-HasDistinct}
use pluginprotocol.Security.Manager.Runs.{World, Operation, run_all, fresh_world}
use pluginprotocol.Security.States.{find}

All-Mem {ℓ κ} : {A : Type ℓ} (P : A → Type κ) {a : A} (xs : List A) → Memᴰ a xs → All P xs → P a
All-Mem P [] m h = absurd (not-nil m)
All-Mem P (x ∷ xs) (Memᴰ.head e) h = subst P (sym e) h.0
All-Mem P (x ∷ xs) (Memᴰ.tail m) h = All-Mem P xs m h.1

-- A serial that an issuer revoked is revoked in its later states.
still_revoked :
    (before after : List IssuerCheckpoint) (k serial : Bytes) {old : IssuerCheckpoint}
    → NotBefore before after
    → find k before ≡ some old
    → contains serial old.revoked ≡ true
    → (new : IssuerCheckpoint) × (find k after ≡ some new) × (contains serial new.revoked ≡ true)
unfolding NotBefore
still_revoked before after k serial {old} moved found revoked =
    let (new, found_new, how) = moved k old found in (new, found_new, lasting new how)
  where
    lasting :
        (new : IssuerCheckpoint)
        → (old ≡ new) ⊎ Advances old new
        → contains serial new.revoked ≡ true
    lasting new (inl same) =
        ap (λ (s : IssuerCheckpoint). contains serial s.revoked) (sym same) ∙ revoked
    lasting new (inr advances) =
        contains-includes serial new.revoked old.revoked advances.no_removal revoked

refused_after :
    (crypto : Crypto) (operations : List Operation) (w : World) (certificate issuer : Certificate)
    {state : IssuerCheckpoint}
    → HasDistinct w.manager
    → find (hex_sha256 crypto issuer.raw) (issuers_in w.manager) ≡ some state
    → contains (decimal certificate.serial) state.revoked ≡ true
    → (now : ℕ) (transport : Option ℕ) (chains : List (List Certificate))
    → (leaf : Certificate) (chain : List Certificate) → Memᴰ (leaf ∷ chain) chains
    → Memᴰ (certificate, issuer) (links leaf chain)
    → let later = (run_all crypto operations w).manager in
      (e : GoError) × (track_connection crypto later now transport chains ≡ (later, err e))
unfolding track_connection
refused_after crypto operations w certificate issuer {state} d found revoked now none chains leaf
      chain in_chains in_links =
    (_, refl)
refused_after crypto operations w certificate issuer {state} d found revoked now (some transport)
      chains leaf chain in_chains in_links =
    let later = (run_all crypto operations w).manager in
    let (distinct, moved) = run_all-Moves crypto operations w d in
    let (new, found_new, still) =
      still_revoked (issuers_in w.manager) (issuers_in later) (hex_sha256 crypto issuer.raw)
        (decimal certificate.serial) moved found revoked in
    elim (Option-cases (verify_locked crypto later now chains)) [
      | inl admitted ↦
          let admissible = (verify_locked_iff crypto later now chains distinct).0 admitted in
          let cleared = All-Mem (IsCleared crypto (issuers_in later)) (links leaf chain) in_links (
            All-Mem (IsClearedChain crypto (issuers_in later)) chains in_chains
              admissible.cleared) in
          absurd (ground (arith, cleared.stated, found_new, cleared.not_revoked, still))
      | inr (e, q) ↦ (e, rw (q, track_connection) refl)
    ]

-- Let NewRevocationManager make a manager, with a checkpoint or without one. Once the manager's state
-- of an issuer revokes a certificate's serial, TrackConnection reports an error after any operations
-- that follow, for every transport and time, when one of the chains has that certificate under that
-- issuer.
pub run_all-revoked :
    (crypto : Crypto) (made_at : ℕ) (ders : List Bytes) (first : Option CrlCheckpoint)
    (before after : List Operation) (certificate issuer : Certificate) (now : ℕ)
    (transport : Option ℕ) (chains : List (List Certificate)) (leaf : Certificate)
    (chain : List Certificate) {m : RevocationManager} {state : IssuerCheckpoint}
    → new_revocation_manager crypto made_at ders first ≡ ok m
    → find
        (hex_sha256 crypto issuer.raw)
        (issuers_in (run_all crypto before (fresh_world m)).manager)
      ≡ some state
    → contains (decimal certificate.serial) state.revoked ≡ true
    → Memᴰ (leaf ∷ chain) chains
    → Memᴰ (certificate, issuer) (links leaf chain)
    → let later = (run_all crypto after (run_all crypto before (fresh_world m))).manager in
      (e : GoError) × (track_connection crypto later now transport chains ≡ (later, err e))
run_all-revoked crypto made_at ders first before after certificate issuer now transport chains leaf
      chain {m} made found revoked in_chains in_links =
    let (distinct, _) =
      run_all-Moves crypto before (fresh_world m)
        (new_revocation_manager-HasDistinct crypto made_at ders first made) in
    refused_after crypto after (run_all crypto before (fresh_world m)) certificate issuer distinct
      found revoked now transport chains leaf chain in_chains in_links
