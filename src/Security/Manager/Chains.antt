-- ===== src/Security/Manager/Chains.antt =====
-- infrastructure/peer/security/revocation.go: which verified chains verifyLocked admits.
use pluginprotocol.Errors.{GoError}
use pluginprotocol.Prelude.{
  ℕ, ◌<◌, ◌≡◌, ◌↔◌, ◌∙◌, refl, sym, inl, inr, true, false, none, some, List, [], ◌∷◌, All, ltb→lt,
  lt→ltb, bytes_eq, Option-cases, arith,
}
use pluginprotocol.Prelude.Strings.{Distinct}
use pluginprotocol.Prelude.Table.{contains, lookup}
use pluginprotocol.Security.Bundle.{RevocationManager, old_states, is_empty}
use pluginprotocol.Security.Checkpoint.{IssuerCheckpoint, issuer_hashes, or_else-none}
use pluginprotocol.Security.Crypto.{Certificate, Crypto, hex_sha256}
use pluginprotocol.Security.Encoding.{decimal}
use pluginprotocol.Security.Manager.{
  check_certificate, check_chain, check_chains, is_fresh, verify_locked,
}
use pluginprotocol.Security.States.{find, lookup-old_states}

-- The certificates of a chain, each with the one that has to have a state: its issuer, and for the
-- last one itself.
abbrev pub links : Certificate → List Certificate → List (Certificate × Certificate)
links certificate [] = (certificate, certificate) ∷ []
links certificate (issuer ∷ chain) = (certificate, issuer) ∷ links issuer chain

-- The issuer has a state, and it does not revoke the certificate.
pub record IsCleared (crypto : Crypto) (issuers : List IssuerCheckpoint)
    (link : Certificate × Certificate) : Type 0 where
  pub state : IssuerCheckpoint
  pub stated : find (hex_sha256 crypto link.1.raw) issuers ≡ some state
  pub not_revoked : contains (decimal link.0.serial) state.revoked ≡ false

abbrev pub IsClearedChain : Crypto → List IssuerCheckpoint → List Certificate → Type 0
IsClearedChain crypto issuers [] = ⊥
IsClearedChain crypto issuers (certificate ∷ chain) =
    All (IsCleared crypto issuers) (links certificate chain)

-- What a peer needs: a manager that is open and has a bundle, no expired CRL in it, and one chain at
-- least, in all of which each certificate is covered and not revoked.
pub record IsAdmissible (crypto : Crypto) (m : RevocationManager) (now : ℕ)
    (chains : List (List Certificate)) : Type 0 where
  pub is_open : m.closed ≡ false
  pub has_chain : is_empty chains ≡ false
  pub has_bundle : bytes_eq m.bundle_hash [] ≡ false
  pub has_issuer : is_empty m.checkpoint.issuers ≡ false
  pub fresh : All (λ state. now < state.next_update) m.checkpoint.issuers
  pub cleared : All (IsClearedChain crypto m.checkpoint.issuers) chains

is_fresh→All :
    (now : ℕ) (states : List IssuerCheckpoint)
    → is_fresh now states ≡ true
    → All (λ state. now < state.next_update) states
unfolding is_fresh
is_fresh→All now [] e = tt
is_fresh→All now (state ∷ states) e =
    (ltb→lt now state.next_update (ground arith), is_fresh→All now states (ground arith))

All→is_fresh :
    (now : ℕ) (states : List IssuerCheckpoint)
    → All (λ state. now < state.next_update) states
    → is_fresh now states ≡ true
unfolding is_fresh
All→is_fresh now [] h = refl
All→is_fresh now (state ∷ states) h =
    rw (lt→ltb now state.next_update h.0) (All→is_fresh now states h.1)

module _ (crypto : Crypto) (issuers : List IssuerCheckpoint)
    (distinct : Distinct (issuer_hashes issuers)) where
  check_certificate→IsCleared :
      (message : GoError) (issuer certificate : Certificate)
      → check_certificate crypto (old_states [] issuers) message issuer certificate ≡ none
      → IsCleared crypto issuers (certificate, issuer)
  unfolding check_certificate
  check_certificate→IsCleared message issuer certificate e =
      let hash = hex_sha256 crypto issuer.raw in
      elim (Option-cases (lookup hash (old_states [] issuers))) [
        | inl q ↦ absurd (ground (arith, q))
        | inr (state, q) ↦ record {
          state = state;
          stated = sym (lookup-old_states hash issuers distinct) ∙ q;
          not_revoked = ground (arith, q);
        }
      ]

  IsCleared→check_certificate :
      (message : GoError) (issuer certificate : Certificate)
      → IsCleared crypto issuers (certificate, issuer)
      → check_certificate crypto (old_states [] issuers) message issuer certificate ≡ none
  unfolding check_certificate
  IsCleared→check_certificate message issuer certificate h =
      let q = lookup-old_states (hex_sha256 crypto issuer.raw) issuers distinct ∙ h.stated in
      rw (q, h.not_revoked, check_certificate)

  check_chain→IsClearedChain :
      (certificate : Certificate) (chain : List Certificate)
      → check_chain crypto (old_states [] issuers) certificate chain ≡ none
      → All (IsCleared crypto issuers) (links certificate chain)
  unfolding check_chain
  check_chain→IsClearedChain certificate [] e =
      (check_certificate→IsCleared _ certificate certificate e, tt)
  check_chain→IsClearedChain certificate (issuer ∷ chain) e =
      let (first, rest) = or_else-none _ _ e in
      (
        check_certificate→IsCleared _ issuer certificate first,
        check_chain→IsClearedChain issuer chain rest,
      )

  IsClearedChain→check_chain :
      (certificate : Certificate) (chain : List Certificate)
      → All (IsCleared crypto issuers) (links certificate chain)
      → check_chain crypto (old_states [] issuers) certificate chain ≡ none
  unfolding check_chain
  IsClearedChain→check_chain certificate [] h =
      IsCleared→check_certificate _ certificate certificate h.0
  IsClearedChain→check_chain certificate (issuer ∷ chain) h =
      rw (IsCleared→check_certificate _ issuer certificate h.0)
        (IsClearedChain→check_chain issuer chain h.1)

  check_chains→cleared :
      (chains : List (List Certificate))
      → check_chains crypto (old_states [] issuers) chains ≡ none
      → All (IsClearedChain crypto issuers) chains
  unfolding check_chains
  check_chains→cleared [] e = tt
  check_chains→cleared ([] ∷ chains) e = cc
  check_chains→cleared ((certificate ∷ chain) ∷ chains) e =
      let (first, rest) = or_else-none _ _ e in
      (check_chain→IsClearedChain certificate chain first, check_chains→cleared chains rest)

  cleared→check_chains :
      (chains : List (List Certificate))
      → All (IsClearedChain crypto issuers) chains
      → check_chains crypto (old_states [] issuers) chains ≡ none
  unfolding check_chains
  cleared→check_chains [] h = refl
  cleared→check_chains ([] ∷ chains) h = absurd h.0
  cleared→check_chains ((certificate ∷ chain) ∷ chains) h =
      rw (IsClearedChain→check_chain certificate chain h.0) (cleared→check_chains chains h.1)

-- verifyLocked of a manager whose issuers are distinct reports no error exactly if the manager is
-- open and has a bundle, none of its CRLs has expired, there is a chain, no chain is empty, and each
-- certificate of each chain is covered by a CRL of its issuer, the root by its own, and is not
-- revoked there.
pub verify_locked_iff :
    (crypto : Crypto) (m : RevocationManager) (now : ℕ) (chains : List (List Certificate))
    → Distinct (issuer_hashes m.checkpoint.issuers)
    → (verify_locked crypto m now chains ≡ none) ↔ IsAdmissible crypto m now chains
unfolding verify_locked
verify_locked_iff crypto m now chains distinct = (
  λ e. record {
    is_open = ground arith;
    has_chain = ground arith;
    has_bundle = ground arith;
    has_issuer = ground arith;
    fresh = is_fresh→All now m.checkpoint.issuers (ground arith);
    cleared = check_chains→cleared crypto m.checkpoint.issuers distinct chains (ground arith);
  },
  λ h. rw (
    h.is_open,
    h.has_chain,
    h.has_bundle,
    h.has_issuer,
    All→is_fresh now m.checkpoint.issuers h.fresh,
    cleared→check_chains crypto m.checkpoint.issuers distinct chains h.cleared,
  ),
)
