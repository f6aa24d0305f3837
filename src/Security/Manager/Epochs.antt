-- ===== src/Security/Manager/Epochs.antt =====
-- infrastructure/peer/security/revocation.go: how the state of the issuers moves over a manager's
-- life.
use pluginprotocol.Errors.{ok}
use pluginprotocol.Prelude.{
  ℕ, ◌≡◌, ◌∙◌, ◌⊎◌, refl, ap, sym, inl, inr, Option, some, List, Bytes, arith, subst,
}
use pluginprotocol.Prelude.Strings.{Distinct}
use pluginprotocol.Prelude.Table.{lookup}
use pluginprotocol.Security.Bundle.{RevocationManager, next_state, validate_locked}
use pluginprotocol.Security.Bundle.Advance.{Advances-trans}
use pluginprotocol.Security.Bundle.Monotone.{Advances, Outcome, next_state-Advances}
use pluginprotocol.Security.Bundle.Parts.{Parts-outcome, next-issuers, validate_locked-Parts}
use pluginprotocol.Security.Checkpoint.{IssuerCheckpoint, CrlCheckpoint, issuer_hashes}
use pluginprotocol.Security.Crypto.{Crypto}
use pluginprotocol.Security.Manager.Runs.{World, Operation, run_all}
use pluginprotocol.Security.Manager.Steps.{Core, run_all_keeps}
use pluginprotocol.Security.Records.{RevocationBundle}
use pluginprotocol.Security.States.{
  find, lookup-old_states, find-sort_issuers, Distinct-sort_issuers,
}

-- No issuer is lost, and each one's state is the same or a later one.
unfoldable pub NotBefore : List IssuerCheckpoint → List IssuerCheckpoint → Type 0
NotBefore before after =
    (k : Bytes) (old : IssuerCheckpoint)
    → find k before ≡ some old
    → (new : IssuerCheckpoint) × (find k after ≡ some new) × ((old ≡ new) ⊎ Advances old new)

NotBefore-refl : (states : List IssuerCheckpoint) → NotBefore states states
unfolding NotBefore
NotBefore-refl states = λ k old e. (old, e, inl refl)

validate_locked-NotBefore :
    (crypto : Crypto) (m : RevocationManager) (now : ℕ) (bundle : RevocationBundle)
    {next : CrlCheckpoint}
    → Distinct (issuer_hashes m.checkpoint.issuers)
    → validate_locked crypto m now bundle ≡ ok next
    → Distinct (issuer_hashes next.issuers) × NotBefore m.checkpoint.issuers next.issuers
unfolding NotBefore Outcome lookup
validate_locked-NotBefore crypto m now bundle {next} d e =
    let parts = validate_locked-Parts crypto m now bundle e in
    let (distinct, names, each) = Parts-outcome crypto m now bundle parts in
    let states_distinct : Distinct (issuer_hashes parts.states) =
      subst Distinct (sym names) distinct in
    let sorted = next-issuers crypto m now bundle parts in
    (
      subst (λ (x : List IssuerCheckpoint). Distinct (issuer_hashes x)) (sym sorted)
          (Distinct-sort_issuers parts.states states_distinct),
      λ k old q.
          let kept = lookup-old_states k m.checkpoint.issuers d ∙ q in
          elim (each k) [
            | inl (absent, same) ↦ absurd (ground (arith, same, kept))
            | inr (present, from) ↦ (
              from.state,
              ap (find k) sorted ∙ find-sort_issuers k parts.states states_distinct ∙ from.found,
              inr (
                  next_state-Advances old from.parsed (
                    subst
                      (λ (o : Option IssuerCheckpoint). next_state o from.parsed ≡ ok from.state)
                      kept from.made)),
            )
          ],
    )

NotBefore-trans :
    (first second third : List IssuerCheckpoint)
    → NotBefore first second
    → NotBefore second third
    → NotBefore first third
unfolding NotBefore
NotBefore-trans first second third f g = λ k old e.
    let (middle, found, moved) = f k old e in
    let (new, found_new, moved_on) = g k middle found in (new, found_new, both moved moved_on)
  where
    both :
        {old middle new : IssuerCheckpoint}
        → (old ≡ middle) ⊎ Advances old middle
        → (middle ≡ new) ⊎ Advances middle new
        → (old ≡ new) ⊎ Advances old new
    both (inl p) (inl q) = inl (p ∙ q)
    both {old} {middle} {new} (inl p) (inr b) =
        inr (subst (λ (s : IssuerCheckpoint). Advances s new) (sym p) b)
    both {old} {middle} {new} (inr a) (inl q) =
        inr (subst (λ (s : IssuerCheckpoint). Advances old s) q a)
    both (inr a) (inr b) = inr (Advances-trans a b)

-- The issuers of a manager, and those of what it becomes.
abbrev pub issuers_in : RevocationManager → List IssuerCheckpoint
issuers_in m = m.checkpoint.issuers

abbrev pub HasDistinct : RevocationManager → Type 0
HasDistinct m = Distinct (issuer_hashes m.checkpoint.issuers)

-- Over any sequence of operations on a manager whose issuers are distinct, they stay distinct, no
-- issuer is lost, and the state of each one at the end is the one at the start or a later one: its
-- CRL number is not lower, a CRL of the same number is the same CRL, and each serial that was revoked
-- still is.
pub run_all-Moves :
    (crypto : Crypto) (operations : List Operation) (w : World)
    → HasDistinct w.manager
    → HasDistinct (run_all crypto operations w).manager
      × NotBefore (issuers_in w.manager) (issuers_in (run_all crypto operations w).manager)
run_all-Moves crypto operations w d =
    let start = issuers_in w.manager in
    run_all_keeps
      (λ (c : Core).
        let (_, _, checkpoint, _) = c in
        Distinct (issuer_hashes checkpoint.issuers) × NotBefore start checkpoint.issuers)
      crypto
      (λ m now bundle next h e.
        let (distinct, moved) = validate_locked-NotBefore crypto m now bundle h.0 e in
        (distinct, NotBefore-trans start (issuers_in m) next.issuers h.1 moved))
      operations w (d, NotBefore-refl start)
