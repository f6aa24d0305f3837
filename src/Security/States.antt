-- ===== src/Security/States.antt =====
-- The issuers of a checkpoint as a map, and their order.
use pluginprotocol.Prelude.{
  ◌≡◌, ◌∙◌, refl, ap, Bool, true, false, ◌||◌, Option, none, some, List, [], ◌∷◌, if◌then◌else◌,
  Bytes, bytes_eq, bytes_eq_refl, bytes_eq→eq, bytes_eq_swap, bytes_lt, Bool-cases, inl, inr, arith,
}
use pluginprotocol.Prelude.Strings.{Distinct, insert_by, sort_by}
use pluginprotocol.Prelude.Table.{contains, lookup, put, lookup-put, is_some}
use pluginprotocol.Security.Bundle.{States, old_states}
use pluginprotocol.Security.Checkpoint.{IssuerCheckpoint, issuer_hashes, sort_issuers}

-- The state of an issuer in a list.
unfoldable pub find : Bytes → List IssuerCheckpoint → Option IssuerCheckpoint
find k [] = none
find k (state ∷ states) =
    let rest = find k states in if bytes_eq state.issuer_sha256 k then some state else rest

pub contains-issuer_hashes :
    (k : Bytes) (states : List IssuerCheckpoint)
    → contains k (issuer_hashes states) ≡ is_some (find k states)
unfolding contains find
contains-issuer_hashes k [] = refl
contains-issuer_hashes k (state ∷ states) = ground (arith, contains-issuer_hashes k states)

pub find-name :
    (k : Bytes) (states : List IssuerCheckpoint) {state : IssuerCheckpoint}
    → find k states ≡ some state
    → state.issuer_sha256 ≡ k
unfolding find
find-name k [] e = cc
find-name k (s ∷ states) {state} e = elim (Bool-cases (bytes_eq s.issuer_sha256 k)) [
  | inl same ↦ ground (arith, same, e, bytes_eq→eq s.issuer_sha256 k)
  | inr other ↦ find-name k states (rw other at e)
]

abbrev or_found : Option IssuerCheckpoint → Option IssuerCheckpoint → Option IssuerCheckpoint
or_found none other = other
or_found (some state) other = some state

-- The map that the code builds from a list whose issuers are distinct.
pub lookup-old_states_from :
    (k : Bytes) (old : States) (states : List IssuerCheckpoint)
    → Distinct (issuer_hashes states)
    → lookup k (old_states old states) ≡ or_found (find k states) (lookup k old)
unfolding old_states find
lookup-old_states_from k old [] d = refl
lookup-old_states_from k old (state ∷ states) d =
    lookup-old_states_from k (put state.issuer_sha256 state old) states d.1
    ∙ ap (or_found (find k states)) (lookup-put state.issuer_sha256 k state old)
    ∙ first (bytes_eq state.issuer_sha256 k) refl
  where
    first :
        (same : Bool)
        → bytes_eq state.issuer_sha256 k ≡ same
        → or_found (find k states) (if same then some state else lookup k old)
          ≡ or_found (if same then some state else find k states) (lookup k old)
    first true e =
        let absent = contains-issuer_hashes state.issuer_sha256 states in
        let named = bytes_eq→eq state.issuer_sha256 k e in ground (arith, absent, named, d.0)
    first false e = refl

pub lookup-old_states :
    (k : Bytes) (states : List IssuerCheckpoint)
    → Distinct (issuer_hashes states)
    → lookup k (old_states [] states) ≡ find k states
unfolding lookup
lookup-old_states k states d = lookup-old_states_from k [] states d ∙ ground arith

abbrev name_of : IssuerCheckpoint → Bytes
name_of state = state.issuer_sha256

pub contains-insert_by :
    (k : Bytes) (state : IssuerCheckpoint) (states : List IssuerCheckpoint)
    → contains k (issuer_hashes (insert_by name_of state states))
      ≡ (bytes_eq state.issuer_sha256 k || contains k (issuer_hashes states))
unfolding insert_by contains
contains-insert_by k state [] = refl
contains-insert_by k state (s ∷ states) = ground (arith, contains-insert_by k state states)

pub contains-sort_issuers :
    (k : Bytes) (states : List IssuerCheckpoint)
    → contains k (issuer_hashes (sort_issuers states)) ≡ contains k (issuer_hashes states)
unfolding sort_issuers sort_by contains
contains-sort_issuers k [] = refl
contains-sort_issuers k (state ∷ states) =
    contains-insert_by k state (sort_issuers states)
    ∙ ap (λ (b : Bool). bytes_eq state.issuer_sha256 k || b) (contains-sort_issuers k states)

Distinct-insert_by :
    (state : IssuerCheckpoint) (states : List IssuerCheckpoint)
    → contains state.issuer_sha256 (issuer_hashes states) ≡ false
    → Distinct (issuer_hashes states)
    → Distinct (issuer_hashes (insert_by name_of state states))
unfolding insert_by contains
Distinct-insert_by state [] absent d = (absent, tt)
Distinct-insert_by state (s ∷ states) absent d =
    elim (Bool-cases (bytes_lt state.issuer_sha256 s.issuer_sha256)) [
      | inl before ↦ rw before (absent, d)
      | inr behind ↦ rw behind (
        ground (
          arith,
          contains-insert_by s.issuer_sha256 state states,
          bytes_eq_swap state.issuer_sha256 s.issuer_sha256,
        ),
        Distinct-insert_by state states (ground arith) d.1,
      )
    ]

pub Distinct-sort_issuers :
    (states : List IssuerCheckpoint)
    → Distinct (issuer_hashes states)
    → Distinct (issuer_hashes (sort_issuers states))
unfolding sort_issuers sort_by
Distinct-sort_issuers [] d = tt
Distinct-sort_issuers (state ∷ states) d =
    Distinct-insert_by state (sort_issuers states)
      (contains-sort_issuers state.issuer_sha256 states ∙ d.0) (Distinct-sort_issuers states d.1)

find-insert_by :
    (k : Bytes) (state : IssuerCheckpoint) (states : List IssuerCheckpoint)
    → contains state.issuer_sha256 (issuer_hashes states) ≡ false
    → find k (insert_by name_of state states)
      ≡ (if bytes_eq state.issuer_sha256 k then some state else find k states)
unfolding insert_by find contains
find-insert_by k state [] absent = refl
find-insert_by k state (s ∷ states) absent = ground (
  arith,
  find-insert_by k state states,
  bytes_eq→eq s.issuer_sha256 k,
  bytes_eq→eq state.issuer_sha256 k,
  bytes_eq_refl k,
)

-- Sorting the issuers moves no state to another issuer.
pub find-sort_issuers :
    (k : Bytes) (states : List IssuerCheckpoint)
    → Distinct (issuer_hashes states)
    → find k (sort_issuers states) ≡ find k states
unfolding sort_issuers sort_by find
find-sort_issuers k [] d = refl
find-sort_issuers k (state ∷ states) d =
    find-insert_by k state (sort_issuers states)
      (contains-sort_issuers state.issuer_sha256 states ∙ d.0)
    ∙ ap (λ (o : Option IssuerCheckpoint). if bytes_eq state.issuer_sha256 k then some state else o)
        (find-sort_issuers k states d.1)
