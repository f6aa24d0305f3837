-- ===== src/Security/Bundle/Monotone.antt =====
-- infrastructure/peer/security/revocation.go: what validateLocked carries over from one checkpoint to
-- the next.
use mathlib.Core.Path.{ap₂}
use pluginprotocol.Errors.{Result, ok, err}
use pluginprotocol.Prelude.{
  ◌≡◌, ◌∙◌, ◌⊎◌, refl, ap, sym, inl, inr, Bool, true, false, ◌||◌, ◌&&◌, not, Option, none, some,
  List, [], ◌∷◌, Bytes, bytes_eq, bytes_eq→eq, Bool-cases, Option-cases, ℤ, arith, subst,
}
use pluginprotocol.Prelude.Strings.{Distinct, collect, contains-collect, contains-sort_strings}
use pluginprotocol.Prelude.Table.{contains, lookup, remove, lookup-remove}
use pluginprotocol.Security.Bundle.{
  States, includes, state_of, succeeds, next_state, next_states, cons_state, issuers_of,
}
use pluginprotocol.Security.Checkpoint.{IssuerCheckpoint, issuer_hashes}
use pluginprotocol.Security.Encoding.{parse_number, parse_number-decimal, is_below, is_same}
use pluginprotocol.Security.Records.{ParsedRecord}
use pluginprotocol.Security.States.{find}

-- A later state of an issuer: its CRL number is not lower, a CRL of the same number is the same CRL,
-- and no serial is revoked no more.
pub record Advances (before after : IssuerCheckpoint) : Type 0 where
  pub old_number : ℤ
  pub new_number : ℤ
  pub old_parsed : parse_number before.crl_number ≡ some old_number
  pub new_parsed : parse_number after.crl_number ≡ some new_number
  pub no_rollback : is_below new_number old_number ≡ false
  pub no_equivocation :
      (is_same new_number old_number && not (bytes_eq after.crl_sha256 before.crl_sha256)) ≡ false
  pub no_removal : includes after.revoked before.revoked ≡ true

pub includes_more :
    (set more serials : List Bytes)
    → ((k : Bytes) → contains k set ≡ true → contains k more ≡ true)
    → includes set serials ≡ true
    → includes more serials ≡ true
unfolding includes
includes_more set more [] h e = refl
includes_more set more (serial ∷ serials) h e =
    ground (arith, h serial, includes_more set more serials h)

pub contains-state_of :
    (k : Bytes) (parsed : ParsedRecord) (seed : List Bytes)
    → contains k (state_of parsed seed).revoked ≡ (contains k parsed.revoked || contains k seed)
unfolding state_of contains
contains-state_of k parsed seed =
    contains-sort_strings k (collect parsed.revoked (collect seed []))
    ∙ contains-collect k parsed.revoked (collect seed [])
    ∙ ap (λ (b : Bool). contains k parsed.revoked || b) (contains-collect k seed [] ∙ ground arith)

succeeds-Advances :
    (previous : IssuerCheckpoint) (parsed : ParsedRecord) (old_number : ℤ)
    {state : IssuerCheckpoint}
    → parse_number previous.crl_number ≡ some old_number
    → succeeds previous parsed old_number ≡ ok state
    → Advances previous state
unfolding succeeds
succeeds-Advances previous parsed old_number {state} p e =
    let same : state_of parsed previous.revoked ≡ state = ground arith in
    let kept : includes parsed.revoked previous.revoked ≡ true = ground arith in
    subst (Advances previous) same (record {
      old_number = old_number;
      new_number = parsed.crl_number;
      old_parsed = p;
      new_parsed = unfold state_of in parse_number-decimal parsed.crl_number;
      no_rollback = ground arith;
      no_equivocation = unfold state_of in ground arith;
      no_removal =
          includes_more parsed.revoked (state_of parsed previous.revoked).revoked previous.revoked
            (λ k m. contains-state_of k parsed previous.revoked ∙ ground (arith, m)) kept;
    })

pub next_state-Advances :
    (previous : IssuerCheckpoint) (parsed : ParsedRecord) {state : IssuerCheckpoint}
    → next_state (some previous) parsed ≡ ok state
    → Advances previous state
unfolding next_state
next_state-Advances previous parsed {state} e =
    elim (Option-cases (parse_number previous.crl_number)) [
      | inl q ↦ absurd (ground (arith, q))
      | inr (old_number, q) ↦
          succeeds-Advances previous parsed old_number q (rw (q, next_state) at e)
    ]

pub next_state-name :
    (previous : Option IssuerCheckpoint) (parsed : ParsedRecord) {state : IssuerCheckpoint}
    → next_state previous parsed ≡ ok state
    → state.issuer_sha256 ≡ parsed.issuer_hash
unfolding next_state state_of succeeds
next_state-name none parsed e = ground arith
next_state-name (some previous) parsed e = ground arith

-- What the loop over the records comes to for one issuer.
pub record StateFrom (old : States) (records : List ParsedRecord) (states : List IssuerCheckpoint)
    (k : Bytes) : Type 0 where
  pub parsed : ParsedRecord
  pub state : IssuerCheckpoint
  pub found : find k states ≡ some state
  pub made : next_state (lookup k old) parsed ≡ ok state

-- An issuer of no record keeps its old state, and one of a record has the next one.
unfoldable pub Outcome :
    States → List ParsedRecord → List IssuerCheckpoint → States → Bytes → Type 0
Outcome old records states left k =
    ((contains k (issuers_of records) ≡ false) × (lookup k left ≡ lookup k old))
    ⊎ ((contains k (issuers_of records) ≡ true) × StateFrom old records states k)

cons_outcome :
    (old : States) (parsed : ParsedRecord) (records : List ParsedRecord) (state : IssuerCheckpoint)
    (others : List IssuerCheckpoint) (left : States)
    → contains parsed.issuer_hash (issuers_of records) ≡ false
    → next_state (lookup parsed.issuer_hash old) parsed ≡ ok state
    → ((k : Bytes) → Outcome (remove parsed.issuer_hash old) records others left k)
    → (k : Bytes) → Outcome old (parsed ∷ records) (state ∷ others) left k
unfolding Outcome contains find
cons_outcome old parsed records state others left fresh made each k =
    let named = next_state-name (lookup parsed.issuer_hash old) parsed made in
    elim (Bool-cases (bytes_eq parsed.issuer_hash k)) [
      | inl same ↦
          let name = bytes_eq→eq parsed.issuer_hash k same in
          inr (
            ground (arith, same),
            record {
              parsed = parsed;
              state = state;
              found = ground (arith, named, same);
              made = ap (λ (h : Bytes). next_state (lookup h old) parsed) (sym name) ∙ made;
            },
          )
      | inr other ↦
          let kept = lookup-remove parsed.issuer_hash k old in
          elim (each k) [
            | inl (absent, same) ↦
                inl (ground (arith, other, absent), ground (arith, same, kept, other))
            | inr (present, from) ↦ inr (
              ground (arith, present),
              record {
                parsed = from.parsed;
                state = from.state;
                found = ground (arith, from.found, named, other);
                made =
                    ap (λ (o : Option IssuerCheckpoint). next_state o from.parsed)
                      (sym (kept ∙ ground (arith, other)))
                    ∙ from.made;
              },
            )
          ]
    ]

cons_states_lem :
    (old : States) (parsed : ParsedRecord) (records : List ParsedRecord)
    (made : Result IssuerCheckpoint) (rest : Result (List IssuerCheckpoint × States))
    {states : List IssuerCheckpoint} {left : States}
    → contains parsed.issuer_hash (issuers_of records) ≡ false
    → next_state (lookup parsed.issuer_hash old) parsed ≡ made
    → ((others : List IssuerCheckpoint) (last : States)
        → rest ≡ ok (others, last)
        → (issuer_hashes others ≡ issuers_of records)
          × ((k : Bytes) → Outcome (remove parsed.issuer_hash old) records others last k))
    → cons_state made rest ≡ ok (states, left)
    → (issuer_hashes states ≡ issuers_of (parsed ∷ records))
      × ((k : Bytes) → Outcome old (parsed ∷ records) states left k)
cons_states_lem old parsed records (err x) rest fresh m r q = cc
cons_states_lem old parsed records (ok state) (err x) fresh m r q = cc
cons_states_lem old parsed records (ok state) (ok (others, last)) {states} {left} fresh m r q =
    let (names, each) = r others last refl in
    let same : (state ∷ others) ≡ states = ground arith in
    let end : last ≡ left = ground arith in
    subst
      (λ (x : List IssuerCheckpoint).
        (issuer_hashes x ≡ issuers_of (parsed ∷ records))
        × ((k : Bytes) → Outcome old (parsed ∷ records) x left k))
      same
      (
        ap₂ ◌∷◌ (next_state-name (lookup parsed.issuer_hash old) parsed m) names,
        subst (λ (x : States). (k : Bytes) → Outcome old (parsed ∷ records) (state ∷ others) x k)
            end (cons_outcome old parsed records state others last fresh m each),
      )

pub next_states_lem :
    (old : States) (records : List ParsedRecord) {states : List IssuerCheckpoint} {left : States}
    → Distinct (issuers_of records)
    → next_states old records ≡ ok (states, left)
    → (issuer_hashes states ≡ issuers_of records)
      × ((k : Bytes) → Outcome old records states left k)
unfolding next_states
next_states_lem old [] {states} {left} d e =
    let none_left : [] ≡ states = ground arith in
    let same : old ≡ left = ground arith in
    (
      ap issuer_hashes (sym none_left),
      unfold Outcome contains in λ k. inl (refl, ap (lookup k) (sym same)),
    )
next_states_lem old (parsed ∷ records) {states} {left} d e =
    cons_states_lem old parsed records (next_state (lookup parsed.issuer_hash old) parsed)
      (next_states (remove parsed.issuer_hash old) records) d.0 refl
      (λ others last q. next_states_lem (remove parsed.issuer_hash old) records d.1 q) e
