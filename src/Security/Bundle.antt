-- ===== src/Security/Bundle.antt =====
-- infrastructure/peer/security/revocation.go: RevocationManager and its validateLocked.
pub mod Accepted
pub mod Parts
pub mod Genuine
pub mod Collected
pub mod Sound
pub mod Advance
pub mod Monotone
pub mod Determined
pub mod Restorable
pub mod Saved
use pluginprotocol.Errors.{GoError, Result, ok, err}
use pluginprotocol.Prelude.{
  ℕ, Bool, true, false, ◌&&◌, ◌||◌, not, Option, none, some, List, [], ◌∷◌, ◌==◌, if◌then◌else◌,
  Bytes, bytes_eq, ℤ, length,
}
use pluginprotocol.Prelude.Strings.{collect, sort_strings}
use pluginprotocol.Prelude.Table.{contains, lookup, put, remove}
use pluginprotocol.Security.Checkpoint.{
  IssuerCheckpoint, CrlCheckpoint, checkpoint_bundle_hash, sort_issuers,
}
use pluginprotocol.Security.Crypto.{Crypto, hex_sha256}
use pluginprotocol.Security.Encoding.{security_error, decimal, parse_number, is_below, is_same}
use pluginprotocol.Security.Records.{
  SignedCrl, RevocationBundle, ParsedRecord, Issuers, collect_issuers, check_records,
}

-- A timer that time.AfterFunc started: the generation that its function closes over, and when it
-- fires.
pub record ExpiryTimer : Type 0 where
  pub generation : ℕ
  pub fires_at : ℕ

-- The certificate pool is the list of its roots; an active connection is a number.
pub record RevocationManager : Type 0 where
  pub root_der : List Bytes
  pub root_digest : Bytes
  pub checkpoint : CrlCheckpoint
  pub active : List ℕ
  pub bundle_hash : Bytes
  pub expiry_timer : Option ExpiryTimer
  pub timer_generation : ℕ
  pub closed : Bool

-- The states of the checkpoint under their issuers.
abbrev pub States : Type 0
States = List (Bytes × IssuerCheckpoint)

unfoldable pub old_states : States → List IssuerCheckpoint → States
unfolding put
old_states old [] = old
old_states old (state ∷ states) = old_states (put state.issuer_sha256 state old) states

-- Whether every serial of a list is in the set.
unfoldable pub includes : List Bytes → List Bytes → Bool
unfolding contains
includes set [] = true
includes set (serial ∷ serials) =
    let rest = includes set serials in if contains serial set then rest else false

-- The state of a record, with the revoked set that is seeded with `seed`.
unfoldable pub state_of : ParsedRecord → List Bytes → IssuerCheckpoint
unfolding collect sort_strings decimal
state_of parsed seed = record {
  issuer_sha256 = parsed.issuer_hash;
  crl_number = decimal parsed.crl_number;
  crl_sha256 = parsed.crl_hash;
  next_update = parsed.next_update;
  revoked = sort_strings (collect parsed.revoked (collect seed []));
}

unfoldable pub succeeds : IssuerCheckpoint → ParsedRecord → ℤ → Result IssuerCheckpoint
unfolding includes state_of
succeeds previous parsed old_number =
    if is_below parsed.crl_number old_number
      || (is_same parsed.crl_number old_number
          && not (bytes_eq parsed.crl_hash previous.crl_sha256))
    then err (security_error "security: CRL number rollback or equivocation")
    else if not (includes parsed.revoked previous.revoked)
    then err (security_error "security: CRL removed a previously revoked serial")
    else ok (state_of parsed previous.revoked)

-- The new state of a record's issuer, on its previous state.
unfoldable pub next_state : Option IssuerCheckpoint → ParsedRecord → Result IssuerCheckpoint
unfolding state_of parse_number succeeds
next_state none parsed = ok (state_of parsed [])
next_state (some previous) parsed = elim (parse_number previous.crl_number) [
  | none ↦ err (security_error "security: invalid CRL checkpoint")
  | some old_number ↦ succeeds previous parsed old_number
]

abbrev pub cons_state :
    Result IssuerCheckpoint
    → Result (List IssuerCheckpoint × States)
    → Result (List IssuerCheckpoint × States)
cons_state (err e) rest = err e
cons_state (ok state) (err e) = err e
cons_state (ok state) (ok (states, old)) = ok (state ∷ states, old)

-- The loop over the parsed records: their states, and what is left of the old ones.
unfoldable pub next_states : States → List ParsedRecord → Result (List IssuerCheckpoint × States)
unfolding lookup remove next_state
next_states old [] = ok ([], old)
next_states old (parsed ∷ records) =
    cons_state (next_state (lookup parsed.issuer_hash old) parsed)
      (next_states (remove parsed.issuer_hash old) records)

-- Every configured root is the issuer of a record.
unfoldable pub covers : Crypto → List Bytes → List Bytes → Bool
unfolding contains
covers crypto seen [] = true
covers crypto seen (der ∷ ders) =
    let rest = covers crypto seen ders in
    if contains (hex_sha256 crypto der) seen then rest else false

abbrev pub is_empty {ℓ} : {A : Type ℓ} → List A → Bool
is_empty [] = true
is_empty (x ∷ xs) = false

abbrev pub issuers_of : List ParsedRecord → List Bytes
issuers_of [] = []
issuers_of (parsed ∷ records) = parsed.issuer_hash ∷ issuers_of records

module _ (crypto : Crypto) where
  -- The checkpoint of some states, with its digest.
  unfoldable pub seal : Bytes → List IssuerCheckpoint → CrlCheckpoint
  unfolding sort_issuers checkpoint_bundle_hash
  seal root_digest states =
      let bare : CrlCheckpoint = record {
        trust_roots_digest = root_digest;
        bundle_sha256 = [];
        issuers = sort_issuers states;
      } in
      record bare { bundle_sha256 = checkpoint_bundle_hash crypto bare }

  unfoldable pub finish_states :
      RevocationManager → Result (List IssuerCheckpoint × States) → Result CrlCheckpoint
  unfolding seal
  finish_states m (err e) = err e
  finish_states m (ok (states, old)) =
      if not (is_empty old)
      then err (security_error "security: revocation bundle removed an issuer")
      else if not (is_empty m.checkpoint.issuers)
          && not (length states == length m.checkpoint.issuers)
      then err (security_error "security: revocation issuer set changed")
      else ok (seal m.root_digest states)

  -- From the check that the roots are covered on.
  unfoldable pub accept_records :
      RevocationManager → Result (List ParsedRecord) → Result CrlCheckpoint
  unfolding covers old_states next_states finish_states
  accept_records m (err e) = err e
  accept_records m (ok records) =
      if not (covers crypto (issuers_of records) m.root_der)
      then err (security_error "security: bundle omits a configured trust-root issuer")
      else finish_states m (next_states (old_states [] m.checkpoint.issuers) records)

  -- From the second loop on, with what the first one collected.
  unfoldable pub accept_issuers :
      RevocationManager → ℕ → List SignedCrl → Result Issuers → Result CrlCheckpoint
  unfolding check_records accept_records
  accept_issuers m now records (err e) = err e
  accept_issuers m now records (ok issuers) =
      accept_records m (check_records crypto m.root_der now issuers [] records)

  -- validateLocked; the digest that it returns beside the checkpoint is the checkpoint's.
  unfoldable pub validate_locked : RevocationManager → ℕ → RevocationBundle → Result CrlCheckpoint
  unfolding collect_issuers accept_issuers
  validate_locked m now bundle =
      if not (bytes_eq bundle.trust_roots_digest m.root_digest)
      then err (security_error "security: revocation bundle trust-root digest mismatch")
      else if is_empty bundle.records
      then err (security_error "security: empty revocation bundle")
      else accept_issuers m now bundle.records (collect_issuers crypto [] bundle.records)
