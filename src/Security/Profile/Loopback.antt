-- ===== src/Security/Profile/Loopback.antt =====
-- infrastructure/peer/security/profile.go: the endpoints that a plain profile may use.
use pluginprotocol.Errors.{GoError}
use pluginprotocol.Prelude.{
  ◌≡◌, ◌≢◌, ◌⊎◌, inl, inr, refl, Bool, true, false, Option, none, some, Option-cases, List, [], ◌∷◌,
  All, Bytes, arith,
}
use pluginprotocol.Security.Profile.{
  Network, all_loopback, check_resolved, check_host, require_loopback,
}

-- The host of an endpoint: all of it, when it has no port.
abbrev pub IsHost : Network → Bytes → Bytes → Type 0
IsHost network endpoint host =
    (network.split_host_port endpoint ≡ some host)
    ⊎ ((network.split_host_port endpoint ≡ none) × (host ≡ endpoint))

-- An endpoint whose host is a loopback address, or a name that resolves to one address at least and
-- to loopback addresses only.
pub data IsLoopback (network : Network) (endpoint : Bytes) : Type 0 where
  literal :
      (host : Bytes)
      → IsHost network endpoint host
      → host ≢ []
      → network.parse_ip host ≡ some true
      → IsLoopback network endpoint
  resolved :
      (host : Bytes) (first : Bool) (others : List Bool)
      → IsHost network endpoint host
      → host ≢ []
      → network.parse_ip host ≡ none
      → network.lookup_addresses host ≡ some (first ∷ others)
      → All (λ is_loopback. is_loopback ≡ true) (first ∷ others)
      → IsLoopback network endpoint

all_loopback-All :
    (addresses : List Bool)
    → all_loopback addresses ≡ none
    → All (λ is_loopback. is_loopback ≡ true) addresses
unfolding all_loopback
all_loopback-All [] h = tt
all_loopback-All (true ∷ addresses) h = (refl, all_loopback-All addresses h)
all_loopback-All (false ∷ addresses) h = absurd cc

resolved_host :
    (network : Network) (endpoint host : Bytes) (found : Option (List Bool))
    → IsHost network endpoint host
    → host ≢ []
    → network.parse_ip host ≡ none
    → network.lookup_addresses host ≡ found
    → check_resolved found ≡ none
    → IsLoopback network endpoint
resolved_host network endpoint host none at given name q h = absurd cc
resolved_host network endpoint host (some []) at given name q h = absurd cc
resolved_host network endpoint host (some (a ∷ rest)) at given name q h =
    resolved host a rest at given name q (all_loopback-All (a ∷ rest) h)

check_host-IsLoopback :
    (network : Network) (endpoint host : Bytes)
    → IsHost network endpoint host
    → check_host network host ≡ none
    → IsLoopback network endpoint
check_host-IsLoopback network endpoint [] at h = absurd cc
check_host-IsLoopback network endpoint (b ∷ bs) at h = by_address (network.parse_ip (b ∷ bs)) refl h
  where
    checked : Option Bool → Option GoError
    checked (some true) = none
    checked (some false) = check_host network []
    checked none = check_resolved (network.lookup_addresses (b ∷ bs))

    by_address :
        (address : Option Bool)
        → network.parse_ip (b ∷ bs) ≡ address
        → checked address ≡ none
        → IsLoopback network endpoint
    by_address (some true) q e = literal (b ∷ bs) at (λ x. ground arith) q
    by_address (some false) q e = absurd cc
    by_address none q e =
        resolved_host network endpoint (b ∷ bs) (network.lookup_addresses (b ∷ bs)) at
          (λ x. ground arith) q refl e

pub require_loopback-IsLoopback :
    (network : Network) (endpoint : Bytes)
    → require_loopback network endpoint ≡ none
    → IsLoopback network endpoint
unfolding require_loopback
require_loopback-IsLoopback network endpoint h =
    elim (Option-cases (network.split_host_port endpoint)) [
      | inl q ↦ check_host-IsLoopback network endpoint endpoint (inr (q, refl)) (rw (q) at h)
      | inr (host, q) ↦ check_host-IsLoopback network endpoint host (inl q) (rw (q) at h)
    ]
