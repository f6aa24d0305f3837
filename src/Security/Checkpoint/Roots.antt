-- ===== src/Security/Checkpoint/Roots.antt =====
-- infrastructure/peer/security/revocation.go: CanonicalTrustRootsDigest forgets the order of the roots.
use mathlib.Core.List.{Perm, foldr}
use mathlib.Core.List.Perm.{foldr-eq}
use pluginprotocol.Errors.{Result, ok, err}
use pluginprotocol.Prelude.{
  ◌≡◌, ◌↔◌, ◌∙◌, refl, ap, sym, subst, Bool, true, false, List, [], ◌∷◌, Bytes, bytes_eq, bytes_lt,
  bytes_eq_swap, bytes_eq→eq, bytes_lt_total, bytes_lt_trans, bytes_lt_irrefl, Bool-cases, inl, inr,
  arith,
}
use pluginprotocol.Prelude.Order.{Ascends-Distinct}
use pluginprotocol.Prelude.Strings.{
  Ascends, Distinct, insert_sorted, sort_strings, Ascends-sort_strings, contains-insert_sorted,
  contains-sort_strings,
}
use pluginprotocol.Prelude.Table.{contains}
use pluginprotocol.Security.Checkpoint.{
  canonical_roots, canonical_trust_roots_digest, digest_of, prepend,
}
use pluginprotocol.Security.Crypto.{Crypto}
use pluginprotocol.Security.Encoding.{security_error}

Bytes-IsSet : IsSet (List Bytes)
Bytes-IsSet = hlevel

insert_below :
    (a b : Bytes) (xs : List Bytes)
    → bytes_lt a b ≡ true
    → insert_sorted a (insert_sorted b xs) ≡ insert_sorted b (insert_sorted a xs)
unfolding insert_sorted
insert_below a b [] l = ground (arith, bytes_lt_trans b a b, bytes_lt_irrefl b)
insert_below a b (x ∷ xs) l =
    ground
      (arith, bytes_lt_trans b a b, bytes_lt_irrefl b, bytes_lt_trans a b x, insert_below a b xs l)

insert_sorted_comm :
    (a b : Bytes) (xs : List Bytes)
    → insert_sorted a (insert_sorted b xs) ≡ insert_sorted b (insert_sorted a xs)
insert_sorted_comm a b xs = elim (Bool-cases (bytes_eq a b)) [
  | inl same ↦
      subst
        (λ (c : Bytes). insert_sorted a (insert_sorted c xs) ≡ insert_sorted c (insert_sorted a xs))
        (bytes_eq→eq a b same) refl
  | inr other ↦ elim (Bool-cases (bytes_lt a b)) [
    | inl below ↦ insert_below a b xs below
    | inr behind ↦ sym (insert_below b a xs (bytes_lt_total a b other behind))
  ]
]

sort_strings-foldr : (xs : List Bytes) → sort_strings xs ≡ foldr insert_sorted [] xs
unfolding sort_strings
sort_strings-foldr [] = refl
sort_strings-foldr (x ∷ xs) = ap (insert_sorted x) (sort_strings-foldr xs)

pub sort_strings-Perm : (xs ys : List Bytes) → Perm xs ys → sort_strings xs ≡ sort_strings ys
sort_strings-Perm xs ys p =
    sort_strings-foldr xs
    ∙ foldr-eq Bytes-IsSet insert_sorted insert_sorted_comm p []
    ∙ sym (sort_strings-foldr ys)

abbrev digest_sorted : Crypto → List Bytes → Result Bytes
digest_sorted crypto [] = err (security_error "security: trust roots are required")
digest_sorted crypto (der ∷ ders) = digest_of crypto (canonical_roots (der ∷ ders))

insert_sorted-cons :
    (crypto : Crypto) (x : Bytes) (xs : List Bytes)
    → digest_of crypto (canonical_roots (insert_sorted x xs))
      ≡ digest_sorted crypto (insert_sorted x xs)
unfolding insert_sorted
insert_sorted-cons crypto x [] = refl
insert_sorted-cons crypto x (y ∷ ys) = elim (Bool-cases (bytes_lt x y)) [
  | inl before ↦ rw before refl
  | inr behind ↦ rw behind refl
]

by_sorted :
    (crypto : Crypto) (ders : List Bytes)
    → canonical_trust_roots_digest crypto ders ≡ digest_sorted crypto (sort_strings ders)
unfolding canonical_trust_roots_digest sort_strings
by_sorted crypto [] = refl
by_sorted crypto (der ∷ ders) = insert_sorted-cons crypto der (sort_strings ders)

-- The digest of the trust roots, and the error for a set that has none, are the same for every order
-- of the roots.
pub canonical_trust_roots_digest-Perm :
    (crypto : Crypto) (ders others : List Bytes)
    → Perm ders others
    → canonical_trust_roots_digest crypto ders ≡ canonical_trust_roots_digest crypto others
canonical_trust_roots_digest-Perm crypto ders others p =
    by_sorted crypto ders
    ∙ ap (digest_sorted crypto) (sort_strings-Perm ders others p)
    ∙ sym (by_sorted crypto others)

-- No string is below the one before it.
abbrev Rises : List Bytes → Type 0
Rises [] = Unit {0}
Rises (x ∷ []) = Unit {0}
Rises (x ∷ y ∷ zs) = (bytes_lt y x ≡ false) × Rises (y ∷ zs)

Rises-insert_sorted : (x : Bytes) (xs : List Bytes) → Rises xs → Rises (insert_sorted x xs)
unfolding insert_sorted
Rises-insert_sorted x [] r = tt
Rises-insert_sorted x (y ∷ []) r = ground (arith, bytes_lt_trans x y x, bytes_lt_irrefl x)
Rises-insert_sorted x (y ∷ z ∷ zs) r =
    ground (arith, bytes_lt_trans x y x, bytes_lt_irrefl x, Rises-insert_sorted x (z ∷ zs))

Rises-sort_strings : (xs : List Bytes) → Rises (sort_strings xs)
unfolding sort_strings
Rises-sort_strings [] = tt
Rises-sort_strings (x ∷ xs) = Rises-insert_sorted x (sort_strings xs) (Rises-sort_strings xs)

abbrev pub is_ok : Result Bytes → Bool
is_ok (ok d) = true
is_ok (err e) = false

is_ok-prepend : (der : Bytes) (rest : Result Bytes) → is_ok (prepend der rest) ≡ is_ok rest
is_ok-prepend der (ok rest) = refl
is_ok-prepend der (err e) = refl

is_ok-digest_of :
    (crypto : Crypto) (canonical : Result Bytes)
    → is_ok (digest_of crypto canonical) ≡ is_ok canonical
is_ok-digest_of crypto (ok canonical) = refl
is_ok-digest_of crypto (err e) = refl

canonical_roots-Ascends :
    (xs : List Bytes) → Rises xs → is_ok (canonical_roots xs) ≡ true → Ascends xs
unfolding canonical_roots
canonical_roots-Ascends [] r e = tt
canonical_roots-Ascends (x ∷ []) r e = tt
canonical_roots-Ascends (x ∷ y ∷ zs) r e = elim (Bool-cases (bytes_eq y x)) [
  | inl same ↦ absurd (ground (arith, same))
  | inr other ↦ (
    bytes_lt_total y x other r.0,
    canonical_roots-Ascends (y ∷ zs) r.1
        (sym (is_ok-prepend x (canonical_roots (y ∷ zs))) ∙ rw (other, canonical_roots) at e),
  )
]

Ascends-canonical_roots : (xs : List Bytes) → Ascends xs → is_ok (canonical_roots xs) ≡ true
unfolding canonical_roots
Ascends-canonical_roots [] a = refl
Ascends-canonical_roots (x ∷ []) a = refl
Ascends-canonical_roots (x ∷ y ∷ zs) a =
    let other : bytes_eq y x ≡ false = ground (arith, bytes_eq→eq y x, bytes_lt_irrefl x, a.0) in
    rw other (is_ok-prepend x (canonical_roots (y ∷ zs)) ∙ Ascends-canonical_roots (y ∷ zs) a.1)

Distinct-insert_sorted_inv :
    (x : Bytes) (xs : List Bytes)
    → Distinct (insert_sorted x xs)
    → (contains x xs ≡ false) × Distinct xs
unfolding insert_sorted contains
Distinct-insert_sorted_inv x [] d = (refl, tt)
Distinct-insert_sorted_inv x (y ∷ ys) d = elim (Bool-cases (bytes_lt x y)) [
  | inl before ↦ rw (before, insert_sorted) at d
  | inr behind ↦
      let (fresh, rest) = rw (behind, insert_sorted) at d in
      let (absent, others) = Distinct-insert_sorted_inv x ys rest in
      let apart = sym (contains-insert_sorted y x ys) ∙ fresh in
      (ground (arith, apart, absent, bytes_eq_swap x y), (ground (arith, apart), others))
]

Distinct-sort_strings_inv : (xs : List Bytes) → Distinct (sort_strings xs) → Distinct xs
unfolding sort_strings
Distinct-sort_strings_inv [] d = tt
Distinct-sort_strings_inv (x ∷ xs) d =
    let (absent, rest) = Distinct-insert_sorted_inv x (sort_strings xs) d in
    (sym (contains-sort_strings x xs) ∙ absent, Distinct-sort_strings_inv xs rest)

-- A set of trust roots that is not empty has a digest exactly if no root occurs twice in it.
pub canonical_trust_roots_digest-Distinct :
    (crypto : Crypto) (der : Bytes) (ders : List Bytes)
    → (is_ok (canonical_trust_roots_digest crypto (der ∷ ders)) ≡ true) ↔ Distinct (der ∷ ders)
unfolding canonical_trust_roots_digest
canonical_trust_roots_digest-Distinct crypto der ders =
    let sorted = sort_strings (der ∷ ders) in
    let same = is_ok-digest_of crypto (canonical_roots sorted) in
    (
      λ e. Distinct-sort_strings_inv (der ∷ ders) (
          Ascends-Distinct sorted
            (canonical_roots-Ascends sorted (Rises-sort_strings (der ∷ ders)) (sym same ∙ e))),
      λ d. same ∙ Ascends-canonical_roots sorted (Ascends-sort_strings (der ∷ ders) d),
    )
