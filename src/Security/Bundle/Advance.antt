-- ===== src/Security/Bundle/Advance.antt =====
-- infrastructure/peer/security/revocation.go: the states of an issuer, over several bundles.
use pluginprotocol.Prelude.{
  ◌≡◌, ◌∙◌, refl, ap, sym, true, false, ◌&&◌, not, List, [], ◌∷◌, Bytes, bytes_eq, bytes_eq→eq, ℤ,
  pos, negsuc, arith,
}
use pluginprotocol.Prelude.Table.{contains}
use pluginprotocol.Security.Bundle.{includes}
use pluginprotocol.Security.Bundle.Monotone.{Advances, includes_more}
use pluginprotocol.Security.Checkpoint.{IssuerCheckpoint}
use pluginprotocol.Security.Encoding.{is_below, is_same}

pub contains-includes :
    (k : Bytes) (set serials : List Bytes)
    → includes set serials ≡ true
    → contains k serials ≡ true
    → contains k set ≡ true
unfolding includes contains
contains-includes k set [] e c = cc
contains-includes k set (serial ∷ serials) e c =
    ground (arith, contains-includes k set serials, bytes_eq→eq serial k)

is_below_trans : (a b c : ℤ) → is_below b a ≡ false → is_below c b ≡ false → is_below c a ≡ false
is_below_trans (pos a) (pos b) (pos c) p q = ground arith
is_below_trans (pos a) (pos b) (negsuc c) p q = ground arith
is_below_trans (pos a) (negsuc b) c p q = cc
is_below_trans (negsuc a) (pos b) (pos c) p q = refl
is_below_trans (negsuc a) (pos b) (negsuc c) p q = cc
is_below_trans (negsuc a) (negsuc b) (pos c) p q = refl
is_below_trans (negsuc a) (negsuc b) (negsuc c) p q = ground arith

is_same_between :
    (a b c : ℤ)
    → is_below b a ≡ false
    → is_below c b ≡ false
    → is_same c a ≡ true
    → (is_same b a ≡ true) × (is_same c b ≡ true)
is_same_between (pos a) (pos b) (pos c) p q e = (ground arith, ground arith)
is_same_between (pos a) (pos b) (negsuc c) p q e = cc
is_same_between (pos a) (negsuc b) c p q e = cc
is_same_between (negsuc a) (pos b) (pos c) p q e = cc
is_same_between (negsuc a) (pos b) (negsuc c) p q e = cc
is_same_between (negsuc a) (negsuc b) (pos c) p q e = cc
is_same_between (negsuc a) (negsuc b) (negsuc c) p q e = (ground arith, ground arith)

no_equivocation_trans :
    (a b c : ℤ) (first second third : Bytes)
    → is_below b a ≡ false
    → is_below c b ≡ false
    → (is_same b a && not (bytes_eq second first)) ≡ false
    → (is_same c b && not (bytes_eq third second)) ≡ false
    → (is_same c a && not (bytes_eq third first)) ≡ false
no_equivocation_trans a b c first second third p q e₁ e₂ =
    let between = is_same_between a b c p q in
    ground (arith, between, bytes_eq→eq second first, bytes_eq→eq third second)

pub Advances-trans :
    {first second third : IssuerCheckpoint}
    → Advances first second
    → Advances second third
    → Advances first third
Advances-trans {first} {second} {third} a b =
    let same : b.old_number ≡ a.new_number = ground (arith, a.new_parsed, b.old_parsed) in
    let lower : is_below b.new_number a.new_number ≡ false =
      ap (is_below b.new_number) (sym same) ∙ b.no_rollback in
    let exact : (is_same b.new_number a.new_number
          && not (bytes_eq third.crl_sha256 second.crl_sha256))
        ≡ false =
      ap (λ (z : ℤ). is_same b.new_number z && not (bytes_eq third.crl_sha256 second.crl_sha256))
        (sym same)
      ∙ b.no_equivocation in
    record {
      old_number = a.old_number;
      new_number = b.new_number;
      old_parsed = a.old_parsed;
      new_parsed = b.new_parsed;
      no_rollback = is_below_trans a.old_number a.new_number b.new_number a.no_rollback lower;
      no_equivocation =
          no_equivocation_trans a.old_number a.new_number b.new_number first.crl_sha256
            second.crl_sha256 third.crl_sha256 a.no_rollback lower a.no_equivocation exact;
      no_removal =
          includes_more second.revoked third.revoked first.revoked
            (λ k c. contains-includes k third.revoked second.revoked b.no_removal c) a.no_removal;
    }
