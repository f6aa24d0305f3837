-- ===== src/Security/Identity.antt =====
-- infrastructure/peer/security/identity.go: the name of a peer. A certificate is the texts of its URI
-- SANs; of net/url, the parser is a parameter.
pub mod Absolute
use pluginprotocol.Errors.{GoError, wrap, Result, ok, err}
use pluginprotocol.Prelude.{
  ℕ, zero, suc, Bool, true, false, ◌&&◌, ◌||◌, Option, none, some, List, [], ◌∷◌, ◌==◌, leb, drop,
  length, if◌then◌else◌, Bytes, codes,
}
use pluginprotocol.Security.Encoding.{security_error}

-- A parsed URL, with its String.
pub record Url : Type 0 where
  pub scheme : Bytes
  pub host : Bytes
  pub path : Bytes
  pub text : Bytes

abbrev pub UrlParser : Type 0
UrlParser = Bytes → Result Url

-- strings.TrimSpace: the width in bytes of the white space that a text begins with, 0 for none.
unfoldable pub space_width : Bytes → ℕ
space_width [] = 0
space_width (a ∷ []) = if a == 32 || (leb 9 a && leb a 13) then 1 else 0
space_width (a ∷ b ∷ []) =
    if a == 32 || (leb 9 a && leb a 13)
    then 1
    else if a == 194 && (b == 133 || b == 160)
    then 2
    else 0
space_width (a ∷ b ∷ c ∷ rest) =
    if a == 32 || (leb 9 a && leb a 13)
    then 1
    else if a == 194 && (b == 133 || b == 160)
    then 2
    else if (a == 225 && b == 154 && c == 128)
        || (a == 226
            && b == 128
            && (leb 128 c && leb c 138 || (c == 168 || (c == 169 || c == 175))))
        || (a == 226 && b == 129 && c == 159)
        || (a == 227 && b == 128 && c == 128)
    then 3
    else 0

-- Each round takes one byte at least.
unfoldable pub trim_left : ℕ → Bytes → Bytes
unfolding space_width
trim_left zero text = text
trim_left (suc rounds) text =
    let rest = trim_left rounds (drop (space_width text) text) in
    if space_width text == 0 then text else rest

abbrev pub is_nil : Bytes → Bool
is_nil [] = true
is_nil (b ∷ bs) = false

unfoldable pub trim_right : Bytes → Bytes
unfolding trim_left
trim_right [] = []
trim_right (b ∷ bs) =
    let rest = trim_right bs in
    if is_nil (trim_left (suc (length bs)) (b ∷ bs)) then [] else b ∷ rest

unfoldable pub trim_space : Bytes → Bytes
unfolding trim_left trim_right
trim_space text = trim_right (trim_left (length text) text)

-- ErrNoPeerIdentity
abbrev pub no_peer_identity : GoError
no_peer_identity = security_error "security: peer presented no usable URI SAN"

abbrev pub checked_url : Result Url → Result Bytes
checked_url (err e) = err (wrap (codes "security: peer identity is not a URI") e)
checked_url (ok url) =
    if is_nil url.scheme || (is_nil url.host || is_nil url.path)
    then err (security_error "security: peer identity is not an absolute URI")
    else ok url.text

module _ (parse : UrlParser) where
  -- Identity
  unfoldable pub identity : Bytes → Result Bytes
  unfolding trim_space
  identity uri =
      let trimmed = trim_space uri in
      if is_nil trimmed then err no_peer_identity else checked_url (parse trimmed)

  -- IdentityOf; a nil certificate is `none`.
  unfoldable pub identity_of : Option (List Bytes) → Result Bytes
  unfolding identity
  identity_of none = err no_peer_identity
  identity_of (some []) = err (wrap (codes "certificate carries no URI SAN") no_peer_identity)
  identity_of (some (uri ∷ [])) = identity uri
  identity_of (some (uri ∷ other ∷ rest)) =
      err (wrap (codes "certificate carries several URI SANs") no_peer_identity)

  -- PeerIdentityOf a connection, by its peer's certificates.
  unfoldable pub peer_identity_of : List (List Bytes) → Result Bytes
  unfolding identity_of
  peer_identity_of [] = err no_peer_identity
  peer_identity_of (leaf ∷ rest) = identity_of (some leaf)
