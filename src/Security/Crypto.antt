-- ===== src/Security/Crypto.antt =====
-- What infrastructure/peer/security takes from crypto/x509 and crypto/sha256, as parameters. A time
-- is a number of nanoseconds since the zero time.Time, which is 0.
use pluginprotocol.Prelude.{ℕ, Bool, Option, List, Bytes, ℤ}
use pluginprotocol.Security.Encoding.{hex_encode}

-- A parsed certificate, by what the code reads of it.
pub record Certificate : Type 0 where
  pub raw : Bytes
  pub is_ca : Bool
  pub serial : ℤ
  pub subject : Bytes
  pub subject_key_id : Bytes

pub record Extension : Type 0 where
  pub id : List ℕ
  pub critical : Bool

pub record RevokedEntry : Type 0 where
  pub serial : Option ℤ
  pub extensions : List Extension

-- A parsed x509.RevocationList.
pub record Crl : Type 0 where
  pub issuer : Bytes
  pub number : Option ℤ
  pub this_update : ℕ
  pub next_update : ℕ
  pub authority_key_id : Bytes
  pub extensions : List Extension
  pub entries : List RevokedEntry

-- The packages' functions: ParseCertificate, ParseRevocationList, whether CheckSignatureFrom of a
-- CRL in DER reports no error, whether Verify of a certificate finds a chain to one of the roots
-- through the intermediates at a time, and Sum256.
pub record Crypto : Type 0 where
  pub parse_certificate : Bytes → Option Certificate
  pub parse_crl : Bytes → Option Crl
  pub signed_by : Bytes → Certificate → Bool
  pub chains_to : List Bytes → List Certificate → ℕ → Certificate → Bool
  pub sha256 : Bytes → Bytes

-- `hex.EncodeToString(sum[:])` of a Sum256.
abbrev pub hex_sha256 : Crypto → Bytes → Bytes
hex_sha256 crypto bytes = hex_encode (crypto.sha256 bytes)
