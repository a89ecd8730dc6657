-- ===== src/Crypto.antt =====
-- esdx4ixps/util/crypto.py: loading and signing. The library `cryptography` is a parameter.
pub mod Create
use esdx_scion.Base.{
  ℕ, ◌≡◌, Bool, true, not, List, [], ◌∷◌, Result, ok, err, value_error, type_error, raise_if, ◌>>=◌,
}
use esdx_scion.Text.{Text, Bytes, encode_ascii}

pub record Cryptography : Type 1 where
  pub Key : Type 0
  pub Certificate : Type 0
  -- the loaders raise ValueError, or TypeError for an encrypted key without a password
  pub load_der_certificate : Bytes → Result Certificate
  pub load_pem_certificate : Bytes → Result Certificate
  pub load_der_key : Bytes → Result Key
  pub load_pem_key : Bytes → Result Key
  -- the values of the common names of the subject
  pub common_names : Certificate → List Text
  -- PSS with SHA256; the number stands for the random salt
  pub sign : Key → ℕ → Bytes → Bytes
  -- `verify key signature content`
  pub verify : Certificate → Bytes → Bytes → Bool
  -- the certificate was made for the key
  pub Certifies : Certificate → Key → Type 0
  pub verify-sign :
      (cert : Certificate) (key : Key) (salt : ℕ) (content : Bytes)
      → Certifies cert key
      → verify cert (sign key salt content) content ≡ true

module _ (crypto : Cryptography) where
  open crypto use {
    Key, Certificate, load_der_certificate, load_pem_certificate, load_der_key, load_pem_key,
    common_names, sign, verify,
  }

  unfoldable pub get_common_name : Certificate → Result Text
  get_common_name cert = elim (common_names cert) [
    | [] ↦ err value_error
    | name ∷ rest ↦ elim rest [ [] ↦ ok name | _ ∷ _ ↦ err value_error ]
  ]

  -- `load_certificate`, of bytes
  unfoldable pub load_certificate_bytes : Bytes → Result Certificate
  load_certificate_bytes content = elim (load_der_certificate content) [
    | ok cert ↦ ok cert
    | err value_error ↦ load_pem_certificate content
    | err e ↦ err e
  ]

  -- `load_certificate`, of a string
  unfoldable pub load_certificate : Text → Result Certificate
  load_certificate content = do bytes ← encode_ascii content; load_certificate_bytes bytes

  -- `load_key`, of a string
  unfoldable pub load_key : Text → Result Key
  load_key content = do
    bytes ← encode_ascii content
    elim (load_der_key bytes) [
      | ok key ↦ ok key
      | err type_error ↦ load_pem_key bytes
      | err value_error ↦ load_pem_key bytes
      | err e ↦ err e
    ]

  unfoldable pub signature_create : Key → ℕ → Bytes → Bytes
  signature_create key salt content = sign key salt content

  unfoldable pub signature_validate : Certificate → Bytes → Bytes → Result (Unit {0})
  signature_validate cert signature content =
      raise_if (not (verify cert signature content)) value_error

  -- a signature made with a key is accepted with a certificate of the key
  pub signature_validate-signature_create :
      (cert : Certificate) (key : Key) (salt : ℕ) (content : Bytes)
      → crypto.Certifies cert key
      → signature_validate cert (signature_create key salt content) content ≡ ok tt
  unfolding signature_validate signature_create
  signature_validate-signature_create cert key salt content pair =
      rw (crypto.verify-sign cert key salt content pair)
