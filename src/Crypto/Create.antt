-- ===== src/Crypto/Create.antt =====
-- esdx4ixps/util/crypto.py: creating keys and certificates, and printing them. What the library
-- `cryptography` does of it is a parameter.
use esdx_scion.Base.{ℕ, ◌≡◌, refl, Option, none, List, [], ◌∷◌, Result, ok, err, value_error}
use esdx_scion.Text.{Text, Bytes, decode_ascii, encode_ascii-decode_ascii}
use esdx_scion.Crypto.{
  Cryptography, get_common_name, load_certificate, load_certificate_bytes, load_key,
}
use esdx_scion.Market.Time.{DateTime}

-- the object identifiers of names
pub data Oid : Type 0 where
  country_name organization_name organizational_unit_name common_name : Oid

-- `x509.Name`, its attributes in order
abbrev pub Name : Type 0
Name = List (Oid × Text)

-- the values of the common names
abbrev pub common_names_in : Name → List Text
common_names_in [] = []
common_names_in ((common_name, value) ∷ name) = value ∷ common_names_in name
common_names_in ((country_name, value) ∷ name) = common_names_in name
common_names_in ((organization_name, value) ∷ name) = common_names_in name
common_names_in ((organizational_unit_name, value) ∷ name) = common_names_in name

unfoldable pub create_x509_name : Text → Text → Text → Text → Name
create_x509_name country organization org_unit common =
    (country_name, country)
    ∷ (organization_name, organization)
    ∷ (organizational_unit_name, org_unit)
    ∷ (common_name, common)
    ∷ []

-- What the library makes; a number stands for what is random.
pub record Authority (crypto : Cryptography) : Type 0 where
  -- of the public exponent and the size
  pub generate_private_key : ℕ → ℕ → ℕ → crypto.Key
  -- of the subject, the issuer, the key that is certified and signs, the serial number and the validity
  pub build_certificate : Name → Name → crypto.Key → ℕ → DateTime → DateTime → crypto.Certificate
  -- PEM
  pub public_bytes : crypto.Certificate → Bytes
  -- PEM of PKCS#8, encrypted if there is a password
  pub private_bytes : crypto.Key → Option Bytes → Bytes

-- A PEM text is ASCII, is not DER, and is read back; a certificate has the names of its subject and
-- certifies its key.
pub record IsStandard (crypto : Cryptography) (authority : Authority crypto) : Type 0 where
  pub certificate_not_der :
      (cert : crypto.Certificate)
      → crypto.load_der_certificate (authority.public_bytes cert) ≡ err value_error
  pub certificate_read :
      (cert : crypto.Certificate)
      → crypto.load_pem_certificate (authority.public_bytes cert) ≡ ok cert
  pub key_not_der :
      (key : crypto.Key) → crypto.load_der_key (authority.private_bytes key none) ≡ err value_error
  pub key_read :
      (key : crypto.Key) → crypto.load_pem_key (authority.private_bytes key none) ≡ ok key
  pub subject_names :
      (subject issuer : Name) (key : crypto.Key) (serial : ℕ) (notbefore notafter : DateTime)
      → crypto.common_names
          (authority.build_certificate subject issuer key serial notbefore notafter)
        ≡ common_names_in subject
  pub certifies :
      (subject issuer : Name) (key : crypto.Key) (serial : ℕ) (notbefore notafter : DateTime)
      → crypto.Certifies
          (authority.build_certificate subject issuer key serial notbefore notafter)
          key

module _ (crypto : Cryptography) (authority : Authority crypto) where
  open crypto use {Key, Certificate}

  unfoldable pub create_key : ℕ → ℕ → Key
  create_key key_size random = authority.generate_private_key 65537 key_size random

  unfoldable pub create_certificate : Name → Name → Key → DateTime → DateTime → ℕ → Certificate
  create_certificate issuer subject key notbefore notafter serial =
      authority.build_certificate subject issuer key serial notbefore notafter

  unfoldable pub certificate_to_pem : Certificate → Result Text
  certificate_to_pem cert = decode_ascii (authority.public_bytes cert)

  unfoldable pub key_to_pem : Key → Option Bytes → Result Text
  key_to_pem key password = decode_ascii (authority.private_bytes key password)

  module _ (standard : IsStandard crypto authority) where
    -- A certificate that was printed is loaded back.
    pub load_certificate-certificate_to_pem :
        (cert : Certificate) (pem : Text)
        → certificate_to_pem cert ≡ ok pem
        → load_certificate crypto pem ≡ ok cert
    unfolding certificate_to_pem load_certificate load_certificate_bytes
    load_certificate-certificate_to_pem cert pem e =
        rw
          (
            encode_ascii-decode_ascii (authority.public_bytes cert) pem e,
            load_certificate_bytes,
            standard.certificate_not_der cert,
            standard.certificate_read cert,
          )
          refl

    -- A key that was printed without a password is loaded back.
    pub load_key-key_to_pem :
        (key : Key) (pem : Text) → key_to_pem key none ≡ ok pem → load_key crypto pem ≡ ok key
    unfolding key_to_pem load_key
    load_key-key_to_pem key pem e =
        rw
          (
            encode_ascii-decode_ascii (authority.private_bytes key none) pem e,
            standard.key_not_der key,
            standard.key_read key,
          )
          refl

    pub get_common_name-create_certificate :
        (issuer : Name) (country organization org_unit common : Text) (key : Key)
        (notbefore notafter : DateTime) (serial : ℕ)
        → get_common_name crypto (
            create_certificate issuer
              (create_x509_name country organization org_unit common)
              key
              notbefore
              notafter
              serial)
          ≡ ok common
    unfolding get_common_name create_certificate create_x509_name
    get_common_name-create_certificate issuer country organization org_unit common key notbefore
          notafter serial =
        rw
          (
            get_common_name,
            standard.subject_names (create_x509_name country organization org_unit common) issuer
                key serial notbefore notafter,
          )
          refl

    pub create_certificate-Certifies :
        (issuer subject : Name) (key : Key) (notbefore notafter : DateTime) (serial : ℕ)
        → crypto.Certifies (create_certificate issuer subject key notbefore notafter serial) key
    unfolding create_certificate
    create_certificate-Certifies issuer subject key notbefore notafter serial =
        standard.certifies subject issuer key serial notbefore notafter
