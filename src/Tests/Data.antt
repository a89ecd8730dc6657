-- ===== src/Tests/Data.antt =====
-- The parameters of the theorems, instantiated for the tests, and some data.
use esdx_scion.Base.{
  ok, err, value_error, ◌∷◌, ℕ, ◌*◌, refl, true, none, some, [], ◌++◌, if◌then◌else◌,
}
use esdx_scion.Base.Int.{pos}
use esdx_scion.Text.{codes, text_eq, text_eq_refl, show_ℕ}
use esdx_scion.Conversion.Ip.{Ipv6}
use esdx_scion.Serialize.{Floats}
use esdx_scion.Crypto.{Cryptography}
use esdx_scion.Market.Order.{As}
use esdx_scion.Market.Time.{DateTime}
use esdx_scion.Market.Offer.{Offer}

-- one IPv6 address, `::1`
abbrev pub loopback_only : Ipv6
loopback_only = record {
  Address = Unit {0};
  parse = λ s. if text_eq s (codes "::1") then some tt else none;
  print = λ a. codes "::1";
  beq = λ a b. true;
  parse-print = λ a. refl;
  beq_iff = λ a b. (λ e. refl, λ e. refl);
}

-- floats that are the numbers from 1 to 9
abbrev pub digit_floats : Floats
digit_floats = record { Float = ℕ; format_e = λ n. show_ℕ 10 n ++ codes ".000000e+00" }

abbrev pub seconds : ℕ → DateTime
seconds n = record { micros = pos (n * 1000000); aware = true }

-- three periods of bandwidth, from the time 600 on
abbrev pub three_periods : Offer ℕ
three_periods = record {
  id = some 1;
  iaid = codes "1-ff00:0:111";
  signature = [];
  notbefore = seconds 600;
  notafter = seconds 2400;
  reachable_paths = codes "*";
  qos_class = pos 1;
  price_per_unit = 1;
  bw_profile = codes "5,4,2";
  br_address_template = codes "10.1.1.1:50000-50010";
  br_mtu = pos 100;
  br_link_to = codes "PARENT";
  deprecates = none;
}

-- one key, which signs a text by the text itself
abbrev pub plain_crypto : Cryptography
plain_crypto = record {
  Key = Unit {0};
  Certificate = Unit {0};
  load_der_certificate = λ b. err value_error;
  load_pem_certificate = λ b. ok tt;
  load_der_key = λ b. err value_error;
  load_pem_key = λ b. ok tt;
  common_names = λ c. codes "1-ff00:0:112" ∷ [];
  sign = λ k salt b. b;
  verify = λ c signature b. text_eq signature b;
  Certifies = λ c k. Unit {0};
  verify-sign = λ c k salt b pair. text_eq_refl b;
}

abbrev pub buyer : As
buyer = record { iaid = codes "1-ff00:0:112"; certificate_pem = codes "pem"; name = codes "buyer" }
