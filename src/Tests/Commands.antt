-- ===== src/Tests/Commands.antt =====
-- The theorems on the management commands.
use esdx_scion.Base.{
  ℕ, ◌+◌, Bool, ltb, ◌&&◌, zero, suc, ◌≡◌, ◌⊎◌, refl, sym, ap, ◌∙◌, true, false, Option, none, some,
  List, [], ◌∷◌, Result, ok, err, Exn, value_error, integrity_error, if◌then◌else◌, ok-injective,
}
use esdx_scion.Text.{
  Text, Bytes, codes, text_eq, text_eq_refl, strip, split, int_of_text, decode_ascii,
}
use esdx_scion.Conversion.Ia.{ia_validator, ia_str_to_int, ia_of_parts, as_of_parts, as_loop}
use esdx_scion.Crypto.{Cryptography, get_common_name, load_certificate_bytes}
use esdx_scion.Crypto.Create.{
  Authority, IsStandard, common_names_in, create_x509_name, create_certificate, certificate_to_pem,
  key_to_pem,
}
use esdx_scion.Transaction.{atomic}
use esdx_scion.Market.Order.{As}
use esdx_scion.Commands.CreateClient.{
  AsTable, IsAsTable, Options, create_as, remove_existing, replace_client, create_client,
  Registered, create_client-Registered,
}
use esdx_scion.Commands.Broker.{
  Site, remove_broker, export_broker, create_broker, broker_body, broker_command, atomic_rows,
}
use esdx_scion.Commands.Broker as Broker
use esdx_scion.Tests.Data.{seconds}

-- texts one after the other, each with a 0 at its end
mark : Text → Bytes → Bytes
mark [] rest = 0 ∷ rest
mark (c ∷ t) rest = suc c ∷ mark t rest

abbrev print : List Text → Bytes
print [] = []
print (t ∷ ts) = mark t (print ts)

extend : ℕ → List Text → List Text
extend c [] = (c ∷ []) ∷ []
extend c (t ∷ ts) = (c ∷ t) ∷ ts

abbrev parse : Bytes → List Text
parse [] = []
parse (zero ∷ b) = [] ∷ parse b
parse (suc c ∷ b) = extend c (parse b)

parse-mark : (t : Text) (rest : Bytes) → parse (mark t rest) ≡ t ∷ parse rest
unfolding mark extend
parse-mark [] rest = refl
parse-mark (c ∷ t) rest = ap (extend c) (parse-mark t rest)

parse-print : (ts : List Text) → parse (print ts) ≡ ts
parse-print [] = refl
parse-print (t ∷ ts) = parse-mark t (print ts) ∙ ap (λ (us : List Text). t ∷ us) (parse-print ts)

-- a certificate is the list of its common names
abbrev named_crypto : Cryptography
named_crypto = record {
  Key = Unit {0};
  Certificate = List Text;
  load_der_certificate = λ b. err value_error;
  load_pem_certificate = λ b. ok (parse b);
  load_der_key = λ b. err value_error;
  load_pem_key = λ b. ok tt;
  common_names = λ c. c;
  sign = λ k salt b. b;
  verify = λ c signature b. text_eq signature b;
  Certifies = λ c k. Unit {0};
  verify-sign = λ c k salt b pair. text_eq_refl b;
}

abbrev authority : Authority named_crypto
authority = record {
  generate_private_key = λ exponent size random. tt;
  build_certificate = λ subject issuer key serial notbefore notafter. common_names_in subject;
  public_bytes = print;
  private_bytes = λ key password. [];
}

standard : IsStandard named_crypto authority
standard = record {
  certificate_not_der = λ cert. refl;
  certificate_read = λ cert. ap ok (parse-print cert);
  key_not_der = λ key. refl;
  key_read = λ key. refl;
  subject_names = λ subject issuer key serial notbefore notafter. refl;
  certifies = λ subject issuer key serial notbefore notafter. tt;
}

-- a comparison that ignores the case of ASCII letters
abbrev lower : Text → Text
lower [] = []
lower (c ∷ t) = (if ltb 64 c && ltb c 91 then c + 32 else c) ∷ lower t

abbrev same_iaid : Text → Text → Bool
same_iaid a b = text_eq (lower a) (lower b)

abbrev put : As → (Text → Option As) → Option As → Result (Unit {0} × (Text → Option As))
put a db none = ok (tt, λ ia. if same_iaid a.iaid ia then some a else db ia)
put a db (some old) = err integrity_error

abbrev as_table : AsTable
as_table = record {
  Db = Text → Option As;
  same = same_iaid;
  find = λ db ia. db ia;
  insert = λ a db. put a db (db a.iaid);
  delete = λ iaid db. ok (tt, λ ia. if same_iaid iaid ia then none else db ia);
}

put-found :
    (a : As) (db db' : Text → Option As) (old : Option As)
    → put a db old ≡ ok (tt, db')
    → (ia : Text) → db' ia ≡ (if same_iaid a.iaid ia then some a else db ia)
put-found a db db' none e ia =
    sym (ap (λ (p : Unit {0} × (Text → Option As)). p.1 ia) (ok-injective e))
put-found a db db' (some old) e ia = absurd (cc)

as_table-IsAsTable : IsAsTable as_table
as_table-IsAsTable = record {
  same_refl = λ ia. text_eq_refl (lower ia);
  inserted = λ a db db' e. put-found a db db' (db a.iaid) e;
  deleted =
      λ iaid db db' e ia. sym (ap (λ (p : Unit {0} × (Text → Option As)). p.1 ia) (ok-injective e));
}

abbrev options : Options
options = record {
  cert = print (codes "1-ff00:0:112" ∷ []);
  ia = codes " 1-ff00:0:112";
  name = none;
  force = false;
}

abbrev registered : Result (Unit {0}) × (Text → Option As)
registered = create_client named_crypto authority as_table options (λ ia. none)

registers : registered.0 ≡ ok tt
unfolding create_client replace_client remove_existing create_as ia_validator ia_str_to_int
    ia_of_parts split strip int_of_text as_of_parts as_loop atomic load_certificate_bytes
    get_common_name mark extend certificate_to_pem decode_ascii
registers = refl

create_client-Registered_example :
    ((e : Exn) × (registered.0 ≡ err e) × (registered.1 ≡ (λ (ia : Text). none)))
    ⊎ Registered named_crypto authority as_table options (λ ia. none) registered.1
create_client-Registered_example =
    create_client-Registered named_crypto authority as_table standard as_table-IsAsTable options
      (λ ia. none) registered.1 registered.0 refl

abbrev broker_options : Broker.Options
broker_options = record {
  remove = false;
  create = true;
  export_files = true;
  key_random = 0;
  serial = 0;
  now = seconds 600;
  then = seconds 600;
  crt_writing = Broker.written;
  key_writing = Broker.written;
}

abbrev empty : Site
empty = record { rows = []; crt = none; key = none }

abbrev created : Result (Unit {0}) × Site
created = broker_command named_crypto authority broker_options empty

creates : created.0 ≡ ok tt
unfolding broker_command broker_body create_broker atomic_rows remove_broker key_to_pem decode_ascii
    certificate_to_pem create_certificate create_x509_name mark export_broker
creates = refl
