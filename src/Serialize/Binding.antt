-- ===== src/Serialize/Binding.antt =====
-- What the signed bytes determine.
use mathlib.Core.List.{append_cancel_left, append_cancel_right}
use esdx_scion.Base.{
  ◌≡◌, ◌≢◌, ap, sym, ◌∙◌, Option, none, some, [], ◌++◌, append_assoc, ok, ok-injective, bind_inv,
  All-map, Lacks, drop,
}
use esdx_scion.Base.Int.{ℤ}
use esdx_scion.Text.{
  Text, Bytes, codes, encode_ascii, text_of_int, encode_ascii-eq, text_of_int-All,
  text_of_int-injective, cut_first, IsIntChar,
}
use esdx_scion.Conversion.Address.{last_colon}
use esdx_scion.Conversion.Address.RoundTrip.{last_colon-append}
use esdx_scion.Serialize.{purchase_order_fields_serialize_to_bytes, get_contract_request_serialize}

int-Lacks_s : (i : ℤ) → Lacks b's' (text_of_int i)
int-Lacks_s i = All-map IsIntChar (λ c. c ≢ b's') (λ c h. h.2) _ (text_of_int-All i)

int-Lacks_colon : (i : ℤ) → Lacks b':' (text_of_int i)
int-Lacks_colon i = All-map IsIntChar (λ c. c ≢ b':') (λ c h. h.1) _ (text_of_int-All i)

-- the bytes of a request without a signature
request_bytes :
    (id : ℤ) (ia : Text) (b : Bytes)
    → get_contract_request_serialize id ia none ≡ ok b
    → b ≡ codes "contract_id:" ++ (text_of_int id ++ (codes "signature:requester_ia:" ++ ia))
unfolding get_contract_request_serialize
request_bytes id ia b e = bind_inv (encode_ascii (text_of_int id)) _ e λ t et e1.
    bind_inv (encode_ascii ia) _ e1
      λ u eu e2. ok-injective (sym e2) ∙ rw (encode_ascii-eq _ t et, encode_ascii-eq ia u eu)

-- The bytes that a requester signs determine the contract and the requester: two requests with the same
-- bytes ask for the same contract as the same requester.
pub get_contract_request_binds :
    (id id' : ℤ) (ia ia' : Text) (b : Bytes)
    → get_contract_request_serialize id ia none ≡ ok b
    → get_contract_request_serialize id' ia' none ≡ ok b
    → (id ≡ id') × (ia ≡ ia')
get_contract_request_binds id id' ia ia' b e e' =
    let same = sym (request_bytes id ia b e) ∙ request_bytes id' ia' b e' in
    let (ids, rests) =
      cut_first b's' (text_of_int id) (text_of_int id') _ _ (int-Lacks_s id) (int-Lacks_s id')
        (ap (drop 12) same) in
    (text_of_int-injective id id' ids, ap (drop 22) rests)

-- the bytes of a purchase order
order_bytes :
    (offer : Bytes) (ia prof : Text) (start : ℤ) (b : Bytes)
    → purchase_order_fields_serialize_to_bytes offer ia prof start ≡ ok b
    → b
      ≡ codes "offer:"
        ++ (offer
            ++ (codes "bw_profile:"
                ++ (prof
                    ++ (codes "buyer:" ++ (ia ++ (codes "starting_on:" ++ text_of_int start))))))
unfolding purchase_order_fields_serialize_to_bytes
order_bytes offer ia prof start b e = bind_inv (encode_ascii prof) _ e λ p ep e1.
    bind_inv (encode_ascii ia) _ e1 λ u eu e2.
      bind_inv (encode_ascii (text_of_int start)) _ e2 λ t et e3.
        ok-injective (sym e3)
        ∙ rw (encode_ascii-eq _ p ep, encode_ascii-eq _ u eu, encode_ascii-eq _ t et)

abbrev pair_of : Option (Text × Text) → Text × Text
pair_of none = ([], [])
pair_of (some pair) = pair

-- the end of the bytes at its last colon
cut_start :
    (ia ia' : Text) (start start' : ℤ)
    → ia ++ (codes "starting_on:" ++ text_of_int start)
      ≡ ia' ++ (codes "starting_on:" ++ text_of_int start')
    → (ia ≡ ia') × (start ≡ start')
cut_start ia ia' start start' e =
    let pairs =
      (sym (last_colon-append (ia ++ codes "starting_on") _ (int-Lacks_colon start))
        ∙ (ap last_colon (append_assoc ia _ _ ∙ (e ∙ sym (append_assoc ia' _ _)))
            ∙ last_colon-append (ia' ++ codes "starting_on") _ (int-Lacks_colon start'))) in
    (
      append_cancel_right ia ia' (codes "starting_on") (ap (λ t. (pair_of t).0) pairs),
      text_of_int-injective start start' (ap (λ t. (pair_of t).1) pairs),
    )

-- For one offer, the bytes that a buyer signs determine the profile, the buyer and the start of a
-- purchase, if the profiles hold no letter `b`, as lists of integers do.
pub purchase_order_binds :
    (offer : Bytes) (ia ia' prof prof' : Text) (start start' : ℤ) (b : Bytes)
    → Lacks b'b' prof
    → Lacks b'b' prof'
    → purchase_order_fields_serialize_to_bytes offer ia prof start ≡ ok b
    → purchase_order_fields_serialize_to_bytes offer ia' prof' start' ≡ ok b
    → (ia ≡ ia') × (prof ≡ prof') × (start ≡ start')
purchase_order_binds offer ia ia' prof prof' start start' b h h' e e' =
    let same =
      sym (order_bytes offer ia prof start b e) ∙ order_bytes offer ia' prof' start' b e' in
    let behind = ap (drop 11) (append_cancel_left offer _ _ (ap (drop 6) same)) in
    let (profs, rests) = cut_first b'b' prof prof' _ _ h h' behind in
    let (ias, starts) = cut_start ia ia' start start' (ap (drop 5) rests) in (ias, profs, starts)
