-- ===== src/Serialize.antt =====
-- esdx4ixps/util/serialize.py: the bytes that are signed. Formatting a float is a parameter.
pub mod Binding
pub mod Ambiguity
use esdx_scion.Base.{
  ℕ, Bool, true, false, Option, none, some, List, [], ◌∷◌, ◌++◌, Result, ok, ◌>>=◌, if◌then◌else◌,
}
use esdx_scion.Base.Int.{ℤ}
use esdx_scion.Text.{Text, Bytes, codes, encode_ascii, text_of_int}

-- `float`, with `"{:e}".format(x)`
pub record Floats : Type 1 where
  pub Float : Type 0
  pub format_e : Float → Text

-- The arguments of `offer_fields_serialize_to_bytes` before the signature; the times are in seconds
-- since the epoch.
pub record OfferFields (F : Type 0) : Type 0 where
  pub iaid : Text
  pub notbefore : ℤ
  pub notafter : ℤ
  pub reachable_paths : Text
  pub qos_class : ℤ
  pub price_per_unit : F
  pub bw_profile : Text
  pub br_address_template : Text
  pub br_mtu : ℤ
  pub br_link_to : Text

module _ (floats : Floats) where
  open floats use {Float, format_e}

  unfoldable pub offer_text : OfferFields Float → Text
  offer_text f =
      codes "ia:"
      ++ (f.iaid
          ++ (text_of_int f.notbefore
              ++ (text_of_int f.notafter
                  ++ (codes "reachable:"
                      ++ (f.reachable_paths
                          ++ (text_of_int f.qos_class
                              ++ (format_e f.price_per_unit
                                  ++ (codes "profile:"
                                      ++ (f.bw_profile
                                          ++ (codes "br_address_template:"
                                              ++ (f.br_address_template
                                                  ++ (codes "br_mtu:"
                                                      ++ (text_of_int f.br_mtu
                                                          ++ (codes "br_link_to:"
                                                            ++ (f.br_link_to
                                                            ++ codes "signature:")))))))))))))))

  unfoldable pub offer_fields_serialize_to_bytes : OfferFields Float → Bytes → Result Bytes
  offer_fields_serialize_to_bytes f signature = do
    s ← encode_ascii (offer_text f)
    ok (s ++ signature)

  -- A `market_pb2.OfferSpecification`: its timestamps are read for their seconds alone.
  pub record OfferSpecification : Type 0 where
    pub fields : OfferFields Float
    pub signature : Bytes

  unfoldable pub offer_specification_serialize_to_bytes : OfferSpecification → Bool → Result Bytes
  offer_specification_serialize_to_bytes s include_signature =
      offer_fields_serialize_to_bytes s.fields (if include_signature then s.signature else [])

  -- A `market_pb2.Offer`.
  pub record OfferMessage : Type 0 where
    pub id : ℤ
    pub specs : OfferSpecification

  unfoldable pub offer_serialize_to_bytes : OfferMessage → Bool → Result Bytes
  offer_serialize_to_bytes o include_signature =
      offer_specification_serialize_to_bytes o.specs include_signature

unfoldable pub purchase_order_fields_serialize_to_bytes : Bytes → Text → Text → ℤ → Result Bytes
purchase_order_fields_serialize_to_bytes offer_bytes ia_id bw_profile starting_on = do
  profile ← encode_ascii bw_profile
  buyer ← encode_ascii ia_id
  start ← encode_ascii (text_of_int starting_on)
  ok (
      codes "offer:"
      ++ (offer_bytes
          ++ (codes "bw_profile:"
              ++ (profile ++ (codes "buyer:" ++ (buyer ++ (codes "starting_on:" ++ start)))))))

unfoldable pub contract_fields_serialize_to_bytes : Bytes → Bytes → ℤ → Text → Result Bytes
contract_fields_serialize_to_bytes purchase_order_bytes buyer_signature timestamp br_address = do
  time ← encode_ascii (text_of_int timestamp)
  address ← encode_ascii br_address
  ok (
      codes "order:"
      ++ (purchase_order_bytes
          ++ (codes "signature_buyer:"
              ++ (buyer_signature
                  ++ (codes "timestamp:" ++ (time ++ (codes "br_address:" ++ address)))))))

-- `if signature is None: signature = b""`
abbrev pub or_empty : Option Bytes → Bytes
or_empty none = []
or_empty (some signature) = signature

unfoldable pub get_contract_request_serialize : ℤ → Text → Option Bytes → Result Bytes
get_contract_request_serialize contract_id requester_iaid signature = do
  id ← encode_ascii (text_of_int contract_id)
  ia ← encode_ascii requester_iaid
  ok (
      codes "contract_id:"
      ++ (id ++ (codes "signature:" ++ (or_empty signature ++ (codes "requester_ia:" ++ ia)))))
