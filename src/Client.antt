-- ===== src/Client.antt =====
-- esdx4ixps/util/experiments.py: the requests that `MarketClient` builds. The files and the gRPC
-- channels are not modelled: a method returns what it sends.
pub mod Accepted
pub mod Simplified
use esdx_scion.Base.{
  ℕ, ◌*◌, Bool, true, false, Option, none, some, List, [], ◌∷◌, length, Result, ok, err, ◌>>=◌,
  ◌>>◌,
}
use esdx_scion.Base.Int.{ℤ, pos, ◌+ℤ◌}
use esdx_scion.Text.{Text, Bytes, codes, split}
use esdx_scion.Serialize.{
  Floats, OfferFields, OfferSpecification, OfferMessage, offer_specification_serialize_to_bytes,
  offer_serialize_to_bytes, purchase_order_fields_serialize_to_bytes,
  get_contract_request_serialize,
}
use esdx_scion.Messages.{PurchaseRequest, GetContractRequest}
use esdx_scion.Crypto.{Cryptography, signature_create, signature_validate}
use esdx_scion.Market.Time.{DateTime, timestamp, bw_period}

-- `MarketClient`, without the address of the service and its own certificate
pub record MarketClient (crypto : Cryptography) : Type 0 where
  pub ia : Text
  pub key : crypto.Key
  pub broker_cert : crypto.Certificate

module _ (floats : Floats) (crypto : Cryptography) where
  open floats use {Float}

  -- `sell_offer`, up to the call of `AddOffer`
  unfoldable pub sell_offer :
      MarketClient crypto → ℕ → OfferSpecification floats → Result (OfferSpecification floats)
  sell_offer self salt offer = do
    content ← offer_specification_serialize_to_bytes floats offer false
    ok (record offer { signature = signature_create crypto self.key salt content })

  -- `create_simplified_offer` at the time `now`, with the float 0.000000001 as an argument
  unfoldable pub create_simplified_offer :
      MarketClient crypto → DateTime → Float → Text → OfferSpecification floats
  create_simplified_offer self now price bw_profile =
      let notbefore = timestamp now in
      record {
        fields = record {
          iaid = self.ia;
          notbefore = notbefore;
          notafter = notbefore +ℤ pos (length (split b',' bw_profile) * bw_period);
          reachable_paths = codes "*";
          qos_class = pos 0;
          price_per_unit = price;
          bw_profile = bw_profile;
          br_address_template = codes "127.0.0.1:50000-55000";
          br_mtu = pos 1500;
          br_link_to = codes "PARENT";
        };
        signature = [];
      }

  -- `buy_offer`, up to the call of `Purchase`
  unfoldable pub buy_offer :
      MarketClient crypto
      → ℕ
      → OfferMessage floats
      → Text
      → DateTime
      → Result (PurchaseRequest floats)
  buy_offer self salt offer bw_profile starting_on = do
    offer_bytes ← offer_serialize_to_bytes floats offer false
    signature_validate crypto self.broker_cert offer.specs.signature offer_bytes
    offer_bytes ← offer_serialize_to_bytes floats offer true
    content ←
        purchase_order_fields_serialize_to_bytes offer_bytes self.ia bw_profile
          (timestamp starting_on)
    ok (record {
      offer = offer;
      buyer_iaid = self.ia;
      bw_profile = bw_profile;
      starting_on = timestamp starting_on;
      signature = signature_create crypto self.key salt content;
    })

module _ (crypto : Cryptography) where
  -- `get_contract`, up to the call of `GetContract`
  unfoldable pub get_contract : MarketClient crypto → ℕ → ℤ → Result GetContractRequest
  get_contract self salt contract_id = do
    content ← get_contract_request_serialize contract_id self.ia none
    ok (record {
      contract_id = contract_id;
      requester_iaid = self.ia;
      requester_signature = signature_create crypto self.key salt content;
    })
