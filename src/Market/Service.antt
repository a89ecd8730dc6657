-- ===== src/Market/Service.antt =====
-- `MarketService.GetContract` of services.py, with the message of serializers.py. What the queries find
-- in the database is an argument.
pub mod Authorized
use esdx_scion.Base.{
  ◌≡◌, refl, sym, ap, ◌∙◌, ◌⊎◌, inl, inr, Bool, true, false, not, ◌&&◌, Result, ok, err, Exn,
  service_error, raise_if, ◌>>=◌, ◌>>◌, bind_inv, guard_inv, ok-injective, Bool-cases,
}
use esdx_scion.Base.Int.{ℤ}
use esdx_scion.Text.{Text, text_eq, text_eq→eq, text_eq_refl}
use esdx_scion.Serialize.{Floats}
use esdx_scion.Messages.{ContractMessage, GetContractRequest}
use esdx_scion.Crypto.{Cryptography, load_certificate}
use esdx_scion.Market.Time.{timestamp}
use esdx_scion.Market.Offer.{Offer, fields_of}
use esdx_scion.Market.Order.{As, Contract, check_requester, check_party}
use esdx_scion.Client.{MarketClient, get_contract}
use esdx_scion.Client.Accepted.{check_requester-get_contract}

module _ (floats : Floats) where
  open floats use {Float}

  -- The queries: an AS by its identifier, and a contract by its key with the offer of its order.
  pub record Queries : Type 0 where
    pub get_as : Text → Result As
    pub contract_by_id : ℤ → Result (Contract × Offer Float)

  -- `ContractProtoSerializer.data_to_message`: the message, where it can be made
  unfoldable pub contract_message : ℤ → Contract → Offer Float → ContractMessage floats
  contract_message id c o = record {
    contract_id = id;
    contract_timestamp = timestamp c.timestamp;
    contract_signature = c.signature_broker;
    offer = record { fields = fields_of o; signature = o.signature };
    br_address = c.br_address;
    buyer_iaid = c.purchase_order.buyer.iaid;
    buyer_starting_on = timestamp c.purchase_order.starting_on;
    buyer_bw_profile = c.purchase_order.bw_profile;
    buyer_signature = c.purchase_order.signature;
  }

-- `except Exception as ex: raise MarketServiceError(str(ex)) from ex`
abbrev pub or_service_error {ℓ} : {A : Type ℓ} → Result A → Result A
or_service_error (ok a) = ok a
or_service_error (err e) = err service_error

module _ (floats : Floats) (crypto : Cryptography) where
  open floats use {Float}
  open crypto use {Certificate, Certifies}

  -- the body of the `try`, with what the libraries do when they make the message
  unfoldable pub find_contract :
      Result (Unit {0}) → Queries floats → GetContractRequest → Result (ContractMessage floats)
  find_contract rendering db request = do
    requester ← db.get_as request.requester_iaid
    check_requester crypto requester request
    (contract, offer) ← db.contract_by_id request.contract_id
    check_party request.requester_iaid contract.purchase_order.buyer.iaid offer.iaid
    rendering
    ok (contract_message floats request.contract_id contract offer)

  unfoldable pub handle_get_contract :
      Result (Unit {0}) → Queries floats → GetContractRequest → Result (ContractMessage floats)
  handle_get_contract rendering db request = or_service_error (find_contract rendering db request)
