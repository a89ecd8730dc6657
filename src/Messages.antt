-- ===== src/Messages.antt =====
-- The messages of proto/market.proto that are not in the module of the signed bytes; a timestamp is
-- its number of seconds.
use esdx_scion.Base.Int.{ℤ}
use esdx_scion.Text.{Text, Bytes}
use esdx_scion.Serialize.{Floats, OfferMessage, OfferSpecification}

pub record PurchaseRequest (floats : Floats) : Type 0 where
  pub offer : OfferMessage floats
  pub buyer_iaid : Text
  pub bw_profile : Text
  pub starting_on : ℤ
  pub signature : Bytes

-- `Contract`
pub record ContractMessage (floats : Floats) : Type 0 where
  pub contract_id : ℤ
  pub contract_timestamp : ℤ
  pub contract_signature : Bytes
  pub offer : OfferSpecification floats
  pub br_address : Text
  pub buyer_iaid : Text
  pub buyer_starting_on : ℤ
  pub buyer_bw_profile : Text
  pub buyer_signature : Bytes

pub record GetContractRequest : Type 0 where
  pub contract_id : ℤ
  pub requester_iaid : Text
  pub requester_signature : Bytes
