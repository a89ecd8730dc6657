-- ===== src/Tests/Succeeds.antt =====
-- `Purchase` returns, at the offer and the request of the sale in memory.
use esdx_scion.Text.{Bytes}
use esdx_scion.Base.{ℕ, Bool, false, []}
use esdx_scion.Text.{codes}
use esdx_scion.Market.Offer.{Offer, serialize_to_bytes}
use esdx_scion.Market.Storage.Memory.{Tables, memory, free_parent}
use esdx_scion.Market.Purchase.{ordered}
use esdx_scion.Market.Trade.{purchase_in}
use esdx_scion.Market.Order.{contract_serialize_to_bytes}
use esdx_scion.Tests.Data.{loopback_only, digit_floats, plain_crypto, buyer, seconds}
use esdx_scion.Tests.Order.{value}
use esdx_scion.Tests.Sale.{plain_wire, request, stored}
use esdx_scion.Market.Purchase.{remaining, ordered}
use esdx_scion.Market.Order.{PurchaseOrder, Contract}

abbrev order : PurchaseOrder
order =
    ordered stored
      (purchase_in digit_floats plain_crypto loopback_only (memory ℕ) plain_wire request) buyer

abbrev unsigned : Contract
unsigned = record {
  purchase_order = order;
  timestamp = seconds 700;
  br_address = codes "10.1.1.1:50000";
  signature_broker = [];
}

abbrev content : Bytes
content = value (contract_serialize_to_bytes digit_floats plain_crypto unsigned stored)

abbrev rest_content : Bytes
rest_content = value (serialize_to_bytes digit_floats (remaining stored (codes "5,3,0")) false)

-- a validator that looks up the foreign key and the uniqueness of its use, as Django's does
abbrev parent_clean : Tables ℕ → Offer ℕ → Bool
parent_clean t o = free_parent o.deprecates t
