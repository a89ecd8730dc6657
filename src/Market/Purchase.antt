-- ===== src/Market/Purchase.antt =====
-- `purchase_offer` of purchases.py, over the storage.
pub mod Done
pub mod Makes
use esdx_scion.Base.{
  ℕ, ◌≡◌, Bool, true, false, Option, none, some, [], Result, ok, err, runtime_error, does_not_exist,
  or_raise,
}
use esdx_scion.Text.{Text, Bytes}
use esdx_scion.Conversion.Ip.{Ipv6}
use esdx_scion.Serialize.{Floats}
use esdx_scion.Crypto.{Cryptography}
use esdx_scion.Transaction.{Tx, ◌>>=◌, ◌>>◌, pure, lift, query, write, atomic}
use esdx_scion.Market.Time.{DateTime}
use esdx_scion.Market.Offer.{Offer, clone, purchase, pre_save}
use esdx_scion.Market.Order.{
  As, PurchaseOrder, Contract, sign_with_broker, order_validate_signature, stamp_signature,
  contract_validate_signature,
}
use esdx_scion.Market.BrAddress.{find_available_br_address}
use esdx_scion.Market.Storage.{Storage}

-- what a call finds around it: the time, the salts, the broker's key and certificate, and how the
-- libraries fare with the reply
pub record Around (crypto : Cryptography) : Type 0 where
  pub now : DateTime
  pub contract_salt : ℕ
  pub offer_salt : ℕ
  pub broker_key : Result crypto.Key
  pub broker_cert : Result crypto.Certificate
  -- whether the libraries raise when they make the message of a contract
  pub rendering : Result (Unit {0})

-- the arguments of `purchase_offer` that come from the buyer
pub record Purchase : Type 0 where
  pub buyer_iaid : Text
  pub buyer_starting_on : DateTime
  pub buyer_bw_profile : Text
  pub buyer_signature : Bytes

module _ {F : Type 0} where
  -- the new offer, before it is signed
  abbrev pub remaining : Offer F → Text → Offer F
  remaining available_offer new_profile = record (clone available_offer) {
    id = none;
    deprecates = available_offer.id;
    bw_profile = new_profile;
  }

  abbrev pub ordered : Offer F → Purchase → As → PurchaseOrder
  ordered available_offer p buyer = record {
    offer_id = available_offer.id;
    buyer = buyer;
    signature = p.buyer_signature;
    bw_profile = p.buyer_bw_profile;
    starting_on = p.buyer_starting_on;
  }

module _ (floats : Floats) (crypto : Cryptography) (ipv6 : Ipv6) (S : Storage floats.Float) where
  open floats use {Float}

  -- the validators of the fields, which also look at the database
  abbrev pub Clean : Type 0
  Clean = S.Db → Offer Float → Bool

  -- `Offer.save` of a new row, with the signal before it
  unfoldable pub save_offer : Clean → Offer Float → Tx S.Db ℕ
  save_offer full_clean o = do
    query (λ db. pre_save ipv6 (full_clean db) o)
    write (S.insert_offer o)

  -- `offer.deprecates.purchase_order.contract.br_address`, if that offer is there and sold
  unfoldable pub used_address : Offer Float → S.Db → Result (Option Text)
  used_address offer db = elim offer.deprecates [
    | none ↦ ok none
    | some sold ↦ elim (S.order_of db sold) [
      | none ↦ ok none
      | some po ↦ elim (S.contract_of db sold) [
        | none ↦ err does_not_exist
        | some contract ↦ ok (some contract.br_address)
      ]
    ]
  ]

  -- the contract of an order, stamped and saved, with its key
  unfoldable pub make_contract :
      Around crypto → Offer Float → Offer Float → PurchaseOrder → Tx S.Db (ℕ × Contract)
  make_contract around requested_offer available_offer purchase_order = do
    used ← query (used_address available_offer)
    br_address ← lift (find_available_br_address ipv6 available_offer used)
    key ← lift around.broker_key
    contract ← lift (
        stamp_signature floats crypto around.now key around.contract_salt
          (record {
            purchase_order = purchase_order;
            timestamp = around.now;
            br_address = br_address;
            signature_broker = [];
          })
          requested_offer)
    id ← write (S.insert_contract contract)
    cert ← lift around.broker_cert
    lift (contract_validate_signature floats crypto cert contract requested_offer)
    pure (id, contract)

  -- the body of the `with` statement
  unfoldable pub purchase_body :
      Clean
      → Around crypto
      → Offer Float
      → Offer Float
      → Purchase
      → Tx S.Db ((ℕ × Contract) × Offer Float)
  purchase_body full_clean around requested_offer available_offer p = do
    buyer ← query (λ db. S.get_as db p.buyer_iaid)
    bought ← lift (purchase available_offer p.buyer_bw_profile p.buyer_starting_on)
    new_profile ← lift (or_raise bought runtime_error)
    _ ← write (S.insert_order (ordered available_offer p buyer))
    lift (order_validate_signature floats crypto (ordered available_offer p buyer) requested_offer)
    contract ←
        make_contract around requested_offer available_offer (ordered available_offer p buyer)
    key ← lift around.broker_key
    new_offer ← lift (
        sign_with_broker floats crypto key around.offer_salt
          (remaining available_offer new_profile))
    id ← save_offer full_clean new_offer
    pure (contract, record new_offer { id = some id })

  unfoldable pub purchase_offer :
      Clean
      → Around crypto
      → Offer Float
      → Offer Float
      → Purchase
      → Tx S.Db ((ℕ × Contract) × Offer Float)
  purchase_offer full_clean around requested_offer available_offer p =
      atomic (purchase_body full_clean around requested_offer available_offer p)
