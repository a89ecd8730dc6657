-- ===== src/Market/Trade/Deal.antt =====
-- What `Purchase` has done when it returns.
use esdx_scion.Base.{ℕ, ◌≡◌, subst, Bool, true, some, ok}
use esdx_scion.Base.Int.{pos}
use esdx_scion.Conversion.Ip.{Ipv6}
use esdx_scion.Serialize.{Floats, OfferMessage}
use esdx_scion.Messages.{PurchaseRequest, ContractMessage}
use esdx_scion.Crypto.{Cryptography}
use esdx_scion.Market.Offer.{Offer, purchase}
use esdx_scion.Market.Order.{As, Contract, order_validate_signature}
use esdx_scion.Market.Service.{contract_message}
use esdx_scion.Market.Storage.{Storage, IsLawful}
use esdx_scion.Market.Manager.{IsAvailable, purchase_getter, purchase_getter_inv}
use esdx_scion.Market.Purchase.{Around, ordered}
use esdx_scion.Market.Trade.{Wire, purchase_in, pb_compare_messages, handle_purchase}
use esdx_scion.Market.Trade.Sale.{Purchased-sold, Purchased-found}
use esdx_scion.Market.Trade.Calls.{purchase_with-Bargain}

module _ (floats : Floats) (crypto : Cryptography) (ipv6 : Ipv6) (S : Storage floats.Float)
    (wire : Wire floats) where
  open floats use {Float}

  -- A sale of the offer with a key: it was available and is the one in the request, the order is the
  -- buyer's and signed by it, the offer is sold and deprecated, its contract is stored and sent, and a
  -- new offer has the rest of its bandwidth.
  pub record Deal (request : PurchaseRequest floats) (db : S.Db) (reply : ContractMessage floats)
      (db' : S.Db) : Type 0 where
    pub n : ℕ
    pub asked : request.offer.id ≡ pos n
    pub offer : Offer Float
    pub available : IsAvailable S db n offer
    pub message : OfferMessage floats
    pub printed : wire.offer_message offer ≡ ok message
    pub agreed : pb_compare_messages floats wire request.offer message ≡ true
    pub buyer : As
    pub known : S.get_as db request.buyer_iaid ≡ ok buyer
    pub signed :
        order_validate_signature floats crypto
          (ordered offer (purchase_in floats crypto ipv6 S wire request) buyer)
          offer
        ≡ ok tt
    pub next : ℕ
    pub deprecated : S.deprecated_by db' n ≡ some next
    pub order :
        S.order_of db' n
        ≡ some (ordered offer (purchase_in floats crypto ipv6 S wire request) buyer)
    pub rest : Offer Float
    pub rest_stored : S.by_id db' next ≡ some rest
    pub bought :
        purchase offer request.bw_profile
          (purchase_in floats crypto ipv6 S wire request).buyer_starting_on
        ≡ ok (some rest.bw_profile)
    pub key : ℕ
    pub contract : Contract
    pub contracted :
        contract.purchase_order
        ≡ ordered offer (purchase_in floats crypto ipv6 S wire request) buyer
    pub contract_stored : S.contract_by_id db' key ≡ some contract
    pub replied : reply ≡ contract_message floats (pos key) contract offer

  module _ (laws : IsLawful S) (full_clean : S.Db → Offer Float → Bool) where
    -- When `Purchase` returns, the offer asked for was available and its message is the one in the request,
    -- the signature of the order is valid for the buyer, the profile asked for could be bought, the offer
    -- is deprecated and sold with the order of the request, its contract is stored under the key in the
    -- reply, and the offer that deprecates it has the bandwidth that is left.
    pub handle_purchase-Deal :
        (around : Around crypto) (request : PurchaseRequest floats) (db db' : S.Db)
        (reply : ContractMessage floats)
        → handle_purchase floats crypto ipv6 S wire full_clean around request db ≡ (ok reply, db')
        → Deal request db reply db'
    unfolding handle_purchase
    handle_purchase-Deal around request db db' reply e =
        let (b, replied) =
          purchase_with-Bargain floats crypto ipv6 S wire full_clean around
            (purchase_getter S request.offer.id) request db db' reply e in
        let (n, asked, same, available) =
          purchase_getter_inv S request.offer.id db b.requested b.available b.found in
        let (deprecated, order, _, rest_stored) =
          Purchased-sold floats crypto ipv6 S laws full_clean b.requested b.available
            (purchase_in floats crypto ipv6 S wire request) db db' b.key b.contract b.rest b.done n
            available.0 in
        record {
          n = n;
          asked = asked;
          offer = b.available;
          available = available;
          message = b.message;
          printed = subst (λ (o : Offer Float). wire.offer_message o ≡ ok b.message) same b.printed;
          agreed = b.agreed;
          buyer = b.done.buyer;
          known = b.done.known;
          signed =
              subst
                (λ (o : Offer Float).
                  order_validate_signature floats crypto
                    (ordered b.available (purchase_in floats crypto ipv6 S wire request)
                      b.done.buyer)
                    o
                  ≡ ok tt)
                same b.done.signed;
          next = b.done.rest_key;
          deprecated = deprecated;
          order = order;
          rest = b.rest;
          rest_stored = rest_stored;
          bought = rw b.done.rest_lem b.done.bought;
          key = b.key;
          contract = b.contract;
          contracted = b.done.contracted.order;
          contract_stored =
              Purchased-found floats crypto ipv6 S laws full_clean b.requested b.available
                (purchase_in floats crypto ipv6 S wire request) db db' b.key b.contract b.rest
                b.done;
          replied = replied;
        }
