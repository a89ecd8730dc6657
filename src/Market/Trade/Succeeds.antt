-- ===== src/Market/Trade/Succeeds.antt =====
-- When `Purchase` returns.
use esdx_scion.Text.{Text}
use esdx_scion.Market.Offer.{Offer}
use esdx_scion.Market.Storage.{Storage}
