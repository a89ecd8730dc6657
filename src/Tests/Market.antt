-- ===== src/Tests/Market.antt =====
-- The theorems on offers at a purchase of the second and third of three periods.
use esdx_scion.Base.{ℕ, ◌≡◌, ◌↔◌, refl, Bool, true, some, List, [], ◌∷◌, length, ok, arith}
use esdx_scion.Base.Int.{ℤ, pos, ◌+ℤ◌, ◌-ℤ◌, ◌≤ℤ◌}
use esdx_scion.Text.{codes, int_of_text, text_of_int, split, strip, join, show_ℕ}
use esdx_scion.Conversion.Csv.{csv_to_intlist, intlist_to_csv}
use esdx_scion.Conversion.Ip.{parse_v4, octets}
use esdx_scion.Conversion.Address.{
  ip_port_range_from_str, ip_and_string_from_str, first_match, ip_from_str, range_of_parts,
}
use esdx_scion.Market.Time.{elapsed, before}
use esdx_scion.Market.Profile.{buy}
use esdx_scion.Market.Profile.Reference.{sum, bw_at}
use esdx_scion.Market.Profile.Chain.{Sold, unsold, sold, taken_at, Sold-never_oversold}
use esdx_scion.Market.Offer.{Offer, purchase, purchase_from, pre_save}
use esdx_scion.Market.Offer.Bought.{Bought, purchase_iff}
use esdx_scion.Market.Offer.Valid.{IsValid, pre_save_iff}
use esdx_scion.Market.Offer.Renewal.{purchase_conserves, pre_save-purchase}
use esdx_scion.Tests.Data.{loopback_only, seconds, three_periods}

purchase_iff_example :
    (purchase three_periods (codes "1,2") (seconds 1200) ≡ ok (some (codes "5,3,0")))
    ↔ Bought three_periods (codes "1,2") (seconds 1200) (codes "5,3,0")
purchase_iff_example = purchase_iff three_periods (codes "1,2") (seconds 1200) (codes "5,3,0")

bought : purchase three_periods (codes "1,2") (seconds 1200) ≡ ok (some (codes "5,3,0"))
unfolding purchase purchase_from elapsed csv_to_intlist intlist_to_csv int_of_text text_of_int buy
    ◌+ℤ◌ ◌-ℤ◌ split strip join show_ℕ
bought = refl

two_sales :
    Sold (pos 5 ∷ pos 4 ∷ []) ((1, pos 3 ∷ []) ∷ (0, pos 2 ∷ pos 1 ∷ []) ∷ []) (pos 3 ∷ pos 0 ∷ [])
unfolding buy ◌+ℤ◌ ◌-ℤ◌
two_sales = sold 1 (pos 3 ∷ []) (sold 0 (pos 2 ∷ pos 1 ∷ []) unsold refl) refl

Sold-never_oversold_example :
    (bw_at (pos 3 ∷ pos 0 ∷ []) 1 +ℤ taken_at ((1, pos 3 ∷ []) ∷ (0, pos 2 ∷ pos 1 ∷ []) ∷ []) 1
      ≡ bw_at (pos 5 ∷ pos 4 ∷ []) 1)
    × (pos 0 ≤ℤ taken_at ((1, pos 3 ∷ []) ∷ (0, pos 2 ∷ pos 1 ∷ []) ∷ []) 1)
    × (pos 0 ≤ℤ bw_at (pos 3 ∷ pos 0 ∷ []) 1)
    × (taken_at ((1, pos 3 ∷ []) ∷ (0, pos 2 ∷ pos 1 ∷ []) ∷ []) 1 ≤ℤ bw_at (pos 5 ∷ pos 4 ∷ []) 1)
Sold-never_oversold_example =
    Sold-never_oversold (pos 5 ∷ pos 4 ∷ []) (pos 3 ∷ pos 0 ∷ [])
      ((1, pos 3 ∷ []) ∷ (0, pos 2 ∷ pos 1 ∷ []) ∷ []) 1 two_sales (omega arith)

purchase_conserves_example :
    (that : List ℤ) × (orig : List ℤ) × (new : List ℤ) × (csv_to_intlist (codes "1,2") ≡ ok that)
    × (csv_to_intlist (codes "5,4,2") ≡ ok orig)
    × (csv_to_intlist (codes "5,3,0") ≡ ok new)
    × (length new ≡ length orig)
    × (sum new +ℤ sum that ≡ sum orig)
purchase_conserves_example =
    purchase_conserves three_periods (codes "1,2") (seconds 1200) (codes "5,3,0") bought

abbrev accepts_all : Offer ℕ → Bool
accepts_all o = true

storable : pre_save loopback_only accepts_all three_periods ≡ ok tt
unfolding pre_save before elapsed csv_to_intlist int_of_text split strip ◌-ℤ◌ ip_port_range_from_str
    ip_and_string_from_str first_match ip_from_str parse_v4 octets range_of_parts
storable = refl

pre_save_iff_example :
    (pre_save loopback_only accepts_all three_periods ≡ ok tt)
    ↔ IsValid loopback_only accepts_all three_periods
pre_save_iff_example = pre_save_iff loopback_only accepts_all three_periods

pre_save-purchase_example :
    pre_save loopback_only accepts_all (record three_periods { bw_profile = codes "5,3,0" }) ≡ ok tt
pre_save-purchase_example =
    pre_save-purchase loopback_only accepts_all three_periods (codes "1,2") (seconds 1200)
      (codes "5,3,0") storable bought refl
