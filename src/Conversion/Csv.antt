-- ===== src/Conversion/Csv.antt =====
-- `csv_to_intlist`, and the expression by which `Offer.purchase` prints such a list.
pub mod RoundTrip
use esdx_scion.Base.{ℕ, List, [], ◌∷◌, map, Result, map_result}
use esdx_scion.Base.Int.{ℤ}
use esdx_scion.Text.{Text, split, join, int_of_text, text_of_int}

unfoldable pub csv_to_intlist : Text → Result (List ℤ)
csv_to_intlist csv = map_result (int_of_text 10) (split b',' csv)

-- `",".join([str(i) for i in l])`
unfoldable pub intlist_to_csv : List ℤ → Text
intlist_to_csv l = join b',' (map text_of_int l)
