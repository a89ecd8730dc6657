-- ===== src/Conversion/Csv/RoundTrip.antt =====
-- Printed lists of integers are read back.
use esdx_scion.Base.{
  ℕ, ◌≡◌, ◌≢◌, refl, List, [], ◌∷◌, map, arith, ok, map_result, All, All-map, Lacks, >>=-eq-ok,
}
use esdx_scion.Base.Int.{ℤ, pos, negsuc}
use esdx_scion.Text.{
  Text, split, int_of_text, text_of_int, split-join, IsDigit, show_ℕ-All, int_of_text-text_of_int,
  split-ne-nil,
}
use esdx_scion.Conversion.Csv.{csv_to_intlist, intlist_to_csv}

digit-ne-comma : (c : ℕ) → IsDigit c → c ≢ b','
digit-ne-comma c h = ground arith

text_of_int-Lacks_comma : (i : ℤ) → Lacks b',' (text_of_int i)
unfolding text_of_int
text_of_int-Lacks_comma (pos n) =
    All-map IsDigit (λ c. c ≢ b',') digit-ne-comma _ (show_ℕ-All 10 (omega arith) (omega arith) n)
text_of_int-Lacks_comma (negsuc n) = (
  omega arith,
  All-map IsDigit (λ c. c ≢ b',') digit-ne-comma _ (show_ℕ-All 10 (omega arith) (omega arith) _),
)

map-Lacks_comma : (l : List ℤ) → All (Lacks b',') (map text_of_int l)
map-Lacks_comma [] = tt
map-Lacks_comma (i ∷ l) = (text_of_int-Lacks_comma i, map-Lacks_comma l)

map_result-map : (l : List ℤ) → map_result (int_of_text 10) (map text_of_int l) ≡ ok l
map_result-map [] = refl
map_result-map (i ∷ l) = rw (int_of_text-text_of_int i, map_result-map l)

-- A non-empty list of integers that is printed with commas is read back by `csv_to_intlist`.
pub csv_to_intlist-intlist_to_csv : (l : List ℤ) → l ≢ [] → csv_to_intlist (intlist_to_csv l) ≡ ok l
unfolding csv_to_intlist intlist_to_csv
csv_to_intlist-intlist_to_csv [] ne = absurd (ne refl)
csv_to_intlist-intlist_to_csv (i ∷ l) ne = rw (
  split-join b',' (map text_of_int (i ∷ l)) (cc) (map-Lacks_comma (i ∷ l)),
  map_result-map (i ∷ l),
)

map_result-ne-nil :
    (ps : List Text) (l : List ℤ) → ps ≢ [] → map_result (int_of_text 10) ps ≡ ok l → l ≢ []
map_result-ne-nil [] l ne e = absurd (ne refl)
map_result-ne-nil (p ∷ ps) [] ne e =
    let (i, _, e') = >>=-eq-ok (int_of_text 10 p) _ e in
    let (is, _, e'') = >>=-eq-ok (map_result (int_of_text 10) ps) _ e' in cc
map_result-ne-nil (p ∷ ps) (i ∷ l) ne e = cc

-- What `csv_to_intlist` returns is never empty.
pub csv_to_intlist-ne-nil : (csv : Text) (l : List ℤ) → csv_to_intlist csv ≡ ok l → l ≢ []
unfolding csv_to_intlist
csv_to_intlist-ne-nil csv l e = map_result-ne-nil (split b',' csv) l (split-ne-nil b',' csv) e
