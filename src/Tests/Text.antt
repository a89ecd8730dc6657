-- ===== src/Tests/Text.antt =====
-- The theorems on the conversions and on the signed bytes.
use esdx_scion.Base.{
  ◌*◌, ◌+◌, ◌^◌, ◌<◌, ◌≡◌, refl, none, [], ◌∷◌, ◌++◌, ok, err, value_error, arith, ltb,
  if◌then◌else◌,
}
use esdx_scion.Base.Int.{pos, negsuc}
use esdx_scion.Text.{codes, int_of_text, text_of_int, split, strip, join, show_ℕ, encode_ascii}
use esdx_scion.Conversion.Csv.{csv_to_intlist, intlist_to_csv}
use esdx_scion.Conversion.Csv.RoundTrip.{csv_to_intlist-intlist_to_csv}
use esdx_scion.Conversion.Ia.{ia_str_to_int, ia_of_parts, as_of_parts, as_loop}
use esdx_scion.Conversion.Ia.Canonical.{decimal, groups, ia_str_to_int-groups}
use esdx_scion.Conversion.Ia.Range.{Reads, ia_str_to_int-Reads}
use esdx_scion.Conversion.Ip.{v4, v6, parse_v4, octets}
use esdx_scion.Conversion.Address.{
  ip_port_from_str, ip_port_to_str, ip_port_range_from_str, ip_and_string_from_str, first_match,
  ip_from_str, range_of_parts,
}
use esdx_scion.Conversion.Address.RoundTrip.{ip_port_from_str-ip_port_to_str}
use esdx_scion.Conversion.Address.Range.{IsPortRange, ip_port_range_from_str-IsPortRange}
use esdx_scion.Serialize.{
  purchase_order_fields_serialize_to_bytes, get_contract_request_serialize,
  offer_fields_serialize_to_bytes,
}
use esdx_scion.Serialize.Binding.{get_contract_request_binds, purchase_order_binds}
use esdx_scion.Serialize.Ambiguity.{reachable_paths_ambiguous}
use esdx_scion.Market.Offer.{fields_of}
use esdx_scion.Tests.Data.{loopback_only, digit_floats, three_periods}

csv_to_intlist-intlist_to_csv_example :
    csv_to_intlist (intlist_to_csv (pos 12 ∷ negsuc 2 ∷ [])) ≡ ok (pos 12 ∷ negsuc 2 ∷ [])
csv_to_intlist-intlist_to_csv_example = csv_to_intlist-intlist_to_csv (pos 12 ∷ negsuc 2 ∷ []) (cc)

ia_read : ia_str_to_int (codes "1-ff00:0:111") ≡ ok 0x1ff0000000111
unfolding ia_str_to_int ia_of_parts as_of_parts as_loop int_of_text split strip
ia_read = refl

ia_str_to_int-Reads_example :
    Reads (split b'-' (codes "1-ff00:0:111")) 0x1ff0000000111 × (0x1ff0000000111 < 2 ^ 64)
ia_str_to_int-Reads_example = ia_str_to_int-Reads (codes "1-ff00:0:111") 0x1ff0000000111 ia_read

ia_str_to_int-groups_example :
    ia_str_to_int (join b'-' (decimal 1 ∷ groups 65280 0 273 ∷ []))
    ≡ ok (1 * 2 ^ 48 + (65280 * 2 ^ 32 + 0 * 2 ^ 16 + 273))
ia_str_to_int-groups_example =
    ia_str_to_int-groups 1 65280 0 273 (omega arith) (omega arith) (omega arith) (omega arith)

ip_port_from_str-ip_port_to_str_example :
    ip_port_from_str loopback_only (ip_port_to_str loopback_only (v4 10 1 1 1) (pos 50000))
    ≡ (if ltb 65534 50000 then err value_error else ok (v4 10 1 1 1, 50000))
ip_port_from_str-ip_port_to_str_example =
    ip_port_from_str-ip_port_to_str loopback_only (v4 10 1 1 1) 50000
      (omega arith, (omega arith, (omega arith, (omega arith, tt))))

template_read :
    ip_port_range_from_str loopback_only (codes "[::1]:50010-50000")
    ≡ ok (v6 tt, pos 50000, pos 50010)
unfolding ip_port_range_from_str ip_and_string_from_str first_match ip_from_str parse_v4 octets
    range_of_parts int_of_text split strip
template_read = refl

ip_port_range_from_str-IsPortRange_example : IsPortRange (pos 50000) (pos 50010)
ip_port_range_from_str-IsPortRange_example =
    ip_port_range_from_str-IsPortRange loopback_only (codes "[::1]:50010-50000") template_read

request_signed :
    get_contract_request_serialize (pos 7) (codes "1-2") none
    ≡ ok (codes "contract_id:7signature:requester_ia:1-2")
unfolding get_contract_request_serialize encode_ascii text_of_int show_ℕ
request_signed = refl

get_contract_request_binds_example : (pos 7 ≡ pos 7) × (codes "1-2" ≡ codes "1-2")
get_contract_request_binds_example =
    get_contract_request_binds (pos 7) (pos 7) (codes "1-2") (codes "1-2")
      (codes "contract_id:7signature:requester_ia:1-2") request_signed request_signed

order_signed :
    purchase_order_fields_serialize_to_bytes (codes "offer") (codes "1-2") (codes "2,1") (pos 600)
    ≡ ok (codes "offer:offerbw_profile:2,1buyer:1-2starting_on:600")
unfolding purchase_order_fields_serialize_to_bytes encode_ascii text_of_int show_ℕ
order_signed = refl

purchase_order_binds_example :
    (codes "1-2" ≡ codes "1-2") × (codes "2,1" ≡ codes "2,1") × (pos 600 ≡ pos 600)
purchase_order_binds_example =
    purchase_order_binds (codes "offer") (codes "1-2") (codes "1-2") (codes "2,1") (codes "2,1")
      (pos 600) (pos 600) (codes "offer:offerbw_profile:2,1buyer:1-2starting_on:600")
      (omega arith, (omega arith, (omega arith, tt)))
      (omega arith, (omega arith, (omega arith, tt))) order_signed order_signed

reachable_paths_ambiguous_example :
    offer_fields_serialize_to_bytes digit_floats
      (record (fields_of three_periods) { qos_class = pos (1 * 10 + 2) })
      []
    ≡ offer_fields_serialize_to_bytes digit_floats
        (record (fields_of three_periods) {
          reachable_paths = codes "*" ++ text_of_int (pos 1);
          qos_class = pos 2;
        })
        []
reachable_paths_ambiguous_example =
    reachable_paths_ambiguous digit_floats (fields_of three_periods) 1 2 [] (omega arith)
      (omega arith)
