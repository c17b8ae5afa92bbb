-- ===== src/Examples/Output.antt =====
-- The theorem on dnsrecon's output, at a document that nests its records.
use network_enumerator.Common.{◌≡◌, true, none, some, [], ◌∷◌, Text, text}
use network_enumerator.Discovery.Dnsrecon.{
  Json, array, object, scalar, no_items, item, names_for, parse_dnsrecon_json,
}
use network_enumerator.Discovery.Dnsrecon.Names.{without_repeats, recorded, parse_dnsrecon_json_lem}

abbrev ptr : Text → Json
ptr name = object (
    (text "type", some (text "PTR"))
    ∷ (text "address", some (text "10.0.0.1"))
    ∷ (text "name", some name)
    ∷ [])

-- The header, two records that say the same, and one in an array of its own.
abbrev scan : Json
scan = array (
    item (object ((text "date", some (text "today")) ∷ (text "type", none) ∷ [])) (
      item (ptr (text "gw.lan")) (
        item (ptr (text "gw.lan"))
          (item (array (item (ptr (text "router.lan")) no_items)) (item scalar no_items)))))

parse_dnsrecon_json_lem_example :
    names_for (text "10.0.0.1") (parse_dnsrecon_json (λ s. true) scan)
    ≡ without_repeats [] (recorded (λ s. true) (text "10.0.0.1") scan)
parse_dnsrecon_json_lem_example = parse_dnsrecon_json_lem (λ s. true) scan (text "10.0.0.1")
