-- ===== src/Discovery/Dnsrecon.antt =====
-- internal/discovery/dnsrecon.go: the reading of dnsrecon's output, after `json.Unmarshal`. An object is
-- a map whose values are strings or anything else (`none`): the source looks at strings only.
pub mod Names
use network_enumerator.Common.{
  Bool, ◌&&◌, ◌||◌, not, Option, none, some, List, [], ◌∷◌, ◌++◌, Text, text, text_eq, is_empty,
  any, if◌then◌else◌,
}
use network_enumerator.Common.Dict.{get, put}

mutual
  pub data Json : Type 0 where
    array : Items → Json
    object : List (Text × Option Text) → Json
    scalar : Json

  pub data Items : Type 0 where
    no_items : Items
    item : Json → Items → Items

-- `s, _ := v[key].(string)`.
abbrev pub as_string : Option (Option Text) → Text
as_string none = []
as_string (some none) = []
as_string (some (some s)) = s

abbrev pub string_field : Text → List (Text × Option Text) → Text
string_field key fields = as_string (get key fields)

-- The names of an address: the zero value of the map is the empty list.
abbrev pub or_empty : Option (List Text) → List Text
or_empty none = []
or_empty (some names) = names

abbrev pub names_for : Text → List (Text × List Text) → List Text
names_for address m = or_empty (get address m)

-- The maps `out` and `seen`; a set of names is a list.
pub record Found : Type 0 where
  pub out : List (Text × List Text)
  pub seen : List (Text × List Text)

unfoldable pub enter : Text → Text → Found → Found
enter address name f = if any (text_eq name) (names_for address f.seen) then f else record {
  out = put address (names_for address f.out ++ (name ∷ [])) f.out;
  seen = put address (names_for address f.seen ++ (name ∷ [])) f.seen;
}

module _ (is_ip : Text → Bool) where
  -- The tests of an object.
  abbrev pub maps_address : List (Text × Option Text) → Bool
  maps_address v =
      (text_eq (string_field (text "type") v) (text "PTR")
        || text_eq (string_field (text "type") v) (text "A"))
      && (not (is_empty (string_field (text "address") v))
          && (not (is_empty (string_field (text "name") v))
              && is_ip (string_field (text "address") v)))

  unfoldable mutual
    unfolding enter

    pub collect_entries : Json → Found → Found
    collect_entries (array items) f = collect_items items f
    collect_entries (object v) f =
        if maps_address v
        then enter (string_field (text "address") v) (string_field (text "name") v) f
        else f
    collect_entries scalar f = f

    pub collect_items : Items → Found → Found
    collect_items no_items f = f
    collect_items (item node items) f = collect_items items (collect_entries node f)

  unfoldable pub parse_dnsrecon_json : Json → List (Text × List Text)
  unfolding collect_entries
  parse_dnsrecon_json raw = (collect_entries raw (record { out = []; seen = [] })).out
