-- ===== src/Discovery/Dnsrecon/Names.antt =====
-- What the reading of dnsrecon's output finds (internal/discovery/dnsrecon.go).
use network_enumerator.Common.{
  ◌≡◌, refl, ap, sym, subst, ◌∙◌, Bool, true, false, ◌&&◌, some, List, [], ◌∷◌, ◌++◌, Text, text,
  text_eq, text_eq_iff, any, arith, ◌||◌, not, is_empty, Option, if◌then◌else◌, Bool-cases, inl,
  inr,
}
use network_enumerator.Common.Dict.{get, put, get-put}
use network_enumerator.Discovery.Dnsrecon.{
  Json, Items, array, object, scalar, no_items, item, string_field, or_empty, names_for, Found,
  enter, maps_address, collect_entries, collect_items, parse_dnsrecon_json,
}

-- The names without repeats, each at its first place, after those that are known.
abbrev pub without_repeats : List Text → List Text → List Text
without_repeats known [] = known
without_repeats known (name ∷ names) =
    without_repeats (if any (text_eq name) known then known else known ++ (name ∷ [])) names

-- A record of type A or PTR that has a name, and an address that is one.
abbrev pub gives_name : (Text → Bool) → List (Text × Option Text) → Bool
gives_name is_ip v =
    is_ip (string_field (text "address") v)
    && (any (text_eq (string_field (text "type") v)) (text "A" ∷ text "PTR" ∷ [])
        && not (
            any (λ s. is_empty s)
              (string_field (text "name") v ∷ string_field (text "address") v ∷ [])))

tests_eq :
    (a n i p q : Bool)
    → ((q || p) && (not a && (not n && i)))
      ≡ (i && ((p || (q || false)) && not (n || (a || false))))
tests_eq a n i p q = ground arith

gives_name_lem :
    (is_ip : Text → Bool) (v : List (Text × Option Text))
    → maps_address is_ip v ≡ gives_name is_ip v
gives_name_lem is_ip v = tests_eq _ _ _ _ _

module _ (is_ip : Text → Bool) (address : Text) where
  -- The names that the records of a document give to the address, in its order.
  unfoldable mutual
    pub recorded : Json → List Text
    recorded (array items) = recorded_items items
    recorded (object v) =
        if gives_name is_ip v && text_eq (string_field (text "address") v) address
        then string_field (text "name") v ∷ []
        else []
    recorded scalar = []

    pub recorded_items : Items → List Text
    recorded_items no_items = []
    recorded_items (item node items) = recorded node ++ recorded_items items

  -- The two maps agree, and have the names at the address.
  abbrev Holds : List Text → Found → Type 0
  Holds names f = (f.seen ≡ f.out) × (names_for address f.out ≡ names)

  without_repeats-append :
      (known xs ys : List Text)
      → without_repeats known (xs ++ ys) ≡ without_repeats (without_repeats known xs) ys
  without_repeats-append known [] ys = refl
  without_repeats-append known (x ∷ xs) ys =
      without_repeats-append (if any (text_eq x) known then known else known ++ (x ∷ [])) xs ys

  names_for-put :
      (at : Text) (names : List Text) (m : List (Text × List Text))
      → names_for address (put at names m)
        ≡ (if text_eq at address then names else names_for address m)
  names_for-put at names m = ap or_empty (get-put address at names m) ∙ split (text_eq at address)
    where
      split :
          (b : Bool)
          → or_empty (if b then some names else get address m)
            ≡ (if b then names else names_for address m)
      split true = refl
      split false = refl

  -- Both maps after a name is put at the end of the names of an address.
  put_both :
      (at name : Text) (f : Found)
      → f.seen ≡ f.out
      → put at (names_for at f.seen ++ (name ∷ [])) f.seen
        ≡ put at (names_for at f.out ++ (name ∷ [])) f.out
  put_both at name f same = ap (λ m. put at (names_for at m ++ (name ∷ [])) m) same

  enter_here :
      (at name : Text) (known : List Text) (f : Found)
      → text_eq at address ≡ true
      → Holds known f
      → Holds (without_repeats known (name ∷ [])) (enter at name f)
  unfolding enter
  enter_here at name known f e (same, names) =
      let there : names_for at f.out ≡ known =
        ap (λ a. names_for a f.out) ((text_eq_iff at address).0 e) ∙ names in
      let test : any (text_eq name) (names_for at f.seen) ≡ any (text_eq name) known =
        ap (λ m. any (text_eq name) (names_for at m)) same ∙ ap (any (text_eq name)) there in
      elim (Bool-cases (any (text_eq name) known)) [
        | inl d ↦ rw (test, d) (same, names)
        | inr d ↦
            rw (test, d)
              (
                put_both at name f same,
                names_for-put at (names_for at f.out ++ (name ∷ [])) f.out
                    ∙ (rw e refl ∙ ap (λ xs. xs ++ (name ∷ [])) there),
              )
      ]

  enter_elsewhere :
      (at name : Text) (known : List Text) (f : Found)
      → text_eq at address ≡ false
      → Holds known f
      → Holds known (enter at name f)
  unfolding enter
  enter_elsewhere at name known f e (same, names) =
      elim (Bool-cases (any (text_eq name) (names_for at f.seen))) [
        | inl d ↦ rw d (same, names)
        | inr d ↦ rw d (
          put_both at name f same,
          names_for-put at (names_for at f.out ++ (name ∷ [])) f.out ∙ (rw e refl ∙ names),
        )
      ]

  object-Holds :
      (at name : Text) (accepted : Bool) (known : List Text) (f : Found)
      → Holds known f
      → Holds
          (without_repeats known (if accepted && text_eq at address then name ∷ [] else []))
          (if accepted then enter at name f else f)
  object-Holds at name false known f h = h
  object-Holds at name true known f h = elim (Bool-cases (text_eq at address)) [
    | inl e ↦ rw e (enter_here at name known f e h)
    | inr e ↦ rw e (enter_elsewhere at name known f e h)
  ]

  mutual
    unfolding collect_entries recorded

    collect-Holds :
        (node : Json) (known : List Text) (f : Found)
        → Holds known f
        → Holds (without_repeats known (recorded node)) (collect_entries is_ip node f)
    collect-Holds (array items) known f h = collect_items-Holds items known f h
    collect-Holds (object v) known f h =
        let at = string_field (text "address") v in
        let name = string_field (text "name") v in
        subst
          (λ b.
            Holds (without_repeats known (if b && text_eq at address then name ∷ [] else []))
              (if maps_address is_ip v then enter at name f else f))
          (gives_name_lem is_ip v) (object-Holds at name (maps_address is_ip v) known f h)
    collect-Holds scalar known f h = h

    collect_items-Holds :
        (items : Items) (known : List Text) (f : Found)
        → Holds known f
        → Holds (without_repeats known (recorded_items items)) (collect_items is_ip items f)
    collect_items-Holds no_items known f h = h
    collect_items-Holds (item node items) known f h =
        subst (λ names. Holds names (collect_items is_ip items (collect_entries is_ip node f)))
          (sym (without_repeats-append known (recorded node) (recorded_items items)))
          (collect_items-Holds items (without_repeats known (recorded node))
            (collect_entries is_ip node f) (collect-Holds node known f h))

-- The reading of dnsrecon's output finds for an address the names of the PTR and A records that give it
-- one, without repeats, in the order in which they first stand in the document, however the document
-- nests its records.
pub parse_dnsrecon_json_lem :
    (is_ip : Text → Bool) (raw : Json) (address : Text)
    → names_for address (parse_dnsrecon_json is_ip raw)
      ≡ without_repeats [] (recorded is_ip address raw)
unfolding parse_dnsrecon_json
parse_dnsrecon_json_lem is_ip raw address =
    (collect-Holds is_ip address raw [] (record { out = []; seen = [] }) (refl, refl)).1
