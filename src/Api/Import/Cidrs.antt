-- ===== src/Api/Import/Cidrs.antt =====
-- Which CIDR a segment id of a network map (internal/api/export.go) stands for.
use network_enumerator.Common.{
  ◌≡◌, refl, ◌∙◌, Bool, true, ◌&&◌, ◌⊎◌, Option, some, List, [], ◌∷◌, Text, text_eq, any, All,
  if◌then◌else◌, Bool-cases, inl, inr,
}
use network_enumerator.Api.Handler.{Parsers}
use network_enumerator.Api.Export.{ExportSegment}

abbrev pub has_key : Text → ExportSegment → Bool
has_key key seg = text_eq seg.id key

-- If it has the key, it has the CIDR.
abbrev pub Means : Text → Text → ExportSegment → Type 0
Means key cidr seg = text_eq seg.id key ≡ true → seg.cidr ≡ cidr

module _ (go : Parsers) (key : Text) where
  abbrev pub then_cidr : Option Text → ExportSegment → Option Text
  then_cidr o seg = if text_eq seg.id key && go.is_cidr seg.cidr then some seg.cidr else o

  -- The CIDR of the last entry that has the key and an accepted CIDR, if any.
  unfoldable pub last_cidr : Option Text → List ExportSegment → Option Text
  last_cidr o [] = o
  last_cidr o (seg ∷ segs) = last_cidr (then_cidr o seg) segs

  -- If all entries with the key have one CIDR, it is that one.
  pub last_cidr_lem :
      (cidr : Text) (segs : List ExportSegment) (o : Option Text)
      → go.is_cidr cidr ≡ true
      → All (Means key cidr) segs
      → (o ≡ some cidr) ⊎ (any (has_key key) segs ≡ true)
      → last_cidr o segs ≡ some cidr
  unfolding last_cidr
  last_cidr_lem cidr [] o accepted means (inl e) = e
  last_cidr_lem cidr [] o accepted means (inr h) = cc
  last_cidr_lem cidr (seg ∷ segs) o accepted (m, means) h = elim (Bool-cases (text_eq seg.id key)) [
    | inl same ↦
        let fits : then_cidr o seg ≡ some cidr = rw (same, m same, accepted) refl in
        last_cidr_lem cidr segs (then_cidr o seg) accepted means (inl fits)
    | inr other ↦
        let kept : then_cidr o seg ≡ o = rw other refl in
        last_cidr_lem cidr segs (then_cidr o seg) accepted means
          (elim h [ inl e ↦ inl (kept ∙ e) | inr later ↦ inr (rw other at later) ])
  ]
