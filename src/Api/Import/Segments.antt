-- ===== src/Api/Import/Segments.antt =====
-- On a healthy database `importSegments` of internal/api/export.go succeeds, and leaves the subnets of
-- the document in the tables.
use network_enumerator.Common.{
  ℕ, Option, ◌≡◌, refl, sym, subst, ◌∙◌, true, false, some, List, [], ◌∷◌, Text, text_eq, any,
  if◌then◌else◌, arith, Bool-cases, inl, inr,
}
use network_enumerator.Common.Dict.{get, put, get-put}
use network_enumerator.Store.Table.{has_id, is_id}
use network_enumerator.Store.Schema.{Tables, SubnetRow, subnet_row, host_row}
use network_enumerator.Store.Sql.{M}
use network_enumerator.Store.Sql.Total.{Total, Total-pure, Total-if, Total->>=}
use network_enumerator.Api.Handler.{Parsers}
use network_enumerator.Api.Export.{ExportSegment}
use network_enumerator.Api.Import.Loops.{Ids, segment_upserted, import_segment, import_segments}
use network_enumerator.Api.Import.Cidrs.{then_cidr, last_cidr}
use network_enumerator.Api.Import.Upserts.{
  has_cidr, HasCidr, Extends, Upserted, upsert_auto_subnet-Total,
}

-- Every id of the map is that of a subnet.
abbrev pub Sound : Ids → Tables → Type 0
Sound ids t = (j : Text) (k : ℕ) → get j ids ≡ some k → has_id k t.subnets.rows ≡ true

-- The map leads from the key to a subnet with the CIDR.
abbrev pub Leads : Text → Text → Ids → Tables → Type 0
Leads key cidr ids t = (k : ℕ) × (get key ids ≡ some k) × HasCidr k cidr t

has_id_of_cidr :
    (k : ℕ) (cidr : Text) (rows : List SubnetRow)
    → any (has_cidr k cidr) rows ≡ true
    → has_id k rows ≡ true
has_id_of_cidr k cidr [] h = cc
has_id_of_cidr k cidr (r ∷ rows) h = ground (arith, has_id_of_cidr k cidr rows)

-- From any tables that one starts with.
pub Total-each :
    {A : Type 0} (P : Tables → Type 0) (Q : A → Tables → Type 0) (m : M A)
    → ((t0 : Tables) → P t0 → Total (λ t. t ≡ t0) m Q)
    → Total P m Q
unfolding Total
Total-each P Q m each d h p = each d.tables p d h refl

module _ (go : Parsers) (now : ℕ) (key : Text) where
  -- The map leads from the key to a subnet with the CIDR, if there is one.
  abbrev pub Mapped : Option Text → Ids → Tables → Type 0
  Mapped o ids t = Sound ids t × ((c : Text) → o ≡ some c → Leads key c ids t)

  Sound-put :
      (ids : Ids) (name : Text) (id : ℕ) (c : Text) (t0 t : Tables)
      → Extends t0 t
      → HasCidr id c t
      → Sound ids t0
      → Sound (put name id ids) t
  Sound-put ids name id c t0 t extends has sound j k e = elim (Bool-cases (text_eq name j)) [
    | inl same ↦
        let here : some id ≡ some k = rw same at (sym_get ∙ e) in
        subst (λ x. has_id x t.subnets.rows ≡ true) (cc here)
          (has_id_of_cidr id c t.subnets.rows has)
    | inr other ↦ extends (is_id k) (λ r n h. h) (sound j k (rw other at (sym_get ∙ e)))
  ]
    where
      sym_get : (if text_eq name j then some id else get j ids) ≡ get j (put name id ids)
      sym_get = sym (get-put j name id ids)

  Leads-put :
      (ids : Ids) (seg : ExportSegment) (id : ℕ) (o : Option Text) (t0 t : Tables)
      → go.is_cidr seg.cidr ≡ true
      → Extends t0 t
      → HasCidr id seg.cidr t
      → ((c : Text) → o ≡ some c → Leads key c ids t0)
      → (c : Text) → then_cidr go key o seg ≡ some c
      → Leads key c (put seg.id id ids) t
  Leads-put ids seg id o t0 t accepted extends has before c e =
      elim (Bool-cases (text_eq seg.id key)) [
        | inl same ↦
            let its : some seg.cidr ≡ some c = rw (same, accepted) at e in
            (id, get-put key seg.id id ids ∙ rw same refl, subst (λ x. HasCidr id x t) (cc its) has)
        | inr other ↦
            let (k, at, there) = before c (rw other at e) in
            (k, get-put key seg.id id ids ∙ rw other at, extends (has_cidr k c) (λ r n h. h) there)
      ]

  segment-Total :
      (seg : ExportSegment) (ids : Ids) (o : Option Text)
      → Total (Mapped o ids) (import_segment go now seg ids) (Mapped (then_cidr go key o seg))
  unfolding import_segment segment_upserted
  segment-Total seg ids o = Total-each (Mapped o ids) after_it _ λ t0 (sound, leads).
      Total-if (λ t. t ≡ t0) after_it (go.is_cidr seg.cidr) _ _
        (λ accepted.
          Total->>= (λ t. t ≡ t0) (Upserted seg.cidr seg.name [] now t0) after_it _ _
            (upsert_auto_subnet-Total seg.cidr seg.name [] now t0)
            (λ (id, is_new). Total-pure _ after_it (put seg.id id ids) λ t (extends, has). (
              Sound-put ids seg.id id seg.cidr t0 t extends has sound,
              Leads-put ids seg id o t0 t accepted extends has leads,
            )))
        λ refused.
          Total-pure _ after_it ids
            λ t same. rw same (sound, λ c e. leads c (sym (passed_over refused) ∙ e))
    where
      after_it : Ids → Tables → Type 0
      after_it = Mapped (then_cidr go key o seg)

      passed_over : go.is_cidr seg.cidr ≡ false → then_cidr go key o seg ≡ o
      passed_over refused = elim (Bool-cases (text_eq seg.id key)) [
        | inl same ↦ rw (same, refused) refl
        | inr other ↦ rw other refl
      ]

  pub segments-Total :
      (segs : List ExportSegment) (ids : Ids) (o : Option Text)
      → Total (Mapped o ids) (import_segments go now segs ids) (Mapped (last_cidr go key o segs))
  unfolding import_segments last_cidr
  segments-Total [] ids o = Total-pure _ (Mapped o) ids (λ t mapped. mapped)
  segments-Total (seg ∷ segs) ids o =
      Total->>= _ (Mapped (then_cidr go key o seg)) _ _ _ (segment-Total seg ids o)
        (λ ids'. segments-Total segs ids' (then_cidr go key o seg))
