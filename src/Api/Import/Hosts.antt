-- ===== src/Api/Import/Hosts.antt =====
-- On a healthy database `importHosts` of internal/api/export.go succeeds, and leaves the hosts of the
-- document in the tables.
use network_enumerator.Common.{
  ℕ, ◌≡◌, refl, sym, ap, subst, ◌∙◌, Bool, true, false, ◌&&◌, ◌||◌, Option, none, some, List, [],
  ◌∷◌, Text, text_eq, text_eq_iff, any, arith, Bool-cases, inl, inr,
}
use network_enumerator.Common.Dict.{get}
use network_enumerator.Store.Table.{has_id}
use network_enumerator.Store.Schema.{Tables, subnet_row, host_row}
use network_enumerator.Store.Sql.Total.{Total, Total-pure, Total-if, Total->>=}
use network_enumerator.Api.Handler.{Parsers}
use network_enumerator.Api.Export.{ExportHost}
use network_enumerator.Api.Import.Loops.{
  Ids, counted, import_host_of, host_in_segment, import_hosts,
}
use network_enumerator.Api.Import.Upserts.{has_cidr, HasCidr, HasHost, Imports, import_host-Total}
use network_enumerator.Api.Import.Segments.{Sound, Total-each}

or_assoc : (a b c : Bool) → ((a || b) || c) ≡ (a || (b || c))
or_assoc a b c = ground arith

-- A host with the address, in the segment with the key.
abbrev pub is_entry : Text → Text → ExportHost → Bool
is_entry key ip h = text_eq h.segment_id key && text_eq h.ip ip

module _ (go : Parsers) (now : ℕ) (key ip cidr : Text) (segment_ids : Ids) (k : ℕ)
    (at_key : get key segment_ids ≡ some k) (accepted : go.is_ip ip ≡ true) where
  -- The subnets are those of the map, and the host is there if it was seen.
  abbrev pub Settled : Bool → Ids × ℕ → Tables → Type 0
  Settled seen done t = Sound segment_ids t × HasCidr k cidr t × (seen ≡ true → HasHost k ip t)

  landed :
      (h : ExportHost) (s : ℕ) (seen : Bool) (t0 t : Tables)
      → get h.segment_id segment_ids ≡ some s
      → HasHost s h.ip t
      → ((s' : ℕ) (ip' : Text) → HasHost s' ip' t0 → HasHost s' ip' t)
      → (seen ≡ true → HasHost k ip t0)
      → (seen || is_entry key ip h) ≡ true
      → HasHost k ip t
  landed h s seen t0 t at has stays before now_seen = elim (Bool-cases (is_entry key ip h)) [
    | inr other ↦ stays k ip (before (ground arith))
    | inl same ↦
        let same_key : h.segment_id ≡ key = (text_eq_iff h.segment_id key).0 (ground arith) in
        let same_ip : h.ip ≡ ip = (text_eq_iff h.ip ip).0 (ground arith) in
        let ids : some s ≡ some k = sym at ∙ (ap (λ x. get x segment_ids) same_key ∙ at_key) in
        let s_is_k : s ≡ k = cc ids in
        subst (λ x. HasHost x ip t) s_is_k (subst (λ x. HasHost s x t) same_ip has)
  ]

  -- A host that is passed over is not the entry.
  passed :
      (h : ExportHost) (seen : Bool)
      → ¬ (is_entry key ip h ≡ true)
      → (seen || is_entry key ip h) ≡ true
      → seen ≡ true
  passed h seen other now_seen = elim (Bool-cases (is_entry key ip h)) [
    | inl same ↦ elim (other same) [ ]
    | inr c ↦ ground arith
  ]

  no_segment : (h : ExportHost) → get h.segment_id segment_ids ≡ none → ¬ (is_entry key ip h ≡ true)
  no_segment h free same =
      let same_key : h.segment_id ≡ key = (text_eq_iff h.segment_id key).0 (ground arith) in
      let here : none ≡ some k = sym free ∙ (ap (λ x. get x segment_ids) same_key ∙ at_key) in
      cc here

  no_address : (h : ExportHost) → go.is_ip h.ip ≡ false → ¬ (is_entry key ip h ≡ true)
  no_address h c same =
      let same_ip : h.ip ≡ ip = (text_eq_iff h.ip ip).0 (ground arith) in
      let wrong : true ≡ false = sym accepted ∙ (ap go.is_ip (sym same_ip) ∙ c) in cc wrong

  host-Total :
      (h : ExportHost) (done : Ids × ℕ) (o : Option ℕ) (seen : Bool)
      → get h.segment_id segment_ids ≡ o
      → Total
          (Settled seen done)
          (host_in_segment go now h done o)
          (Settled (seen || is_entry key ip h))
  unfolding host_in_segment import_host_of
  host-Total h done none seen at =
      Total-pure _ (Settled (seen || is_entry key ip h)) done λ t (sound, has, before).
        (sound, has, λ now_seen. before (passed h seen (no_segment h at) now_seen))
  host-Total h done (some s) seen at =
      Total-each (Settled seen done) after_it _ λ t0 (sound, has, before).
        Total-if (λ t. t ≡ t0) after_it (go.is_ip h.ip) _ _
          (λ c.
            Total->>= (λ t. t ≡ t0) (λ r. Imports s h.ip h.mac h.hostname h.vendor h.notes now t0)
              after_it _ _
              (import_host-Total s h.ip h.mac h.hostname h.vendor h.notes now t0
                (sound h.segment_id s at))
              λ r. Total-pure _ after_it (counted h.id done r) λ t (same, has_host, stays). (
                (λ j i e. ap (λ x. has_id i x.rows) same ∙ sound j i e),
                ap (λ x. any (has_cidr k cidr) x.rows) same ∙ has,
                landed h s seen t0 t at has_host stays before,
              ))
          λ c. Total-pure _ after_it done λ t same.
            rw same (sound, has, λ now_seen. before (passed h seen (no_address h c) now_seen))
    where
      after_it : Ids × ℕ → Tables → Type 0
      after_it = Settled (seen || is_entry key ip h)

  pub hosts-Total :
      (hosts : List ExportHost) (done : Ids × ℕ) (seen : Bool)
      → Total
          (Settled seen done)
          (import_hosts go now segment_ids hosts done)
          (Settled (seen || any (is_entry key ip) hosts))
  unfolding import_hosts
  hosts-Total [] done seen =
      Total-pure _ (Settled (seen || false)) done
        (λ t (sound, has, before). (sound, has, λ now_seen. before (ground arith)))
  hosts-Total (h ∷ hosts) done seen =
      Total->>= _ (Settled (seen || is_entry key ip h)) _ _ _
        (host-Total h done (get h.segment_id segment_ids) seen refl)
        λ done'.
          subst
            (λ b.
              Total (Settled (seen || is_entry key ip h) done')
                (import_hosts go now segment_ids hosts done') (Settled b))
            (or_assoc seen (is_entry key ip h) (any (is_entry key ip) hosts))
            (hosts-Total hosts done' (seen || is_entry key ip h))
