-- ===== src/Store/Hosts/UpsertLaws.antt =====
-- What the upserts of internal/store/hosts.go do to the table of hosts.
use network_enumerator.Common.{
  ℕ, ◌≡◌, refl, ap, ap₂, ◌∙◌, Bool, true, ◌&&◌, Option, none, some, List, ◌==◌, Text, text_eq,
  text_eq_iff, ==_iff, ==_refl, if◌then◌else◌, find_if, arith, Bool-cases, inl, inr,
}
use network_enumerator.Store.Table.{where_do, is_id, has_id, add}
use network_enumerator.Store.Table.Find.{
  map_option, find_if-map, find_if-id, find_if-holds, any_of_find_none,
}
use network_enumerator.Store.Table.Laws.{Below}
use network_enumerator.Store.Schema.{Tables, HostRow, host_row, subnet_row}
use network_enumerator.Store.Constraints.{insert_host, update_host}
use network_enumerator.Store.Hosts.{is_at}

-- The host that is known under an address, `SELECT … WHERE subnet_id = ? AND ip = ?`.
abbrev pub host_at : ℕ → Text → Tables → Option HostRow
host_at subnet_id ip t = find_if (is_at subnet_id ip) t.hosts.rows

-- The host that an upsert leaves under its address.
abbrev pub upserted : Option HostRow → (HostRow → HostRow) → HostRow → HostRow
upserted none change new = new
upserted (some h) change new = change h

abbrev pub LeavesAddress : (HostRow → HostRow) → Type 0
LeavesAddress f =
    (h : HostRow) → ((f h).id ≡ h.id) × ((f h).subnet_id ≡ h.subnet_id) × ((f h).ip ≡ h.ip)

where_do-is_at :
    (p : HostRow → Bool) (f : HostRow → HostRow) (s : ℕ) (i : Text)
    → LeavesAddress f
    → (h : HostRow) → is_at s i (where_do p f h) ≡ is_at s i h
where_do-is_at p f s i same h = elim (Bool-cases (p h)) [
  | inl e ↦ rw (e, (same h).1, (same h).2)
  | inr e ↦ rw e
]

same_address :
    (s s' : ℕ) (i i' : Text) (h : HostRow)
    → is_at s i h ≡ true
    → is_at s' i' h ≡ ((s == s') && text_eq i i')
same_address s s' i i' h e =
    ground (arith, text_eq_iff h.ip i, text_eq_iff h.ip i', text_eq_iff i i')

pub address_eq : (s s' : ℕ) (i i' : Text) → ((s == s') && text_eq i i') ≡ true → (s ≡ s') × (i ≡ i')
address_eq s s' i i' h = ground (arith, text_eq_iff i i')

-- The row with the id of a found row is that row.
id_eq :
    (p q : HostRow → Bool) (n : ℕ) (rows : List HostRow) (g h : HostRow)
    → Below n rows
    → find_if p rows ≡ some g
    → find_if q rows ≡ some h
    → (g.id == h.id) ≡ true
    → g ≡ h
id_eq p q n rows g h b eg eh e =
    let same : g.id ≡ h.id = (==_iff g.id h.id).0 e in
    let found : find_if (is_id g.id) rows ≡ some g = find_if-id p n rows g b eg in
    let found' : find_if (is_id h.id) rows ≡ some h = find_if-id q n rows h b eh in
    cc (rw same at found)

update_option :
    (s s' : ℕ) (i i' : Text) (f : HostRow → HostRow) (n : ℕ) (t : Tables) (h : HostRow)
    → Below n t.hosts.rows
    → host_at s i t ≡ some h
    → (o : Option HostRow) → host_at s' i' t ≡ o
    → map_option (where_do (is_id h.id) f) o ≡ (if (s == s') && text_eq i i' then some (f h) else o)
update_option s s' i i' f n t h b found none e = elim (Bool-cases ((s == s') && text_eq i i')) [
  | inr c ↦ rw c
  | inl c ↦ let (es, ei) = address_eq s s' i i' c in cc (ap₂ (λ x y. host_at x y t) es ei)
]
update_option s s' i i' f n t h b found (some g) e = elim (Bool-cases ((s == s') && text_eq i i')) [
  | inl c ↦
      let (es, ei) = address_eq s s' i i' c in
      let eg : g ≡ h = cc (ap₂ (λ x y. host_at x y t) es ei) in
      let self : (h.id == h.id) ≡ true = ==_refl h.id in rw (c, eg, self)
  | inr c ↦ elim (Bool-cases (g.id == h.id)) [
    | inr k ↦ rw (c, k)
    | inl k ↦
        let eg : g ≡ h = id_eq (is_at s' i') (is_at s i) n t.hosts.rows g h b e found k in
        let at : is_at s' i' g ≡ true = find_if-holds (is_at s' i') t.hosts.rows e in
        let at' : is_at s' i' h ≡ ((s == s') && text_eq i i') =
          same_address s s' i i' h (find_if-holds (is_at s i) t.hosts.rows found) in
        cc (ap (is_at s' i') eg)
  ]
]

-- An UPDATE by id changes what is known under one address.
pub host_at-update :
    (s s' : ℕ) (i i' : Text) (f : HostRow → HostRow) (n : ℕ) (t : Tables) (h : HostRow)
    → LeavesAddress f
    → Below n t.hosts.rows
    → host_at s i t ≡ some h
    → host_at s' i' (update_host h.id f t)
      ≡ (if (s == s') && text_eq i i' then some (f h) else host_at s' i' t)
host_at-update s s' i i' f n t h same b found =
    find_if-map (is_at s' i') (where_do (is_id h.id) f) t.hosts.rows
      (where_do-is_at (is_id h.id) f s' i' same)
    ∙ update_option s s' i i' f n t h b found (host_at s' i' t) refl

-- An INSERT lands where no host is known, if the subnet exists.
pub insert_host_lem :
    (make : ℕ → HostRow) (t : Tables)
    → has_id (make t.hosts.next).subnet_id t.subnets.rows ≡ true
    → host_at (make t.hosts.next).subnet_id (make t.hosts.next).ip t ≡ none
    → insert_host make t ≡ some (t.hosts.next, record t { hosts = add make t.hosts })
insert_host_lem make t parent free = rw (parent, any_of_find_none _ t.hosts.rows free)
