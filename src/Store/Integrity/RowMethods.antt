-- ===== src/Store/Integrity/RowMethods.antt =====
-- The methods of internal/store/ports.go, tags.go, settings.go, events.go and auth.go keep
-- the database well formed, on every branch and whatever statement fails.
use network_enumerator.Common.{
  ℕ, ◌≡◌, refl, Bool, false, Option, none, some, List, [], ◌∷◌, any, keep, Text, text_eq, arith,
  Bool-cases, inl, inr,
}
use network_enumerator.Store.Table.Laws.{Distinct, All-keep, Distinct-keep}
use network_enumerator.Store.Schema.{
  Tables, PortRow, HostTagRow, SettingRow, AuthRow, same_host_tag, subnet_row, host_row, port_row,
  risk_rule_row,
}
use network_enumerator.Store.Constraints.{insert_event}
use network_enumerator.Store.Sql.{entropy}
use network_enumerator.Store.Sql.Keeps.{
  Keeps-pure, Keeps-fail, Keeps-query, Keeps-exec, Keeps-statement, Keeps->>=, Keeps->>, Lands,
}
use network_enumerator.Store.Integrity.{IsWf, same_key}
use network_enumerator.Store.Integrity.Inserts.{
  insert_port-Lands, insert_tag-Lands, insert_host_tag-Lands, insert_event-Lands,
}
use network_enumerator.Store.Integrity.Deletes.{delete_tags-IsWf}
use network_enumerator.Store.Ports.{seen_open, upsert_port, close_rows, sweep_closed_ports}
use network_enumerator.Store.Integrity.Rules.{KeepsWf, port_update, other_tables}
use network_enumerator.Store.Tags.{create_tag, delete_tag, add_host_tag, remove_host_tag}
use network_enumerator.Store.Settings.{put_setting, set_scan_method, set_netdiscover_enabled}
use network_enumerator.Store.Events.{new_event, add_event}
use network_enumerator.Store.Credentials.{
  new_salt, insert_auth, replace_auth, credentials, ensure_default_auth, update_credentials,
}

pub upsert_port-Wf :
    (h p : ℕ) (protocol service banner product version : Text) (now : ℕ)
    → KeepsWf (upsert_port h p protocol service banner product version now)
unfolding upsert_port
upsert_port-Wf h p protocol service banner product version now =
    Keeps->>= IsWf _ _ (Keeps-query IsWf _) (elim [
      | some r ↦
          Keeps->> IsWf _ _
            (port_update r.id (seen_open service banner product version now) (λ s. refl)
              (λ s u. (refl, refl)) (λ s. refl))
            (Keeps-pure IsWf _)
      | none ↦
          Keeps->>= IsWf _ _ (Keeps-statement IsWf _ (insert_port-Lands _ (λ i. refl)))
            (λ id. Keeps-pure IsWf _)
    ])

close_rows-Wf : (rows : List PortRow) → KeepsWf (close_rows rows)
unfolding close_rows
close_rows-Wf [] = Keeps-pure IsWf _
close_rows-Wf (r ∷ rows) =
    Keeps->> IsWf _ _ (port_update r.id _ (λ s. refl) (λ s u. (refl, refl)) (λ s. refl))
      (Keeps->>= IsWf _ _ (close_rows-Wf rows) (λ rest. Keeps-pure IsWf _))

pub sweep_closed_ports-Wf :
    (h : ℕ) (probed open_ports : List ℕ) → KeepsWf (sweep_closed_ports h probed open_ports)
unfolding sweep_closed_ports
sweep_closed_ports-Wf h probed open_ports = Keeps->>= IsWf _ _ (Keeps-query IsWf _) close_rows-Wf

pub create_tag-Wf : (name color : Text) → KeepsWf (create_tag name color)
unfolding create_tag
create_tag-Wf name color =
    Keeps->>= IsWf _ _ (Keeps-statement IsWf _ (insert_tag-Lands _ (λ i. refl)))
      (λ id. Keeps-pure IsWf _)

pub delete_tag-Wf : (i : ℕ) → KeepsWf (delete_tag i)
unfolding delete_tag
delete_tag-Wf i = Keeps-exec IsWf _ (delete_tags-IsWf i)

pub add_host_tag-Wf : (h i : ℕ) → KeepsWf (add_host_tag h i)
unfolding add_host_tag
add_host_tag-Wf h i = Keeps-statement IsWf _ (insert_host_tag-Lands _)

links_keep :
    (p : HostTagRow → Bool) (t : Tables)
    → IsWf t
    → IsWf (record t { host_tags = keep p t.host_tags })
links_keep p t w = record {
  subnets_wf = w.subnets_wf;
  hosts_wf = w.hosts_wf;
  ports_wf = w.ports_wf;
  tags_wf = w.tags_wf;
  links_wf = record {
    keys = Distinct-keep same_host_tag p t.host_tags w.links_wf.keys;
    host_parents = All-keep _ _ p t.host_tags (λ r e k. k) w.links_wf.host_parents;
    tag_parents = All-keep _ _ p t.host_tags (λ r e k. k) w.links_wf.tag_parents;
  };
  event_ids = w.event_ids;
  rule_ids = w.rule_ids;
  setting_keys = w.setting_keys;
}

pub remove_host_tag-Wf : (h i : ℕ) → KeepsWf (remove_host_tag h i)
unfolding remove_host_tag
remove_host_tag-Wf h i = Keeps-exec IsWf _ (links_keep _)

any-put_setting :
    (s : SettingRow) (key value : Text) (rows : List SettingRow)
    → text_eq s.key key ≡ false
    → any (same_key s) rows ≡ false
    → any (same_key s) (put_setting key value rows) ≡ false
unfolding put_setting
any-put_setting s key value [] e h = rw e
any-put_setting s key value (r ∷ rows) e h = ground (arith, any-put_setting s key value rows)

put_setting-Distinct :
    (key value : Text) (rows : List SettingRow)
    → Distinct same_key rows
    → Distinct same_key (put_setting key value rows)
unfolding put_setting
put_setting-Distinct key value [] d = (refl, tt)
put_setting-Distinct key value (r ∷ rows) d = elim (Bool-cases (text_eq r.key key)) [
  | inl e ↦ rw e d
  | inr e ↦ rw e (any-put_setting r key value rows e d.0, put_setting-Distinct key value rows d.1)
]

put_setting-IsWf :
    (key value : Text) (t : Tables)
    → IsWf t
    → IsWf (record t { settings = put_setting key value t.settings })
put_setting-IsWf key value t w =
    other_tables t.auth _ (put_setting-Distinct key value t.settings w.setting_keys) t w

pub set_scan_method-Wf : (method : Text) → KeepsWf (set_scan_method method)
unfolding set_scan_method
set_scan_method-Wf method = Keeps-exec IsWf _ (put_setting-IsWf _ _)

pub set_netdiscover_enabled-Wf : (b : Bool) → KeepsWf (set_netdiscover_enabled b)
unfolding set_netdiscover_enabled
set_netdiscover_enabled-Wf b = Keeps-exec IsWf _ (put_setting-IsWf _ _)

pub add_event-Wf :
    (type message : Text) (entity_id now : ℕ) → KeepsWf (add_event type message entity_id now)
unfolding add_event
add_event-Wf type message entity_id now =
    Keeps->>= IsWf _ _
      (Keeps-statement IsWf (insert_event (new_event type message entity_id now))
        (insert_event-Lands (new_event type message entity_id now) (λ i. refl)))
      (λ id. Keeps-pure IsWf (new_event type message entity_id now id))

new_salt-Wf : (random : Option Text) → KeepsWf (new_salt random)
new_salt-Wf none = Keeps-fail IsWf _ entropy
new_salt-Wf (some b) = Keeps-pure IsWf _

insert_auth-Lands :
    (row : AuthRow) (auth : Option AuthRow) (t : Tables)
    → t.auth ≡ auth
    → IsWf t
    → Lands IsWf (insert_auth row t)
insert_auth-Lands row none t e w = rw e (other_tables (some row) t.settings w.setting_keys t w)
insert_auth-Lands row (some _) t e w = rw e tt

module _ (sha256 : Text → Text) where
  pub ensure_default_auth-Wf :
      (password : Text) (random : Option Text)
      → KeepsWf (ensure_default_auth sha256 password random)
  unfolding ensure_default_auth
  ensure_default_auth-Wf password random = Keeps->>= IsWf _ _ (Keeps-query IsWf _) (elim [
    | some _ ↦ Keeps-pure IsWf _
    | none ↦
        Keeps->>= IsWf _ _ (new_salt-Wf random)
          (λ salt. Keeps-statement IsWf _ (λ t. insert_auth-Lands _ t.auth t refl))
  ])

  pub update_credentials-Wf :
      (username password : Text) (random : Option Text)
      → KeepsWf (update_credentials sha256 username password random)
  unfolding update_credentials
  update_credentials-Wf username password random = Keeps->>= IsWf _ _ (new_salt-Wf random) λ salt.
      Keeps-exec IsWf _ λ t w.
        other_tables (replace_auth (credentials sha256 username password salt) t.auth) t.settings
          w.setting_keys t w
