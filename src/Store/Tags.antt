-- ===== src/Store/Tags.antt =====
-- internal/store/tags.go.
use network_enumerator.Common.{
  ℕ, Bool, true, false, ◌&&◌, ◌||◌, not, List, [], ◌∷◌, ltb, ◌==◌, Text, text, is_empty,
  if◌then◌else◌, keep, any,
}
use network_enumerator.Store.Table.{order_by}
use network_enumerator.Store.Schema.{TagRow, tag_row}
use network_enumerator.Store.Constraints.{insert_tag, insert_host_tag, delete_tags}
use network_enumerator.Store.Sql.{M, ◌>>=◌, pure, query, exec, statement}

-- The order of texts in SQLite (BINARY) and in Go: byte by byte.
unfoldable pub text_less : Text → Text → Bool
text_less s [] = false
text_less [] (b ∷ t) = true
text_less (a ∷ s) (b ∷ t) = ltb a b || ((a == b) && text_less s t)

abbrev pub by_name : TagRow → TagRow → Bool
by_name r s = text_less r.name s.name

unfoldable pub list_tags : M (List TagRow)
list_tags = query (λ t. order_by by_name t.tags.rows)

unfoldable pub create_tag : Text → Text → M TagRow
create_tag name color = do
  let color' = if is_empty color then text "#6b7280" else color
  let make = λ (i : ℕ). (let row : TagRow = record { id = i; name = name; color = color' } in row)
  id ← statement (insert_tag make)
  pure (make id)

unfoldable pub delete_tag : ℕ → M (Unit {0})
delete_tag id = exec (delete_tags id)

unfoldable pub add_host_tag : ℕ → ℕ → M (Unit {0})
add_host_tag host_id tag_id =
    statement (insert_host_tag (record { host_id = host_id; tag_id = tag_id }))

unfoldable pub remove_host_tag : ℕ → ℕ → M (Unit {0})
remove_host_tag host_id tag_id = exec λ t. record t {
  host_tags = keep (λ r. not ((r.host_id == host_id) && (r.tag_id == tag_id))) t.host_tags;
}

-- The JOIN of tags with host_tags.
unfoldable pub tags_for_host : ℕ → M (List TagRow)
tags_for_host host_id = query λ t.
    order_by by_name
      (keep (λ r. any (λ l. (l.tag_id == r.id) && (l.host_id == host_id)) t.host_tags) t.tags.rows)
