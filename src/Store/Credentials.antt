-- ===== src/Store/Credentials.antt =====
-- internal/store/auth.go. SHA-256 is a parameter; the bytes of `rand.Read` are an argument, which is
-- `none` if the read fails.
pub mod Verify
use network_enumerator.Common.{
  hex_encode, hex_decode, ℕ, ◌+◌, ◌-◌, ◌*◌, ◌/◌, ◌%◌, Bool, true, false, ◌&&◌, Option, none, some,
  List, [], ◌∷◌, ◌++◌, ltb, Text, text, text_eq, is_empty, if◌then◌else◌,
}
use network_enumerator.Store.Schema.{Tables, AuthRow}
use network_enumerator.Store.Sql.{
  M, Outcome, ok, err, Error, no_rows, entropy, ◌>>=◌, ◌>>◌, pure, fail, query, exec, statement,
}

abbrev pub default_username : Text
default_username = text "admin"

abbrev pub default_password : Text
default_password = text "password1234"

abbrev pub new_salt : Option Text → M Text
new_salt none = fail entropy
new_salt (some b) = pure (hex_encode b)

-- The `auth` table holds one row at most: PRIMARY KEY and CHECK (id = 1).
abbrev pub insert_auth : AuthRow → Tables → Option (Unit {0} × Tables)
insert_auth row t = elim t.auth [ none ↦ some (tt, record t { auth = some row }) | some _ ↦ none ]

abbrev pub replace_auth : AuthRow → Option AuthRow → Option AuthRow
replace_auth row none = none
replace_auth row (some _) = some row

-- `UPDATE auth SET … WHERE id = 1`.
abbrev pub update_auth : AuthRow → Tables → Tables
update_auth row t = record t { auth = replace_auth row t.auth }

unfoldable pub current_username : M Text
current_username = do
  found ← query (λ t. t.auth)
  elim found [ none ↦ fail no_rows | some row ↦ pure row.username ]

module _ (sha256 : Text → Text) where
  unfoldable pub hash_password : Text → Text → Text
  unfolding hex_decode hex_encode
  hash_password password salt = hex_encode (sha256 (hex_decode salt ++ password))

  abbrev pub credentials : Text → Text → Text → AuthRow
  credentials username password salt = record {
    username = username;
    password_hash = hash_password password salt;
    password_salt = salt;
  }

  -- What follows the COUNT of rows.
  abbrev pub if_none : Text → Option Text → Option AuthRow → M (Unit {0})
  if_none initial_password random (some _) = pure tt
  if_none initial_password random none = do
    let password = if is_empty initial_password then default_password else initial_password
    salt ← new_salt random
    statement (insert_auth (credentials default_username password salt))

  unfoldable pub ensure_default_auth : Text → Option Text → M (Unit {0})
  ensure_default_auth initial_password random = do
    found ← query (λ t. t.auth)
    if_none initial_password random found

  abbrev pub matches : Text → Text → Option AuthRow → Bool
  matches username password none = false
  matches username password (some row) =
      text_eq username row.username
      && text_eq (hash_password password row.password_salt) row.password_hash

  -- An error of the query makes the answer false.
  unfoldable pub verify_credentials : Text → Text → M Bool
  verify_credentials username password d = elim (query (λ t. t.auth) d) [
    | err e d' ↦ ok false d'
    | ok found d' ↦ ok (matches username password found) d'
  ]

  unfoldable pub using_default_credentials : M Bool
  unfolding verify_credentials
  using_default_credentials = verify_credentials default_username default_password

  unfoldable pub update_credentials : Text → Text → Option Text → M (Unit {0})
  update_credentials username password random = do
    salt ← new_salt random
    exec (update_auth (credentials username password salt))
