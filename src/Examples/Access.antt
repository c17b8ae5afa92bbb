-- ===== src/Examples/Access.antt =====
-- The theorems on internal/api/auth.go, on a database with an account.
use network_enumerator.Common.{
  ◌≡◌, refl, some, [], ◌∷◌, Text, text, text_eq, trim_space, hex_encode, hex_decode,
}
use network_enumerator.Store.Credentials.{
  hash_password, current_username, verify_credentials, update_credentials,
}
use network_enumerator.Auth.Session.{create, valid, revoke_all}
use network_enumerator.Api.Access.{
  Server, admitted, with_session, login, login_verified, change_password, username_read,
  password_verified, credentials_updated,
}
use network_enumerator.Api.Access.Laws.{Admits, change_password_lem, login_lem}
use network_enumerator.Examples.Inventory.{office}

-- A digest that is its input.
abbrev digest : Text → Text
digest s = s

abbrev server : Server
server = record {
  db = record office {
    tables = record (office.tables) {
      auth =
          some
            (record { username = text "admin"; password_hash = text "6131"; password_salt = [] });
    };
  };
  sessions = (text "ff", 40) ∷ [];
}

-- The password is "a1".
change_password_lem_example :
    (change_password digest
      (some (text "a1", [], text "secret"))
      (some [])
      (some (171 ∷ []))
      9
      server).0.set_cookie
    ≡ some (text "ab")
unfolding change_password username_read password_verified credentials_updated with_session admitted
    create valid revoke_all current_username verify_credentials update_credentials hash_password
    hex_encode hex_decode text_eq trim_space
change_password_lem_example =
    change_password_lem digest (some (text "a1", [], text "secret")) (some []) (some (171 ∷ [])) 9
      server refl (text "ab") 10 refl

login_lem_example :
    ((login digest (some (text "admin", text "a1")) (some (171 ∷ [])) 9 server).0.set_cookie
      ≡ some (text "ab"))
    × Admits 9
        (text "ab")
        (login digest (some (text "admin", text "a1")) (some (171 ∷ [])) 9 server).1.sessions
unfolding login login_verified with_session create verify_credentials hash_password hex_encode
    hex_decode text_eq
login_lem_example = login_lem digest (text "admin") (text "a1") (171 ∷ []) 9 server refl refl
