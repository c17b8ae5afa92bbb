-- ===== src/Examples/Services.antt =====
-- The theorems on credentials, sessions and address ranges.
use network_enumerator.Common.{
  length, ◌≤◌, ◌+◌, ◌≡◌, ◌↔◌, refl, true, some, List, [], ◌∷◌, ◌++◌, text, Text, arith, text_eq,
  IsBytes, min, ◌%◌,
}
use network_enumerator.Store.Schema.{AuthRow}
use network_enumerator.Store.Sql.{Db, ◌>>◌, value}
use network_enumerator.Store.Credentials.{
  default_username, default_password, ensure_default_auth, verify_credentials, update_credentials,
}
use network_enumerator.Store.Credentials.Verify.{update_credentials_lem, ensure_default_auth_lem}
use network_enumerator.Auth.Session.{new_session_store}
use network_enumerator.Auth.Session.Lazy.{
  Call, create_call, valid_call, count_call, revoke_call, answers, eager_answers, answers_lem,
}
use network_enumerator.Discovery.IpRange.{Parsed, addresses, expand_ipv4, to4}
use network_enumerator.Discovery.IpRange.Usable.{
  addresses_from, first_usable, usable, expand_ipv4_lem,
}
use network_enumerator.Discovery.IpRange.{Ip}
use network_enumerator.Discovery.IpRange.Inside.{Ascends, expand_ipv4-Ascends}
use network_enumerator.Examples.Inventory.{office, office-IsHealthy}

-- A digest of one byte.
abbrev digest : Text → Text
digest [] = 7 ∷ []
digest (b ∷ s) = b % 256 ∷ []

digest-IsBytes : (s : Text) → IsBytes (digest s)
digest-IsBytes [] = (omega arith, tt)
digest-IsBytes (b ∷ s) = (omega arith, tt)

abbrev account : AuthRow
account = record { username = text "admin"; password_hash = []; password_salt = [] }

abbrev guarded : Db
guarded = record office { tables = record (office.tables) { auth = some account } }

update_credentials_lem_example :
    (value (
        (update_credentials digest (text "root") (text "secret") (some (9 ∷ []))
            >> verify_credentials digest (text "root") (text "secret"))
          guarded)
      ≡ some true)
    ↔ ((text "root" ≡ text "root")
        × (digest (9 ∷ [] ++ text "secret") ≡ digest (9 ∷ [] ++ text "secret")))
update_credentials_lem_example =
    update_credentials_lem digest digest-IsBytes (text "root") (text "secret") (text "root")
      (text "secret") (9 ∷ []) account guarded office-IsHealthy (omega arith, tt) refl

ensure_default_auth_lem_example :
    (value (
        (ensure_default_auth digest [] (some (9 ∷ []))
            >> verify_credentials digest (text "admin") (text "password1234"))
          office)
      ≡ some true)
    ↔ ((text "admin" ≡ default_username)
        × (digest (9 ∷ [] ++ text "password1234") ≡ digest (9 ∷ [] ++ default_password)))
ensure_default_auth_lem_example =
    ensure_default_auth_lem digest digest-IsBytes [] (text "admin") (text "password1234") (9 ∷ [])
      office office-IsHealthy (omega arith, tt) refl

abbrev visits : List Call
visits =
    create_call (some (171 ∷ [])) 5
    ∷ valid_call (text "ab") 6
    ∷ count_call 7
    ∷ valid_call (text "ab") 86400000000007
    ∷ revoke_call (text "ab")
    ∷ []

answers_lem_example : answers visits new_session_store ≡ eager_answers visits []
answers_lem_example =
    answers_lem visits (omega arith, (omega arith, (omega arith, (omega arith, (omega arith, tt)))))

abbrev lan_range : Parsed
lan_range = record { ip = 10 ∷ 0 ∷ 0 ∷ 77 ∷ []; net_ip = 10 ∷ 0 ∷ 0 ∷ 0 ∷ []; ones = 24; bits = 32 }

expand_ipv4_lem_example :
    expand_ipv4 100 (some lan_range)
    ≡ addresses (addresses_from (167772160 + first_usable 8) (min (usable 8) 100))
unfolding to4 text_eq
expand_ipv4_lem_example =
    expand_ipv4_lem 100 lan_range (10 ∷ 0 ∷ 0 ∷ 77 ∷ []) (10 ∷ 0 ∷ 0 ∷ 0 ∷ []) refl refl

expand_ipv4-Ascends_example :
    (out : List Ip) × (expand_ipv4 100 (some lan_range) ≡ addresses out)
    × (length out ≤ 100)
    × Ascends 167772160 167772416 out
unfolding to4 text_eq
expand_ipv4-Ascends_example =
    expand_ipv4-Ascends 100 lan_range (10 ∷ 0 ∷ 0 ∷ 77 ∷ []) (10 ∷ 0 ∷ 0 ∷ 0 ∷ []) refl refl
      (omega arith)
