-- ===== src/Api/Access.antt =====
-- internal/api/auth.go: who gets in. A request carries a session cookie or none, and a body that is
-- `none` if `readJSON` refuses it. `now` is the reading of `time.Now()`; `salt` and `fresh_token` are
-- the bytes of `rand.Read`, or `none` if it fails.
pub mod Laws
use network_enumerator.Common.{
  ℕ, Bool, true, false, not, Option, none, some, List, [], ◌∷◌, Text, is_empty, trim_space, ltb,
  length, if◌then◌else◌,
}
use network_enumerator.Store.Sql.{Db, M, Outcome, ok, err}
use network_enumerator.Store.Credentials.{current_username, verify_credentials, update_credentials}
use network_enumerator.Auth.Session.{Sessions, create, valid, count, revoke, revoke_all}

-- The fields of `Server` that the handlers here use.
pub record Server : Type 0 where
  pub db : Db
  pub sessions : Sessions

-- The status of a response, and the value of the session cookie that it sets.
pub record Response : Type 0 where
  pub status : ℕ
  pub set_cookie : Option Text

abbrev pub Handler : Type 0
Handler = Server → Response × Server

abbrev pub answer : ℕ → Response
answer status = record { status = status; set_cookie = none }

-- `writeError` in a handler that leaves the server as it is.
abbrev pub refuse : ℕ → Handler
refuse status s = (answer status, s)

-- What follows `s.sessions.Create()`.
unfoldable pub with_session : Db → Option Text × Sessions → Response × Server
with_session d (none, sessions) = (answer 500, record { db = d; sessions = sessions })
with_session d (some token, sessions) =
    (record { status = 200; set_cookie = some token }, record { db = d; sessions = sessions })

unfoldable pub logout : Option Text → Handler
logout cookie s = (
  record { status = 204; set_cookie = some [] },
  record s { sessions = elim cookie [ none ↦ s.sessions | some token ↦ revoke token s.sessions ] },
)

-- The test of `requireAuth`, with the sessions that it leaves.
unfoldable pub admitted : Option Text → ℕ → Sessions → Bool × Sessions
admitted none now sessions = (false, sessions)
admitted (some token) now sessions = valid token now sessions

-- What follows the test.
abbrev pub if_admitted : Handler → Server → Bool × Sessions → Response × Server
if_admitted next s (false, sessions) = refuse 401 (record s { sessions = sessions })
if_admitted next s (true, sessions) = next (record s { sessions = sessions })

unfoldable pub require_auth : Handler → Option Text → ℕ → Handler
unfolding admitted
require_auth next cookie now s = if_admitted next s (admitted cookie now s.sessions)

module _ (sha256 : Text → Text) where
  -- What follows `VerifyCredentials` in `login`.
  unfoldable pub login_verified : Option Text → ℕ → Sessions → Outcome Bool → Response × Server
  login_verified fresh_token now sessions (err e d) =
      refuse 401 (record { db = d; sessions = sessions })
  login_verified fresh_token now sessions (ok false d) =
      refuse 401 (record { db = d; sessions = sessions })
  login_verified fresh_token now sessions (ok true d) =
      with_session d (create fresh_token now sessions)

  -- The body holds the user name and the password.
  unfoldable pub login : Option (Text × Text) → Option Text → ℕ → Handler
  unfolding login_verified
  login none fresh_token now s = refuse 400 s
  login (some (username, password)) fresh_token now s =
      login_verified fresh_token now s.sessions (verify_credentials sha256 username password s.db)

  -- What follows `UpdateCredentials` in `changePassword`.
  unfoldable pub credentials_updated :
      Option Text → ℕ → Sessions → Outcome (Unit {0}) → Response × Server
  credentials_updated fresh_token now sessions (err e d) =
      refuse 500 (record { db = d; sessions = sessions })
  credentials_updated fresh_token now sessions (ok _ d) =
      with_session d (create fresh_token now (revoke_all sessions))

  abbrev pub new_name : Text → Text → Text
  new_name requested username =
      if is_empty (trim_space requested) then username else trim_space requested

  -- What follows `VerifyCredentials` in `changePassword`.
  unfoldable pub password_verified :
      Text
      → Text
      → Text
      → Option Text
      → Option Text
      → ℕ
      → Sessions
      → Outcome Bool
      → Response × Server
  unfolding credentials_updated
  password_verified username new_username new_password salt fresh_token now sessions (err e d) =
      refuse 401 (record { db = d; sessions = sessions })
  password_verified username new_username new_password salt fresh_token now sessions (ok false d) =
      refuse 401 (record { db = d; sessions = sessions })
  password_verified username new_username new_password salt fresh_token now sessions (ok true d) =
      if ltb (length new_password) 6
      then refuse 400 (record { db = d; sessions = sessions })
      else credentials_updated fresh_token now sessions
          (update_credentials sha256 (new_name new_username username) new_password salt d)

  -- What follows `CurrentUsername` in `changePassword`.
  unfoldable pub username_read :
      Text
      → Text
      → Text
      → Option Text
      → Option Text
      → ℕ
      → Sessions
      → Outcome Text
      → Response × Server
  unfolding password_verified
  username_read current new_username new_password salt fresh_token now sessions (err e d) =
      refuse 500 (record { db = d; sessions = sessions })
  username_read current new_username new_password salt fresh_token now sessions (ok username d) =
      password_verified username new_username new_password salt fresh_token now sessions
        (verify_credentials sha256 username current d)

  -- The body holds the current password, the new user name and the new password.
  unfoldable pub change_password :
      Option (Text × Text × Text) → Option Text → Option Text → ℕ → Handler
  unfolding username_read
  change_password none salt fresh_token now s = refuse 400 s
  change_password (some (current, new_username, new_password)) salt fresh_token now s =
      username_read current new_username new_password salt fresh_token now s.sessions
        (current_username s.db)
