-- ===== src/Api/Access/Laws.antt =====
-- Which cookies internal/api/auth.go accepts.
use network_enumerator.Common.{
  ℕ, ◌+◌, ◌≤◌, ◌≡◌, refl, ap, Bool, true, false, not, Option, none, some, [], ◌∷◌, Text, text_eq,
  text_eq_iff, text_eq_refl, is_empty, ltb, length, keep, find_if, hex_encode, arith, Bool-cases,
  inl, inr,
}
use network_enumerator.Store.Sql.{Db, Outcome, ok, err}
use network_enumerator.Store.Credentials.{current_username, verify_credentials, update_credentials}
use network_enumerator.Auth.Session.{ttl, Sessions, is_for, put, create, valid, revoke, revoke_all}
use network_enumerator.Api.Access.{
  Server, Response, with_session, admitted, credentials_updated, new_name, password_verified,
  username_read, change_password, login_verified, login,
}

-- Every cookie that is admitted is the one that the response sets.
abbrev OnlyOwn : Response × Server → Type 0
OnlyOwn r =
    r.0.status ≡ 200
    → (token : Text) (later : ℕ) → (admitted (some token) later r.1.sessions).0 ≡ true
    → r.0.set_cookie ≡ some token

valid_alone :
    (token other : Text) (exp later : ℕ)
    → (valid token later ((other, exp) ∷ [])).0 ≡ true
    → other ≡ token
unfolding valid
valid_alone token other exp later h = elim (Bool-cases (is_empty token)) [
  | inl c ↦ cc (rw c at h)
  | inr c ↦ elim (Bool-cases (text_eq other token)) [
    | inl k ↦ (text_eq_iff other token).0 k
    | inr k ↦ cc (rw (c, k) at h)
  ]
]

with_session-OnlyOwn :
    (d : Db) (fresh_token : Option Text) (now : ℕ) (sessions : Sessions)
    → OnlyOwn (with_session d (create fresh_token now (revoke_all sessions)))
unfolding with_session create revoke_all admitted
with_session-OnlyOwn d none now sessions ok200 token later h =
    let no : ⊥ = omega arith in elim no [ ]
with_session-OnlyOwn d (some b) now sessions ok200 token later h =
    ap some (valid_alone token (hex_encode b) (now + ttl) later h)

updated-OnlyOwn :
    (sha256 : Text → Text) (fresh_token : Option Text) (now : ℕ) (sessions : Sessions)
    (o : Outcome (Unit {0}))
    → OnlyOwn (credentials_updated sha256 fresh_token now sessions o)
unfolding credentials_updated
updated-OnlyOwn sha256 fresh_token now sessions (err e d) =
    λ ok200. let no : ⊥ = omega arith in elim no [ ]
updated-OnlyOwn sha256 fresh_token now sessions (ok _ d) =
    with_session-OnlyOwn d fresh_token now sessions

verified-OnlyOwn :
    (sha256 : Text → Text) (username new_username new_password : Text)
    (salt fresh_token : Option Text) (now : ℕ) (sessions : Sessions) (o : Outcome Bool)
    → OnlyOwn (
        password_verified sha256 username new_username new_password salt fresh_token now sessions o)
unfolding password_verified
verified-OnlyOwn sha256 username new_username new_password salt fresh_token now sessions (err e d) =
    λ ok200. let no : ⊥ = omega arith in elim no [ ]
verified-OnlyOwn sha256 username new_username new_password salt fresh_token now sessions
      (ok false d) =
    λ ok200. let no : ⊥ = omega arith in elim no [ ]
verified-OnlyOwn sha256 username new_username new_password salt fresh_token now sessions
      (ok true d) =
    elim (Bool-cases (ltb (length new_password) 6)) [
      | inl c ↦ rw c (λ ok200. let no : ⊥ = omega arith in elim no [ ])
      | inr c ↦ rw c (
          updated-OnlyOwn sha256 fresh_token now sessions
            (update_credentials sha256 (new_name sha256 new_username username) new_password salt d))
    ]

read-OnlyOwn :
    (sha256 : Text → Text) (current new_username new_password : Text)
    (salt fresh_token : Option Text) (now : ℕ) (sessions : Sessions) (o : Outcome Text)
    → OnlyOwn
        (username_read sha256 current new_username new_password salt fresh_token now sessions o)
unfolding username_read
read-OnlyOwn sha256 current new_username new_password salt fresh_token now sessions (err e d) =
    λ ok200. let no : ⊥ = omega arith in elim no [ ]
read-OnlyOwn sha256 current new_username new_password salt fresh_token now sessions
      (ok username d) =
    verified-OnlyOwn sha256 username new_username new_password salt fresh_token now sessions
      (verify_credentials sha256 username current d)

-- After a change of password that succeeds, no session cookie is admitted at any later time but the
-- one that the response sets: all sessions that were open are closed.
pub change_password_lem :
    (sha256 : Text → Text) (body : Option (Text × Text × Text)) (salt fresh_token : Option Text)
    (now : ℕ) (s : Server)
    → (change_password sha256 body salt fresh_token now s).0.status ≡ 200
    → (token : Text) (later : ℕ)
    → (admitted
        (some token)
        later
        (change_password sha256 body salt fresh_token now s).1.sessions).0
      ≡ true
    → (change_password sha256 body salt fresh_token now s).0.set_cookie ≡ some token
unfolding change_password
change_password_lem sha256 none salt fresh_token now s =
    λ ok200. let no : ⊥ = omega arith in elim no [ ]
change_password_lem sha256 (some (current, new_username, new_password)) salt fresh_token now s =
    read-OnlyOwn sha256 current new_username new_password salt fresh_token now s.sessions
      (current_username s.db)

-- What a login promises of the cookie that it sets.
abbrev pub Admits : ℕ → Text → Sessions → Type 0
Admits now token sessions =
    ((later : ℕ) → later ≤ now + ttl → (admitted (some token) later sessions).0 ≡ true)
    × ((later : ℕ) → (admitted (some token) later (revoke token sessions)).0 ≡ false)

not_found :
    (token : Text) (sessions : Sessions)
    → find_if (is_for token) (keep (λ e. not (is_for token e)) sessions) ≡ none
not_found token [] = refl
not_found token (e ∷ sessions) = ground (arith, not_found token sessions)

valid_revoked :
    (token : Text) (later : ℕ) (sessions : Sessions)
    → (valid token later (revoke token sessions)).0 ≡ false
unfolding valid revoke
valid_revoked token later sessions = elim (Bool-cases (is_empty token)) [
  | inl c ↦ rw c refl
  | inr c ↦ rw (c, not_found token sessions) refl
]

valid-put :
    (token : Text) (now later : ℕ) (sessions : Sessions)
    → is_empty token ≡ false
    → later ≤ now + ttl
    → (valid token later (put token (now + ttl) sessions)).0 ≡ true
unfolding valid
valid-put token now later sessions full soon =
    let self : text_eq token token ≡ true = text_eq_refl token in
    let live : ltb (now + ttl) later ≡ false = ground arith in rw (full, self, live) refl

created :
    (d : Db) (b : Text) (now : ℕ) (sessions : Sessions)
    → is_empty (hex_encode b) ≡ false
    → Admits now (hex_encode b) (with_session d (create (some b) now sessions)).1.sessions
unfolding with_session create admitted
created d b now sessions full = (
  (λ later soon. valid-put (hex_encode b) now later sessions full soon),
  λ later. valid_revoked (hex_encode b) later _,
)

verified_login :
    (sha256 : Text → Text) (b : Text) (now : ℕ) (sessions : Sessions) (o : Outcome Bool)
    → is_empty (hex_encode b) ≡ false
    → (login_verified sha256 (some b) now sessions o).0.status ≡ 200
    → ((login_verified sha256 (some b) now sessions o).0.set_cookie ≡ some (hex_encode b))
      × Admits now (hex_encode b) (login_verified sha256 (some b) now sessions o).1.sessions
unfolding login_verified with_session create
verified_login sha256 b now sessions (err e d) full ok200 = let no : ⊥ = omega arith in elim no [ ]
verified_login sha256 b now sessions (ok false d) full ok200 =
    let no : ⊥ = omega arith in elim no [ ]
verified_login sha256 b now sessions (ok true d) full ok200 = (refl, created d b now sessions full)

-- After a login that succeeds, with some random bytes, the cookie that it sets is admitted for the
-- 24 hours of its life, and is not admitted any more once its session was revoked, as `logout` does.
pub login_lem :
    (sha256 : Text → Text) (username password b : Text) (now : ℕ) (s : Server)
    → is_empty (hex_encode b) ≡ false
    → (login sha256 (some (username, password)) (some b) now s).0.status ≡ 200
    → ((login sha256 (some (username, password)) (some b) now s).0.set_cookie ≡ some (hex_encode b))
      × Admits now
          (hex_encode b)
          (login sha256 (some (username, password)) (some b) now s).1.sessions
unfolding login
login_lem sha256 username password b now s =
    verified_login sha256 b now s.sessions (verify_credentials sha256 username password s.db)
