-- ===== src/Auth/Session.antt =====
-- internal/auth/session.go. The map from tokens to expiry times is an association list; the order of
-- a Go map is not specified. Every method runs under the mutex. `now` is the reading of `time.Now()`
-- in nanoseconds.
pub mod Laws
pub mod Lazy
use network_enumerator.Common.{
  ℕ, suc, ◌+◌, Bool, true, false, ◌&&◌, not, Option, none, some, List, [], ◌∷◌, ltb, Text, text_eq,
  is_empty, if◌then◌else◌, keep, find_if, hex_encode,
}

-- 24 hours.
abbrev pub ttl : ℕ
ttl = 86400000000000

abbrev pub Sessions : Type 0
Sessions = List (Text × ℕ)

abbrev pub new_session_store : Sessions
new_session_store = []

abbrev pub is_for : Text → Text × ℕ → Bool
is_for token e = text_eq e.0 token

-- `delete(s.sessions, token)`.
abbrev pub remove : Text → Sessions → Sessions
remove token s = keep (λ e. not (is_for token e)) s

-- `s.sessions[token] = exp`.
abbrev pub put : Text → ℕ → Sessions → Sessions
put token exp s = (token, exp) ∷ remove token s

-- `random` holds the 32 bytes of `rand.Read`, or `none` if it fails.
unfoldable pub create : Option Text → ℕ → Sessions → Option Text × Sessions
create none now s = (none, s)
create (some b) now s = let token = hex_encode b in (some token, put token (now + ttl) s)

unfoldable pub valid : Text → ℕ → Sessions → Bool × Sessions
valid token now s = if is_empty token then (false, s) else elim (find_if (is_for token) s) [
  | none ↦ (false, s)
  | some (_, exp) ↦ if ltb exp now then (false, remove token s) else (true, put token (now + ttl) s)
]

-- The loop of `Count`, which deletes what has expired.
unfoldable pub count : ℕ → Sessions → ℕ × Sessions
count now [] = (0, [])
count now (e ∷ s) =
    let (n, rest) = count now s in if ltb e.1 now then (n, rest) else (suc n, e ∷ rest)

unfoldable pub revoke : Text → Sessions → Sessions
revoke token s = remove token s

unfoldable pub revoke_all : Sessions → Sessions
revoke_all s = new_session_store
