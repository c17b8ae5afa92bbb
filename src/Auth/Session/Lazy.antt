-- ===== src/Auth/Session/Lazy.antt =====
-- Dropping expired sessions late is not observable: `SessionStore` (internal/auth/session.go) answers
-- like a store that never drops one and compares the times on every question.
use network_enumerator.Common.{
  ℕ, ◌+◌, ◌≤◌, ◌≡◌, refl, ap, ap₂, sym, ◌∙◌, Bool, true, false, ◌&&◌, not, Option, none, some, List,
  [], ◌∷◌, ltb, Text, is_empty, if◌then◌else◌, any, count_if, find_if, arith, Bool-cases,
  Option-cases, inl, inr, hex_encode,
}
use network_enumerator.Auth.Session.{
  ttl, Sessions, new_session_store, is_for, remove, put, create, valid, count, revoke, revoke_all,
}
use network_enumerator.Auth.Session.Laws.{
  is_live, live, Unique, keep-keep, keep-absorb, keep-all, Unique-keep, Unique-put, live_at_none,
  live_at_some,
}

-- A call of a method, with the reading of the clock where it has one.
pub data Call : Type 0 where
  create_call : Option Text → ℕ → Call
  valid_call : Text → ℕ → Call
  count_call : ℕ → Call
  revoke_call : Text → Call
  revoke_all_call : Call

-- What a call returns.
pub data Answer : Type 0 where
  created : Option Text → Answer
  is_valid : Bool → Answer
  counted : ℕ → Answer
  done : Answer

unfoldable pub call : Call → Sessions → Answer × Sessions
unfolding create valid count revoke revoke_all
call (create_call random now) s = let (t, s') = create random now s in (created t, s')
call (valid_call token now) s = let (b, s') = valid token now s in (is_valid b, s')
call (count_call now) s = let (n, s') = count now s in (counted n, s')
call (revoke_call token) s = (done, revoke token s)
call revoke_all_call s = (done, revoke_all s)

pub answers : List Call → Sessions → List Answer
unfolding call
answers [] s = []
answers (c ∷ cs) s = let (a, s') = call c s in a ∷ answers cs s'

-- The store that never drops an expired session.
abbrev pub eager_call : Call → Sessions → Answer × Sessions
eager_call (create_call none now) s = (created none, s)
eager_call (create_call (some b) now) s =
    (created (some (hex_encode b)), put (hex_encode b) (now + ttl) s)
eager_call (valid_call token now) s =
    if not (is_empty token) && any (is_for token) (live now s)
    then (is_valid true, put token (now + ttl) s)
    else (is_valid false, s)
eager_call (count_call now) s = (counted (count_if (is_live now) s), s)
eager_call (revoke_call token) s = (done, remove token s)
eager_call revoke_all_call s = (done, [])

abbrev pub eager_answers : List Call → Sessions → List Answer
eager_answers [] s = []
eager_answers (c ∷ cs) s = let (a, s') = eager_call c s in a ∷ eager_answers cs s'

-- The clock after a call, `now` the reading before it.
abbrev pub clock_after : ℕ → Call → ℕ
clock_after now (create_call random t) = t
clock_after now (valid_call token t) = t
clock_after now (count_call t) = t
clock_after now (revoke_call token) = now
clock_after now revoke_all_call = now

-- The clock never goes back.
abbrev pub InOrder : ℕ → List Call → Type 0
InOrder now [] = Unit
InOrder now (c ∷ cs) = (now ≤ clock_after now c) × InOrder (clock_after now c) cs

-- From `now` on, the two stores hold the same live sessions.
record Agree (now : ℕ) (s a : Sessions) : Type 0 where
  unique : Unique s
  same : live now s ≡ live now a

live-later : (now later : ℕ) (s : Sessions) → now ≤ later → live later (live now s) ≡ live later s
live-later now later s h = keep-absorb (is_live later) (is_live now) s (λ e late. ground arith)

Agree-later : (now later : ℕ) (s a : Sessions) → now ≤ later → Agree now s a → Agree later s a
Agree-later now later s a h g = record {
  unique = g.unique;
  same = sym (live-later now later s h) ∙ ap (live later) g.same ∙ live-later now later a h;
}

live-remove :
    (now : ℕ) (token : Text) (s : Sessions) → live now (remove token s) ≡ remove token (live now s)
live-remove now token s = keep-keep (is_live now) (λ e. not (is_for token e)) s

Agree-remove :
    (now : ℕ) (token : Text) (s a : Sessions)
    → Agree now s a
    → Agree now (remove token s) (remove token a)
Agree-remove now token s a g = record {
  unique = Unique-keep (λ e. not (is_for token e)) s g.unique;
  same = live-remove now token s ∙ ap (remove token) g.same ∙ sym (live-remove now token a);
}

Agree-put :
    (now exp : ℕ) (token : Text) (s a : Sessions)
    → Agree now s a
    → Agree now (put token exp s) (put token exp a)
Agree-put now exp token s a g =
    let rest = Agree-remove now token s a g in
    record {
      unique = Unique-put token exp s g.unique;
      same = ap (λ xs. if is_live now (token, exp) then (token, exp) ∷ xs else xs) rest.same;
    }

-- To drop what has expired changes nothing.
Agree-drop :
    (now : ℕ) (token : Text) (s a : Sessions)
    → any (is_for token) (live now s) ≡ false
    → Agree now s a
    → Agree now (remove token s) a
Agree-drop now token s a dead g = record {
  unique = Unique-keep (λ e. not (is_for token e)) s g.unique;
  same = live-remove now token s ∙ keep-all (is_for token) (live now s) dead ∙ g.same;
}

count_lem : (now : ℕ) (s : Sessions) → count now s ≡ (count_if (is_live now) s, live now s)
unfolding count
count_lem now [] = refl
count_lem now (e ∷ s) = elim (Bool-cases (ltb e.1 now)) [
  | inl c ↦ rw (c, count_lem now s) refl
  | inr c ↦ rw (c, count_lem now s) refl
]

count_if-live :
    (now : ℕ) (s : Sessions) → count_if (is_live now) s ≡ count_if (is_live now) (live now s)
count_if-live now [] = refl
count_if-live now (e ∷ s) = ground (arith, count_if-live now s)

abbrev Follows : ℕ → Answer × Sessions → Answer × Sessions → Type 0
Follows now x y = (x.0 ≡ y.0) × Agree now x.1 y.1

valid-Follows :
    (now : ℕ) (token : Text) (s a : Sessions)
    → Agree now s a
    → Follows now (call (valid_call token now) s) (eager_call (valid_call token now) a)
unfolding call valid
valid-Follows now token s a g = elim (Bool-cases (is_empty token)) [
  | inl c ↦ rw c (refl, g)
  | inr c ↦ elim (Option-cases (find_if (is_for token) s)) [
    | inl gone ↦
        let dead : any (is_for token) (live now a) ≡ false =
          ap (any (is_for token)) (sym g.same) ∙ live_at_none token now s gone in
        rw (c, gone, dead) (refl, g)
    | inr (e, found) ↦
        let here : any (is_for token) (live now s) ≡ is_live now e =
          live_at_some token now s e g.unique found in
        let there : any (is_for token) (live now a) ≡ is_live now e =
          ap (any (is_for token)) (sym g.same) ∙ here in
        elim (Bool-cases (ltb e.1 now)) [
          | inl late ↦
              let dead : any (is_for token) (live now s) ≡ false = here ∙ ap not late in
              rw (c, found, there, late) (refl, Agree-drop now token s a dead g)
          | inr late ↦ rw (c, found, there, late) (refl, Agree-put now (now + ttl) token s a g)
        ]
  ]
]

call-Follows :
    (now : ℕ) (c : Call) (s a : Sessions)
    → now ≤ clock_after now c
    → Agree now s a
    → Follows (clock_after now c) (call c s) (eager_call c a)
unfolding call create count revoke revoke_all
call-Follows now (create_call none t) s a h g = (refl, Agree-later now t s a h g)
call-Follows now (create_call (some b) t) s a h g =
    (refl, Agree-put t (t + ttl) (hex_encode b) s a (Agree-later now t s a h g))
call-Follows now (valid_call token t) s a h g =
    valid-Follows t token s a (Agree-later now t s a h g)
call-Follows now (count_call t) s a h g =
    let g' = Agree-later now t s a h g in
    let same_count : count_if (is_live t) s ≡ count_if (is_live t) a =
      count_if-live t s ∙ ap (count_if (is_live t)) g'.same ∙ sym (count_if-live t a) in
    rw (count_lem t s) (
      ap counted same_count,
      record {
        unique = Unique-keep (is_live t) s g'.unique;
        same = live-later t t s (omega arith) ∙ g'.same;
      },
    )
call-Follows now (revoke_call token) s a h g = (refl, Agree-remove now token s a g)
call-Follows now revoke_all_call s a h g = (refl, record { unique = tt; same = refl })

answers_follow :
    (now : ℕ) (cs : List Call) (s a : Sessions)
    → InOrder now cs
    → Agree now s a
    → answers cs s ≡ eager_answers cs a
unfolding answers
answers_follow now [] s a h g = refl
answers_follow now (c ∷ cs) s a (h, later) g =
    let (same, next) = call-Follows now c s a h g in
    ap₂ (λ x xs. x ∷ xs) same (answers_follow (clock_after now c) cs _ _ later next)

-- For every sequence of calls in which the clock never goes back, a new `SessionStore` gives the
-- answers of the store that never drops an expired session, holds a token valid exactly if a session
-- of it has not expired, and counts the sessions that have not.
pub answers_lem :
    (cs : List Call) → InOrder 0 cs → answers cs new_session_store ≡ eager_answers cs []
answers_lem cs h = answers_follow 0 cs new_session_store [] h (record { unique = tt; same = refl })
