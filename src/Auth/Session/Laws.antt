-- ===== src/Auth/Session/Laws.antt =====
-- Lists filtered twice, and lists of sessions in which every token is unique.
use network_enumerator.Common.{
  ℕ, ◌≡◌, refl, sym, Bool, true, false, ◌&&◌, not, none, some, List, [], ◌∷◌, ltb, Text,
  text_eq_iff, keep, any, find_if, arith, Bool-cases, inl, inr,
}
use network_enumerator.Auth.Session.{Sessions, is_for, remove, put}

-- An entry that has not expired: not `now.After(exp)`.
abbrev pub is_live : ℕ → Text × ℕ → Bool
is_live now e = not (ltb e.1 now)

-- What counts of a map at a time.
abbrev pub live : ℕ → Sessions → Sessions
live now s = keep (is_live now) s

abbrev pub Unique : Sessions → Type 0
Unique [] = Unit
Unique (e ∷ s) = (any (is_for e.0) s ≡ false) × Unique s

module _ {A : Type 0} (p q : A → Bool) where
  pub keep-keep : (xs : List A) → keep p (keep q xs) ≡ keep q (keep p xs)
  keep-keep [] = refl
  keep-keep (x ∷ xs) = ground (arith, keep-keep xs)

  pub keep-absorb :
      (xs : List A) → ((x : A) → p x ≡ true → q x ≡ true) → keep p (keep q xs) ≡ keep p xs
  keep-absorb [] h = refl
  keep-absorb (x ∷ xs) h = ground (arith, keep-absorb xs h, h x)

  pub any-keep : (xs : List A) → any p (keep q xs) ≡ any (λ x. p x && q x) xs
  any-keep [] = refl
  any-keep (x ∷ xs) = ground (arith, any-keep xs)

  pub any-keep-none : (xs : List A) → any p xs ≡ false → any p (keep q xs) ≡ false
  any-keep-none [] h = refl
  any-keep-none (x ∷ xs) h = ground (arith, any-keep-none xs)

pub keep-all :
    {A : Type 0} (p : A → Bool) (xs : List A) → any p xs ≡ false → keep (λ x. not (p x)) xs ≡ xs
keep-all p [] h = refl
keep-all p (x ∷ xs) h = ground (arith, keep-all p xs)

any-removed : (token : Text) (s : Sessions) → any (is_for token) (remove token s) ≡ false
any-removed token [] = refl
any-removed token (e ∷ s) = ground (arith, any-removed token s)

pub Unique-keep : (p : Text × ℕ → Bool) (s : Sessions) → Unique s → Unique (keep p s)
Unique-keep p [] u = tt
Unique-keep p (e ∷ s) (new, u) = elim (Bool-cases (p e)) [
  | inl c ↦ rw c (any-keep-none (is_for e.0) p s new, Unique-keep p s u)
  | inr c ↦ rw c (Unique-keep p s u)
]

pub Unique-put : (token : Text) (exp : ℕ) (s : Sessions) → Unique s → Unique (put token exp s)
Unique-put token exp s u = (any-removed token s, Unique-keep (λ e. not (is_for token e)) s u)

-- Where tokens are unique, the entry that is found decides whether a live one exists.
pub live_at_none :
    (token : Text) (now : ℕ) (s : Sessions)
    → find_if (is_for token) s ≡ none
    → any (is_for token) (live now s) ≡ false
live_at_none token now [] h = refl
live_at_none token now (e ∷ s) h = ground (arith, live_at_none token now s)

pub live_at_some :
    (token : Text) (now : ℕ) (s : Sessions) (e : Text × ℕ)
    → Unique s
    → find_if (is_for token) s ≡ some e
    → any (is_for token) (live now s) ≡ is_live now e
live_at_some token now [] e u h = cc
live_at_some token now (f ∷ s) e (new, u) h = elim (Bool-cases (is_for token f)) [
  | inr c ↦
      let found : find_if (is_for token) s ≡ some e = rw c at h in
      let rest = live_at_some token now s e u found in ground arith
  | inl c ↦
      let this : some f ≡ some e = rw c at h in
      let same : f.0 ≡ token = (text_eq_iff f.0 token).0 c in
      let none_later : any (is_for token) (live now s) ≡ false =
        any-keep-none (is_for token) (is_live now) s (rw same at new) in
      let same_entry : f ≡ e = cc in
      rw (sym same_entry)
        (elim (Bool-cases (is_live now f)) [ inl k ↦ rw (k, c) refl | inr k ↦ rw k none_later ])
]
