-- ===== src/Store/Version/Order.antt =====
-- The order of internal/store/version.go: the first component that differs decides.
use network_enumerator.Common.{
  ℕ, zero, suc, ◌+◌, ◌≤◌, ◌<◌, ◌≡◌, ◌≢◌, refl, sym, ◌∙◌, subst, ◌↔◌, true, false, ◌||◌, List, [],
  ◌∷◌, ltb, ◌==◌, Text, length, arith, Bool-cases, inl, inr, ==_iff, ltb→lt, lt→ltb,
}
use network_enumerator.Store.Version.{component, less_from, version_less, version_numbers}

-- Up to `j`, from `i` on, the components agree, and at `j` the left one is smaller.
abbrev pub SmallerFrom : ℕ → List ℕ → List ℕ → Type 0
SmallerFrom i an bn =
    (j : ℕ) × (i ≤ j)
    × ((k : ℕ) → i ≤ k → k < j → component an k ≡ component bn k)
    × (component an j < component bn j)

component_past : (xs : List ℕ) (i : ℕ) → length xs ≤ i → component xs i ≡ 0
component_past [] i h = refl
component_past (x ∷ xs) zero h = omega arith
component_past (x ∷ xs) (suc i) h = component_past xs i (omega arith)

component_in : (xs : List ℕ) (i : ℕ) → 0 < component xs i → i < length xs
component_in [] i h = omega arith
component_in (x ∷ xs) zero h = omega arith
component_in (x ∷ xs) (suc i) h = omega (arith, component_in xs i h)

-- What holds at `i` and from `suc i` on holds from `i` on.
from_next : (P : ℕ → Type 0) (i k : ℕ) → P i → (suc i ≤ k → P k) → i ≤ k → P k
from_next P i k here later low = elim (Bool-cases (i == k)) [
  | inl e ↦ subst P ((==_iff i k).0 e) here
  | inr e ↦ later (ground arith)
]

neither :
    (an bn : List ℕ) (i j : ℕ)
    → component an i ≡ component bn i
    → component an j < component bn j
    → i ≢ j
neither an bn i j same less e =
    let same' : component an j ≡ component bn j =
      subst (λ x. component an x ≡ component bn x) e same in
    omega arith

differs :
    (an bn : List ℕ) (i j : ℕ)
    → i ≤ j
    → ((k : ℕ) → i ≤ k → k < j → component an k ≡ component bn k)
    → component an j < component bn j
    → component an i ≢ component bn i
    → component an i < component bn i
differs an bn i j le same less apart = elim (Bool-cases (i == j)) [
  | inl e ↦ subst (λ x. component an x < component bn x) (sym ((==_iff i j).0 e)) less
  | inr e ↦
      let here : component an i ≡ component bn i = same i (omega arith) (ground arith) in
      omega arith
]

less_from→ : (fuel i : ℕ) (an bn : List ℕ) → less_from fuel i an bn ≡ true → SmallerFrom i an bn
unfolding less_from
less_from→ zero i an bn h = cc
less_from→ (suc fuel) i an bn h = elim (Bool-cases (ltb i (length an) || ltb i (length bn))) [
  | inr c ↦ cc (rw c at h)
  | inl c ↦ elim (Bool-cases (component an i == component bn i)) [
    | inl e ↦
        let later : less_from fuel (suc i) an bn ≡ true = rw (c, e) at h in
        let (j, le, same, less) = less_from→ fuel (suc i) an bn later in
        let here : component an i ≡ component bn i = (==_iff _ _).0 e in
        (
          j,
          omega arith,
          (λ k low high.
              from_next (λ k. k < j → component an k ≡ component bn k) i k (λ _. here)
                (λ low' high'. same k low' high') low high),
          less,
        )
    | inr e ↦
        let now : ltb (component an i) (component bn i) ≡ true = rw (c, e) at h in
        (i, omega arith, (λ k low high. omega arith), ltb→lt _ _ now)
  ]
]

less_from← :
    (fuel i : ℕ) (an bn : List ℕ)
    → length an + length bn ≤ fuel + i
    → SmallerFrom i an bn
    → less_from fuel i an bn ≡ true
unfolding less_from
less_from← zero i an bn enough (j, le, same, less) =
    let inside : j < length bn = component_in bn j (omega arith) in
    let no : ⊥ = omega arith in elim no [ ]
less_from← (suc fuel) i an bn enough (j, le, same, less) =
    let inside : j < length bn = component_in bn j (omega arith) in
    let more : (ltb i (length an) || ltb i (length bn)) ≡ true = ground arith in
    elim (Bool-cases (component an i == component bn i)) [
      | inl e ↦
          let here : component an i ≡ component bn i = (==_iff _ _).0 e in
          let apart : i ≢ j = λ i_is_j. neither an bn i j here less i_is_j in
          rw (more, e)
            (less_from← fuel (suc i) an bn (omega arith)
              (j, omega arith, (λ k low high. same k (omega arith) high), less))
      | inr e ↦
          let apart : component an i ≢ component bn i = ground arith in
          rw (more, e) (lt→ltb _ _ (differs an bn i j le same less apart))
    ]

-- One version is below another exactly if there is a place at which its component is smaller and
-- before which all components agree, a missing component being 0.
pub version_less_iff :
    (a b : Text) → (version_less a b ≡ true) ↔ SmallerFrom 0 (version_numbers a) (version_numbers b)
unfolding version_less
version_less_iff a b =
    let an = version_numbers a in
    let bn = version_numbers b in
    (
      less_from→ (length an + length bn) 0 an bn,
      less_from← (length an + length bn) 0 an bn (omega arith),
    )

SmallerFrom-trans :
    (xs ys zs : List ℕ) → SmallerFrom 0 xs ys → SmallerFrom 0 ys zs → SmallerFrom 0 xs zs
SmallerFrom-trans xs ys zs (i, _, same, less) (j, _, same', less') = elim (Bool-cases (ltb i j)) [
  | inl c ↦
      let lt : i < j = ltb→lt i j c in
      let at = same' i (omega arith) lt in
      (i, omega arith, (λ k low high. same k low high ∙ same' k low (omega arith)), omega arith)
  | inr c ↦ elim (Bool-cases (ltb j i)) [
    | inl c' ↦
        let lt : j < i = ltb→lt j i c' in
        let at = same j (omega arith) lt in
        (j, omega arith, (λ k low high. same k low (omega arith) ∙ same' k low high), omega arith)
    | inr c' ↦
        let at : i ≡ j = ground arith in
        let less_at : component ys i < component zs i =
          subst (λ x. component ys x < component zs x) (sym at) less' in
        (i, omega arith, (λ k low high. same k low high ∙ same' k low (omega arith)), omega arith)
  ]
]

-- The order of versions is strict: no version is below itself, and it is transitive.
pub version_less-IsStrict :
    (a b c : Text)
    → (version_less a a ≡ false)
      × (version_less a b ≡ true → version_less b c ≡ true → version_less a c ≡ true)
version_less-IsStrict a b c = (
  (elim (Bool-cases (version_less a a)) [
    | inr e ↦ e
    | inl e ↦
        let (i, _, _, less) = (version_less_iff a a).0 e in let no : ⊥ = omega arith in elim no [ ]
  ]),
  λ ab bc.
      (version_less_iff a c).1
        (SmallerFrom-trans _ _ _ ((version_less_iff a b).0 ab) ((version_less_iff b c).0 bc)),
)
