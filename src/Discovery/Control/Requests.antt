-- ===== src/Discovery/Control/Requests.antt =====
-- A request for a scan is not lost (internal/discovery/scanner.go, `Run` and the triggers).
use network_enumerator.Common.{
  ◌≡◌, refl, ◌∙◌, subst, ◌⊎◌, inl, inr, Bool, true, false, List, [], ◌∷◌, ◌++◌, Bool-cases,
}
use network_enumerator.Discovery.Method.{ScanMode, regular, quick, mass, deep, reverse_dns}
use network_enumerator.Discovery.Control.{
  Scanner, ScanStatus, Phase, choosing, returned, queued, set_queued, trigger_scan, begin_cycle,
  finish_cycle, Step, triggers, ticks, takes, finishes, cancels, abandons, returns, Steps, here,
  next,
}

-- Some of the cycles has the mode.
abbrev pub HasBegun : ScanMode → List ScanMode → Type 0
HasBegun mode [] = ⊥
HasBegun mode (m ∷ begun) = (m ≡ mode) ⊎ HasBegun mode begun

queued-set_queued :
    (m m' : ScanMode) (b : Bool) (s : Scanner)
    → (m ≡ m') ⊎ (queued m' (set_queued m b s) ≡ queued m' s)
queued-set_queued regular regular b s = inl refl
queued-set_queued quick quick b s = inl refl
queued-set_queued mass mass b s = inl refl
queued-set_queued deep deep b s = inl refl
queued-set_queued reverse_dns reverse_dns b s = inl refl
queued-set_queued _ _ b s = inr refl

pub queued-set_self : (m : ScanMode) (b : Bool) (s : Scanner) → queued m (set_queued m b s) ≡ b
queued-set_self regular b s = refl
queued-set_self quick b s = refl
queued-set_self mass b s = refl
queued-set_self deep b s = refl
queued-set_self reverse_dns b s = refl

-- The queues are no part of the status, of the place in the loop, and of the context.
pub queued_elsewhere :
    (m : ScanMode) (s : Scanner) (status : ScanStatus) (phase : Phase) (cancelled : Bool)
    → queued m (record s { status = status; phase = phase; cancelled = cancelled }) ≡ queued m s
queued_elsewhere regular s status phase cancelled = refl
queued_elsewhere quick s status phase cancelled = refl
queued_elsewhere mass s status phase cancelled = refl
queued_elsewhere deep s status phase cancelled = refl
queued_elsewhere reverse_dns s status phase cancelled = refl

queued-trigger_scan :
    (m m' : ScanMode) (s : Scanner) → queued m' s ≡ true → queued m' (trigger_scan m s) ≡ true
unfolding trigger_scan
queued-trigger_scan m m' s h = elim (Bool-cases (queued m s)) [
  | inl c ↦ rw c h
  | inr c ↦ rw c (elim (queued-set_queued m m' true s) [
    | inl same ↦ subst (λ k. queued k (set_queued m true s) ≡ true) same (queued-set_self m true s)
    | inr other ↦ other ∙ h
  ])
]

Step-queued :
    (m : ScanMode) (begun : List ScanMode) (s t : Scanner)
    → Step begun s t
    → queued m s ≡ true
    → (queued m t ≡ true) ⊎ HasBegun m begun
unfolding begin_cycle finish_cycle
Step-queued m _ _ _ (triggers mode s) h = inl (queued-trigger_scan mode m s h)
Step-queued m _ _ _ (ticks now s at) h =
    let t = begin_cycle now regular s in inl (queued_elsewhere m s t.status t.phase t.cancelled ∙ h)
Step-queued m _ _ _ (takes now mode s at ready) h = elim (queued-set_queued mode m false s) [
  | inl same ↦ inr (inl same)
  | inr other ↦
      let t = begin_cycle now mode (set_queued mode false s) in
      inl (queued_elsewhere m (set_queued mode false s) t.status t.phase t.cancelled ∙ other ∙ h)
]
Step-queued m _ _ _ (finishes now total mode s at) h =
    let t = finish_cycle now total s in inl (queued_elsewhere m s t.status t.phase t.cancelled ∙ h)
Step-queued m _ _ _ (cancels s) h = inl (queued_elsewhere m s s.status s.phase true ∙ h)
Step-queued m _ _ _ (abandons mode s at done) h =
    inl (queued_elsewhere m s s.status choosing s.cancelled ∙ h)
Step-queued m _ _ _ (returns s at done) h =
    inl (queued_elsewhere m s s.status returned s.cancelled ∙ h)

HasBegun-left : (m : ScanMode) (xs ys : List ScanMode) → HasBegun m xs → HasBegun m (xs ++ ys)
HasBegun-left m [] ys h = elim h [ ]
HasBegun-left m (x ∷ xs) ys (inl e) = inl e
HasBegun-left m (x ∷ xs) ys (inr h) = inr (HasBegun-left m xs ys h)

HasBegun-right : (m : ScanMode) (xs ys : List ScanMode) → HasBegun m ys → HasBegun m (xs ++ ys)
HasBegun-right m [] ys h = h
HasBegun-right m (x ∷ xs) ys h = inr (HasBegun-right m xs ys h)

-- A queued request for a scan is not lost: after any steps it is still queued, or a cycle in its mode
-- has begun.
pub Steps-queued :
    (m : ScanMode) (begun : List ScanMode) (s t : Scanner)
    → Steps begun s t
    → queued m s ≡ true
    → (queued m t ≡ true) ⊎ HasBegun m begun
Steps-queued m _ _ _ (here s) h = inl h
Steps-queued m _ _ _ (next begun modes s t u steps step) h =
    elim (Steps-queued m begun s t steps h) [
      | inr done ↦ inr (HasBegun-right m modes begun done)
      | inl still ↦ elim (Step-queued m modes t u step still) [
        | inl yet ↦ inl yet
        | inr now ↦ inr (HasBegun-left m modes begun now)
      ]
    ]
