-- ===== src/Discovery/Control/Serving.antt =====
-- What `Status` shows, and that a request for a scan can be served (internal/discovery/scanner.go).
use network_enumerator.Common.{
  ◌≢◌, ◌⊎◌, ℕ, ◌≡◌, refl, ◌∙◌, Bool, true, false, List, [], ◌∷◌, Bool-cases, inl, inr,
}
use network_enumerator.Discovery.Method.{ScanMode, regular, quick, mass, deep, reverse_dns}
use network_enumerator.Discovery.Control.{
  Scanner, Phase, choosing, scanning, returned, queued, set_queued, trigger_scan, begin_cycle,
  finish_cycle, Step, triggers, ticks, takes, finishes, cancels, abandons, returns, Steps, here,
  next, first_cycle,
}
use network_enumerator.Discovery.Control.Requests.{queued-set_self, queued_elsewhere}

abbrev pub is_scanning : Phase → Bool
is_scanning (scanning mode) = true
is_scanning _ = false

-- The mode of the cycle that is open; `regular`, which is "", if none is.
abbrev pub open_mode : Phase → ScanMode
open_mode (scanning mode) = mode
open_mode _ = regular

-- As long as the context is not done: the loop goes on, and the status tells of the cycle that is open.
abbrev pub Tells : Scanner → Type 0
Tells s =
    s.cancelled ≡ false
    → (s.phase ≢ returned)
      × (s.status.running ≡ is_scanning s.phase)
      × (s.status.mode ≡ open_mode s.phase)

-- The fields that a trigger leaves alone.
set_queued_elsewhere :
    (m : ScanMode) (b : Bool) (s : Scanner)
    → ((set_queued m b s).phase ≡ s.phase)
      × ((set_queued m b s).status ≡ s.status)
      × ((set_queued m b s).cancelled ≡ s.cancelled)
set_queued_elsewhere regular b s = (refl, refl, refl)
set_queued_elsewhere quick b s = (refl, refl, refl)
set_queued_elsewhere mass b s = (refl, refl, refl)
set_queued_elsewhere deep b s = (refl, refl, refl)
set_queued_elsewhere reverse_dns b s = (refl, refl, refl)

trigger_scan-Tells : (m : ScanMode) (s : Scanner) → Tells s → Tells (trigger_scan m s)
unfolding trigger_scan
trigger_scan-Tells m s t = elim (Bool-cases (queued m s)) [
  | inl c ↦ rw c t
  | inr c ↦ rw c (let (p, q, r) = set_queued_elsewhere m true s in rw (p, q, r) t)
]

Step-Tells : (begun : List ScanMode) (s t : Scanner) → Step begun s t → Tells s → Tells t
unfolding begin_cycle finish_cycle
Step-Tells _ _ _ (triggers mode s) h = trigger_scan-Tells mode s h
Step-Tells _ _ _ (ticks now s at) h = λ on. (λ e. cc, refl, refl)
Step-Tells _ _ _ (takes now mode s at ready) h = λ on. (λ e. cc, refl, refl)
Step-Tells _ _ _ (finishes now total mode s at) h = λ on. (λ e. cc, refl, refl)
Step-Tells _ _ _ (cancels s) h = λ on. cc
Step-Tells _ _ _ (abandons mode s at done) h = λ on. cc
Step-Tells _ _ _ (returns s at done) h = λ on. cc

Steps-Tells : (begun : List ScanMode) (s t : Scanner) → Steps begun s t → Tells s → Tells t
Steps-Tells _ _ _ (here s) h = h
Steps-Tells _ _ _ (next begun modes s t u steps step) h =
    Step-Tells modes t u step (Steps-Tells begun s t steps h)

-- In every state that the loop of `Run` reaches before its context is done: the loop has not ended,
-- and the status says that a cycle is running, and in which mode, exactly if one is open.
pub status_lem :
    (interval now : ℕ) (begun : List ScanMode) (s : Scanner)
    → Steps begun (first_cycle interval now) s
    → s.cancelled ≡ false
    → (s.phase ≢ returned)
      × (s.status.running ≡ is_scanning s.phase)
      × (s.status.mode ≡ open_mode s.phase)
unfolding begin_cycle
status_lem interval now begun s steps on =
    Steps-Tells begun (first_cycle interval now) s steps (λ on. (λ e. cc, refl, refl)) on

Phase-cases : (p : Phase) → (p ≡ choosing) ⊎ (((m : ScanMode) × (p ≡ scanning m)) ⊎ (p ≡ returned))
Phase-cases choosing = inl refl
Phase-cases (scanning m) = inr (inl (m, refl))
Phase-cases returned = inr (inr refl)

queued-trigger_self : (m : ScanMode) (s : Scanner) → queued m (trigger_scan m s) ≡ true
unfolding trigger_scan
queued-trigger_self m s = elim (Bool-cases (queued m s)) [
  | inl c ↦ rw c c
  | inr c ↦ rw c (queued-set_self m true s)
]

phase-trigger_scan : (m : ScanMode) (s : Scanner) → (trigger_scan m s).phase ≡ s.phase
unfolding trigger_scan
phase-trigger_scan m s = elim (Bool-cases (queued m s)) [
  | inl c ↦ rw c refl
  | inr c ↦ rw c (set_queued_elsewhere m true s).0
]

-- Where a cycle in the mode can be begun in a few steps.
Serves : ScanMode → Scanner → Type 0
Serves m s =
    (begun : List ScanMode) × (t : Scanner) × Steps begun s t
    × (t.phase ≡ scanning m)
    × (queued m t ≡ false)

taken :
    (m : ScanMode) (now : ℕ) (s : Scanner)
    → queued m (begin_cycle now m (set_queued m false s)) ≡ false
unfolding begin_cycle
taken m now s =
    let t = begin_cycle now m (set_queued m false s) in
    queued_elsewhere m (set_queued m false s) t.status t.phase t.cancelled
    ∙ queued-set_self m false s

choosing-Serves :
    (m : ScanMode) (now : ℕ) (s : Scanner) → s.phase ≡ choosing → queued m s ≡ true → Serves m s
unfolding Serves begin_cycle
choosing-Serves m now s at ready = (
  m ∷ [],
  begin_cycle now m (set_queued m false s),
  next [] (m ∷ []) s s _ (here s) (takes now m s at ready),
  refl,
  taken m now s,
)

scanning-Serves :
    (m k : ScanMode) (now : ℕ) (s : Scanner) → s.phase ≡ scanning k → queued m s ≡ true → Serves m s
unfolding Serves begin_cycle finish_cycle
scanning-Serves m k now s at ready =
    let t = finish_cycle now 0 s in
    let ready' = queued_elsewhere m s t.status t.phase t.cancelled ∙ ready in
    (
      m ∷ [],
      begin_cycle now m (set_queued m false t),
      next [] (m ∷ []) s t _ (next [] [] s s t (here s) (finishes now 0 k s at))
          (takes now m t refl ready'),
      refl,
      taken m now t,
    )

-- In every state that the loop of `Run` reaches before its context is done, a request for a scan can
-- be served: there are steps from the trigger to a cycle in its mode that empties its queue.
pub trigger_scan-IsServed :
    (interval now : ℕ) (begun : List ScanMode) (s : Scanner) (m : ScanMode)
    → Steps begun (first_cycle interval now) s
    → s.cancelled ≡ false
    → (modes : List ScanMode) × (t : Scanner) × Steps modes (trigger_scan m s) t
      × (t.phase ≡ scanning m)
      × (queued m t ≡ false)
unfolding Serves
trigger_scan-IsServed interval now begun s m steps on =
    let ready = queued-trigger_self m s in
    let place = phase-trigger_scan m s in
    elim (Phase-cases s.phase) [
      | inl at ↦ choosing-Serves m now (trigger_scan m s) (place ∙ at) ready
      | inr (inl (k, at)) ↦ scanning-Serves m k now (trigger_scan m s) (place ∙ at) ready
      | inr (inr at) ↦ elim ((status_lem interval now begun s steps on).0 at) [ ]
    ]
