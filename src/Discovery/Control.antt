-- ===== src/Discovery/Control.antt =====
-- internal/discovery/scanner.go: the loop `Run` with its queues, as a step relation. A queue holds one
-- request. A cycle is open from the first lines of `runOnce` to its last ones, or to the return on a
-- context that is done; `Discovery.Run` has what it does to the database.
pub mod Requests
pub mod Serving
use network_enumerator.Common.{
  ℕ, ◌≡◌, ◌++◌, Bool, true, false, Option, none, some, List, [], ◌∷◌, if◌then◌else◌,
}
use network_enumerator.Discovery.Method.{ScanMode, regular, quick, mass, deep, reverse_dns}

pub record ScanStatus : Type 0 where
  pub running : Bool
  pub mode : ScanMode
  pub last_started : Option ℕ
  pub last_finished : Option ℕ
  pub interval_sec : ℕ
  pub hosts_scanned : ℕ

-- Where the goroutine of `Run` stands: at its `select`, in `runOnce`, or past its end.
pub data Phase : Type 0 where
  choosing : Phase
  scanning : ScanMode → Phase
  returned : Phase

-- The queues of `Scanner`, its status, and the context of `Run`.
pub record Scanner : Type 0 where
  pub status : ScanStatus
  pub trigger : Bool
  pub trigger_quick : Bool
  pub trigger_mass : Bool
  pub trigger_deep : Bool
  pub trigger_reverse : Bool
  pub phase : Phase
  pub cancelled : Bool

abbrev pub new_scanner : ℕ → Scanner
new_scanner interval_sec = record {
  status = record {
    running = false;
    mode = regular;
    last_started = none;
    last_finished = none;
    interval_sec = interval_sec;
    hosts_scanned = 0;
  };
  trigger = false;
  trigger_quick = false;
  trigger_mass = false;
  trigger_deep = false;
  trigger_reverse = false;
  phase = choosing;
  cancelled = false;
}

-- The queue of each mode.
abbrev pub queued : ScanMode → Scanner → Bool
queued regular s = s.trigger
queued quick s = s.trigger_quick
queued mass s = s.trigger_mass
queued deep s = s.trigger_deep
queued reverse_dns s = s.trigger_reverse

abbrev pub set_queued : ScanMode → Bool → Scanner → Scanner
set_queued regular b s = record s { trigger = b }
set_queued quick b s = record s { trigger_quick = b }
set_queued mass b s = record s { trigger_mass = b }
set_queued deep b s = record s { trigger_deep = b }
set_queued reverse_dns b s = record s { trigger_reverse = b }

-- `TriggerNow`, `TriggerQuickScanAll` and so on: nothing happens if a request is queued already.
unfoldable pub trigger_scan : ScanMode → Scanner → Scanner
trigger_scan mode s = if queued mode s then s else set_queued mode true s

-- The first lines of `runOnce`.
unfoldable pub begin_cycle : ℕ → ScanMode → Scanner → Scanner
begin_cycle now mode s = record s {
  status = record (s.status) {
    running = true;
    mode = mode;
    last_started = some now;
    hosts_scanned = 0;
  };
  phase = scanning mode;
}

-- Its last lines.
unfoldable pub finish_cycle : ℕ → ℕ → Scanner → Scanner
finish_cycle now total s = record s {
  status = record (s.status) {
    running = false;
    mode = regular;
    last_finished = some now;
    hosts_scanned = total;
  };
  phase = choosing;
}

-- The steps, with the cycles that they begin. A `select` may take any case that is ready.
pub data Step : List ScanMode → Scanner → Scanner → Type 0 where
  triggers : (mode : ScanMode) (s : Scanner) → Step [] s (trigger_scan mode s)
  ticks :
      (now : ℕ) (s : Scanner)
      → s.phase ≡ choosing
      → Step (regular ∷ []) s (begin_cycle now regular s)
  takes :
      (now : ℕ) (mode : ScanMode) (s : Scanner)
      → s.phase ≡ choosing
      → queued mode s ≡ true
      → Step (mode ∷ []) s (begin_cycle now mode (set_queued mode false s))
  finishes :
      (now total : ℕ) (mode : ScanMode) (s : Scanner)
      → s.phase ≡ scanning mode
      → Step [] s (finish_cycle now total s)
  cancels : (s : Scanner) → Step [] s (record s { cancelled = true })
  abandons :
      (mode : ScanMode) (s : Scanner)
      → s.phase ≡ scanning mode
      → s.cancelled ≡ true
      → Step [] s (record s { phase = choosing })
  returns :
      (s : Scanner)
      → s.phase ≡ choosing
      → s.cancelled ≡ true
      → Step [] s (record s { phase = returned })

-- What a run of steps leads to, with the cycles begun in it, the last one first.
pub data Steps : List ScanMode → Scanner → Scanner → Type 0 where
  here : (s : Scanner) → Steps [] s s
  next :
      (begun modes : List ScanMode) (s t u : Scanner)
      → Steps begun s t
      → Step modes t u
      → Steps (modes ++ begun) s u

-- `Run` begins with a cycle of its own.
abbrev pub first_cycle : ℕ → ℕ → Scanner
first_cycle interval_sec now = begin_cycle now regular (new_scanner interval_sec)
