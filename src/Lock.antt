-- ===== src/Lock.antt =====
-- `CycleLock` (src/research/locking.py): processes that share one lock file, each of which runs
-- `acquire` and `release` one system call at a time.
pub mod Exclusion
mod Tests
use greenfield.Base.{
  ℕ, zero, suc, ◌+◌, ◌-◌, ltb, Bool, true, false, ◌&&◌, Option, none, some, List, [], ◌∷◌,
  if◌then◌else◌,
}

-- Where a process stands: before `acquire`; after `os.open` has found the file; in `_steal_if_stale`,
-- about to unlink a file that it takes for stale; before the second `os.open`; with the lock; and
-- after an exception or a crash.
pub data Process : Type 0 where
  idle found stealing retrying holding ended : Process

-- The file is its `st_mtime`, if it exists.
pub record World : Type 0 where
  pub now : ℕ
  pub file : Option ℕ
  pub processes : List Process

-- `age_seconds < self.stale_after_seconds`
abbrev pub is_fresh : (stale_after now written : ℕ) → Bool
is_fresh stale_after now written = ltb (now - written) stale_after

-- the next system call of a process, and the file after it
unfoldable pub call : (stale_after now : ℕ) → Option ℕ → Process → Process × Option ℕ
call stale_after now none idle = (holding, some now)
call stale_after now (some t) idle = (found, some t)
call stale_after now none found = (retrying, none)
call stale_after now (some t) found =
    if is_fresh stale_after now t then (ended, some t) else (stealing, some t)
call stale_after now file stealing = (retrying, none)
call stale_after now none retrying = (holding, some now)
call stale_after now (some t) retrying = (ended, some t)
call stale_after now file holding = (idle, none)
call stale_after now file ended = (ended, file)

unfoldable pub call_at :
    (stale_after now : ℕ) → Option ℕ → ℕ → List Process → List Process × Option ℕ
unfolding call
call_at stale_after now file i [] = ([], file)
call_at stale_after now file zero (p ∷ ps) = let (q, f) = call stale_after now file p in (q ∷ ps, f)
call_at stale_after now file (suc i) (p ∷ ps) =
    let (qs, f) = call_at stale_after now file i ps in (p ∷ qs, f)

unfoldable pub crash_at : ℕ → List Process → List Process
crash_at i [] = []
crash_at zero (p ∷ ps) = ended ∷ ps
crash_at (suc i) (p ∷ ps) = p ∷ crash_at i ps

-- Time passes, a process makes its next call, or it ends without `release`.
pub data Event : Type 0 where
  tick : ℕ → Event
  proceeds crashes : ℕ → Event

unfoldable pub step : ℕ → Event → World → World
unfolding call_at crash_at
step stale_after (tick n) w = record w { now = w.now + n }
step stale_after (proceeds i) w =
    let (ps, f) = call_at stale_after w.now w.file i w.processes in
    record w { processes = ps; file = f }
step stale_after (crashes i) w = record w { processes = crash_at i w.processes }

unfoldable pub run : ℕ → List Event → World → World
unfolding step
run stale_after [] w = w
run stale_after (e ∷ es) w = run stale_after es (step stale_after e w)

abbrev pub file_is_fresh : ℕ → World → Bool
file_is_fresh stale_after w = elim w.file [ none ↦ true | some t ↦ is_fresh stale_after w.now t ]

-- whether the lock file is never stale while the events happen
unfoldable pub stays_fresh : ℕ → List Event → World → Bool
unfolding step
stays_fresh stale_after [] w = file_is_fresh stale_after w
stays_fresh stale_after (e ∷ es) w =
    file_is_fresh stale_after w && stays_fresh stale_after es (step stale_after e w)

-- how many processes hold the lock
abbrev pub holds : Process → ℕ
holds holding = 1
holds _ = 0

unfoldable pub holders : List Process → ℕ
holders [] = 0
holders (p ∷ ps) = holds p + holders ps

-- `count` processes that have not begun
unfoldable pub idle_processes : ℕ → List Process
idle_processes zero = []
idle_processes (suc n) = idle ∷ idle_processes n
