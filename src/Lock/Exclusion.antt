-- ===== src/Lock/Exclusion.antt =====
-- The holders of the lock file of `CycleLock` (src/research/locking.py) over any schedule.
use greenfield.Base.{
  ℕ, zero, suc, ◌+◌, ◌≤◌, true, ◌≡◌, refl, Option, none, some, List, [], ◌∷◌, arith, Option-cases,
}
use greenfield.Lock.{
  Process, idle, found, stealing, retrying, holding, ended, World, is_fresh, call, call_at,
  crash_at, Event, tick, proceeds, crashes, step, run, file_is_fresh, stays_fresh, holds, holders,
  idle_processes,
}

abbrev steals : Process → ℕ
steals stealing = 1
steals _ = 0

stealers : List Process → ℕ
stealers [] = 0
stealers (p ∷ ps) = steals p + stealers ps

abbrev file_held : Option ℕ → ℕ
file_held none = 0
file_held (some t) = 1

-- The holders are at most as many as there are files, and no process is about to unlink the file.
record IsSafe (file : Option ℕ) (ps : List Process) : Type 0 where
  held : holders ps ≤ file_held file
  calm : stealers ps ≡ 0

-- A call of a process that is not stealing, on a file that is not stale.
call-Safe :
    (stale_after now : ℕ) (file : Option ℕ) (p : Process) (others : ℕ)
    → elim file [ none ↦ true | some t ↦ is_fresh stale_after now t ] ≡ true
    → steals p ≡ 0
    → holds p + others ≤ file_held file
    → (holds (call stale_after now file p).0 + others ≤ file_held (call stale_after now file p).1)
      × (steals (call stale_after now file p).0 ≡ 0)
unfolding call
call-Safe s now none idle others fresh calm h = (ground arith, refl)
call-Safe s now (some t) idle others fresh calm h = (ground arith, refl)
call-Safe s now none found others fresh calm h = (ground arith, refl)
call-Safe s now (some t) found others fresh calm h = rw fresh (ground arith, refl)
call-Safe s now file stealing others fresh calm h = absurd (ground arith)
call-Safe s now none retrying others fresh calm h = (ground arith, refl)
call-Safe s now (some t) retrying others fresh calm h = (ground arith, refl)
call-Safe s now none holding others fresh calm h = absurd (ground arith)
call-Safe s now (some t) holding others fresh calm h = (ground arith, refl)
call-Safe s now file ended others fresh calm h = (ground arith, refl)

-- The same of one process in a list, beside `others` holders elsewhere.
call_at-Safe :
    (stale_after now : ℕ) (file : Option ℕ) (i : ℕ) (ps : List Process) (others : ℕ)
    → elim file [ none ↦ true | some t ↦ is_fresh stale_after now t ] ≡ true
    → stealers ps ≡ 0
    → holders ps + others ≤ file_held file
    → (holders (call_at stale_after now file i ps).0 + others
        ≤ file_held (call_at stale_after now file i ps).1)
      × (stealers (call_at stale_after now file i ps).0 ≡ 0)
unfolding call_at holders stealers
call_at-Safe s now file i [] others fresh calm h = (h, refl)
call_at-Safe s now file zero (p ∷ ps) others fresh calm h =
    let (a, b) = call-Safe s now file p (holders ps + others) fresh (ground arith) (ground arith) in
    (ground arith, ground arith)
call_at-Safe s now file (suc i) (p ∷ ps) others fresh calm h =
    let (a, b) =
      call_at-Safe s now file i ps (holds p + others) fresh (ground arith) (ground arith) in
    (ground arith, ground arith)

crash_at-Safe :
    (i : ℕ) (ps : List Process)
    → (holders (crash_at i ps) ≤ holders ps) × (stealers (crash_at i ps) ≤ stealers ps)
unfolding crash_at holders stealers
crash_at-Safe i [] = (omega arith, omega arith)
crash_at-Safe zero (p ∷ ps) = (ground arith, ground arith)
crash_at-Safe (suc i) (p ∷ ps) = let (a, b) = crash_at-Safe i ps in (ground arith, ground arith)

step-IsSafe :
    (stale_after : ℕ) (e : Event) (w : World)
    → file_is_fresh stale_after w ≡ true
    → IsSafe w.file w.processes
    → IsSafe (step stale_after e w).file (step stale_after e w).processes
unfolding step
step-IsSafe s (tick n) w fresh v = v
step-IsSafe s (proceeds i) w fresh v =
    let (a, b) =
      call_at-Safe s w.now w.file i w.processes 0 fresh v.calm (ground (arith, v.held)) in
    record { held = ground arith; calm = b }
step-IsSafe s (crashes i) w fresh v =
    let (a, b) = crash_at-Safe i w.processes in
    record { held = ground (arith, v.held); calm = ground (arith, v.calm) }

run-IsSafe :
    (stale_after : ℕ) (es : List Event) (w : World)
    → stays_fresh stale_after es w ≡ true
    → IsSafe w.file w.processes
    → IsSafe (run stale_after es w).file (run stale_after es w).processes
unfolding run stays_fresh
run-IsSafe s [] w fresh v = v
run-IsSafe s (e ∷ es) w fresh v =
    run-IsSafe s es (step s e w) (ground arith) (step-IsSafe s e w (ground arith) v)

idle_processes-IsSafe : (n : ℕ) → IsSafe none (idle_processes n)
unfolding idle_processes holders stealers
idle_processes-IsSafe zero = record { held = omega arith; calm = refl }
idle_processes-IsSafe (suc n) =
    let v = idle_processes-IsSafe n in
    record { held = ground (arith, v.held); calm = ground (arith, v.calm) }

-- Among any number of processes that begin with no lock file, whatever their order of system calls
-- and whichever of them crash, at most one holds the lock, as long as the lock file never becomes
-- stale.
pub run-holders :
    (stale_after count now : ℕ) (es : List Event)
    → stays_fresh stale_after es
        (record { now = now; file = none; processes = idle_processes count })
      ≡ true
    → holders
        (run stale_after es
          (record { now = now; file = none; processes = idle_processes count })).processes
      ≤ 1
run-holders s count now es fresh =
    let v = run-IsSafe s es _ fresh (idle_processes-IsSafe count) in
    ground (
      arith,
      v.held,
      Option-cases
          (run s es (record { now = now; file = none; processes = idle_processes count })).file,
    )
