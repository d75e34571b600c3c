-- ===== src/Supervisor/Tests.antt =====
-- The supervisor with an attempt that fails and one that succeeds.
use greenfield.Base.{ℕ, zero, suc, ◌+◌, none, String, [], ◌∷◌, ◌≡◌, refl, ℤ, pos, arith, ◌≤◌}
use greenfield.Portfolio.Sample.{whole_numbers}
use greenfield.Supervisor.{
  SessionState, SupervisorConfig, Outcome, returns, raises, returned, first_state, run,
}
use greenfield.Supervisor.Ends.{Ended, run-Ended, run-returned}

abbrev config : SupervisorConfig ℤ
config = record {
  max_restarts = 1;
  backoff_seconds = pos 30;
  backoff_multiplier = pos 2;
  max_backoff_seconds = pos 900;
}

abbrev flaky : ℕ → Outcome ℕ
flaky zero = raises "disconnected"
flaky (suc n) = returns none

abbrev clock : ℕ → String
clock n = "2026-01-01"

abbrev fresh : SessionState ℕ
fresh = first_state "s1" "2026-01-01" none

run-Ended_example :
    Ended config flaky clock 2
      (record { state = fresh; file = fresh; sleeps = []; attempts = 0 })
      (run config flaky clock "s1" "2026-01-01" none)
unfolding first_state
run-Ended_example = run-Ended config flaky clock "s1" "2026-01-01" none

run-returned_example :
    (s : SessionState ℕ) × ((run config flaky clock "s1" "2026-01-01" none).0 ≡ returned s)
    × (s.restart_count ≤ fresh.restart_count + 1)
unfolding first_state
run-returned_example =
    run-returned config flaky clock "s1" "2026-01-01" none 1 none refl (omega arith)

slept : (run config flaky clock "s1" "2026-01-01" none).1.sleeps ≡ pos 30 ∷ []
unfolding run
slept = refl
