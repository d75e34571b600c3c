-- ===== src/Supervisor/Ends.antt =====
-- How the restart loop of `PaperSessionSupervisor` ends (src/execution/supervisor.py).
use greenfield.Base.{
  ℕ, zero, suc, ◌+◌, ◌-◌, ◌≤◌, ltb, true, false, Option, none, String, [], ◌∷◌, ◌++◌, if◌then◌else◌,
  ◌≡◌, ◌≢◌, refl, ap, ◌∙◌, arith, Floats, Bool-cases, inl, inr, ◌⊎◌,
}
use greenfield.Supervisor.{
  SessionState, SupervisorConfig, Outcome, returns, raises, Session, End, returned, exhausted,
  out_of_fuel, saved, next_backoff, attempt_loop, first_state, run, checkpoint, bump_restart,
}

module _ {A S : Type 0} ⦃F : Floats A⦄ (config : SupervisorConfig A) (outcome : ℕ → Outcome S)
    (now : ℕ → String) where
  -- How a loop ends that may still make `left` attempts.
  pub record Ended (left : ℕ) (w : Session A S) (out : End S × Session A S) : Type 0 where
    pub some_end : out.0 ≢ out_of_fuel
    pub attempts : out.1.attempts ≤ w.attempts + left
    pub on_disk : out.1.file ≡ out.1.state

  outcome-cases :
      (o : Outcome S)
      → ((summary : Option S) × (o ≡ returns summary)) ⊎ ((error : String) × (o ≡ raises error))
  outcome-cases (returns summary) = inl (summary, refl)
  outcome-cases (raises error) = inr (error, refl)

  -- After a failed attempt: what is left of the loop is looked at only when a restart is left.
  failed-Ended :
      (left : ℕ) (w failed : Session A S) (rest : End S × Session A S)
      → failed.file ≡ failed.state
      → failed.attempts ≡ w.attempts + 1
      → 1 ≤ left
      → (ltb config.max_restarts failed.state.restart_count ≡ false → Ended left w rest)
      → Ended left w
          (if ltb config.max_restarts failed.state.restart_count then (exhausted, failed) else rest)
  failed-Ended left w failed rest disk one some_left ends =
      elim (Bool-cases (ltb config.max_restarts failed.state.restart_count)) [
        | inl over ↦
            rw over
              (record { some_end = λ h. absurd (cc h); attempts = omega arith; on_disk = disk })
        | inr under ↦ rw under (ends under)
      ]

  -- A failed attempt that is saved, and slept on.
  abbrev pub failed_after : (n : ℕ) → (error : String) → Session A S → Session A S
  unfolding bump_restart
  failed_after n error w = saved config outcome now (bump_restart w.state error (now n)) w

  abbrev pub slept_after : (n : ℕ) → (error : String) → A → Session A S → Session A S
  unfolding bump_restart
  slept_after n error backoff w =
      let failed = failed_after n error w in
      record failed { sleeps = failed.sleeps ++ backoff ∷ [] }

  later-Ended :
      (left : ℕ) (w slept : Session A S) (out : End S × Session A S)
      → slept.attempts ≡ w.attempts + 1
      → Ended left slept out
      → Ended (suc left) w out
  later-Ended left w slept out one e = record {
    some_end = e.some_end;
    attempts = omega (arith, e.attempts);
    on_disk = e.on_disk;
  }

  attempt_loop-Ended :
      (left n : ℕ) (backoff : A) (w : Session A S)
      → w.file ≡ w.state
      → config.max_restarts + 1 ≤ w.state.restart_count + left
      → Ended left w (attempt_loop config outcome now (suc left) n backoff w)
  unfolding attempt_loop bump_restart failed_after slept_after
  attempt_loop-Ended zero n backoff w disk enough =
      let over : ltb config.max_restarts w.state.restart_count ≡ true = ground arith in
      rw over (record { some_end = λ h. absurd (cc h); attempts = omega arith; on_disk = disk })
  attempt_loop-Ended (suc left) n backoff w disk enough =
      elim (Bool-cases (ltb config.max_restarts w.state.restart_count)) [
        | inl over ↦
            rw over
              (record { some_end = λ h. absurd (cc h); attempts = omega arith; on_disk = disk })
        | inr under ↦ rw under (elim (outcome-cases (outcome n)) [
          | inl (summary, good) ↦
              rw good
                (record { some_end = λ h. absurd (cc h); attempts = omega arith; on_disk = refl })
          | inr (error, bad) ↦ rw bad (
              failed-Ended (suc left) w (failed_after n error w)
                (attempt_loop config outcome now (suc left) (suc n)
                  (next_backoff config outcome now backoff) (slept_after n error backoff w))
                refl refl (omega arith)
                (λ u. later-Ended left w (slept_after n error backoff w) _ refl (
                  attempt_loop-Ended left (suc n) (next_backoff config outcome now backoff)
                    (slept_after n error backoff w) refl (omega arith))))
        ])
      ]

  -- The restart loop of the supervisor ends, for any outcomes of its attempts, after at most one
  -- attempt more than the restarts that the checkpoint leaves of `max_restarts`, and the checkpoint
  -- file then holds the last state.
  pub run-Ended :
      (id started : String) (file : Option (SessionState S))
      → let s = first_state id started file in
        Ended
          (config.max_restarts + 1 - s.restart_count)
          (record { state = s; file = s; sleeps = []; attempts = 0 })
          (run config outcome now id started file)
  unfolding run
  run-Ended id started file =
      attempt_loop-Ended (config.max_restarts + 1 - (first_state id started file).restart_count) 0
        config.backoff_seconds _ refl (omega arith)

  abbrev Returned : (most : ℕ) → End S × Session A S → Type 0
  Returned most out = (s : SessionState S) × (out.0 ≡ returned s) × (s.restart_count ≤ most)

  failed-Returned :
      (most : ℕ) (failed : Session A S) (rest : End S × Session A S)
      → ltb config.max_restarts failed.state.restart_count ≡ false
      → Returned most rest
      → Returned most
          (if ltb config.max_restarts failed.state.restart_count then (exhausted, failed) else rest)
  failed-Returned most failed rest under r = rw under r

  -- An attempt that succeeds while restarts are left ends the loop.
  attempt_loop-Returned :
      (i left n : ℕ) (backoff : A) (w : Session A S) (summary : Option S)
      → outcome (n + i) ≡ returns summary
      → w.state.restart_count + i ≤ config.max_restarts
      → config.max_restarts + 1 ≤ w.state.restart_count + left
      → Returned
          (w.state.restart_count + i)
          (attempt_loop config outcome now (suc left) n backoff w)
  unfolding attempt_loop bump_restart failed_after slept_after checkpoint
  attempt_loop-Returned i zero n backoff w summary h few enough = absurd (omega arith)
  attempt_loop-Returned zero (suc left) n backoff w summary h few enough =
      let under : ltb config.max_restarts w.state.restart_count ≡ false = ground arith in
      let good : outcome n ≡ returns summary = ap outcome (omega arith) ∙ h in
      rw (under, good) (checkpoint w.state summary none (now n), refl, omega arith)
  attempt_loop-Returned (suc i) (suc left) n backoff w summary h few enough =
      let under : ltb config.max_restarts w.state.restart_count ≡ false = ground arith in
      rw under (elim (outcome-cases (outcome n)) [
        | inl (own, good) ↦ rw good (checkpoint w.state own none (now n), refl, omega arith)
        | inr (error, bad) ↦
            let (s, at_end, count) =
              attempt_loop-Returned i left (suc n) (next_backoff config outcome now backoff)
                (slept_after n error backoff w) summary (ap outcome (omega arith) ∙ h) (omega arith)
                (omega arith) in
            rw bad (
              failed-Returned (w.state.restart_count + suc i) (failed_after n error w)
                (attempt_loop config outcome now (suc left) (suc n)
                  (next_backoff config outcome now backoff) (slept_after n error backoff w))
                (ground arith) (s, at_end, omega arith))
      ])

  -- When an attempt of the supervisor succeeds whose number, with the restarts of the checkpoint,
  -- is at most `max_restarts`, then `run` returns a state, and it counts at most that many
  -- restarts.
  pub run-returned :
      (id started : String) (file : Option (SessionState S)) (i : ℕ) (summary : Option S)
      → outcome i ≡ returns summary
      → (first_state id started file).restart_count + i ≤ config.max_restarts
      → (s : SessionState S) × ((run config outcome now id started file).0 ≡ returned s)
        × (s.restart_count ≤ (first_state id started file).restart_count + i)
  unfolding run
  run-returned id started file i summary h few =
      attempt_loop-Returned i
        (config.max_restarts + 1 - (first_state id started file).restart_count) 0
        config.backoff_seconds _ summary (ap outcome (omega arith) ∙ h) few (omega arith)
