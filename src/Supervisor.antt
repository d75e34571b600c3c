-- ===== src/Supervisor.antt =====
-- `PaperSessionSupervisor` (src/execution/supervisor.py) and the state of a session
-- (src/execution/session_state.py). The outcomes of `run_fn` and the texts of the clock are given,
-- one for each attempt; the checkpoint file is the state that it holds.
pub mod Ends
mod Tests
use greenfield.Base.{
  ℕ, zero, suc, ◌+◌, ◌-◌, leb, ltb, Bool, true, false, Option, none, some, String, List, [], ◌∷◌,
  ◌++◌, if◌then◌else◌, Floats, min_of,
}

-- S is the type of a fill summary.
pub record SessionState (S : Type 0) : Type 0 where
  pub session_id : String
  pub started_at : String
  pub last_checkpoint_at : String
  pub restart_count : ℕ
  pub last_error : Option String
  pub fill_summary : Option S

abbrev pub or_else : {B : Type 0} → Option B → Option B → Option B
or_else none b = b
or_else (some a) b = some a

module _ {S : Type 0} where
  unfoldable pub new_session_state : (session_id now : String) → SessionState S
  new_session_state id now = record {
    session_id = id;
    started_at = now;
    last_checkpoint_at = now;
    restart_count = 0;
    last_error = none;
    fill_summary = none;
  }

  unfoldable pub checkpoint :
      SessionState S
      → (fill_summary : Option S) → (last_error : Option String) → (now : String) → SessionState S
  checkpoint s summary error now = record s {
    last_checkpoint_at = now;
    last_error = or_else error s.last_error;
    fill_summary = or_else summary s.fill_summary;
  }

  unfoldable pub bump_restart : SessionState S → (error now : String) → SessionState S
  bump_restart s error now = record s {
    last_checkpoint_at = now;
    restart_count = s.restart_count + 1;
    last_error = some error;
  }

  -- the state that `run` begins with: that of the checkpoint, if there is one
  unfoldable pub first_state :
      (session_id started : String) → (file : Option (SessionState S)) → SessionState S
  unfolding new_session_state
  first_state id started none = new_session_state id started
  first_state id started (some s) = s

pub record SupervisorConfig (A : Type 0) : Type 0 where
  pub max_restarts : ℕ
  pub backoff_seconds : A
  pub backoff_multiplier : A
  pub max_backoff_seconds : A

-- What an attempt comes to: `run_fn` returns, with the summary of its fills, or raises.
pub data Outcome (S : Type 0) : Type 0 where
  returns : Option S → Outcome S
  raises : (error : String) → Outcome S

-- The state, the checkpoint file, the sleeps so far and the number of attempts.
pub record Session (A S : Type 0) : Type 0 where
  pub state : SessionState S
  pub file : SessionState S
  pub sleeps : List A
  pub attempts : ℕ

-- How `run` ends: it returns the state, or raises RestartsExhaustedError.
pub data End (S : Type 0) : Type 0 where
  returned : SessionState S → End S
  exhausted out_of_fuel : End S

module _ {A S : Type 0} ⦃F : Floats A⦄ (config : SupervisorConfig A) (outcome : ℕ → Outcome S)
    (now : ℕ → String) where
  -- `save_session_state` of a new state, after one more attempt
  abbrev pub saved : SessionState S → Session A S → Session A S
  saved s w = record w { state = s; file = s; attempts = w.attempts + 1 }

  abbrev pub next_backoff : A → A
  next_backoff backoff =
      min_of (F.times backoff config.backoff_multiplier) (config.max_backoff_seconds ∷ [])

  -- the loop of `run`, from an attempt with its number
  unfoldable pub attempt_loop :
      (fuel attempt : ℕ) → (backoff : A) → Session A S → End S × Session A S
  unfolding checkpoint bump_restart min_of
  attempt_loop zero n backoff w = (out_of_fuel, w)
  attempt_loop (suc fuel) n backoff w =
      if ltb config.max_restarts w.state.restart_count then (exhausted, w) else elim (outcome n) [
        | returns summary ↦
            let s = checkpoint w.state summary none (now n) in (returned s, saved s w)
        | raises error ↦
            let failed = saved (bump_restart w.state error (now n)) w in
            let slept = record failed { sleeps = failed.sleeps ++ backoff ∷ [] } in
            let rest = attempt_loop fuel (suc n) (next_backoff backoff) slept in
            if ltb config.max_restarts failed.state.restart_count then (exhausted, failed) else rest
      ]

  unfoldable pub run :
      (session_id started : String) → (file : Option (SessionState S)) → End S × Session A S
  unfolding attempt_loop first_state
  run id started file =
      let s = first_state id started file in
      attempt_loop (suc (config.max_restarts + 1 - s.restart_count)) 0 config.backoff_seconds
        (record { state = s; file = s; sleeps = []; attempts = 0 })
