-- ===== src/Demo/Errors.antt =====
-- What the autonomous Demo ledger and its risk rules raise
-- (src/execution/demo_autonomous_state.py, src/execution/demo_autonomous_risk.py), and times.
use greenfield.Base.{
  Datetime, ℕ, ◌+◌, ◌*◌, Result, ok, err, Decimal, not_positive, raise_if, if◌then◌else◌, leb,
}

pub data Error : Type 0 where
  -- ValueError
  bad_action incomplete_identity nonpositive naive_timestamp blank_reason not_finite bad_config :
      Error
  no_capital below_minimum over_envelope exit_precedes_entry : Error
  -- OverflowError of `datetime + timedelta`
  time_overflow : Error
  -- AutonomousDemoStateError
  identity_conflict another_active multiple_active unknown_trade wrong_phase payload_conflict :
      Error
  not_in_hold has_exposure : Error
  -- AutonomousDemoEntryNotAuthorizedError
  kill_switch_active trade_limit_reached cooldown_active loss_limit_reached : Error
  -- sqlite3.IntegrityError, AssertionError
  integrity assertion : Error

-- `_utc`
unfoldable pub utc : Datetime → Result Error ℕ
utc d = if d.aware then ok d.micros else err naive_timestamp

-- `now + timedelta(seconds=seconds)`; the last instant is in the year 9999.
unfoldable pub add_seconds : ℕ → ℕ → Result Error ℕ
add_seconds now seconds =
    let later = now + seconds * 1000000 in
    if leb 315537897600000000 later then err time_overflow else ok later

-- `_positive`
unfoldable pub positive : Decimal → Result Error (Unit {0})
positive d = raise_if (not_positive d) nonpositive
