-- ===== src/Demo/Daily.antt =====
-- The daily risk gate of `AutonomousDemoStateStore` (src/execution/demo_autonomous_state.py).
pub mod Frame
use greenfield.Base.{
  Datetime, date_of, ℕ, ◌+◌, Bool, false, not, Option, none, some, String, is_blank, [], ◌∷◌, ◌++◌,
  ltb, leb, Result, ok, err, raise_if, or_raise, ◌>>=◌, ◌>>◌, if◌then◌else◌, Decimal, dec_leb,
  dec_add, dec_neg, dec_zero, is_some,
}
use greenfield.Demo.Errors.{
  Error, blank_reason, not_finite, kill_switch_active, trade_limit_reached, cooldown_active,
  loss_limit_reached, assertion, utc, add_seconds, positive,
}
use greenfield.Demo.Risk.{AutonomousDemoRiskConfig, daily_loss_limit_usd}
use greenfield.Demo.Trade.{AutonomousDailyRiskRecord, Database}
use greenfield.Demo.Table.{Days, fetch_day, update_day}

-- the row that `_ensure_day` inserts
unfoldable pub new_day : ℕ → Decimal → AutonomousDailyRiskRecord
unfolding date_of
new_day now capital = record {
  utc_date = date_of now;
  starting_capital_usd = capital;
  entries = 0;
  realized_pnl_usd = dec_zero;
  cooldown_until_utc = none;
  kill_switch_reason = none;
  updated_at_utc = now;
}

-- `_ensure_day`, once the row of the day has been looked up
abbrev ensure :
    ℕ
    → Decimal
    → Days
    → Option AutonomousDailyRiskRecord
    → Result Error (AutonomousDailyRiskRecord × Days)
ensure now capital days (some existing) = ok (existing, days)
ensure now capital days none = do
  let rows = days ++ new_day now capital ∷ []
  result ← or_raise (fetch_day (date_of now) rows) assertion
  ok (result, rows)

unfoldable pub ensure_day : ℕ → Decimal → Days → Result Error (AutonomousDailyRiskRecord × Days)
unfolding new_day
ensure_day now capital days = ensure now capital days (fetch_day (date_of now) days)

abbrev before : ℕ → Option ℕ → Bool
before now none = false
before now (some until) = ltb now until

-- `_validate_entry_authorization`
unfoldable pub validate_entry_authorization :
    AutonomousDailyRiskRecord
    → (now : ℕ) → (capital : Decimal) → AutonomousDemoRiskConfig
    → Result Error (Unit {0})
validate_entry_authorization daily now capital config = do
  positive capital
  raise_if (is_some daily.kill_switch_reason) kill_switch_active
  raise_if (leb config.maximum_trades_per_utc_day daily.entries) trade_limit_reached
  raise_if (before now daily.cooldown_until_utc) cooldown_active
  limit ← daily_loss_limit_usd daily.starting_capital_usd config
  raise_if (dec_leb daily.realized_pnl_usd (dec_neg limit)) loss_limit_reached

unfoldable pub authorize_entry :
    Datetime
    → (starting_capital_usd : Decimal) → AutonomousDemoRiskConfig
    → Database
    → Result Error (AutonomousDailyRiskRecord × Database)
authorize_entry now_utc capital config db = do
  positive capital
  now ← utc now_utc
  (daily, days) ← ensure_day now capital db.days
  validate_entry_authorization daily now capital config
  ok (daily, record db { days = days })

-- UPDATE ... WHERE utc_date = ?, and the row read back
abbrev write_day :
    ℕ
    → (AutonomousDailyRiskRecord → AutonomousDailyRiskRecord)
    → Days
    → Database
    → Result Error (AutonomousDailyRiskRecord × Database)
write_day day f days db = do
  let rows = update_day day f days
  result ← or_raise (fetch_day day rows) assertion
  ok (result, record db { days = rows })

unfoldable pub record_entry :
    Datetime
    → (starting_capital_usd : Decimal) → AutonomousDemoRiskConfig
    → Database
    → Result Error (AutonomousDailyRiskRecord × Database)
record_entry now_utc capital config db = do
  now ← utc now_utc
  (daily, days) ← ensure_day now capital db.days
  validate_entry_authorization daily now capital config
  write_day (date_of now) (λ r. record r { entries = r.entries + 1; updated_at_utc = now }) days db

-- `kill` of `record_close`
unfoldable pub kill_after : AutonomousDailyRiskRecord → (total limit : Decimal) → Option String
kill_after daily total limit =
    if dec_leb total (dec_neg limit) then some "DAILY_LOSS_LIMIT" else daily.kill_switch_reason

unfoldable pub record_close :
    Datetime
    → (starting_capital_usd realized_pnl_usd : Decimal) → AutonomousDemoRiskConfig
    → Database
    → Result Error (AutonomousDailyRiskRecord × Database)
record_close now_utc capital pnl config db = do
  raise_if (not pnl.finite) not_finite
  now ← utc now_utc
  (daily, days) ← ensure_day now capital db.days
  let total = dec_add daily.realized_pnl_usd pnl
  limit ← daily_loss_limit_usd daily.starting_capital_usd config
  let kill = kill_after daily total limit
  cooldown ← add_seconds now config.cooldown_seconds
  write_day (date_of now)
      (λ r. record r {
        realized_pnl_usd = total;
        cooldown_until_utc = some cooldown;
        kill_switch_reason = kill;
        updated_at_utc = now;
      })
      days db

unfoldable pub activate_kill_switch :
    Datetime
    → (starting_capital_usd : Decimal) → (reason : String) → Database
    → Result Error (AutonomousDailyRiskRecord × Database)
activate_kill_switch now_utc capital reason db = do
  raise_if (is_blank reason) blank_reason
  now ← utc now_utc
  (daily, days) ← ensure_day now capital db.days
  write_day (date_of now) (λ r. record r { kill_switch_reason = some reason; updated_at_utc = now })
      days db

unfoldable pub daily_risk_state :
    Datetime → Database → Result Error (Option AutonomousDailyRiskRecord)
daily_risk_state now_utc db = do now ← utc now_utc; ok (fetch_day (date_of now) db.days)

-- A method's transaction: committed with its result, or rolled back.
unfoldable pub commit :
    {A : Type 0} → Database → Result Error (A × Database) → Result Error A × Database
commit db (ok (a, db')) = (ok a, db')
commit db (err e) = (err e, db)
