-- ===== src/Demo/Tests.antt =====
-- The ledger and its daily gate on concrete values.
use greenfield.Base.{
  Datetime, date_of, ◌*◌, ◌+◌, ◌≤◌, ℕ, Bool, true, false, ◌≡◌, refl, Option, none, some, String,
  List, [], ◌∷◌, arith, ℤ, pos, negsuc, Decimal, dec_zero, dec_leb, dec_neg, Result, ok, err,
  is_some,
}
use greenfield.Demo.Errors.{kill_switch_active}
use greenfield.Demo.Trade
use greenfield.Demo.Trade.{
  AutonomousTradeRecord, AutonomousDailyRiskRecord, Database, long, observed,
}
use greenfield.Demo.Risk.{default_config, daily_loss_limit_usd, whole}
use greenfield.Demo.Table.{fetch, fetch_day, is_unique}
use greenfield.Demo.Ledger.{TradeRequest, begin_trade, mark_entry_submitted}
use greenfield.Demo.Ledger.Invariant.{IsValid}
use greenfield.Demo.Ledger.Retry.{entry_mark, mark, mark-again, begin_trade-again}
use greenfield.Demo.Daily.{record_entry, record_close}
use greenfield.Demo.Session.{Call, begin, entry_submitted, opened, kill, entry, run, empty_database}
use greenfield.Demo.Session.Invariant.{run-IsValid}
use greenfield.Demo.Session.Final.{Same, run-Keeps}
use greenfield.Demo.Session.Gate.{Refused, kill_switch-run, record_close-locks}
use greenfield.Demo.Session.Limits.{run-entries, record_close-pauses}
use greenfield.Demo.Session.Days.{run-day}

abbrev id_of : String → String
id_of o = o

abbrev at : ℕ → Datetime
at s = record { aware = true; micros = s * 1000000 }

abbrev request : TradeRequest
request = record {
  observation_id = "o1";
  candidate_id = "c1";
  symbol = "BTCUSDT";
  action = long;
  target_quantity = whole 1;
  reference_price = whole 100;
  stop_loss_bps = none;
  take_profit_bps = none;
}

abbrev calls : List Call
calls =
    begin request (at 10) ∷ entry_submitted "o1" "e1" (at 11) ∷ opened "o1" (whole 101) (at 12) ∷ []

run-IsValid_example : IsValid (run id_of default_config calls empty_database)
unfolding is_unique
run-IsValid_example =
    run-IsValid id_of default_config calls empty_database
      (record { unique = refl; one_active = omega arith; coherent = tt })

abbrev observed_trade : AutonomousTradeRecord
observed_trade = record {
  trade_id = "o1";
  observation_id = "o1";
  candidate_id = "c1";
  symbol = "BTCUSDT";
  action = long;
  phase = observed;
  target_quantity = whole 1;
  reference_price = whole 100;
  stop_loss_bps = none;
  take_profit_bps = none;
  entry_client_order_id = none;
  entry_fill_price = none;
  opened_at_utc = none;
  exit_client_order_id = none;
  exit_reason = none;
  realized_pnl_usd = none;
  closed_at_utc = none;
  safety_reason = none;
  created_at_utc = 10000000;
  updated_at_utc = 10000000;
}

abbrev closed_trade : AutonomousTradeRecord
closed_trade = record observed_trade {
  phase = Trade.closed;
  realized_pnl_usd = some (whole 3);
  closed_at_utc = some 20000000;
}

abbrev with_trade : AutonomousTradeRecord → Database
with_trade t = record { trades = t ∷ []; days = [] }

run-Keeps_example :
    (t' : AutonomousTradeRecord) × (fetch "o1"
        (run id_of default_config calls (with_trade closed_trade)).trades
      ≡ some t')
    × Same closed_trade t'
unfolding fetch
run-Keeps_example =
    run-Keeps id_of default_config "o1" closed_trade calls (with_trade closed_trade) refl
      (record { phase = refl; pnl = refl; time = refl })

begin_trade-again_example :
    begin_trade id_of request (at 90) (with_trade observed_trade)
    ≡ ok (observed_trade, with_trade observed_trade)
unfolding begin_trade greenfield.Base.is_blank greenfield.Demo.Errors.utc fetch
    greenfield.Demo.Table.fetch_active greenfield.Demo.Table.constrain is_unique
    greenfield.Demo.Ledger.new_trade
begin_trade-again_example =
    begin_trade-again id_of request (at 10) (at 90) empty_database observed_trade
      (with_trade observed_trade) refl refl

abbrev submitted_trade : AutonomousTradeRecord
submitted_trade = record observed_trade {
  phase = Trade.entry_submitted;
  entry_client_order_id = some "e1";
  updated_at_utc = 11000000;
}

mark-again_example :
    mark (entry_mark "e1" (at 11)) "o1" (with_trade submitted_trade)
    ≡ ok (submitted_trade, with_trade submitted_trade)
unfolding mark_entry_submitted greenfield.Demo.Ledger.transition fetch greenfield.Demo.Errors.utc
    greenfield.Demo.Table.constrain is_unique greenfield.Demo.Table.update_where
mark-again_example =
    mark-again (entry_mark "e1" (at 11)) "o1" (with_trade observed_trade) submitted_trade
      (with_trade submitted_trade) refl

abbrev new_day_row : AutonomousDailyRiskRecord
new_day_row = record {
  utc_date = 0;
  starting_capital_usd = whole 1000;
  entries = 1;
  realized_pnl_usd = dec_zero;
  cooldown_until_utc = none;
  kill_switch_reason = none;
  updated_at_utc = 5000000;
}

abbrev killed_row : AutonomousDailyRiskRecord
killed_row = record new_day_row { kill_switch_reason = some "manual" }

abbrev with_day : AutonomousDailyRiskRecord → Database
with_day d = record { trades = []; days = d ∷ [] }

abbrev day_calls : List Call
day_calls = entry (at 7) (whole 1000) ∷ kill (at 8) (whole 1000) "again" ∷ []

kill_switch-run_example :
    Refused default_config
      (at 9)
      (whole 500)
      (run id_of default_config day_calls (with_day killed_row))
      kill_switch_active
unfolding fetch_day date_of
kill_switch-run_example =
    kill_switch-run id_of default_config day_calls (with_day killed_row) killed_row (at 9)
      (whole 500) refl refl refl refl

run-day_example :
    (x' : AutonomousDailyRiskRecord) × (fetch_day 0
        (run id_of default_config day_calls (with_day new_day_row)).days
      ≡ some x')
    × (x'.starting_capital_usd ≡ whole 1000)
    × (1 ≤ x'.entries)
unfolding fetch_day
run-day_example = run-day id_of default_config day_calls (with_day new_day_row) 0 new_day_row refl

abbrev entered_row : AutonomousDailyRiskRecord
entered_row = record new_day_row { updated_at_utc = 7000000 }

run-entries_example : entered_row.entries ≤ default_config.maximum_trades_per_utc_day
unfolding run fetch_day record_entry greenfield.Demo.Errors.utc greenfield.Demo.Daily.ensure_day
    greenfield.Demo.Daily.validate_entry_authorization greenfield.Demo.Errors.positive
    daily_loss_limit_usd greenfield.Base.float_is_finite greenfield.Base.dec_mul
    greenfield.Base.◌*ℤ◌ dec_neg greenfield.Base.neg greenfield.Demo.Table.update_day
run-entries_example =
    run-entries id_of default_config (entry (at 7) (whole 1000) ∷ []) 0 entered_row refl

-- A close with a loss of 20 at a limit of 10, and the row that it leaves.
abbrev loss : Decimal
loss = record { finite = true; units = negsuc 19999999999999999999; places = 0 }

abbrev limit : Decimal
limit = record { finite = true; units = pos 10000000000000000000; places = 2 }

abbrev lost_row : AutonomousDailyRiskRecord
lost_row = record new_day_row {
  realized_pnl_usd = loss;
  cooldown_until_utc = some 920000000;
  kill_switch_reason = some "DAILY_LOSS_LIMIT";
  updated_at_utc = 20000000;
}

record_close-locks_example :
    Refused default_config
      (at 5000)
      (whole 500)
      (run id_of default_config day_calls (with_day lost_row))
      kill_switch_active
unfolding record_close daily_loss_limit_usd date_of greenfield.Demo.Errors.utc
    greenfield.Demo.Daily.ensure_day fetch_day greenfield.Base.float_is_finite
    greenfield.Base.dec_mul greenfield.Base.◌*ℤ◌ greenfield.Demo.Errors.add_seconds
    greenfield.Demo.Table.update_day greenfield.Base.dec_add greenfield.Demo.Daily.kill_after
    greenfield.Base.◌+ℤ◌ dec_neg greenfield.Base.neg
record_close-locks_example =
    record_close-locks id_of default_config day_calls (with_day new_day_row) (with_day lost_row)
      (at 20) (at 5000) (whole 1000) loss limit (whole 500) lost_row refl refl refl refl refl refl

-- A close with a gain, and the entry after its pause.
abbrev won_row : AutonomousDailyRiskRecord
won_row = record new_day_row {
  realized_pnl_usd = whole 5;
  cooldown_until_utc = some 920000000;
  updated_at_utc = 20000000;
}

abbrev reentered_row : AutonomousDailyRiskRecord
reentered_row = record won_row { entries = 2; updated_at_utc = 930000000 }

record_close-pauses_example :
    (at 20).micros + default_config.cooldown_seconds * 1000000 ≤ (at 930).micros
unfolding record_close record_entry date_of greenfield.Demo.Errors.utc
    greenfield.Demo.Daily.ensure_day fetch_day daily_loss_limit_usd greenfield.Base.float_is_finite
    greenfield.Base.dec_mul greenfield.Base.◌*ℤ◌ greenfield.Demo.Errors.add_seconds
    greenfield.Demo.Table.update_day greenfield.Base.dec_add greenfield.Demo.Daily.kill_after
    greenfield.Base.◌+ℤ◌ dec_neg greenfield.Base.neg
    greenfield.Demo.Daily.validate_entry_authorization greenfield.Demo.Errors.positive
record_close-pauses_example =
    record_close-pauses id_of default_config (at 20) (at 930) (whole 1000) (whole 5) (whole 1000)
      (with_day new_day_row) (with_day won_row) (with_day reentered_row) won_row reentered_row refl
      refl refl
