-- ===== src/Demo/Session/Gate.antt =====
-- Refusals of the daily gate (src/execution/demo_autonomous_state.py).
use greenfield.Base.{
  Datetime, date_of, true, false, ◌≡◌, refl, some, String, List, ok, err, arith, is_some, Decimal,
  sym, subst, ap, not_positive, dec_leb, dec_add, dec_neg,
}
use greenfield.Demo.Errors.{Error, kill_switch_active, utc, positive}
use greenfield.Demo.Risk.{AutonomousDemoRiskConfig, daily_loss_limit_usd}
use greenfield.Demo.Trade.{AutonomousDailyRiskRecord, Database}
use greenfield.Demo.Table.{fetch_day}
use greenfield.Demo.Daily.{
  ensure_day, validate_entry_authorization, kill_after, authorize_entry, record_entry, record_close,
}
use greenfield.Demo.Daily.Frame.{record_close-DayCall}
use greenfield.Demo.Session.{Call, run}
use greenfield.Demo.Session.Days.{run-DaysLater}

-- The gate is asked at `now` with some positive capital.
abbrev pub Refused : AutonomousDemoRiskConfig → Datetime → Decimal → Database → Error → Type 0
Refused config now capital db e =
    (authorize_entry now capital config db ≡ err e) × (record_entry now capital config db ≡ err e)

killed_day :
    (config : AutonomousDemoRiskConfig) (now : Datetime) (capital : Decimal) (db : Database)
    (x : AutonomousDailyRiskRecord)
    → now.aware ≡ true
    → not_positive capital ≡ false
    → fetch_day (date_of now.micros) db.days ≡ some x
    → is_some x.kill_switch_reason ≡ true
    → Refused config now capital db kill_switch_active
unfolding authorize_entry record_entry ensure_day validate_entry_authorization utc positive
killed_day config now capital db x zoned funded found killed = (ground arith, ground arith)

closing_locks :
    (config : AutonomousDemoRiskConfig) (prior r : AutonomousDailyRiskRecord)
    (total limit limit' : Decimal)
    → r.kill_switch_reason ≡ kill_after prior total limit'
    → r.realized_pnl_usd ≡ total
    → r.starting_capital_usd ≡ prior.starting_capital_usd
    → daily_loss_limit_usd prior.starting_capital_usd config ≡ ok limit'
    → daily_loss_limit_usd r.starting_capital_usd config ≡ ok limit
    → dec_leb r.realized_pnl_usd (dec_neg limit) ≡ true
    → is_some r.kill_switch_reason ≡ true
unfolding kill_after
closing_locks config prior r total limit limit' k t s l' l loss =
    let lim : limit' ≡ limit = cc in rw (k, lim, ← t, kill_after) (rw loss refl)

module _ (trade_id_of : String → String) (config : AutonomousDemoRiskConfig) where
  -- When the row of a day has a kill switch, then after any sequence of calls both
  -- `authorize_entry` and `record_entry`, asked on that day at a time with a time zone and with a
  -- positive capital, raise the error of the kill switch.
  pub kill_switch-run :
      (cs : List Call) (db : Database) (x : AutonomousDailyRiskRecord) (now : Datetime)
      (capital : Decimal)
      → fetch_day (date_of now.micros) db.days ≡ some x
      → is_some x.kill_switch_reason ≡ true
      → now.aware ≡ true
      → not_positive capital ≡ false
      → Refused config now capital (run trade_id_of config cs db) kill_switch_active
  kill_switch-run cs db x now capital found killed zoned funded =
      let (y, there, later) = run-DaysLater trade_id_of config cs db (date_of now.micros) x found in
      killed_day config now capital (run trade_id_of config cs db) y zoned funded there
        (later.killed killed)

  -- When `record_close` leaves the PnL of its day at the negative of the day's loss limit or below,
  -- then after any further calls both `authorize_entry` and `record_entry`, asked on that day at a
  -- time with a time zone and with a positive capital, raise the error of the kill switch.
  pub record_close-locks :
      (cs : List Call) (db db' : Database) (closed now : Datetime)
      (capital pnl limit funds : Decimal) (r : AutonomousDailyRiskRecord)
      → record_close closed capital pnl config db ≡ ok (r, db')
      → daily_loss_limit_usd r.starting_capital_usd config ≡ ok limit
      → dec_leb r.realized_pnl_usd (dec_neg limit) ≡ true
      → date_of now.micros ≡ date_of closed.micros
      → now.aware ≡ true
      → not_positive funds ≡ false
      → Refused config now funds (run trade_id_of config cs db') kill_switch_active
  record_close-locks cs db db' closed now capital pnl limit funds r h l loss day zoned funded =
      let (prior, limit', cooldown, l', _, e, c) =
        record_close-DayCall closed capital config db pnl r db' h in
      kill_switch-run cs db' r now funds
        (subst (λ d. fetch_day d db'.days ≡ some r) (sym day) c.at_day)
        (closing_locks config prior r (dec_add prior.realized_pnl_usd pnl) limit limit'
          (ap (λ x. x.kill_switch_reason) e) (ap (λ x. x.realized_pnl_usd) e)
          (ap (λ x. x.starting_capital_usd) e) l' l loss)
        zoned funded
