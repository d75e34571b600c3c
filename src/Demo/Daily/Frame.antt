-- ===== src/Demo/Daily/Frame.antt =====
-- The writes of the daily risk calls (src/execution/demo_autonomous_state.py).
use greenfield.Base.{
  Datetime, date_of, ℕ, ◌+◌, ◌≡◌, refl, ◌≢◌, ◌⊎◌, none, some, String, ok, arith, Decimal, dec_add,
  Option-cases, Result-cases, inl, inr, sym, ap, subst,
}
use greenfield.Demo.Errors.{utc, add_seconds}
use greenfield.Demo.Risk.{AutonomousDemoRiskConfig, daily_loss_limit_usd}
use greenfield.Demo.Trade.{AutonomousDailyRiskRecord, Database}
use greenfield.Demo.Table.{Days, fetch_day}
use greenfield.Demo.Table.Day.{fetch_day-append, fetch_day-update_day, fetch_day-update_day_ne}
use greenfield.Demo.Daily.{
  new_day, ensure_day, validate_entry_authorization, authorize_entry, record_entry, record_close,
  activate_kill_switch, write_day, kill_after,
}

-- The row that a call at `now` starts from: the day's, or a fresh one.
abbrev pub StartsFrom : ℕ → Decimal → Days → AutonomousDailyRiskRecord → Type 0
StartsFrom now capital days prior =
    (fetch_day (date_of now) days ≡ some prior)
    ⊎ ((fetch_day (date_of now) days ≡ none) × (prior ≡ new_day now capital))

pub record DayCall (now : ℕ) (capital : Decimal) (db : Database)
    (prior r : AutonomousDailyRiskRecord) (db' : Database) : Type 0 where
  pub starts : StartsFrom now capital db.days prior
  pub trades : db'.trades ≡ db.trades
  pub at_day : fetch_day (date_of now) db'.days ≡ some r
  pub others : (j : ℕ) → j ≢ date_of now → fetch_day j db'.days ≡ fetch_day j db.days

record Ensured (now : ℕ) (capital : Decimal) (days : Days) (daily : AutonomousDailyRiskRecord)
    (rows : Days) : Type 0 where
  starts : StartsFrom now capital days daily
  at_day : fetch_day (date_of now) rows ≡ some daily
  others : (j : ℕ) → j ≢ date_of now → fetch_day j rows ≡ fetch_day j days

ensure_day-Ensured :
    (now : ℕ) (capital : Decimal) (days : Days) (daily : AutonomousDailyRiskRecord) (rows : Days)
    → ensure_day now capital days ≡ ok (daily, rows)
    → Ensured now capital days daily rows
unfolding ensure_day new_day
ensure_day-Ensured now capital days daily rows h =
    elim (Option-cases (fetch_day (date_of now) days)) [
      | inl missing ↦
          let back = fetch_day-append (date_of now) days (new_day now capital) in
          record {
            starts = inr (missing, ground arith);
            at_day = ground arith;
            others =
                λ j ne. let there = fetch_day-append j days (new_day now capital) in ground arith;
          }
      | inr (x, found) ↦ record {
        starts = inl (ground arith);
        at_day = ground arith;
        others = λ j ne. ground arith;
      }
    ]

-- The UPDATE of a day after `_ensure_day`.
written :
    (now : ℕ) (capital : Decimal) (db : Database) (daily : AutonomousDailyRiskRecord) (rows : Days)
    (f : AutonomousDailyRiskRecord → AutonomousDailyRiskRecord)
    (keep : (x : AutonomousDailyRiskRecord) → (f x).utc_date ≡ x.utc_date)
    (r : AutonomousDailyRiskRecord) (db' : Database)
    → ensure_day now capital db.days ≡ ok (daily, rows)
    → write_day (date_of now) f rows db ≡ ok (r, db')
    → (r ≡ f daily) × DayCall now capital db daily r db'
written now capital db daily rows f keep r db' e h =
    let s = ensure_day-Ensured now capital db.days daily rows e in
    let back = fetch_day-update_day (date_of now) f keep rows daily s.at_day in
    let row : r ≡ f daily = ground arith in
    (
      row,
      record {
        starts = s.starts;
        trades = ground arith;
        at_day = ground arith;
        others = λ j ne.
            let same = fetch_day-update_day_ne (date_of now) f keep j rows ne in
            let first = s.others j ne in ground arith;
      },
    )

module _ (now : Datetime) (capital : Decimal) (config : AutonomousDemoRiskConfig)
    (db : Database) where
  -- Whether the day of the call can be opened for it, and what the gate then says.
  abbrev Gate : AutonomousDailyRiskRecord → Days → Type 0
  Gate daily rows =
      (ensure_day now.micros capital db.days ≡ ok (daily, rows))
      × (validate_entry_authorization daily now.micros capital config ≡ ok tt)

  authorize_entry-Gate :
      (r : AutonomousDailyRiskRecord) (db' : Database)
      → authorize_entry now capital config db ≡ ok (r, db')
      → (rows : Days) × Gate r rows × (db' ≡ record db { days = rows })
  unfolding authorize_entry utc
  authorize_entry-Gate r db' h = elim (Result-cases (ensure_day now.micros capital db.days)) [
    | inr (x, failed) ↦ absurd (ground arith)
    | inl ((daily, rows), e) ↦
        elim (Result-cases (validate_entry_authorization daily now.micros capital config)) [
          | inr (x, failed) ↦ absurd (ground arith)
          | inl (tt, p) ↦ (rows, (ground arith, ground arith), ground arith)
        ]
  ]

  -- An authorization found the gate open, and changes no day that there was.
  pub authorize_entry-DayCall :
      (r : AutonomousDailyRiskRecord) (db' : Database)
      → authorize_entry now capital config db ≡ ok (r, db')
      → (validate_entry_authorization r now.micros capital config ≡ ok tt)
        × DayCall now.micros capital db r r db'
  authorize_entry-DayCall r db' h =
      let (rows, g, e) = authorize_entry-Gate r db' h in
      let s = ensure_day-Ensured now.micros capital db.days r rows g.0 in
      (
        g.1,
        record {
          starts = s.starts;
          trades = ap (λ d. d.trades) e;
          at_day = subst (λ d. fetch_day (date_of now.micros) d.days ≡ some r) (sym e) s.at_day;
          others =
              λ j ne. subst (λ d. fetch_day j d.days ≡ fetch_day j db.days) (sym e) (s.others j ne);
        },
      )

  record_entry-Gate :
      (r : AutonomousDailyRiskRecord) (db' : Database)
      → record_entry now capital config db ≡ ok (r, db')
      → (daily : AutonomousDailyRiskRecord) × (rows : Days) × Gate daily rows
        × (write_day
              (date_of now.micros)
              (λ x. record x { entries = x.entries + 1; updated_at_utc = now.micros })
              rows
              db
            ≡ ok (r, db'))
  unfolding record_entry utc
  record_entry-Gate r db' h = elim (Result-cases (ensure_day now.micros capital db.days)) [
    | inr (x, failed) ↦ absurd (ground arith)
    | inl ((daily, rows), e) ↦
        elim (Result-cases (validate_entry_authorization daily now.micros capital config)) [
          | inr (x, failed) ↦ absurd (ground arith)
          | inl (tt, p) ↦ (daily, rows, (ground arith, ground arith), ground arith)
        ]
  ]

  -- A recorded entry found the gate open, and counts one more.
  pub record_entry-DayCall :
      (r : AutonomousDailyRiskRecord) (db' : Database)
      → record_entry now capital config db ≡ ok (r, db')
      → (prior : AutonomousDailyRiskRecord) × (validate_entry_authorization prior now.micros capital
            config
          ≡ ok tt)
        × (r ≡ record prior { entries = prior.entries + 1; updated_at_utc = now.micros })
        × DayCall now.micros capital db prior r db'
  record_entry-DayCall r db' h =
      let (daily, rows, g, w) = record_entry-Gate r db' h in
      let (e, c) = written now.micros capital db daily rows _ (λ x. refl) r db' g.0 w in
      (daily, g.1, e, c)

  -- What `record_close` writes over the row of the day.
  abbrev pub closing :
      (pnl limit : Decimal)
      → (cooldown : ℕ) → AutonomousDailyRiskRecord
      → AutonomousDailyRiskRecord
      → AutonomousDailyRiskRecord
  closing pnl limit cooldown daily x =
      let total = dec_add daily.realized_pnl_usd pnl in
      record x {
        realized_pnl_usd = total;
        cooldown_until_utc = some cooldown;
        kill_switch_reason = kill_after daily total limit;
        updated_at_utc = now.micros;
      }

  abbrev Closing : Decimal → AutonomousDailyRiskRecord → Days → Decimal → ℕ → Type 0
  Closing pnl daily rows limit cooldown =
      (ensure_day now.micros capital db.days ≡ ok (daily, rows))
      × (daily_loss_limit_usd daily.starting_capital_usd config ≡ ok limit)
      × (add_seconds now.micros config.cooldown_seconds ≡ ok cooldown)

  record_close-Closing :
      (pnl : Decimal) (r : AutonomousDailyRiskRecord) (db' : Database)
      → record_close now capital pnl config db ≡ ok (r, db')
      → (daily : AutonomousDailyRiskRecord) × (rows : Days) × (limit : Decimal) × (cooldown : ℕ)
        × Closing pnl daily rows limit cooldown
        × (write_day (date_of now.micros) (closing pnl limit cooldown daily) rows db ≡ ok (r, db'))
  unfolding record_close utc
  record_close-Closing pnl r db' h = elim (Result-cases (ensure_day now.micros capital db.days)) [
    | inr (x, failed) ↦ absurd (ground arith)
    | inl ((daily, rows), e) ↦
        elim (Result-cases (daily_loss_limit_usd daily.starting_capital_usd config)) [
          | inr (x, failed) ↦ absurd (ground arith)
          | inl (limit, l) ↦ elim (Result-cases (add_seconds now.micros config.cooldown_seconds)) [
            | inr (x, failed) ↦ absurd (ground arith)
            | inl (cooldown, c) ↦ (daily, rows, limit, cooldown, (e, l, c), ground arith)
          ]
        ]
  ]

  -- A recorded close adds the PnL, starts the cooldown and may set the kill switch.
  pub record_close-DayCall :
      (pnl : Decimal) (r : AutonomousDailyRiskRecord) (db' : Database)
      → record_close now capital pnl config db ≡ ok (r, db')
      → (prior : AutonomousDailyRiskRecord) × (limit : Decimal) × (cooldown : ℕ)
        × (daily_loss_limit_usd prior.starting_capital_usd config ≡ ok limit)
        × (add_seconds now.micros config.cooldown_seconds ≡ ok cooldown)
        × (r ≡ closing pnl limit cooldown prior prior)
        × DayCall now.micros capital db prior r db'
  record_close-DayCall pnl r db' h =
      let (daily, rows, limit, cooldown, c, w) = record_close-Closing pnl r db' h in
      let (e, k) = written now.micros capital db daily rows _ (λ x. refl) r db' c.0 w in
      (daily, limit, cooldown, c.1, c.2, e, k)

module _ (now : Datetime) (capital : Decimal) (reason : String) (db : Database) where
  activate_kill_switch-write :
      (r : AutonomousDailyRiskRecord) (db' : Database)
      → activate_kill_switch now capital reason db ≡ ok (r, db')
      → (daily : AutonomousDailyRiskRecord) × (rows : Days) × (ensure_day now.micros capital db.days
          ≡ ok (daily, rows))
        × (write_day
              (date_of now.micros)
              (λ x. record x { kill_switch_reason = some reason; updated_at_utc = now.micros })
              rows
              db
            ≡ ok (r, db'))
  unfolding activate_kill_switch utc
  activate_kill_switch-write r db' h = elim (Result-cases (ensure_day now.micros capital db.days)) [
    | inr (x, failed) ↦ absurd (ground arith)
    | inl ((daily, rows), e) ↦ (daily, rows, e, ground arith)
  ]

  -- The kill switch keeps its reason.
  pub activate_kill_switch-DayCall :
      (r : AutonomousDailyRiskRecord) (db' : Database)
      → activate_kill_switch now capital reason db ≡ ok (r, db')
      → (prior : AutonomousDailyRiskRecord) × (r
          ≡ record prior { kill_switch_reason = some reason; updated_at_utc = now.micros })
        × DayCall now.micros capital db prior r db'
  activate_kill_switch-DayCall r db' h =
      let (daily, rows, e, w) = activate_kill_switch-write r db' h in
      let (same, c) = written now.micros capital db daily rows _ (λ x. refl) r db' e w in
      (daily, same, c)
