-- ===== src/Demo/Session/Limits.antt =====
-- The entries of a day and the pause after a close (src/execution/demo_autonomous_state.py).
use greenfield.Base.{
  Datetime, date_of, ℕ, ◌+◌, ◌*◌, ◌≤◌, ◌<◌, ◌≡◌, some, String, List, [], ◌∷◌, ok, arith, Bool-cases,
  inl, inr, ◌==◌, Decimal, sym, subst, some_eq, ap, ◌∙◌,
}
use greenfield.Demo.Errors.{add_seconds}
use greenfield.Demo.Risk.{AutonomousDemoRiskConfig}
use greenfield.Demo.Trade.{AutonomousDailyRiskRecord, Database}
use greenfield.Demo.Table.{fetch_day}
use greenfield.Demo.Daily.{validate_entry_authorization, new_day, record_entry, record_close}
use greenfield.Demo.Daily.Frame.{DayCall, record_entry-DayCall, record_close-DayCall}
use greenfield.Demo.Session.{empty_database, Call, execute, run}
use greenfield.Demo.Session.Effects.{
  Write, authorized, counted, settled, switched, Effect, quiet, writes, execute-Effect,
}

-- An open gate means that the day has room, and that its pause is over.
open_gate :
    (daily : AutonomousDailyRiskRecord) (now : ℕ) (capital : Decimal)
    (config : AutonomousDemoRiskConfig)
    → validate_entry_authorization daily now capital config ≡ ok tt
    → (daily.entries < config.maximum_trades_per_utc_day)
      × ((until : ℕ) → daily.cooldown_until_utc ≡ some until → until ≤ now)
unfolding validate_entry_authorization
open_gate daily now capital config h = (ground arith, λ until e. ground arith)

pause_end :
    (start seconds later now : ℕ)
    → add_seconds start seconds ≡ ok later
    → later ≤ now
    → start + seconds * 1000000 ≤ now
unfolding add_seconds
pause_end start seconds later now t over = ground arith

module _ (trade_id_of : String → String) (config : AutonomousDemoRiskConfig) where
  -- No day counts more entries than the configuration allows.
  abbrev pub WithinLimit : Database → Type 0
  WithinLimit db =
      (j : ℕ) (x : AutonomousDailyRiskRecord)
      → fetch_day j db.days ≡ some x
      → x.entries ≤ config.maximum_trades_per_utc_day

  same_days : (db db' : Database) → db'.days ≡ db.days → WithinLimit db → WithinLimit db'
  same_days db db' e w j x found = w j x (ap (fetch_day j) (sym e) ∙ found)

  none_within : WithinLimit empty_database
  unfolding fetch_day
  none_within j x found = absurd (ground arith)

  new_day_within :
      (now : ℕ) (capital : Decimal)
      → (new_day now capital).entries ≤ config.maximum_trades_per_utc_day
  unfolding new_day
  new_day_within now capital = omega arith

  prior_within :
      {now : ℕ} {capital : Decimal} {db : Database} (prior : AutonomousDailyRiskRecord)
      {r : AutonomousDailyRiskRecord} {db' : Database}
      → DayCall now capital db prior r db'
      → WithinLimit db
      → prior.entries ≤ config.maximum_trades_per_utc_day
  prior_within {now} {capital} prior c w = elim c.starts [
    | inl old ↦ w _ prior old
    | inr (missing, fresh) ↦ rw fresh (new_day_within now capital)
  ]

  day_within :
      {now : ℕ} {capital : Decimal} {db : Database} {prior : AutonomousDailyRiskRecord}
      (r : AutonomousDailyRiskRecord) (db' : Database)
      → DayCall now capital db prior r db'
      → r.entries ≤ config.maximum_trades_per_utc_day
      → WithinLimit db
      → WithinLimit db'
  day_within {now} r db' c room w j x found = elim (Bool-cases (j == date_of now)) [
    | inr other ↦ w j x (sym (c.others j (ground arith)) ∙ found)
    | inl same ↦
        let e : j ≡ date_of now = ground arith in
        let there = subst (λ k. fetch_day k db'.days ≡ some x) e found in
        subst (λ y. y.entries ≤ config.maximum_trades_per_utc_day)
          (some_eq r x (sym c.at_day ∙ there)) room
  ]

  write_within :
      (now : Datetime) (capital : Decimal) (prior r : AutonomousDailyRiskRecord)
      → Write config now capital prior r
      → prior.entries ≤ config.maximum_trades_per_utc_day
      → r.entries ≤ config.maximum_trades_per_utc_day
  write_within now capital prior r (authorized p e) w = ground arith
  write_within now capital prior r (counted p e) w =
      let room = (open_gate prior now.micros capital config p).0 in ground arith
  write_within now capital prior r (settled db pnl limit cooldown l t e) w = ground arith
  write_within now capital prior r (switched reason e) w = ground arith

  Effect-WithinLimit : (db db' : Database) → Effect config db db' → WithinLimit db → WithinLimit db'
  Effect-WithinLimit db db' (quiet e) w = same_days db db' e w
  Effect-WithinLimit db db' (writes now capital prior r c k) w =
      day_within r db' c (write_within now capital prior r k (prior_within prior c w)) w

  -- After any sequence of calls no day counts more entries than `maximum_trades_per_utc_day`, if
  -- none did before.
  pub run-WithinLimit :
      (cs : List Call) (db : Database) → WithinLimit db → WithinLimit (run trade_id_of config cs db)
  unfolding run
  run-WithinLimit [] db w j x found = w j x found
  run-WithinLimit (c ∷ cs) db w j x found =
      run-WithinLimit cs (execute trade_id_of config c db)
        (Effect-WithinLimit db _ (execute-Effect trade_id_of config c db) w) j x found

  -- After any sequence of calls on an empty database, no day counts more entries than
  -- `maximum_trades_per_utc_day`.
  pub run-entries :
      (cs : List Call) (j : ℕ) (x : AutonomousDailyRiskRecord)
      → fetch_day j (run trade_id_of config cs empty_database).days ≡ some x
      → x.entries ≤ config.maximum_trades_per_utc_day
  run-entries cs j x found = run-WithinLimit cs empty_database none_within j x found

  -- When `record_close` has succeeded and the very next call, a `record_entry` on the same day,
  -- succeeds, then `cooldown_seconds` have passed between the two.
  pub record_close-pauses :
      (closed_at now : Datetime) (capital pnl funds : Decimal) (db db' db'' : Database)
      (r x : AutonomousDailyRiskRecord)
      → record_close closed_at capital pnl config db ≡ ok (r, db')
      → date_of now.micros ≡ date_of closed_at.micros
      → record_entry now funds config db' ≡ ok (x, db'')
      → closed_at.micros + config.cooldown_seconds * 1000000 ≤ now.micros
  record_close-pauses closed_at now capital pnl funds db db' db'' r x h day k =
      let (prior, limit, cooldown, l, t, e, c) =
        record_close-DayCall closed_at capital config db pnl r db' h in
      let (start, p, e', c') = record_entry-DayCall now funds config db' x db'' k in
      let there : fetch_day (date_of now.micros) db'.days ≡ some r =
        subst (λ d. fetch_day d db'.days ≡ some r) (sym day) c.at_day in
      let same : start ≡ r = elim c'.starts [
        | inl old ↦ some_eq start r (sym old ∙ there)
        | inr (missing, fresh) ↦ absurd (ground arith)
      ] in
      let over : cooldown ≤ now.micros =
        (open_gate start now.micros funds config p).1 cooldown
          (ap (λ y. y.cooldown_until_utc) same ∙ ap (λ y. y.cooldown_until_utc) e) in
      pause_end closed_at.micros config.cooldown_seconds cooldown now.micros t over
