-- ===== src/Demo/Session/Days.antt =====
-- The rows of the days over any sequence of calls (src/execution/demo_autonomous_state.py).
use greenfield.Base.{
  Datetime, date_of, ℕ, ◌≤◌, true, ◌≡◌, refl, some, String, List, [], ◌∷◌, arith, is_some,
  Bool-cases, inl, inr, ◌==◌, Decimal, sym, subst, some_eq, ap, ◌∙◌,
}
use greenfield.Demo.Risk.{AutonomousDemoRiskConfig}
use greenfield.Demo.Trade.{AutonomousDailyRiskRecord, Database}
use greenfield.Demo.Table.{fetch_day}
use greenfield.Demo.Daily.{kill_after}
use greenfield.Demo.Daily.Frame.{DayCall}
use greenfield.Demo.Session.Effects.{
  Write, authorized, counted, settled, switched, Effect, quiet, writes, execute-Effect,
}
use greenfield.Demo.Session.{Call, execute, run}

-- The capital of the day is frozen, its entries are never uncounted, and its kill switch stays.
pub record Later (x x' : AutonomousDailyRiskRecord) : Type 0 where
  pub capital : x'.starting_capital_usd ≡ x.starting_capital_usd
  pub entries : x.entries ≤ x'.entries
  pub killed : is_some x.kill_switch_reason ≡ true → is_some x'.kill_switch_reason ≡ true

abbrev pub DaysLater : Database → Database → Type 0
DaysLater db db' =
    (j : ℕ) (x : AutonomousDailyRiskRecord)
    → fetch_day j db.days ≡ some x
    → (x' : AutonomousDailyRiskRecord) × (fetch_day j db'.days ≡ some x') × Later x x'

Later-refl : (x : AutonomousDailyRiskRecord) → Later x x
Later-refl x = record { capital = refl; entries = omega arith; killed = λ k. k }

Later-trans : (x y z : AutonomousDailyRiskRecord) → Later x y → Later y z → Later x z
Later-trans x y z p q = record {
  capital = q.capital ∙ p.capital;
  entries = omega arith;
  killed = λ k. q.killed (p.killed k);
}

days_same : (db db' : Database) → db'.days ≡ db.days → DaysLater db db'
days_same db db' e j x found = (x, ap (fetch_day j) e ∙ found, Later-refl x)

DayCall-Later :
    (now : ℕ) (capital : Decimal) (db : Database) (prior r : AutonomousDailyRiskRecord)
    (db' : Database)
    → DayCall now capital db prior r db'
    → Later prior r
    → DaysLater db db'
DayCall-Later now capital db prior r db' c step j x found = elim (Bool-cases (j == date_of now)) [
  | inr other ↦ (x, c.others j (ground arith) ∙ found, Later-refl x)
  | inl same ↦
      let e : j ≡ date_of now = ground arith in
      let there : fetch_day (date_of now) db.days ≡ some x =
        subst (λ k. fetch_day k db.days ≡ some x) e found in
      elim c.starts [
        | inl old ↦ (
          r,
          subst (λ k. fetch_day k db'.days ≡ some r) (sym e) c.at_day,
          subst (λ p. Later p r) (some_eq prior x (sym old ∙ there)) step,
        )
        | inr (missing, fresh) ↦ absurd (ground arith)
      ]
]

closing_kill :
    (prior : AutonomousDailyRiskRecord) (total limit : Decimal) (r : AutonomousDailyRiskRecord)
    → r.kill_switch_reason ≡ kill_after prior total limit
    → is_some prior.kill_switch_reason ≡ true
    → is_some r.kill_switch_reason ≡ true
unfolding kill_after
closing_kill prior total limit r e k = ground arith

Write-Later :
    (config : AutonomousDemoRiskConfig) (now : Datetime) (capital : Decimal)
    (prior r : AutonomousDailyRiskRecord)
    → Write config now capital prior r
    → Later prior r
Write-Later config now capital prior r (authorized p e) =
    subst (Later prior) (sym e) (Later-refl prior)
Write-Later config now capital prior r (counted p e) = record {
  capital = ground arith;
  entries = ground arith;
  killed = λ k. ground arith;
}
Write-Later config now capital prior r (settled db pnl limit cooldown l t e) = record {
  capital = ap (λ x. x.starting_capital_usd) e;
  entries = ground arith;
  killed = λ k. closing_kill prior _ limit r (ap (λ x. x.kill_switch_reason) e) k;
}
Write-Later config now capital prior r (switched reason e) = record {
  capital = ground arith;
  entries = ground arith;
  killed = λ k. ground arith;
}

Effect-DaysLater :
    (config : AutonomousDemoRiskConfig) (db db' : Database)
    → Effect config db db'
    → DaysLater db db'
Effect-DaysLater config db db' (quiet e) = days_same db db' e
Effect-DaysLater config db db' (writes now capital prior r c w) =
    DayCall-Later now.micros capital db prior r db' c (Write-Later config now capital prior r w)

module _ (trade_id_of : String → String) (config : AutonomousDemoRiskConfig) where
  pub run-DaysLater : (cs : List Call) (db : Database) → DaysLater db (run trade_id_of config cs db)
  unfolding run
  run-DaysLater [] db j x found = days_same db db refl j x found
  run-DaysLater (c ∷ cs) db j x found =
      let (y, there, p) =
        Effect-DaysLater config db _ (execute-Effect trade_id_of config c db) j x found in
      let (z, then_there, q) = run-DaysLater cs (execute trade_id_of config c db) j y there in
      (z, then_there, Later-trans x y z p q)

  -- A day that has a row has one after any sequence of calls, with the same starting capital and as
  -- many entries or more.
  pub run-day :
      (cs : List Call) (db : Database) (j : ℕ) (x : AutonomousDailyRiskRecord)
      → fetch_day j db.days ≡ some x
      → (x' : AutonomousDailyRiskRecord) × (fetch_day j (run trade_id_of config cs db).days
          ≡ some x')
        × (x'.starting_capital_usd ≡ x.starting_capital_usd)
        × (x.entries ≤ x'.entries)
  run-day cs db j x found =
      let (x', there, later) = run-DaysLater cs db j x found in
      (x', there, later.capital, later.entries)
