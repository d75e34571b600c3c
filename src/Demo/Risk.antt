-- ===== src/Demo/Risk.antt =====
-- Configuration checks, exit guards and the loss limit of autonomous Demo trading
-- (src/execution/demo_autonomous_risk.py). Python's default arguments are written out by callers.
use greenfield.Base.{
  Datetime, ℕ, ◌-◌, ◌*◌, Bool, true, false, not, ◌&&◌, ◌||◌, Option, none, some, Result, ok, ◌>>=◌,
  ◌>>◌, raise_if, if◌then◌else◌, ltb, leb, ◌==◌, pos, leb_ℤ, Decimal, dec_leb, dec_mul, dec_add,
  dec_neg, not_positive, float_is_finite,
}
use greenfield.Demo.Errors.{
  Error, bad_action, nonpositive, not_finite, bad_config, exit_precedes_entry, utc,
}
use greenfield.Demo.Trade.{SetupAction, long, short, wait, arbitrage}

-- The integer fields are natural numbers: `__post_init__` refuses a negative `cooldown_seconds`.
pub record AutonomousDemoRiskConfig : Type 0 where
  pub leverage : ℕ
  pub margin_fraction_per_trade : Decimal
  pub maximum_open_positions : ℕ
  pub maximum_trades_per_utc_day : ℕ
  pub stop_loss_bps : Decimal
  pub take_profit_bps : Decimal
  pub maximum_holding_seconds : ℕ
  pub cooldown_seconds : ℕ
  pub maximum_daily_loss_fraction : Decimal

-- A decimal of `n` hundredths.
abbrev pub hundredths : ℕ → Decimal
hundredths n = record { finite = true; units = pos (n * 10000000000000000); places = 2 }

abbrev pub whole : ℕ → Decimal
whole n = record { finite = true; units = pos (n * 1000000000000000000); places = 0 }

abbrev pub default_config : AutonomousDemoRiskConfig
default_config = record {
  leverage = 100;
  margin_fraction_per_trade = hundredths 1;
  maximum_open_positions = 1;
  maximum_trades_per_utc_day = 6;
  stop_loss_bps = whole 20;
  take_profit_bps = whole 30;
  maximum_holding_seconds = 1800;
  cooldown_seconds = 900;
  maximum_daily_loss_fraction = hundredths 1;
}

-- `AutonomousDemoRiskConfig.__post_init__`
unfoldable pub config_post_init : AutonomousDemoRiskConfig → Result Error (Unit {0})
config_post_init c = do
  raise_if (not (c.leverage == 100)) bad_config
  raise_if
      (not (
        c.margin_fraction_per_trade.finite
        && leb_ℤ c.margin_fraction_per_trade.units (hundredths 1).units
        && leb_ℤ (hundredths 1).units c.margin_fraction_per_trade.units))
      bad_config
  raise_if (not (c.maximum_open_positions == 1)) bad_config
  raise_if
      (not_positive c.stop_loss_bps
        || not_positive c.take_profit_bps
        || not_positive c.maximum_daily_loss_fraction)
      bad_config
  raise_if (dec_leb (whole 100) c.stop_loss_bps) bad_config
  raise_if (ltb c.maximum_trades_per_utc_day 1 || ltb c.maximum_holding_seconds 1) bad_config

pub data DemoExitReason : Type 0 where
  stop_loss take_profit max_holding_time : DemoExitReason

-- `direction`
abbrev pub direction : SetupAction → Decimal
direction long = whole 1
direction _ = dec_neg (whole 1)

-- `direction * (current_price / entry_price - 1) * Decimal(10_000)`. The quotient is rounded by
-- Python's context, and `divide` stands for it.
unfoldable pub return_bps :
    (divide : Decimal → Decimal → Decimal) → SetupAction → (entry current : Decimal) → Decimal
unfolding dec_neg
return_bps divide action entry current =
    dec_mul (dec_mul (direction action) (dec_add (divide current entry) (dec_neg (whole 1))))
      (whole 10000)

abbrev or_default : Option Decimal → Decimal → Decimal
or_default none d = d
or_default (some v) d = v

abbrev is_directional : SetupAction → Bool
is_directional long = true
is_directional short = true
is_directional wait = false
is_directional arbitrage = false

-- `autonomous_demo_exit_reason`
unfoldable pub autonomous_demo_exit_reason :
    (divide : Decimal → Decimal → Decimal)
    → SetupAction
    → (entry_price current_price : Decimal) → (opened_at_utc now_utc : Datetime)
    → AutonomousDemoRiskConfig
    → (stop_loss_bps take_profit_bps : Option Decimal) → Result Error (Option DemoExitReason)
unfolding utc return_bps
autonomous_demo_exit_reason divide action entry current opened_at now_at config stop_bps
      target_bps =
    let effective_stop = or_default stop_bps config.stop_loss_bps in
    let effective_target = or_default target_bps config.take_profit_bps in
    let moved = return_bps divide action entry current in
    do
      raise_if (not_positive effective_stop) nonpositive
      raise_if (not_positive effective_target) nonpositive
      raise_if (not (is_directional action)) bad_action
      raise_if (not_positive entry || not_positive current) nonpositive
      opened ← utc opened_at
      now ← utc now_at
      raise_if (ltb now opened) exit_precedes_entry
      ok (
          if dec_leb moved (dec_neg effective_stop)
          then some stop_loss
          else if dec_leb effective_target moved
          then some take_profit
          else if leb (config.maximum_holding_seconds * 1000000) (now - opened)
          then some max_holding_time
          else none)

-- `daily_loss_limit_usd`
unfoldable pub daily_loss_limit_usd : Decimal → AutonomousDemoRiskConfig → Result Error Decimal
daily_loss_limit_usd starting_equity config = do
  raise_if (not_positive starting_equity) nonpositive
  let result = dec_mul starting_equity config.maximum_daily_loss_fraction
  raise_if (not (float_is_finite result)) not_finite
  ok result
