-- ===== src/Portfolio/Tests.antt =====
-- The portfolio engine on whole numbers in place of floating-point ones.
use greenfield.Base.{
  Value, Fields, object, text, field_of, without_field, items_of, ℕ, ◌/◌, ◌*◌, ◌+◌, if◌then◌else◌,
  ◌≤◌, Bool, true, false, not, Option, some, none, String, ◌≡◌, ◌≢◌, refl, List, [], ◌∷◌, map,
  Result, ok, err, arith, Floats, Ieee, ℤ, pos, negsuc, pos_part, neg_part, sub_ℕ, ◌+ℤ◌, ◌-ℤ◌, ◌*ℤ◌,
  neg, ltb_ℤ, leb_ℤ, eqb_ℤ, Datetime, length,
}
use greenfield.Portfolio.Store.{
  save, load, checksum, digest, payload_of, envelope_of, snapshot_to_value,
}
use greenfield.Portfolio.Store.Roundtrip.{CanStore, load-save, decode-checksum, decode-envelope_of}
use greenfield.Portfolio.Sample.{
  limits, whole_numbers, whole_numbers-Ieee, whole_numbers-IeeeNumbers, as_values,
  as_values-Readable,
}
use greenfield.Portfolio.Records.{
  PortfolioPosition, PortfolioRiskConfig, PortfolioEntryProposal, PortfolioRiskDecision,
  PortfolioRiskSnapshot, too_many_positions,
}
use greenfield.Portfolio.Engine.{PortfolioRiskEngine, new_engine}
use greenfield.Portfolio.Entry.{evaluate_entry}
use greenfield.Portfolio.Entry.Limits.{IsClear, evaluate_entry-IsClear}
use greenfield.Portfolio.Entry.Within.{IsWithin, evaluate_entry-IsWithin}
use greenfield.Portfolio.Calls.{
  Call, evaluate, open_position, close_position, activate, clear, run_calls, record_open, snapshot,
  from_snapshot, commit, opened_position,
}
use greenfield.Portfolio.Calls.Invariant.{IsValid, new_engine-IsValid, run_calls-IsValid}
use greenfield.Portfolio.Calls.Gate.{Halted, is_approval, kill_switch-run_calls, record_open-once}
use greenfield.Portfolio.Calls.Days.{balance, run_calls-day}
use greenfield.Portfolio.Calls.Restore.{IsRestored, from_snapshot-snapshot}

abbrev at : ℕ → Datetime
at day = record { aware = true; micros = 86400000000 * day + 5 }

abbrev proposal : String → (notional day : ℕ) → PortfolioEntryProposal ℤ
proposal key notional day = record {
  key = key;
  symbol = "BTCUSDT";
  venue = "bybit";
  strategy = "trend";
  engine = "e1";
  signed_notional = pos notional;
  committed_risk_fraction = pos 1;
  correlation_checked_symbols = [];
  correlated_symbols = [];
  proposed_at_utc = at day;
}

abbrev decision : String → (notional : ℕ) → PortfolioRiskDecision ℤ
decision key notional = record {
  proposal_key = key;
  approved = true;
  approved_signed_notional = pos notional;
  approved_risk_fraction = pos 1;
  reason = "APPROVED";
  projected_gross_exposure = pos notional;
  projected_net_exposure = pos notional;
  projected_committed_risk_fraction = pos 1;
}

abbrev start : PortfolioRiskEngine ℤ
start = new_engine limits

-- A request that takes the whole net room.
filled : (evaluate_entry (proposal "a" 1000 3) (pos 1000) start).0 ≡ ok (decision "a" 1000)
unfolding evaluate_entry greenfield.Portfolio.Records.utc greenfield.Portfolio.Engine.roll_day
    greenfield.Portfolio.Entry.weigh greenfield.Portfolio.Engine.positive_equity
    greenfield.Portfolio.Entry.decide greenfield.Portfolio.Engine.blocking_reason
    greenfield.Portfolio.Engine.limit_reason greenfield.Base.lookup ◌*ℤ◌ neg greenfield.Base.max_of
    ◌-ℤ◌ ◌+ℤ◌ greenfield.Base.values greenfield.Portfolio.Entry.approved_notional
    greenfield.Base.min_of greenfield.Portfolio.Entry.rooms greenfield.Base.insert
    greenfield.Base.is_blank greenfield.Base.is_space greenfield.Base.date_of
    greenfield.Portfolio.Engine.committed_risk_fraction greenfield.Portfolio.Engine.gross_exposure
    greenfield.Portfolio.Engine.gross_of greenfield.Portfolio.Engine.make_decision
    greenfield.Portfolio.Engine.net_exposure greenfield.Portfolio.Engine.rejected
    greenfield.Portfolio.Engine.roll_to greenfield.Portfolio.Entry.approval
    greenfield.Portfolio.Entry.issue greenfield.Portfolio.Records.contains
    greenfield.Portfolio.Records.decision_post_init run_calls greenfield.Portfolio.Calls.execute
    record_open greenfield.Portfolio.Calls.validate_open greenfield.Portfolio.Calls.is_issued
    greenfield.Portfolio.Records.decision_eq greenfield.Base.remove
    greenfield.Portfolio.Records.position_post_init
filled = refl

-- An engine with a position of 300 in another symbol, and a request that has evidence on it.
abbrev other_position : PortfolioPosition ℤ
other_position = record {
  key = "x";
  symbol = "ETHUSDT";
  venue = "okx";
  strategy = "carry";
  engine = "e2";
  signed_notional = pos 300;
  committed_risk_fraction = pos 0;
  opened_at_utc = at 2;
}

abbrev busy : PortfolioRiskEngine ℤ
busy = record start {
  config = record limits { maximum_open_positions = 2 };
  positions = ("x", other_position) ∷ [];
}

abbrev request : PortfolioEntryProposal ℤ
request = record (proposal "a" 700 3) { correlation_checked_symbols = "ETHUSDT" ∷ [] }

abbrev allowance : PortfolioRiskDecision ℤ
allowance = record (decision "a" 700) {
  projected_gross_exposure = pos 1000;
  projected_net_exposure = pos 1000;
}

allowed : (evaluate_entry request (pos 1000) busy).0 ≡ ok allowance
unfolding evaluate_entry greenfield.Portfolio.Records.utc greenfield.Portfolio.Engine.roll_day
    greenfield.Portfolio.Entry.weigh greenfield.Portfolio.Engine.positive_equity
    greenfield.Portfolio.Entry.decide greenfield.Portfolio.Engine.blocking_reason
    greenfield.Portfolio.Engine.limit_reason greenfield.Base.lookup ◌*ℤ◌ neg greenfield.Base.max_of
    ◌-ℤ◌ ◌+ℤ◌ greenfield.Base.values greenfield.Portfolio.Entry.approved_notional
    greenfield.Base.min_of greenfield.Portfolio.Entry.rooms greenfield.Base.insert
    greenfield.Base.is_blank greenfield.Base.is_space greenfield.Base.date_of
    greenfield.Portfolio.Engine.committed_risk_fraction greenfield.Portfolio.Engine.gross_exposure
    greenfield.Portfolio.Engine.gross_of greenfield.Portfolio.Engine.make_decision
    greenfield.Portfolio.Engine.net_exposure greenfield.Portfolio.Engine.rejected
    greenfield.Portfolio.Engine.roll_to greenfield.Portfolio.Entry.approval
    greenfield.Portfolio.Entry.issue greenfield.Portfolio.Records.contains
    greenfield.Portfolio.Records.decision_post_init run_calls greenfield.Portfolio.Calls.execute
    record_open greenfield.Portfolio.Calls.validate_open greenfield.Portfolio.Calls.is_issued
    greenfield.Portfolio.Records.decision_eq greenfield.Base.remove
    greenfield.Portfolio.Records.position_post_init
allowed = refl

evaluate_entry-IsWithin_example :
    IsWithin request
      (pos 1000)
      (record limits { maximum_open_positions = 2 })
      (other_position ∷ [])
      allowance
unfolding greenfield.Base.values
evaluate_entry-IsWithin_example =
    evaluate_entry-IsWithin whole_numbers-Ieee whole_numbers-IeeeNumbers request (pos 1000) busy
      allowance refl refl allowed refl

evaluate_entry-IsClear_example : IsClear request busy
evaluate_entry-IsClear_example =
    evaluate_entry-IsClear request (pos 1000) busy allowance allowed refl

abbrev opening : List (Call ℤ)
opening =
    evaluate (proposal "a" 600 3) (pos 1000)
    ∷ open_position (proposal "a" 600 3) (decision "a" 600)
    ∷ []

run_calls-IsValid_example : IsValid (run_calls opening start)
run_calls-IsValid_example = run_calls-IsValid opening start (new_engine-IsValid limits)

abbrev killed : PortfolioRiskEngine ℤ
killed = record start { kill_switch_reason = some "operator" }

abbrev refusal : String → PortfolioRiskDecision ℤ
refusal reason = record {
  proposal_key = "b";
  approved = false;
  approved_signed_notional = pos 0;
  approved_risk_fraction = pos 0;
  reason = reason;
  projected_gross_exposure = pos 0;
  projected_net_exposure = pos 0;
  projected_committed_risk_fraction = pos 0;
}

refused_b :
    (evaluate_entry (proposal "b" 100 3) (pos 1000) (run_calls opening killed)).0
    ≡ ok (refusal "KILL_SWITCH_ACTIVE:operator")
unfolding evaluate_entry greenfield.Portfolio.Records.utc greenfield.Portfolio.Engine.roll_day
    greenfield.Portfolio.Entry.weigh greenfield.Portfolio.Engine.positive_equity
    greenfield.Portfolio.Entry.decide greenfield.Portfolio.Engine.blocking_reason
    greenfield.Portfolio.Engine.limit_reason greenfield.Base.lookup ◌*ℤ◌ neg greenfield.Base.max_of
    ◌-ℤ◌ ◌+ℤ◌ greenfield.Base.values greenfield.Portfolio.Entry.approved_notional
    greenfield.Base.min_of greenfield.Portfolio.Entry.rooms greenfield.Base.insert
    greenfield.Base.is_blank greenfield.Base.is_space greenfield.Base.date_of
    greenfield.Portfolio.Engine.committed_risk_fraction greenfield.Portfolio.Engine.gross_exposure
    greenfield.Portfolio.Engine.gross_of greenfield.Portfolio.Engine.make_decision
    greenfield.Portfolio.Engine.net_exposure greenfield.Portfolio.Engine.rejected
    greenfield.Portfolio.Engine.roll_to greenfield.Portfolio.Entry.approval
    greenfield.Portfolio.Entry.issue greenfield.Portfolio.Records.contains
    greenfield.Portfolio.Records.decision_post_init run_calls greenfield.Portfolio.Calls.execute
    record_open greenfield.Portfolio.Calls.validate_open greenfield.Portfolio.Calls.is_issued
    greenfield.Portfolio.Records.decision_eq greenfield.Base.remove
    greenfield.Portfolio.Records.position_post_init
refused_b = refl

kill_switch-run_calls_example :
    Halted killed (run_calls opening killed)
    × (is_approval (evaluate_entry (proposal "b" 100 3) (pos 1000) (run_calls opening killed)).0
        ≡ false)
kill_switch-run_calls_example =
    kill_switch-run_calls opening killed (refl, (refl, tt)) refl (proposal "b" 100 3) (pos 1000)

-- Two proposals that are approved before either is opened fill more than the one slot there is.
abbrev both : List (Call ℤ)
both =
    evaluate (proposal "a" 600 3) (pos 1000)
    ∷ evaluate (proposal "b" 600 3) (pos 1000)
    ∷ open_position (proposal "a" 600 3) (decision "a" 600)
    ∷ open_position (proposal "b" 600 3) (decision "b" 600)
    ∷ []

over_limit : length (run_calls both start).positions ≡ 2
unfolding evaluate_entry greenfield.Portfolio.Records.utc greenfield.Portfolio.Engine.roll_day
    greenfield.Portfolio.Entry.weigh greenfield.Portfolio.Engine.positive_equity
    greenfield.Portfolio.Entry.decide greenfield.Portfolio.Engine.blocking_reason
    greenfield.Portfolio.Engine.limit_reason greenfield.Base.lookup ◌*ℤ◌ neg greenfield.Base.max_of
    ◌-ℤ◌ ◌+ℤ◌ greenfield.Base.values greenfield.Portfolio.Entry.approved_notional
    greenfield.Base.min_of greenfield.Portfolio.Entry.rooms greenfield.Base.insert
    greenfield.Base.is_blank greenfield.Base.is_space greenfield.Base.date_of
    greenfield.Portfolio.Engine.committed_risk_fraction greenfield.Portfolio.Engine.gross_exposure
    greenfield.Portfolio.Engine.gross_of greenfield.Portfolio.Engine.make_decision
    greenfield.Portfolio.Engine.net_exposure greenfield.Portfolio.Engine.rejected
    greenfield.Portfolio.Engine.roll_to greenfield.Portfolio.Entry.approval
    greenfield.Portfolio.Entry.issue greenfield.Portfolio.Records.contains
    greenfield.Portfolio.Records.decision_post_init run_calls greenfield.Portfolio.Calls.execute
    record_open greenfield.Portfolio.Calls.validate_open greenfield.Portfolio.Calls.is_issued
    greenfield.Portfolio.Records.decision_eq greenfield.Base.remove
    greenfield.Portfolio.Records.position_post_init
over_limit = refl

abbrev approved_a : PortfolioRiskEngine ℤ
approved_a = run_calls (evaluate (proposal "a" 600 3) (pos 1000) ∷ []) start

abbrev opened_a : PortfolioRiskEngine ℤ
opened_a = (commit approved_a (record_open (proposal "a" 600 3) (decision "a" 600) approved_a)).1

opens_a : record_open (proposal "a" 600 3) (decision "a" 600) approved_a ≡ ok opened_a
unfolding evaluate_entry greenfield.Portfolio.Records.utc greenfield.Portfolio.Engine.roll_day
    greenfield.Portfolio.Entry.weigh greenfield.Portfolio.Engine.positive_equity
    greenfield.Portfolio.Entry.decide greenfield.Portfolio.Engine.blocking_reason
    greenfield.Portfolio.Engine.limit_reason greenfield.Base.lookup ◌*ℤ◌ neg greenfield.Base.max_of
    ◌-ℤ◌ ◌+ℤ◌ greenfield.Base.values greenfield.Portfolio.Entry.approved_notional
    greenfield.Base.min_of greenfield.Portfolio.Entry.rooms greenfield.Base.insert
    greenfield.Base.is_blank greenfield.Base.is_space greenfield.Base.date_of
    greenfield.Portfolio.Engine.committed_risk_fraction greenfield.Portfolio.Engine.gross_exposure
    greenfield.Portfolio.Engine.gross_of greenfield.Portfolio.Engine.make_decision
    greenfield.Portfolio.Engine.net_exposure greenfield.Portfolio.Engine.rejected
    greenfield.Portfolio.Engine.roll_to greenfield.Portfolio.Entry.approval
    greenfield.Portfolio.Entry.issue greenfield.Portfolio.Records.contains
    greenfield.Portfolio.Records.decision_post_init run_calls greenfield.Portfolio.Calls.execute
    record_open greenfield.Portfolio.Calls.validate_open greenfield.Portfolio.Calls.is_issued
    greenfield.Portfolio.Records.decision_eq greenfield.Base.remove
    greenfield.Portfolio.Records.position_post_init greenfield.Portfolio.Calls.record_close
    greenfield.Portfolio.Calls.settle snapshot greenfield.Portfolio.Records.snapshot_post_init
    greenfield.Portfolio.Engine.sort_by_key greenfield.Portfolio.Engine.insert_by_key
    greenfield.Portfolio.Records.repeats
opens_a = refl

record_open-once_example :
    record_open
      (proposal "a" 600 3)
      (decision "a" 600)
      (run_calls (close_position "a" (pos 5) (at 3) ∷ []) opened_a)
    ≢ ok start
record_open-once_example =
    record_open-once (proposal "a" 600 3) (proposal "a" 600 3) (decision "a" 600) (decision "a" 600)
      approved_a opened_a start (close_position "a" (pos 5) (at 3) ∷ []) opens_a
      ((λ h. absurd (cc h)), tt) refl

abbrev closing : List (Call ℤ)
closing = close_position "a" (negsuc 4) (at 3) ∷ close_position "a" (negsuc 4) (at 2) ∷ []

run_calls-day_example :
    (day' : ℕ) × ((run_calls closing opened_a).current_day ≡ some day')
    × (3 ≤ day')
    × (day' ≡ 3
        → (run_calls closing opened_a).daily_realized_pnl
          ≡ balance closing opened_a opened_a.daily_realized_pnl)
unfolding evaluate_entry greenfield.Portfolio.Records.utc greenfield.Portfolio.Engine.roll_day
    greenfield.Portfolio.Entry.weigh greenfield.Portfolio.Engine.positive_equity
    greenfield.Portfolio.Entry.decide greenfield.Portfolio.Engine.blocking_reason
    greenfield.Portfolio.Engine.limit_reason greenfield.Base.lookup ◌*ℤ◌ neg greenfield.Base.max_of
    ◌-ℤ◌ ◌+ℤ◌ greenfield.Base.values greenfield.Portfolio.Entry.approved_notional
    greenfield.Base.min_of greenfield.Portfolio.Entry.rooms greenfield.Base.insert
    greenfield.Base.is_blank greenfield.Base.is_space greenfield.Base.date_of
    greenfield.Portfolio.Engine.committed_risk_fraction greenfield.Portfolio.Engine.gross_exposure
    greenfield.Portfolio.Engine.gross_of greenfield.Portfolio.Engine.make_decision
    greenfield.Portfolio.Engine.net_exposure greenfield.Portfolio.Engine.rejected
    greenfield.Portfolio.Engine.roll_to greenfield.Portfolio.Entry.approval
    greenfield.Portfolio.Entry.issue greenfield.Portfolio.Records.contains
    greenfield.Portfolio.Records.decision_post_init run_calls greenfield.Portfolio.Calls.execute
    record_open greenfield.Portfolio.Calls.validate_open greenfield.Portfolio.Calls.is_issued
    greenfield.Portfolio.Records.decision_eq greenfield.Base.remove
    greenfield.Portfolio.Records.position_post_init greenfield.Portfolio.Calls.record_close
    greenfield.Portfolio.Calls.settle snapshot greenfield.Portfolio.Records.snapshot_post_init
    greenfield.Portfolio.Engine.sort_by_key greenfield.Portfolio.Engine.insert_by_key
    greenfield.Portfolio.Records.repeats
run_calls-day_example = run_calls-day closing opened_a 3 refl

loss_of_five : (run_calls closing opened_a).daily_realized_pnl ≡ negsuc 4
unfolding evaluate_entry greenfield.Portfolio.Records.utc greenfield.Portfolio.Engine.roll_day
    greenfield.Portfolio.Entry.weigh greenfield.Portfolio.Engine.positive_equity
    greenfield.Portfolio.Entry.decide greenfield.Portfolio.Engine.blocking_reason
    greenfield.Portfolio.Engine.limit_reason greenfield.Base.lookup ◌*ℤ◌ neg greenfield.Base.max_of
    ◌-ℤ◌ ◌+ℤ◌ greenfield.Base.values greenfield.Portfolio.Entry.approved_notional
    greenfield.Base.min_of greenfield.Portfolio.Entry.rooms greenfield.Base.insert
    greenfield.Base.is_blank greenfield.Base.is_space greenfield.Base.date_of
    greenfield.Portfolio.Engine.committed_risk_fraction greenfield.Portfolio.Engine.gross_exposure
    greenfield.Portfolio.Engine.gross_of greenfield.Portfolio.Engine.make_decision
    greenfield.Portfolio.Engine.net_exposure greenfield.Portfolio.Engine.rejected
    greenfield.Portfolio.Engine.roll_to greenfield.Portfolio.Entry.approval
    greenfield.Portfolio.Entry.issue greenfield.Portfolio.Records.contains
    greenfield.Portfolio.Records.decision_post_init run_calls greenfield.Portfolio.Calls.execute
    record_open greenfield.Portfolio.Calls.validate_open greenfield.Portfolio.Calls.is_issued
    greenfield.Portfolio.Records.decision_eq greenfield.Base.remove
    greenfield.Portfolio.Records.position_post_init greenfield.Portfolio.Calls.record_close
    greenfield.Portfolio.Calls.settle snapshot greenfield.Portfolio.Records.snapshot_post_init
    greenfield.Portfolio.Engine.sort_by_key greenfield.Portfolio.Engine.insert_by_key
    greenfield.Portfolio.Records.repeats
loss_of_five = refl

abbrev saved_a : PortfolioRiskSnapshot ℤ
saved_a = record {
  positions = opened_position (proposal "a" 600 3) (decision "a" 600) ∷ [];
  peak_equity = pos 1000;
  daily_realized_pnl = pos 0;
  current_day = some 3;
  kill_switch_reason = none;
}

saves_a : snapshot opened_a ≡ ok saved_a
unfolding evaluate_entry greenfield.Portfolio.Records.utc greenfield.Portfolio.Engine.roll_day
    greenfield.Portfolio.Entry.weigh greenfield.Portfolio.Engine.positive_equity
    greenfield.Portfolio.Entry.decide greenfield.Portfolio.Engine.blocking_reason
    greenfield.Portfolio.Engine.limit_reason greenfield.Base.lookup ◌*ℤ◌ neg greenfield.Base.max_of
    ◌-ℤ◌ ◌+ℤ◌ greenfield.Base.values greenfield.Portfolio.Entry.approved_notional
    greenfield.Base.min_of greenfield.Portfolio.Entry.rooms greenfield.Base.insert
    greenfield.Base.is_blank greenfield.Base.is_space greenfield.Base.date_of
    greenfield.Portfolio.Engine.committed_risk_fraction greenfield.Portfolio.Engine.gross_exposure
    greenfield.Portfolio.Engine.gross_of greenfield.Portfolio.Engine.make_decision
    greenfield.Portfolio.Engine.net_exposure greenfield.Portfolio.Engine.rejected
    greenfield.Portfolio.Engine.roll_to greenfield.Portfolio.Entry.approval
    greenfield.Portfolio.Entry.issue greenfield.Portfolio.Records.contains
    greenfield.Portfolio.Records.decision_post_init run_calls greenfield.Portfolio.Calls.execute
    record_open greenfield.Portfolio.Calls.validate_open greenfield.Portfolio.Calls.is_issued
    greenfield.Portfolio.Records.decision_eq greenfield.Base.remove
    greenfield.Portfolio.Records.position_post_init greenfield.Portfolio.Calls.record_close
    greenfield.Portfolio.Calls.settle snapshot greenfield.Portfolio.Records.snapshot_post_init
    greenfield.Portfolio.Engine.sort_by_key greenfield.Portfolio.Engine.insert_by_key
    greenfield.Portfolio.Records.repeats
saves_a = refl

slot_a : length opened_a.positions ≡ 1
unfolding evaluate_entry greenfield.Portfolio.Records.utc greenfield.Portfolio.Engine.roll_day
    greenfield.Portfolio.Entry.weigh greenfield.Portfolio.Engine.positive_equity
    greenfield.Portfolio.Entry.decide greenfield.Portfolio.Engine.blocking_reason
    greenfield.Portfolio.Engine.limit_reason greenfield.Base.lookup ◌*ℤ◌ neg greenfield.Base.max_of
    ◌-ℤ◌ ◌+ℤ◌ greenfield.Base.values greenfield.Portfolio.Entry.approved_notional
    greenfield.Base.min_of greenfield.Portfolio.Entry.rooms greenfield.Base.insert
    greenfield.Base.is_blank greenfield.Base.is_space greenfield.Base.date_of
    greenfield.Portfolio.Engine.committed_risk_fraction greenfield.Portfolio.Engine.gross_exposure
    greenfield.Portfolio.Engine.gross_of greenfield.Portfolio.Engine.make_decision
    greenfield.Portfolio.Engine.net_exposure greenfield.Portfolio.Engine.rejected
    greenfield.Portfolio.Engine.roll_to greenfield.Portfolio.Entry.approval
    greenfield.Portfolio.Entry.issue greenfield.Portfolio.Records.contains
    greenfield.Portfolio.Records.decision_post_init run_calls greenfield.Portfolio.Calls.execute
    record_open greenfield.Portfolio.Calls.validate_open greenfield.Portfolio.Calls.is_issued
    greenfield.Portfolio.Records.decision_eq greenfield.Base.remove
    greenfield.Portfolio.Records.position_post_init greenfield.Portfolio.Calls.record_close
    greenfield.Portfolio.Calls.settle snapshot greenfield.Portfolio.Records.snapshot_post_init
    greenfield.Portfolio.Engine.sort_by_key greenfield.Portfolio.Engine.insert_by_key
    greenfield.Portfolio.Records.repeats
slot_a = refl

from_snapshot-snapshot_example :
    (e' : PortfolioRiskEngine ℤ) × (from_snapshot limits saved_a ≡ ok e') × IsRestored opened_a e'
unfolding evaluate_entry greenfield.Portfolio.Records.utc greenfield.Portfolio.Engine.roll_day
    greenfield.Portfolio.Entry.weigh greenfield.Portfolio.Engine.positive_equity
    greenfield.Portfolio.Entry.decide greenfield.Portfolio.Engine.blocking_reason
    greenfield.Portfolio.Engine.limit_reason greenfield.Base.lookup ◌*ℤ◌ neg greenfield.Base.max_of
    ◌-ℤ◌ ◌+ℤ◌ greenfield.Base.values greenfield.Portfolio.Entry.approved_notional
    greenfield.Base.min_of greenfield.Portfolio.Entry.rooms greenfield.Base.insert
    greenfield.Base.is_blank greenfield.Base.is_space greenfield.Base.date_of
    greenfield.Portfolio.Engine.committed_risk_fraction greenfield.Portfolio.Engine.gross_exposure
    greenfield.Portfolio.Engine.gross_of greenfield.Portfolio.Engine.make_decision
    greenfield.Portfolio.Engine.net_exposure greenfield.Portfolio.Engine.rejected
    greenfield.Portfolio.Engine.roll_to greenfield.Portfolio.Entry.approval
    greenfield.Portfolio.Entry.issue greenfield.Portfolio.Records.contains
    greenfield.Portfolio.Records.decision_post_init run_calls greenfield.Portfolio.Calls.execute
    record_open greenfield.Portfolio.Calls.validate_open greenfield.Portfolio.Calls.is_issued
    greenfield.Portfolio.Records.decision_eq greenfield.Base.remove
    greenfield.Portfolio.Records.position_post_init greenfield.Portfolio.Calls.record_close
    greenfield.Portfolio.Calls.settle snapshot greenfield.Portfolio.Records.snapshot_post_init
    greenfield.Portfolio.Engine.sort_by_key greenfield.Portfolio.Engine.insert_by_key
    greenfield.Portfolio.Records.repeats
from_snapshot-snapshot_example =
    from_snapshot-snapshot opened_a saved_a
      (run_calls-IsValid opening start (new_engine-IsValid limits)) saves_a (omega (arith, slot_a))

abbrev file_a : Value ℤ
file_a = object (envelope_of as_values saved_a 5)

saves_file :
    save as_values saved_a (record { aware = true; micros = 5 })
    ≡ ok (digest as_values (payload_of as_values saved_a 5), file_a)
unfolding save envelope_of payload_of snapshot_to_value items_of
saves_file = refl

storable_a : CanStore as_values as_values-Readable saved_a
unfolding evaluate_entry greenfield.Portfolio.Records.utc greenfield.Portfolio.Engine.roll_day
    greenfield.Portfolio.Entry.weigh greenfield.Portfolio.Engine.positive_equity
    greenfield.Portfolio.Entry.decide greenfield.Portfolio.Engine.blocking_reason
    greenfield.Portfolio.Engine.limit_reason greenfield.Base.lookup ◌*ℤ◌ neg greenfield.Base.max_of
    ◌-ℤ◌ ◌+ℤ◌ greenfield.Base.values greenfield.Portfolio.Entry.approved_notional
    greenfield.Base.min_of greenfield.Portfolio.Entry.rooms greenfield.Base.insert
    greenfield.Base.is_blank greenfield.Base.is_space greenfield.Base.date_of
    greenfield.Portfolio.Engine.committed_risk_fraction greenfield.Portfolio.Engine.gross_exposure
    greenfield.Portfolio.Engine.gross_of greenfield.Portfolio.Engine.make_decision
    greenfield.Portfolio.Engine.net_exposure greenfield.Portfolio.Engine.rejected
    greenfield.Portfolio.Engine.roll_to greenfield.Portfolio.Entry.approval
    greenfield.Portfolio.Entry.issue greenfield.Portfolio.Records.contains
    greenfield.Portfolio.Records.decision_post_init run_calls greenfield.Portfolio.Calls.execute
    record_open greenfield.Portfolio.Calls.validate_open greenfield.Portfolio.Calls.is_issued
    greenfield.Portfolio.Records.decision_eq greenfield.Base.remove
    greenfield.Portfolio.Records.position_post_init greenfield.Portfolio.Calls.record_close
    greenfield.Portfolio.Calls.settle snapshot greenfield.Portfolio.Records.snapshot_post_init
    greenfield.Portfolio.Engine.sort_by_key greenfield.Portfolio.Engine.insert_by_key
    greenfield.Portfolio.Records.repeats
storable_a = record { valid = refl; positions = ((refl, omega arith), tt); day = omega arith }

load-save_example :
    (load as_values (some file_a) ≡ ok (some saved_a))
    × (checksum as_values (some file_a)
        ≡ ok (some (digest as_values (payload_of as_values saved_a 5))))
load-save_example =
    load-save as_values as_values-Readable (λ payload. refl) saved_a
      (record { aware = true; micros = 5 }) (digest as_values (payload_of as_values saved_a 5))
      file_a storable_a (omega arith) saves_file

decode-checksum_example :
    (envelope : Fields ℤ) × (as_values.loads file_a ≡ some (object envelope))
    × (field_of "sha256" envelope
        ≡ some (text (digest as_values (without_field "sha256" envelope))))
decode-checksum_example =
    decode-checksum as_values file_a saved_a
      (decode-envelope_of as_values as_values-Readable saved_a 5 refl storable_a (omega arith))
