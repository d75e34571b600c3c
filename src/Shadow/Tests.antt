-- ===== src/Shadow/Tests.antt =====
-- The shadow audit and runtime on concrete values.
use greenfield.Base.{
  pos, lookup, values, Datetime, true, some, none, String, ◌≡◌, refl, is_blank, is_space, List, [],
  ◌∷◌, ok, arith, ℤ, Value, All,
}
use greenfield.Portfolio.Sample.{limits, whole_numbers, as_values, as_values-Readable}
use greenfield.Portfolio.Records.{contains}
use greenfield.Portfolio.Records.{PortfolioEntryProposal}
use greenfield.Portfolio.Engine.{new_engine}
use greenfield.Portfolio.Calls.Invariant.{new_engine-IsValid}
use greenfield.Demo.Trade.{long}
use greenfield.Shadow.Decision.{MetaDecision, buy}
use greenfield.Shadow.Runtime.{ShadowRuntime}
use greenfield.Shadow.Session.{activate_safety_hold, resume, shadow, observe}
use greenfield.Shadow.Session.Hold.{IsLive, activate_safety_hold-resume}
use greenfield.Shadow.Session.Killed.{Keeps, observe-Keeps}
use greenfield.Shadow.Record.{
  record_post_init, ShadowSessionContext, safety_hold, ShadowAuditRecord, eligible_no_order,
}
use greenfield.Shadow.Journal.{ShadowAuditJournal, open_journal, verify, verify_lines, append_all}
use greenfield.Shadow.Journal.Refines.{CanRecord, record_all}
use greenfield.Shadow.Journal.Reopen.{verify-append_all}

abbrev audit : (observation_id : String) → ShadowAuditRecord
audit id = record {
  observation_id = id;
  session_id = "s1";
  decision_timestamp_utc = record { aware = true; micros = 7 };
  action = "LONG";
  status = eligible_no_order;
  selected_engine_id = some "e1";
  proposal_keys = "a" ∷ [];
  risk_reasons = "APPROVED" ∷ [];
  reason_codes = "SHADOW_ONLY_NO_ORDER_SUBMISSION" ∷ [];
  dataset_fingerprint = "d";
  code_commit = "c";
  config_fingerprint = "f";
  risk_state_sha256 = none;
}

abbrev empty_journal : ShadowAuditJournal (Value ℤ)
empty_journal = record { file = none; observation_ids = []; last_hash = none }

-- The second record of the same observation is refused.
abbrev three : List ShadowAuditRecord
three = audit "o1" ∷ audit "o1" ∷ audit "o2" ∷ []

opens_empty : open_journal as_values none ≡ ok empty_journal
unfolding open_journal
opens_empty = refl

fits : All CanRecord three
unfolding record_post_init is_blank is_space
fits = ((refl, omega arith), ((refl, omega arith), ((refl, omega arith), tt)))

two_kept : record_all three [] ≡ audit "o1" ∷ audit "o2" ∷ []
unfolding record_all contains
two_kept = refl

verify-append_all_example :
    (rs : List ShadowAuditRecord) × (verify as_values none ≡ ok rs)
    × (verify as_values (append_all as_values three empty_journal).file ≡ ok (record_all three rs))
verify-append_all_example =
    verify-append_all as_values as_values-Readable (λ t. refl) none empty_journal three opens_empty
      fits

abbrev context : ShadowSessionContext
context = record {
  session_id = "s1";
  dataset_fingerprint = "d";
  code_commit = "c";
  config_fingerprint = "f";
}

abbrev begun : ShadowRuntime ℤ (Value ℤ)
begun = record {
  context = context;
  risk_engine = new_engine limits;
  risk_store = none;
  journal = empty_journal;
}

begun-IsLive : IsLive as_values as_values-Readable begun []
unfolding lookup verify_lines
begun-IsLive = record {
  engine = record {
    valid = new_engine-IsValid limits;
    few = omega arith;
    early = λ k p found. absurd (cc found);
    day = tt;
  };
  journal = record {
    scan = record { records = []; previous = none; seen = [] };
    verified = refl;
    records = refl;
    last = refl;
    ids = refl;
    seen = refl;
  };
  own = refl;
}

abbrev same_text : String → String
same_text t = t

abbrev noon : Datetime
noon = record { aware = true; micros = 43200000000 }

abbrev held_record : ShadowAuditRecord
held_record = record {
  observation_id = "h1";
  session_id = "s1";
  decision_timestamp_utc = noon;
  action = "SAFETY_HOLD";
  status = safety_hold;
  selected_engine_id = none;
  proposal_keys = [];
  risk_reasons = "loop" ∷ [];
  reason_codes = "SHADOW_EVENT_LOOP_FAILURE_THRESHOLD" ∷ [];
  dataset_fingerprint = "d";
  code_commit = "c";
  config_fingerprint = "f";
  risk_state_sha256 = some "0123456789012345678901234567890123456789012345678901234567890123";
}

abbrev held : ShadowRuntime ℤ (Value ℤ)
held = (activate_safety_hold as_values same_text "h1" "loop" noon begun).1

holds : activate_safety_hold as_values same_text "h1" "loop" noon begun ≡ (ok held_record, held)
unfolding activate_safety_hold greenfield.Shadow.Session.hold_staged
    greenfield.Shadow.Journal.ensure_available greenfield.Shadow.Runtime.stage
    greenfield.Portfolio.Calls.activate_kill_switch greenfield.Portfolio.Calls.snapshot
    greenfield.Portfolio.Calls.from_snapshot greenfield.Portfolio.Records.snapshot_post_init
    greenfield.Portfolio.Engine.sort_by_key greenfield.Portfolio.Engine.index_by_key values
    greenfield.Portfolio.Records.repeats greenfield.Shadow.Runtime.commit_staged
    greenfield.Shadow.Runtime.save_staged greenfield.Portfolio.Store.save
    greenfield.Shadow.Runtime.record_note record_post_init is_blank is_space
    greenfield.Shadow.Journal.append greenfield.Shadow.Journal.appended contains
holds = refl

activate_safety_hold-resume_example :
    (rt2 : ShadowRuntime ℤ (Value ℤ)) × (resume as_values same_text shadow context held.risk_store
        held.journal limits
      ≡ ok rt2)
    × (rt2.risk_engine.kill_switch_reason ≡ some "loop")
    × ((k : String) → lookup k rt2.risk_engine.positions ≡ lookup k (new_engine limits).positions)
activate_safety_hold-resume_example =
    activate_safety_hold-resume as_values as_values-Readable (λ t. refl) same_text "h1" "loop" noon
      begun held held_record [] begun-IsLive (omega arith) holds

abbrev to_buy : MetaDecision ℤ
to_buy = record {
  action = long;
  decision_timestamp_utc = noon;
  selected_engine_id = some "e1";
  selected_setup = some (record { symbol = "BTCUSDT"; venue = "bybit"; side = buy } ∷ []);
  allocated_notional = pos 500;
  reason_codes = "R" ∷ [];
}

abbrev entry : PortfolioEntryProposal ℤ
entry = record {
  key = "a";
  symbol = "BTCUSDT";
  venue = "bybit";
  strategy = "trend";
  engine = "e1";
  signed_notional = pos 500;
  committed_risk_fraction = pos 1;
  correlation_checked_symbols = [];
  correlated_symbols = [];
  proposed_at_utc = noon;
}

abbrev killed : ShadowRuntime ℤ (Value ℤ)
killed = record begun {
  risk_engine = record (new_engine limits) { kill_switch_reason = some "loop" };
}

observe-Keeps_example :
    Keeps as_values same_text killed
      (observe as_values same_text to_buy "o9" (entry ∷ []) (pos 1000) killed)
observe-Keeps_example =
    observe-Keeps as_values same_text to_buy "o9" (entry ∷ []) (pos 1000) killed refl
