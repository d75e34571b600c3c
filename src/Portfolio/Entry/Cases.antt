-- ===== src/Portfolio/Entry/Cases.antt =====
-- The two ways in which `evaluate_entry` ends (src/risk/portfolio_engine.py).
use greenfield.Base.{
  if◌then◌else◌, ltb, ap, ℕ, ◌<◌, Bool, false, true, Option, none, some, String, ◌≡◌, refl, ◌⊎◌,
  inl, inr, arith, Result, ok, err, Floats, max_of, insert, Bool-cases, Result-cases, date_of,
}
use greenfield.Portfolio.Records.{
  Error, PortfolioEntryProposal, PortfolioRiskDecision, utc, decision_post_init,
}
use greenfield.Portfolio.Engine.{
  PortfolioRiskEngine, roll_day, roll_to, blocking_reason, positive_equity, rejected, make_decision,
}
use greenfield.Portfolio.Entry.{evaluate_entry, weigh, decide, issue, approval, approved_notional}

module _ {A : Type 0} ⦃F : Floats A⦄ where
  -- The engine after `_roll_day`: as it was, or at a later day with no realized loss.
  pub data Rolled (e e' : PortfolioRiskEngine A) : Type 0 where
    same_day : e' ≡ e → Rolled e e'
    new_day :
        (day : ℕ)
        → ((current : ℕ) → e.current_day ≡ some current → current < day)
        → e' ≡ record e { current_day = some day; daily_realized_pnl = F.nil }
        → Rolled e e'

  -- What rolling the day leaves.
  pub record Kept (e e' : PortfolioRiskEngine A) : Type 0 where
    pub config : e'.config ≡ e.config
    pub positions : e'.positions ≡ e.positions
    pub peak : e'.peak_equity ≡ e.peak_equity
    pub kill_switch : e'.kill_switch_reason ≡ e.kill_switch_reason
    pub pending : e'.pending_decisions ≡ e.pending_decisions

  pub Rolled-keeps : (e e' : PortfolioRiskEngine A) → Rolled e e' → Kept e e'
  Rolled-keeps e e' (same_day h) = record {
    config = rw h refl;
    positions = rw h refl;
    peak = rw h refl;
    kill_switch = rw h refl;
    pending = rw h refl;
  }
  Rolled-keeps e e' (new_day day later h) = record {
    config = rw h refl;
    positions = rw h refl;
    peak = rw h refl;
    kill_switch = rw h refl;
    pending = rw h refl;
  }

  roll_to-Rolled :
      (day : ℕ) (e : PortfolioRiskEngine A) (current : Option ℕ)
      → e.current_day ≡ current
      → Rolled e (roll_to day e current).1
  unfolding roll_to
  roll_to-Rolled day e none h = new_day day (λ c k. absurd (ground arith)) refl
  roll_to-Rolled day e (some current) h = elim (Bool-cases (ltb current day)) [
    | inl later ↦ rw later (new_day day (λ c k. ground arith) refl)
    | inr other ↦ rw other (same_day refl)
  ]

  pub roll_day-Rolled : (now : ℕ) (e : PortfolioRiskEngine A) → Rolled e (roll_day now e).1
  unfolding roll_day
  roll_day-Rolled now e = roll_to-Rolled (date_of now) e e.current_day refl

  -- No decision is issued: the call has raised or rejected.
  pub record IsRefusal (e : PortfolioRiskEngine A)
      (out : Result Error (PortfolioRiskDecision A) × PortfolioRiskEngine A) : Type 0 where
    pub peak : A
    pub state : out.1 ≡ record e { peak_equity = peak }
    pub refused : (d : PortfolioRiskDecision A) → out.0 ≡ ok d → d.approved ≡ false

  -- A decision is issued.
  pub record IsApproval (p : PortfolioEntryProposal A) (equity : A) (e : PortfolioRiskEngine A)
      (out : Result Error (PortfolioRiskDecision A) × PortfolioRiskEngine A) : Type 0 where
    pub peak : A
    pub unblocked : blocking_reason p equity (record e { peak_equity = peak }) ≡ none
    pub enough :
        F.less
          (approved_notional p equity (record e { peak_equity = peak }))
          e.config.minimum_order_notional
        ≡ false
    pub decision : PortfolioRiskDecision A
    pub found :
        decision
        ≡ approval p
            (approved_notional p equity (record e { peak_equity = peak }))
            (record e { peak_equity = peak })
    pub result : out.0 ≡ ok decision
    pub state : out.1 ≡ record e {
      peak_equity = peak;
      pending_decisions = insert p.key decision e.pending_decisions;
    }

  abbrev Outcome :
      PortfolioEntryProposal A
      → A
      → PortfolioRiskEngine A
      → Result Error (PortfolioRiskDecision A) × PortfolioRiskEngine A
      → Type 0
  Outcome p equity e out = IsRefusal e out ⊎ IsApproval p equity e out

  make_decision-eq : (d d' : PortfolioRiskDecision A) → make_decision d ≡ ok d' → d' ≡ d
  unfolding make_decision
  make_decision-eq d d' h = ground (arith, Result-cases (decision_post_init d))

  rejected-refuses :
      (reason key : String) (e : PortfolioRiskEngine A) (d : PortfolioRiskDecision A)
      → rejected reason key e ≡ ok d
      → d.approved ≡ false
  unfolding rejected
  rejected-refuses reason key e d h = ap (λ x. x.approved) (make_decision-eq _ d h)

  module _ (p : PortfolioEntryProposal A) (equity peak : A) (e : PortfolioRiskEngine A) where
    abbrev raised : PortfolioRiskEngine A
    raised = record e { peak_equity = peak }

    issue-Outcome :
        (made : Result Error (PortfolioRiskDecision A))
        → make_decision (approval p (approved_notional p equity raised) raised) ≡ made
        → blocking_reason p equity raised ≡ none
        → F.less (approved_notional p equity raised) e.config.minimum_order_notional ≡ false
        → Outcome p equity e (issue p.key raised made)
    unfolding issue
    issue-Outcome (err error) h u n =
        inl (record { peak = peak; state = refl; refused = λ d k. absurd (cc k) })
    issue-Outcome (ok d) h u n = inr (record {
      peak = peak;
      unblocked = u;
      enough = n;
      decision = d;
      found = make_decision-eq _ d h;
      result = refl;
      state = refl;
    })

    decide-Outcome :
        (blocked : Option String)
        → blocking_reason p equity raised ≡ blocked
        → Outcome p equity e (decide p equity raised blocked)
    unfolding decide
    decide-Outcome (some reason) h =
        inl (record { peak = peak; state = refl; refused = rejected-refuses reason p.key raised })
    decide-Outcome none h =
        elim (Bool-cases
          (F.less (approved_notional p equity raised) e.config.minimum_order_notional)) [
            | inl little ↦ rw little (
                inl (record {
                  peak = peak;
                  state = refl;
                  refused = rejected-refuses "NO_PORTFOLIO_RISK_CAPACITY" p.key raised;
                }))
            | inr enough ↦ rw enough (issue-Outcome _ refl h enough)
          ]

  weigh-Outcome :
      (p : PortfolioEntryProposal A) (equity : A) (e : PortfolioRiskEngine A)
      → Outcome p equity e (weigh p equity e)
  unfolding weigh
  weigh-Outcome p equity e = elim (Result-cases (positive_equity equity)) [
    | inr (error, bad) ↦
        rw (weigh, bad)
          (inl (record { peak = e.peak_equity; state = refl; refused = λ d k. absurd (cc k) }))
    | inl (done, good) ↦
        rw (weigh, good) (decide-Outcome p equity (max_of e.peak_equity equity) e _ refl)
  ]

  dated-Outcome :
      (p : PortfolioEntryProposal A) (equity : A) (e : PortfolioRiskEngine A) (current : Bool)
      → Outcome p equity e
          (if current then weigh p equity e else (rejected "OUT_OF_ORDER_TIMESTAMP" p.key e, e))
  dated-Outcome p equity e true = weigh-Outcome p equity e
  dated-Outcome p equity e false = inl (record {
    peak = e.peak_equity;
    state = refl;
    refused = rejected-refuses "OUT_OF_ORDER_TIMESTAMP" p.key e;
  })

  pub evaluate_entry-cases :
      (p : PortfolioEntryProposal A) (equity : A) (e : PortfolioRiskEngine A)
      → (e1 : PortfolioRiskEngine A) × Rolled e e1 × Outcome p equity e1 (evaluate_entry p equity e)
  unfolding evaluate_entry
  evaluate_entry-cases p equity e = elim (Result-cases (utc p.proposed_at_utc)) [
    | inr (error, naive) ↦
        rw (evaluate_entry, naive)
          (
            e,
            same_day refl,
            inl (record { peak = e.peak_equity; state = refl; refused = λ d k. absurd (cc k) }),
          )
    | inl (now, aware) ↦
        rw (evaluate_entry, aware)
          ((roll_day now e).1, roll_day-Rolled now e, dated-Outcome p equity _ (roll_day now e).0)
  ]
