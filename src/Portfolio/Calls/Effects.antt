-- ===== src/Portfolio/Calls/Effects.antt =====
-- What a call changes on a portfolio engine (src/risk/portfolio_engine.py).
use greenfield.Base.{
  Datetime, Bool, false, true, Option, none, some, String, ◌≡◌, refl, ap, inl, inr, arith, Result,
  ok, err, Result-cases, Floats, max_of, insert, remove, lookup, has_key, >>=-eq-ok,
}
use greenfield.Portfolio.Records.{
  Error, PortfolioRiskDecision, PortfolioEntryProposal, utc, position_post_init,
}
use greenfield.Portfolio.Engine.{PortfolioRiskEngine, roll_day, positive_equity}
use greenfield.Portfolio.Entry.{evaluate_entry, approval}
use greenfield.Portfolio.Entry.Cases.{Rolled, same_day, evaluate_entry-cases, roll_day-Rolled}
use greenfield.Portfolio.Entry.Limits.{unblocked-IsClear, IsClear}
use greenfield.Portfolio.Calls.{
  Call, evaluate, open_position, close_position, activate, clear, observe_equity, execute, commit,
  record_open, validate_open, opened_position, is_issued, record_close, settle,
  activate_kill_switch, clear_kill_switch, update_equity,
}

abbrev pub is_clear : {A : Type 0} → Call A → Bool
is_clear (clear reason) = true
is_clear _ = false

-- The key that a call asks a decision for.
abbrev pub asked_key : {A : Type 0} → Call A → Option String
asked_key (evaluate p equity) = some p.key
asked_key _ = none

module _ {A : Type 0} ⦃F : Floats A⦄ where
  -- A change after the day has been rolled.
  pub data Change (c : Call A) (e e' : PortfolioRiskEngine A) : Type 0 where
    peaks : (peak : A) → e' ≡ record e { peak_equity = peak } → Change c e e'
    issues :
        (p : PortfolioEntryProposal A) (peak : A) (d : PortfolioRiskDecision A)
        → asked_key c ≡ some p.key
        → IsClear p e
        → d.approved ≡ true
        → d.proposal_key ≡ p.key
        → e'
          ≡ record e { peak_equity = peak; pending_decisions = insert p.key d e.pending_decisions }
        → Change c e e'
    opens :
        (p : PortfolioEntryProposal A) (d : PortfolioRiskDecision A)
        → has_key p.key e.positions ≡ false
        → is_issued d (lookup p.key e.pending_decisions) ≡ true
        → position_post_init (opened_position p d) ≡ ok tt
        → e' ≡ record e {
          positions = insert p.key (opened_position p d) e.positions;
          pending_decisions = remove p.key e.pending_decisions;
        }
        → Change c e e'
    closes :
        (key : String) (pnl : A)
        → has_key key e.positions ≡ true
        → e' ≡ record e {
          positions = remove key e.positions;
          daily_realized_pnl = F.add e.daily_realized_pnl pnl;
        }
        → Change c e e'
    kills : (reason : String) → e' ≡ record e { kill_switch_reason = some reason } → Change c e e'
    clears : is_clear c ≡ true → e' ≡ record e { kill_switch_reason = none } → Change c e e'

  abbrev pub Effect : Call A → PortfolioRiskEngine A → PortfolioRiskEngine A → Type 0
  Effect c e e' = (e1 : PortfolioRiskEngine A) × Rolled e e1 × Change c e1 e'

  abbrev stays : {c : Call A} (e : PortfolioRiskEngine A) → Change c e e
  stays e = peaks e.peak_equity refl

  unrolled : {c : Call A} (e e' : PortfolioRiskEngine A) → Change c e e' → Effect c e e'
  unrolled e e' c = (e, same_day refl, c)

  evaluate-Effect :
      (p : PortfolioEntryProposal A) (equity : A) (e : PortfolioRiskEngine A)
      → Effect (evaluate p equity) e (evaluate_entry p equity e).1
  unfolding approval
  evaluate-Effect p equity e =
      let (e1, rolled, outcome) = evaluate_entry-cases p equity e in
      elim outcome [
        | inl refusal ↦ (e1, rolled, peaks refusal.peak refusal.state)
        | inr i ↦
            let free =
              unblocked-IsClear p equity (record e1 { peak_equity = i.peak }) i.unblocked in
            (
              e1,
              rolled,
              issues p i.peak i.decision refl
                  (record {
                    not_killed = free.not_killed;
                    not_open = free.not_open;
                    has_slot = free.has_slot;
                    evidence = free.evidence;
                  })
                  (ap (λ d. d.approved) i.found) (ap (λ d. d.proposal_key) i.found) i.state,
            )
      ]

  pub validate_open-facts :
      (p : PortfolioEntryProposal A) (d : PortfolioRiskDecision A) (e : PortfolioRiskEngine A)
      → validate_open p d e ≡ ok tt
      → (has_key p.key e.positions ≡ false)
        × (is_issued d (lookup p.key e.pending_decisions) ≡ true)
        × (position_post_init (opened_position p d) ≡ ok tt)
  unfolding validate_open
  validate_open-facts p d e h = (ground arith, ground arith, ground arith)

  record_open-Change :
      (p : PortfolioEntryProposal A) (d : PortfolioRiskDecision A) (e e' : PortfolioRiskEngine A)
      → record_open p d e ≡ ok e'
      → Change (open_position p d) e e'
  unfolding record_open
  record_open-Change p d e e' h =
      let (done, valid, made) = >>=-eq-ok (validate_open p d e) _ h in
      let (fresh, issued, built) = validate_open-facts p d e valid in
      opens p d fresh issued built (ground arith)

  settle-Change :
      {c : Call A} (key : String) (pnl : A) (e e' : PortfolioRiskEngine A)
      → settle key pnl e ≡ ok e'
      → Change c e e'
  unfolding settle
  settle-Change key pnl e e' h = closes key pnl (ground arith) (ground arith)

  activate-Change :
      (reason : String) (e e' : PortfolioRiskEngine A)
      → activate_kill_switch reason e ≡ ok e'
      → Change (activate reason) e e'
  unfolding activate_kill_switch
  activate-Change reason e e' h = kills reason (ground arith)

  clear-Change :
      (reason : String) (e e' : PortfolioRiskEngine A)
      → clear_kill_switch reason e ≡ ok e'
      → Change (clear reason) e e'
  unfolding clear_kill_switch
  clear-Change reason e e' h = clears refl (ground arith)

  update_equity-Change :
      (equity : A) (e e' : PortfolioRiskEngine A)
      → update_equity equity e ≡ ok e'
      → Change (observe_equity equity) e e'
  unfolding update_equity
  update_equity-Change equity e e' h =
      let (done, valid, made) = >>=-eq-ok (positive_equity equity) _ h in
      peaks (max_of e.peak_equity equity) (ground arith)

  commit-Change :
      {c : Call A} (e : PortfolioRiskEngine A) (made : Result Error (PortfolioRiskEngine A))
      → ((e' : PortfolioRiskEngine A) → made ≡ ok e' → Change c e e')
      → Change c e (commit e made).1
  commit-Change e (ok e') changed = changed e' refl
  commit-Change e (err error) changed = stays e

  close-Effect :
      (key : String) (pnl : A) (at : Datetime) (e : PortfolioRiskEngine A)
      → Effect (close_position key pnl at) e (record_close key pnl at e).1
  unfolding record_close
  close-Effect key pnl at e = elim (Result-cases (utc at)) [
    | inr (error, naive) ↦ rw (record_close, naive) (unrolled e e (stays e))
    | inl (now, aware) ↦
        rw (record_close, aware)
          (
            (roll_day now e).1,
            roll_day-Rolled now e,
            commit-Change _ _ (settle-Change key pnl (roll_day now e).1),
          )
  ]

  pub execute-Effect : (c : Call A) (e : PortfolioRiskEngine A) → Effect c e (execute c e)
  unfolding execute
  execute-Effect (evaluate p equity) e = evaluate-Effect p equity e
  execute-Effect (open_position p d) e =
      unrolled e _ (commit-Change e (record_open p d e) (record_open-Change p d e))
  execute-Effect (close_position key pnl at) e = close-Effect key pnl at e
  execute-Effect (activate reason) e =
      unrolled e _ (commit-Change e (activate_kill_switch reason e) (activate-Change reason e))
  execute-Effect (clear reason) e =
      unrolled e _ (commit-Change e (clear_kill_switch reason e) (clear-Change reason e))
  execute-Effect (observe_equity equity) e =
      unrolled e _ (commit-Change e (update_equity equity e) (update_equity-Change equity e))
