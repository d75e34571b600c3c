-- ===== src/Portfolio/Entry/Limits.antt =====
-- The gates that an approval of `evaluate_entry` has passed (src/risk/portfolio_engine.py).
use greenfield.Base.{
  List, [], ◌∷◌, All, map, values, not, ◌||◌, ◌=$◌, Bool-cases, ◌<◌, false, true, none, ◌≡◌, inl,
  inr, arith, ok, Floats, ok_eq, has_key, length, Option-cases, subst, sym, ◌∙◌,
}
use greenfield.Portfolio.Records.{
  PortfolioPosition, contains, is_subset, PortfolioEntryProposal, PortfolioRiskDecision,
}
use greenfield.Portfolio.Engine.{PortfolioRiskEngine, limit_reason, select, blocking_reason}
use greenfield.Portfolio.Entry.{evaluate_entry}
use greenfield.Portfolio.Entry.Cases.{Rolled, Rolled-keeps, IsApproval, evaluate_entry-cases}

module _ {A : Type 0} ⦃F : Floats A⦄ where
  -- An approving call has issued the decision that it returns.
  pub evaluate_entry-issues :
      (p : PortfolioEntryProposal A) (equity : A) (e : PortfolioRiskEngine A)
      → (d : PortfolioRiskDecision A) → (evaluate_entry p equity e).0 ≡ ok d
      → d.approved ≡ true
      → (e1 : PortfolioRiskEngine A) × Rolled e e1
        × (i : IsApproval p equity e1 (evaluate_entry p equity e)) × (i.decision ≡ d)
  evaluate_entry-issues p equity e d h allowed =
      let (e1, rolled, outcome) = evaluate_entry-cases p equity e in
      elim outcome [
        | inl refusal ↦ absurd (ground (arith, refusal.refused d h))
        | inr i ↦ (e1, rolled, i, ok_eq i.decision d (sym i.result ∙ h))
      ]

  -- Each position is in the symbol of the proposal or in one that the proposal has evidence on.
  abbrev pub IsChecked : PortfolioEntryProposal A → List (PortfolioPosition A) → Type 0
  IsChecked p ps =
      All (λ q. (q.symbol =$ p.symbol || contains q.symbol p.correlation_checked_symbols) ≡ true) ps

  is_subset-IsChecked :
      (p : PortfolioEntryProposal A) (ps : List (PortfolioPosition A))
      → is_subset
          (map (λ q. q.symbol) (select (λ q. not (q.symbol =$ p.symbol)) ps))
          p.correlation_checked_symbols
        ≡ true
      → IsChecked p ps
  is_subset-IsChecked p [] h = tt
  is_subset-IsChecked p (q ∷ ps) h = elim (Bool-cases (q.symbol =$ p.symbol)) [
    | inl same ↦ (ground arith, is_subset-IsChecked p ps (ground arith))
    | inr other ↦ (ground arith, is_subset-IsChecked p ps (ground arith))
  ]

  -- The gates that an approval has passed.
  pub record IsClear (p : PortfolioEntryProposal A) (e : PortfolioRiskEngine A) : Type 0 where
    pub not_killed : e.kill_switch_reason ≡ none
    pub not_open : has_key p.key e.positions ≡ false
    pub has_slot : length e.positions < e.config.maximum_open_positions
    pub evidence : IsChecked p (values e.positions)

  pub unblocked-IsClear :
      (p : PortfolioEntryProposal A) (equity : A) (e : PortfolioRiskEngine A)
      → blocking_reason p equity e ≡ none
      → IsClear p e
  unfolding blocking_reason limit_reason
  unblocked-IsClear p equity e h = elim (Option-cases e.kill_switch_reason) [
    | inr (reason, on) ↦ absurd (ground arith)
    | inl off ↦ record {
      not_killed = off;
      not_open = ground arith;
      has_slot = ground arith;
      evidence = is_subset-IsChecked p (values e.positions) (ground arith);
    }
  ]

  -- When `evaluate_entry` approves a proposal, then before the call the kill switch was off, the
  -- key of the proposal was not open, fewer positions than `maximum_open_positions` were open, and
  -- the proposal had correlation evidence on the symbol of every position in another symbol.
  pub evaluate_entry-IsClear :
      (p : PortfolioEntryProposal A) (equity : A) (e : PortfolioRiskEngine A)
      (d : PortfolioRiskDecision A)
      → (evaluate_entry p equity e).0 ≡ ok d
      → d.approved ≡ true
      → IsClear p e
  evaluate_entry-IsClear p equity e d h allowed =
      let (e1, rolled, i, same) = evaluate_entry-issues p equity e d h allowed in
      let kept = Rolled-keeps e e1 rolled in
      let free = unblocked-IsClear p equity (record e1 { peak_equity = i.peak }) i.unblocked in
      record {
        not_killed = sym kept.kill_switch ∙ free.not_killed;
        not_open = subst (λ q. has_key p.key q ≡ false) kept.positions free.not_open;
        has_slot =
            subst (λ q. length q < e.config.maximum_open_positions) kept.positions
              (subst (λ c. length e1.positions < c.maximum_open_positions) kept.config
                free.has_slot);
        evidence = subst (λ q. IsChecked p (values q)) kept.positions free.evidence;
      }
