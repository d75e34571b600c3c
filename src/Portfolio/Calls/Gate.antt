-- ===== src/Portfolio/Calls/Gate.antt =====
-- The kill switch and the decisions of a portfolio engine over any sequence of calls
-- (src/risk/portfolio_engine.py).
use greenfield.Base.{
  Bool, Result, err, Result-cases, >>=-eq-ok, ok_eq, text_refl, true, false, Option, some, none,
  String, ◌≡◌, refl, sym, ◌∙◌, subst, ap, List, [], ◌∷◌, ok, arith, Floats, lookup, lookup-insert,
  lookup-remove, ◌=$◌, All, has_key, ◌||◌, =$_iff, Bool-cases, Option-cases, inl, inr, is_some, ◌≢◌,
}
use greenfield.Portfolio.Records.{Error, PortfolioRiskDecision, PortfolioEntryProposal}
use greenfield.Portfolio.Engine.{PortfolioRiskEngine}
use greenfield.Portfolio.Entry.{evaluate_entry}
use greenfield.Portfolio.Entry.Cases.{Rolled-keeps}
use greenfield.Portfolio.Entry.Limits.{evaluate_entry-IsClear}
use greenfield.Portfolio.Calls.{
  Call, execute, run_calls, record_open, validate_open, opened_position, is_issued,
}
use greenfield.Portfolio.Calls.Effects.{
  Change, peaks, issues, opens, closes, kills, clears, execute-Effect, validate_open-facts,
  is_clear, asked_key,
}

module _ {A : Type 0} ⦃F : Floats A⦄ where
  -- The kill switch is on, no decision has been issued since, and a position that has been opened
  -- since was approved before.
  pub record Halted (e e' : PortfolioRiskEngine A) : Type 0 where
    pub on : is_some e'.kill_switch_reason ≡ true
    pub pending :
        (k : String) (d : PortfolioRiskDecision A)
        → lookup k e'.pending_decisions ≡ some d
        → lookup k e.pending_decisions ≡ some d
    pub positions :
        (k : String)
        → has_key k e'.positions ≡ true
        → (has_key k e.positions || has_key k e.pending_decisions) ≡ true

  Halted-trans : (e e1 e' : PortfolioRiskEngine A) → Halted e e1 → Halted e1 e' → Halted e e'
  Halted-trans e e1 e' h h' = record {
    on = h'.on;
    pending = λ k d f. h.pending k d (h'.pending k d f);
    positions = λ k f. elim (Bool-cases (has_key k e1.positions)) [
      | inl open_ ↦ h.positions k open_
      | inr closed ↦ elim (Option-cases (lookup k e1.pending_decisions)) [
        | inl missing ↦ absurd (ground (arith, h'.positions k f))
        | inr (d, there) ↦ ground (arith, h.pending k d there)
      ]
    ];
  }

  Halted-same :
      (e e' : PortfolioRiskEngine A)
      → is_some e'.kill_switch_reason ≡ true
      → e'.positions ≡ e.positions
      → e'.pending_decisions ≡ e.pending_decisions
      → Halted e e'
  Halted-same e e' on same same_pending = record {
    on = on;
    pending = λ k d f. ap (lookup k) (sym same_pending) ∙ f;
    positions = λ k f. ground (arith, ap (lookup k) same);
  }

  issued-is_some :
      (d : PortfolioRiskDecision A) (found : Option (PortfolioRiskDecision A))
      → is_issued d found ≡ true
      → is_some found ≡ true
  unfolding is_issued
  issued-is_some d none h = h
  issued-is_some d (some issued) h = refl

  Change-Halted :
      (c : Call A) (e e' : PortfolioRiskEngine A)
      → is_clear c ≡ false
      → is_some e.kill_switch_reason ≡ true
      → Change c e e'
      → Halted e e'
  Change-Halted c e e' n on (peaks peak h) = Halted-same e e' (rw h on) (rw h refl) (rw h refl)
  Change-Halted c e e' n on (kills reason h) = Halted-same e e' (rw h refl) (rw h refl) (rw h refl)
  Change-Halted c e e' n on (clears s h) = absurd (ground arith)
  Change-Halted c e e' n on (issues p peak d asked free approved owns h) =
      absurd (ground (arith, free.not_killed))
  Change-Halted c e e' n on (opens p d fresh issued built h) = rw h (record {
    on = on;
    pending = λ k x f. ground (arith, lookup-remove p.key k e.pending_decisions);
    positions = λ k f. elim (Bool-cases (p.key =$ k)) [
      | inl same ↦
          subst (λ i. (has_key i e.positions || has_key i e.pending_decisions) ≡ true)
            ((=$_iff p.key k).0 same)
            (ground (arith, issued-is_some d (lookup p.key e.pending_decisions) issued))
      | inr other ↦ ground (arith, lookup-insert p.key k (opened_position p d) e.positions)
    ];
  })
  Change-Halted c e e' n on (closes key pnl open_ h) = rw h (record {
    on = on;
    pending = λ k x f. f;
    positions = λ k f. ground (arith, lookup-remove key k e.positions);
  })

  execute-Halted :
      (c : Call A) (e : PortfolioRiskEngine A)
      → is_clear c ≡ false
      → is_some e.kill_switch_reason ≡ true
      → Halted e (execute c e)
  execute-Halted c e n on =
      let (e1, rolled, change) = execute-Effect c e in
      let same = Rolled-keeps e e1 rolled in
      let still = subst (λ r. is_some r ≡ true) (sym same.kill_switch) on in
      Halted-trans e e1 _ (Halted-same e e1 still same.positions same.pending)
        (Change-Halted c e1 _ n still change)

  pub run_calls-Halted :
      (cs : List (Call A)) (e : PortfolioRiskEngine A)
      → All (λ c. is_clear c ≡ false) cs
      → is_some e.kill_switch_reason ≡ true
      → Halted e (run_calls cs e)
  unfolding run_calls
  run_calls-Halted [] e none_clear on = Halted-same e e on refl refl
  run_calls-Halted (c ∷ cs) e (n, none_clear) on =
      let first = execute-Halted c e n on in
      Halted-trans e (execute c e) _ first (run_calls-Halted cs (execute c e) none_clear first.on)

  -- Whether a call of `evaluate_entry` returns an approval; one that raises does not.
  abbrev pub is_approval : Result Error (PortfolioRiskDecision A) → Bool
  is_approval (ok d) = d.approved
  is_approval (err error) = false

  killed-refuses :
      (p : PortfolioEntryProposal A) (equity : A) (e : PortfolioRiskEngine A)
      → is_some e.kill_switch_reason ≡ true
      → is_approval (evaluate_entry p equity e).0 ≡ false
  killed-refuses p equity e on = elim (Result-cases (evaluate_entry p equity e).0) [
    | inr (error, raised) ↦ ap is_approval raised
    | inl (d, made) ↦ ap is_approval made ∙ elim (Bool-cases d.approved) [
      | inr refused ↦ refused
      | inl approved ↦
          absurd (ground (arith, (evaluate_entry-IsClear p equity e d made approved).not_killed))
    ]
  ]

  -- When the kill switch of a portfolio engine is on and a sequence of calls does not clear it,
  -- then afterwards it is still on, every decision that is pending was pending before, every
  -- position was open or had a pending decision before, and `evaluate_entry` approves no proposal.
  pub kill_switch-run_calls :
      (cs : List (Call A)) (e : PortfolioRiskEngine A)
      → All (λ c. is_clear c ≡ false) cs
      → is_some e.kill_switch_reason ≡ true
      → (p : PortfolioEntryProposal A) (equity : A)
      → Halted e (run_calls cs e)
        × (is_approval (evaluate_entry p equity (run_calls cs e)).0 ≡ false)
  kill_switch-run_calls cs e none_clear on p equity =
      let halted = run_calls-Halted cs e none_clear on in
      (halted, killed-refuses p equity (run_calls cs e) halted.on)

  -- No decision is pending for a key.
  abbrev Spent : String → PortfolioRiskEngine A → Type 0
  Spent k e = lookup k e.pending_decisions ≡ none

  Change-Spent :
      (k : String) (c : Call A) (e e' : PortfolioRiskEngine A)
      → (asked_key c ≢ some k)
      → Change c e e'
      → Spent k e
      → Spent k e'
  Change-Spent k c e e' n (peaks peak h) s = rw h s
  Change-Spent k c e e' n (kills reason h) s = rw h s
  Change-Spent k c e e' n (clears b h) s = rw h s
  Change-Spent k c e e' n (closes key pnl open_ h) s = rw h s
  Change-Spent k c e e' n (issues p peak d asked free approved owns h) s =
      rw h (elim (Bool-cases (p.key =$ k)) [
        | inl same ↦ absurd (n (asked ∙ ap some ((=$_iff p.key k).0 same)))
        | inr other ↦ ground (arith, lookup-insert p.key k d e.pending_decisions)
      ])
  Change-Spent k c e e' n (opens p d fresh issued built h) s =
      rw h (ground (arith, lookup-remove p.key k e.pending_decisions))

  run_calls-Spent :
      (k : String) (cs : List (Call A)) (e : PortfolioRiskEngine A)
      → All (λ c. asked_key c ≢ some k) cs
      → Spent k e
      → Spent k (run_calls cs e)
  unfolding run_calls
  run_calls-Spent k [] e unasked s = s
  run_calls-Spent k (c ∷ cs) e (n, unasked) s =
      let (e1, rolled, change) = execute-Effect c e in
      run_calls-Spent k cs (execute c e) unasked
        (Change-Spent k c e1 _ n change (ap (lookup k) (Rolled-keeps e e1 rolled).pending ∙ s))

  record_open-Spent :
      (p : PortfolioEntryProposal A) (d : PortfolioRiskDecision A) (e e1 : PortfolioRiskEngine A)
      → record_open p d e ≡ ok e1
      → Spent p.key e1
  unfolding record_open
  record_open-Spent p d e e1 h =
      let (done, valid, made) = >>=-eq-ok (validate_open p d e) _ h in
      subst (Spent p.key) (ok_eq _ e1 made)
        (ground (arith, lookup-remove p.key p.key e.pending_decisions, text_refl p.key))

  Spent-refused :
      (q : PortfolioEntryProposal A) (d : PortfolioRiskDecision A) (e e1 : PortfolioRiskEngine A)
      → Spent q.key e
      → record_open q d e ≢ ok e1
  unfolding record_open
  Spent-refused q d e e1 s h =
      let (done, valid, made) = >>=-eq-ok (validate_open q d e) _ h in
      let (fresh, issued, built) = validate_open-facts q d e valid in
      absurd (ground (arith, issued-is_some d (lookup q.key e.pending_decisions) issued))

  -- When `record_open` has opened a proposal, then after any calls that ask no decision for its
  -- key, `record_open` of any proposal with that key and of any decision raises.
  pub record_open-once :
      (p q : PortfolioEntryProposal A) (d x : PortfolioRiskDecision A)
      (e e1 e2 : PortfolioRiskEngine A) (cs : List (Call A))
      → record_open p d e ≡ ok e1
      → All (λ c. asked_key c ≢ some p.key) cs
      → q.key ≡ p.key
      → record_open q x (run_calls cs e1) ≢ ok e2
  record_open-once p q d x e e1 e2 cs h unasked same = Spent-refused q x (run_calls cs e1) e2 (
      subst (λ k. Spent k (run_calls cs e1)) (sym same)
        (run_calls-Spent p.key cs e1 unasked (record_open-Spent p d e e1 h)))
