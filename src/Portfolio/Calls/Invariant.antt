-- ===== src/Portfolio/Calls/Invariant.antt =====
-- Well-formed portfolio engines (src/risk/portfolio_engine.py).
use greenfield.Base.{
  true, some, String, ◌≡◌, refl, sym, subst, List, [], ◌∷◌, ok, arith, Floats, lookup, insert,
  remove, IsUnique, insert-IsUnique, remove-IsUnique, lookup-insert, lookup-remove, ◌=$◌, =$_iff,
  Bool-cases, inl, inr, some_eq, Dict,
}
use greenfield.Portfolio.Records.{
  PortfolioPosition, PortfolioRiskDecision, PortfolioRiskConfig, position_post_init,
}
use greenfield.Portfolio.Engine.{PortfolioRiskEngine, new_engine}
use greenfield.Portfolio.Entry.Cases.{Rolled-keeps}
use greenfield.Portfolio.Calls.{Call, execute, run_calls, opened_position}
use greenfield.Portfolio.Calls.Effects.{
  Change, peaks, issues, opens, closes, kills, clears, execute-Effect,
}

-- Every entry of a dictionary has a property, with its key.
abbrev pub Entries : {V : Type 0} → (String → V → Type 0) → Dict V → Type 0
Entries {V} P d = (k : String) (v : V) → lookup k d ≡ some v → P k v

module _ {V : Type 0} (P : String → V → Type 0) where
  pub insert-Entries :
      (k : String) (v : V) (d : Dict V) → P k v → Entries P d → Entries P (insert k v d)
  insert-Entries k v d fits all_fit j w found = elim (Bool-cases (k =$ j)) [
    | inl same ↦
        subst (λ i. P i w) ((=$_iff k j).0 same)
          (subst (P k) (some_eq v w (ground (arith, lookup-insert k j v d))) fits)
    | inr other ↦ all_fit j w (ground (arith, lookup-insert k j v d))
  ]

  pub remove-Entries : (k : String) (d : Dict V) → Entries P d → Entries P (remove k d)
  remove-Entries k d all_fit j w found = all_fit j w (ground (arith, lookup-remove k j d))

module _ {A : Type 0} ⦃F : Floats A⦄ where
  -- A position stands under its own key and passes its checks.
  abbrev pub IsKept : String → PortfolioPosition A → Type 0
  IsKept k p = (p.key ≡ k) × (position_post_init p ≡ ok tt)

  -- A pending decision approves the proposal of its key.
  abbrev pub IsPending : String → PortfolioRiskDecision A → Type 0
  IsPending k d = (d.approved ≡ true) × (d.proposal_key ≡ k)

  pub record IsValid (e : PortfolioRiskEngine A) : Type 0 where
    pub unique : IsUnique e.positions
    pub unique_pending : IsUnique e.pending_decisions
    pub kept : Entries IsKept e.positions
    pub pending : Entries IsPending e.pending_decisions

  pub new_engine-IsValid : (config : PortfolioRiskConfig A) → IsValid (new_engine config)
  unfolding lookup
  new_engine-IsValid config = record {
    unique = tt;
    unique_pending = tt;
    kept = λ k p h. absurd (cc h);
    pending = λ k d h. absurd (cc h);
  }

  IsValid-same :
      (e e' : PortfolioRiskEngine A)
      → e'.positions ≡ e.positions
      → e'.pending_decisions ≡ e.pending_decisions
      → IsValid e
      → IsValid e'
  IsValid-same e e' same same_pending v = record {
    unique = subst IsUnique (sym same) v.unique;
    unique_pending = subst IsUnique (sym same_pending) v.unique_pending;
    kept = subst (Entries IsKept) (sym same) v.kept;
    pending = subst (Entries IsPending) (sym same_pending) v.pending;
  }

  Change-IsValid :
      (c : Call A) (e e' : PortfolioRiskEngine A) → Change c e e' → IsValid e → IsValid e'
  Change-IsValid c e e' (peaks peak h) v = IsValid-same e e' (rw h refl) (rw h refl) v
  Change-IsValid c e e' (kills reason h) v = IsValid-same e e' (rw h refl) (rw h refl) v
  Change-IsValid c e e' (clears s h) v = IsValid-same e e' (rw h refl) (rw h refl) v
  Change-IsValid c e e' (issues p peak d asked free approved owns h) v = rw h (record {
    unique = v.unique;
    unique_pending = insert-IsUnique p.key d e.pending_decisions v.unique_pending;
    kept = v.kept;
    pending = insert-Entries IsPending p.key d e.pending_decisions (approved, owns) v.pending;
  })
  Change-IsValid c e e' (opens p d fresh issued built h) v = rw h (record {
    unique = insert-IsUnique p.key (opened_position p d) e.positions v.unique;
    unique_pending = remove-IsUnique p.key e.pending_decisions v.unique_pending;
    kept = insert-Entries IsKept p.key _ e.positions (refl, built) v.kept;
    pending = remove-Entries IsPending p.key e.pending_decisions v.pending;
  })
  Change-IsValid c e e' (closes key pnl open_ h) v = rw h (record {
    unique = remove-IsUnique key e.positions v.unique;
    unique_pending = v.unique_pending;
    kept = remove-Entries IsKept key e.positions v.kept;
    pending = v.pending;
  })

  execute-IsValid : (c : Call A) (e : PortfolioRiskEngine A) → IsValid e → IsValid (execute c e)
  execute-IsValid c e v =
      let (e1, rolled, change) = execute-Effect c e in
      let same = Rolled-keeps e e1 rolled in
      Change-IsValid c e1 _ change (IsValid-same e e1 same.positions same.pending v)

  -- Any sequence of calls on a portfolio engine, those that raise included, keeps its invariant: no
  -- key stands twice among the positions or the pending decisions, each position stands under its
  -- own key and passes its checks, and each pending decision is an approval for its key.
  pub run_calls-IsValid :
      (cs : List (Call A)) (e : PortfolioRiskEngine A) → IsValid e → IsValid (run_calls cs e)
  unfolding run_calls
  run_calls-IsValid [] e v = v
  run_calls-IsValid (c ∷ cs) e v = run_calls-IsValid cs (execute c e) (execute-IsValid c e v)
