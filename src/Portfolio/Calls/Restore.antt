-- ===== src/Portfolio/Calls/Restore.antt =====
-- `snapshot` and `from_snapshot` of a portfolio engine (src/risk/portfolio_engine.py).
use greenfield.Base.{
  ◌≤◌, false, Option, some, none, String, ◌≡◌, refl, ◌∙◌, subst, ap, List, [], ◌∷◌, ok, arith,
  text_refl, Floats, Option-cases, lookup, insert, lookup-insert, ◌=$◌, =$_iff, values, IsUnique,
  Dict, length, suc, is_some, >>=-eq-ok, ok_eq, if◌then◌else◌,
}
use greenfield.Portfolio.Records.{
  PortfolioPosition, PortfolioRiskSnapshot, snapshot_post_init, contains, repeats, keys_of,
}
use greenfield.Portfolio.Engine.{PortfolioRiskEngine, sort_by_key, insert_by_key, index_by_key}
use greenfield.Portfolio.Calls.{snapshot, from_snapshot}
use greenfield.Portfolio.Calls.Invariant.{IsValid, Entries}

module _ {A : Type 0} where
  -- The first position that has a key.
  pub find : String → List (PortfolioPosition A) → Option (PortfolioPosition A)
  find k [] = none
  find k (p ∷ ps) = if p.key =$ k then some p else find k ps

  abbrev pub Distinct : List (PortfolioPosition A) → Type 0
  Distinct [] = Unit
  Distinct (p ∷ ps) = (find p.key ps ≡ none) × Distinct ps

  contains-find :
      (k : String) (ps : List (PortfolioPosition A)) → contains k (keys_of ps) ≡ is_some (find k ps)
  unfolding contains find
  contains-find k [] = refl
  contains-find k (p ∷ ps) = ground (arith, contains-find k ps)

  repeats-Distinct : (ps : List (PortfolioPosition A)) → repeats (keys_of ps) ≡ false → Distinct ps
  unfolding repeats
  repeats-Distinct [] h = tt
  repeats-Distinct (p ∷ ps) h = (
    ground (arith, contains-find p.key ps, Option-cases (find p.key ps)),
    repeats-Distinct ps (ground arith),
  )

  find-insert_by_key :
      (k : String) (p : PortfolioPosition A) (qs : List (PortfolioPosition A))
      → find p.key qs ≡ none
      → find k (insert_by_key p qs) ≡ find k (p ∷ qs)
  unfolding find insert_by_key
  find-insert_by_key k p [] h = refl
  find-insert_by_key k p (q ∷ qs) h =
      ground (arith, find-insert_by_key k p qs, =$_iff q.key k, =$_iff p.key k, =$_iff q.key p.key)

  find-sort_by_key :
      (k : String) (ps : List (PortfolioPosition A))
      → Distinct ps
      → find k (sort_by_key ps) ≡ find k ps
  unfolding find sort_by_key
  find-sort_by_key k [] h = refl
  find-sort_by_key k (p ∷ ps) (fresh, h) =
      find-insert_by_key k p (sort_by_key ps) (find-sort_by_key p.key ps h ∙ fresh)
      ∙ ap (λ o. if p.key =$ k then some p else o) (find-sort_by_key k ps h)

  -- A dictionary that is built from positions finds what the positions have.
  lookup-index_by_key :
      (k : String) (ps : List (PortfolioPosition A)) (d : Dict (PortfolioPosition A))
      → Distinct ps
      → lookup k (index_by_key ps d) ≡ (if is_some (find k ps) then find k ps else lookup k d)
  unfolding find index_by_key
  lookup-index_by_key k [] d h = refl
  lookup-index_by_key k (p ∷ ps) d (fresh, h) = ground (
    arith,
    lookup-index_by_key k ps (insert p.key p d) h,
    lookup-insert p.key k p d,
    =$_iff p.key k,
    Option-cases (find k ps),
  )

  -- The values of a dictionary whose entries stand under their own keys.
  abbrev Keyed : Dict (PortfolioPosition A) → Type 0
  Keyed d = Entries (λ k p. p.key ≡ k) d

  Keyed-tail :
      (j : String) (p : PortfolioPosition A) (d : Dict (PortfolioPosition A))
      → lookup j d ≡ none
      → Keyed ((j, p) ∷ d)
      → Keyed d
  unfolding lookup
  Keyed-tail j p d fresh h k q found = h k q (ground (arith, =$_iff j k))

  Keyed-own :
      (j : String) (p : PortfolioPosition A) (d : Dict (PortfolioPosition A))
      → Keyed ((j, p) ∷ d)
      → p.key ≡ j
  unfolding lookup
  Keyed-own j p d h = h j p (ground (arith, text_refl j))

  find-values :
      (k : String) (d : Dict (PortfolioPosition A))
      → IsUnique d
      → Keyed d
      → find k (values d) ≡ lookup k d
  unfolding find values lookup
  find-values k [] u h = refl
  find-values k ((j, p) ∷ d) (fresh, u) h =
      let own : p.key ≡ j = Keyed-own j p d h in
      ap (λ i. if i =$ k then some p else find k (values d)) own
      ∙ ap (λ o. if j =$ k then some p else o) (find-values k d u (Keyed-tail j p d fresh h))

  values-Distinct : (d : Dict (PortfolioPosition A)) → IsUnique d → Keyed d → Distinct (values d)
  unfolding values
  values-Distinct [] u h = tt
  values-Distinct ((j, p) ∷ d) (fresh, u) h =
      let rest = Keyed-tail j p d fresh h in
      (
        ap (λ i. find i (values d)) (Keyed-own j p d h) ∙ find-values j d u rest ∙ fresh,
        values-Distinct d u rest,
      )

  length-insert_by_key :
      (p : PortfolioPosition A) (qs : List (PortfolioPosition A))
      → length (insert_by_key p qs) ≡ suc (length qs)
  unfolding insert_by_key
  length-insert_by_key p [] = refl
  length-insert_by_key p (q ∷ qs) = ground (arith, length-insert_by_key p qs)

  length-sort_by_key : (ps : List (PortfolioPosition A)) → length (sort_by_key ps) ≡ length ps
  unfolding sort_by_key
  length-sort_by_key [] = refl
  length-sort_by_key (p ∷ ps) =
      length-insert_by_key p (sort_by_key ps) ∙ ap suc (length-sort_by_key ps)

  length-values : (d : Dict (PortfolioPosition A)) → length (values d) ≡ length d
  unfolding values
  length-values [] = refl
  length-values ((j, p) ∷ d) = ap suc (length-values d)

  -- The positions of a snapshot, as a dictionary again.
  lookup-restored :
      (k : String) (d : Dict (PortfolioPosition A))
      → IsUnique d
      → Keyed d
      → Distinct (sort_by_key (values d))
      → lookup k (index_by_key (sort_by_key (values d)) []) ≡ lookup k d
  unfolding lookup
  lookup-restored k d u h distinct = ground (
    arith,
    lookup-index_by_key k (sort_by_key (values d)) [] distinct,
    find-sort_by_key k (values d) (values-Distinct d u h),
    find-values k d u h,
    Option-cases (lookup k d),
  )

module _ {A : Type 0} ⦃F : Floats A⦄ where
  -- The safety state is the same; decisions that are still pending are forgotten.
  pub record IsRestored (e e' : PortfolioRiskEngine A) : Type 0 where
    pub config : e'.config ≡ e.config
    pub positions : (k : String) → lookup k e'.positions ≡ lookup k e.positions
    pub peak : e'.peak_equity ≡ e.peak_equity
    pub loss : e'.daily_realized_pnl ≡ e.daily_realized_pnl
    pub day : e'.current_day ≡ e.current_day
    pub kill_switch : e'.kill_switch_reason ≡ e.kill_switch_reason
    pub pending : e'.pending_decisions ≡ []

  abbrev pub taken : PortfolioRiskEngine A → PortfolioRiskSnapshot A
  taken e = record {
    positions = sort_by_key (values e.positions);
    peak_equity = e.peak_equity;
    daily_realized_pnl = e.daily_realized_pnl;
    current_day = e.current_day;
    kill_switch_reason = e.kill_switch_reason;
  }

  snapshot_post_init-repeats :
      (s : PortfolioRiskSnapshot A)
      → snapshot_post_init s ≡ ok tt
      → repeats (keys_of s.positions) ≡ false
  unfolding snapshot_post_init
  snapshot_post_init-repeats s h = ground arith

  pub snapshot-fields :
      (e : PortfolioRiskEngine A) (s : PortfolioRiskSnapshot A)
      → snapshot e ≡ ok s
      → (taken e ≡ s)
        × (repeats (keys_of (sort_by_key (values e.positions))) ≡ false)
        × (snapshot_post_init (taken e) ≡ ok tt)
  unfolding snapshot
  snapshot-fields e s h =
      let (done, valid, made) = >>=-eq-ok (snapshot_post_init (taken e)) _ h in
      (ok_eq (taken e) s made, snapshot_post_init-repeats (taken e) valid, valid)

  restored : PortfolioRiskEngine A → PortfolioRiskEngine A
  restored e = record e {
    positions = index_by_key (sort_by_key (values e.positions)) [];
    pending_decisions = [];
  }

  from_snapshot-taken :
      (e : PortfolioRiskEngine A)
      → length e.positions ≤ e.config.maximum_open_positions
      → from_snapshot e.config (taken e) ≡ ok (restored e)
  unfolding from_snapshot restored
  from_snapshot-taken e few =
      let size : length (sort_by_key (values e.positions)) ≡ length e.positions =
        length-sort_by_key (values e.positions) ∙ length-values e.positions in
      rw size (ground arith)

  -- When a valid portfolio engine within its position limit gives a snapshot, `from_snapshot` with
  -- the same configuration succeeds on it, and the new engine has the same configuration, the same
  -- position under every key, the same peak equity, daily loss, day and kill switch, and no pending
  -- decision.
  pub from_snapshot-snapshot :
      (e : PortfolioRiskEngine A) (s : PortfolioRiskSnapshot A)
      → IsValid e
      → snapshot e ≡ ok s
      → length e.positions ≤ e.config.maximum_open_positions
      → (e' : PortfolioRiskEngine A) × (from_snapshot e.config s ≡ ok e') × IsRestored e e'
  unfolding restored
  from_snapshot-snapshot e s v h few =
      let (same, distinct, passes) = snapshot-fields e s h in
      let own : Keyed e.positions = λ k p found. (v.kept k p found).0 in
      (
        restored e,
        subst (λ t. from_snapshot e.config t ≡ ok (restored e)) same (from_snapshot-taken e few),
        record {
          config = refl;
          positions = λ k. lookup-restored k e.positions v.unique own (repeats-Distinct _ distinct);
          peak = refl;
          loss = refl;
          day = refl;
          kill_switch = refl;
          pending = refl;
        },
      )
