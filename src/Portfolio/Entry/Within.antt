-- ===== src/Portfolio/Entry/Within.antt =====
-- The limits that an approval of `evaluate_entry` keeps to (src/risk/portfolio_engine.py), written
-- from the open positions and the configuration.
use greenfield.Base.{
  true, false, ◌||◌, ◌=$◌, List, [], ◌∷◌, map, values, ◌≡◌, refl, sym, ◌∙◌, subst, inl, inr, arith,
  ok, Floats, Ieee, IeeeNumbers, if◌then◌else◌, max_of, min_of, min_of-first, min_of-rest,
  min_of-below, Bool-cases, All,
}
use greenfield.Portfolio.Records.{
  PortfolioRiskConfig, PortfolioPosition, PortfolioEntryProposal, PortfolioRiskDecision, contains,
}
use greenfield.Portfolio.Engine.{
  PortfolioRiskEngine, select, gross_of, gross_exposure, net_exposure, committed_risk_fraction,
}
use greenfield.Portfolio.Entry.{evaluate_entry, approval, approved_notional, rooms}
use greenfield.Portfolio.Entry.Cases.{Rolled-keeps}
use greenfield.Portfolio.Entry.Limits.{evaluate_entry-issues}

module _ {A : Type 0} ⦃F : Floats A⦄ where
  -- the open positions, as absolute notionals, as signed ones and as fractions of risk
  abbrev pub gross_sum : List (PortfolioPosition A) → A
  gross_sum ps = F.total (map (λ q. F.magnitude q.signed_notional) ps)

  abbrev pub net_sum : List (PortfolioPosition A) → A
  net_sum ps = F.total (map (λ q. q.signed_notional) ps)

  abbrev pub risk_sum : List (PortfolioPosition A) → A
  risk_sum ps = F.total (map (λ q. q.committed_risk_fraction) ps)

  -- The notional is not above a multiple of the equity less what is used of it.
  abbrev pub Fits : (notional multiple equity used : A) → Type 0
  Fits notional multiple equity used =
      F.less (F.subtract (F.times multiple equity) used) notional ≡ false

  -- A long notional raises the net exposure, and a short one lowers it.
  pub data Directed (p : PortfolioEntryProposal A) (limit net signed notional : A) : Type 0 where
    long :
        F.less F.nil p.signed_notional ≡ true
        → signed ≡ F.times F.unit notional
        → F.less (F.subtract limit net) notional ≡ false
        → Directed p limit net signed notional
    short :
        F.less F.nil p.signed_notional ≡ false
        → signed ≡ F.times (F.negative F.unit) notional
        → F.less (F.add limit net) notional ≡ false
        → Directed p limit net signed notional

  -- The notional is not above a share of the request that is neither above the whole nor above the
  -- ratio of the risk that is left to the risk of the proposal.
  pub record IsShare (p : PortfolioEntryProposal A) (left notional : A) : Type 0 where
    pub share : A
    pub whole : F.less F.unit share ≡ false
    pub ratio : F.less (F.divide (max_of F.nil left) p.committed_risk_fraction) share ≡ false
    pub covered : F.less (F.times (F.magnitude p.signed_notional) share) notional ≡ false

  -- A decision allocates a notional that fits every limit beside the open positions.
  pub record IsWithin (p : PortfolioEntryProposal A) (equity : A) (c : PortfolioRiskConfig A)
      (ps : List (PortfolioPosition A)) (d : PortfolioRiskDecision A) : Type 0 where
    pub notional : A
    pub requested_most : F.less (F.magnitude p.signed_notional) notional ≡ false
    pub minimum_least : F.less notional c.minimum_order_notional ≡ false
    pub gross : Fits notional c.maximum_gross_exposure_multiple equity (gross_sum ps)
    pub directed :
        Directed p
          (F.times c.maximum_net_exposure_multiple equity)
          (net_sum ps)
          d.approved_signed_notional
          notional
    pub symbol :
        Fits notional c.maximum_symbol_exposure_multiple equity
          (gross_sum (select (λ q. q.symbol =$ p.symbol) ps))
    pub venue :
        Fits notional c.maximum_venue_exposure_multiple equity
          (gross_sum (select (λ q. q.venue =$ p.venue) ps))
    pub strategy :
        Fits notional c.maximum_strategy_exposure_multiple equity
          (gross_sum (select (λ q. q.strategy =$ p.strategy) ps))
    pub engine :
        Fits notional c.maximum_engine_exposure_multiple equity
          (gross_sum (select (λ q. q.engine =$ p.engine) ps))
    pub correlated : Fits notional c.maximum_correlated_exposure_multiple equity (
        gross_sum (select (λ q. p.symbol =$ q.symbol || contains q.symbol p.correlated_symbols) ps))
    pub risk_share : IsShare p (F.subtract c.maximum_committed_risk_fraction (risk_sum ps)) notional
    pub risk :
        d.approved_risk_fraction
        ≡ F.divide (F.times p.committed_risk_fraction notional) (F.magnitude p.signed_notional)
    pub projected_gross : d.projected_gross_exposure ≡ F.add (gross_sum ps) notional
    pub projected_net : d.projected_net_exposure ≡ F.add (net_sum ps) d.approved_signed_notional
    pub projected_risk :
        d.projected_committed_risk_fraction ≡ F.add (risk_sum ps) d.approved_risk_fraction

  -- What is not above `max(0, left)`, and is above zero, is not above `left`.
  max_of-left :
      (left notional : A)
      → F.less F.nil notional ≡ true
      → F.less (max_of F.nil left) notional ≡ false
      → F.less left notional ≡ false
  unfolding max_of
  max_of-left left notional above h = ground (arith, Bool-cases (F.less F.nil left))

  net_room-Directed :
      (p : PortfolioEntryProposal A) (limit net notional : A)
      → F.less F.nil notional ≡ true
      → F.less
          (max_of F.nil
            (if F.less F.nil p.signed_notional then F.subtract limit net else F.add limit net))
          notional
        ≡ false
      → Directed p limit net
          (F.times (if F.less F.nil p.signed_notional then F.unit else F.negative F.unit) notional)
          notional
  net_room-Directed p limit net notional above h =
      elim (Bool-cases (F.less F.nil p.signed_notional)) [
        | inl up ↦ long up (rw up refl) (
            max_of-left _ notional above (
              subst
                (λ b.
                  F.less (max_of F.nil (if b then F.subtract limit net else F.add limit net))
                    notional
                  ≡ false)
                up h))
        | inr down ↦ short down (rw down refl) (
            max_of-left _ notional above (
              subst
                (λ b.
                  F.less (max_of F.nil (if b then F.subtract limit net else F.add limit net))
                    notional
                  ≡ false)
                down h))
      ]

  module _ (ieee : Ieee F) where
    risk_scaled-IsShare :
        (p : PortfolioEntryProposal A) (left notional : A)
        → F.less
            (F.times
              (F.magnitude p.signed_notional)
              (min_of F.unit (F.divide (max_of F.nil left) p.committed_risk_fraction ∷ [])))
            notional
          ≡ false
        → IsShare p left notional
    risk_scaled-IsShare p left notional h =
        let ratio = F.divide (max_of F.nil left) p.committed_risk_fraction in
        record {
          share = min_of F.unit (ratio ∷ []);
          whole = min_of-first ieee F.unit (ratio ∷ []);
          ratio = (min_of-rest ieee F.unit (ratio ∷ [])).0;
          covered = h;
        }

    -- The least of a positive request and the rooms is positive if a positive least is not above it.
    approved_notional-positive :
        IeeeNumbers F
        → (p : PortfolioEntryProposal A) (equity : A) (e : PortfolioRiskEngine A) (least : A)
        → F.less F.nil (F.magnitude p.signed_notional) ≡ true
        → F.less F.nil least ≡ true
        → F.less (approved_notional p equity e) least ≡ false
        → F.less F.nil (approved_notional p equity e) ≡ true
    unfolding approved_notional
    approved_notional-positive numbers p equity e least asked above enough =
        let notional = min_of (F.magnitude p.signed_notional) (rooms p equity e) in
        elim (min_of-below ieee (F.magnitude p.signed_notional) (rooms p equity e)) [
          | inl same ↦ rw same asked
          | inr under ↦
              elim (numbers.less_split notional (F.magnitude p.signed_notional) F.nil least under
                above) [ inl positive ↦ positive | inr little ↦ absurd (ground arith) ]
        ]

    approved_notional-requested :
        (p : PortfolioEntryProposal A) (equity : A) (e : PortfolioRiskEngine A)
        → F.less (F.magnitude p.signed_notional) (approved_notional p equity e) ≡ false
    unfolding approved_notional
    approved_notional-requested p equity e =
        min_of-first ieee (F.magnitude p.signed_notional) (rooms p equity e)

    approved_notional-rooms :
        (p : PortfolioEntryProposal A) (equity : A) (e : PortfolioRiskEngine A)
        → All (λ room. F.less room (approved_notional p equity e) ≡ false) (rooms p equity e)
    unfolding approved_notional
    approved_notional-rooms p equity e =
        min_of-rest ieee (F.magnitude p.signed_notional) (rooms p equity e)

    approval-IsWithin :
        (p : PortfolioEntryProposal A) (equity : A) (e : PortfolioRiskEngine A)
        → F.less F.nil (approved_notional p equity e) ≡ true
        → F.less (approved_notional p equity e) e.config.minimum_order_notional ≡ false
        → IsWithin p equity e.config
            (values e.positions)
            (approval p (approved_notional p equity e) e)
    unfolding rooms gross_of gross_exposure net_exposure committed_risk_fraction approval contains
    approval-IsWithin p equity e positive enough =
        let n = approved_notional p equity e in
        let (gross, (net, (symbol, (venue, (strategy, (engine, (correlated, (risk, done)))))))) =
          approved_notional-rooms p equity e in
        record {
          notional = n;
          requested_most = approved_notional-requested p equity e;
          minimum_least = enough;
          gross = max_of-left _ n positive gross;
          directed = net_room-Directed p _ _ n positive net;
          symbol = max_of-left _ n positive symbol;
          venue = max_of-left _ n positive venue;
          strategy = max_of-left _ n positive strategy;
          engine = max_of-left _ n positive engine;
          correlated = max_of-left _ n positive correlated;
          risk_share = risk_scaled-IsShare p _ n risk;
          risk = refl;
          projected_gross = refl;
          projected_net = refl;
          projected_risk = refl;
        }

    -- When floating-point numbers are ordered as IEEE 754 has it (`Ieee`, `IeeeNumbers`), and the
    -- absolute notional of the proposal and the minimum order are above zero, an approval of
    -- `evaluate_entry` allocates, long or short as the proposal is, a notional that is not below
    -- the minimum order, not above the request, and not above any of these: the equity times the
    -- gross, symbol, venue, strategy, engine and correlation limits, each less the absolute
    -- notionals of the open positions that count for it; the equity times the net limit, less the
    -- net exposure for a long proposal and plus it for a short one; and the request times a share
    -- that is not above one nor above what is left of the committed risk, if that is not below
    -- zero, over the risk of the proposal. The approved risk is in proportion, and the projected
    -- exposures are those of the open positions with the approval added.
    pub evaluate_entry-IsWithin :
        IeeeNumbers F
        → (p : PortfolioEntryProposal A) (equity : A) (e : PortfolioRiskEngine A)
          (d : PortfolioRiskDecision A)
        → F.less F.nil (F.magnitude p.signed_notional) ≡ true
        → F.less F.nil e.config.minimum_order_notional ≡ true
        → (evaluate_entry p equity e).0 ≡ ok d
        → d.approved ≡ true
        → IsWithin p equity e.config (values e.positions) d
    evaluate_entry-IsWithin numbers p equity e d asked above h allowed =
        let (e1, rolled, i, same) = evaluate_entry-issues p equity e d h allowed in
        let kept = Rolled-keeps e e1 rolled in
        let raised : PortfolioRiskEngine A = record e1 { peak_equity = i.peak } in
        let above1 =
          subst (λ c. F.less F.nil c.minimum_order_notional ≡ true) (sym kept.config) above in
        let positive =
          approved_notional-positive numbers p equity raised e1.config.minimum_order_notional asked
            above1 i.enough in
        let within = approval-IsWithin p equity raised positive i.enough in
        let made : approval p (approved_notional p equity raised) raised ≡ d = sym i.found ∙ same in
        subst (λ x. IsWithin p equity e.config (values e.positions) x) made
          (subst
            (λ ps.
              IsWithin p equity e.config (values ps)
                (approval p (approved_notional p equity raised) raised))
            kept.positions
            (subst
              (λ c.
                IsWithin p equity c (values e1.positions)
                  (approval p (approved_notional p equity raised) raised))
              kept.config within))
