-- ===== src/Portfolio/Calls/Restored.antt =====
-- Engines that `from_snapshot` builds (src/risk/portfolio_engine.py).
use greenfield.Base.{
  ◌≤◌, ◌+◌, String, ◌≡◌, refl, subst, List, [], ◌∷◌, ok, arith, Floats, lookup, insert, values,
  IsUnique, insert-IsUnique, Dict, length, suc, >>=-eq-ok, ok_eq, raise_if, ltb, All, text_ltb,
  Bool-cases, inl, inr, text_refl, =$_iff,
}
use greenfield.Portfolio.Records.{
  PortfolioPosition, PortfolioRiskSnapshot, PortfolioRiskConfig, position_post_init,
  too_many_positions,
}
use greenfield.Portfolio.Engine.{PortfolioRiskEngine, sort_by_key, insert_by_key, index_by_key}
use greenfield.Portfolio.Calls.{from_snapshot}
use greenfield.Portfolio.Calls.Invariant.{IsValid, IsKept, Entries, insert-Entries}

-- A property of every value of a dictionary, and of every element of a sorted list.
module _ {A : Type 0} (P : PortfolioPosition A → Type 0) where
  insert_by_key-All :
      (p : PortfolioPosition A) (qs : List (PortfolioPosition A))
      → P p
      → All P qs
      → All P (insert_by_key p qs)
  unfolding insert_by_key
  insert_by_key-All p [] fits all_fit = (fits, tt)
  insert_by_key-All p (q ∷ qs) fits (first, rest) = elim (Bool-cases (text_ltb q.key p.key)) [
    | inl below ↦ rw below (first, insert_by_key-All p qs fits rest)
    | inr above ↦ rw above (fits, (first, rest))
  ]

  pub sort_by_key-All : (ps : List (PortfolioPosition A)) → All P ps → All P (sort_by_key ps)
  unfolding sort_by_key
  sort_by_key-All [] all_fit = tt
  sort_by_key-All (p ∷ ps) (first, rest) =
      insert_by_key-All p (sort_by_key ps) first (sort_by_key-All ps rest)

  pub values-All :
      (d : Dict (PortfolioPosition A)) → IsUnique d → Entries (λ k p. P p) d → All P (values d)
  unfolding values lookup
  values-All [] u all_fit = tt
  values-All ((j, p) ∷ d) (fresh, u) all_fit = (
    all_fit j p (ground (arith, text_refl j)),
    values-All d u (λ k q found. all_fit k q (ground (arith, =$_iff j k))),
  )

module _ {A : Type 0} where
  length-insert :
      (k : String) (p : PortfolioPosition A) (d : Dict (PortfolioPosition A))
      → length (insert k p d) ≤ suc (length d)
  unfolding insert
  length-insert k p [] = omega arith
  length-insert k p ((j, q) ∷ d) = ground (arith, length-insert k p d)

  length-index_by_key :
      (ps : List (PortfolioPosition A)) (d : Dict (PortfolioPosition A))
      → length (index_by_key ps d) ≤ length ps + length d
  unfolding index_by_key
  length-index_by_key [] d = omega arith
  length-index_by_key (p ∷ ps) d =
      omega (arith, length-index_by_key ps (insert p.key p d), length-insert p.key p d)

module _ {A : Type 0} ⦃F : Floats A⦄ where
  -- Positions that stand under their own keys and pass their checks, after more are put in.
  index_by_key-IsKept :
      (ps : List (PortfolioPosition A)) (d : Dict (PortfolioPosition A))
      → All (λ p. position_post_init p ≡ ok tt) ps
      → IsUnique d
      → Entries IsKept d
      → IsUnique (index_by_key ps d) × Entries IsKept (index_by_key ps d)
  unfolding index_by_key
  index_by_key-IsKept [] d fits u kept = (u, kept)
  index_by_key-IsKept (p ∷ ps) d (fit, fits) u kept =
      index_by_key-IsKept ps (insert p.key p d) fits (insert-IsUnique p.key p d u)
        (insert-Entries IsKept p.key p d (refl, fit) kept)

  -- A restored engine is well-formed and within its position limit.
  pub from_snapshot-IsValid :
      (config : PortfolioRiskConfig A) (s : PortfolioRiskSnapshot A) (e : PortfolioRiskEngine A)
      → from_snapshot config s ≡ ok e
      → All (λ p. position_post_init p ≡ ok tt) s.positions
      → IsValid e × (length e.positions ≤ e.config.maximum_open_positions) × (e.config ≡ config)
  unfolding from_snapshot lookup
  from_snapshot-IsValid config s e h fits =
      let (done, few, made) =
        >>=-eq-ok
          (raise_if (ltb config.maximum_open_positions (length s.positions)) too_many_positions) _
          h in
      let (u, kept) =
        index_by_key-IsKept s.positions [] fits tt (λ k p none_found. absurd (cc none_found)) in
      subst
        (λ x.
          IsValid x × (length x.positions ≤ x.config.maximum_open_positions) × (x.config ≡ config))
        (ok_eq _ e made)
        (
          record {
            unique = u;
            unique_pending = tt;
            kept = kept;
            pending = λ k d none_found. absurd (cc none_found);
          },
          ground (arith, length-index_by_key s.positions []),
          refl,
        )
