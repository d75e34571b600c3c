-- ===== src/Book/Side/Levels.antt =====
-- The levels that `_levels` returns.
use greenfield.Base.{
  ◌≡◌, List, [], ◌∷◌, Decimal, ok, All, arith, Result-cases, Option-cases, inl, inr,
}
use greenfield.Book.Event.{Python, Json, array, Items, nil, cons}
use greenfield.Book.Side.{Width, level, levels_of, levels, parts}
use greenfield.Book.Side.Laws.{IsLevel}

level-IsLevel :
    (py : Python) (w : Width) (j : Json) (p s : Decimal) → level py w j ≡ ok (p, s) → IsLevel (p, s)
unfolding level
level-IsLevel py w j p s h = elim (Option-cases (parts w j)) [
  | inl none_there ↦ absurd (ground arith)
  | inr ((a, b), e) ↦ elim (Option-cases (py.to_decimal a)) [
    | inl bad ↦ absurd (ground arith)
    | inr (price, e₁) ↦ elim (Option-cases (py.to_decimal b)) [
      | inl bad ↦ absurd (ground arith)
      | inr (size, e₂) ↦ ground arith
    ]
  ]
]

levels_of-IsLevel :
    (py : Python) (w : Width) (js : Items) (ls : List (Decimal × Decimal))
    → levels_of py w js ≡ ok ls
    → All IsLevel ls
unfolding levels_of
levels_of-IsLevel py w nil [] h = tt
levels_of-IsLevel py w nil (l ∷ ls) h = absurd (ground arith)
levels_of-IsLevel py w (cons j js) ls h = elim (Result-cases (level py w j)) [
  | inr (e, bad) ↦ absurd (ground arith)
  | inl ((p, s), good) ↦ elim (Result-cases (levels_of py w js)) [
    | inr (e, bad) ↦ absurd (ground arith)
    | inl (rest, more) ↦
        step ls p s rest (level-IsLevel py w j p s good) (levels_of-IsLevel py w js rest more)
          (ground arith)
  ]
]
  where
    step :
        (ls : List (Decimal × Decimal)) (p s : Decimal) (rest : List (Decimal × Decimal))
        → IsLevel (p, s)
        → All IsLevel rest
        → ls ≡ (p, s) ∷ rest
        → All IsLevel ls
    step ls p s rest h hs e = rw e (h, hs)

-- Every level that is read has a positive price, and a size that is not negative.
pub levels-IsLevel :
    (py : Python) (w : Width) (j : Json) (ls : List (Decimal × Decimal))
    → levels py w j ≡ ok ls
    → All IsLevel ls
unfolding levels
levels-IsLevel py w (array xs) ls h = levels_of-IsLevel py w xs ls h
levels-IsLevel py w _ ls h = absurd (ground arith)
