-- ===== src/Book/Side/Laws.antt =====
-- The level updates of a side, and books that `_validate_book` accepts.
use greenfield.Base.{
  pos, ltb_ℤ, ◌<ℤ◌, ◌≤ℤ◌, true, ◌≡◌, refl, ◌≢◌, Option, none, some, List, [], ◌∷◌, Decimal, dec_eq,
  dec_ltb, ok, arith, All, Bool-cases, inl, inr, if◌then◌else◌,
}
use greenfield.Book.Side.{
  Side, size_at, put, pop, is_zero, apply_level, apply_levels, from_levels, max_price, min_price,
  validate_book,
}

-- No price is held twice, and prices and sizes are positive.
abbrev pub IsSide : Side → Type 0
IsSide [] = Unit
IsSide ((p, s) ∷ side) =
    (pos 0 <ℤ p.units) × (pos 0 <ℤ s.units) × (size_at p side ≡ none) × IsSide side

-- A level as `_levels` lets it through.
abbrev pub IsLevel : Decimal × Decimal → Type 0
IsLevel (p, s) = (pos 0 <ℤ p.units) × (pos 0 ≤ℤ s.units)

pub size_at-put :
    (p q s : Decimal) (side : Side)
    → size_at q (put p s side) ≡ (if dec_eq p q then some s else size_at q side)
unfolding size_at put
size_at-put p q s [] = ground arith
size_at-put p q s ((r, t) ∷ side) = ground (arith, size_at-put p q s side)

size_at-congr : (p q : Decimal) (side : Side) → dec_eq p q ≡ true → size_at p side ≡ size_at q side
unfolding size_at
size_at-congr p q [] h = refl
size_at-congr p q ((r, t) ∷ side) h = ground (arith, size_at-congr p q side h)

pub size_at-pop :
    (p q : Decimal) (side : Side)
    → IsSide side
    → size_at q (pop p side) ≡ (if dec_eq p q then none else size_at q side)
unfolding size_at pop
size_at-pop p q [] h = ground arith
size_at-pop p q ((r, t) ∷ side) h =
    ground (arith, size_at-pop p q side h.3, size_at-congr r q side, h.2)

put-IsSide :
    (p s : Decimal) (side : Side)
    → pos 0 <ℤ p.units
    → pos 0 <ℤ s.units
    → IsSide side
    → IsSide (put p s side)
unfolding put size_at
put-IsSide p s [] hp hs h = (hp, hs, refl, tt)
put-IsSide p s ((r, t) ∷ side) hp hs h = elim (Bool-cases (dec_eq r p)) [
  | inl same ↦ rw same (h.0, hs, h.2, h.3)
  | inr other ↦
      rw other (h.0, h.1, ground (arith, size_at-put p r s side), put-IsSide p s side hp hs h.3)
]

pop-IsSide : (p : Decimal) (side : Side) → IsSide side → IsSide (pop p side)
unfolding pop
pop-IsSide p [] h = tt
pop-IsSide p ((r, t) ∷ side) h = elim (Bool-cases (dec_eq r p)) [
  | inl same ↦ rw same h.3
  | inr other ↦ rw other (h.0, h.1, ground (arith, size_at-pop p r side h.3), pop-IsSide p side h.3)
]

apply_level-IsSide :
    (side : Side) (l : Decimal × Decimal) → IsLevel l → IsSide side → IsSide (apply_level side l)
unfolding apply_level
apply_level-IsSide side (p, s) h v = elim (Bool-cases (is_zero s)) [
  | inl zero_size ↦ rw zero_size (pop-IsSide p side v)
  | inr other ↦ rw other (put-IsSide p s side h.0 (ground arith) v)
]

pub apply_levels-IsSide :
    (side : Side) (ls : List (Decimal × Decimal))
    → All IsLevel ls
    → IsSide side
    → IsSide (apply_levels side ls)
unfolding apply_levels
apply_levels-IsSide side [] h v = v
apply_levels-IsSide side (l ∷ ls) h v =
    apply_levels-IsSide (apply_level side l) ls h.1 (apply_level-IsSide side l h.0 v)

pub from_levels-IsSide :
    (side : Side) (ls : List (Decimal × Decimal))
    → All IsLevel ls
    → IsSide side
    → IsSide (from_levels side ls)
unfolding from_levels
from_levels-IsSide side [] h v = v
from_levels-IsSide side ((p, s) ∷ ls) h v = elim (Bool-cases (ltb_ℤ (pos 0) s.units)) [
  | inl positive ↦
      rw positive
        (from_levels-IsSide (put p s side) ls h.1 (put-IsSide p s side h.0.0 (ground arith) v))
  | inr other ↦ rw other (from_levels-IsSide side ls h.1 v)
]

-- The size that the levels leave at a price: that of the last level at the price, where a size of
-- zero leaves none; the side's own size where no level has the price.
abbrev left_at : Decimal → Decimal × Decimal → Option Decimal → Option Decimal
left_at q (p, s) before = if dec_eq p q then (if is_zero s then none else some s) else before

pub size_after : Decimal → List (Decimal × Decimal) → Option Decimal → Option Decimal
size_after q [] before = before
size_after q (l ∷ ls) before = size_after q ls (left_at q l before)

size_at-apply_level :
    (q : Decimal) (side : Side) (l : Decimal × Decimal)
    → IsSide side
    → size_at q (apply_level side l) ≡ left_at q l (size_at q side)
unfolding apply_level
size_at-apply_level q side (p, s) v = ground (arith, size_at-pop p q side v, size_at-put p q s side)

-- On a side that holds no price twice, with levels as `_levels` lets them through, the size at each
-- price after `_apply_levels` is that of the last level with the price (none if it is zero), and
-- the size before if no level has it.
pub size_at-apply_levels :
    (q : Decimal) (side : Side) (ls : List (Decimal × Decimal))
    → All IsLevel ls
    → IsSide side
    → size_at q (apply_levels side ls) ≡ size_after q ls (size_at q side)
unfolding apply_levels size_after
size_at-apply_levels q side [] h v = refl
size_at-apply_levels q side (l ∷ ls) h v =
    rw (← size_at-apply_level q side l v)
      (size_at-apply_levels q (apply_level side l) ls h.1 (apply_level-IsSide side l h.0 v))

max_price-above :
    (p : Decimal) (side : Side)
    → (p.units ≤ℤ (max_price p side).units) × All (λ l. l.0.units ≤ℤ (max_price p side).units) side
unfolding max_price
max_price-above p [] = (ground arith, tt)
max_price-above p ((q, s) ∷ side) =
    let best : Decimal = if dec_ltb p q then q else p in
    let (h, hs) = max_price-above best side in (ground arith, (ground arith, hs))

min_price-below :
    (p : Decimal) (side : Side)
    → ((min_price p side).units ≤ℤ p.units) × All (λ l. (min_price p side).units ≤ℤ l.0.units) side
unfolding min_price
min_price-below p [] = (ground arith, tt)
min_price-below p ((q, s) ∷ side) =
    let best : Decimal = if dec_ltb q p then q else p in
    let (h, hs) = min_price-below best side in (ground arith, (ground arith, hs))

-- Every bid is below every ask, and neither side is empty.
abbrev pub Uncrossed : Side → Side → Type 0
Uncrossed bids asks =
    (bids ≢ []) × (asks ≢ []) × All (λ b. All (λ a. b.0.units <ℤ a.0.units) asks) bids

All-weaken {ℓ κ μ} :
    {A : Type ℓ} (P : A → Type κ) (Q : A → Type μ) (xs : List A)
    → ((x : A) → P x → Q x)
    → All P xs
    → All Q xs
All-weaken P Q [] f h = tt
All-weaken P Q (x ∷ xs) f h = (f x h.0, All-weaken P Q xs f h.1)

pub validate_book-Uncrossed :
    (bids asks : Side) → validate_book bids asks ≡ ok tt → Uncrossed bids asks
unfolding validate_book
validate_book-Uncrossed [] asks h = absurd (ground arith)
validate_book-Uncrossed (b ∷ bids) [] h = absurd (ground arith)
validate_book-Uncrossed ((p, s) ∷ bids) ((q, t) ∷ asks) h =
    let top = max_price-above p bids in
    let low = min_price-below q asks in
    let hi = (max_price p bids).units in
    let lo = (min_price q asks).units in
    let apart : hi <ℤ lo = ground arith in
    (
      λ e. cc,
      λ e. cc,
      All-weaken (λ b. b.0.units ≤ℤ hi) _ ((p, s) ∷ bids)
          (λ b hb. All-weaken (λ a. lo ≤ℤ a.0.units) _ ((q, t) ∷ asks) (λ a ha. ground arith) low)
          top,
    )
